-- ===== src/Ledger/Money.antt =====
-- backend/internal/ledger/money.go
use banking_go.Prelude.{
  ℕ, ◌*◌, ◌≤◌, ◌≡◌, [], Bool, true, false, not, ◌||◌, none, some, ltb, Text, codes, text_eq,
  trim_space, byte_len, pos, neg_ℤ, ltb_ℤ, ◌≤ℤ◌, arith, if◌then◌else◌,
}
use banking_go.Errors.{Result, ok, err, Error}
use banking_go.Decimal.{Decimals, DecimalLaws}

abbrev pub max_eur_amount_input_length : ℕ
max_eur_amount_input_length = 18

module _ (D : Decimals) where
  abbrev pub max_eur_amount : D.Decimal
  max_eur_amount = D.require_from_string (codes "999999999999999.99")

  -- The test on a parsed amount.
  abbrev pub amount_refused : D.Decimal → Bool
  amount_refused amount =
      not (D.is_positive amount)
      || ltb_ℤ (D.exponent amount) (neg_ℤ (pos 2))
      || D.greater_than amount max_eur_amount

  unfoldable pub parse_eur_amount : Text → Result D.Decimal
  parse_eur_amount raw =
      let value = trim_space raw in
      if text_eq value [] || ltb max_eur_amount_input_length (byte_len value)
      then err Error.invalid_amount
      else elim (D.new_from_string value) [
        | none ↦ err Error.invalid_amount
        | some amount ↦ if amount_refused amount then err Error.invalid_amount else ok amount
      ]

  -- The facts that a success leaves.
  accepted :
      (raw : Text) {amount : D.Decimal}
      → parse_eur_amount raw ≡ ok amount
      → (D.new_from_string (trim_space raw) ≡ some amount)
        × (byte_len (trim_space raw) ≤ 18)
        × (amount_refused amount ≡ false)
  unfolding parse_eur_amount
  accepted raw {amount} h = ground arith

  passed :
      (amount : D.Decimal)
      → amount_refused amount ≡ false
      → (D.is_positive amount ≡ true)
        × (neg_ℤ (pos 2) ≤ℤ D.exponent amount)
        × (D.greater_than amount max_eur_amount ≡ false)
  passed amount h = ground arith

module _ (D : Decimals) (L : DecimalLaws D) where
  -- With the laws of the decimal package, an amount that is accepted is the number of the trimmed
  -- text of at most 18 bytes, it is positive, it is a whole number of cents, at least one, and
  -- its column value is at most that of the largest amount.
  pub parse_eur_amount_cents :
      (raw : Text) {amount : D.Decimal}
      → parse_eur_amount D raw ≡ ok amount
      → (D.new_from_string (trim_space raw) ≡ some amount)
        × (byte_len (trim_space raw) ≤ 18)
        × (D.is_positive amount ≡ true)
        × ((n : ℕ) × (D.numeric amount ≡ pos (100 * n)) × (1 ≤ n))
        × (D.numeric amount ≤ℤ D.numeric (max_eur_amount D))
  parse_eur_amount_cents raw {amount} h =
      let (read, short, fits) = accepted D raw h in
      let (positive, exact, bounded) = passed D amount fits in
      (
        read,
        short,
        positive,
        L.numeric_cents amount positive exact,
        L.numeric_bounded amount (max_eur_amount D) bounded,
      )
