-- ===== src/Payment/Input.antt =====
-- backend/internal/payment/payments.go: the input of CreatePayment, its normal form and its checks.
use banking_go.Prelude.{
  ℕ, ◌+◌, ◌*◌, Bool, true, false, not, ◌&&◌, ◌||◌, ◌==◌, ltb, leb, [], ◌∷◌, Text, codes, text_eq,
  trim_space, to_upper_text, is_control, byte_len, length, if◌then◌else◌,
}
use banking_go.Errors.{Result, ok, err, Error, ◌>>=◌, ◌>>◌, fail_if}
use banking_go.Decimal.{Decimals}
use banking_go.Account.Iban.{normalize_iban, validate_iban, is_capital, is_digit}
use banking_go.Ledger.Money.{parse_eur_amount}
use banking_go.Database.Tables.{NullUuid}

-- `RequestedExecution` is in nanoseconds, as in Go; the clock and the columns have microseconds.
pub record CreatePaymentInput : Type 0 where
  pub owner_id : ℕ
  pub source_account_id : ℕ
  pub beneficiary_name : Text
  pub beneficiary_iban : Text
  pub beneficiary_bic : Text
  pub amount : Text
  pub transfer_type : Text
  pub schedule_type : Text
  pub purpose : Text
  pub creditor_reference : Text
  pub requested_execution : ℕ
  pub idempotency_key : Text
  pub standing_order_id : NullUuid

-- `strings.ReplaceAll(value, " ", "")`
unfoldable pub drop_blanks : Text → Text
drop_blanks [] = []
drop_blanks (c ∷ s) = let rest = drop_blanks s in if c == b' ' then rest else c ∷ rest

unfoldable pub normalize_bic : Text → Text
normalize_bic value = to_upper_text (drop_blanks (trim_space value))

unfoldable pub normalize_input : CreatePaymentInput → CreatePaymentInput
normalize_input input = record input {
  beneficiary_name = trim_space input.beneficiary_name;
  beneficiary_iban = normalize_iban input.beneficiary_iban;
  beneficiary_bic = normalize_bic input.beneficiary_bic;
  purpose = trim_space input.purpose;
  creditor_reference = trim_space input.creditor_reference;
  idempotency_key = trim_space input.idempotency_key;
  transfer_type = to_upper_text (trim_space input.transfer_type);
  schedule_type = to_upper_text (trim_space input.schedule_type);
}

-- `(?i)[a-z]`: with the two code points that fold to an ASCII letter (long s, Kelvin sign).
abbrev pub folds_to_letter : ℕ → Bool
folds_to_letter c =
    (leb b'a' c && leb c b'z') || (leb b'A' c && leb c b'Z') || c == 383 || c == 8490

unfoldable pub has_char : ℕ → Text → Bool
has_char c [] = false
has_char c (d ∷ s) = c == d || has_char c s

-- `[a-z][^>]*>` at the start.
abbrev pub tag_name : Text → Bool
tag_name [] = false
tag_name (c ∷ s) = folds_to_letter c && has_char b'>' s

-- `/?[a-z][^>]*>` at the start.
abbrev pub tag_body : Text → Bool
tag_body [] = false
tag_body (c ∷ s) = if c == b'/' then tag_name s else tag_name (c ∷ s)

-- `paymentMarkupPattern.MatchString`
unfoldable pub payment_markup : Text → Bool
payment_markup [] = false
payment_markup (c ∷ s) = (c == b'<' && tag_body s) || payment_markup s

-- The loop over the characters.
unfoldable pub has_control : Text → Bool
has_control [] = false
has_control (c ∷ s) = is_control c || has_control s

unfoldable pub valid_payment_plain_text : Text → ℕ → ℕ → Bool → Bool
valid_payment_plain_text value min_length max_length required =
    if text_eq value [] && not required
    then true
    else if ltb (length value) min_length || ltb max_length (length value) || payment_markup value
    then false
    else not (has_control value)

unfoldable pub normalize_payment_plain_text : Text → ℕ → ℕ → Bool → Result Text
normalize_payment_plain_text raw min_length max_length required =
    let value = trim_space raw in
    if valid_payment_plain_text value min_length max_length required
    then ok value
    else err Error.invalid_payment_input

unfoldable pub normalize_payee_name : Text → Result Text
normalize_payee_name raw = normalize_payment_plain_text raw 1 140 true

abbrev pub bic_char_at : ℕ → ℕ → Bool
bic_char_at i c = if ltb i 6 then is_capital c else is_capital c || is_digit c

unfoldable pub bic_from : ℕ → Text → Bool
bic_from i [] = i == 8 || i == 11
bic_from i (c ∷ s) = bic_char_at i c && bic_from (i + 1) s

-- `bicPattern.MatchString`
unfoldable pub bic_pattern : Text → Bool
bic_pattern value = bic_from 0 value

abbrev pub is_transfer_type : Text → Bool
is_transfer_type value =
    text_eq value [] || text_eq value (codes "STANDARD") || text_eq value (codes "INSTANT")

abbrev pub is_schedule_type : Text → Bool
is_schedule_type value = text_eq value (codes "IMMEDIATE") || text_eq value (codes "SCHEDULED")

-- `input.RequestedExecution.Before(now.Add(-time.Minute))`
abbrev pub is_past : ℕ → ℕ → Bool
is_past requested now = ltb (requested + 60_000_000_000) (now * 1_000)

module _ (D : Decimals) where
  -- `ErrInvalidAmount` stands for every refusal of the amount.
  abbrev pub payment_amount : Text → Result D.Decimal
  payment_amount raw = elim (parse_eur_amount D raw) [
    | ok amount ↦ ok amount
    | err _ ↦ err Error.invalid_amount
  ]

  unfoldable pub validate_payment_input : CreatePaymentInput → ℕ → Result D.Decimal
  validate_payment_input input now = do
    fail_if
        (input.owner_id == 0
          || input.source_account_id == 0
          || not (valid_payment_plain_text input.beneficiary_name 1 140 true))
        Error.invalid_payment_input
    validate_iban input.beneficiary_iban
    fail_if (not (text_eq input.beneficiary_bic []) && not (bic_pattern input.beneficiary_bic))
        Error.invalid_payment_input
    amount ← payment_amount input.amount
    fail_if
        (not (valid_payment_plain_text input.purpose 0 140 false)
          || not (valid_payment_plain_text input.creditor_reference 0 35 false))
        Error.invalid_payment_input
    fail_if (ltb (byte_len input.idempotency_key) 8 || ltb 128 (byte_len input.idempotency_key))
        Error.invalid_payment_input
    fail_if (not (is_transfer_type input.transfer_type)) Error.invalid_payment_input
    fail_if (not (is_schedule_type input.schedule_type)) Error.invalid_payment_input
    fail_if
        (text_eq input.schedule_type (codes "SCHEDULED") && is_past input.requested_execution now)
        Error.invalid_payment_input
    ok amount
