-- ===== src/Database/LedgerRepository/Columns.antt =====
-- The balance updates of a movement are the gains of its entries, whatever the decimal package is.
use banking_go.Prelude.{◌≡◌, ◌∙◌, ℤ, pos, ◌-ℤ◌, neg_ℤ, int_laws}
use banking_go.Decimal.{Decimals, DecimalLaws}

minus_zero : (a : ℤ) → a ≡ a -ℤ pos 0
minus_zero a = omega int_laws

neg-eq-zero_minus : (a : ℤ) → neg_ℤ a ≡ pos 0 -ℤ a
neg-eq-zero_minus a = omega int_laws

module _ (D : Decimals) (L : DecimalLaws D) (amount : D.Decimal) where
  pub credit_gain : D.numeric amount ≡ D.numeric amount -ℤ D.numeric D.zero_decimal
  credit_gain = rw L.numeric-zero (minus_zero (D.numeric amount))

  pub debit_gain : D.numeric (D.neg amount) ≡ D.numeric D.zero_decimal -ℤ D.numeric amount
  debit_gain = rw L.numeric-zero (L.numeric-neg amount ∙ neg-eq-zero_minus (D.numeric amount))
