-- ===== src/Decimal.antt =====
-- The decimal numbers of github.com/shopspring/decimal, a third-party package: a parameter. A
-- NUMERIC(19,4) column holds an integer number of ten-thousandths.
use banking_go.Prelude.{
  ℕ, ◌*◌, ◌≤◌, ◌≡◌, Bool, true, false, Option, some, Text, ℤ, pos, ◌≤ℤ◌, neg_ℤ,
}

-- The operations that the program calls. `numeric d` is the value of a NUMERIC(19,4) column that is
-- given `d.StringFixed(4)`; `from_numeric v` is `decimal.NewFromString` on the text of such a column.
pub record Decimals : Type 1 where
  pub Decimal : Type 0
  pub new_from_string : Text → Option Decimal
  pub from_numeric : ℤ → Option Decimal
  pub require_from_string : Text → Decimal
  pub zero_decimal : Decimal
  pub is_positive : Decimal → Bool
  pub is_zero : Decimal → Bool
  pub exponent : Decimal → ℤ
  pub greater_than : Decimal → Decimal → Bool
  pub less_than : Decimal → Decimal → Bool
  pub less_than_or_equal : Decimal → Decimal → Bool
  pub equal : Decimal → Decimal → Bool
  pub neg : Decimal → Decimal
  pub numeric : Decimal → ℤ

-- What the program relies on of them.
pub record DecimalLaws (D : Decimals) : Type 0 where
  -- Zero prints as 0.0000.
  pub numeric-zero : D.numeric D.zero_decimal ≡ pos 0
  pub zero-IsZero : D.is_zero D.zero_decimal ≡ true
  -- Rounding is symmetric about 0.
  pub numeric-neg : (a : D.Decimal) → D.numeric (D.neg a) ≡ neg_ℤ (D.numeric a)
  -- Rounding is monotone.
  pub numeric_mono : (a b : D.Decimal) → D.less_than a b ≡ false → D.numeric b ≤ℤ D.numeric a
  pub numeric_bounded : (a b : D.Decimal) → D.greater_than a b ≡ false → D.numeric a ≤ℤ D.numeric b
  -- A positive number does not round below 0.
  pub numeric_nonneg : (a : D.Decimal) → D.is_positive a ≡ true → pos 0 ≤ℤ D.numeric a
  -- Whole cents have no rounding, and a positive one is a cent or more.
  pub numeric_cents :
      (a : D.Decimal)
      → D.is_positive a ≡ true
      → neg_ℤ (pos 2) ≤ℤ D.exponent a
      → (n : ℕ) × (D.numeric a ≡ pos (100 * n)) × (1 ≤ n)
  -- Equal numbers print alike, and a number is equal to itself.
  pub numeric-equal : (a b : D.Decimal) → D.equal a b ≡ true → D.numeric a ≡ D.numeric b
  pub equal_self : (a : D.Decimal) → D.equal a a ≡ true
  -- The value of a column is read back exactly.
  pub from_numeric_exact : (v : ℤ) (a : D.Decimal) → D.from_numeric v ≡ some a → D.numeric a ≡ v
