-- ===== src/Tests/Numbers.antt =====
-- A decimal package with exact ten-thousandths, which shows that the laws can hold.
use banking_go.Prelude.{
  ℕ, ◌+◌, ◌-◌, ◌*◌, ◌/◌, ◌%◌, ◌≤◌, ◌≡◌, refl, true, not, ◌&&◌, ◌==◌, Option, none, some, [], ◌∷◌,
  Text, leb, ℤ, pos, negsuc, pos_part, neg_part, ◌≤ℤ◌, neg_ℤ, ltb_ℤ, eqb_ℤ, eqb_ℤ_iff, arith,
  if◌then◌else◌,
}
use banking_go.Decimal.{Decimals, DecimalLaws}

abbrev digit : ℕ → Option ℕ
digit c = if leb 48 c && leb c 57 then some (c - 48) else none

-- The digits after the point, each worth `unit`.
abbrev fraction : ℕ → Text → Option ℕ
fraction unit [] = some 0
fraction unit (c ∷ rest) =
    let later = fraction (unit / 10) rest in
    elim (digit c) [
      | none ↦ none
      | some d ↦ elim later [ none ↦ none | some n ↦ some (d * unit + n) ]
    ]

abbrev whole : ℕ → Text → Option ℕ
whole n [] = some (n * 10000)
whole n (c ∷ rest) =
    let later = whole (n * 10 + (c - 48)) rest in
    let decimals = fraction 1000 rest in
    if c == 46
    then elim decimals [ none ↦ none | some m ↦ some (n * 10000 + m) ]
    else elim (digit c) [ none ↦ none | some _ ↦ later ]

abbrev parse_exact : Text → Option ℤ
parse_exact s = elim (whole 0 s) [ none ↦ none | some n ↦ some (pos n) ]

abbrev or_zero : Option ℤ → ℤ
or_zero none = pos 0
or_zero (some a) = a

abbrev cents_exponent : ℤ → ℤ
cents_exponent a = if pos_part a % 100 == 0 && neg_part a % 100 == 0 then negsuc 1 else negsuc 3

abbrev pub exact_decimals : Decimals
exact_decimals = record {
  Decimal = ℤ;
  new_from_string = parse_exact;
  from_numeric = λ v. some v;
  require_from_string = λ s. or_zero (parse_exact s);
  zero_decimal = pos 0;
  is_positive = λ a. ltb_ℤ (pos 0) a;
  is_zero = λ a. eqb_ℤ a (pos 0);
  exponent = cents_exponent;
  greater_than = λ a b. ltb_ℤ b a;
  less_than = ltb_ℤ;
  less_than_or_equal = λ a b. not (ltb_ℤ b a);
  equal = eqb_ℤ;
  neg = neg_ℤ;
  numeric = λ a. a;
}

whole_cents :
    (a : ℤ)
    → ltb_ℤ (pos 0) a ≡ true
    → neg_ℤ (pos 2) ≤ℤ cents_exponent a
    → (n : ℕ) × (a ≡ pos (100 * n)) × (1 ≤ n)
unfolding neg_ℤ
whole_cents (pos m) h k = (m / 100, ground arith, ground arith)
whole_cents (negsuc m) h k = absurd (ground arith)

pub exact_laws : DecimalLaws exact_decimals
exact_laws = record {
  numeric-zero = refl;
  zero-IsZero = refl;
  numeric-neg = λ a. refl;
  numeric_mono = λ a b h. ground arith;
  numeric_bounded = λ a b h. ground arith;
  numeric_nonneg = λ a h. ground arith;
  numeric_cents = whole_cents;
  numeric-equal = λ a b h. (eqb_ℤ_iff a b).0 h;
  equal_self = λ a. ground arith;
  from_numeric_exact = λ v a h. ground arith;
}
