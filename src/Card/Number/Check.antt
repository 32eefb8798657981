-- ===== src/Card/Number/Check.antt =====
-- The check digit of a card number (validPAN, generatePAN and randomDigits of
-- backend/internal/card/service.go).
use banking_go.Prelude.{
  ℕ, zero, suc, ◌+◌, ◌-◌, ◌%◌, ◌≤◌, ◌<◌, ◌≡◌, refl, ◌∙◌, ap, Bool, true, false, not, ◌==◌, ltb,
  if◌then◌else◌, Bool-cases, inl, inr, some, List, [], ◌∷◌, ◌++◌, length, Text, byte_len, All,
  arith,
}
use mathlib.Core.Path.{subst}
use banking_go.Errors.{ok}
use banking_go.Card.Number.{
  is_digit, weight, luhn_sum, starts_with_four, valid_pan, find_check_digit, random_digits,
  generate_pan,
}

unfoldable pub IsDigit : ℕ → Type 0
IsDigit c = is_digit c ≡ true

-- Whether the digit after `n` others is doubled.
abbrev alternate : Bool → ℕ → Bool
alternate doubled zero = doubled
alternate doubled (suc n) = alternate (not doubled) n

-- The sum of digits before the last.
luhn_sum-append :
    (doubled : Bool) (sum : ℕ) (base : Text)
    → All IsDigit base
    → (total : ℕ) × ((c : ℕ)
        → IsDigit c
        → luhn_sum doubled sum (base ++ (c ∷ []))
          ≡ some (total + weight (alternate doubled (length base)) (c - 48)))
unfolding luhn_sum IsDigit
luhn_sum-append doubled sum [] h = (sum, λ c d. ground arith)
luhn_sum-append doubled sum (x ∷ base) h =
    let (total, k) = luhn_sum-append (not doubled) (sum + weight doubled (x - 48)) base h.1 in
    (total, λ c d. let e = k c d in let f = h.0 in ground arith)

byte_len-digits : (base : Text) → All IsDigit base → byte_len base ≡ length base
unfolding byte_len IsDigit
byte_len-digits [] h = refl
byte_len-digits (x ∷ base) h = let e = byte_len-digits base h.1 in let f = h.0 in ground arith

digits-append :
    (base : Text) (c : ℕ) → All IsDigit base → IsDigit c → All IsDigit (base ++ (c ∷ []))
digits-append [] c h d = (d, tt)
digits-append (x ∷ base) c h d = (h.0, digits-append base c h.1 d)

length-snoc : (base : Text) (c : ℕ) → length (base ++ (c ∷ [])) ≡ suc (length base)
length-snoc [] c = refl
length-snoc (x ∷ base) c = ap suc (length-snoc base c)

-- A number of fifteen digits with one more, by the sum.
valid_by_sum :
    (base : Text)
    → All IsDigit base
    → length base ≡ 15
    → starts_with_four base ≡ true
    → (total : ℕ) × ((c : ℕ)
        → IsDigit c
        → valid_pan (base ++ (c ∷ [])) ≡ ((total + (c - 48)) % 10 == 0))
unfolding valid_pan
valid_by_sum [] h n four = (0, λ c d. ground arith)
valid_by_sum (x ∷ base) h n four =
    let (total, k) = luhn_sum-append true 0 (x ∷ base) h in
    (
      total,
      λ c d.
          let e = k c d in
          let size = byte_len-digits (x ∷ base ++ (c ∷ [])) (digits-append (x ∷ base) c h d) in
          let count = length-snoc (x ∷ base) c in
          let single : alternate true (length (x ∷ base)) ≡ false = ap (alternate true) n in
          ground arith,
    )

-- The search finds the digit that is `ahead` of the one it starts at.
find_check_digit-valid :
    (rounds : ℕ) (base : Text) (digit ahead : ℕ)
    → ahead < rounds
    → valid_pan (base ++ ((digit + ahead) ∷ [])) ≡ true
    → (pan : Text) × (find_check_digit rounds base digit ≡ some pan) × (valid_pan pan ≡ true)
unfolding find_check_digit
find_check_digit-valid zero base digit ahead h v = absurd (ground arith)
find_check_digit-valid (suc rounds) base digit zero h v = (
  base ++ (digit ∷ []),
  ground arith,
  subst (λ (c : ℕ). valid_pan (base ++ (c ∷ [])) ≡ true) (omega arith) v,
)
find_check_digit-valid (suc rounds) base digit (suc ahead) h v =
    elim (Bool-cases (valid_pan (base ++ (digit ∷ [])))) [
      | inl e ↦ (base ++ (digit ∷ []), ground arith, e)
      | inr e ↦
          let (pan, found, valid) =
            find_check_digit-valid rounds base (digit + 1) ahead (omega arith)
              (subst (λ (c : ℕ). valid_pan (base ++ (c ∷ [])) ≡ true) (omega arith) v) in
          (pan, ground (arith, found), valid)
    ]

pub ends_checked :
    (base : Text)
    → All IsDigit base
    → length base ≡ 15
    → starts_with_four base ≡ true
    → (pan : Text) × (find_check_digit 10 base 48 ≡ some pan) × (valid_pan pan ≡ true)
unfolding IsDigit
ends_checked base h n four =
    let (total, k) = valid_by_sum base h n four in
    let ahead : ℕ = (10 - total % 10) % 10 in
    let last = k (48 + ahead) (ground arith) in
    find_check_digit-valid 10 base 48 ahead (omega arith) (last ∙ ground arith)

-- The bytes that give a digit.
unfoldable pub fair_bytes : List ℕ → ℕ
fair_bytes [] = 0
fair_bytes (b ∷ bytes) = (if ltb b 250 then 1 else 0) + fair_bytes bytes

random_digits-digits :
    (n : ℕ) (bytes : List ℕ)
    → n ≤ fair_bytes bytes
    → (text : Text) × (rest : List ℕ) × (random_digits n bytes ≡ ok (text, rest))
      × All IsDigit text
      × (length text ≡ n)
unfolding random_digits fair_bytes IsDigit
random_digits-digits zero bytes h = ([], bytes, refl, tt, refl)
random_digits-digits (suc n) [] h = absurd (omega arith)
random_digits-digits (suc n) (b ∷ bytes) h = elim (Bool-cases (ltb b 250)) [
  | inl e ↦
      let (text, rest, drawn, digits, size) = random_digits-digits n bytes (ground arith) in
      ((48 + b % 10) ∷ text, rest, ground arith, (ground arith, digits), ap suc size)
  | inr e ↦
      let (text, rest, drawn, digits, size) = random_digits-digits (suc n) bytes (ground arith) in
      (text, rest, ground arith, digits, size)
]

-- With fourteen bytes below 250 still to come, a number is generated and passes the test that the
-- bank makes of a presented card; the error for a missing check digit is not reached.
pub generate_pan-valid :
    (bytes : List ℕ)
    → 14 ≤ fair_bytes bytes
    → (pan : Text) × (rest : List ℕ) × (generate_pan bytes ≡ ok (pan, rest))
      × (valid_pan pan ≡ true)
unfolding generate_pan IsDigit
generate_pan-valid bytes h =
    let (text, rest, drawn, digits, size) = random_digits-digits 14 bytes h in
    let (pan, found, valid) = ends_checked (52 ∷ text) (refl, digits) (ap suc size) refl in
    (pan, rest, ground arith, valid)
