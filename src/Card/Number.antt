-- ===== src/Card/Number.antt =====
-- Card numbers and their check digit (generatePAN, validPAN, normalizePAN, validCVC, randomDigits of
-- backend/internal/card/service.go). The random source is the bytes that it still gives.
pub mod Check
use banking_go.Prelude.{
  ℕ, zero, suc, ◌+◌, ◌-◌, ◌*◌, ◌/◌, ◌%◌, ◌≤◌, ◌≡◌, refl, Bool, true, false, not, ◌&&◌, ◌||◌, ◌==◌,
  ltb, leb, if◌then◌else◌, Option, none, some, List, [], ◌∷◌, ◌++◌, length, Text, byte_len,
  trim_space, All, arith,
}
use banking_go.Errors.{Result, ok, err, Error, ◌>>=◌}

abbrev pub is_digit : ℕ → Bool
is_digit c = leb 48 c && leb c 57

-- A doubled digit of two places counts as the sum of its places.
abbrev pub weight : Bool → ℕ → ℕ
weight doubled digit =
    if doubled then (if ltb 9 (digit * 2) then digit * 2 - 9 else digit * 2) else digit

-- The loop over the characters; `doubled` is `index % 2 == 0`.
unfoldable pub luhn_sum : Bool → ℕ → Text → Option ℕ
luhn_sum doubled sum [] = some sum
luhn_sum doubled sum (c ∷ rest) =
    let total = luhn_sum (not doubled) (sum + weight doubled (c - 48)) rest in
    if is_digit c then total else none

abbrev pub starts_with_four : Text → Bool
starts_with_four [] = false
starts_with_four (c ∷ rest) = c == 52

unfoldable pub valid_pan : Text → Bool
valid_pan value =
    if not (byte_len value == 16) || not (starts_with_four value)
    then false
    else (elim (luhn_sum true 0 value) [ some sum ↦ sum % 10 == 0 | none ↦ false ])

-- Three bytes that are digits, so three digits.
unfoldable pub valid_cvc : Text → Bool
valid_cvc (a ∷ b ∷ c ∷ []) = is_digit a && is_digit b && is_digit c
valid_cvc _ = false

unfoldable pub without_separators : Text → Text
without_separators [] = []
without_separators (c ∷ rest) =
    let others = without_separators rest in if c == 32 || c == 45 then others else c ∷ others

unfoldable pub normalize_pan : Text → Text
normalize_pan value = without_separators (trim_space value)

-- `for digit := '0'; digit <= '9'`, with the rounds left.
unfoldable pub find_check_digit : ℕ → Text → ℕ → Option Text
find_check_digit zero base digit = none
find_check_digit (suc rounds) base digit =
    let later = find_check_digit rounds base (digit + 1) in
    if valid_pan (base ++ (digit ∷ [])) then some (base ++ (digit ∷ [])) else later

abbrev pub prepend : ℕ → Text × List ℕ → Text × List ℕ
prepend c (text, bytes) = (c ∷ text, bytes)

-- Each digit from one byte below 250, which makes them equally likely.
unfoldable pub random_digits : ℕ → List ℕ → Result (Text × List ℕ)
random_digits zero bytes = ok ([], bytes)
random_digits (suc n) [] = err (Error.plain "rand")
random_digits (suc n) (b ∷ bytes) =
    let taken = random_digits n bytes in
    let skipped = random_digits (suc n) bytes in
    if ltb b 250 then (taken >>= (λ r. ok (prepend (48 + b % 10) r))) else skipped

abbrev pub checked : Text × List ℕ → Result (Text × List ℕ)
checked (prefix, bytes) = elim (find_check_digit 10 (52 ∷ prefix) 48) [
  | some pan ↦ ok (pan, bytes)
  | none ↦ err (Error.plain "generate card checksum")
]

unfoldable pub generate_pan : List ℕ → Result (Text × List ℕ)
generate_pan bytes = random_digits 14 bytes >>= checked
