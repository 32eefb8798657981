-- ===== src/Account/Iban.antt =====
-- backend/internal/account/iban.go. Random numbers are a parameter of the callers; the German demo
-- IBAN is a function of the account number.
pub mod Plain
pub mod Checksum
use mathlib.Core.List.{filter}
use banking_go.Prelude.{
  ℕ, zero, suc, ◌+◌, ◌-◌, ◌*◌, ◌/◌, ◌%◌, ◌≡◌, refl, Bool, true, false, not, ◌&&◌, ◌||◌, Option,
  none, some, List, [], ◌∷◌, ◌++◌, ltb, leb, ◌==◌, if◌then◌else◌, take, drop, length, replicate,
  Text, codes, text_eq, byte_len, rune_len, is_space, trim_space, to_upper_text,
}
use banking_go.Errors.{Result, ok, err, Error, ◌>>=◌, ◌>>◌, fail_if}

abbrev pub demo_bank_code : Text
demo_bank_code = codes "99999999"

abbrev pub german_iban_length : ℕ
german_iban_length = 22

-- `strings.Map` with -1 for white space.
unfoldable pub drop_spaces : Text → Text
drop_spaces [] = []
drop_spaces (r ∷ s) = let rest = drop_spaces s in if is_space r then rest else r ∷ rest

unfoldable pub normalize_iban : Text → Text
normalize_iban value = to_upper_text (drop_spaces (trim_space value))

abbrev pub is_capital : ℕ → Bool
is_capital r = leb b'A' r && leb r b'Z'

abbrev pub is_digit : ℕ → Bool
is_digit r = leb b'0' r && leb r b'9'

-- What the rune at byte offset `i` may be.
abbrev pub shape_at : ℕ → ℕ → Bool
shape_at i r =
    if ltb i 2 then is_capital r else if ltb i 4 then is_digit r else is_digit r || is_capital r

-- The loop over the runes, which returns at the first that does not fit.
unfoldable pub shape_ok : ℕ → Text → Bool
shape_ok i [] = true
shape_ok i (r ∷ s) = shape_at i r && shape_ok (i + rune_len r) s

-- The loop of `mod97`.
unfoldable pub mod97_from : ℕ → Text → ℕ
mod97_from remainder [] = remainder
mod97_from remainder (r ∷ s) =
    mod97_from
      (if is_digit r
        then (remainder * 10 + (r - b'0')) % 97
        else (remainder * 100 + (r - b'A' + 10)) % 97)
      s

unfoldable pub mod97 : Text → ℕ
mod97 iban = mod97_from 0 (drop 4 iban ++ take 4 iban)

unfoldable pub validate_iban : Text → Result (Unit {0})
validate_iban value = do
  let iban = normalize_iban value
  fail_if (ltb (byte_len iban) 15 || ltb 34 (byte_len iban)) Error.invalid_iban
  fail_if (text_eq (take 2 iban) (codes "DE") && not (byte_len iban == german_iban_length))
      Error.invalid_iban
  fail_if (not (shape_ok 0 iban)) Error.invalid_iban
  fail_if (not (mod97 iban == 1)) Error.invalid_iban

-- The last `k` decimal digits of `n`: `%010d` and `%02d`, where `n` has no more digits.
unfoldable pub pad_digits : ℕ → ℕ → Text
pad_digits zero n = []
pad_digits (suc k) n = pad_digits k (n / 10) ++ (b'0' + n % 10) ∷ []

-- `big.Int.SetString` in base 10, on a text of digits.
unfoldable pub decimal_from : ℕ → Text → Option ℕ
decimal_from v [] = some v
decimal_from v (r ∷ s) = if is_digit r then decimal_from (v * 10 + (r - b'0')) s else none

unfoldable pub german_demo_iban : ℕ → Result Text
german_demo_iban account_number =
    if leb 10_000_000_000 account_number
    then err (Error.plain "demo account number must contain at most 10 digits")
    else do
      let bban = demo_bank_code ++ pad_digits 10 account_number
      value ← elim (decimal_from 0 (bban ++ codes "131400")) [
        | none ↦ err (Error.plain "build demo IBAN checksum")
        | some v ↦ ok v
      ]
      let check_digits = 98 - value % 97
      let iban = codes "DE" ++ (pad_digits 2 check_digits ++ bban)
      elim (validate_iban iban) [
        | ok _ ↦ ok iban
        | err e ↦ err (Error.wrapped "generated IBAN failed validation" e)
      ]

unfoldable pub mask_iban : Text → Text
mask_iban value =
    let iban = normalize_iban value in
    if leb (byte_len iban) 8
    then codes "****"
    else take 4 iban ++ (replicate (byte_len iban - 8) b'*' ++ drop (length iban - 4) iban)
