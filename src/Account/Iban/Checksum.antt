-- ===== src/Account/Iban/Checksum.antt =====
-- The checksum of generated IBANs: `mod97` computes a remainder, and the two check digits make it 1.
use native.Mathlib.Nat.{pow-suc}
use banking_go.Prelude.{
  ℕ, zero, suc, ◌+◌, ◌-◌, ◌*◌, ◌/◌, ◌%◌, ◌^◌, ◌<◌, ◌≡◌, refl, ◌∙◌, ap, true, some, [], ◌∷◌, ◌++◌,
  arith, Text, codes, All, All-append, length, length-append, byte_len, if◌then◌else◌,
}
use banking_go.Errors.{ok}
use banking_go.Account.Iban.{
  is_digit, demo_bank_code, decimal_from, pad_digits, mod97, mod97_from, shape_ok, validate_iban,
  german_demo_iban, normalize_iban,
}
use banking_go.Account.Iban.Plain.{
  IsPlain, IsDigit, IsDigit-IsPlain, normalize_iban-plain, byte_len-plain, shape_ok-plain,
}

-- The number that a text of digits and capitals stands for, a capital as two digits.
unfoldable pub value_from : ℕ → Text → ℕ
value_from v [] = v
value_from v (r ∷ s) =
    value_from (if is_digit r then v * 10 + (r - b'0') else v * 100 + (r - b'A' + 10)) s

value_from-append : (v : ℕ) (s t : Text) → value_from v (s ++ t) ≡ value_from (value_from v s) t
unfolding value_from
value_from-append v [] t = refl
value_from-append v (r ∷ s) t =
    value_from-append (if is_digit r then v * 10 + (r - b'0') else v * 100 + (r - b'A' + 10)) s t

-- `mod97` is the remainder of that number.
pub mod97_from-value : (v : ℕ) (s : Text) → mod97_from (v % 97) s ≡ value_from v s % 97
unfolding mod97_from value_from
mod97_from-value v [] = refl
mod97_from-value v (r ∷ s) =
    ap (λ (k : ℕ). mod97_from k s) (ground arith)
    ∙ mod97_from-value (if is_digit r then v * 10 + (r - b'0') else v * 100 + (r - b'A' + 10)) s

decimal_from-value : (v : ℕ) (s : Text) → All IsDigit s → decimal_from v s ≡ some (value_from v s)
unfolding decimal_from value_from
decimal_from-value v [] h = refl
decimal_from-value v (r ∷ s) h = ground (arith, h.0, decimal_from-value (v * 10 + (r - b'0')) s h.1)

pad_digits-IsDigit : (k n : ℕ) → All IsDigit (pad_digits k n)
unfolding pad_digits
pad_digits-IsDigit zero n = tt
pad_digits-IsDigit (suc k) n =
    All-append IsDigit (pad_digits k (n / 10)) ((b'0' + n % 10) ∷ [])
      (pad_digits-IsDigit k (n / 10)) (ground arith, tt)

length-pad_digits : (k n : ℕ) → length (pad_digits k n) ≡ k
unfolding pad_digits
length-pad_digits zero n = refl
length-pad_digits (suc k) n = omega (
  arith,
  length-append (pad_digits k (n / 10)) ((b'0' + n % 10) ∷ []),
  length-pad_digits k (n / 10),
)

last_digit : (v d : ℕ) → d < 10 → value_from v ((b'0' + d) ∷ []) ≡ v * 10 + d
unfolding value_from
last_digit v d h = ground arith

-- A number of at most `k` digits is read back from its padded digits.
value-pad_digits : (v k n : ℕ) → n < 10 ^ k → value_from v (pad_digits k n) ≡ v * 10 ^ k + n
unfolding pad_digits value_from
value-pad_digits v zero n h = omega arith
value-pad_digits v (suc k) n h =
    value_from-append v (pad_digits k (n / 10)) ((b'0' + n % 10) ∷ [])
    ∙ last_digit (value_from v (pad_digits k (n / 10))) (n % 10) (omega arith)
    ∙ omega (
      arith,
      value-pad_digits v k (n / 10) (omega (arith, pow-suc 10 k)),
      ap (λ (t : ℕ). v * t) (pow-suc 10 k),
    )

check_value :
    (v c : ℕ) → c < 100 → value_from v (codes "DE" ++ pad_digits 2 c) ≡ v * 1000000 + 131400 + c
unfolding value_from pad_digits
check_value v c h = ground arith

passes :
    (iban : Text)
    → normalize_iban iban ≡ iban
    → byte_len iban ≡ 22
    → shape_ok 0 iban ≡ true
    → mod97 iban ≡ 1
    → validate_iban iban ≡ ok tt
unfolding validate_iban
passes iban same len shape rest = rw same (ground arith)

-- Check digits that bring the number to remainder 1 make a German IBAN valid.
pub checked_IsValid :
    (ds : Text) (c : ℕ)
    → All IsDigit ds
    → length ds ≡ 18
    → c < 100
    → (value_from 0 ds * 1000000 + 131400 + c) % 97 ≡ 1
    → validate_iban (codes "DE" ++ (pad_digits 2 c ++ ds)) ≡ ok tt
unfolding pad_digits shape_ok mod97
checked_IsValid ds c digits len small rest =
    let iban : Text = codes "DE" ++ (pad_digits 2 c ++ ds) in
    let plain : All IsPlain iban =
      (refl, (refl, (ground arith, (ground arith, IsDigit-IsPlain ds digits)))) in
    passes iban (normalize_iban-plain iban plain) (omega (arith, byte_len-plain iban plain))
      (ground (arith, shape_ok-plain 4 ds (omega arith) (IsDigit-IsPlain ds digits)))
      (mod97_from-value 0 (ds ++ (codes "DE" ++ pad_digits 2 c))
        ∙ ap (λ (t : ℕ). t % 97) (value_from-append 0 ds (codes "DE" ++ pad_digits 2 c))
        ∙ ap (λ (t : ℕ). t % 97) (check_value (value_from 0 ds) c small)
        ∙ rest)

-- The digits that a German demo IBAN carries behind its check digits.
pub demo_digits : ℕ → Text
demo_digits n = demo_bank_code ++ pad_digits 10 n

pub demo_value : (n : ℕ) → n < 10 ^ 10 → value_from 0 (demo_digits n) ≡ 999999990000000000 + n
unfolding demo_digits
demo_value n h =
    value_from-append 0 demo_bank_code (pad_digits 10 n)
    ∙ value-pad_digits (value_from 0 demo_bank_code) 10 n h
    ∙ unfold value_from in omega arith

demo_digits-IsDigit : (n : ℕ) → All IsDigit (demo_digits n)
unfolding demo_digits
demo_digits-IsDigit n =
    All-append IsDigit demo_bank_code (pad_digits 10 n)
      (refl, (refl, (refl, (refl, (refl, (refl, (refl, (refl, tt)))))))) (pad_digits-IsDigit 10 n)

length-demo_digits : (n : ℕ) → length (demo_digits n) ≡ 18
unfolding demo_digits
length-demo_digits n = omega (arith, length-pad_digits 10 n)

-- The number whose remainder gives the check digits.
check_input :
    (n : ℕ)
    → n < 10 ^ 10
    → decimal_from 0 (demo_digits n ++ codes "131400")
      ≡ some ((999999990000000000 + n) * 1000000 + 131400)
check_input n h =
    decimal_from-value 0 (demo_digits n ++ codes "131400") (
      All-append IsDigit (demo_digits n) (codes "131400") (demo_digits-IsDigit n)
        (refl, (refl, (refl, (refl, (refl, (refl, tt)))))))
    ∙ ap some (
        value_from-append 0 (demo_digits n) (codes "131400")
        ∙ ap (λ (v : ℕ). value_from v (codes "131400")) (demo_value n h)
        ∙ unfold value_from in omega arith)

-- The IBAN of an account number.
pub demo_iban : ℕ → Text
demo_iban n =
    codes "DE"
    ++ (pad_digits 2 (98 - ((999999990000000000 + n) * 1000000 + 131400) % 97) ++ demo_digits n)

pub demo_iban_valid : (n : ℕ) → n < 10 ^ 10 → validate_iban (demo_iban n) ≡ ok tt
unfolding demo_iban
demo_iban_valid n h =
    checked_IsValid (demo_digits n) (98 - ((999999990000000000 + n) * 1000000 + 131400) % 97)
      (demo_digits-IsDigit n) (length-demo_digits n) (omega arith)
      (ap
          (λ (v : ℕ).
            (v * 1000000 + 131400 + (98 - ((999999990000000000 + n) * 1000000 + 131400) % 97)) % 97)
          (demo_value n h)
        ∙ omega arith)

generated :
    {value : ℕ} (n : ℕ)
    → n < 10 ^ 10
    → decimal_from 0 (demo_digits n ++ codes "131400") ≡ some value
    → validate_iban (codes "DE" ++ (pad_digits 2 (98 - value % 97) ++ demo_digits n)) ≡ ok tt
    → german_demo_iban n ≡ ok (codes "DE" ++ (pad_digits 2 (98 - value % 97) ++ demo_digits n))
unfolding german_demo_iban demo_digits
generated n small value valid = ground arith

-- Every account number of at most ten digits gets the IBAN with its check digits, and that IBAN
-- passes the validation.
pub german_demo_iban_valid :
    (n : ℕ)
    → n < 10 ^ 10
    → (german_demo_iban n ≡ ok (demo_iban n)) × (validate_iban (demo_iban n) ≡ ok tt)
unfolding demo_iban
german_demo_iban_valid n h =
    (generated n h (check_input n h) (demo_iban_valid n h), demo_iban_valid n h)
