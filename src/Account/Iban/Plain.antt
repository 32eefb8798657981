-- ===== src/Account/Iban/Plain.antt =====
-- Texts of digits and capitals: `normalize_iban` leaves them alone, and `len` counts their runes.
use mathlib.Core.List.{reverse, reverse-reverse}
use banking_go.Prelude.{
  ℕ, ◌+◌, ◌≤◌, ◌≡◌, refl, ◌∙◌, ap, true, ◌||◌, [], ◌∷◌, arith, Text, All, All-reverse, length,
  byte_len, is_space, trim_left, trim_space, to_upper_text,
}
use banking_go.Account.Iban.{is_digit, is_capital, shape_ok, drop_spaces, normalize_iban}

abbrev pub IsPlain : ℕ → Type 0
IsPlain c = (is_digit c || is_capital c) ≡ true

abbrev pub IsDigit : ℕ → Type 0
IsDigit c = is_digit c ≡ true

pub IsDigit-IsPlain : (s : Text) → All IsDigit s → All IsPlain s
IsDigit-IsPlain [] h = tt
IsDigit-IsPlain (c ∷ s) h = (ground arith, IsDigit-IsPlain s h.1)

trim_left-plain : (s : Text) → All IsPlain s → trim_left s ≡ s
unfolding trim_left is_space
trim_left-plain [] h = refl
trim_left-plain (c ∷ s) h = ground (arith, h.0)

trim_space-plain : (s : Text) → All IsPlain s → trim_space s ≡ s
unfolding trim_space
trim_space-plain s h =
    rw (trim_left-plain s h)
      (ap reverse (trim_left-plain (reverse s) (All-reverse IsPlain s h)) ∙ reverse-reverse s)

drop_spaces-plain : (s : Text) → All IsPlain s → drop_spaces s ≡ s
unfolding drop_spaces is_space
drop_spaces-plain [] h = refl
drop_spaces-plain (c ∷ s) h = ground (arith, h.0, drop_spaces-plain s h.1)

upper-plain : (s : Text) → All IsPlain s → to_upper_text s ≡ s
unfolding to_upper_text
upper-plain [] h = refl
upper-plain (c ∷ s) h = ground (arith, h.0, upper-plain s h.1)

pub normalize_iban-plain : (s : Text) → All IsPlain s → normalize_iban s ≡ s
unfolding normalize_iban
normalize_iban-plain s h =
    ap (λ (t : Text). to_upper_text (drop_spaces t)) (trim_space-plain s h)
    ∙ ap to_upper_text (drop_spaces-plain s h)
    ∙ upper-plain s h

pub byte_len-plain : (s : Text) → All IsPlain s → byte_len s ≡ length s
unfolding byte_len
byte_len-plain [] h = refl
byte_len-plain (c ∷ s) h = ground (arith, h.0, byte_len-plain s h.1)

-- From the fifth rune on, digits and capitals are accepted.
pub shape_ok-plain : (i : ℕ) (s : Text) → 4 ≤ i → All IsPlain s → shape_ok i s ≡ true
unfolding shape_ok
shape_ok-plain i [] h p = refl
shape_ok-plain i (c ∷ s) h p = ground (arith, p.0, shape_ok-plain (i + 1) s (omega arith) p.1)
