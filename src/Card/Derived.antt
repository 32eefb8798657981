-- ===== src/Card/Derived.antt =====
-- The credentials that are derived from a card's identifier (deriveCredentials of
-- backend/internal/card/service.go).
use banking_go.Prelude.{
  ℕ, suc, ◌+◌, ◌%◌, ◌≤◌, ◌≡◌, refl, ◌∙◌, ap, true, some, List, [], ◌∷◌, ◌++◌, map, length,
  length-take, take, Text, codes, All, arith,
}
use banking_go.Card.Number.{valid_pan}
use banking_go.Card.Number.Check.{IsDigit, ends_checked}
use banking_go.Card.Secrets.{Secrets, derive_credentials, derived_cvc}

digits_of-IsDigit : (bytes : List ℕ) → All IsDigit (map (λ b. 48 + b % 10) bytes)
unfolding IsDigit
digits_of-IsDigit [] = tt
digits_of-IsDigit (b ∷ bytes) = (ground arith, digits_of-IsDigit bytes)

length-digits_of : (bytes : List ℕ) → length (map (λ b. 48 + b % 10) bytes) ≡ length bytes
length-digits_of [] = refl
length-digits_of (b ∷ bytes) = ap suc (length-digits_of bytes)

four-IsDigit : IsDigit 52
unfolding IsDigit
four-IsDigit = refl

-- A hash of fourteen bytes or more gives a number that passes the test, so the `panic` is not reached.
pub derive_credentials-valid :
    (S : Secrets) (card_id : Text)
    → 14 ≤ length (S.mac (codes "pan:" ++ card_id))
    → (pan : Text) × (cvc : Text) × (derive_credentials S card_id ≡ some (pan, cvc))
      × (valid_pan pan ≡ true)
unfolding derive_credentials
derive_credentials-valid S card_id h =
    let bytes : List ℕ = take 14 (S.mac (codes "pan:" ++ card_id)) in
    let size : length bytes ≡ 14 =
      omega (arith, length-take 14 (S.mac (codes "pan:" ++ card_id)), h) in
    let (pan, found, valid) =
      ends_checked (52 ∷ map (λ b. 48 + b % 10) bytes) (four-IsDigit, digits_of-IsDigit bytes)
        (ap suc (length-digits_of bytes ∙ size)) refl in
    (pan, derived_cvc S (S.mac (codes "cvc:" ++ card_id)), ground (arith, found), valid)
