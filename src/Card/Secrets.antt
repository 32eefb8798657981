-- ===== src/Card/Secrets.antt =====
-- The cryptography of backend/internal/card/service.go, under one key: crypto/hmac, crypto/aes with
-- crypto/cipher, and golang.org/x/crypto/bcrypt are the parameter `Secrets`. Its texts are digits, where
-- a character is a byte.
use banking_go.Prelude.{
  ℕ, zero, suc, ◌+◌, ◌*◌, ◌%◌, ◌≡◌, refl, Bool, true, ltb, if◌then◌else◌, Option, none, some, List,
  [], ◌∷◌, ◌++◌, map, length, length-take, length-append, ◌≤◌, ap, ◌∙◌, take, drop, get_or, Text,
  codes, arith,
}
use banking_go.Account.Iban.{pad_digits}
use banking_go.Errors.{Result, ok, err, Error, ◌>>=◌}
use banking_go.Card.Number.{find_check_digit}

pub record Secrets : Type 0 where
  -- HMAC-SHA256
  pub mac : Text → List ℕ
  -- `gcm.Seal` and `gcm.Open`, by nonce
  pub seal : List ℕ → Text → List ℕ
  pub unseal : List ℕ → List ℕ → Option Text
  -- `bcrypt.GenerateFromPassword`, by the salt that it draws, and `bcrypt.CompareHashAndPassword`
  pub hash_password : ℕ → Text → Result Text
  pub matches_password : Text → Text → Bool

-- What the packages document.
pub record SecretsLaws (S : Secrets) : Type 0 where
  pub unseal-seal : (nonce : List ℕ) (text : Text) → S.unseal nonce (S.seal nonce text) ≡ some text
  pub matches-hash :
      (salt : ℕ) (text hash : Text)
      → S.hash_password salt text ≡ ok hash
      → S.matches_password hash text ≡ true

abbrev pub nonce_size : ℕ
nonce_size = 12

-- `rand.Read` into a slice of `n` bytes.
unfoldable pub read_bytes : ℕ → List ℕ → Result (List ℕ × List ℕ)
read_bytes n bytes =
    if ltb (length bytes) n then err (Error.plain "rand") else ok (take n bytes, drop n bytes)

module _ (S : Secrets) where
  unfoldable pub fingerprint : Text → List ℕ
  fingerprint value = S.mac value

  unfoldable pub encrypt : List ℕ → Text → Result (List ℕ × List ℕ)
  encrypt bytes plain_text =
      read_bytes nonce_size bytes >>= λ r. ok (r.0 ++ S.seal r.0 plain_text, r.1)

  unfoldable pub decrypt : List ℕ → Result Text
  decrypt cipher_text =
      if ltb (length cipher_text) nonce_size
      then err (Error.plain "card credentials are unavailable")
      else (elim (S.unseal (take nonce_size cipher_text) (drop nonce_size cipher_text)) [
        | some plain_text ↦ ok plain_text
        | none ↦ err (Error.plain "card credentials are unavailable")
      ])

  -- `fmt.Sprintf("%03d", …)`
  abbrev pub derived_cvc : List ℕ → Text
  derived_cvc cvc_bytes = pad_digits 3 ((get_or cvc_bytes 0 0 * 256 + get_or cvc_bytes 1 0) % 1000)

  -- The credentials of version 1, from the text of the card's identifier; `none` is the `panic`.
  unfoldable pub derive_credentials : Text → Option (Text × Text)
  derive_credentials card_id =
      let digits = S.mac (codes "pan:" ++ card_id) in
      elim (find_check_digit 10 (52 ∷ map (λ b. 48 + b % 10) (take 14 digits)) 48) [
        | some candidate ↦ some (candidate, derived_cvc (S.mac (codes "cvc:" ++ card_id)))
        | none ↦ none
      ]

  module _ (L : SecretsLaws S) where
    take-append : (xs ys : List ℕ) (n : ℕ) → length xs ≡ n → take n (xs ++ ys) ≡ xs
    take-append [] ys zero h = refl
    take-append [] ys (suc n) h = absurd (omega (arith, h))
    take-append (x ∷ xs) ys zero h = absurd (omega (arith, h))
    take-append (x ∷ xs) ys (suc n) h = let e = take-append xs ys n (omega (arith, h)) in cc

    drop-append : (xs ys : List ℕ) (n : ℕ) → length xs ≡ n → drop n (xs ++ ys) ≡ ys
    drop-append [] ys zero h = refl
    drop-append [] ys (suc n) h = absurd (omega (arith, h))
    drop-append (x ∷ xs) ys zero h = absurd (omega (arith, h))
    drop-append (x ∷ xs) ys (suc n) h = drop-append xs ys n (omega (arith, h))

    opened_by :
        (cipher_text : List ℕ) (text : Text)
        → nonce_size ≤ length cipher_text
        → S.unseal (take nonce_size cipher_text) (drop nonce_size cipher_text) ≡ some text
        → decrypt cipher_text ≡ ok text
    unfolding decrypt
    opened_by cipher_text text h k = ground arith

    -- What is encrypted is decrypted, whatever the nonce was.
    pub decrypt-encrypt :
        (bytes : List ℕ) (text : Text) (sealed rest : List ℕ)
        → encrypt bytes text ≡ ok (sealed, rest)
        → decrypt sealed ≡ ok text
    unfolding encrypt decrypt read_bytes
    decrypt-encrypt bytes text sealed rest h =
        let nonce : List ℕ = take nonce_size bytes in
        let payload : List ℕ = S.seal nonce text in
        let enough : nonce_size ≤ length bytes = ground arith in
        let sealed_is : sealed ≡ nonce ++ payload = ground arith in
        let size : length nonce ≡ nonce_size =
          omega (arith, length-take nonce_size bytes, enough) in
        let long = length-append nonce payload in
        ap decrypt sealed_is
        ∙ opened_by (nonce ++ payload) text (omega (arith, long, size)) (
            ap (λ (p : List ℕ). S.unseal p (drop nonce_size (nonce ++ payload)))
              (take-append nonce payload nonce_size size)
            ∙ ap (S.unseal nonce) (drop-append nonce payload nonce_size size)
            ∙ L.unseal-seal nonce text)
