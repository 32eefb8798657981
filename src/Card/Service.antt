-- ===== src/Card/Service.antt =====
-- The operations of backend/internal/card/service.go on the tables. Random bytes are used from the front
-- and in order. `List`, which only reads for display, is left out.
use banking_go.Prelude.{
  ℕ, ◌+◌, ◌-◌, ◌%◌, ◌/◌, Bool, true, false, not, ◌&&◌, ◌||◌, ◌==◌, ltb, leb, if◌then◌else◌, none,
  some, List, [], ◌∷◌, ◌++◌, length, drop, Text, codes, text_eq, trim_space, to_lower_text,
  byte_len,
}
use banking_go.Errors.{Result, ok, err, Error, fail_if}
use banking_go.Account.Ownership.{customer_can_operate}
use banking_go.Calendar.{date}
use banking_go.Card.Number.{
  generate_pan, random_digits, valid_pan, valid_cvc, normalize_pan, is_digit,
}
use banking_go.Card.Secrets.{Secrets, fingerprint, encrypt, decrypt, derive_credentials, read_bytes}
use banking_go.Card.Store.{
  PaymentCard, active, CardEnv, CardTables, Rows, is_active, create_payment_card,
  get_card_by_id_and_owner, get_card_by_fingerprint, cancel_payment_card, delete_payment_card,
  read_account, read_merchant,
}
use banking_go.Card.Store.Tokens.{
  upsert_merchant_card_token, get_card_by_merchant_token, touch_merchant_card_token,
}
use banking_go.Database.Tables.{Account}

pub record IssuedCard : Type 0 where
  pub id : ℕ
  pub account_id : ℕ
  pub card_number : Text
  pub cvc : Text
  pub brand : Text
  pub last4 : Text
  pub exp_month : ℕ
  pub exp_year : ℕ

pub record TokenizedCard : Type 0 where
  pub token : Text
  pub brand : Text
  pub last4 : Text
  pub exp_month : ℕ
  pub exp_year : ℕ

pub record AuthorizedCard : Type 0 where
  pub owner_id : ℕ
  pub account_id : ℕ
  pub brand : Text
  pub last4 : Text

abbrev pub invalid_card : Error
invalid_card = Error.plain "invalid card credentials"

abbrev pub card_unavailable : Error
card_unavailable = Error.plain "card is unavailable"

abbrev pub card_credentials_unavailable : Error
card_credentials_unavailable = Error.plain "card credentials are unavailable"

abbrev pub next {ℓ κ} :
    {A : Type ℓ} {B : Type κ} → (A → Rows B) → Result A × CardTables → Result B × CardTables
next rest (ok a, db) = rest a db
next rest (err e, db) = (err e, db)

infixl 5 ◌>>=◌ ◌>>◌
abbrev pub ◌>>=◌ {ℓ κ} : {A : Type ℓ} {B : Type κ} → Rows A → (A → Rows B) → Rows B
(m >>= rest) db = next rest (m db)

abbrev pub ◌>>◌ {ℓ κ} : {A : Type ℓ} {B : Type κ} → Rows A → Rows B → Rows B
(m >> rest) db = next (λ a. rest) (m db)

-- What only computes.
abbrev pub pure {ℓ} : {A : Type ℓ} → Result A → Rows A
pure r db = (r, db)

abbrev pub replace_error {ℓ} : {A : Type ℓ} → Error → Result A × CardTables → Result A × CardTables
replace_error e (ok a, db) = (ok a, db)
replace_error e (err _, db) = (err e, db)

-- Any error becomes this one.
abbrev pub or_fail {ℓ} : {A : Type ℓ} → Error → Rows A → Rows A
or_fail e m db = replace_error e (m db)

abbrev pub last_four_of : Text → Text
last_four_of pan = drop (length pan - 4) pan

unfoldable pub usable : CardEnv → PaymentCard → ℕ → ℕ → Bool
usable env card month year =
    is_active card.status
    && card.exp_month == month
    && card.exp_year == year
    && (ltb env.now.year year || (year == env.now.year && leb env.now.month month))

abbrev pub hex_digit : ℕ → ℕ
hex_digit n = if ltb n 10 then 48 + n else 87 + n

unfoldable pub hex_encode : List ℕ → Text
hex_encode [] = []
hex_encode (b ∷ bytes) = hex_digit (b / 16) ∷ hex_digit (b % 16) ∷ hex_encode bytes

abbrev pub is_hex : ℕ → Bool
is_hex c = is_digit c || (leb 97 c && leb c 102) || (leb 65 c && leb c 70)

-- Whether `hex.DecodeString` accepts a text of an even length.
unfoldable pub all_hex : Text → Bool
all_hex [] = true
all_hex (c ∷ text) = is_hex c && all_hex text

abbrev pub both : Result Text → Result Text → Result (Text × Text)
both (ok pan) (ok cvc) = ok (pan, cvc)
both _ _ = err card_credentials_unavailable

module _ (S : Secrets) (env : CardEnv) where
  abbrev pub new_row : ℕ → ℕ → Text → Text → List ℕ → List ℕ → PaymentCard
  new_row owner_id account_id pan hash encrypted_pan encrypted_cvc =
      let expires = date (env.now.year + 3) env.now.month env.now.day env.now.clock in
      record {
        id = env.new_card;
        owner_id = owner_id;
        account_id = account_id;
        pan_fingerprint = fingerprint S (codes "pan:" ++ pan);
        last_four = last_four_of pan;
        brand = codes "visa";
        exp_month = expires.month;
        exp_year = expires.year;
        cvc_hash = hash;
        credential_version = 2;
        encrypted_pan = encrypted_pan;
        encrypted_cvc = encrypted_cvc;
        status = active;
      }

  abbrev pub issued : Text → Text → PaymentCard → IssuedCard
  issued pan cvc card = record {
    id = card.id;
    account_id = card.account_id;
    card_number = pan;
    cvc = cvc;
    brand = card.brand;
    last4 = card.last_four;
    exp_month = card.exp_month;
    exp_year = card.exp_year;
  }

  -- The rest of `Issue`, once the account is accepted.
  unfoldable pub issue_new : ℕ → ℕ → Rows IssuedCard
  issue_new owner_id account_id = do
    pan ← pure (generate_pan env.random)
    cvc ← pure (random_digits 3 pan.1)
    hash ← pure (S.hash_password env.salt cvc.0)
    sealed_pan ← pure (encrypt S cvc.1 pan.0)
    sealed_cvc ← pure (encrypt S sealed_pan.1 cvc.0)
    card ←
        create_payment_card env (new_row owner_id account_id pan.0 hash sealed_pan.0 sealed_cvc.0)
    pure (ok (issued pan.0 cvc.0 card))

  abbrev pub can_hold : ℕ → Account → Bool
  can_hold owner_id a =
      customer_can_operate owner_id a.owner_id.uuid a.owner_id.valid a.is_system
      && text_eq a.status (codes "ACTIVE")
      && text_eq a.currency (codes "EUR")

  abbrev pub named : ℕ → ℕ → Bool
  named owner_id id = env.is_ready && not (owner_id == 0) && not (id == 0)

  abbrev pub issue_for : ℕ → ℕ → Account → Rows IssuedCard
  issue_for owner_id account_id account = do
    pure (fail_if (not (can_hold owner_id account)) card_unavailable)
    issue_new owner_id account_id

  unfoldable pub issue : ℕ → ℕ → Rows IssuedCard
  issue owner_id account_id = do
    pure (fail_if (not (named owner_id account_id)) card_unavailable)
    account ← or_fail card_unavailable (read_account env account_id)
    issue_for owner_id account_id account

  -- By the scheme that the card was created under.
  unfoldable pub credentials : PaymentCard → Result (Text × Text)
  credentials card =
      if card.credential_version == 1
      then (elim (derive_credentials S (env.id_text card.id)) [
        | some c ↦ ok c
        | none ↦ err (Error.plain "panic")
      ])
      else if card.credential_version == 2
      then both (decrypt S card.encrypted_pan) (decrypt S card.encrypted_cvc)
      else err card_credentials_unavailable

  abbrev pub authentic : PaymentCard → Text × Text → Bool
  authentic card (pan, cvc) =
      text_eq card.pan_fingerprint (fingerprint S (codes "pan:" ++ pan))
      && S.matches_password card.cvc_hash cvc

  unfoldable pub reveal : ℕ → ℕ → Rows IssuedCard
  reveal owner_id card_id = do
    pure (fail_if (not (named owner_id card_id)) card_credentials_unavailable)
    card ← or_fail card_credentials_unavailable (get_card_by_id_and_owner env card_id owner_id)
    pure (fail_if (not (is_active card.status)) card_credentials_unavailable)
    c ← pure (credentials card)
    pure (fail_if (not (authentic card c)) card_credentials_unavailable)
    pure (ok (issued c.0 c.1 card))

  unfoldable pub cancel : ℕ → ℕ → Rows (Unit {0})
  cancel owner_id card_id = do
    pure (fail_if (not (named owner_id card_id)) card_unavailable)
    or_fail card_unavailable (cancel_payment_card env owner_id card_id)

  unfoldable pub delete : ℕ → ℕ → Rows (Unit {0})
  delete owner_id card_id = do
    pure (fail_if (not (named owner_id card_id)) card_unavailable)
    or_fail card_unavailable (delete_payment_card env owner_id card_id)

  abbrev pub decrypted_is : Result Text → Text → Bool
  decrypted_is (ok value) candidate = text_eq value candidate
  decrypted_is (err _) candidate = false

  unfoldable pub matches_cvc : PaymentCard → Text → Bool
  matches_cvc stored candidate =
      if stored.credential_version == 2
      then decrypted_is (decrypt S stored.encrypted_cvc) candidate
      else S.matches_password stored.cvc_hash candidate

  abbrev pub tokenized : Text → PaymentCard → TokenizedCard
  tokenized token card = record {
    token = token;
    brand = card.brand;
    last4 = card.last_four;
    exp_month = card.exp_month;
    exp_year = card.exp_year;
  }

  -- `Tokenize` on normalized inputs.
  unfoldable pub tokenize_normalized : Text → Text → Text → ℕ → ℕ → Rows TokenizedCard
  tokenize_normalized merchant_id pan cvc month year = do
    pure (fail_if (not (env.is_ready && valid_pan pan && valid_cvc cvc)) invalid_card)
    merchant ← or_fail invalid_card (read_merchant env merchant_id)
    pure (fail_if (not merchant.active) invalid_card)
    card ← or_fail invalid_card (get_card_by_fingerprint env (fingerprint S (codes "pan:" ++ pan)))
    pure (fail_if (not (usable env card month year && matches_cvc card cvc)) invalid_card)
    raw_token ← pure (read_bytes 32 env.random)
    upsert_merchant_card_token env merchant_id card.id
        (fingerprint S (codes "token:" ++ hex_encode raw_token.0))
    pure (ok (tokenized (hex_encode raw_token.0) card))

  unfoldable pub tokenize : Text → Text → Text → ℕ → ℕ → Rows TokenizedCard
  tokenize merchant_id pan cvc month year =
      tokenize_normalized (to_lower_text (trim_space merchant_id)) (normalize_pan pan)
        (trim_space cvc) month year

  abbrev pub authorized : PaymentCard → AuthorizedCard
  authorized card = record {
    owner_id = card.owner_id;
    account_id = card.account_id;
    brand = card.brand;
    last4 = card.last_four;
  }

  abbrev pub accepted : PaymentCard → Text → Bool
  accepted card cvc = usable env card card.exp_month card.exp_year && matches_cvc card cvc

  abbrev pub authorize_stored : Text → ℕ × PaymentCard → Rows AuthorizedCard
  authorize_stored cvc stored = do
    pure (fail_if (not (accepted stored.1 cvc)) invalid_card)
    touch_merchant_card_token env stored.0
    pure (ok (authorized stored.1))

  abbrev pub authorize_token : Text → Text → Text → Rows AuthorizedCard
  authorize_token merchant_id token cvc = do
    stored ←
        or_fail invalid_card
          (get_card_by_merchant_token env merchant_id (fingerprint S (codes "token:" ++ token)))
    authorize_stored cvc stored

  -- `Authorize` on normalized inputs.
  unfoldable pub authorize_normalized : Text → Text → Text → Rows AuthorizedCard
  authorize_normalized merchant_id token cvc = do
    pure (fail_if (not (env.is_ready && byte_len token == 64 && valid_cvc cvc)) invalid_card)
    pure (fail_if (not (all_hex token)) invalid_card)
    authorize_token merchant_id token cvc

  unfoldable pub authorize : Text → Text → Text → Rows AuthorizedCard
  authorize merchant_id token cvc =
      authorize_normalized (to_lower_text (trim_space merchant_id)) (trim_space token)
        (trim_space cvc)
