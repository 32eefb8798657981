-- ===== src/Card/Store.antt =====
-- The tables of cards and of the tokens that merchants hold, and the statements of
-- backend/internal/platform/database/cards.go with the constraints of
-- backend/postgres/migrations/000017_add_virtual_cards.up.sql and its successors.
pub mod Tokens
use banking_go.Prelude.{
  ℕ, Bool, true, false, not, ◌&&◌, ◌||◌, ◌==◌, leb, if◌then◌else◌, Option, none, some, List, [],
  ◌∷◌, length, Text, text_eq,
}
use banking_go.Errors.{Result, ok, err, Error}
use banking_go.Outbox.{Call, by_call}
use banking_go.Calendar.{Time, micros}
use banking_go.Database.Queries.Accounts.{find_account, row_or_none}
use banking_go.Database.Tables.{Account}

pub data CardStatus : Type 0 where
  active blocked expired cancelled : CardStatus

pub record PaymentCard : Type 0 where
  pub id : ℕ
  pub owner_id : ℕ
  pub account_id : ℕ
  pub pan_fingerprint : List ℕ
  pub last_four : Text
  pub brand : Text
  pub exp_month : ℕ
  pub exp_year : ℕ
  pub cvc_hash : Text
  pub credential_version : ℕ
  pub encrypted_pan : List ℕ
  pub encrypted_cvc : List ℕ
  pub status : CardStatus

-- A row of merchant_card_tokens.
pub record CardToken : Type 0 where
  pub id : ℕ
  pub merchant_id : Text
  pub card_id : ℕ
  pub token_fingerprint : List ℕ
  pub last_used_at : Option ℕ

-- The columns of merchants that the cards read.
pub record Merchant : Type 0 where
  pub id : Text
  pub active : Bool

pub record CardTables : Type 0 where
  pub cards : List PaymentCard
  pub tokens : List CardToken
  pub accounts : List Account
  pub merchants : List Merchant

pub data Statement : Type 0 where
  get_account create_card get_card cancel_card delete_card : Statement
  get_merchant get_by_fingerprint upsert_token get_by_token touch_token : Statement

-- What an operation meets: the clock, the calls, the random bytes, and the identifiers that are drawn.
pub record CardEnv : Type 0 where
  pub now : Time
  pub calls : Statement → Call
  pub random : List ℕ
  pub new_card : ℕ
  pub new_token : ℕ
  pub salt : ℕ
  pub id_text : ℕ → Text
  -- a store, and a key of 32 bytes at least
  pub is_ready : Bool

abbrev pub Rows {ℓ} : Type ℓ → Type ℓ
Rows A = CardTables → Result A × CardTables

-- A statement that fails, is lost on the way back, or answers.
unfoldable pub statement {ℓ} : {A : Type ℓ} → CardEnv → Statement → Rows A → Rows A
statement env name body db =
    by_call (env.calls name) (err Error.driver, db) (err Error.driver, (body db).1) (body db)

abbrev pub is_active : CardStatus → Bool
is_active active = true
is_active _ = false

abbrev pub is_cancelled : CardStatus → Bool
is_cancelled cancelled = true
is_cancelled _ = false

unfoldable pub any_card : (PaymentCard → Bool) → List PaymentCard → Bool
any_card test [] = false
any_card test (c ∷ cards) = test c || any_card test cards

unfoldable pub find_card : (PaymentCard → Bool) → List PaymentCard → Option PaymentCard
find_card test [] = none
find_card test (c ∷ cards) = if test c then some c else find_card test cards

abbrev pub found : Option PaymentCard → Result PaymentCard
found (some c) = ok c
found none = err (Error.plain "card resource not found")

-- The primary key and the fingerprint; an account may have several active cards.
abbrev pub card_clash : PaymentCard → PaymentCard → Bool
card_clash new c = c.id == new.id || text_eq c.pan_fingerprint new.pan_fingerprint

unfoldable pub card_checks : PaymentCard → Bool
card_checks c =
    leb 1 c.exp_month
    && leb c.exp_month 12
    && leb 2026 c.exp_year
    && leb c.exp_year 2200
    && leb 40 (length c.cvc_hash)

unfoldable pub create_payment_card : CardEnv → PaymentCard → Rows PaymentCard
create_payment_card env card = statement env create_card (λ db.
    if not (card_checks card)
    then (err (Error.pq 23514), db)
    else if any_card (card_clash card) db.cards
    then (err (Error.pq 23505), db)
    else (ok card, record db { cards = card ∷ db.cards }))

unfoldable pub get_card_by_fingerprint : CardEnv → List ℕ → Rows PaymentCard
get_card_by_fingerprint env fingerprint =
    statement env get_by_fingerprint
      (λ db. (found (find_card (λ c. text_eq c.pan_fingerprint fingerprint) db.cards), db))

unfoldable pub get_card_by_id_and_owner : CardEnv → ℕ → ℕ → Rows PaymentCard
get_card_by_id_and_owner env card_id owner_id =
    statement env get_card
      (λ db. (found (find_card (λ c. c.id == card_id && c.owner_id == owner_id) db.cards), db))

abbrev pub owned : ℕ → ℕ → PaymentCard → Bool
owned owner_id card_id c = c.id == card_id && c.owner_id == owner_id

unfoldable pub cancel_rows : ℕ → ℕ → List PaymentCard → List PaymentCard
cancel_rows owner_id card_id [] = []
cancel_rows owner_id card_id (c ∷ cards) =
    (if owned owner_id card_id c && not (is_cancelled c.status)
      then record c { status = cancelled }
      else c)
    ∷ cancel_rows owner_id card_id cards

-- `id` is the primary key, so one row at most is changed.
unfoldable pub cancel_payment_card : CardEnv → ℕ → ℕ → Rows (Unit {0})
cancel_payment_card env owner_id card_id = statement env cancel_card (λ db. (
  if any_card (λ c. owned owner_id card_id c && not (is_cancelled c.status)) db.cards
      then ok tt
      else err (Error.plain "card resource not found"),
  record db { cards = cancel_rows owner_id card_id db.cards },
))

abbrev pub removable : ℕ → ℕ → PaymentCard → Bool
removable owner_id card_id c = owned owner_id card_id c && is_cancelled c.status

unfoldable pub delete_rows : ℕ → ℕ → List PaymentCard → List PaymentCard
delete_rows owner_id card_id [] = []
delete_rows owner_id card_id (c ∷ cards) =
    let rest = delete_rows owner_id card_id cards in
    if removable owner_id card_id c then rest else c ∷ rest

-- ON DELETE CASCADE
unfoldable pub delete_tokens : ℕ → List CardToken → List CardToken
delete_tokens card_id [] = []
delete_tokens card_id (t ∷ tokens) =
    let rest = delete_tokens card_id tokens in if t.card_id == card_id then rest else t ∷ rest

unfoldable pub delete_payment_card : CardEnv → ℕ → ℕ → Rows (Unit {0})
delete_payment_card env owner_id card_id = statement env delete_card (λ db.
    if any_card (removable owner_id card_id) db.cards
    then (
      ok tt,
      record db {
        cards = delete_rows owner_id card_id db.cards;
        tokens = delete_tokens card_id db.tokens;
      },
    )
    else (err (Error.plain "card resource not found"), db))

unfoldable pub find_merchant : Text → List Merchant → Option Merchant
find_merchant id [] = none
find_merchant id (m ∷ merchants) = if text_eq id m.id then some m else find_merchant id merchants

-- `GetMerchant` of backend/internal/platform/database/merchant.go, for the columns above.
unfoldable pub read_merchant : CardEnv → Text → Rows Merchant
read_merchant env id = statement env get_merchant (λ db. (
  elim (find_merchant id db.merchants) [
    | some m ↦ ok m
    | none ↦ err (Error.plain "merchant resource not found")
  ],
  db,
))

unfoldable pub read_account : CardEnv → ℕ → Rows Account
read_account env id =
    statement env get_account (λ db. (row_or_none (find_account id db.accounts), db))
