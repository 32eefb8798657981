-- ===== src/Card/Store/Tokens.antt =====
-- The tokens that merchants hold for cards: the statements on merchant_card_tokens of
-- backend/internal/platform/database/cards.go.
use banking_go.Prelude.{
  ℕ, Bool, false, not, ◌&&◌, ◌||◌, ◌==◌, if◌then◌else◌, Option, none, some, List, [], ◌∷◌, Text,
  text_eq,
}
use banking_go.Errors.{ok, err, Error}
use banking_go.Calendar.{micros}
use banking_go.Card.Store.{
  PaymentCard, CardToken, CardEnv, Rows, statement, find_card, upsert_token, get_by_token,
  touch_token,
}

-- The row of this merchant and card.
abbrev pub same_holder : Text → ℕ → CardToken → Bool
same_holder merchant_id card_id t = text_eq t.merchant_id merchant_id && t.card_id == card_id

unfoldable pub any_token : (CardToken → Bool) → List CardToken → Bool
any_token test [] = false
any_token test (t ∷ tokens) = test t || any_token test tokens

unfoldable pub replace_token : Text → ℕ → List ℕ → List CardToken → List CardToken
replace_token merchant_id card_id fingerprint [] = []
replace_token merchant_id card_id fingerprint (t ∷ tokens) =
    (if same_holder merchant_id card_id t then record t { token_fingerprint = fingerprint } else t)
    ∷ replace_token merchant_id card_id fingerprint tokens

abbrev pub token_row : CardEnv → Text → ℕ → List ℕ → CardToken
token_row env merchant_id card_id fingerprint = record {
  id = env.new_token;
  merchant_id = merchant_id;
  card_id = card_id;
  token_fingerprint = fingerprint;
  last_used_at = none;
}

-- ON CONFLICT (merchant_id, card_id) DO UPDATE; a fingerprint of another row is refused.
unfoldable pub upsert_merchant_card_token : CardEnv → Text → ℕ → List ℕ → Rows (Unit {0})
upsert_merchant_card_token env merchant_id card_id fingerprint = statement env upsert_token (λ db.
    if any_token
      (λ t. text_eq t.token_fingerprint fingerprint && not (same_holder merchant_id card_id t))
      db.tokens
    then (err (Error.pq 23505), db)
    else if any_token (same_holder merchant_id card_id) db.tokens
    then (ok tt, record db { tokens = replace_token merchant_id card_id fingerprint db.tokens })
    else (ok tt, record db { tokens = token_row env merchant_id card_id fingerprint ∷ db.tokens }))

-- FROM merchant_card_tokens t JOIN payment_cards c ON c.id = t.card_id
unfoldable pub join_token :
    Text → List ℕ → List PaymentCard → List CardToken → Option (ℕ × PaymentCard)
join_token merchant_id fingerprint cards [] = none
join_token merchant_id fingerprint cards (t ∷ tokens) =
    let later = join_token merchant_id fingerprint cards tokens in
    if text_eq t.merchant_id merchant_id && text_eq t.token_fingerprint fingerprint
    then (elim (find_card (λ c. c.id == t.card_id) cards) [
      | some c ↦ some (t.id, c)
      | none ↦ later
    ])
    else later

unfoldable pub get_card_by_merchant_token : CardEnv → Text → List ℕ → Rows (ℕ × PaymentCard)
get_card_by_merchant_token env merchant_id fingerprint = statement env get_by_token (λ db. (
  elim (join_token merchant_id fingerprint db.cards db.tokens) [
    | some r ↦ ok r
    | none ↦ err (Error.plain "card resource not found")
  ],
  db,
))

unfoldable pub touch_rows : ℕ → ℕ → List CardToken → List CardToken
touch_rows now token_id [] = []
touch_rows now token_id (t ∷ tokens) =
    (if t.id == token_id then record t { last_used_at = some now } else t)
    ∷ touch_rows now token_id tokens

unfoldable pub touch_merchant_card_token : CardEnv → ℕ → Rows (Unit {0})
touch_merchant_card_token env token_id =
    statement env touch_token
      (λ db. (ok tt, record db { tokens = touch_rows (micros env.now) token_id db.tokens }))
