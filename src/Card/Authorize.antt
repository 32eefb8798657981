-- ===== src/Card/Authorize.antt =====
-- What an authorization rests on, and that a cancelled card has none (`Authorize`, `Cancel` and `Reveal`
-- of backend/internal/card/service.go).
use banking_go.Prelude.{
  ℕ, ◌≡◌, sym, ◌∙◌, ap, Bool, true, not, ◌&&◌, ◌==◌, Bool-cases, inl, inr, Option, Option-cases,
  some, none, List, ◌∷◌, [], ◌++◌, Text, codes, text_eq, All, arith, trim_space, to_lower_text,
  byte_len,
}
use mathlib.Core.Path.{subst}
use banking_go.Errors.{Result, ok, err, Error, fail_if}
use banking_go.Card.Number.{valid_cvc}
use banking_go.Card.Secrets.{Secrets, fingerprint}
use banking_go.Card.Store.{
  Rows, CardEnv, CardTables, CardToken, PaymentCard, get_by_token, find_card,
}
use banking_go.Card.Store.Tokens.{
  get_card_by_merchant_token, any_token, join_token, touch_merchant_card_token,
}
use banking_go.Card.Service.{
  authorize_stored, authorize_token, AuthorizedCard, authorize, authorize_normalized, authorized,
  accepted, usable, matches_cvc, pure, or_fail, invalid_card, all_hex, ◌>>◌,
}
use banking_go.Card.Steps.{answer-ok, next-ok, check-ok, or_fail-ok, statement-ok}

-- The token of a merchant for a card.
abbrev pub grants : Text → List ℕ → ℕ → CardToken → Bool
grants merchant_id fingerprint card_id t =
    text_eq t.merchant_id merchant_id
    && text_eq t.token_fingerprint fingerprint
    && card_id == t.card_id

module _ (P : PaymentCard → Type 0) where
  pub find_card-found :
      (test : PaymentCard → Bool) (cards : List PaymentCard) (c : PaymentCard)
      → find_card test cards ≡ some c
      → All P cards
      → P c × (test c ≡ true)
  unfolding find_card
  find_card-found test [] c h all = absurd (ground arith)
  find_card-found test (x ∷ cards) c h all = elim (Bool-cases (test x)) [
    | inl e ↦ let same : x ≡ c = ground arith in (subst P same all.0, ap test (sym same) ∙ e)
    | inr e ↦ find_card-found test cards c (ground arith) all.1
  ]

  join_token-found :
      (merchant_id : Text) (fingerprint : List ℕ) (cards : List PaymentCard)
      (tokens : List CardToken) (id : ℕ) (c : PaymentCard)
      → join_token merchant_id fingerprint cards tokens ≡ some (id, c)
      → All P cards
      → P c × (any_token (grants merchant_id fingerprint c.id) tokens ≡ true)
  unfolding join_token any_token
  join_token-found m f cards [] id c h all = absurd (ground arith)
  join_token-found m f cards (t ∷ tokens) id c h all =
      let later : (join_token m f cards tokens ≡ some (id, c)
          → P c × (any_token (grants m f c.id) (t ∷ tokens) ≡ true)) =
        λ k. let r = join_token-found m f cards tokens id c k all in (r.0, ground (arith, r.1)) in
      elim (Bool-cases (text_eq t.merchant_id m && text_eq t.token_fingerprint f)) [
        | inr e ↦ later (ground arith)
        | inl e ↦ elim (Option-cases (find_card (λ x. x.id == t.card_id) cards)) [
          | inl missing ↦ later (ground arith)
          | inr (x, is_x) ↦
              let same : x ≡ c = ground arith in
              let r = find_card-found (λ x. x.id == t.card_id) cards c (is_x ∙ ap some same) all in
              (r.0, ground (arith, r.1))
        ]
      ]

abbrev lookup_answer : Option (ℕ × PaymentCard) → CardTables → Result (ℕ × PaymentCard) × CardTables
lookup_answer o db =
    (elim o [ some r ↦ ok r | none ↦ err (Error.plain "card resource not found") ], db)

-- Why a card was authorized.
pub record Grounds (S : Secrets) (env : CardEnv) (P : PaymentCard → Type 0) (db : CardTables)
    (merchant_id token cvc : Text) (a : AuthorizedCard) : Type 0 where
  pub card : PaymentCard
  pub holds : P card
  pub granted :
      any_token (grants merchant_id (fingerprint S (codes "token:" ++ token)) card.id) db.tokens
      ≡ true
  pub is_usable : usable env card card.exp_month card.exp_year ≡ true
  pub cvc_matches : matches_cvc S env card cvc ≡ true
  pub shown : a ≡ authorized S env card

joined :
    (o : Option (ℕ × PaymentCard)) {r : ℕ × PaymentCard} {db s : CardTables}
    → lookup_answer o db ≡ (ok r, s)
    → o ≡ some r
joined (some x) h = ground arith
joined none h = absurd (ground arith)

module _ (S : Secrets) (env : CardEnv) (P : PaymentCard → Type 0) where
  token_card :
      (merchant_id : Text) (fp : List ℕ) (db s : CardTables) (stored : ℕ × PaymentCard)
      → get_card_by_merchant_token env merchant_id fp db ≡ (ok stored, s)
      → All P db.cards
      → P stored.1 × (any_token (grants merchant_id fp stored.1.id) db.tokens ≡ true)
  unfolding get_card_by_merchant_token
  token_card merchant_id fp db s stored h all =
      join_token-found P merchant_id fp db.cards db.tokens stored.0 stored.1
        (joined (join_token merchant_id fp db.cards db.tokens)
          (statement-ok env get_by_token _ db h))
        all

  authorize_stored-shown :
      (cvc : Text) (stored : ℕ × PaymentCard) (a : AuthorizedCard) (s t : CardTables)
      → authorize_stored S env cvc stored s ≡ (ok a, t)
      → (accepted S env stored.1 cvc ≡ true) × (a ≡ authorized S env stored.1)
  authorize_stored-shown cvc stored a s t h =
      let rest : Unit {0} → Rows AuthorizedCard = λ u. pure (ok (authorized S env stored.1)) in
      let (test, h1) =
        check-ok (accepted S env stored.1 cvc) invalid_card
          (touch_merchant_card_token env stored.0 >> rest tt) s h in
      let (u, v, h2, h3) = next-ok rest (touch_merchant_card_token env stored.0 s) h1 in
      (test, sym (answer-ok (authorized S env stored.1) v h3).0)

  authorize_token-Grounds :
      (merchant_id token cvc : Text) (a : AuthorizedCard) (db t : CardTables)
      → All P db.cards
      → authorize_token S env merchant_id token cvc db ≡ (ok a, t)
      → Grounds S env P db merchant_id token cvc a
  authorize_token-Grounds merchant_id token cvc a db t all h =
      let fp : List ℕ = fingerprint S (codes "token:" ++ token) in
      let (stored, s, h1, h2) =
        next-ok (authorize_stored S env cvc)
          (or_fail invalid_card (get_card_by_merchant_token env merchant_id fp) db) h in
      let h3 = or_fail-ok invalid_card (get_card_by_merchant_token env merchant_id fp db) h1 in
      let (holds, granted) = token_card merchant_id fp db s stored h3 all in
      let (test, shown) = authorize_stored-shown cvc stored a s t h2 in
      record {
        card = stored.1;
        holds = holds;
        granted = granted;
        is_usable = ground arith;
        cvc_matches = ground arith;
        shown = shown;
      }

  -- A merchant's token is authorized only by a card of the tables that is active and not expired, whose
  -- code matches and whose token the merchant holds; what is returned is that card's account.
  pub authorize-Grounds :
      (merchant_id token cvc : Text) (a : AuthorizedCard) (db t : CardTables)
      → All P db.cards
      → authorize S env merchant_id token cvc db ≡ (ok a, t)
      → Grounds S env P db
          (to_lower_text (trim_space merchant_id))
          (trim_space token)
          (trim_space cvc)
          a
  unfolding authorize authorize_normalized
  authorize-Grounds merchant_id token cvc a db t all h =
      let m : Text = to_lower_text (trim_space merchant_id) in
      let clean : Text = trim_space token in
      let code : Text = trim_space cvc in
      let run : Rows AuthorizedCard = authorize_token S env m clean code in
      let (shape, h1) =
        check-ok (env.is_ready && byte_len clean == 64 && valid_cvc code) invalid_card
          (pure (fail_if (not (all_hex clean)) invalid_card) >> run) db h in
      let (hex, h2) = check-ok (all_hex clean) invalid_card run db h1 in
      authorize_token-Grounds m clean code a db t all h2
