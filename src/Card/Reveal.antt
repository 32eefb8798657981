-- ===== src/Card/Reveal.antt =====
-- A card that is issued is revealed to its owner as it was issued (`Issue` and `Reveal` of
-- backend/internal/card/service.go).
use banking_go.Prelude.{
  ℕ, ◌≡◌, ◌≢◌, refl, sym, ◌∙◌, ap, Bool, true, not, ◌&&◌, ◌==◌, List, ◌∷◌, ◌++◌, Text, codes,
  text_eq_refl, ==_refl, arith,
}
use banking_go.Errors.{Result, ok}
use banking_go.Outbox.{done}
use banking_go.Card.Number.{generate_pan, random_digits}
use banking_go.Card.Secrets.{Secrets, SecretsLaws, encrypt, decrypt, decrypt-encrypt, fingerprint}
use banking_go.Card.Store.{
  CardEnv, CardTables, PaymentCard, statement, get_card, get_card_by_id_and_owner, find_card,
  is_active, read_account,
}
use banking_go.Card.Service.{
  issue_for, or_fail, ◌>>=◌, IssuedCard, issue, issue_new, issued, new_row, reveal, credentials,
  both, authentic, named, can_hold, card_unavailable,
}
use banking_go.Card.Steps.{answer-ok, next-ok, pure-ok, check-ok, create_payment_card-ok}

module _ (S : Secrets) (L : SecretsLaws S) (env : CardEnv) where
  abbrev answer : IssuedCard → CardTables → Result IssuedCard × CardTables
  answer i t = (ok i, t)

  -- What an issued card is in the tables.
  record IssuedRow (owner_id account_id : ℕ) (db t : CardTables) (card : IssuedCard) : Type 0 where
    pan : Text
    cvc : Text
    hash : Text
    sealed_pan : List ℕ
    sealed_cvc : List ℕ
    shown :
        card
        ≡ issued S env pan cvc (new_row S env owner_id account_id pan hash sealed_pan sealed_cvc)
    stored : t ≡ record db {
      cards = new_row S env owner_id account_id pan hash sealed_pan sealed_cvc ∷ db.cards;
    }
    opens_pan : decrypt S sealed_pan ≡ ok pan
    opens_cvc : decrypt S sealed_cvc ≡ ok cvc
    matches : S.matches_password hash cvc ≡ true

  issue_new-IssuedRow :
      (owner_id account_id : ℕ) (db t : CardTables) (card : IssuedCard)
      → issue_new S env owner_id account_id db ≡ (ok card, t)
      → IssuedRow owner_id account_id db t card
  unfolding issue_new
  issue_new-IssuedRow owner_id account_id db t card h =
      let (pan, h1, r1) = pure-ok _ (generate_pan env.random) db h in
      let (cvc, h2, r2) = pure-ok _ (random_digits 3 pan.1) db r1 in
      let (hash, h3, r3) = pure-ok _ (S.hash_password env.salt cvc.0) db r2 in
      let (sealed_pan, h4, r4) = pure-ok _ (encrypt S cvc.1 pan.0) db r3 in
      let (sealed_cvc, h5, r5) = pure-ok _ (encrypt S sealed_pan.1 cvc.0) db r4 in
      let (made, u, h6, r6) = next-ok _ _ r5 in
      let (made_is, u_is) = create_payment_card-ok _ made db u env h6 in
      let last = answer-ok (issued S env pan.0 cvc.0 made) u r6 in
      record {
        pan = pan.0;
        cvc = cvc.0;
        hash = hash;
        sealed_pan = sealed_pan.0;
        sealed_cvc = sealed_cvc.0;
        shown = sym last.0 ∙ ap (issued S env pan.0 cvc.0) made_is;
        stored = sym last.1 ∙ u_is;
        opens_pan = decrypt-encrypt S L cvc.1 pan.0 sealed_pan.0 sealed_pan.1 h4;
        opens_cvc = decrypt-encrypt S L sealed_pan.1 cvc.0 sealed_cvc.0 sealed_cvc.1 h5;
        matches = L.matches-hash env.salt cvc.0 hash h3;
      }

  pair : {i j : IssuedCard} {s t : CardTables} → i ≡ j → s ≡ t → answer i s ≡ answer j t
  pair e k = cc

  -- `later` is the environment of the second request.
  module _ (later : CardEnv) (ready : later.is_ready ≡ true)
      (reads : later.calls get_card ≡ done) where
    get_card_first :
        (c : PaymentCard) (db : CardTables)
        → get_card_by_id_and_owner later c.id c.owner_id (record db { cards = c ∷ db.cards })
          ≡ (ok c, record db { cards = c ∷ db.cards })
    unfolding get_card_by_id_and_owner statement find_card
    get_card_first c db =
        let i = ==_refl c.id in let o = ==_refl c.owner_id in ground (arith, reads)

    reveal_first :
        (c : PaymentCard) (db : CardTables) (pan cvc : Text)
        → not (c.id == 0) ≡ true
        → not (c.owner_id == 0) ≡ true
        → is_active c.status ≡ true
        → credentials S later c ≡ ok (pan, cvc)
        → authentic S later c (pan, cvc) ≡ true
        → reveal S later c.owner_id c.id (record db { cards = c ∷ db.cards })
          ≡ (ok (issued S later pan cvc c), record db { cards = c ∷ db.cards })
    unfolding reveal
    reveal_first c db pan cvc i o a creds auth = let e = get_card_first c db in ground arith

    -- The credentials that `Issue` reported are those that `Reveal` shows to the owner, when the
    -- packages decrypt what they encrypted and the bank's calls succeed; `uuid.New` is not the zero
    -- identifier.
    pub issue-reveal :
        (owner_id account_id : ℕ) (db t : CardTables) (card : IssuedCard)
        → env.new_card ≢ 0
        → issue S env owner_id account_id db ≡ (ok card, t)
        → reveal S later owner_id card.id t ≡ (ok card, t)
    unfolding issue credentials
    issue-reveal owner_id account_id db t card fresh h =
        let (names, h1) =
          check-ok (named S env owner_id account_id) card_unavailable
            (or_fail card_unavailable (read_account env account_id)
              >>= issue_for S env owner_id account_id)
            db h in
        let (account, s, h2, h3) =
          next-ok (issue_for S env owner_id account_id)
            (or_fail card_unavailable (read_account env account_id) db) h1 in
        let (holds, h4) =
          check-ok (can_hold S env owner_id account) card_unavailable
            (issue_new S env owner_id account_id) s h3 in
        let r = issue_new-IssuedRow owner_id account_id s t card h4 in
        let row : PaymentCard =
          new_row S env owner_id account_id r.pan r.hash r.sealed_pan r.sealed_cvc in
        let creds : credentials S later row ≡ ok (r.pan, r.cvc) =
          ap (λ (p : Result Text). both p (decrypt S r.sealed_cvc)) r.opens_pan
          ∙ ap (both (ok r.pan)) r.opens_cvc in
        let auth : authentic S later row (r.pan, r.cvc) ≡ true =
          ap (λ (b : Bool). b && S.matches_password r.hash r.cvc)
            (text_eq_refl (fingerprint S (codes "pan:" ++ r.pan)))
          ∙ r.matches in
        let shown = reveal_first row s r.pan r.cvc (ground arith) (ground arith) refl creds auth in
        ap (λ (id : ℕ). reveal S later owner_id id t) (ap (λ (i : IssuedCard). i.id) r.shown)
        ∙ ap (reveal S later owner_id env.new_card) r.stored
        ∙ shown
        ∙ sym (pair r.shown r.stored)
