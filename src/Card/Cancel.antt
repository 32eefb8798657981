-- ===== src/Card/Cancel.antt =====
-- A cancelled card is of no more use (`Cancel`, `Authorize` and `Reveal` of
-- backend/internal/card/service.go).
use banking_go.Prelude.{
  ℕ, ◌≡◌, refl, sym, ap, Bool, true, false, not, ◌&&◌, ◌==◌, if◌then◌else◌, Bool-cases, inl, inr,
  Option-cases, List, ◌∷◌, [], Text, All, arith, trim_space, to_lower_text,
}
use mathlib.Core.Path.{subst}
use banking_go.Errors.{Result, ok, err}
use banking_go.Card.Secrets.{Secrets}
use banking_go.Card.Store.{
  CardEnv, CardTables, PaymentCard, CardStatus, active, blocked, expired, cancelled, is_active,
  is_cancelled, owned, cancel_rows, cancel_payment_card, get_card_by_id_and_owner, cancel_card,
  find_card, statement,
}
use banking_go.Card.Service.{
  AuthorizedCard, authorize, cancel, reveal, named, card_unavailable, card_credentials_unavailable,
  or_fail, usable,
}
use banking_go.Card.Steps.{check-ok, or_fail-ok, statement-ok}
use banking_go.Card.Authorize.{Grounds, authorize-Grounds, find_card-found}

-- No active card of this owner under this identifier.
abbrev pub Ended : ℕ → ℕ → PaymentCard → Type 0
Ended owner_id card_id c = owned owner_id card_id c ≡ true → is_active c.status ≡ false

cancelled-inactive : (s : CardStatus) → is_cancelled s ≡ true → is_active s ≡ false
cancelled-inactive cancelled h = refl
cancelled-inactive active h = absurd (ground arith)
cancelled-inactive blocked h = absurd (ground arith)
cancelled-inactive expired h = absurd (ground arith)

cancel_rows-Ended :
    (owner_id card_id : ℕ) (cards : List PaymentCard)
    → All (Ended owner_id card_id) (cancel_rows owner_id card_id cards)
unfolding cancel_rows
cancel_rows-Ended owner_id card_id [] = tt
cancel_rows-Ended owner_id card_id (c ∷ cards) = (
  elim (Bool-cases (owned owner_id card_id c && not (is_cancelled c.status))) [
    | inl e ↦
        subst
          (λ (b : Bool). Ended owner_id card_id (if b then record c { status = cancelled } else c))
          (sym e) (λ h. refl)
    | inr e ↦
        subst
          (λ (b : Bool). Ended owner_id card_id (if b then record c { status = cancelled } else c))
          (sym e) (λ h. cancelled-inactive c.status (ground arith))
  ],
  cancel_rows-Ended owner_id card_id cards,
)

refuted : (b c : Bool) → (b ≡ true → c ≡ false) → c ≡ true → b ≡ false
refuted false c k h = refl
refuted true c k h = absurd (ground (arith, k refl))

module _ (S : Secrets) where
  cancel-Ended :
      (env : CardEnv) (owner_id card_id : ℕ) (db t : CardTables)
      → cancel S env owner_id card_id db ≡ (ok tt, t)
      → All (Ended owner_id card_id) t.cards
  unfolding cancel cancel_payment_card
  cancel-Ended env owner_id card_id db t h =
      let (names, h1) =
        check-ok (named S env owner_id card_id) card_unavailable
          (or_fail card_unavailable (cancel_payment_card env owner_id card_id)) db h in
      let h2 = or_fail-ok card_unavailable (cancel_payment_card env owner_id card_id db) h1 in
      let h3 = statement-ok env cancel_card _ db h2 in
      let rows : cancel_rows owner_id card_id db.cards ≡ t.cards =
        ap (λ (p : Result (Unit {0}) × CardTables). p.1.cards) h3 in
      subst (All (Ended owner_id card_id)) rows (cancel_rows-Ended owner_id card_id db.cards)

  -- After a cancellation, whatever a merchant has authorized is of another card, even with a token
  -- that was good before.
  pub cancel-authorize :
      (env later : CardEnv) (owner_id card_id : ℕ) (merchant_id token cvc : Text)
      (a : AuthorizedCard) (db t u : CardTables)
      → cancel S env owner_id card_id db ≡ (ok tt, t)
      → authorize S later merchant_id token cvc t ≡ (ok a, u)
      → Grounds S later
          (λ c. owned owner_id card_id c ≡ false)
          t
          (to_lower_text (trim_space merchant_id))
          (trim_space token)
          (trim_space cvc)
          a
  unfolding usable
  cancel-authorize env later owner_id card_id merchant_id token cvc a db t u h k =
      let g =
        authorize-Grounds S later (Ended owner_id card_id) merchant_id token cvc a t u
          (cancel-Ended env owner_id card_id db t h) k in
      record {
        card = g.card;
        holds =
            refuted (owned owner_id card_id g.card) (is_active g.card.status) g.holds
              (ground (arith, g.is_usable));
        granted = g.granted;
        is_usable = g.is_usable;
        cvc_matches = g.cvc_matches;
        shown = g.shown;
      }

  -- After a cancellation that succeeded, `Reveal` answers the owner with the error for unavailable
  -- credentials, whatever else fails, and changes nothing.
  pub cancel-reveal :
      (env later : CardEnv) (owner_id card_id : ℕ) (db t : CardTables)
      → cancel S env owner_id card_id db ≡ (ok tt, t)
      → reveal S later owner_id card_id t ≡ (err card_credentials_unavailable, t)
  unfolding reveal get_card_by_id_and_owner statement
  cancel-reveal env later owner_id card_id db t h =
      let all = cancel-Ended env owner_id card_id db t h in
      let test : PaymentCard → Bool = λ c. c.id == card_id && c.owner_id == owner_id in
      elim (Option-cases (find_card test t.cards)) [
        | inl e ↦ ground arith
        | inr (c, e) ↦
            let (ended, is) = find_card-found (Ended owner_id card_id) test t.cards c e all in
            let inactive = ended is in ground arith
      ]
