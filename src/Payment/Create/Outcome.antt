-- ===== src/Payment/Create/Outcome.antt =====
-- What a successful CreatePayment has done: replayed the order of its key, or added one order.
use mathlib.Core.Path.{subst}
use banking_go.Prelude.{
  ◌+◌, ◌/◌, ◌≢◌, false, codes, text_eq, text_eq_sound, ℕ, suc, ◌≡◌, ◌⊎◌, inl, inr, refl, sym, ap,
  ◌∙◌, true, false, some, none, Option, List, ◌∷◌, Text, arith, Bool-cases,
}
use banking_go.Errors.{Result, ok, err, Error}
use banking_go.Decimal.{Decimals}
use banking_go.Account.Ownership.{customer_can_operate_sound}
use banking_go.Payment.Lifecycle.{awaiting_confirmation}
use banking_go.Payment.Create.{
  CreatePaymentResult, replay_of, source_checks, beneficiary_of, order_params, replay_or_conflict,
  created_event, after_insert,
}
use banking_go.Payment.Create.Reads.{find_key-Kept}
use banking_go.Payment.Create.Replay.{KindFits, beneficiary_of-KindFits}
use banking_go.Payment.Input.{CreatePaymentInput}
use banking_go.Payment.Intent.{same_payment_intent}
use banking_go.Payment.Payee.Names.{Letters, VopResult}
use banking_go.Payment.Service.{audit}
use banking_go.Payment.Booking.{audit_with_queries}
use banking_go.Database.Tables.{Database, PaymentOrder, Account, NullUuid}
use banking_go.Database.Tx.{
  Env, World, Tx, pure, lift, attempt, query, new_uuid, is_unique_violation,
}
use banking_go.Database.Tx.Keeps.{Keeps, exec_tx-Keeps, OkKeeps-query}
use banking_go.Database.Tx.Inversion.{bind_ok, query_ok}
use banking_go.Database.Queries.Accounts.{get_account, find_account, row_or_none}
use banking_go.Database.Queries.Orders.{find_idempotency, get_payment_order_by_idempotency}
use banking_go.Database.Queries.Users.{create_audit_event}
use banking_go.Database.Queries.Orders.Insert.{
  CreatePaymentOrderParams, create_payment_order, new_order, insert_order,
}

module _ {A : Type 0} (m : Tx A) (env : Env) (w : World) {r : Result A} {v : World} where
  pub tried : attempt m env w ≡ (ok r, v) → m env w ≡ (r, v)
  tried h = ground arith

  -- A step that keeps every property of the database has left it alone.
  pub untouched : ((P : Database → Type 0) → Keeps P m) → m env w ≡ (r, v) → v.db ≡ w.db
  untouched k h = subst (λ (p : Result A × World). p.1.db ≡ w.db) h (k (λ db. db ≡ w.db) env w refl)

-- The order of this key and intent, read from an unchanged database.
pub record Replayed (D : Decimals) (input : CreatePaymentInput) (amount : D.Decimal)
    (r : CreatePaymentResult) (before after : Database) : Type 0 where
  pub replayed : r.replayed ≡ true
  pub stored : find_idempotency input.owner_id input.idempotency_key before.orders ≡ some r.order
  pub same_intent : same_payment_intent D r.order input amount ≡ true
  pub unchanged : after ≡ before

-- The account that is charged: the requester's own, no system account, active and in EUR.
pub record Chargeable (owner_id : ℕ) (source : Account) : Type 0 where
  pub named : owner_id ≢ 0
  pub assigned : source.owner_id.valid ≡ true
  pub owned : source.owner_id.uuid ≡ owner_id
  pub customers : source.is_system ≡ false
  pub active : source.status ≡ codes "ACTIVE"
  pub in_eur : source.currency ≡ codes "EUR"

source_checks-Chargeable :
    (input : CreatePaymentInput) (source : Account)
    → source_checks input source ≡ ok tt
    → Chargeable input.owner_id source
unfolding source_checks
source_checks-Chargeable input source h =
    let (named, assigned, customers, owned) =
      customer_can_operate_sound input.owner_id source.owner_id.uuid source.owner_id.valid
        source.is_system (ground arith) in
    record {
      named = named;
      assigned = assigned;
      owned = owned;
      customers = customers;
      active = text_eq_sound source.status (codes "ACTIVE") (ground arith);
      in_eur = text_eq_sound source.currency (codes "EUR") (ground arith);
    }

-- The request in the order, which awaits its confirmation and is not booked; an immediate payment is
-- due at the time of its creation, and a scheduled one at the requested time, in microseconds.
pub record Requested (D : Decimals) (input : CreatePaymentInput) (amount : D.Decimal) (now : ℕ)
    (order : PaymentOrder) : Type 0 where
  pub awaits : order.status ≡ awaiting_confirmation
  pub unbooked : order.ledger_transaction_id.valid ≡ false
  pub not_overridden : order.vop_overridden ≡ false
  pub owner : order.owner_id ≡ input.owner_id
  pub charged : order.source_account_id ≡ input.source_account_id
  pub payee : order.beneficiary_name ≡ input.beneficiary_name
  pub payee_iban : order.beneficiary_iban ≡ input.beneficiary_iban
  pub worth : order.amount ≡ D.numeric amount
  pub key : order.idempotency_key ≡ input.idempotency_key
  pub schedule : order.schedule_type ≡ input.schedule_type
  pub at_once : input.schedule_type ≡ codes "IMMEDIATE" → order.requested_execution_at ≡ now
  pub planned :
      input.schedule_type ≡ codes "SCHEDULED"
      → order.requested_execution_at ≡ (input.requested_execution + 500) / 1_000

module _ (D : Decimals) (input : CreatePaymentInput) (amount : D.Decimal) (b : NullUuid × Text)
    (vop : VopResult) (now : ℕ) (nonce : Text) (id : ℕ) where
  order_params-Requested :
      Requested D input amount now (new_order id (order_params D input amount b vop now nonce))
  unfolding text_eq
  order_params-Requested = record {
    awaits = refl;
    unbooked = refl;
    not_overridden = refl;
    owner = refl;
    charged = refl;
    payee = refl;
    payee_iban = refl;
    worth = refl;
    key = refl;
    schedule = refl;
    at_once = λ e. rw e refl;
    planned = λ e. rw e refl;
  }

-- One more order, made from the request, of a key that was free and from an account that the
-- requester may charge.
pub record Created (D : Decimals) (input : CreatePaymentInput) (amount : D.Decimal)
    (r : CreatePaymentResult) (before after : Database) : Type 0 where
  pub created : r.replayed ≡ false
  pub source : Account
  pub source_found : find_account input.source_account_id before.accounts ≡ some source
  pub source_allowed : Chargeable input.owner_id source
  pub beneficiary : NullUuid × Text
  pub kind_fits : KindFits input beneficiary.1
  pub vop : VopResult
  pub id : ℕ
  pub created_at : ℕ
  pub nonce : Text
  pub order_is :
      r.order ≡ new_order id (order_params D input amount beneficiary vop created_at nonce)
  pub requested : Requested D input amount created_at r.order
  pub added : after.orders ≡ r.order ∷ before.orders

row_found : {A : Type 0} (o : Option A) {a : A} → row_or_none o ≡ ok a → o ≡ some a
row_found none h = cc
row_found (some b) h = cc

pub key_found :
    (owner_id : ℕ) (key : Text) (env : Env) (w : World) {order : PaymentOrder} {u : World}
    → get_payment_order_by_idempotency owner_id key env w ≡ (ok order, u)
    → find_idempotency owner_id key w.db.orders ≡ some order
unfolding get_payment_order_by_idempotency
key_found owner_id key env w h =
    row_found (find_idempotency owner_id key w.db.orders)
      (query_ok env w (λ db. (row_or_none (find_idempotency owner_id key db.orders), db)) h).0

pub account_found :
    (id : ℕ) (env : Env) (w : World) {source : Account} {u : World}
    → get_account id env w ≡ (ok source, u)
    → find_account id w.db.accounts ≡ some source
unfolding get_account
account_found id env w h =
    row_found (find_account id w.db.accounts)
      (query_ok env w (λ db. (row_or_none (find_account id db.accounts), db)) h).0

inserted_row :
    (row : PaymentOrder) (db : Database) {order : PaymentOrder}
    → (insert_order row db).0 ≡ ok order
    → (order ≡ row) × ((insert_order row db).1.orders ≡ order ∷ db.orders)
unfolding insert_order
inserted_row row db h = (ground arith, ground arith)

module _ (arg : CreatePaymentOrderParams) (env : Env) (w : World) {v : World} where
  inserted :
      {order : PaymentOrder}
      → create_payment_order arg env w ≡ (ok order, v)
      → (id : ℕ) × (order ≡ new_order id arg) × (v.db.orders ≡ order ∷ w.db.orders)
  unfolding create_payment_order new_uuid
  inserted {order} h =
      let id = env.ids w.tick in
      let (first, last) =
        query_ok env (record w { tick = suc w.tick }) (insert_order (new_order id arg)) h in
      let (same, added) = inserted_row (new_order id arg) w.db first in
      (id, same, ap (λ (d : Database). d.orders) last ∙ added)

  refused : {e : Error} → create_payment_order arg env w ≡ (err e, v) → v.db ≡ w.db
  unfolding create_payment_order new_uuid query insert_order
  refused h = ground arith

event_orders :
    (D : Decimals) (order : PaymentOrder) (orders : List PaymentOrder)
    → Keeps (λ db. db.orders ≡ orders) (created_event D order)
unfolding audit audit_with_queries create_audit_event
event_orders D order orders = exec_tx-Keeps _ (OkKeeps-query _ (λ db h. h))

abbrev pub Outcome :
    (D : Decimals) (input : CreatePaymentInput)
    → D.Decimal
    → CreatePaymentResult
    → Database
    → Database
    → Type 0
Outcome D input amount r before after =
    Replayed D input amount r before after ⊎ Created D input amount r before after

module _ (D : Decimals) (input : CreatePaymentInput) (amount : D.Decimal) (env : Env) where
  module _ (before : Database) (w : World) (same : w.db ≡ before) {r : CreatePaymentResult}
      {u : World} where
    looked_again-Replayed :
        (found : Result PaymentOrder) (v : World)
        → get_payment_order_by_idempotency input.owner_id input.idempotency_key env w ≡ (found, v)
        → lift (replay_or_conflict D input amount found) env v ≡ (ok r, u)
        → Replayed D input amount r before u.db
    looked_again-Replayed (ok existing) v e h =
        let here : v.db ≡ before =
          untouched (get_payment_order_by_idempotency input.owner_id input.idempotency_key) env w
            (λ P. find_key-Kept P input.owner_id input.idempotency_key) e
          ∙ same in
        let kept : same_payment_intent D existing input amount ≡ true = ground arith in
        let it : r ≡ replay_of existing = ground arith in
        let there : u ≡ v = ground arith in
        let stored : find_idempotency input.owner_id input.idempotency_key before.orders
            ≡ some existing =
          subst
            (λ (db : Database).
              find_idempotency input.owner_id input.idempotency_key db.orders ≡ some existing)
            same (key_found input.owner_id input.idempotency_key env w e) in
        record {
          replayed = ap (λ (x : CreatePaymentResult). x.replayed) it;
          stored = stored ∙ ap (λ (x : CreatePaymentResult). some x.order) (sym it);
          same_intent =
              subst (λ (x : CreatePaymentResult). same_payment_intent D x.order input amount ≡ true)
                (sym it) kept;
          unchanged = ap (λ (x : World). x.db) there ∙ here;
        }
    looked_again-Replayed (err e') v e h = absurd (ground arith)

    -- The end of an insert that failed: only a replay succeeds.
    after_refusal :
        (e : Error)
        → after_insert D input amount (err e) env w ≡ (ok r, u)
        → Replayed D input amount r before u.db
    unfolding after_insert
    after_refusal e h = elim (Bool-cases (is_unique_violation e)) [
      | inr other ↦ absurd (no_result (rw other at h))
      | inl unique ↦
          (let (found, v, look, last) =
              bind_ok
                (attempt (get_payment_order_by_idempotency input.owner_id input.idempotency_key))
                (λ found. lift (replay_or_conflict D input amount found)) env w (rw unique at h) in
            looked_again-Replayed found v
              (tried (get_payment_order_by_idempotency input.owner_id input.idempotency_key) env w
                look)
              last)
    ]
      where
        no_result : ¬ (◌≡◌ {A = Result CreatePaymentResult × World} (err e, w) (ok r, u))
        no_result k = ground arith

  after_success :
      (order : PaymentOrder) (w : World) {r : CreatePaymentResult} {u : World}
      → after_insert D input amount (ok order) env w ≡ (ok r, u)
      → (r ≡ record { order = order; replayed = false }) × (u.db.orders ≡ w.db.orders)
  unfolding after_insert
  after_success order w {r} {u} h =
      let result : CreatePaymentResult = record { order = order; replayed = false } in
      let (_, v, event, last) = bind_ok (created_event D order) (λ _. pure result) env w h in
      let kept : v.db.orders ≡ w.db.orders =
        subst (λ (p : Result (Unit {0}) × World). p.1.db.orders ≡ w.db.orders) event
          (event_orders D order w.db.orders env w refl) in
      (ground arith, ground arith)

  module _ (letters : Letters) (before : Database) (source : Account)
      (source_found : find_account input.source_account_id before.accounts ≡ some source)
      (allowed : source_checks input source ≡ ok tt) (destination : Result Account)
      (b : NullUuid × Text) (chosen : beneficiary_of input source destination ≡ ok b) where
    -- From the insert on.
    pub inserted_Outcome :
        (vop : VopResult) (now : ℕ) (nonce : Text) (w : World)
        → w.db ≡ before
        → (made : Result PaymentOrder) (v : World)
        → create_payment_order (order_params D input amount b vop now nonce) env w ≡ (made, v)
        → {r : CreatePaymentResult} {u : World} → after_insert D input amount made env v ≡ (ok r, u)
        → Outcome D input amount r before u.db
    inserted_Outcome vop now nonce w same (err e) v made h = inl (
        after_refusal before v
          (refused (order_params D input amount b vop now nonce) env w made ∙ same) e h)
    inserted_Outcome vop now nonce w same (ok order) v made h =
        let arg = order_params D input amount b vop now nonce in
        let (id, order_is, added) = inserted arg env w made in
        let (result, kept) = after_success order v h in
        inr (record {
          created = ap (λ (x : CreatePaymentResult). x.replayed) result;
          source = source;
          source_found = source_found;
          source_allowed = source_checks-Chargeable input source allowed;
          beneficiary = b;
          kind_fits = beneficiary_of-KindFits input source destination b chosen;
          vop = vop;
          id = id;
          created_at = now;
          nonce = nonce;
          order_is = ap (λ (x : CreatePaymentResult). x.order) result ∙ order_is;
          requested =
              subst (Requested D input amount now)
                (sym (ap (λ (x : CreatePaymentResult). x.order) result ∙ order_is))
                (order_params-Requested D input amount b vop now nonce id);
          added =
              kept
              ∙ added
              ∙ ap (λ (db : Database). order ∷ db.orders) same
              ∙ ap (λ (x : CreatePaymentResult). x.order ∷ before.orders) (sym result);
        })
