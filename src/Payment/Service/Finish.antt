-- ===== src/Payment/Service/Finish.antt =====
-- What a booking attempt leaves once its end is recorded.
use banking_go.Prelude.{
  ℕ, ◌≡◌, ◌≢◌, ◌⊎◌, inl, inr, refl, sym, ap, ◌∙◌, Bool, Bool-cases, false, ◌==◌, arith, List, [],
  ◌∷◌, some, if◌then◌else◌,
}
use mathlib.Core.Path.{subst, subst₂}
use banking_go.Errors.{Result, ok, err, Error}
use banking_go.Decimal.{Decimals, DecimalLaws}
use banking_go.Payment.Lifecycle.{failed, allowed_transitions, validate_transition}
use banking_go.Payment.Outbox.{OutboxWriter, enqueue_booked_events, enqueue_failed_event}
use banking_go.Payment.Booking.{book_payment_tx, mark_failed}
use banking_go.Payment.Booking.Booked.{Booking, book_payment_tx-Booking}
use banking_go.Payment.Booking.Refused.{Bookable, book_payment_tx-Clean}
use banking_go.Payment.Service.{
  finish, booked_event, failed_event, report_failed, enqueue_and_report,
}
use banking_go.Database.Tables.{Database, PaymentOrder}
use banking_go.Database.Tx.{
  Env, World, is_serialization_error, open_tx, aborted, query, attempt, capture, pure, ◌>>=◌, ◌>>◌,
}
use banking_go.Database.Tx.Refusal.{Refusal}
use banking_go.Database.Tx.Inversion.{bind_ok}
use banking_go.Database.Queries.Orders.{
  find_order, replace_order, mark_payment_failed, update_order,
}
use banking_go.Database.Ledger.Moved.{LedgerValid, Moved-LedgerValid}
use banking_go.Payment.Service.Events.{
  SameLedger, same_ledger, WriterKeeps, audit-OkKeeps, booked_events-OkKeeps, failed_event-OkKeeps,
}

-- A failed booking: nothing moved, and the order's row says so.
pub record NotBooked (before after : Database) (order result : PaymentOrder) : Type 0 where
  pub accounts : after.accounts ≡ before.accounts
  pub entries : after.entries ≡ before.entries
  pub orders : after.orders ≡ replace_order result before.orders
  pub status : result.status ≡ failed
  pub identity : result.id ≡ order.id
  pub users : after.users ≡ before.users
  pub row : PaymentOrder
  pub row_found : find_order order.id before.orders ≡ some row
  pub owner : result.owner_id ≡ row.owner_id

-- The two ends of a booking attempt.
abbrev pub Attempted : Database → Database → PaymentOrder → PaymentOrder → Type 0
Attempted before after order result =
    ((mid : Database) × Booking before mid order result × SameLedger mid after)
    ⊎ NotBooked before after order result

pub pure_ok :
    {A : Type 0} {a b : A} {v u : World}
    → ◌≡◌ {A = Result A × World} (ok a, v) (ok b, u)
    → (a ≡ b) × (v ≡ u)
pure_ok h = (ground arith, ground arith)

module _ (order : PaymentOrder) (cause : Error) (env : Env) (v : World) {result : PaymentOrder}
    {u : World} (h : mark_failed order cause env v ≡ (ok result, u)) where
  mark_failed_open : v.mode ≢ aborted
  unfolding mark_failed mark_payment_failed query
  mark_failed_open e = ground arith

  mark_failed_written :
      (row : PaymentOrder)
      → find_order order.id v.db.orders ≡ some row
      → (result.status ≡ failed)
        × (result.id ≡ row.id)
        × (result.owner_id ≡ row.owner_id)
        × (u.db ≡ record v.db { orders = replace_order result v.db.orders })
  unfolding mark_failed mark_payment_failed update_order query
  mark_failed_written row e = (ground arith, ground arith, ground arith, ground arith)

pub find_order_id :
    (id : ℕ) (orders : List PaymentOrder) (row : PaymentOrder)
    → find_order id orders ≡ some row
    → row.id ≡ id
unfolding find_order
find_order_id id [] row h = absurd (ground arith)
find_order_id id (o ∷ orders) row h = elim (Bool-cases (id == o.id)) [
  | inl here ↦ ground arith
  | inr later ↦ find_order_id id orders row (ground arith)
]

module _ (D : Decimals) (L : DecimalLaws D) (writer : OutboxWriter) (k : WriterKeeps writer)
    (by_worker : Bool) (order : PaymentOrder) (env : Env) where
  module _ {result : PaymentOrder} {u : World} where
    finish_booked :
        (booked : PaymentOrder) (v : World)
        → finish writer by_worker order (ok booked) env v ≡ (ok result, u)
        → (booked ≡ result) × SameLedger v.db u.db
    unfolding finish
    finish_booked booked v h =
        let (_, v1, e1, h1) =
          bind_ok (enqueue_booked_events writer booked)
            (λ _. booked_event order booked >> pure booked) env v h in
        let (_, v2, e2, h2) = bind_ok (booked_event order booked) (λ _. pure booked) env v1 h1 in
        let (same, at) = pure_ok h2 in
        (
          same,
          subst (λ (x : World). SameLedger v.db x.db) at
              ((audit-OkKeeps v.db order.owner_id order.id _ _).at env v1 tt v2
                ((booked_events-OkKeeps v.db writer k booked).at env v tt v1 (same_ledger v.db) e1)
                e2),
        )

    finish_failed :
        (cause : Error) (v : World)
        → finish writer by_worker order (err cause) env v ≡ (ok result, u)
        → (x : World) × (mark_failed order cause env v ≡ (ok result, x)) × SameLedger x.db u.db
    unfolding finish capture
    finish_failed cause v h =
        let (failed_order, v1, e1, h1) =
          bind_ok (mark_failed order cause) (enqueue_and_report writer by_worker order cause) env v
            h in
        let (_, v2, e2, h2) =
          bind_ok (enqueue_failed_event writer (if by_worker then order else failed_order))
            (λ _. report_failed order cause failed_order) env v1 h1 in
        let (_, v3, e3, h3) =
          bind_ok (failed_event order cause) (λ _. pure failed_order) env
            (record v2 { captured = some cause }) h2 in
        let (same, at) = pure_ok h3 in
        (
          v1,
          subst (λ x. mark_failed order cause env v ≡ (ok x, v1)) same e1,
          subst (λ (x : World). SameLedger v1.db x.db) at
              ((audit-OkKeeps v1.db order.owner_id order.id _ _).at env
                (record v2 { captured = some cause }) tt v3
                ((failed_event-OkKeeps v1.db writer k
                    (if by_worker then order else failed_order)).at
                  env v1 tt v2 (same_ledger v1.db) e2)
                e3),
        )

    module _ (s : World) (o : s.mode ≡ open_tx) (valid : LedgerValid s.db)
        (bookable : Bookable s.db order) where
      attempted :
          (r : Result PaymentOrder) (v : World)
          → book_payment_tx D order env s ≡ (r, v)
          → Refusal s.db r v
          → finish writer by_worker order r env v ≡ (ok result, u)
          → Attempted s.db u.db order result
      attempted (ok booked) v e clean h =
          let (same, still) = finish_booked booked v h in
          inl (
            v.db,
            subst (Booking s.db v.db order) same (book_payment_tx-Booking D L env order s valid e),
            still,
          )
      attempted (err cause) v e clean h =
          let (x, marked, still) = finish_failed cause v h in
          elim clean [
            | inl dead ↦ absurd (mark_failed_open order cause env v marked dead)
            | inr back ↦
                (let (status, identity, owner, written) =
                    mark_failed_written order cause env v marked bookable.row
                      (rw back bookable.row_found) in
                  inr (record {
                    users =
                        still.users
                        ∙ ap (λ (d : Database). d.users) written
                        ∙ ap (λ (d : Database). d.users) back;
                    row = bookable.row;
                    row_found = bookable.row_found;
                    owner = owner;
                    accounts =
                        still.accounts
                        ∙ ap (λ (d : Database). d.accounts) written
                        ∙ ap (λ (d : Database). d.accounts) back;
                    entries =
                        still.entries
                        ∙ ap (λ (d : Database). d.entries) written
                        ∙ ap (λ (d : Database). d.entries) back;
                    orders =
                        still.orders
                        ∙ ap (λ (d : Database). d.orders) written
                        ∙ ap (λ (d : Database). replace_order result d.orders) back;
                    status = status;
                    identity =
                        identity
                        ∙ find_order_id order.id s.db.orders bookable.row bookable.row_found;
                  }))
          ]

      -- A booking attempt whose end is recorded has either booked the order and moved its amount, or
      -- moved nothing and marked the order as failed.
      pub attempt-Attempted :
          (attempt (book_payment_tx D order) >>= finish writer by_worker order) env s
            ≡ (ok result, u)
          → Attempted s.db u.db order result
      attempt-Attempted h =
          let (r, v) = book_payment_tx D order env s in
          attempted r v refl ((book_payment_tx-Clean D order bookable).at env s refl o) h

-- A recorded attempt keeps what the ledger promises.
pub same-LedgerValid :
    (before after : Database)
    → after.accounts ≡ before.accounts
    → after.entries ≡ before.entries
    → LedgerValid before
    → LedgerValid after
same-LedgerValid before after a e v =
    subst₂
      (λ accounts entries. LedgerValid (record after { accounts = accounts; entries = entries }))
      (sym a) (sym e)
      (record {
        unique = v.unique;
        reconciled = v.reconciled;
        solvent = v.solvent;
        balanced = v.balanced;
        grounded = v.grounded;
        closed = v.closed;
      })

pub Attempted-LedgerValid :
    (before after : Database) (order result : PaymentOrder)
    → Attempted before after order result
    → LedgerValid before
    → LedgerValid after
Attempted-LedgerValid before after order result (inl (mid, b, s)) v =
    same-LedgerValid mid after s.accounts s.entries (Moved-LedgerValid b.movement v)
Attempted-LedgerValid before after order result (inr n) v =
    same-LedgerValid before after n.accounts n.entries v

-- Once a statement of a booking has aborted its transaction, recording the failure fails as well,
-- and with an error that is no serialization failure, whatever the cause was.
pub finish_aborted :
    (writer : OutboxWriter) (by_worker : Bool) (order : PaymentOrder) (cause : Error) (env : Env)
    (v : World)
    → v.mode ≡ aborted
    → (e : Error) × ((finish writer by_worker order (err cause) env v).0 ≡ err e)
      × (is_serialization_error e ≡ false)
unfolding finish mark_failed mark_payment_failed query is_serialization_error
finish_aborted writer by_worker order cause env v dead =
    elim (Bool-cases (allowed_transitions order.status failed)) [
      | inl allowed ↦ (Error.tx_aborted, unfold validate_transition in ground arith, refl)
      | inr refused ↦
          (Error.invalid_payment_state, unfold validate_transition in ground arith, refl)
    ]
