-- ===== src/Payment/Service/Process.antt =====
-- The worker books each claimed order once.
use banking_go.Prelude.{
  ℕ, suc, ◌≡◌, ◌≢◌, inl, inr, refl, sym, true, false, arith, some, none, Option-cases,
}
use mathlib.Core.Path.{subst}
use banking_go.Errors.{Result, ok, err}
use banking_go.Decimal.{Decimals, DecimalLaws}
use banking_go.Payment.Lifecycle.{is_processing}
use banking_go.Payment.Outbox.{OutboxWriter}
use banking_go.Payment.Booking.{book_payment_tx}
use banking_go.Payment.Booking.Refused.{Bookable}
use banking_go.Payment.Service.{
  finish, process_claimed_tx, process_claimed_payment, business_result,
}
use banking_go.Payment.Service.Events.{WriterKeeps}
use banking_go.Payment.Service.Finish.{Attempted, attempt-Attempted, find_order_id}
use banking_go.Payment.Service.Valid.{OrdersValid, owner_exists, BankValid, Attempted-BankValid}
use banking_go.Database.Tables.{Database, PaymentOrder}
use banking_go.Database.Tx.{
  Env, World, open_tx, query, attempt, ◌>>=◌, resume, read_captured, lift, exec_tx, capture,
}
use banking_go.Database.Tx.Keeps.{exec_tx_keeps}
use banking_go.Database.Queries.Users.{find_user}
use banking_go.Database.Queries.Orders.{find_order, get_payment_order_for_update}
use banking_go.Database.Ledger.Moved.{LedgerValid}

module _ (D : Decimals) (L : DecimalLaws D) (writer : OutboxWriter) (k : WriterKeeps writer)
    (payment_id : ℕ) (env : Env) (s : World) (o : s.mode ≡ open_tx) (valid : LedgerValid s.db)
    (orders : OrdersValid s.db) {result : PaymentOrder} {u : World}
    (h : process_claimed_tx D writer payment_id env s ≡ (ok result, u)) where
  claimed_exists : find_order payment_id s.db.orders ≢ none
  unfolding process_claimed_tx get_payment_order_for_update query
  claimed_exists e = ground arith

  module _ {order : PaymentOrder} (found : find_order payment_id s.db.orders ≡ some order) where
    claimed_ready :
        (is_processing order.status ≡ true) × (order.ledger_transaction_id.valid ≡ false)
    unfolding process_claimed_tx get_payment_order_for_update query
    claimed_ready = (ground arith, ground arith)

    left :
        (t : World) × (t.db ≡ s.db)
        × (t.mode ≡ open_tx)
        × ((attempt (book_payment_tx D order) >>= finish writer true order) env t ≡ (ok result, u))
    unfolding process_claimed_tx get_payment_order_for_update query
    left = (record s { tick = suc s.tick }, refl, o, ground arith)

    own_number : find_order order.id s.db.orders ≡ some order
    own_number =
        subst (λ id. find_order id s.db.orders ≡ some order)
          (sym (find_order_id payment_id s.db.orders order found)) found

    claimed-Attempted : Attempted s.db u.db order result
    claimed-Attempted = elim (Option-cases (find_user order.owner_id s.db.users)) [
      | inl gone ↦ absurd (owner_exists s.db orders payment_id order found gone)
      | inr (sender, sent) ↦
          (let (t, same, o_t, rest) = left in
            let (in_processing, unbooked) = claimed_ready in
            let bookable : Bookable s.db order = record {
              sender = sender;
              sender_found = sent;
              row = order;
              row_found = own_number;
              in_processing = in_processing;
              unbooked = unbooked;
            } in
            subst (λ (db : Database). Attempted db u.db order result) same
              (attempt-Attempted D L writer k true order env t o_t
                (subst LedgerValid (sym same) valid)
                (subst (λ (db : Database). Bookable db order) (sym same) bookable) rest))
    ]

  -- A run of the worker's body that succeeds in an open transaction, on a valid ledger with valid
  -- orders and with a writer that leaves accounts, entries, orders and users alone, has found the
  -- order unbooked, and has either booked it with one movement of its amount, or marked it as
  -- failed and moved nothing.
  pub process_claimed_tx-Attempted :
      (order : PaymentOrder) × (find_order payment_id s.db.orders ≡ some order)
      × (order.ledger_transaction_id.valid ≡ false)
      × Attempted s.db u.db order result
  process_claimed_tx-Attempted = elim (Option-cases (find_order payment_id s.db.orders)) [
    | inl gone ↦ absurd (claimed_exists gone)
    | inr (order, found) ↦ (order, found, (claimed_ready found).1, claimed-Attempted found)
  ]

module _ (D : Decimals) (L : DecimalLaws D) (writer : OutboxWriter) (k : WriterKeeps writer)
    (payment_id : ℕ) (env : Env) where
  run_keeps :
      (w : World)
      → BankValid w.db
      → (r : Result PaymentOrder) (u : World)
      → exec_tx (process_claimed_tx D writer payment_id) env w ≡ (r, u)
      → BankValid u.db
  run_keeps w v =
      exec_tx_keeps BankValid (process_claimed_tx D writer payment_id) env w v (λ t c result x ran.
        let s : World = record { db = w.db; tick = t; mode = open_tx; captured = c } in
        let (order, _, _, attempted) =
          process_claimed_tx-Attempted D L writer k payment_id env s refl v.0 v.1 ran in
        Attempted-BankValid w.db x.db order result attempted v)

  returned :
      (r : Result PaymentOrder) (u : World)
      → (resume
          (λ _. read_captured >>= λ business_err. lift (business_result business_err))
          env
          (r, u)).1.db
        ≡ u.db
  unfolding read_captured
  returned (ok result) u = refl
  returned (err e) u = refl

  -- The processing of a claimed order takes a valid ledger with valid orders to one, whether it
  -- books, fails or is rolled back, where the outbox writer leaves accounts, entries, orders and
  -- users alone.
  pub process_claimed_payment-BankValid :
      (w : World)
      → BankValid w.db
      → BankValid (process_claimed_payment D writer payment_id env w).1.db
  unfolding process_claimed_payment capture
  process_claimed_payment-BankValid w v =
      let started : World = record w { captured = none } in
      let (r, u) = exec_tx (process_claimed_tx D writer payment_id) env started in
      subst BankValid (sym (returned r u)) (run_keeps started v r u refl)
