-- ===== src/Payment/Service/History.antt =====
-- Any history of confirmations, cancellations and bookings by the worker keeps the bank valid.
use mathlib.Core.Path.{subst}
use banking_go.Prelude.{
  ℕ, ◌≡◌, refl, sym, Bool, ◌&&◌, ◌||◌, ◌==◌, Bool-cases, inl, inr, some, none, Option, List, [],
  ◌∷◌, Text, codes,
}
use banking_go.Decimal.{Decimals, DecimalLaws}
use banking_go.Payment.Lifecycle.{is_draft, is_awaiting, is_scheduled, cancelled}
use banking_go.Payment.Outbox.{OutboxWriter}
use banking_go.Payment.Create.{create_payment}
use banking_go.Payment.Create.Funds.{create_payment-BankValid}
use banking_go.Payment.Input.{CreatePaymentInput}
use banking_go.Payment.Payee.Names.{Letters}
use banking_go.Payment.Booking.{audit_with_queries}
use banking_go.Payment.Service.{
  get_payment, owned_order, cancel_payment, cancel_refusal, audit, confirm_payment,
  process_claimed_payment, run_due_payments,
}
use banking_go.Payment.Service.Events.{WriterKeeps}
use banking_go.Payment.Service.Finish.{find_order_id}
use banking_go.Payment.Service.Valid.{BankValid, replaced-OrdersValid}
use banking_go.Payment.Service.Process.{process_claimed_payment-BankValid}
use banking_go.Payment.Service.RunDue.{run_due_payments-BankValid}
use banking_go.Payment.Service.Committed.{confirm_payment-BankValid}
use banking_go.Database.Tables.{Database, PaymentOrder, EventValue}
use banking_go.Database.Tx.{Env, World, Tx, attempt, lift, pure, ◌>>=◌, ◌>>◌}
use banking_go.Database.Tx.Keeps.{Keeps, Keeps-bind, Keeps-query, exec_tx-Keeps, OkKeeps-query}
use banking_go.Database.Queries.Accounts.{row_or_none}
use banking_go.Database.Queries.Users.{create_audit_event}
use banking_go.Database.Queries.Orders.{
  find_order, update_order, update_found, cancel_payment_order, get_payment_order,
}

-- One call of the service.
pub data PaymentCall : Type 0 where
  confirm : ℕ → ℕ → Bool → PaymentCall
  cancel_call : ℕ → ℕ → PaymentCall
  read : ℕ → ℕ → PaymentCall
  process : ℕ → PaymentCall
  run_due : ℕ → PaymentCall
  create : CreatePaymentInput → PaymentCall

module _ (D : Decimals) (letters : Letters) (writer : OutboxWriter) where
  unfoldable pub perform_payment : PaymentCall → Env → World → World
  perform_payment (confirm owner id accept) env w =
      (confirm_payment D writer owner id accept env w).1
  perform_payment (cancel_call owner id) env w = (cancel_payment owner id env w).1
  perform_payment (read owner id) env w = (get_payment owner id env w).1
  perform_payment (process id) env w = (process_claimed_payment D writer id env w).1
  perform_payment (run_due batch_size) env w = (run_due_payments D writer batch_size env w).1
  perform_payment (create input) env w = (create_payment D letters input env w).1

  unfoldable pub perform_payments : List (PaymentCall × Env) → World → World
  perform_payments [] w = w
  perform_payments ((call, env) ∷ rest) w = perform_payments rest (perform_payment call env w)

audit-Keeps :
    (owner_id id : ℕ) (event_type : Text) (data_ : List (Text × EventValue))
    → Keeps BankValid (audit owner_id id event_type data_)
unfolding audit audit_with_queries create_audit_event
audit-Keeps owner_id id event_type data_ = exec_tx-Keeps _ (
    OkKeeps-query _ (λ db (v, o). (
      record {
        unique = v.unique;
        reconciled = v.reconciled;
        solvent = v.solvent;
        balanced = v.balanced;
        grounded = v.grounded;
        closed = v.closed;
      },
      record { sound = o.sound },
    )))

module _ (owner_id id : ℕ) where
  abbrev guard : PaymentOrder → Bool
  guard o =
      o.owner_id == owner_id && (is_draft o.status || is_awaiting o.status || is_scheduled o.status)

  abbrev change : PaymentOrder → PaymentOrder
  change o = record o { status = cancelled }

  cancelled_found :
      (db : Database) (found : Option PaymentOrder)
      → find_order id db.orders ≡ found
      → BankValid db
      → BankValid (update_found guard change found db).1
  cancelled_found db none e h = h
  cancelled_found db (some o) e h = elim (Bool-cases (guard o)) [
    | inr kept ↦ rw kept h
    | inl hit ↦ rw hit (
      record {
        unique = h.0.unique;
        reconciled = h.0.reconciled;
        solvent = h.0.solvent;
        balanced = h.0.balanced;
        grounded = h.0.grounded;
        closed = h.0.closed;
      },
      replaced-OrdersValid db _ h.1 (change o) o refl refl
          (subst (λ n. find_order n db.orders ≡ some o) (sym (find_order_id id db.orders o e)) e)
          refl refl,
    )
  ]

  cancel_order-Keeps : Keeps BankValid (cancel_payment_order id owner_id)
  unfolding cancel_payment_order update_order
  cancel_order-Keeps =
      Keeps-query BankValid _ (λ db h. cancelled_found db (find_order id db.orders) refl h)

  abbrev record_cancelled : PaymentOrder → Tx PaymentOrder
  record_cancelled order = audit owner_id id (codes "PAYMENT_CANCELLED") [] >> pure order

  cancel-Keeps : Keeps BankValid (cancel_payment owner_id id)
  unfolding cancel_payment
  cancel-Keeps =
      Keeps-bind BankValid (attempt (cancel_payment_order id owner_id))
        (λ updated. lift (cancel_refusal updated) >>= record_cancelled)
        (λ env w h. cancel_order-Keeps env w h)
        (λ updated.
          Keeps-bind BankValid (lift (cancel_refusal updated)) record_cancelled (λ env w h. h)
            (λ order.
              Keeps-bind BankValid (audit owner_id id (codes "PAYMENT_CANCELLED") [])
                (λ _. pure order) (audit-Keeps owner_id id (codes "PAYMENT_CANCELLED") [])
                (λ _ env w h. h)))

  read-Keeps : Keeps BankValid (get_payment owner_id id)
  unfolding get_payment get_payment_order
  read-Keeps =
      Keeps-bind BankValid (attempt (get_payment_order id))
        (λ found. lift (owned_order owner_id found))
        (λ env w h.
          Keeps-query BankValid (λ db. (row_or_none (find_order id db.orders), db)) (λ db v. v) env
            w h)
        (λ found env w h. h)

module _ (D : Decimals) (L : DecimalLaws D) (letters : Letters) (writer : OutboxWriter)
    (k : WriterKeeps writer) where
  perform_payment-BankValid :
      (call : PaymentCall) (env : Env) (w : World)
      → BankValid w.db
      → BankValid (perform_payment D letters writer call env w).db
  unfolding perform_payment
  perform_payment-BankValid (confirm owner id accept) env w h =
      confirm_payment-BankValid D L writer k owner id accept env w h
  perform_payment-BankValid (cancel_call owner id) env w h = cancel-Keeps owner id env w h
  perform_payment-BankValid (read owner id) env w h = read-Keeps owner id env w h
  perform_payment-BankValid (process id) env w h =
      process_claimed_payment-BankValid D L writer k id env w h
  perform_payment-BankValid (run_due batch_size) env w h =
      run_due_payments-BankValid D L writer k batch_size env w h
  perform_payment-BankValid (create input) env w h =
      create_payment-BankValid D letters input env w h

  -- Any history of creations, confirmations, cancellations, look-ups, bookings by the worker and
  -- whole runs of it, each in any
  -- environment, takes a valid ledger with valid orders to one, where the outbox writer leaves
  -- accounts, entries, orders and users alone.
  pub payment_history-BankValid :
      (calls : List (PaymentCall × Env)) (w : World)
      → BankValid w.db
      → BankValid (perform_payments D letters writer calls w).db
  unfolding perform_payments
  payment_history-BankValid [] w h = h
  payment_history-BankValid ((call, env) ∷ rest) w h =
      payment_history-BankValid rest (perform_payment D letters writer call env w)
        (perform_payment-BankValid call env w h)
