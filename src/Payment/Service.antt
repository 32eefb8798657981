-- ===== src/Payment/Service.antt =====
-- backend/internal/payment/payments.go and payment_worker.go: confirming, cancelling and processing
-- orders. The hub that wakes listening browsers after a call is left out.
pub mod Events
pub mod Finish
pub mod Valid
pub mod Confirm
pub mod Committed
pub mod History
pub mod Process
pub mod Lifecycles
pub mod Claims
pub mod RunDue
pub mod Inserted
use banking_go.Prelude.{
  ℕ, Bool, true, false, not, ◌&&◌, ◌||◌, ◌==◌, Option, some, none, List, [], ◌∷◌, ◌+◌, Text, codes,
  ltb, leb, text_eq, if◌then◌else◌,
}
use banking_go.Errors.{Result, ok, err, Error}
use banking_go.Decimal.{Decimals}
use banking_go.Payment.Lifecycle.{
  Status, awaiting_confirmation, scheduled, processing, is_awaiting, is_scheduled, is_processing,
}
use banking_go.Payment.Reasons.{public_failure_reason}
use banking_go.Payment.Outbox.{OutboxWriter, enqueue_booked_events, enqueue_failed_event}
use banking_go.Payment.Standing.Materialize.{materialize_standing_orders}
use banking_go.Payment.Booking.{must_transition, book_payment_tx, mark_failed, audit_with_queries}
use banking_go.Database.Tables.{PaymentOrder, EventValue, text, uuid, time}
use banking_go.Database.Tx.{
  Env, World, Tx, pure, raise, lift, attempt, capture, read_captured, current_time, fail_if,
  exec_tx, wrap_error, ◌>>=◌, ◌>>◌,
}
use banking_go.Database.Queries.Orders.{
  get_payment_order, get_payment_order_for_update, confirm_payment_order, cancel_payment_order,
  claim_due_payment_orders, recover_stale_payments,
}

-- `if err == sql.ErrNoRows || order.OwnerID != ownerID`; with any other error the order is the zero
-- value, whose owner is the nil identifier.
abbrev pub owned_order : ℕ → Result PaymentOrder → Result PaymentOrder
owned_order owner_id (ok order) =
    if order.owner_id == owner_id then ok order else err Error.payment_not_found
owned_order owner_id (err Error.no_rows) = err Error.payment_not_found
owned_order owner_id (err e) = if owner_id == 0 then err e else err Error.payment_not_found

unfoldable pub get_payment : ℕ → ℕ → Tx PaymentOrder
get_payment owner_id payment_id =
    attempt (get_payment_order payment_id) >>= λ found. lift (owned_order owner_id found)

-- `audit`: an event in a transaction of its own.
unfoldable pub audit : ℕ → ℕ → Text → List (Text × EventValue) → Tx (Unit {0})
audit owner_id payment_id event_type data_ =
    exec_tx (audit_with_queries owner_id payment_id event_type data_)

abbrev pub cancel_refusal : Result PaymentOrder → Result PaymentOrder
cancel_refusal (err Error.no_rows) = err Error.invalid_payment_state
cancel_refusal r = r

unfoldable pub cancel_payment : ℕ → ℕ → Tx PaymentOrder
cancel_payment owner_id payment_id = do
  updated ← attempt (cancel_payment_order payment_id owner_id)
  order ← lift (cancel_refusal updated)
  audit owner_id payment_id (codes "PAYMENT_CANCELLED") []
  pure order

abbrev pub booked_event : PaymentOrder → PaymentOrder → Tx (Unit {0})
booked_event order booked =
    audit_with_queries order.owner_id order.id (codes "PAYMENT_BOOKED")
      ((codes "ledger_transaction_id", uuid booked.ledger_transaction_id.uuid) ∷ [])

abbrev pub failed_event : PaymentOrder → Error → Tx (Unit {0})
failed_event order cause =
    audit_with_queries order.owner_id order.id (codes "PAYMENT_FAILED")
      ((codes "reason", text (public_failure_reason cause)) ∷ [])

-- The business error is the caller's once the failure's event is enqueued.
abbrev pub report_failed : PaymentOrder → Error → PaymentOrder → Tx PaymentOrder
report_failed order cause failed = capture (some cause) >> (failed_event order cause >> pure failed)

module _ (writer : OutboxWriter) where
  abbrev pub enqueue_and_report : Bool → PaymentOrder → Error → PaymentOrder → Tx PaymentOrder
  enqueue_and_report by_worker order cause failed =
      enqueue_failed_event writer (if by_worker then order else failed)
      >> report_failed order cause failed

  -- The end of a booking attempt: events for what was booked, or the failure on the order. The worker
  -- enqueues the order that it read, the confirmation the row that it wrote.
  unfoldable pub finish : Bool → PaymentOrder → Result PaymentOrder → Tx PaymentOrder
  finish by_worker order (ok booked) =
      enqueue_booked_events writer booked >> (booked_event order booked >> pure booked)
  finish by_worker order (err cause) =
      mark_failed order cause >>= enqueue_and_report by_worker order cause

abbrev pub target_status : PaymentOrder → ℕ → Status
target_status order now =
    if text_eq order.schedule_type (codes "SCHEDULED") && ltb now order.requested_execution_at
    then scheduled
    else processing

abbrev pub scheduled_event : PaymentOrder → PaymentOrder → Tx (Unit {0})
scheduled_event order result =
    audit_with_queries order.owner_id order.id (codes "PAYMENT_SCHEDULED")
      ((codes "execution_at", time result.requested_execution_at) ∷ [])

abbrev pub schedule_order : PaymentOrder → Bool → Tx PaymentOrder
schedule_order order overridden =
    confirm_payment_order scheduled overridden order.id order.owner_id >>= λ result.
    scheduled_event order result >> pure result

abbrev pub business_result : Option Error → Result (Unit {0})
business_result none = ok tt
business_result (some e) = err e

-- `for _, order := range claimed`; an order that fails does not stop the batch.
abbrev pub count_processed : Result (Unit {0}) → ℕ → ℕ
count_processed (ok _) processed = processed + 1
count_processed (err _) processed = processed

abbrev pub batch_of : ℕ → ℕ
batch_of batch_size = if batch_size == 0 || ltb 100 batch_size then 25 else batch_size

module _ (D : Decimals) (writer : OutboxWriter) where
  abbrev pub book_confirmed : PaymentOrder → Tx PaymentOrder
  book_confirmed confirmed = attempt (book_payment_tx D confirmed) >>= finish writer false confirmed

  abbrev pub book_now : PaymentOrder → Bool → Tx PaymentOrder
  book_now order overridden =
      confirm_payment_order processing overridden order.id order.owner_id >>= book_confirmed

  -- The body of `ConfirmPayment`.
  unfoldable pub confirm_payment_tx : ℕ → ℕ → Bool → Tx PaymentOrder
  confirm_payment_tx owner_id payment_id accept_mismatch = do
    found ← attempt (get_payment_order_for_update payment_id)
    order ← lift (owned_order owner_id found)
    fail_if (not (is_awaiting order.status)) Error.invalid_payment_state
    let requires_override = not (text_eq order.vop_result (codes "MATCH"))
    fail_if (requires_override && not accept_mismatch) Error.vop_override_required
    now ← current_time
    lift (must_transition order.status (target_status order now))
    (if is_scheduled (target_status order now)
        then schedule_order order requires_override
        else book_now order requires_override)

  -- `return result, businessErr`
  unfoldable pub confirm_payment : ℕ → ℕ → Bool → Tx (PaymentOrder × Option Error)
  confirm_payment owner_id payment_id accept_mismatch = do
    capture none
    result ← exec_tx (confirm_payment_tx owner_id payment_id accept_mismatch)
    business_err ← read_captured
    pure (result, business_err)

  -- The body of `processClaimedPayment`.
  unfoldable pub process_claimed_tx : ℕ → Tx PaymentOrder
  process_claimed_tx payment_id = do
    order ← get_payment_order_for_update payment_id
    fail_if (not (is_processing order.status) || order.ledger_transaction_id.valid)
        Error.invalid_payment_state
    tried ← attempt (book_payment_tx D order)
    finish writer true order tried

  unfoldable pub process_claimed_payment : ℕ → Tx (Unit {0})
  process_claimed_payment payment_id = do
    capture none
    _ ← exec_tx (process_claimed_tx payment_id)
    business_err ← read_captured
    lift (business_result business_err)

  unfoldable pub process_batch : List PaymentOrder → ℕ → Tx ℕ
  process_batch [] processed = pure processed
  process_batch (order ∷ claimed) processed = do
    outcome ← attempt (process_claimed_payment order.id)
    process_batch claimed (count_processed outcome processed)

  -- `RunDuePayments`. A batch size below 0 is taken as 25 like one of 0.
  unfoldable pub run_due_payments : ℕ → Tx ℕ
  run_due_payments batch_size = do
    _ ← wrap_error "recover stale payments" (recover_stale_payments 300)
    materialize_standing_orders (batch_of batch_size)
    claimed ← exec_tx (claim_due_payment_orders (batch_of batch_size))
    process_batch claimed 0
