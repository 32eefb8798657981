-- ===== src/Database/Queries/Orders.antt =====
-- backend/postgres/sqlc/payments.sql.go on the table `payment_orders` of
-- backend/postgres/migrations/000005_add_sepa_payments.up.sql.
pub mod Insert
use banking_go.Prelude.{
  ℕ, ◌+◌, ◌*◌, Bool, false, not, ◌&&◌, ◌||◌, Option, none, some, List, [], ◌∷◌, ltb, leb, ◌==◌,
  Text, text_eq, if◌then◌else◌, take,
}
use banking_go.Errors.{Result, ok, err, Error}
use banking_go.Payment.Lifecycle.{
  Status, scheduled, processing, booked, failed, cancelled, is_draft, is_awaiting, is_scheduled,
  is_processing,
}
use banking_go.Database.Tables.{PaymentOrder, NullUuid, NullString, null_string, Database}
use banking_go.Database.Tx.{Tx, query, current_time, ◌>>=◌}
use banking_go.Database.Queries.Accounts.{row_or_none}

unfoldable pub find_order : ℕ → List PaymentOrder → Option PaymentOrder
find_order id [] = none
find_order id (o ∷ orders) = if id == o.id then some o else find_order id orders

unfoldable pub get_payment_order : ℕ → Tx PaymentOrder
get_payment_order id = query (λ db. (row_or_none (find_order id db.orders), db))

unfoldable pub get_payment_order_for_update : ℕ → Tx PaymentOrder
get_payment_order_for_update id = query (λ db. (row_or_none (find_order id db.orders), db))

-- WHERE owner_id = $1 AND idempotency_key = $2
unfoldable pub find_idempotency : ℕ → Text → List PaymentOrder → Option PaymentOrder
find_idempotency owner_id key [] = none
find_idempotency owner_id key (o ∷ orders) =
    if o.owner_id == owner_id && text_eq o.idempotency_key key
    then some o
    else find_idempotency owner_id key orders

unfoldable pub get_payment_order_by_idempotency : ℕ → Text → Tx PaymentOrder
get_payment_order_by_idempotency owner_id key =
    query (λ db. (row_or_none (find_idempotency owner_id key db.orders), db))

-- The row with this key is written.
unfoldable pub replace_order : PaymentOrder → List PaymentOrder → List PaymentOrder
replace_order row [] = []
replace_order row (o ∷ orders) = (if row.id == o.id then row else o) ∷ replace_order row orders

-- UPDATE … WHERE id = $n AND <guard> RETURNING …
abbrev pub update_found :
    (PaymentOrder → Bool)
    → (PaymentOrder → PaymentOrder)
    → Option PaymentOrder
    → Database
    → Result PaymentOrder × Database
update_found guard change none db = (err Error.no_rows, db)
update_found guard change (some o) db =
    if guard o
    then (ok (change o), record db { orders = replace_order (change o) db.orders })
    else (err Error.no_rows, db)

unfoldable pub update_order :
    (PaymentOrder → Bool)
    → (PaymentOrder → PaymentOrder)
    → ℕ
    → Database
    → Result PaymentOrder × Database
update_order guard change id db = update_found guard change (find_order id db.orders) db

unfoldable pub confirm_payment_order : Status → Bool → ℕ → ℕ → Tx PaymentOrder
confirm_payment_order status vop_overridden id owner_id = query (
    update_order (λ o. o.owner_id == owner_id && is_awaiting o.status)
      (λ o. record o { status = status; vop_overridden = vop_overridden }) id)

unfoldable pub cancel_payment_order : ℕ → ℕ → Tx PaymentOrder
cancel_payment_order id owner_id = query (
    update_order
      (λ o.
        o.owner_id == owner_id
        && (is_draft o.status || is_awaiting o.status || is_scheduled o.status))
      (λ o. record o { status = cancelled }) id)

unfoldable pub mark_payment_booked : NullUuid → ℕ → Tx PaymentOrder
mark_payment_booked ledger_transaction_id id = query (
    update_order (λ o. is_processing o.status && not o.ledger_transaction_id.valid)
      (λ o. record o {
        status = booked;
        ledger_transaction_id = ledger_transaction_id;
        failure_reason = null_string;
        reject_code = null_string;
      })
      id)

unfoldable pub mark_payment_failed : NullString → NullString → ℕ → Tx PaymentOrder
mark_payment_failed failure_reason reject_code id = query (
    update_order (λ o. is_processing o.status)
      (λ o. record o {
        status = failed;
        failure_reason = failure_reason;
        reject_code = reject_code;
      })
      id)

-- SELECT id … WHERE status = 'SCHEDULED' AND requested_execution_at <= CURRENT_TIMESTAMP
abbrev pub is_due : ℕ → PaymentOrder → Bool
is_due now o = is_scheduled o.status && leb o.requested_execution_at now

-- ORDER BY requested_execution_at, id
abbrev pub runs_before : PaymentOrder → PaymentOrder → Bool
runs_before a b =
    ltb a.requested_execution_at b.requested_execution_at
    || (a.requested_execution_at == b.requested_execution_at && ltb a.id b.id)

unfoldable pub insert_due : PaymentOrder → List PaymentOrder → List PaymentOrder
insert_due o [] = o ∷ []
insert_due o (p ∷ rest) =
    let later = p ∷ insert_due o rest in if runs_before p o then later else o ∷ p ∷ rest

unfoldable pub select_due : ℕ → List PaymentOrder → List PaymentOrder
select_due now [] = []
select_due now (o ∷ orders) =
    let rest = select_due now orders in if is_due now o then insert_due o rest else rest

-- SET status = 'PROCESSING', processing_started_at = …, attempt_count = attempt_count + 1
abbrev pub claimed : ℕ → PaymentOrder → PaymentOrder
claimed now o = record o {
  status = processing;
  processing_started_at = some now;
  attempt_count = o.attempt_count + 1;
}

unfoldable pub claim_all : ℕ → List PaymentOrder → List PaymentOrder → List PaymentOrder
claim_all now [] orders = orders
claim_all now (o ∷ due) orders = claim_all now due (replace_order (claimed now o) orders)

unfoldable pub claim_rows : ℕ → List PaymentOrder → List PaymentOrder
claim_rows now [] = []
claim_rows now (o ∷ due) = claimed now o ∷ claim_rows now due

-- In one session no row is locked by another, so SKIP LOCKED skips none.
unfoldable pub claim_due_payment_orders : ℕ → Tx (List PaymentOrder)
claim_due_payment_orders batch_size = do
  now ← current_time
  query (λ db.
      let due = take batch_size (select_due now db.orders) in
      (ok (claim_rows now due), record db { orders = claim_all now due db.orders }))

-- WHERE status = 'PROCESSING' AND ledger_transaction_id IS NULL AND
-- processing_started_at < CURRENT_TIMESTAMP - …; a NULL start compares as unknown.
abbrev pub started_before : ℕ → ℕ → Option ℕ → Bool
started_before now stale none = false
started_before now stale (some start) = ltb (start + stale) now

abbrev pub is_stale : ℕ → ℕ → PaymentOrder → Bool
is_stale now stale_seconds o =
    is_processing o.status
    && not o.ledger_transaction_id.valid
    && started_before now (stale_seconds * 1_000_000) o.processing_started_at

unfoldable pub recover_rows : ℕ → ℕ → List PaymentOrder → List PaymentOrder
recover_rows now stale_seconds [] = []
recover_rows now stale_seconds (o ∷ orders) =
    (if is_stale now stale_seconds o
      then record o { status = scheduled; processing_started_at = none }
      else o)
    ∷ recover_rows now stale_seconds orders

unfoldable pub count_stale : ℕ → ℕ → List PaymentOrder → ℕ
count_stale now stale_seconds [] = 0
count_stale now stale_seconds (o ∷ orders) =
    (if is_stale now stale_seconds o then 1 else 0) + count_stale now stale_seconds orders

unfoldable pub recover_stale_payments : ℕ → Tx ℕ
recover_stale_payments stale_seconds = do
  now ← current_time
  query (λ db. (
    ok (count_stale now stale_seconds db.orders),
    record db { orders = recover_rows now stale_seconds db.orders },
  ))
