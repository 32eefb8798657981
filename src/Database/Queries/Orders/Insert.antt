-- ===== src/Database/Queries/Orders/Insert.antt =====
-- CreatePaymentOrder of backend/postgres/sqlc/payments.sql.go, with the constraints that
-- backend/postgres/migrations/000005_add_sepa_payments.up.sql puts on `payment_orders`.
use banking_go.Prelude.{
  ℕ, Bool, true, false, not, ◌&&◌, ◌||◌, none, List, [], ◌∷◌, leb, Text, codes, text_eq,
  if◌then◌else◌, length, ℤ, pos, ltb_ℤ,
}
use banking_go.Errors.{Result, ok, err, Error}
use banking_go.Payment.Lifecycle.{Status, undeclared}
use banking_go.Database.Tables.{
  PaymentOrder, NullUuid, NullString, null_string, null_uuid, Database,
}
use banking_go.Database.Tx.{Tx, query, new_uuid, ◌>>=◌}
use banking_go.Database.Queries.Accounts.{find_account}
use banking_go.Database.Queries.Users.{find_user}
use banking_go.Database.Queries.Standing.{find_standing, present, absent_or}
use banking_go.Database.Queries.Orders.{find_order, find_idempotency}

pub record CreatePaymentOrderParams : Type 0 where
  pub owner_id : ℕ
  pub source_account_id : ℕ
  pub beneficiary_account_id : NullUuid
  pub standing_order_id : NullUuid
  pub beneficiary_name : Text
  pub beneficiary_iban : Text
  pub beneficiary_bic : NullString
  pub amount : ℤ
  pub payment_kind : Text
  pub schedule_type : Text
  pub purpose : NullString
  pub creditor_reference : NullString
  pub end_to_end_id : Text
  pub idempotency_key : Text
  pub requested_execution_at : ℕ
  pub vop_result : Text
  pub vop_suggested_name : NullString
  pub status : Status

-- The columns that the statement leaves out have their defaults.
abbrev pub new_order : ℕ → CreatePaymentOrderParams → PaymentOrder
new_order id arg = record {
  id = id;
  owner_id = arg.owner_id;
  source_account_id = arg.source_account_id;
  beneficiary_account_id = arg.beneficiary_account_id;
  standing_order_id = arg.standing_order_id;
  beneficiary_name = arg.beneficiary_name;
  beneficiary_iban = arg.beneficiary_iban;
  beneficiary_bic = arg.beneficiary_bic;
  amount = arg.amount;
  payment_kind = arg.payment_kind;
  schedule_type = arg.schedule_type;
  purpose = arg.purpose;
  creditor_reference = arg.creditor_reference;
  end_to_end_id = arg.end_to_end_id;
  idempotency_key = arg.idempotency_key;
  requested_execution_at = arg.requested_execution_at;
  vop_result = arg.vop_result;
  vop_suggested_name = arg.vop_suggested_name;
  vop_overridden = false;
  status = arg.status;
  reject_code = null_string;
  failure_reason = null_string;
  ledger_transaction_id = null_uuid;
  attempt_count = 0;
  processing_started_at = none;
}

abbrev pub is_declared : Status → Bool
is_declared (undeclared _) = false
is_declared _ = true

-- The CHECK constraints of the new row; a NULL passes. The length of a text counts its characters.
unfoldable pub order_checks : PaymentOrder → Bool
order_checks o =
    ltb_ℤ (pos 0) o.amount
    && (text_eq o.payment_kind (codes "UMBUCHUNG")
        || text_eq o.payment_kind (codes "INTERNAL")
        || text_eq o.payment_kind (codes "SEPA")
        || text_eq o.payment_kind (codes "SEPA_INSTANT"))
    && (text_eq o.schedule_type (codes "IMMEDIATE")
        || text_eq o.schedule_type (codes "SCHEDULED")
        || text_eq o.schedule_type (codes "STANDING"))
    && leb (length o.purpose.string) 140
    && (text_eq o.vop_result (codes "MATCH")
        || text_eq o.vop_result (codes "CLOSE_MATCH")
        || text_eq o.vop_result (codes "NO_MATCH")
        || text_eq o.vop_result (codes "OTHER"))
    && is_declared o.status

-- UNIQUE (end_to_end_id)
unfoldable pub end_to_end_taken : Text → List PaymentOrder → Bool
end_to_end_taken value [] = false
end_to_end_taken value (o ∷ orders) = text_eq o.end_to_end_id value || end_to_end_taken value orders

-- The PRIMARY KEY and the two UNIQUE constraints.
unfoldable pub order_taken : PaymentOrder → List PaymentOrder → Bool
order_taken row orders =
    present (find_order row.id orders)
    || present (find_idempotency row.owner_id row.idempotency_key orders)
    || end_to_end_taken row.end_to_end_id orders

-- The FOREIGN KEYs.
unfoldable pub order_grounded : PaymentOrder → Database → Bool
order_grounded row db =
    present (find_user row.owner_id db.users)
    && present (find_account row.source_account_id db.accounts)
    && absent_or row.beneficiary_account_id
        (present (find_account row.beneficiary_account_id.uuid db.accounts))
    && absent_or row.standing_order_id
        (present (find_standing row.standing_order_id.uuid db.standing_orders))

-- CHECK constraints come first, then the unique indices, then the foreign keys.
unfoldable pub insert_order : PaymentOrder → Database → Result PaymentOrder × Database
insert_order row db =
    if not (order_checks row)
    then (err (Error.pq 23514), db)
    else if order_taken row db.orders
    then (err (Error.pq 23505), db)
    else if order_grounded row db
    then (ok row, record db { orders = row ∷ db.orders })
    else (err (Error.pq 23503), db)

-- The server draws the key (DEFAULT gen_random_uuid()).
unfoldable pub create_payment_order : CreatePaymentOrderParams → Tx PaymentOrder
create_payment_order arg = do id ← new_uuid; query (insert_order (new_order id arg))
