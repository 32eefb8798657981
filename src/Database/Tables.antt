-- ===== src/Database/Tables.antt =====
-- The rows of backend/postgres/sqlc/models.go. A NUMERIC(19,4) column is an integer number of
-- ten-thousandths, a timestamp a number of microseconds. Columns that only order listings
-- (`created_at`, `updated_at`) are left out.
use banking_go.Prelude.{ℕ, Bool, false, Option, List, [], Text, ℤ, pos}
use banking_go.Calendar.{Time}
use banking_go.Payment.Lifecycle.{Status}

-- `uuid.NullUUID`; a NULL is read as the nil identifier with `valid` false.
pub record NullUuid : Type 0 where
  pub uuid : ℕ
  pub valid : Bool

-- `sql.NullString`
pub record NullString : Type 0 where
  pub string : Text
  pub valid : Bool

abbrev pub null_uuid : NullUuid
null_uuid = record { uuid = 0; valid = false }

abbrev pub null_string : NullString
null_string = record { string = []; valid = false }

pub record Account : Type 0 where
  pub id : ℕ
  pub owner_id : NullUuid
  pub name : Text
  pub balance : ℤ
  pub currency : Text
  pub is_system : Bool
  pub iban : Text
  pub account_type : Text
  pub status : Text
  pub available_balance : ℤ

-- The zero value, which a Go map gives for a missing key.
abbrev pub zero_account : Account
zero_account = record {
  id = 0;
  owner_id = null_uuid;
  name = [];
  balance = pos 0;
  currency = [];
  is_system = false;
  iban = [];
  account_type = [];
  status = [];
  available_balance = pos 0;
}

pub record Entry : Type 0 where
  pub account_id : ℕ
  pub debit : ℤ
  pub credit : ℤ
  pub transaction_id : ℕ
  pub operation_type : Text
  pub description : NullString
  pub payment_order_id : NullUuid
  pub counterparty_name : NullString
  pub counterparty_iban : NullString
  pub purpose : NullString
  pub category : NullString

pub record PaymentOrder : Type 0 where
  pub id : ℕ
  pub owner_id : ℕ
  pub source_account_id : ℕ
  pub beneficiary_account_id : NullUuid
  pub standing_order_id : NullUuid
  pub beneficiary_name : Text
  pub beneficiary_iban : Text
  pub beneficiary_bic : NullString
  pub amount : ℤ
  pub payment_kind : Text
  pub schedule_type : Text
  pub purpose : NullString
  pub creditor_reference : NullString
  pub end_to_end_id : Text
  pub idempotency_key : Text
  pub requested_execution_at : ℕ
  pub vop_result : Text
  pub vop_suggested_name : NullString
  pub vop_overridden : Bool
  pub status : Status
  pub reject_code : NullString
  pub failure_reason : NullString
  pub ledger_transaction_id : NullUuid
  pub attempt_count : ℕ
  pub processing_started_at : Option ℕ

-- A DATE is the midnight that the driver reads it as.
pub record StandingOrder : Type 0 where
  pub id : ℕ
  pub owner_id : ℕ
  pub source_account_id : ℕ
  pub beneficiary_account_id : NullUuid
  pub beneficiary_name : Text
  pub beneficiary_iban : Text
  pub beneficiary_bic : NullString
  pub amount : ℤ
  pub purpose : NullString
  pub creditor_reference : NullString
  pub transfer_type : Text
  pub frequency : Text
  pub start_date : Time
  pub end_date : Option Time
  pub max_occurrences : Option ℕ
  pub occurrences_created : ℕ
  pub next_execution_at : Time
  pub status : Text

pub record Beneficiary : Type 0 where
  pub id : ℕ
  pub owner_id : ℕ
  pub name : Text
  pub iban : Text
  pub bic : NullString
  pub category : NullString
  pub is_demo : Bool

pub record User : Type 0 where
  pub id : ℕ
  pub email : Text
  pub hashed_password : Text
  pub full_name : Text

-- A value of `map[string]any`, as `json.Marshal` is given it.
pub data EventValue : Type 0 where
  text : Text → EventValue
  uuid : ℕ → EventValue
  time : ℕ → EventValue
  state : Status → EventValue

pub record AuditEvent : Type 0 where
  pub owner_id : NullUuid
  pub payment_order_id : NullUuid
  pub event_type : Text
  pub event_data : List (Text × EventValue)

-- A row of `admin_audit_events`, as `RecordAdminAuditTx` writes it.
pub record AdminAuditEvent : Type 0 where
  pub actor_id : ℕ
  pub target_account_id : ℕ
  pub action : Text
  pub previous : ℤ
  pub next : ℤ
  pub request_id : NullString

-- A row of `outbox_events` with its payload decoded.
pub record OutboxEvent : Type 0 where
  pub event_id : ℕ
  pub event_type : Text
  pub aggregate_id : ℕ
  pub correlation_id : Text × ℕ
  pub recipient_email : Text
  pub recipient_name : Text
  pub account_name : Text
  pub masked_iban : Text
  pub balance : ℤ
  pub kind : Text
  pub direction : Text
  pub amount : ℤ
  pub counterparty : Text
  pub reference : Text

pub record Database : Type 0 where
  pub users : List User
  pub accounts : List Account
  pub entries : List Entry
  pub orders : List PaymentOrder
  pub standing_orders : List StandingOrder
  pub beneficiaries : List Beneficiary
  pub audit_events : List AuditEvent
  pub admin_audit : List AdminAuditEvent
  pub outbox : List OutboxEvent
