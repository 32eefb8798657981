-- ===== src/Payment/Standing/Materialize.antt =====
-- materializeStandingOrders of backend/internal/payment/payment_worker.go: the due standing orders
-- become scheduled payment orders.
use banking_go.Prelude.{
  ℕ, true, false, ◌==◌, List, [], ◌∷◌, ◌++◌, Text, codes, text_eq, if◌then◌else◌, take,
}
use banking_go.Calendar.{Time, micros, format_rfc3339}
use banking_go.Payment.Lifecycle.{scheduled}
use banking_go.Payment.Standing.{next_standing_execution, should_complete_standing}
use banking_go.Database.Tables.{StandingOrder}
use banking_go.Database.Tx.{Tx, pure, exec_tx, new_uuid, uuid_string, ◌>>=◌}
use banking_go.Database.Queries.Standing.{claim_due_standing_orders, advance_standing_order}
use banking_go.Database.Queries.Orders.Insert.{CreatePaymentOrderParams, create_payment_order}

-- `stringsNoHyphen`
unfoldable pub strings_no_hyphen : Text → Text
strings_no_hyphen [] = []
strings_no_hyphen (c ∷ value) =
    let rest = strings_no_hyphen value in if c == b'-' then rest else c ∷ rest

abbrev pub standing_kind : StandingOrder → Text
standing_kind standing =
    if standing.beneficiary_account_id.valid
    then codes "INTERNAL"
    else if text_eq standing.transfer_type (codes "INSTANT")
    then codes "SEPA_INSTANT"
    else codes "SEPA"

abbrev pub standing_vop : StandingOrder → Text
standing_vop standing =
    if standing.beneficiary_account_id.valid then codes "MATCH" else codes "OTHER"

-- `fmt.Sprintf("standing:%s:%s", …)`, from the text of the identifier.
abbrev pub occurrence_key : Text → StandingOrder → Text
occurrence_key id_text standing =
    codes "standing:" ++ (id_text ++ (codes ":" ++ format_rfc3339 standing.next_execution_at))

-- The order of one occurrence. `nonce` is the text of a new UUID, of 32 digits without its hyphens.
abbrev pub occurrence_params : Text → Text → StandingOrder → CreatePaymentOrderParams
occurrence_params id_text nonce standing = record {
  owner_id = standing.owner_id;
  source_account_id = standing.source_account_id;
  beneficiary_account_id = standing.beneficiary_account_id;
  standing_order_id = record { uuid = standing.id; valid = true };
  beneficiary_name = standing.beneficiary_name;
  beneficiary_iban = standing.beneficiary_iban;
  beneficiary_bic = standing.beneficiary_bic;
  amount = standing.amount;
  payment_kind = standing_kind standing;
  schedule_type = codes "STANDING";
  purpose = standing.purpose;
  creditor_reference = standing.creditor_reference;
  end_to_end_id = codes "DEMO-" ++ take 27 (strings_no_hyphen nonce);
  idempotency_key = occurrence_key id_text standing;
  requested_execution_at = micros standing.next_execution_at;
  vop_result = standing_vop standing;
  vop_suggested_name = record { string = []; valid = false };
  status = scheduled;
}

abbrev pub next_of : StandingOrder → Time
next_of standing = next_standing_execution standing.next_execution_at standing.frequency

abbrev pub status_after : StandingOrder → Text
status_after standing =
    if should_complete_standing standing (next_of standing)
    then codes "COMPLETED"
    else codes "ACTIVE"

-- One round of the loop.
unfoldable pub materialize_one : StandingOrder → Tx StandingOrder
materialize_one standing = do
  id_text ← uuid_string standing.id
  nonce_id ← new_uuid
  nonce ← uuid_string nonce_id
  _ ← create_payment_order (occurrence_params id_text nonce standing)
  advance_standing_order (next_of standing) (status_after standing) standing.id

unfoldable pub materialize_all : List StandingOrder → Tx (Unit {0})
materialize_all [] = pure tt
materialize_all (standing ∷ orders) = do _ ← materialize_one standing; materialize_all orders

unfoldable pub materialize_tx : ℕ → Tx (Unit {0})
materialize_tx batch_size = do orders ← claim_due_standing_orders batch_size; materialize_all orders

unfoldable pub materialize_standing_orders : ℕ → Tx (Unit {0})
materialize_standing_orders batch_size = exec_tx (materialize_tx batch_size)
