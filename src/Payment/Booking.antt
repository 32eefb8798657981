-- ===== src/Payment/Booking.antt =====
-- backend/internal/payment/payments.go: the booking of an order inside a transaction.
mod Steps
mod Posted
pub mod Booked
pub mod Refused
use banking_go.Prelude.{
  ℕ, Bool, true, false, not, ◌||◌, ◌==◌, some, none, Option, List, ◌∷◌, [], ◌++◌, Text, codes,
  text_eq, if◌then◌else◌,
}
use banking_go.Errors.{Result, ok, err, Error}
use banking_go.Decimal.{Decimals}
use banking_go.Account.Iban.{mask_iban}
use banking_go.Ledger.Posting.{Posting, TransferPolicy, plan_customer_transfer}
use banking_go.Payment.Lifecycle.{Status, booked, failed, validate_transition}
use banking_go.Payment.Reasons.{
  null_string_of, reject_code, public_failure_reason, categorize_purpose,
}
use banking_go.Database.Tables.{Account, PaymentOrder, NullUuid, EventValue, AuditEvent}
use banking_go.Database.Tx.{
  Env, World, Tx, pure, raise, lift, query, new_uuid, fail_if, ◌>>=◌, ◌>>◌,
}
use banking_go.Database.Queries.Accounts.{
  get_settlement_account, list_accounts_for_update, update_account_balance,
}
use banking_go.Database.Queries.Entries.{create_payment_entry}
use banking_go.Database.Queries.Users.{get_user_by_id, create_audit_event}
use banking_go.Database.Queries.Orders.{mark_payment_booked, mark_payment_failed}
use banking_go.Database.LedgerRepository.{
  account_by_id, both_accounts, or_error, source_snapshot, destination_snapshot,
}

abbrev pub is_ownership_error : Error → Bool
is_ownership_error Error.account_ownership = true
is_ownership_error Error.system_account = true
is_ownership_error _ = false

-- A refused plan, as the payment's own errors.
abbrev pub payment_refusal {ℓ} : {A : Type ℓ} → Result A → Result A
payment_refusal (ok a) = ok a
payment_refusal (err e) = if is_ownership_error e then err Error.payment_unauthorized else err e

-- `ValidateTransition`, with its error replaced by the service's.
abbrev pub must_transition : Status → Status → Result (Unit {0})
must_transition from to = elim (validate_transition from to) [
  | ok _ ↦ ok tt
  | err _ ↦ err Error.invalid_payment_state
]

abbrev pub system_destination : TransferPolicy
system_destination = record {
  require_destination_ownership = false;
  allow_system_destination = true;
}

-- `for category, words := range map…` visits the map in an order of the runtime's.
unfoldable pub categorize : Text → Tx Text
categorize purpose env w = (ok (categorize_purpose (env.visit w.tick) purpose), w)

module _ (D : Decimals) where
  -- `amount.LessThanOrEqual(decimal.Zero)` is tested on a number that was read.
  abbrev pub payable : Option D.Decimal → Result D.Decimal
  payable none = err Error.invalid_amount
  payable (some amount) =
      if D.less_than_or_equal amount D.zero_decimal then err Error.invalid_amount else ok amount

  abbrev pub destination_of : NullUuid → Tx ℕ
  destination_of beneficiary =
      if beneficiary.valid
      then pure beneficiary.uuid
      else get_settlement_account >>= λ settlement. pure settlement.id

  -- The two entries, the two balance updates and the order's last state.
  unfoldable pub post_payment : PaymentOrder → Account → Posting D → Tx PaymentOrder
  post_payment order source posting = do
    tx_id ← new_uuid
    category ← categorize order.purpose.string
    _ ← create_payment_entry (record {
      account_id = posting.debit_leg.account_id;
      debit = D.numeric posting.debit_leg.debit;
      credit = D.numeric posting.debit_leg.credit;
      transaction_id = tx_id;
      description = null_string_of (codes "SEPA-Demoüberweisung " ++ order.end_to_end_id);
      payment_order_id = record { uuid = order.id; valid = true };
      counterparty_name = null_string_of order.beneficiary_name;
      counterparty_iban = null_string_of (mask_iban order.beneficiary_iban);
      purpose = order.purpose;
      category = null_string_of category;
    })
    sender ← get_user_by_id order.owner_id
    _ ← create_payment_entry (record {
      account_id = posting.credit_leg.account_id;
      debit = D.numeric posting.credit_leg.debit;
      credit = D.numeric posting.credit_leg.credit;
      transaction_id = tx_id;
      description = null_string_of (codes "SEPA-Demoeingang " ++ order.end_to_end_id);
      payment_order_id = record { uuid = order.id; valid = true };
      counterparty_name = null_string_of sender.full_name;
      counterparty_iban = null_string_of (mask_iban source.iban);
      purpose = order.purpose;
      category = null_string_of category;
    })
    update_account_balance posting.debit_leg.account_id (D.numeric (D.neg posting.debit_leg.debit))
    update_account_balance posting.credit_leg.account_id (D.numeric posting.credit_leg.credit)
    mark_payment_booked (record { uuid = tx_id; valid = true }) order.id

  -- The plan on the two locked rows, and its posting.
  unfoldable pub plan_and_post : PaymentOrder → D.Decimal → ℕ → Account → Account → Tx PaymentOrder
  plan_and_post order amount destination_id a b = do
    let source = account_by_id a b order.source_account_id
    let destination = account_by_id a b destination_id
    available ←
        lift (or_error (D.from_numeric source.available_balance) "invalid available balance")
    posting ← lift (
        payment_refusal (
          plan_customer_transfer D order.owner_id (source_snapshot D source available)
            (destination_snapshot D destination) amount system_destination))
    post_payment order source posting

  unfoldable pub book_payment_tx : PaymentOrder → Tx PaymentOrder
  book_payment_tx order = do
    lift (must_transition order.status booked)
    amount ← lift (payable (D.from_numeric order.amount))
    destination_id ← destination_of order.beneficiary_account_id
    fail_if (destination_id == order.source_account_id) Error.same_account_transfer
    accounts ← list_accounts_for_update order.source_account_id destination_id
    (a, b) ← lift (both_accounts accounts)
    plan_and_post order amount destination_id a b

unfoldable pub mark_failed : PaymentOrder → Error → Tx PaymentOrder
mark_failed order cause = do
  lift (must_transition order.status failed)
  mark_payment_failed (null_string_of (public_failure_reason cause))
      (null_string_of (reject_code cause)) order.id

-- `auditWithQueries`; `json.Marshal` of the values that the service passes does not fail.
unfoldable pub audit_with_queries : ℕ → ℕ → Text → List (Text × EventValue) → Tx (Unit {0})
audit_with_queries owner_id payment_id event_type data_ = create_audit_event (record {
  owner_id = record { uuid = owner_id; valid = true };
  payment_order_id = record { uuid = payment_id; valid = not (payment_id == 0) };
  event_type = event_type;
  event_data = data_;
})
