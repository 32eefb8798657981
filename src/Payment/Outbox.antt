-- ===== src/Payment/Outbox.antt =====
-- backend/internal/payment/outbox.go: the events that a booking enqueues in its own transaction. The
-- envelope and the table behind `OutboxWriter` are a port.
use banking_go.Prelude.{ℕ, not, ◌||◌, ◌==◌, [], Text, codes, if◌then◌else◌}
use banking_go.Errors.{Error}
use banking_go.Account.Iban.{mask_iban}
use banking_go.Database.Tables.{Account, PaymentOrder, OutboxEvent}
use banking_go.Database.Tx.{Tx, pure, wrap_error, new_uuid, fail_if, ◌>>=◌, ◌>>◌}
use banking_go.Database.Queries.Accounts.{get_account}
use banking_go.Database.Queries.Users.{get_user_by_id}

-- `OutboxWriter`, with the envelope's own validation.
pub record OutboxWriter : Type 0 where
  pub enqueue : OutboxEvent → Tx (Unit {0})

module _ (writer : OutboxWriter) where
  unfoldable pub enqueue_activity_event :
      PaymentOrder → ℕ → ℕ → Text → Text → Text → Text → Tx (Unit {0})
  enqueue_activity_event order owner_id account_id event_type kind direction counterparty = do
    user ← wrap_error "load notification recipient" (get_user_by_id owner_id)
    account ← wrap_error "load notification account" (get_account account_id)
    fail_if
        (account.is_system || not account.owner_id.valid || not (account.owner_id.uuid == owner_id))
        (Error.plain "payment notification account ownership check failed")
    event_id ← new_uuid
    wrap_error "enqueue payment notification event" (
        writer.enqueue (record {
          event_id = event_id;
          event_type = event_type;
          aggregate_id = order.id;
          correlation_id = (codes "payment-", order.id);
          recipient_email = user.email;
          recipient_name = user.full_name;
          account_name = account.name;
          masked_iban = mask_iban account.iban;
          balance = account.balance;
          kind = kind;
          direction = direction;
          amount = order.amount;
          counterparty = counterparty;
          reference = order.purpose.string;
        }))

  abbrev pub received : PaymentOrder → Account → Tx (Unit {0})
  received order destination =
      if destination.is_system || not destination.owner_id.valid
      then pure tt
      else enqueue_activity_event order destination.owner_id.uuid destination.id
          (codes "payment.booked.v1") (codes "SEPA_PAYMENT_RECEIVED") (codes "CREDIT") []

  unfoldable pub enqueue_booked_events : PaymentOrder → Tx (Unit {0})
  enqueue_booked_events order = do
    enqueue_activity_event order order.owner_id order.source_account_id (codes "payment.booked.v1")
        (codes "SEPA_PAYMENT_SENT") (codes "DEBIT") order.beneficiary_name
    (if not order.beneficiary_account_id.valid
        then pure tt
        else (get_account order.beneficiary_account_id.uuid >>= received order))

  unfoldable pub enqueue_failed_event : PaymentOrder → Tx (Unit {0})
  enqueue_failed_event order =
      enqueue_activity_event order order.owner_id order.source_account_id
        (codes "payment.failed.v1") (codes "SEPA_PAYMENT_FAILED") (codes "DEBIT")
        order.beneficiary_name
