-- ===== src/Payment/Service/Events.antt =====
-- The events of a booking attempt touch neither accounts, entries nor orders.
use banking_go.Prelude.{ℕ, ◌≡◌, refl, not, ◌||◌, ◌==◌, Text, List}
use banking_go.Errors.{Error}
use banking_go.Payment.Outbox.{
  OutboxWriter, enqueue_activity_event, enqueue_booked_events, enqueue_failed_event,
}
use banking_go.Payment.Booking.{audit_with_queries}
use banking_go.Database.Tables.{Database, OutboxEvent, PaymentOrder, EventValue}
use banking_go.Database.Tx.{new_uuid}
use banking_go.Database.Tx.Keeps.{
  OkKeeps, OkKeeps-query, OkKeeps-pure, OkKeeps-if, OkKeeps-bind, OkKeeps-wrap, OkKeeps-fail_if,
  OkKeeps-still,
}
use banking_go.Database.Queries.Accounts.{get_account}
use banking_go.Database.Queries.Users.{get_user_by_id, create_audit_event}

-- The same accounts, entries, orders and users.
pub record SameLedger (before after : Database) : Type 0 where
  pub accounts : after.accounts ≡ before.accounts
  pub entries : after.entries ≡ before.entries
  pub orders : after.orders ≡ before.orders
  pub users : after.users ≡ before.users

pub same_ledger : (db : Database) → SameLedger db db
same_ledger db = record { accounts = refl; entries = refl; orders = refl; users = refl }

-- The port's writer touches nothing but its own table.
pub record WriterKeeps (writer : OutboxWriter) : Type 0 where
  pub enqueue :
      (before : Database) (event : OutboxEvent) → OkKeeps (SameLedger before) (writer.enqueue event)

module _ (before : Database) where
  pub audit-OkKeeps :
      (owner_id payment_id : ℕ) (event_type : Text) (data_ : List (Text × EventValue))
      → OkKeeps (SameLedger before) (audit_with_queries owner_id payment_id event_type data_)
  unfolding audit_with_queries create_audit_event
  audit-OkKeeps owner_id payment_id event_type data_ = OkKeeps-query _ (λ db s. record {
    accounts = s.accounts;
    entries = s.entries;
    orders = s.orders;
    users = s.users;
  })

  new_uuid-OkKeeps : OkKeeps (SameLedger before) new_uuid
  unfolding new_uuid
  new_uuid-OkKeeps = OkKeeps-still new_uuid (λ env w. refl)

  get_account-OkKeeps : (id : ℕ) → OkKeeps (SameLedger before) (get_account id)
  unfolding get_account
  get_account-OkKeeps id = OkKeeps-query _ (λ db s. s)

  get_user-OkKeeps : (id : ℕ) → OkKeeps (SameLedger before) (get_user_by_id id)
  unfolding get_user_by_id
  get_user-OkKeeps id = OkKeeps-query _ (λ db s. s)

  module _ (writer : OutboxWriter) (k : WriterKeeps writer) (order : PaymentOrder) where
    activity-OkKeeps :
        (owner_id account_id : ℕ) (event_type kind direction counterparty : Text)
        → OkKeeps (SameLedger before) (
            enqueue_activity_event writer order owner_id account_id event_type kind direction
              counterparty)
    unfolding enqueue_activity_event
    activity-OkKeeps owner_id account_id event_type kind direction counterparty =
        OkKeeps-bind _ _ (OkKeeps-wrap _ (get_user_by_id owner_id) (get_user-OkKeeps owner_id))
          (λ user.
            OkKeeps-bind _ _
              (OkKeeps-wrap _ (get_account account_id) (get_account-OkKeeps account_id))
              (λ account.
                OkKeeps-bind _ _
                  (OkKeeps-fail_if
                    (account.is_system
                      || not account.owner_id.valid
                      || not (account.owner_id.uuid == owner_id))
                    (Error.plain "payment notification account ownership check failed"))
                  (λ _.
                    OkKeeps-bind new_uuid _ new_uuid-OkKeeps
                      (λ event_id. OkKeeps-wrap _ (writer.enqueue _) (k.enqueue before _)))))

    pub booked_events-OkKeeps : OkKeeps (SameLedger before) (enqueue_booked_events writer order)
    unfolding enqueue_booked_events
    booked_events-OkKeeps = OkKeeps-bind _ _ (activity-OkKeeps _ _ _ _ _ _) (λ _.
        OkKeeps-if (not order.beneficiary_account_id.valid) _ _ (OkKeeps-pure tt) (
          OkKeeps-bind (get_account _) _ (get_account-OkKeeps _) (λ destination.
            OkKeeps-if (destination.is_system || not destination.owner_id.valid) _ _
              (OkKeeps-pure tt) (activity-OkKeeps _ _ _ _ _ _))))

    pub failed_event-OkKeeps : OkKeeps (SameLedger before) (enqueue_failed_event writer order)
    unfolding enqueue_failed_event
    failed_event-OkKeeps = activity-OkKeeps _ _ _ _ _ _
