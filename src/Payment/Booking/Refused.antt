-- ===== src/Payment/Booking/Refused.antt =====
-- A booking that fails leaves the database as it was, or a transaction that can only be rolled back.
use banking_go.Prelude.{ℕ, ◌≡◌, inl, refl, true, false, ◌==◌, arith, some, if◌then◌else◌}
use banking_go.Errors.{Result, ok, err, Error}
use banking_go.Decimal.{Decimals}
use banking_go.Ledger.Posting.{Posting, plan_customer_transfer}
use banking_go.Payment.Lifecycle.{booked, is_processing}
use banking_go.Database.Tables.{Account, PaymentOrder, User, Database}
use banking_go.Database.Tx.{lift, Env, World, open_tx, aborted, query, new_uuid, fail_if}
use banking_go.Database.Tx.Refusal.{
  Clean, Refusal, Clean-bind, Reads-bind, Reads-lift, Reads-if, Reads-query,
}
use banking_go.Database.Queries.Accounts.{
  get_settlement_account, list_accounts_for_update, update_account_balance,
}
use banking_go.Database.Queries.Entries.{create_payment_entry, insert_entry}
use banking_go.Database.Queries.Users.{find_user, get_user_by_id}
use banking_go.Database.Queries.Orders.{find_order, mark_payment_booked, update_order}
use banking_go.Database.LedgerRepository.{
  both_accounts, account_by_id, or_error, source_snapshot, destination_snapshot,
}
use banking_go.Payment.Booking.{
  categorize, post_payment, book_payment_tx, destination_of, must_transition, payable,
  payment_refusal, plan_and_post, system_destination,
}

-- The order has its row, in processing and unbooked, and its owner a user.
pub record Bookable (db : Database) (order : PaymentOrder) : Type 0 where
  pub sender : User
  pub sender_found : find_user order.owner_id db.users ≡ some sender
  pub row : PaymentOrder
  pub row_found : find_order order.id db.orders ≡ some row
  pub in_processing : is_processing row.status ≡ true
  pub unbooked : row.ledger_transaction_id.valid ≡ false

module _ (D : Decimals) (order : PaymentOrder) where
  post_fails :
      (source : Account) (p : Posting D) (env : Env) (w : World)
      → w.mode ≡ open_tx
      → (sender : User) → find_user order.owner_id w.db.users ≡ some sender
      → (row : PaymentOrder) → find_order order.id w.db.orders ≡ some row
      → is_processing row.status ≡ true
      → row.ledger_transaction_id.valid ≡ false
      → (e : Error) (w' : World) → post_payment D order source p env w ≡ (err e, w')
      → w'.mode ≡ aborted
  unfolding post_payment query new_uuid categorize create_payment_entry insert_entry get_user_by_id
      update_account_balance mark_payment_booked update_order
  post_fails source p env w o sender s row r i u e w' h = ground arith

  module _ {db : Database} (bookable : Bookable db order) where
    post_payment-Clean :
        (source : Account) (p : Posting D) → Clean db (post_payment D order source p)
    post_payment-Clean source p = record { at = at }
      where
        ends :
            (env : Env) (w : World)
            → w.db ≡ db
            → w.mode ≡ open_tx
            → (r : Result PaymentOrder) (w' : World) → post_payment D order source p env w ≡ (r, w')
            → Refusal db r w'
        ends env w same o (ok a) w' h = tt
        ends env w same o (err e) w' h = inl (
            post_fails source p env w o bookable.sender (rw same bookable.sender_found) bookable.row
              (rw same bookable.row_found) bookable.in_processing bookable.unbooked e w' h)

        at :
            (env : Env) (w : World)
            → w.db ≡ db
            → w.mode ≡ open_tx
            → Refusal db
                (post_payment D order source p env w).0
                (post_payment D order source p env w).1
        at env w same o =
            let (r, w') = post_payment D order source p env w in ends env w same o r w' refl

    plan_and_post-Clean :
        (amount : D.Decimal) (dest : ℕ) (a b : Account)
        → Clean db (plan_and_post D order amount dest a b)
    unfolding plan_and_post
    plan_and_post-Clean amount dest a b =
        Clean-bind
          (lift (
            or_error (D.from_numeric (account_by_id a b order.source_account_id).available_balance)
              "invalid available balance"))
          _ (Reads-lift _)
          (λ available.
            Clean-bind
              (lift (
                payment_refusal (
                  plan_customer_transfer D order.owner_id
                    (source_snapshot D (account_by_id a b order.source_account_id) available)
                    (destination_snapshot D (account_by_id a b dest)) amount system_destination)))
              _ (Reads-lift _) (λ posting. post_payment-Clean _ posting))

    -- Where the order's owner is a user and its row is in processing and not booked, a booking
    -- that fails in an open transaction has aborted the transaction, or has left the database as
    -- it was.
    pub book_payment_tx-Clean : Clean db (book_payment_tx D order)
    unfolding book_payment_tx get_settlement_account list_accounts_for_update
    book_payment_tx-Clean =
        Clean-bind (lift (must_transition order.status booked)) _ (Reads-lift _) (λ _.
          Clean-bind (lift (payable D (D.from_numeric order.amount))) _ (Reads-lift _) (λ amount.
            Clean-bind (destination_of D order.beneficiary_account_id) _
              (Reads-if order.beneficiary_account_id.valid _ _ (Reads-lift (ok _))
                (Reads-bind get_settlement_account _ (Reads-query _) (λ s. Reads-lift (ok s.id))))
              (λ dest.
                Clean-bind (fail_if (dest == order.source_account_id) Error.same_account_transfer) _
                  (Reads-lift (
                    if dest == order.source_account_id
                    then err Error.same_account_transfer
                    else ok tt))
                  (λ _.
                    Clean-bind (list_accounts_for_update order.source_account_id dest) _
                      (Reads-query _)
                      (λ rows.
                        Clean-bind (lift (both_accounts rows)) _ (Reads-lift _)
                          (λ (a, b). plan_and_post-Clean amount dest a b))))))
