-- ===== src/Payment/Booking/Posted.antt =====
-- What the posting of a payment has written.
use banking_go.Prelude.{
  ℕ, suc, ◌≡◌, ◌≢◌, true, false, none, some, ◌∷◌, ◌++◌, codes, pos, ◌≤ℤ◌, arith,
}
use banking_go.Errors.{ok}
use banking_go.Decimal.{Decimals}
use banking_go.Ledger.Posting.{Posting}
use banking_go.Payment.Lifecycle.{booked, is_processing}
use banking_go.Payment.Reasons.{null_string_of}
use banking_go.Account.Iban.{mask_iban}
use banking_go.Database.Tables.{Account, Entry, User, PaymentOrder, null_string}
use banking_go.Database.Tx.{Env, World, query, new_uuid}
use banking_go.Database.Queries.Accounts.{add_balance, update_account_balance}
use banking_go.Database.Queries.Entries.{payment_entry, create_payment_entry, insert_entry}
use banking_go.Database.Queries.Users.{find_user, get_user_by_id}
use banking_go.Database.Queries.Orders.{
  find_order, replace_order, mark_payment_booked, update_order,
}
use banking_go.Payment.Booking.{categorize, post_payment}
use banking_go.Payment.Reasons.{categorize_purpose}

module _ (D : Decimals) (env : Env) (order : PaymentOrder) (source : Account) (p : Posting D)
    (w : World) where
  abbrev pub number : ℕ
  number = env.ids w.tick

  -- The two entries of a posting; the second names the sender.
  abbrev pub sent_entry : Entry
  sent_entry = payment_entry (record {
    account_id = p.debit_leg.account_id;
    debit = D.numeric p.debit_leg.debit;
    credit = D.numeric p.debit_leg.credit;
    transaction_id = number;
    description = null_string_of (codes "SEPA-Demoüberweisung " ++ order.end_to_end_id);
    payment_order_id = record { uuid = order.id; valid = true };
    counterparty_name = null_string_of order.beneficiary_name;
    counterparty_iban = null_string_of (mask_iban order.beneficiary_iban);
    purpose = order.purpose;
    category = null_string_of (categorize_purpose (env.visit (suc w.tick)) order.purpose.string);
  })

  abbrev pub received_entry : User → Entry
  received_entry sender = payment_entry (record {
    account_id = p.credit_leg.account_id;
    debit = D.numeric p.credit_leg.debit;
    credit = D.numeric p.credit_leg.credit;
    transaction_id = number;
    description = null_string_of (codes "SEPA-Demoeingang " ++ order.end_to_end_id);
    payment_order_id = record { uuid = order.id; valid = true };
    counterparty_name = null_string_of sender.full_name;
    counterparty_iban = null_string_of (mask_iban source.iban);
    purpose = order.purpose;
    category = null_string_of (categorize_purpose (env.visit (suc w.tick)) order.purpose.string);
  })

  module _ {order' : PaymentOrder} {w' : World}
      (h : post_payment D order source p env w ≡ (ok order', w')) where
    pub sender_exists : find_user order.owner_id w.db.users ≢ none
    unfolding post_payment query new_uuid categorize create_payment_entry insert_entry
        get_user_by_id
    sender_exists e = ground arith

    pub row_exists : find_order order.id w.db.orders ≢ none
    unfolding post_payment query new_uuid categorize create_payment_entry insert_entry
        get_user_by_id update_account_balance mark_payment_booked update_order
    row_exists e = ground arith

    module _ {sender : User} {row : PaymentOrder}
        (s : find_user order.owner_id w.db.users ≡ some sender)
        (o : find_order order.id w.db.orders ≡ some row) where
      pub posted : w'.db ≡ record w.db {
        accounts = add_balance p.credit_leg.account_id (D.numeric p.credit_leg.credit) (
            add_balance p.debit_leg.account_id (D.numeric (D.neg p.debit_leg.debit)) w.db.accounts);
        entries = received_entry sender ∷ sent_entry ∷ w.db.entries;
        orders = replace_order order' w.db.orders;
      }
      unfolding post_payment query new_uuid categorize create_payment_entry insert_entry
          get_user_by_id update_account_balance mark_payment_booked update_order
      posted = ground arith

      pub positive :
          D.numeric D.zero_decimal ≡ pos 0
          → p.debit_leg.credit ≡ D.zero_decimal
          → pos 1 ≤ℤ D.numeric p.debit_leg.debit
      unfolding post_payment query new_uuid categorize create_payment_entry insert_entry
          get_user_by_id
      positive z c = ground arith

      pub final :
          (row.ledger_transaction_id.valid ≡ false)
          × (is_processing row.status ≡ true)
          × (order' ≡ record row {
            status = booked;
            ledger_transaction_id = record { uuid = number; valid = true };
            failure_reason = null_string;
            reject_code = null_string;
          })
      unfolding post_payment query new_uuid categorize create_payment_entry insert_entry
          get_user_by_id update_account_balance mark_payment_booked update_order
      final = (ground arith, ground arith, ground arith)
