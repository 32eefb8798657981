-- ===== src/Tests/Payments.antt =====
-- A booking, a confirmation, the worker and the claim on the small bank.
use banking_go.Prelude.{
  not, codes, ◌⊎◌, Mem, ℕ, ◌≡◌, ◌≤◌, refl, true, false, some, text_eq, ◌+ℤ◌, neg_ℤ, [], ◌∷◌, All,
  List,
}
use banking_go.Errors.{ok, err, Error}
use banking_go.Account.Ownership.{customer_can_operate}
use banking_go.Ledger.Posting.{plan_customer_transfer}
use banking_go.Payment.Lifecycle.{
  awaiting_confirmation, processing, scheduled, cancelled, booked, is_awaiting, allowed_transitions,
  validate_transition,
}
use banking_go.Payment.Outbox.{enqueue_booked_events, enqueue_activity_event}
use banking_go.Payment.Booking.{
  book_payment_tx, plan_and_post, post_payment, categorize, audit_with_queries,
}
use banking_go.Payment.Booking.Booked.{Booking, book_payment_tx-Booking}
use banking_go.Payment.Booking.Refused.{Bookable, book_payment_tx-Clean}
use banking_go.Payment.Service.{finish, confirm_payment_tx, process_claimed_tx}
use banking_go.Payment.Service.Finish.{Attempted, finish_aborted}
use banking_go.Payment.Service.Confirm.{Confirmed, Agreed, confirm_payment_tx-Confirmed}
use banking_go.Payment.Service.Valid.{OrdersValid, BankValid}
use banking_go.Payment.Service.History.{
  PaymentCall, confirm, process, cancel_call, read, create, run_due, perform_payments,
  payment_history-BankValid,
}
use banking_go.Payment.Service.Process.{process_claimed_tx-Attempted}
use banking_go.Payment.Service.Lifecycles.{
  write_status, cancel, write_status_allowed, Claimed, claim_due-Claimed,
}
use banking_go.Database.Tables.{PaymentOrder}
use banking_go.Database.Tx.{
  Env, aborted, is_serialization_error, World, auto, open_tx, query, new_uuid, uuid_string,
  current_time,
}
use banking_go.Database.Tx.Refusal.{Clean}
use banking_go.Database.Queries.Accounts.{
  find_account, find_settlement, get_account, get_account_for_update,
  get_settlement_account_for_update, update_account_balance, add_balance, list_accounts_for_update,
  select_two, insert_by_id,
}
use banking_go.Database.Queries.Entries.{create_entry, create_payment_entry, insert_entry}
use banking_go.Database.Queries.Users.{find_user, get_user_by_id, create_audit_event}
use banking_go.Database.Queries.Orders.{
  find_order, replace_order, claimed, update_order, confirm_payment_order, cancel_payment_order,
  mark_payment_booked, get_payment_order_for_update, claim_due_payment_orders, select_due,
  insert_due, claim_rows,
}
use banking_go.Database.LedgerRepository.{deposit_tx}
use banking_go.Tests.Numbers.{exact_decimals, exact_laws}
use banking_go.Tests.Bank.{
  calm, bank, inside, ada, order_of, bank-OrdersValid, table_writer, table_writer-WriterKeeps,
}
use banking_go.Tests.Creation.{ascii_letters, request, zeros_env}
use banking_go.Tests.Movements.{after_deposit, after_deposit-LedgerValid}

abbrev claimed_order : PaymentOrder
claimed_order = order_of 51 processing

abbrev booked_order : ℕ → ℕ → PaymentOrder
booked_order id number = record (order_of id booked) {
  ledger_transaction_id = record { uuid = number; valid = true };
}

abbrev after_booking : World
after_booking = (book_payment_tx exact_decimals claimed_order calm after_deposit).1

booking_runs :
    book_payment_tx exact_decimals claimed_order calm after_deposit
    ≡ (ok (booked_order 51 108), after_booking)
unfolding deposit_tx query new_uuid uuid_string get_settlement_account_for_update find_settlement
    get_account_for_update find_account create_entry insert_entry update_account_balance add_balance
    text_eq ◌+ℤ◌ neg_ℤ book_payment_tx plan_and_post post_payment categorize validate_transition
    allowed_transitions list_accounts_for_update select_two insert_by_id plan_customer_transfer
    customer_can_operate create_payment_entry get_user_by_id find_user mark_payment_booked
    update_order find_order
booking_runs = refl

book_payment_tx-Booking_example :
    Booking after_deposit.db after_booking.db claimed_order (booked_order 51 108)
book_payment_tx-Booking_example =
    book_payment_tx-Booking exact_decimals exact_laws calm claimed_order after_deposit
      after_deposit-LedgerValid booking_runs

claimed_order-Bookable : Bookable bank claimed_order
unfolding find_user find_order
claimed_order-Bookable = record {
  sender = ada;
  sender_found = refl;
  row = claimed_order;
  row_found = refl;
  in_processing = refl;
  unbooked = refl;
}

book_payment_tx-Clean_example : Clean bank (book_payment_tx exact_decimals claimed_order)
book_payment_tx-Clean_example =
    book_payment_tx-Clean exact_decimals claimed_order claimed_order-Bookable

after_deposit-OrdersValid : OrdersValid after_deposit.db
unfolding deposit_tx query new_uuid uuid_string get_settlement_account_for_update find_settlement
    get_account_for_update find_account create_entry insert_entry update_account_balance text_eq
after_deposit-OrdersValid = record { sound = bank-OrdersValid.sound }

after_deposit-open : after_deposit.mode ≡ open_tx
unfolding deposit_tx query new_uuid uuid_string get_settlement_account_for_update find_settlement
    get_account_for_update find_account create_entry insert_entry update_account_balance text_eq
after_deposit-open = refl

abbrev at_rest : World
at_rest = record after_deposit { mode = auto }

abbrev after_processing : World
after_processing = (process_claimed_tx exact_decimals table_writer 51 calm after_deposit).1

processing_runs :
    process_claimed_tx exact_decimals table_writer 51 calm after_deposit
    ≡ (ok (booked_order 51 109), after_processing)
unfolding deposit_tx query new_uuid uuid_string get_settlement_account_for_update find_settlement
    get_account_for_update find_account create_entry insert_entry update_account_balance add_balance
    text_eq ◌+ℤ◌ neg_ℤ book_payment_tx plan_and_post post_payment categorize validate_transition
    allowed_transitions list_accounts_for_update select_two insert_by_id plan_customer_transfer
    customer_can_operate create_payment_entry get_user_by_id find_user mark_payment_booked
    update_order find_order finish enqueue_booked_events enqueue_activity_event get_account
    audit_with_queries create_audit_event get_payment_order_for_update process_claimed_tx
processing_runs = refl

process_claimed_tx-Attempted_example :
    (order : PaymentOrder) × (find_order 51 after_deposit.db.orders ≡ some order)
    × (order.ledger_transaction_id.valid ≡ false)
    × Attempted after_deposit.db after_processing.db order (booked_order 51 109)
process_claimed_tx-Attempted_example =
    process_claimed_tx-Attempted exact_decimals exact_laws table_writer table_writer-WriterKeeps 51
      calm after_deposit after_deposit-open after_deposit-LedgerValid after_deposit-OrdersValid
      processing_runs

abbrev after_confirmation : World
after_confirmation =
    (confirm_payment_tx exact_decimals table_writer 7 50 false calm after_deposit).1

confirmation_runs :
    confirm_payment_tx exact_decimals table_writer 7 50 false calm after_deposit
    ≡ (ok (booked_order 50 110), after_confirmation)
unfolding deposit_tx query new_uuid uuid_string get_settlement_account_for_update find_settlement
    get_account_for_update find_account create_entry insert_entry update_account_balance add_balance
    text_eq ◌+ℤ◌ neg_ℤ book_payment_tx plan_and_post post_payment categorize validate_transition
    allowed_transitions list_accounts_for_update select_two insert_by_id plan_customer_transfer
    customer_can_operate create_payment_entry get_user_by_id find_user mark_payment_booked
    update_order find_order finish enqueue_booked_events enqueue_activity_event get_account
    audit_with_queries create_audit_event get_payment_order_for_update confirm_payment_tx
    confirm_payment_order replace_order current_time
confirmation_runs = refl

confirm_payment_tx-Confirmed_example :
    (order : PaymentOrder) × (find_order 50 after_deposit.db.orders ≡ some order)
    × (order.owner_id ≡ 7)
    × (is_awaiting order.status ≡ true)
    × Agreed order false
    × Confirmed 1000 order
        (not (text_eq order.vop_result (codes "MATCH")))
        after_deposit.db
        after_confirmation.db
        (booked_order 50 110)
confirm_payment_tx-Confirmed_example =
    confirm_payment_tx-Confirmed exact_decimals exact_laws table_writer table_writer-WriterKeeps 7
      50 false calm after_deposit after_deposit-open confirmation_runs after_deposit-LedgerValid
      after_deposit-OrdersValid

cancellation_runs :
    write_status (cancel 7) 50 calm inside
    ≡ (ok (order_of 50 cancelled), (write_status (cancel 7) 50 calm inside).1)
unfolding write_status cancel_payment_order query update_order find_order
cancellation_runs = refl

awaiting_found : find_order 50 bank.orders ≡ some (order_of 50 awaiting_confirmation)
unfolding find_order
awaiting_found = refl

write_status_allowed_example : allowed_transitions awaiting_confirmation cancelled ≡ true
write_status_allowed_example =
    write_status_allowed 50 calm inside awaiting_found (cancel 7) cancellation_runs

claim_runs :
    claim_due_payment_orders 10 calm inside
    ≡ (ok (claimed 1000 (order_of 52 scheduled) ∷ []), (claim_due_payment_orders 10 calm inside).1)
unfolding claim_due_payment_orders current_time query select_due insert_due claim_rows
claim_runs = refl

abbrev after_claim : World
after_claim = (claim_due_payment_orders 10 calm inside).1

claim_due-Claimed_example :
    (1 ≤ 10)
    × All
        (Claimed 1000 inside.db.orders after_claim.db.orders)
        (claimed 1000 (order_of 52 scheduled) ∷ [])
    × All
        (λ q. Mem q inside.db.orders ⊎ Mem q (claimed 1000 (order_of 52 scheduled) ∷ []))
        after_claim.db.orders
claim_due-Claimed_example = claim_due-Claimed 10 calm inside claim_runs

abbrev conflict : Error
conflict = Error.pq 40001

finish_aborted_example :
    (e : Error) × ((finish table_writer false claimed_order
        (err conflict)
        calm
        (record inside { mode = aborted })).0
      ≡ err e)
    × (is_serialization_error e ≡ false)
finish_aborted_example =
    finish_aborted table_writer false claimed_order conflict calm (record inside { mode = aborted })
      refl

abbrev payment_calls : List (PaymentCall × Env)
payment_calls =
    (confirm 7 50 false, calm)
    ∷ (process 51, calm)
    ∷ (cancel_call 7 52, calm)
    ∷ (read 7 50, calm)
    ∷ (create request, zeros_env)
    ∷ (run_due 25, calm)
    ∷ []

payment_history-BankValid_example :
    BankValid (perform_payments exact_decimals ascii_letters table_writer payment_calls at_rest).db
payment_history-BankValid_example =
    payment_history-BankValid exact_decimals exact_laws ascii_letters table_writer
      table_writer-WriterKeeps payment_calls at_rest
      (after_deposit-LedgerValid, after_deposit-OrdersValid)
