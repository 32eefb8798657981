-- ===== src/Tests/Transactions.antt =====
-- Transactions, reconciliations and histories on the small bank.
use banking_go.Prelude.{
  ◌≡◌, ◌≢◌, refl, true, false, some, pos, ◌+ℤ◌, ◌-ℤ◌, neg_ℤ, text_eq, List, [], ◌∷◌, codes, arith,
  min, ◌*◌, ◌^◌,
}
use banking_go.Errors.{ok, err, Error}
use banking_go.Ledger.Port.{NewCustomer}
use banking_go.Database.Queries.Users.{insert_user, find_user, email_taken}
use banking_go.Database.LedgerRepository.Create.{create_funded_tx-opening}
use banking_go.Ledger.Service.{Call, deposit_call, transfer_call, reconcile, perform_all}
use banking_go.Database.Tables.{Account}
use banking_go.Database.Tx.{
  Env, World, aborted, query, new_uuid, uuid_string, exec_tx, exec_tx_loop, exec_tx_once,
  is_serialization_error, retry_wait,
}
use banking_go.Database.Tx.Atomic.{exec_tx_atomic, exec_tx-Ran, Ran, Undone}
use banking_go.Database.Tx.Backoff.{retry_wait_closed}
use banking_go.Database.Queries.Accounts.{
  find_account, find_settlement, get_account, get_account_balance, get_account_for_update,
  get_settlement_account_for_update, update_account_balance, add_balance, calculated_balance,
  credits, debits, insert_account, create_account, iban_taken, CreateAccountParams,
}
use banking_go.Database.Queries.Entries.{create_entry, insert_entry}
use banking_go.Database.Ledger.Moved.{LedgerValid}
use banking_go.Database.LedgerRepository.{
  create_funded_tx, deposit_tx, reconcile_account, ledger_repository,
}
use banking_go.Database.LedgerRepository.Reconcile.{
  reconcile_account_sound, reconcile_account_complete,
}
use banking_go.Database.LedgerRepository.Keeps.{ledger_history-LedgerValid}
use banking_go.Tests.Numbers.{exact_decimals, exact_laws}
use banking_go.Tests.Bank.{calm, bank, outside, inside, bank-LedgerValid}
use banking_go.Tests.Movements.{after_deposit, after_deposit-LedgerValid, holding}

abbrev refused : World
refused = (exec_tx (deposit_tx exact_decimals 33 (pos 100)) calm outside).1

deposit_refused :
    exec_tx (deposit_tx exact_decimals 33 (pos 100)) calm outside
    ≡ (err (Error.wrapped "account not found" Error.no_rows), refused)
unfolding exec_tx exec_tx_loop exec_tx_once is_serialization_error deposit_tx query
    get_settlement_account_for_update find_settlement get_account_for_update find_account text_eq
deposit_refused = refl

exec_tx_atomic_example :
    Undone
      (deposit_tx exact_decimals 33 (pos 100))
      calm
      bank
      (Error.wrapped "account not found" Error.no_rows)
      refused.db
exec_tx_atomic_example =
    exec_tx_atomic calm (deposit_tx exact_decimals 33 (pos 100)) outside deposit_refused

abbrev committed : World
committed = (exec_tx (deposit_tx exact_decimals 1 (pos 100)) calm outside).1

deposit_committed :
    exec_tx (deposit_tx exact_decimals 1 (pos 100)) calm outside ≡ (ok tt, committed)
unfolding exec_tx exec_tx_loop exec_tx_once deposit_tx query new_uuid uuid_string
    get_settlement_account_for_update find_settlement get_account_for_update find_account
    create_entry insert_entry update_account_balance text_eq
deposit_committed = refl

exec_tx-Ran_example : Ran (deposit_tx exact_decimals 1 (pos 100)) calm bank tt committed.db
exec_tx-Ran_example =
    exec_tx-Ran calm (deposit_tx exact_decimals 1 (pos 100)) outside deposit_committed

retry_wait_closed_example : retry_wait 3 ≡ min (50 * 2 ^ 3) 1000
retry_wait_closed_example = retry_wait_closed 3

reconciliation_runs :
    reconcile_account exact_decimals 1 calm after_deposit
    ≡ (ok true, (reconcile_account exact_decimals 1 calm after_deposit).1)
unfolding deposit_tx query new_uuid uuid_string get_settlement_account_for_update find_settlement
    get_account_for_update find_account create_entry insert_entry update_account_balance add_balance
    text_eq ◌+ℤ◌ ◌-ℤ◌ neg_ℤ reconcile_account get_account get_account_balance calculated_balance
    credits debits
reconciliation_runs = refl

reconcile_account_sound_example :
    (true ≡ true)
    × (a : Account) × (find_account 1 after_deposit.db.accounts ≡ some a)
    × (a.balance ≡ calculated_balance 1 after_deposit.db.entries)
reconcile_account_sound_example =
    reconcile_account_sound exact_decimals exact_laws 1 calm after_deposit reconciliation_runs

found_deposited : find_account 1 after_deposit.db.accounts ≡ some (holding 1 (pos 5_000_000))
unfolding deposit_tx query new_uuid uuid_string get_settlement_account_for_update find_settlement
    get_account_for_update find_account create_entry insert_entry update_account_balance add_balance
    text_eq ◌+ℤ◌ neg_ℤ
found_deposited = refl

still_open : after_deposit.mode ≢ aborted
unfolding deposit_tx query new_uuid uuid_string get_settlement_account_for_update find_settlement
    get_account_for_update find_account create_entry insert_entry update_account_balance text_eq
still_open e = ground arith

reconcile_account_complete_example :
    (reconcile_account exact_decimals 1 calm after_deposit).0 ≡ ok true
reconcile_account_complete_example =
    reconcile_account_complete exact_decimals exact_laws 1 calm after_deposit
      after_deposit-LedgerValid found_deposited refl still_open refl refl

abbrev calls : List (Call × Env)
calls =
    (deposit_call 1 (codes "500.00"), calm)
    ∷ (transfer_call 7 1 2 (codes "200"), calm)
    ∷ (reconcile 2, calm)
    ∷ []

ledger_history-LedgerValid_example :
    LedgerValid (perform_all exact_decimals (ledger_repository exact_decimals) calls outside).db
ledger_history-LedgerValid_example =
    ledger_history-LedgerValid exact_decimals exact_laws calls outside bank-LedgerValid

abbrev second_account : CreateAccountParams
second_account = record {
  owner_id = record { uuid = 7; valid = true };
  name = codes "Sparkonto";
  currency = codes "EUR";
  is_system = false;
  iban = codes "D";
  account_type = codes "SPARKONTO";
  status = codes "ACTIVE";
}

abbrev grace : NewCustomer
grace = record {
  identity_id = 8;
  email = codes "grace";
  hashed_password = [];
  full_name = codes "Grace";
}

abbrev after_signup : World
after_signup = (create_funded_tx exact_decimals grace (codes "D") (pos 5_000_000) calm inside).1

signup_runs : create_funded_tx exact_decimals grace (codes "D") (pos 5_000_000) calm inside ≡ (
  ok (record {
    user_id = 8;
    user_email = codes "grace";
    account_id = 101;
    account_iban = codes "D";
  }),
  after_signup,
)
unfolding create_funded_tx insert_user find_user email_taken create_account insert_account
    iban_taken deposit_tx query new_uuid uuid_string get_settlement_account_for_update
    find_settlement get_account_for_update find_account create_entry insert_entry
    update_account_balance text_eq
signup_runs = refl

create_funded_tx-opening_example :
    (b : Account) × (find_account 101 after_signup.db.accounts ≡ some b)
    × (b.balance ≡ pos 5_000_000)
create_funded_tx-opening_example =
    create_funded_tx-opening exact_decimals exact_laws grace (codes "D") (pos 5_000_000) calm inside
      bank-LedgerValid signup_runs
