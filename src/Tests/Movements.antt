-- ===== src/Tests/Movements.antt =====
-- A deposit, a withdrawal and a transfer on the small bank.
use banking_go.Prelude.{
  ℕ, ◌≡◌, refl, true, some, pos, text_eq, codes, ◌==◌, if◌then◌else◌, ℤ, ◌+ℤ◌, neg_ℤ,
}
use banking_go.Errors.{ok}
use banking_go.Account.Ownership.{customer_can_operate}
use banking_go.Ledger.Posting.{plan_customer_transfer}
use banking_go.Database.Tables.{Account}
use banking_go.Database.Tx.{World, query, new_uuid, uuid_string}
use banking_go.Database.Queries.Accounts.{
  find_account, find_settlement, get_account_for_update, get_settlement_account_for_update,
  update_account_balance, add_balance, list_accounts_for_update, select_two, insert_by_id,
}
use banking_go.Database.Queries.Entries.{create_entry, insert_entry}
use banking_go.Database.Ledger.Moved.{Moved, LedgerValid, Moved-LedgerValid}
use banking_go.Database.LedgerRepository.{deposit_tx, withdraw_tx, transfer_tx, post_transfer}
use banking_go.Database.LedgerRepository.Deposit.{deposit_tx-Moved}
use banking_go.Database.LedgerRepository.Withdraw.{withdraw_tx-Moved}
use banking_go.Database.LedgerRepository.Transfer.{transfer_tx-Moved}
use banking_go.Tests.Numbers.{exact_decimals, exact_laws}
use banking_go.Tests.Bank.{calm, bank, inside, bank-LedgerValid, customer_account}

abbrev pub after_deposit : World
after_deposit = (deposit_tx exact_decimals 1 (pos 5_000_000) calm inside).1

deposit_runs : deposit_tx exact_decimals 1 (pos 5_000_000) calm inside ≡ (ok tt, after_deposit)
unfolding deposit_tx query new_uuid uuid_string get_settlement_account_for_update find_settlement
    get_account_for_update find_account create_entry insert_entry update_account_balance text_eq
deposit_runs = refl

deposit_tx-Moved_example :
    (s : Account) × (find_settlement bank.accounts ≡ some s)
    × Moved bank after_deposit.db s.id 1 (pos 5_000_000)
deposit_tx-Moved_example =
    deposit_tx-Moved exact_decimals exact_laws calm 1 (pos 5_000_000) inside bank-LedgerValid
      deposit_runs

pub after_deposit-LedgerValid : LedgerValid after_deposit.db
after_deposit-LedgerValid =
    let (s, found, m) = deposit_tx-Moved_example in Moved-LedgerValid m bank-LedgerValid

abbrev after_withdrawal : World
after_withdrawal = (withdraw_tx exact_decimals 1 (pos 2_000_000) calm after_deposit).1

withdrawal_runs :
    withdraw_tx exact_decimals 1 (pos 2_000_000) calm after_deposit ≡ (ok tt, after_withdrawal)
unfolding deposit_tx withdraw_tx query new_uuid uuid_string get_settlement_account_for_update
    find_settlement get_account_for_update find_account create_entry insert_entry
    update_account_balance add_balance text_eq ◌+ℤ◌ neg_ℤ
withdrawal_runs = refl

withdraw_tx-Moved_example :
    (s : Account) × (find_settlement after_deposit.db.accounts ≡ some s)
    × Moved after_deposit.db after_withdrawal.db 1 s.id (pos 2_000_000)
withdraw_tx-Moved_example =
    withdraw_tx-Moved exact_decimals exact_laws calm 1 (pos 2_000_000) after_deposit
      after_deposit-LedgerValid withdrawal_runs

abbrev after_transfer : World
after_transfer = (transfer_tx exact_decimals 7 1 2 (pos 2_000_000) calm after_deposit).1

transfer_runs :
    transfer_tx exact_decimals 7 1 2 (pos 2_000_000) calm after_deposit ≡ (ok tt, after_transfer)
unfolding deposit_tx transfer_tx post_transfer query new_uuid uuid_string
    get_settlement_account_for_update find_settlement get_account_for_update find_account
    create_entry insert_entry update_account_balance add_balance list_accounts_for_update select_two
    insert_by_id plan_customer_transfer customer_can_operate text_eq ◌+ℤ◌ neg_ℤ
transfer_runs = refl

transfer_tx-Moved_example :
    (m : Moved after_deposit.db after_transfer.db 1 2 (pos 2_000_000)) × (customer_can_operate 7
        m.from_row.owner_id.uuid m.from_row.owner_id.valid m.from_row.is_system
      ≡ true)
    × (customer_can_operate 7 m.to_row.owner_id.uuid m.to_row.owner_id.valid m.to_row.is_system
        ≡ true)
transfer_tx-Moved_example =
    transfer_tx-Moved exact_decimals exact_laws calm 7 1 2 (pos 2_000_000) after_deposit
      after_deposit-LedgerValid transfer_runs

-- The movement itself, for the theorems on movements.
transferred : Moved after_deposit.db after_transfer.db 1 2 (pos 2_000_000)
transferred = transfer_tx-Moved_example.0

abbrev pub holding : ℕ → ℤ → Account
holding id x = record (customer_account id (if id == 1 then codes "A" else codes "B")) {
  balance = x;
  available_balance = x;
}

found_before : find_account 1 after_deposit.db.accounts ≡ some (holding 1 (pos 5_000_000))
unfolding deposit_tx query new_uuid uuid_string get_settlement_account_for_update find_settlement
    get_account_for_update find_account create_entry insert_entry update_account_balance add_balance
    text_eq ◌+ℤ◌ neg_ℤ
found_before = refl

found_after : find_account 1 after_transfer.db.accounts ≡ some (holding 1 (pos 3_000_000))
unfolding deposit_tx transfer_tx post_transfer query new_uuid uuid_string
    get_settlement_account_for_update find_settlement get_account_for_update find_account
    create_entry insert_entry update_account_balance add_balance list_accounts_for_update select_two
    insert_by_id plan_customer_transfer customer_can_operate text_eq ◌+ℤ◌ neg_ℤ
found_after = refl
