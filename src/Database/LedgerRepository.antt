-- ===== src/Database/LedgerRepository.antt =====
-- backend/internal/platform/database/ledger_repository.go: the ledger's movements as transactions.
pub mod Columns
pub mod Deposit
pub mod Withdraw
pub mod Transfer
pub mod Create
pub mod Reconcile
pub mod Keeps
use banking_go.Prelude.{
  ℕ, Bool, true, false, not, ◌&&◌, Option, none, some, List, [], ◌∷◌, ◌++◌, ◌==◌, Text, codes,
  text_eq, ℤ, pos, String, if◌then◌else◌,
}
use banking_go.Errors.{Result, ok, err, Error}
use banking_go.Decimal.{Decimals}
use banking_go.Ledger.Posting.{
  AccountSnapshot, Leg, Posting, TransferPolicy, plan_customer_transfer,
}
use banking_go.Ledger.Port.{NewCustomer, FundedCustomer, Repository}
use banking_go.Database.Tables.{Account, zero_account, NullString, User, AdminAuditEvent, Database}
use banking_go.Database.Tx.{
  Tx, pure, raise, lift, query, wrap_error, ◌>>=◌, ◌>>◌, fail_if, new_uuid, uuid_string, exec_tx,
}
use banking_go.Database.Queries.Accounts.{
  get_account, get_account_for_update, get_settlement_account_for_update, list_accounts_for_update,
  update_account_balance, create_account, CreateAccountParams, get_account_balance,
}
use banking_go.Database.Queries.Entries.{create_entry}
use banking_go.Database.Queries.Users.{insert_user, create_user, record_admin_audit}

-- `sql.NullString{String: s, Valid: true}`
abbrev pub valid_string : Text → NullString
valid_string s = record { string = s; valid = true }

-- `map[uuid.UUID]sqlc.Account{a.ID: a, b.ID: b}[id]`
abbrev pub account_by_id : Account → Account → ℕ → Account
account_by_id a b id = if id == b.id then b else if id == a.id then a else zero_account

abbrev pub system_checks : Account → Account → Tx (Unit {0})
system_checks account settlement = do
  fail_if account.is_system Error.system_account
  fail_if (not (text_eq account.status (codes "ACTIVE"))) Error.account_blocked
  fail_if (not (text_eq account.currency settlement.currency)) Error.currency_mismatch

-- The two rows that `ListAccountsForUpdate` must give.
abbrev pub both_accounts : List Account → Result (Account × Account)
both_accounts (a ∷ b ∷ []) = ok (a, b)
both_accounts _ = err Error.account_not_found

abbrev pub or_error {ℓ} : {A : Type ℓ} → Option A → String → Result A
or_error none message = err (Error.plain message)
or_error (some a) _ = ok a

-- A customer of the identity service keeps its number; another one gets a new user.
abbrev pub identity_user : NewCustomer → Tx User
identity_user input =
    if input.identity_id == 0
    then create_user input.email input.hashed_password input.full_name
    else query (
        insert_user (record {
          id = input.identity_id;
          email = input.email;
          hashed_password = codes "identity-managed";
          full_name = input.full_name;
        }))

abbrev pub current_account : ℕ → Text → CreateAccountParams
current_account user_id iban = record {
  owner_id = record { uuid = user_id; valid = true };
  name = codes "Girokonto";
  currency = codes "EUR";
  is_system = false;
  iban = iban;
  account_type = codes "GIROKONTO";
  status = codes "ACTIVE";
}

module _ (D : Decimals) where
  unfoldable pub deposit_tx : ℕ → D.Decimal → Tx (Unit {0})
  deposit_tx account_id amount = do
    settlement ← wrap_error "settlement account not found" get_settlement_account_for_update
    account ← wrap_error "account not found" (get_account_for_update account_id)
    system_checks account settlement
    tx_id ← new_uuid
    _ ← create_entry (record {
      account_id = account_id;
      debit = D.numeric D.zero_decimal;
      credit = D.numeric amount;
      transaction_id = tx_id;
      operation_type = codes "deposit";
      description = valid_string (codes "External deposit");
    })
    id_text ← uuid_string account_id
    _ ← create_entry (record {
      account_id = settlement.id;
      debit = D.numeric amount;
      credit = D.numeric D.zero_decimal;
      transaction_id = tx_id;
      operation_type = codes "deposit";
      description = valid_string (codes "Deposit to account " ++ id_text);
    })
    update_account_balance account_id (D.numeric amount)
    update_account_balance settlement.id (D.numeric (D.neg amount))

  unfoldable pub deposit : ℕ → D.Decimal → Tx (Unit {0})
  deposit account_id amount = exec_tx (deposit_tx account_id amount)

  unfoldable pub withdraw_tx : ℕ → D.Decimal → Tx (Unit {0})
  withdraw_tx account_id amount = do
    settlement ← wrap_error "settlement account not found" get_settlement_account_for_update
    account ← wrap_error "account not found" (get_account_for_update account_id)
    system_checks account settlement
    balance ← lift (or_error (D.from_numeric account.balance) "invalid balance")
    fail_if (D.less_than balance amount) Error.insufficient_funds
    tx_id ← new_uuid
    _ ← create_entry (record {
      account_id = account_id;
      debit = D.numeric amount;
      credit = D.numeric D.zero_decimal;
      transaction_id = tx_id;
      operation_type = codes "withdrawal";
      description = valid_string (codes "External withdrawal");
    })
    id_text ← uuid_string account_id
    _ ← create_entry (record {
      account_id = settlement.id;
      debit = D.numeric D.zero_decimal;
      credit = D.numeric amount;
      transaction_id = tx_id;
      operation_type = codes "withdrawal";
      description = valid_string (codes "Withdrawal from " ++ id_text);
    })
    update_account_balance account_id (D.numeric (D.neg amount))
    update_account_balance settlement.id (D.numeric amount)

  unfoldable pub withdraw : ℕ → D.Decimal → Tx (Unit {0})
  withdraw account_id amount = exec_tx (withdraw_tx account_id amount)

  -- The body of `AdjustBalanceAsAdmin`.
  unfoldable pub adjust_balance_tx : ℕ → ℕ → Text → D.Decimal → Text → Tx (Unit {0})
  adjust_balance_tx actor_id account_id operation amount request_id = do
    before ← get_account account_id
    (if text_eq operation (codes "DEPOSIT")
        then deposit_tx account_id amount
        else withdraw_tx account_id amount)
    after ← get_account account_id
    record_admin_audit (record {
      actor_id = actor_id;
      target_account_id = account_id;
      action = codes "ACCOUNT_BALANCE_" ++ operation;
      previous = before.balance;
      next = after.balance;
      request_id = record { string = request_id; valid = not (text_eq request_id []) };
    })

  unfoldable pub adjust_balance_as_admin : ℕ → ℕ → Text → D.Decimal → Text → Tx (Unit {0})
  adjust_balance_as_admin actor_id account_id operation amount request_id =
      exec_tx (adjust_balance_tx actor_id account_id operation amount request_id)

  -- The snapshot of a source, with the balance that its column reads as.
  abbrev pub source_snapshot : Account → D.Decimal → AccountSnapshot D
  source_snapshot a available = record {
    available_balance = available;
    currency = a.currency;
    status = a.status;
    id = a.id;
    owner_id = a.owner_id.uuid;
    owner_assigned = a.owner_id.valid;
    system = a.is_system;
  }

  -- The snapshot of a destination; its balance is the zero value.
  abbrev pub destination_snapshot : Account → AccountSnapshot D
  destination_snapshot a = source_snapshot a D.zero_decimal

  -- The two entries and the two balance updates of a planned transfer.
  unfoldable pub post_transfer : ℕ → ℕ → Posting D → Tx (Unit {0})
  post_transfer from_id to_id posting = do
    tx_id ← new_uuid
    to_text ← uuid_string to_id
    _ ← create_entry (record {
      account_id = posting.debit_leg.account_id;
      debit = D.numeric posting.debit_leg.debit;
      credit = D.numeric posting.debit_leg.credit;
      transaction_id = tx_id;
      operation_type = codes "transfer";
      description = valid_string (codes "Transfer to " ++ to_text);
    })
    from_text ← uuid_string from_id
    _ ← create_entry (record {
      account_id = posting.credit_leg.account_id;
      debit = D.numeric posting.credit_leg.debit;
      credit = D.numeric posting.credit_leg.credit;
      transaction_id = tx_id;
      operation_type = codes "transfer";
      description = valid_string (codes "Transfer from " ++ from_text);
    })
    update_account_balance posting.debit_leg.account_id (D.numeric (D.neg posting.debit_leg.debit))
    update_account_balance posting.credit_leg.account_id (D.numeric posting.credit_leg.credit)

  unfoldable pub transfer_tx : ℕ → ℕ → ℕ → D.Decimal → Tx (Unit {0})
  transfer_tx owner_id from_id to_id amount = do
    accounts ← list_accounts_for_update from_id to_id
    (a, b) ← lift (both_accounts accounts)
    let from_acc = account_by_id a b from_id
    let to_acc = account_by_id a b to_id
    from_balance ← lift (or_error (D.from_numeric from_acc.balance) "invalid from balance")
    posting ← lift (
        plan_customer_transfer D owner_id (source_snapshot from_acc from_balance)
          (destination_snapshot to_acc) amount
          (record { require_destination_ownership = true; allow_system_destination = false }))
    post_transfer from_id to_id posting

  unfoldable pub transfer : ℕ → ℕ → ℕ → D.Decimal → Tx (Unit {0})
  transfer owner_id from_id to_id amount = exec_tx (transfer_tx owner_id from_id to_id amount)

  -- The body of `CreateFundedCustomer`.
  -- The deposit of the opening balance, and the result.
  abbrev pub fund : D.Decimal → User → Account → Tx FundedCustomer
  fund opening_balance user account =
      deposit_tx account.id opening_balance
      >> pure (record {
        user_id = user.id;
        user_email = user.email;
        account_id = account.id;
        account_iban = account.iban;
      })

  abbrev pub open_funded : Text → D.Decimal → User → Tx FundedCustomer
  open_funded iban opening_balance user =
      create_account (current_account user.id iban) >>= fund opening_balance user

  unfoldable pub create_funded_tx : NewCustomer → Text → D.Decimal → Tx FundedCustomer
  create_funded_tx input iban opening_balance =
      identity_user input >>= open_funded iban opening_balance

  unfoldable pub create_funded_customer : NewCustomer → Text → D.Decimal → Tx FundedCustomer
  create_funded_customer input iban opening_balance =
      exec_tx (create_funded_tx input iban opening_balance)

  unfoldable pub reconcile_account : ℕ → Tx Bool
  reconcile_account account_id = do
    account ← wrap_error "account not found" (get_account account_id)
    column ← wrap_error "failed to calculate balance" (get_account_balance account_id)
    calculated ← lift (or_error (D.from_numeric column) "invalid calculated balance")
    stored ← lift (or_error (D.from_numeric account.balance) "invalid stored balance")
    fail_if (not (D.equal stored calculated)) (Error.plain "balance mismatch")
    pure true

  -- The adapter as the port that the ledger service uses.
  unfoldable pub ledger_repository : Repository D
  ledger_repository = record {
    create_funded_customer = create_funded_customer;
    deposit = deposit;
    withdraw = withdraw;
    adjust_balance_as_admin = adjust_balance_as_admin;
    transfer = transfer;
    reconcile_account = reconcile_account;
  }
