-- ===== src/Database/LedgerRepository/Keeps.antt =====
-- Every operation of the repository keeps what the ledger promises, whatever its outcome.
use mathlib.Core.Path.{subst, subst₂}
use banking_go.Prelude.{ℕ, List, ◌≡◌, sym, arith, ◌==◌, Text, codes, text_eq}
use banking_go.Errors.{ok}
use banking_go.Decimal.{Decimals, DecimalLaws}
use banking_go.Ledger.Service.{Call, perform_all}
use banking_go.Ledger.Service.History.{perform_all-Keeps}
use banking_go.Ledger.Port.{NewCustomer, RepositoryKeeps}
use banking_go.Database.Tables.{User, Database}
use banking_go.Database.Tx.{Env, World, query, new_uuid}
use banking_go.Database.Tx.Keeps.{
  OkKeeps, exec_tx-Keeps, OkKeeps-query, OkKeeps-pure, OkKeeps-if, OkKeeps-bind,
}
use banking_go.Database.Queries.Accounts.{
  get_account, create_account, CreateAccountParams, get_account_balance,
}
use banking_go.Database.Queries.Users.{create_user, insert_user, record_admin_audit}
use banking_go.Database.Ledger.Moved.{LedgerValid, Moved-LedgerValid}
use banking_go.Database.Ledger.Accounts.{insert_account-LedgerValid}
use banking_go.Database.LedgerRepository.{
  deposit_tx, deposit, withdraw_tx, withdraw, adjust_balance_tx, adjust_balance_as_admin,
  transfer_tx, transfer, identity_user, create_funded_tx, create_funded_customer, reconcile_account,
  ledger_repository,
}
use banking_go.Database.LedgerRepository.Deposit.{deposit_tx-Moved}
use banking_go.Database.LedgerRepository.Withdraw.{withdraw_tx-Moved}
use banking_go.Database.LedgerRepository.Transfer.{transfer_tx-Moved}

-- An insert into `users` leaves accounts and entries alone.
insert_user_ledger :
    (u : User) (db : Database)
    → ((insert_user u db).1.accounts ≡ db.accounts) × ((insert_user u db).1.entries ≡ db.entries)
unfolding insert_user
insert_user_ledger u db = (ground arith, ground arith)

module _ (D : Decimals) (L : DecimalLaws D) where
  pub deposit_tx-OkKeeps :
      (id : ℕ) (amount : D.Decimal) → OkKeeps LedgerValid (deposit_tx D id amount)
  deposit_tx-OkKeeps id amount = record {
    at = λ env w _ w' v h. Moved-LedgerValid (deposit_tx-Moved D L env id amount w v h).2 v;
  }

  withdraw_tx-OkKeeps :
      (id : ℕ) (amount : D.Decimal) → OkKeeps LedgerValid (withdraw_tx D id amount)
  withdraw_tx-OkKeeps id amount = record {
    at = λ env w _ w' v h. Moved-LedgerValid (withdraw_tx-Moved D L env id amount w v h).2 v;
  }

  transfer_tx-OkKeeps :
      (owner_id from_id to_id : ℕ) (amount : D.Decimal)
      → OkKeeps LedgerValid (transfer_tx D owner_id from_id to_id amount)
  transfer_tx-OkKeeps o i j amount = record {
    at = λ env w _ w' v h. Moved-LedgerValid (transfer_tx-Moved D L env o i j amount w v h).0 v;
  }

  get_account-OkKeeps : (id : ℕ) → OkKeeps LedgerValid (get_account id)
  unfolding get_account
  get_account-OkKeeps id = OkKeeps-query _ (λ db v. v)

  adjust_tx-OkKeeps :
      (actor_id id : ℕ) (operation : Text) (amount : D.Decimal) (request_id : Text)
      → OkKeeps LedgerValid (adjust_balance_tx D actor_id id operation amount request_id)
  unfolding adjust_balance_tx record_admin_audit
  adjust_tx-OkKeeps actor_id id operation amount request_id =
      OkKeeps-bind (get_account id) _ (get_account-OkKeeps id) (λ before.
        OkKeeps-bind _ _
          (OkKeeps-if (text_eq operation (codes "DEPOSIT")) (deposit_tx D id amount)
            (withdraw_tx D id amount) (deposit_tx-OkKeeps id amount)
            (withdraw_tx-OkKeeps id amount))
          (λ _. OkKeeps-bind (get_account id) _ (get_account-OkKeeps id) (λ after.
            OkKeeps-query _ (λ db v. record {
              unique = v.unique;
              reconciled = v.reconciled;
              solvent = v.solvent;
              balanced = v.balanced;
              grounded = v.grounded;
              closed = v.closed;
            }))))

  new_uuid-OkKeeps : OkKeeps LedgerValid new_uuid
  unfolding new_uuid
  new_uuid-OkKeeps = record { at = λ env w a w' v e. subst LedgerValid (same env w a w' e) v }
    where
      same :
          (env : Env) (w : World) (a : ℕ) (w' : World) → new_uuid env w ≡ (ok a, w') → w.db ≡ w'.db
      same env w a w' e = ground arith

  insert_user-LedgerValid :
      (u : User) (db : Database) → LedgerValid db → LedgerValid (insert_user u db).1
  insert_user-LedgerValid u db v =
      let (same_accounts, same_entries) = insert_user_ledger u db in
      subst₂
        (λ accounts entries.
          LedgerValid (record (insert_user u db).1 { accounts = accounts; entries = entries }))
        (sym same_accounts) (sym same_entries)
        (record {
          unique = v.unique;
          reconciled = v.reconciled;
          solvent = v.solvent;
          balanced = v.balanced;
          grounded = v.grounded;
          closed = v.closed;
        })

  create_user-OkKeeps :
      (email hashed_password full_name : Text)
      → OkKeeps LedgerValid (create_user email hashed_password full_name)
  unfolding create_user
  create_user-OkKeeps email hashed_password full_name =
      OkKeeps-bind new_uuid _ new_uuid-OkKeeps (λ id. OkKeeps-query _ (insert_user-LedgerValid _))

  pub create_account-OkKeeps :
      (arg : CreateAccountParams) → OkKeeps LedgerValid (create_account arg)
  unfolding create_account
  create_account-OkKeeps arg =
      OkKeeps-bind new_uuid _ new_uuid-OkKeeps
        (λ id. OkKeeps-query _ (insert_account-LedgerValid id arg))

  pub identity_user-OkKeeps : (input : NewCustomer) → OkKeeps LedgerValid (identity_user input)
  identity_user-OkKeeps input =
      OkKeeps-if (input.identity_id == 0) _ _
        (create_user-OkKeeps input.email input.hashed_password input.full_name)
        (OkKeeps-query _ (insert_user-LedgerValid _))

  create_funded_tx-OkKeeps :
      (input : NewCustomer) (iban : Text) (opening : D.Decimal)
      → OkKeeps LedgerValid (create_funded_tx D input iban opening)
  unfolding create_funded_tx
  create_funded_tx-OkKeeps input iban opening =
      OkKeeps-bind (identity_user input) _ (identity_user-OkKeeps input) (λ user.
        OkKeeps-bind (create_account _) _ (create_account-OkKeeps _) (λ account.
          OkKeeps-bind (deposit_tx D account.id opening) _ (deposit_tx-OkKeeps account.id opening)
            (λ _. OkKeeps-pure _)))

  -- A reconciliation changes nothing.
  pub reconcile_unchanged :
      (id : ℕ) (env : Env) (w : World) → (reconcile_account D id env w).1.db ≡ w.db
  unfolding reconcile_account get_account get_account_balance query
  reconcile_unchanged id env w = ground arith

  -- The PostgreSQL adapter fills the port: whatever fails and whatever the decimal package and the
  -- server do, each operation keeps unique account numbers, balances that equal their entries,
  -- customers' balances of 0 or more, and transactions that debit what they credit.
  pub ledger_repository-Keeps : RepositoryKeeps D LedgerValid (ledger_repository D)
  unfolding ledger_repository deposit withdraw adjust_balance_as_admin transfer
      create_funded_customer
  ledger_repository-Keeps = record {
    create = λ input iban opening. exec_tx-Keeps _ (create_funded_tx-OkKeeps input iban opening);
    deposit = λ id amount. exec_tx-Keeps _ (deposit_tx-OkKeeps id amount);
    withdraw = λ id amount. exec_tx-Keeps _ (withdraw_tx-OkKeeps id amount);
    adjust = λ actor id operation amount request.
        exec_tx-Keeps _ (adjust_tx-OkKeeps actor id operation amount request);
    transfer = λ o i j amount. exec_tx-Keeps _ (transfer_tx-OkKeeps o i j amount);
    reconcile = λ id env w v. subst LedgerValid (sym (reconcile_unchanged id env w)) v;
  }

  -- Over the PostgreSQL adapter and with the laws of the decimal package, any history of service
  -- calls on a valid ledger, whatever fails in it, leaves a valid ledger: no account number
  -- twice, stored and available balances that equal the sums of their entries, customers'
  -- balances of 0 or more, every transaction's debits equal to its credits, nothing booked on an
  -- unknown account, and all balances together 0.
  pub ledger_history-LedgerValid :
      (calls : List (Call × Env)) (w : World)
      → LedgerValid w.db
      → LedgerValid (perform_all D (ledger_repository D) calls w).db
  ledger_history-LedgerValid calls w v =
      perform_all-Keeps D LedgerValid (ledger_repository D) ledger_repository-Keeps calls w v
