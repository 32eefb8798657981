-- ===== src/Database/LedgerRepository/Withdraw.antt =====
-- A withdrawal moves its amount from the customer's account to the settlement account.
use banking_go.Prelude.{
  ℕ, suc, ◌≡◌, ◌≢◌, refl, ap, false, none, some, ◌∷◌, ◌++◌, inl, inr, codes, pos, ◌≤ℤ◌, arith,
  Option-cases,
}
use banking_go.Errors.{ok}
use banking_go.Decimal.{Decimals, DecimalLaws}
use banking_go.Database.Tables.{Account, Entry, Database}
use banking_go.Database.Tx.{Env, World, query, new_uuid, uuid_string}
use banking_go.Database.Queries.Accounts.{
  find_account, find_settlement, add_balance, get_account_for_update,
  get_settlement_account_for_update, update_account_balance,
}
use banking_go.Database.Queries.Entries.{plain_entry, create_entry, insert_entry}
use banking_go.Database.Ledger.Balances.{find_settlement_row}
use banking_go.Database.Ledger.Moved.{Moved, LedgerValid}
use banking_go.Database.LedgerRepository.Columns.{credit_gain, debit_gain}
use banking_go.Database.LedgerRepository.{withdraw_tx, valid_string}

module _ (D : Decimals) (env : Env) (account_id : ℕ) (amount : D.Decimal) (w : World) where
  withdraw_entry : Entry
  withdraw_entry = plain_entry (record {
    account_id = account_id;
    debit = D.numeric amount;
    credit = D.numeric D.zero_decimal;
    transaction_id = env.ids (suc (suc w.tick));
    operation_type = codes "withdrawal";
    description = valid_string (codes "External withdrawal");
  })

  settlement_entry : Account → Entry
  settlement_entry settlement = plain_entry (record {
    account_id = settlement.id;
    debit = D.numeric D.zero_decimal;
    credit = D.numeric amount;
    transaction_id = env.ids (suc (suc w.tick));
    operation_type = codes "withdrawal";
    description = valid_string (codes "Withdrawal from " ++ env.uuid_text account_id);
  })

  module _ {w' : World} (h : withdraw_tx D account_id amount env w ≡ (ok tt, w')) where
    settlement_exists : find_settlement w.db.accounts ≢ none
    unfolding withdraw_tx query get_settlement_account_for_update
    settlement_exists e = ground arith

    account_exists : find_account account_id w.db.accounts ≢ none
    unfolding withdraw_tx query get_settlement_account_for_update get_account_for_update
    account_exists e = ground arith

    module _ {settlement account : Account} (s : find_settlement w.db.accounts ≡ some settlement)
        (a : find_account account_id w.db.accounts ≡ some account) where
      withdrawn : w'.db ≡ record w.db {
        accounts =
            add_balance settlement.id
              (D.numeric amount)
              (add_balance account_id (D.numeric (D.neg amount)) w.db.accounts);
        entries = settlement_entry settlement ∷ withdraw_entry ∷ w.db.entries;
      }
      unfolding withdraw_tx query new_uuid uuid_string get_settlement_account_for_update
          get_account_for_update create_entry insert_entry update_account_balance withdraw_entry
          settlement_entry
      withdrawn = ground arith

      checked :
          (account.is_system ≡ false)
          × (D.numeric D.zero_decimal ≡ pos 0 → pos 1 ≤ℤ D.numeric amount)
      unfolding withdraw_tx query new_uuid uuid_string get_settlement_account_for_update
          get_account_for_update create_entry insert_entry
      checked = (ground arith, λ z. ground arith)

      -- The balance was read, and it is not less than the amount.
      sufficient :
          (held : D.Decimal) × (D.from_numeric account.balance ≡ some held)
          × (D.less_than held amount ≡ false)
      sufficient = elim (Option-cases (D.from_numeric account.balance)) [
        | inl unread ↦ absurd (unreadable unread)
        | inr (held, reads) ↦ (held, reads, enough held reads)
      ]
        where
          unreadable : D.from_numeric account.balance ≢ none
          unreadable e =
              unfold withdraw_tx query new_uuid uuid_string get_settlement_account_for_update
                get_account_for_update in
              ground arith

          enough :
              (held : D.Decimal)
              → D.from_numeric account.balance ≡ some held
              → D.less_than held amount ≡ false
          enough held e =
              unfold withdraw_tx query new_uuid uuid_string get_settlement_account_for_update
                get_account_for_update in
              ground arith

-- A withdrawal that succeeds on a valid ledger is a movement of the amount from the account,
-- which covers it unless it is a system account, to the settlement account, which exists.
pub withdraw_tx-Moved :
    (D : Decimals) (L : DecimalLaws D) (env : Env) (account_id : ℕ) (amount : D.Decimal) (w : World)
    {w' : World}
    → LedgerValid w.db
    → withdraw_tx D account_id amount env w ≡ (ok tt, w')
    → (settlement : Account) × (find_settlement w.db.accounts ≡ some settlement)
      × Moved w.db w'.db account_id settlement.id (D.numeric amount)
unfolding withdraw_entry settlement_entry
withdraw_tx-Moved D L env account_id amount w {w'} v h =
    elim (Option-cases (find_settlement w.db.accounts)) [
      | inl gone ↦ absurd (settlement_exists D env account_id amount w h gone)
      | inr (settlement, s) ↦ elim (Option-cases (find_account account_id w.db.accounts)) [
        | inl gone ↦ absurd (account_exists D env account_id amount w h gone)
        | inr (account, a) ↦
            (let (customer, positive) = checked D env account_id amount w h s a in
              let (row, system) = find_settlement_row w.db.accounts v.unique s in
              let after = withdrawn D env account_id amount w h s a in
              let (held, reads, enough) = sufficient D env account_id amount w h s a in
              (
                settlement,
                s,
                record {
                  first = withdraw_entry D env account_id amount w;
                  second = settlement_entry D env account_id amount w settlement;
                  entry = record {
                    one_transaction = refl;
                    debit_mirrored = refl;
                    credit_mirrored = refl;
                    accounts = cc (
                      ap (λ (db : Database). db.accounts) after,
                      credit_gain D L amount,
                      debit_gain D L amount,
                    );
                    entries = ap (λ (db : Database). db.entries) after;
                  };
                  sides = inl ((refl, refl, L.numeric-zero), (refl, refl, L.numeric-zero));
                  positive = positive L.numeric-zero;
                  distinct = λ e. ground arith;
                  from_row = account;
                  from_found = a;
                  to_row = settlement;
                  to_found = row;
                  covered = λ _.
                      rw (← L.from_numeric_exact account.balance held reads)
                        (L.numeric_mono held amount enough);
                },
              ))
      ]
    ]
