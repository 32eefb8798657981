-- ===== src/Database/LedgerRepository/Deposit.antt =====
-- A deposit moves its amount from the settlement account to the customer's.
use banking_go.Prelude.{
  ℕ, suc, ◌≡◌, ◌≢◌, refl, ap, false, none, some, ◌∷◌, ◌++◌, inl, inr, codes, pos, ◌≤ℤ◌, arith,
  Option-cases,
}
use banking_go.Errors.{ok}
use banking_go.Decimal.{Decimals, DecimalLaws}
use banking_go.Database.Tables.{Account, Entry, Database}
use banking_go.Database.Tx.{Env, World, query, new_uuid, uuid_string}
use banking_go.Database.Queries.Accounts.{
  find_account, find_settlement, add_balance, get_account_for_update,
  get_settlement_account_for_update, update_account_balance,
}
use banking_go.Database.Queries.Entries.{plain_entry, create_entry, insert_entry}
use banking_go.Database.Ledger.Balances.{find_settlement_row}
use banking_go.Database.Ledger.Moved.{Moved, LedgerValid}
use banking_go.Database.LedgerRepository.Columns.{credit_gain, debit_gain}
use banking_go.Database.LedgerRepository.{deposit_tx, valid_string}

module _ (D : Decimals) (env : Env) (account_id : ℕ) (amount : D.Decimal) (w : World) where
  deposit_entry : Entry
  deposit_entry = plain_entry (record {
    account_id = account_id;
    debit = D.numeric D.zero_decimal;
    credit = D.numeric amount;
    transaction_id = env.ids (suc (suc w.tick));
    operation_type = codes "deposit";
    description = valid_string (codes "External deposit");
  })

  settlement_entry : Account → Entry
  settlement_entry settlement = plain_entry (record {
    account_id = settlement.id;
    debit = D.numeric amount;
    credit = D.numeric D.zero_decimal;
    transaction_id = env.ids (suc (suc w.tick));
    operation_type = codes "deposit";
    description = valid_string (codes "Deposit to account " ++ env.uuid_text account_id);
  })

  module _ {w' : World} (h : deposit_tx D account_id amount env w ≡ (ok tt, w')) where
    settlement_exists : find_settlement w.db.accounts ≢ none
    unfolding deposit_tx query get_settlement_account_for_update
    settlement_exists e = ground arith

    account_exists : find_account account_id w.db.accounts ≢ none
    unfolding deposit_tx query get_settlement_account_for_update get_account_for_update
    account_exists e = ground arith

    module _ {settlement account : Account} (s : find_settlement w.db.accounts ≡ some settlement)
        (a : find_account account_id w.db.accounts ≡ some account) where
      deposited : w'.db ≡ record w.db {
        accounts =
            add_balance settlement.id
              (D.numeric (D.neg amount))
              (add_balance account_id (D.numeric amount) w.db.accounts);
        entries = settlement_entry settlement ∷ deposit_entry ∷ w.db.entries;
      }
      unfolding deposit_tx query new_uuid uuid_string get_settlement_account_for_update
          get_account_for_update create_entry insert_entry update_account_balance deposit_entry
          settlement_entry
      deposited = ground arith

      checked :
          (account.is_system ≡ false)
          × (D.numeric D.zero_decimal ≡ pos 0 → pos 1 ≤ℤ D.numeric amount)
      unfolding deposit_tx query new_uuid uuid_string get_settlement_account_for_update
          get_account_for_update create_entry insert_entry
      checked = (ground arith, λ z. ground arith)

-- A deposit that succeeds on a valid ledger is a movement of the amount from the settlement
-- account, which exists, to the account.
pub deposit_tx-Moved :
    (D : Decimals) (L : DecimalLaws D) (env : Env) (account_id : ℕ) (amount : D.Decimal) (w : World)
    {w' : World}
    → LedgerValid w.db
    → deposit_tx D account_id amount env w ≡ (ok tt, w')
    → (settlement : Account) × (find_settlement w.db.accounts ≡ some settlement)
      × Moved w.db w'.db settlement.id account_id (D.numeric amount)
unfolding deposit_entry settlement_entry
deposit_tx-Moved D L env account_id amount w {w'} v h =
    elim (Option-cases (find_settlement w.db.accounts)) [
      | inl gone ↦ absurd (settlement_exists D env account_id amount w h gone)
      | inr (settlement, s) ↦ elim (Option-cases (find_account account_id w.db.accounts)) [
        | inl gone ↦ absurd (account_exists D env account_id amount w h gone)
        | inr (account, a) ↦
            (let (customer, positive) = checked D env account_id amount w h s a in
              let (row, system) = find_settlement_row w.db.accounts v.unique s in
              let after = deposited D env account_id amount w h s a in
              (
                settlement,
                s,
                record {
                  first = deposit_entry D env account_id amount w;
                  second = settlement_entry D env account_id amount w settlement;
                  entry = record {
                    one_transaction = refl;
                    debit_mirrored = refl;
                    credit_mirrored = refl;
                    accounts = cc (
                      ap (λ (db : Database). db.accounts) after,
                      credit_gain D L amount,
                      debit_gain D L amount,
                    );
                    entries = ap (λ (db : Database). db.entries) after;
                  };
                  sides = inr ((refl, refl, L.numeric-zero), (refl, refl, L.numeric-zero));
                  positive = positive L.numeric-zero;
                  distinct = λ e. ground arith;
                  from_row = settlement;
                  from_found = row;
                  to_row = account;
                  to_found = a;
                  covered = λ e. ground arith;
                },
              ))
      ]
    ]
