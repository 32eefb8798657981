-- ===== src/Database/LedgerRepository/Transfer.antt =====
-- A transfer moves its amount between two accounts of the owner.
use mathlib.Core.Path.{subst}
use banking_go.Prelude.{
  ℕ, suc, ◌≡◌, ◌≢◌, refl, sym, ap, ◌∙◌, Bool, true, false, not, ◌&&◌, none, some, List, [], ◌∷◌,
  ◌++◌, inl, inr, codes, text_eq, pos, ◌≤ℤ◌, arith, All, Option-cases,
}
use banking_go.Errors.{Result, ok, err, Error}
use banking_go.Decimal.{Decimals, DecimalLaws}
use banking_go.Account.Ownership.{customer_can_operate}
use banking_go.Ledger.Posting.{
  Posting, planned, plan_customer_transfer, plan_customer_transfer_sound, Permitted, TransferPolicy,
}
use banking_go.Database.Tables.{Account, Entry, Database}
use banking_go.Database.Tx.{Env, World, query, new_uuid, uuid_string}
use banking_go.Database.Queries.Accounts.{
  find_account, select_two, add_balance, list_accounts_for_update, update_account_balance,
}
use banking_go.Database.Queries.Accounts.Rows.{IsRow, select_two-IsRow}
use banking_go.Database.Queries.Entries.{plain_entry, create_entry, insert_entry}
use banking_go.Database.Ledger.Moved.{Moved, LedgerValid}
use banking_go.Database.LedgerRepository.Columns.{credit_gain, debit_gain}
use banking_go.Database.LedgerRepository.{
  transfer_tx, post_transfer, valid_string, account_by_id, both_accounts, source_snapshot,
  destination_snapshot,
}

-- An active account of the map is the row of its number.
pub active_row :
    (accounts : List Account) (a b : Account) (id : ℕ)
    → IsRow accounts a
    → IsRow accounts b
    → text_eq (account_by_id a b id).status (codes "ACTIVE") ≡ true
    → (find_account id accounts ≡ some (account_by_id a b id)) × ((account_by_id a b id).id ≡ id)
unfolding text_eq
active_row accounts a b id ra rb h = ground arith

pub both_accounts_ok :
    (rows : List Account) {a b : Account} → both_accounts rows ≡ ok (a, b) → rows ≡ a ∷ b ∷ []
both_accounts_ok [] h = ground arith
both_accounts_ok (x ∷ []) h = ground arith
both_accounts_ok (x ∷ y ∷ []) h = ground arith
both_accounts_ok (x ∷ y ∷ z ∷ rows) h = ground arith

must_own : {b : Bool} → (true && not b) ≡ false → b ≡ true
must_own {b} h = ground arith

abbrev own_accounts : TransferPolicy
own_accounts = record { require_destination_ownership = true; allow_system_destination = false }

module _ (D : Decimals) (env : Env) (owner_id from_id to_id : ℕ) (amount : D.Decimal)
    (w : World) where
  debit_entry : Account → Entry
  debit_entry source = plain_entry (record {
    account_id = source.id;
    debit = D.numeric amount;
    credit = D.numeric D.zero_decimal;
    transaction_id = env.ids (suc w.tick);
    operation_type = codes "transfer";
    description = valid_string (codes "Transfer to " ++ env.uuid_text to_id);
  })

  credit_entry : Account → Entry
  credit_entry destination = plain_entry (record {
    account_id = destination.id;
    debit = D.numeric D.zero_decimal;
    credit = D.numeric amount;
    transaction_id = env.ids (suc w.tick);
    operation_type = codes "transfer";
    description = valid_string (codes "Transfer from " ++ env.uuid_text from_id);
  })

  module _ {w' : World} (h : transfer_tx D owner_id from_id to_id amount env w ≡ (ok tt, w')) where
    -- Two rows were found.
    two_rows :
        (rows : List Account)
        → select_two from_id to_id w.db.accounts ≡ rows
        → (a b : Account) × (select_two from_id to_id w.db.accounts ≡ a ∷ b ∷ [])
    unfolding transfer_tx list_accounts_for_update query
    two_rows [] e = absurd (ground arith)
    two_rows (x ∷ []) e = absurd (ground arith)
    two_rows (x ∷ y ∷ []) e = (x, y, e)
    two_rows (x ∷ y ∷ z ∷ rows) e = absurd (ground arith)

    module _ {a b : Account} (rows : select_two from_id to_id w.db.accounts ≡ a ∷ b ∷ []) where
      read_balance :
          (available : D.Decimal) × (D.from_numeric (account_by_id a b from_id).balance
            ≡ some available)
      read_balance = elim (Option-cases (D.from_numeric (account_by_id a b from_id).balance)) [
        | inl unread ↦ absurd (unreadable unread)
        | inr read ↦ read
      ]
        where
          unreadable : D.from_numeric (account_by_id a b from_id).balance ≢ none
          unreadable e = unfold transfer_tx list_accounts_for_update query in ground arith

      module _ {available : D.Decimal}
          (reads : D.from_numeric (account_by_id a b from_id).balance ≡ some available) where
        abbrev plan : Result (Posting D)
        plan =
            plan_customer_transfer D owner_id
              (source_snapshot D (account_by_id a b from_id) available)
              (destination_snapshot D (account_by_id a b to_id)) amount own_accounts

        abbrev intended : Posting D
        intended =
            planned D (source_snapshot D (account_by_id a b from_id) available)
              (destination_snapshot D (account_by_id a b to_id)) amount

        refused_plan : (e : Error) → plan ≢ err e
        unfolding transfer_tx list_accounts_for_update query
        refused_plan e p = ground arith

        plan_made : (r : Result (Posting D)) → plan ≡ r → (p : Posting D) × (plan ≡ ok p)
        plan_made (ok p) e = (p, e)
        plan_made (err x) e = absurd (refused_plan x e)

        permitted :
            Permitted D owner_id
              (source_snapshot D (account_by_id a b from_id) available)
              (destination_snapshot D (account_by_id a b to_id))
              amount
              own_accounts
            × (plan ≡ ok intended)
        permitted =
            let (p, made) = plan_made plan refl in
            let (allowed, same) =
              plan_customer_transfer_sound D owner_id
                (source_snapshot D (account_by_id a b from_id) available)
                (destination_snapshot D (account_by_id a b to_id)) amount own_accounts made in
            (allowed, made ∙ ap ok same)

        posted :
            plan ≡ ok intended
            → w'.db ≡ record w.db {
              accounts = add_balance (account_by_id a b to_id).id (D.numeric amount) (
                  add_balance
                    (account_by_id a b from_id).id
                    (D.numeric (D.neg amount))
                    w.db.accounts);
              entries =
                  credit_entry (account_by_id a b to_id)
                  ∷ debit_entry (account_by_id a b from_id)
                  ∷ w.db.entries;
            }
        unfolding transfer_tx list_accounts_for_update query post_transfer new_uuid uuid_string
            create_entry insert_entry update_account_balance debit_entry credit_entry
        posted p = ground arith

        single : plan ≡ ok intended → D.numeric D.zero_decimal ≡ pos 0 → pos 1 ≤ℤ D.numeric amount
        unfolding transfer_tx list_accounts_for_update query post_transfer new_uuid uuid_string
            create_entry insert_entry
        single p z = ground arith

-- A transfer that succeeds on a valid ledger is a movement of the amount from the first account
-- to the second: a positive amount, covered by the first account, by two mirrored entries of one
-- transaction and the updates of the two balances; and the requester may operate both accounts.
pub transfer_tx-Moved :
    (D : Decimals) (L : DecimalLaws D) (env : Env) (owner_id from_id to_id : ℕ) (amount : D.Decimal)
    (w : World) {w' : World}
    → LedgerValid w.db
    → transfer_tx D owner_id from_id to_id amount env w ≡ (ok tt, w')
    → (m : Moved w.db w'.db from_id to_id (D.numeric amount)) × (customer_can_operate owner_id
          m.from_row.owner_id.uuid m.from_row.owner_id.valid m.from_row.is_system
        ≡ true)
      × (customer_can_operate owner_id m.to_row.owner_id.uuid m.to_row.owner_id.valid
            m.to_row.is_system
          ≡ true)
unfolding debit_entry credit_entry
transfer_tx-Moved D L env owner_id from_id to_id amount w v h =
    let (a, b, rows) =
      two_rows D env owner_id from_id to_id amount w h (select_two from_id to_id w.db.accounts)
        refl in
    let (available, reads) = read_balance D env owner_id from_id to_id amount w h rows in
    let (allowed, plan) = permitted D env owner_id from_id to_id amount w h rows reads in
    let after = posted D env owner_id from_id to_id amount w h rows reads plan in
    let found : All (IsRow w.db.accounts) (a ∷ b ∷ []) =
      subst (All (IsRow w.db.accounts)) rows
        (select_two-IsRow from_id to_id w.db.accounts v.unique) in
    let (from_found, from_same) =
      active_row w.db.accounts a b from_id found.0 found.1.0 allowed.active in
    let (to_found, to_same) =
      active_row w.db.accounts a b to_id found.0 found.1.0 allowed.active_destination in
    (
      record {
        first = debit_entry D env owner_id from_id to_id amount w (account_by_id a b from_id);
        second = credit_entry D env owner_id from_id to_id amount w (account_by_id a b to_id);
        entry = record {
          one_transaction = refl;
          debit_mirrored = refl;
          credit_mirrored = refl;
          accounts = cc (
            ap (λ (db : Database). db.accounts) after,
            credit_gain D L amount,
            debit_gain D L amount,
          );
          entries = ap (λ (db : Database). db.entries) after;
        };
        sides = inl ((from_same, refl, L.numeric-zero), (to_same, refl, L.numeric-zero));
        positive = single D env owner_id from_id to_id amount w h rows reads plan L.numeric-zero;
        distinct = λ e. allowed.distinct (from_same ∙ e ∙ sym to_same);
        from_row = account_by_id a b from_id;
        from_found = from_found;
        to_row = account_by_id a b to_id;
        to_found = to_found;
        covered = λ _.
            rw (← L.from_numeric_exact (account_by_id a b from_id).balance available reads)
              (L.numeric_mono available amount allowed.covered);
      },
      allowed.owned,
      must_own allowed.owned_destination,
    )
