-- ===== src/Database/LedgerRepository/Reconcile.antt =====
-- A reconciliation that succeeds proves the stored balance; on a valid ledger it does not fail by
-- itself.
use banking_go.Prelude.{
  ℕ, suc, ◌≡◌, ◌≢◌, sym, ap, ◌∙◌, Bool, true, inl, inr, Option-cases, some, none, arith,
}
use banking_go.Errors.{ok}
use banking_go.Decimal.{Decimals, DecimalLaws}
use banking_go.Database.Tables.{Account}
use banking_go.Database.Tx.{Env, World, aborted, query}
use banking_go.Database.Queries.Accounts.{
  find_account, calculated_balance, get_account, get_account_balance,
}
use banking_go.Database.Ledger.Moved.{LedgerValid}
use banking_go.Database.LedgerRepository.{reconcile_account}

module _ (D : Decimals) (L : DecimalLaws D) (id : ℕ) (env : Env) (w : World) where
  module _ {b : Bool} {w' : World} (h : reconcile_account D id env w ≡ (ok b, w')) where
    account_exists : find_account id w.db.accounts ≢ none
    unfolding reconcile_account get_account query
    account_exists e = ground arith

    module _ {a : Account} (found : find_account id w.db.accounts ≡ some a) where
      column_reads : D.from_numeric (calculated_balance id w.db.entries) ≢ none
      unfolding reconcile_account get_account get_account_balance query
      column_reads e = ground arith

      stored_reads : D.from_numeric a.balance ≢ none
      unfolding reconcile_account get_account get_account_balance query
      stored_reads e = ground arith

      equal_read :
          {c s : D.Decimal}
          → D.from_numeric (calculated_balance id w.db.entries) ≡ some c
          → D.from_numeric a.balance ≡ some s
          → (D.equal s c ≡ true) × (b ≡ true)
      unfolding reconcile_account get_account get_account_balance query
      equal_read ec es = (ground arith, ground arith)

    -- A reconciliation that succeeds returns true, the account exists, and its stored balance is
    -- what its entries add up to.
    pub reconcile_account_sound :
        (b ≡ true)
        × (a : Account) × (find_account id w.db.accounts ≡ some a)
        × (a.balance ≡ calculated_balance id w.db.entries)
    reconcile_account_sound = elim (Option-cases (find_account id w.db.accounts)) [
      | inl gone ↦ absurd (account_exists gone)
      | inr (a, found) ↦ elim (Option-cases (D.from_numeric a.balance)) [
        | inl unread ↦ absurd (stored_reads found unread)
        | inr (s, es) ↦ elim (Option-cases (D.from_numeric (calculated_balance id w.db.entries))) [
          | inl unread ↦ absurd (column_reads found unread)
          | inr (c, ec) ↦
              (let (same, returned) = equal_read found ec es in
                (
                  returned,
                  a,
                  found,
                  sym (L.from_numeric_exact a.balance s es)
                      ∙ L.numeric-equal s c same
                      ∙ L.from_numeric_exact (calculated_balance id w.db.entries) c ec,
                ))
        ]
      ]
    ]

  -- On a valid ledger, the reconciliation of an account with a readable balance returns true,
  -- where no transaction is aborted and neither of its statements fails.
  pub reconcile_account_complete :
      {a : Account} {s : D.Decimal}
      → LedgerValid w.db
      → find_account id w.db.accounts ≡ some a
      → D.from_numeric a.balance ≡ some s
      → w.mode ≢ aborted
      → env.faults w.tick ≡ none
      → env.faults (suc w.tick) ≡ none
      → (reconcile_account D id env w).0 ≡ ok true
  unfolding reconcile_account get_account get_account_balance query
  reconcile_account_complete {a} {s} v found reads live one two =
      let (stored, _) = v.reconciled id a found in
      let column : D.from_numeric (calculated_balance id w.db.entries) ≡ some s =
        ap D.from_numeric (sym stored) ∙ reads in
      ground (arith, L.equal_self s)
