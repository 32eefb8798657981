-- ===== src/Database/Ledger/Accounts.antt =====
-- Opening an account keeps what the ledger promises.
use mathlib.Core.Path.{subst}
use banking_go.Prelude.{
  ℕ, ◌≡◌, sym, ◌⊎◌, none, ◌∷◌, inl, inr, ℤ, pos, arith, int_laws, ◌+ℤ◌, ◌∙◌, Bool-cases,
  Option-cases,
}
use banking_go.Database.Tables.{Database}
use banking_go.Database.Queries.Accounts.{
  find_account, iban_taken, insert_account, new_account, CreateAccountParams,
}
use banking_go.Database.Ledger.{total_balance}
use banking_go.Database.Ledger.Moved.{LedgerValid}

zero_more : (t : ℤ) → pos 0 +ℤ t ≡ t
zero_more t = omega int_laws

module _ (id : ℕ) (arg : CreateAccountParams) (db : Database) where
  opened : Database
  opened = record db { accounts = new_account id arg ∷ db.accounts }

  opened-LedgerValid : find_account id db.accounts ≡ none → LedgerValid db → LedgerValid opened
  unfolding opened find_account total_balance
  opened-LedgerValid new v = record {
    unique = (new, v.unique);
    reconciled = λ j a e. ground (arith, v.reconciled j a, v.grounded j);
    solvent = λ j a e customer. ground (arith, v.solvent j a);
    balanced = v.balanced;
    grounded = λ j e. ground (arith, v.grounded j);
    closed = zero_more (total_balance db.accounts) ∙ v.closed;
  }

  -- An insert adds a row with a new number, or changes nothing.
  inserted :
      ((insert_account id arg db).1 ≡ db)
      ⊎ (((insert_account id arg db).1 ≡ opened) × (find_account id db.accounts ≡ none))
  unfolding insert_account opened
  inserted = elim (Option-cases (find_account id db.accounts)) [
    | inr (a, e) ↦ inl (ground arith)
    | inl new ↦ elim (Bool-cases (iban_taken arg.iban db.accounts)) [
      | inl taken ↦ inl (ground arith)
      | inr free ↦ inr (ground arith, new)
    ]
  ]

  -- The insert of an account into a valid ledger, accepted or refused by the constraints, leaves
  -- a valid ledger.
  pub insert_account-LedgerValid : LedgerValid db → LedgerValid (insert_account id arg db).1
  insert_account-LedgerValid v = elim inserted [
    | inl same ↦ subst LedgerValid (sym same) v
    | inr (grown, new) ↦ subst LedgerValid (sym grown) (opened-LedgerValid new v)
  ]
