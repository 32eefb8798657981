-- ===== src/Database/Ledger/Valid.antt =====
-- A double entry keeps what the ledger promises.
use banking_go.Prelude.{
  ℕ, ◌≡◌, ◌≢◌, ap, ◌∙◌, none, some, List, ◌∷◌, ◌==◌, inl, inr, ℤ, pos, ◌+ℤ◌, ◌-ℤ◌, arith, int_laws,
  +ℤ_zero, if◌then◌else◌, Bool-cases, Option-cases,
}
use banking_go.Database.Tables.{Account, Entry, Database}
use banking_go.Database.Queries.Accounts.{
  find_account, add_balance, credits, debits, calculated_balance,
}
use banking_go.Database.Ledger.{
  UniqueIds, total_balance, transaction_debits, transaction_credits, gain, DoubleEntry, Reconciled,
  BalancedTransactions, Grounded,
}
use banking_go.Database.Ledger.Balances.{
  credit_if, find_account-add_balance, add_balance-UniqueIds, total-add_balance,
}

-- One entry more changes the calculated balance of its account by its gain.
calculated-cons :
    (id : ℕ) (e : Entry) (entries : List Entry)
    → calculated_balance id (e ∷ entries)
      ≡ calculated_balance id entries +ℤ (if id == e.account_id then gain e else pos 0)
unfolding calculated_balance credits debits
calculated-cons id e entries = elim (Bool-cases (id == e.account_id)) [
  | inl here ↦ rw here (omega int_laws)
  | inr there ↦ rw there (omega int_laws)
]

kept :
    (j id : ℕ) (x : ℤ) (accounts : List Account)
    → find_account j accounts ≢ none
    → find_account j (add_balance id x accounts) ≢ none
kept j id x accounts h = ground (arith, find_account-add_balance j id x accounts)

left_comm : (a b c : ℤ) → a +ℤ (b +ℤ c) ≡ b +ℤ (a +ℤ c)
left_comm a b c = omega int_laws

gains_cancel : (v a b : ℤ) → v +ℤ (a -ℤ b) +ℤ (b -ℤ a) ≡ v
gains_cancel v a b = omega int_laws

module _ (before after : Database) (first second : Entry)
    (d : DoubleEntry before after first second) where
  found_after :
      (id : ℕ)
      → find_account id after.accounts
        ≡ credit_if
            (id == second.account_id)
            (gain second)
            (credit_if (id == first.account_id) (gain first) (find_account id before.accounts))
  found_after id =
      ap (find_account id) d.accounts
      ∙ find_account-add_balance id second.account_id (gain second)
          (add_balance first.account_id (gain first) before.accounts)
      ∙ ap (credit_if (id == second.account_id) (gain second))
          (find_account-add_balance id first.account_id (gain first) before.accounts)

  -- No row appears.
  pub row_before :
      (id : ℕ) (b : Account)
      → find_account id after.accounts ≡ some b
      → (a : Account) × (find_account id before.accounts ≡ some a)
  row_before id b found' = elim (Option-cases (find_account id before.accounts)) [
    | inl gone ↦ absurd (ground (arith, found_after id))
    | inr found ↦ found
  ]

  -- The row of an account after the two updates.
  pub row_after :
      (id : ℕ) (a : Account)
      → find_account id before.accounts ≡ some a
      → (b : Account) → find_account id after.accounts ≡ some b
      → (b.balance
          ≡ a.balance
            +ℤ (if id == first.account_id then gain first else pos 0)
            +ℤ (if id == second.account_id then gain second else pos 0))
        × (b.available_balance
            ≡ a.available_balance
              +ℤ (if id == first.account_id then gain first else pos 0)
              +ℤ (if id == second.account_id then gain second else pos 0))
        × (b.is_system ≡ a.is_system)
  row_after id a found b found' = ground (
    arith,
    found_after id,
    +ℤ_zero a.balance,
    +ℤ_zero (a.balance +ℤ gain first),
    +ℤ_zero a.available_balance,
    +ℤ_zero (a.available_balance +ℤ gain first),
  )

  pub DoubleEntry-UniqueIds : UniqueIds before.accounts → UniqueIds after.accounts
  DoubleEntry-UniqueIds u = rw d.accounts (
      add_balance-UniqueIds second.account_id (gain second)
        (add_balance first.account_id (gain first) before.accounts)
        (add_balance-UniqueIds first.account_id (gain first) before.accounts u))

  -- Every transaction still has debited what it has credited.
  pub DoubleEntry-BalancedTransactions : BalancedTransactions before → BalancedTransactions after
  unfolding transaction_debits transaction_credits
  DoubleEntry-BalancedTransactions h t = rw d.entries (
      ground (
        arith,
        h t,
        d.one_transaction,
        d.debit_mirrored,
        d.credit_mirrored,
        left_comm second.debit first.debit (transaction_debits t before.entries),
      ))

  -- The sum of all balances is what it was.
  pub DoubleEntry-total :
      UniqueIds before.accounts
      → find_account first.account_id before.accounts ≢ none
      → find_account second.account_id before.accounts ≢ none
      → total_balance after.accounts ≡ total_balance before.accounts
  DoubleEntry-total u f s =
      let once : List Account = add_balance first.account_id (gain first) before.accounts in
      let still : find_account second.account_id once ≢ none =
        kept second.account_id first.account_id (gain first) before.accounts s in
      let grown : total_balance once ≡ total_balance before.accounts +ℤ gain first =
        total-add_balance first.account_id (gain first) before.accounts u f in
      let unique : UniqueIds once =
        add_balance-UniqueIds first.account_id (gain first) before.accounts u in
      cc (
        d.accounts,
        total-add_balance second.account_id (gain second) once unique still,
        grown,
        d.debit_mirrored,
        d.credit_mirrored,
        gains_cancel (total_balance before.accounts) first.credit first.debit,
      )

  booked_after :
      (id : ℕ)
      → calculated_balance id after.entries
        ≡ calculated_balance id before.entries
          +ℤ (if id == first.account_id then gain first else pos 0)
          +ℤ (if id == second.account_id then gain second else pos 0)
  booked_after id =
      ap (calculated_balance id) d.entries
      ∙ calculated-cons id second (first ∷ before.entries)
      ∙ ap (λ (v : ℤ). v +ℤ (if id == second.account_id then gain second else pos 0))
          (calculated-cons id first before.entries)

  -- What every account stores is still what its entries add up to.
  pub DoubleEntry-Reconciled : Reconciled before → Reconciled after
  DoubleEntry-Reconciled h id b found' =
      let (a, found) = row_before id b found' in
      let (now, available, _) = row_after id a found b found' in
      let (stored, stored_available) = h id a found in
      (cc (stored, booked_after id, now), cc (stored_available, booked_after id, available))

  pub DoubleEntry-Grounded :
      find_account first.account_id before.accounts ≢ none
      → find_account second.account_id before.accounts ≢ none
      → Grounded before
      → Grounded after
  DoubleEntry-Grounded f s g id gone =
      let absent : find_account id before.accounts ≡ none = ground (arith, found_after id) in
      ground (
        arith,
        booked_after id,
        g id absent,
        +ℤ_zero (pos 0),
        +ℤ_zero (calculated_balance id before.entries),
      )
