-- ===== src/Database/Ledger/Moved.antt =====
-- The contract of a movement of money, which deposits, withdrawals, transfers and payments keep, and
-- what follows from it for the ledger.
use banking_go.Prelude.{
  ℕ, ◌≡◌, ◌≢◌, ◌⊎◌, inl, inr, false, some, ◌==◌, ℤ, pos, ◌+ℤ◌, ◌-ℤ◌, ◌≤ℤ◌, arith, int_laws, +ℤ_zero,
  +ℤ_parts, -ℤ_parts, sym, ◌∙◌, if◌then◌else◌,
}
use banking_go.Database.Tables.{Account, Entry, Database}
use banking_go.Database.Queries.Accounts.{find_account}
use banking_go.Database.Ledger.{
  UniqueIds, total_balance, DoubleEntry, Reconciled, Solvent, BalancedTransactions, Grounded,
}
use banking_go.Database.Ledger.Valid.{
  row_before, row_after, DoubleEntry-UniqueIds, DoubleEntry-BalancedTransactions, DoubleEntry-total,
  DoubleEntry-Reconciled, DoubleEntry-Grounded,
}

-- `e` debits `id` with `x`; `e` credits `id` with `x`.
abbrev pub Debits : Entry → ℕ → ℤ → Type 0
Debits e id x = (e.account_id ≡ id) × (e.debit ≡ x) × (e.credit ≡ pos 0)

abbrev pub Credits : Entry → ℕ → ℤ → Type 0
Credits e id x = (e.account_id ≡ id) × (e.credit ≡ x) × (e.debit ≡ pos 0)

-- A positive `x` goes from one account to another, which both exist, by one double entry, and a
-- customer's account that gives it has that much.
pub record Moved (before after : Database) (from_id to_id : ℕ) (x : ℤ) : Type 0 where
  pub first : Entry
  pub second : Entry
  pub entry : DoubleEntry before after first second
  pub sides :
      (Debits first from_id x × Credits second to_id x)
      ⊎ (Credits first to_id x × Debits second from_id x)
  pub positive : pos 1 ≤ℤ x
  pub distinct : from_id ≢ to_id
  pub from_row : Account
  pub from_found : find_account from_id before.accounts ≡ some from_row
  pub to_row : Account
  pub to_found : find_account to_id before.accounts ≡ some to_row
  pub covered : from_row.is_system ≡ false → x ≤ℤ from_row.balance

-- What the ledger promises at any time.
pub record LedgerValid (db : Database) : Type 0 where
  pub unique : UniqueIds db.accounts
  pub reconciled : Reconciled db
  pub solvent : Solvent db
  pub balanced : BalancedTransactions db
  pub grounded : Grounded db
  -- the balances, the settlement account's included, add up to nothing
  pub closed : total_balance db.accounts ≡ pos 0

add_negated : (a x : ℤ) → a +ℤ (pos 0 -ℤ x) ≡ a -ℤ x
add_negated a x = omega int_laws

less_zero : (x : ℤ) → x -ℤ pos 0 ≡ x
less_zero x = omega int_laws

module _ {before after : Database} {from_id to_id : ℕ} {x : ℤ}
    (m : Moved before after from_id to_id x) where
  -- After a movement, the balance of the giving account is less by the amount, that of the
  -- receiving one is more by it, and no other account's balance has changed.
  pub Moved-balances :
      (id : ℕ) (a b : Account)
      → find_account id before.accounts ≡ some a
      → find_account id after.accounts ≡ some b
      → b.balance ≡ (
          if id == to_id
          then a.balance +ℤ x
          else if id == from_id
          then a.balance -ℤ x
          else a.balance)
  Moved-balances id a b found found' =
      let (now, _, _) = row_after before after m.first m.second m.entry id a found b found' in
      elim m.sides [
        | inl (out, within) ↦ ground (
          arith,
          now,
          m.distinct,
          +ℤ_zero a.balance,
          +ℤ_zero (a.balance -ℤ x),
          add_negated a.balance x,
          less_zero x,
        )
        | inr (within, out) ↦ ground (
          arith,
          now,
          m.distinct,
          +ℤ_zero a.balance,
          +ℤ_zero (a.balance +ℤ x),
          add_negated a.balance x,
          less_zero x,
        )
      ]

  -- A movement leaves the sum of all balances, the settlement account's included, as it was, where no
  -- account number is listed twice.
  pub Moved-total :
      UniqueIds before.accounts → total_balance after.accounts ≡ total_balance before.accounts
  Moved-total u = elim m.sides [
    | inl (out, within) ↦
        DoubleEntry-total before after m.first m.second m.entry u (ground (arith, m.from_found))
          (ground (arith, m.to_found))
    | inr (within, out) ↦
        DoubleEntry-total before after m.first m.second m.entry u (ground (arith, m.to_found))
          (ground (arith, m.from_found))
  ]

  stays_solvent :
      (id : ℕ) (a b : Account)
      → find_account id before.accounts ≡ some a
      → b.balance ≡ (
          if id == to_id
          then a.balance +ℤ x
          else if id == from_id
          then a.balance -ℤ x
          else a.balance)
      → pos 0 ≤ℤ a.balance
      → a.is_system ≡ false
      → pos 0 ≤ℤ b.balance
  stays_solvent id a b found now rich customer =
      ground (
        arith,
        now,
        m.from_found,
        m.covered,
        m.positive,
        +ℤ_parts a.balance x,
        -ℤ_parts a.balance x,
      )

  Moved-Solvent : Solvent before → Solvent after
  Moved-Solvent s id b found' customer =
      let (a, found) = row_before before after m.first m.second m.entry id b found' in
      let (_, _, kind) = row_after before after m.first m.second m.entry id a found b found' in
      let rich : pos 0 ≤ℤ a.balance = s id a found (sym kind ∙ customer) in
      stays_solvent id a b found (Moved-balances id a b found found') rich (sym kind ∙ customer)

  pub Moved-LedgerValid : LedgerValid before → LedgerValid after
  Moved-LedgerValid v = record {
    unique = DoubleEntry-UniqueIds before after m.first m.second m.entry v.unique;
    reconciled = DoubleEntry-Reconciled before after m.first m.second m.entry v.reconciled;
    solvent = Moved-Solvent v.solvent;
    balanced = DoubleEntry-BalancedTransactions before after m.first m.second m.entry v.balanced;
    closed = Moved-total v.unique ∙ v.closed;
    grounded = elim m.sides [
      | inl (out, within) ↦
          DoubleEntry-Grounded before after m.first m.second m.entry (ground (arith, m.from_found))
            (ground (arith, m.to_found)) v.grounded
      | inr (within, out) ↦
          DoubleEntry-Grounded before after m.first m.second m.entry (ground (arith, m.to_found))
            (ground (arith, m.from_found)) v.grounded
    ];
  }
