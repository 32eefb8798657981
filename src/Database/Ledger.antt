-- ===== src/Database/Ledger.antt =====
-- What the ledger promises, without the statements that keep it: a double entry is two mirrored
-- entries of one transaction and the balance updates that go with them.
pub mod Balances
pub mod Valid
pub mod Moved
pub mod Accounts
use banking_go.Prelude.{
  ℕ, ◌≡◌, Bool, false, some, none, List, [], ◌∷◌, ◌==◌, ℤ, pos, ◌+ℤ◌, ◌-ℤ◌, ◌≤ℤ◌, if◌then◌else◌,
}
use banking_go.Database.Tables.{Account, Entry, Database}
use banking_go.Database.Queries.Accounts.{find_account, add_balance, calculated_balance}

-- No account number is listed twice.
abbrev pub UniqueIds : List Account → Type 0
UniqueIds [] = Unit
UniqueIds (a ∷ accounts) = (find_account a.id accounts ≡ none) × UniqueIds accounts

-- The sum of all balances, the settlement account included.
unfoldable pub total_balance : List Account → ℤ
total_balance [] = pos 0
total_balance (a ∷ accounts) = a.balance +ℤ total_balance accounts

-- What one transaction identifier has debited and credited in all.
unfoldable pub transaction_debits : ℕ → List Entry → ℤ
transaction_debits t [] = pos 0
transaction_debits t (e ∷ entries) =
    (if t == e.transaction_id then e.debit else pos 0) +ℤ transaction_debits t entries

unfoldable pub transaction_credits : ℕ → List Entry → ℤ
transaction_credits t [] = pos 0
transaction_credits t (e ∷ entries) =
    (if t == e.transaction_id then e.credit else pos 0) +ℤ transaction_credits t entries

-- What a balance gains by an entry.
abbrev pub gain : Entry → ℤ
gain e = e.credit -ℤ e.debit

-- `after` is `before` with the entries `first` and `second` and their balance updates.
pub record DoubleEntry (before after : Database) (first second : Entry) : Type 0 where
  pub one_transaction : first.transaction_id ≡ second.transaction_id
  pub debit_mirrored : first.debit ≡ second.credit
  pub credit_mirrored : first.credit ≡ second.debit
  pub accounts :
      after.accounts
      ≡ add_balance second.account_id
          (gain second)
          (add_balance first.account_id (gain first) before.accounts)
  pub entries : after.entries ≡ second ∷ first ∷ before.entries

-- Every stored balance, and every available balance, is what the entries of the account add up to.
abbrev pub Reconciled : Database → Type 0
Reconciled db =
    (id : ℕ) (a : Account)
    → find_account id db.accounts ≡ some a
    → (a.balance ≡ calculated_balance id db.entries)
      × (a.available_balance ≡ calculated_balance id db.entries)

-- No customer's balance is negative.
abbrev pub Solvent : Database → Type 0
Solvent db =
    (id : ℕ) (a : Account)
    → find_account id db.accounts ≡ some a
    → a.is_system ≡ false
    → pos 0 ≤ℤ a.balance

-- Every transaction has debited what it has credited.
abbrev pub BalancedTransactions : Database → Type 0
BalancedTransactions db =
    (t : ℕ) → transaction_debits t db.entries ≡ transaction_credits t db.entries

-- Nothing is booked on a number that is no account's.
abbrev pub Grounded : Database → Type 0
Grounded db =
    (id : ℕ) → find_account id db.accounts ≡ none → calculated_balance id db.entries ≡ pos 0
