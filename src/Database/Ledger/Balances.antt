-- ===== src/Database/Ledger/Balances.antt =====
-- A balance update against look-ups and sums.
use banking_go.Prelude.{
  ℕ, ◌≡◌, ◌≢◌, refl, Bool, true, Option, none, some, List, [], ◌∷◌, ◌==◌, inl, inr, ℤ, ◌+ℤ◌, arith,
  int_laws, if◌then◌else◌, Bool-cases,
}
use banking_go.Database.Tables.{Account}
use banking_go.Database.Queries.Accounts.{find_account, find_settlement, add_balance, credited}
use banking_go.Database.Ledger.{UniqueIds, total_balance}

-- A look-up after an update finds the row of before, credited if it is the updated one.
abbrev pub credit_if : Bool → ℤ → Option Account → Option Account
credit_if hit x none = none
credit_if hit x (some a) = some (if hit then credited x a else a)

pub find_account-add_balance :
    (j id : ℕ) (x : ℤ) (accounts : List Account)
    → find_account j (add_balance id x accounts) ≡ credit_if (j == id) x (find_account j accounts)
unfolding find_account add_balance
find_account-add_balance j id x [] = refl
find_account-add_balance j id x (a ∷ accounts) =
    ground (arith, find_account-add_balance j id x accounts)

pub add_balance-UniqueIds :
    (id : ℕ) (x : ℤ) (accounts : List Account)
    → UniqueIds accounts
    → UniqueIds (add_balance id x accounts)
unfolding add_balance
add_balance-UniqueIds id x [] h = tt
add_balance-UniqueIds id x (a ∷ accounts) h =
    ground
      (arith, find_account-add_balance a.id id x accounts, add_balance-UniqueIds id x accounts h.1)

total-add_balance_absent :
    (id : ℕ) (x : ℤ) (accounts : List Account)
    → find_account id accounts ≡ none
    → total_balance (add_balance id x accounts) ≡ total_balance accounts
unfolding total_balance add_balance find_account
total-add_balance_absent id x [] h = refl
total-add_balance_absent id x (a ∷ accounts) h =
    ground (arith, total-add_balance_absent id x accounts)

-- Where the account is listed once, the sum of all balances grows by the update.
pub total-add_balance :
    (id : ℕ) (x : ℤ) (accounts : List Account)
    → UniqueIds accounts
    → find_account id accounts ≢ none
    → total_balance (add_balance id x accounts) ≡ total_balance accounts +ℤ x
unfolding total_balance add_balance find_account
total-add_balance id x [] u h = absurd (h refl)
total-add_balance id x (b ∷ accounts) u h = elim (Bool-cases (id == b.id)) [
  | inl here ↦ grind (int_laws, total-add_balance_absent id x accounts)
  | inr there ↦ grind (int_laws, total-add_balance id x accounts)
]

-- The settlement account is a system account, and it is the row of its number.
pub find_settlement_row :
    {s : Account} (accounts : List Account)
    → UniqueIds accounts
    → find_settlement accounts ≡ some s
    → (find_account s.id accounts ≡ some s) × (s.is_system ≡ true)
unfolding find_settlement find_account
find_settlement_row [] u h = ground arith
find_settlement_row {s} (a ∷ accounts) u h =
    ground (arith, find_settlement_row {s = s} accounts u.1)
