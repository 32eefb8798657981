-- ===== src/Database/Queries/Accounts/Rows.antt =====
-- The rows that a statement gives are the rows of their numbers.
use banking_go.Prelude.{
  ℕ, ◌≡◌, ◌||◌, some, none, List, [], ◌∷◌, ◌==◌, ltb, All, arith, inl, inr, Bool-cases,
}
use banking_go.Database.Tables.{Account}
use banking_go.Database.Queries.Accounts.{find_account, insert_by_id, select_two}
use banking_go.Database.Ledger.{UniqueIds}

-- `a` is the row that its own number finds.
abbrev pub IsRow : List Account → Account → Type 0
IsRow accounts a = find_account a.id accounts ≡ some a

insert-All :
    (P : Account → Type 0) (a : Account) (rows : List Account)
    → P a
    → All P rows
    → All P (insert_by_id a rows)
unfolding insert_by_id
insert-All P a [] h k = (h, tt)
insert-All P a (b ∷ rows) h k = elim (Bool-cases (ltb b.id a.id)) [
  | inl later ↦ rw later (k.0, insert-All P a rows h k.1)
  | inr now ↦ rw now (h, k)
]

IsRow-weaken :
    (c : Account) (accounts rows : List Account)
    → find_account c.id accounts ≡ none
    → All (IsRow accounts) rows
    → All (IsRow (c ∷ accounts)) rows
unfolding find_account
IsRow-weaken c accounts [] new h = tt
IsRow-weaken c accounts (r ∷ rows) new h =
    (ground (arith, h.0), IsRow-weaken c accounts rows new h.1)

pub select_two-IsRow :
    (i j : ℕ) (accounts : List Account)
    → UniqueIds accounts
    → All (IsRow accounts) (select_two i j accounts)
unfolding select_two
select_two-IsRow i j [] u = tt
select_two-IsRow i j (c ∷ accounts) u =
    let rest : All (IsRow (c ∷ accounts)) (select_two i j accounts) =
      IsRow-weaken c accounts (select_two i j accounts) u.0 (select_two-IsRow i j accounts u.1) in
    elim (Bool-cases (c.id == i || c.id == j)) [
      | inl chosen ↦ rw chosen (
          insert-All (IsRow (c ∷ accounts)) c (select_two i j accounts)
            (unfold find_account in ground arith) rest)
      | inr other ↦ rw other rest
    ]
