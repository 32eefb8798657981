-- ===== src/Payment/Standing/Current.antt =====
-- The claimed standing orders are rows of the table, each once.
use mathlib.Core.Path.{subst}
use banking_go.Prelude.{
  ℕ, zero, suc, ==_iff, ◌≡◌, refl, sym, ◌∙◌, false, some, List, [], ◌∷◌, ◌==◌, ==_refl, All,
  All-take, take, arith, if_both, Bool-cases, inl, inr,
}
use banking_go.Database.Tables.{StandingOrder}
use banking_go.Database.Queries.Standing.{
  find_standing, replace_standing, is_due_standing, standing_before, insert_standing_due,
  select_standing_due,
}

abbrev pub Other : ℕ → StandingOrder → Type 0
Other id s = (s.id == id) ≡ false

-- No identifier stands twice.
abbrev pub Distinct : List StandingOrder → Type 0
Distinct [] = Unit
Distinct (s ∷ orders) = All (Other s.id) orders × Distinct orders

abbrev pub IsRow : List StandingOrder → StandingOrder → Type 0
IsRow orders s = find_standing s.id orders ≡ some s

Other-symm : (s t : StandingOrder) → Other s.id t → Other t.id s
Other-symm s t h = ground arith

module _ (P : StandingOrder → Type 0) where
  pub insert-All :
      (s : StandingOrder) (rest : List StandingOrder)
      → P s
      → All P rest
      → All P (insert_standing_due s rest)
  unfolding insert_standing_due
  insert-All s [] h k = (h, tt)
  insert-All s (r ∷ rest) h k =
      if_both (All P) (standing_before r s) (r ∷ insert_standing_due s rest) (s ∷ r ∷ rest)
        (k.0, insert-All s rest h k.1) (h, k)

  pub select-All :
      (now : ℕ) (orders : List StandingOrder)
      → All P orders
      → All P (select_standing_due now orders)
  unfolding select_standing_due
  select-All now [] h = tt
  select-All now (s ∷ orders) h =
      let rest = select_standing_due now orders in
      if_both (All P) (is_due_standing now s) (insert_standing_due s rest) rest
        (insert-All s rest h.0 (select-All now orders h.1)) (select-All now orders h.1)

  pub replace-All :
      (row : StandingOrder) (orders : List StandingOrder)
      → P row
      → All P orders
      → All P (replace_standing row orders)
  unfolding replace_standing
  replace-All row [] h k = tt
  replace-All row (s ∷ orders) h k =
      (if_both P (row.id == s.id) row s h k.0, replace-All row orders h k.1)

insert-Distinct :
    (s : StandingOrder) (rest : List StandingOrder)
    → All (Other s.id) rest
    → Distinct rest
    → Distinct (insert_standing_due s rest)
unfolding insert_standing_due
insert-Distinct s [] h d = (tt, tt)
insert-Distinct s (r ∷ rest) h d =
    if_both Distinct (standing_before r s) (r ∷ insert_standing_due s rest) (s ∷ r ∷ rest)
      (insert-All (Other r.id) s rest (Other-symm s r h.0) d.0, insert-Distinct s rest h.1 d.1)
      (h, d)

select-Distinct :
    (now : ℕ) (orders : List StandingOrder)
    → Distinct orders
    → Distinct (select_standing_due now orders)
unfolding select_standing_due
select-Distinct now [] d = tt
select-Distinct now (s ∷ orders) d =
    let rest = select_standing_due now orders in
    if_both Distinct (is_due_standing now s) (insert_standing_due s rest) rest
      (insert-Distinct s rest (select-All (Other s.id) now orders d.0)
        (select-Distinct now orders d.1))
      (select-Distinct now orders d.1)

take-Distinct : (n : ℕ) (orders : List StandingOrder) → Distinct orders → Distinct (take n orders)
take-Distinct zero orders d = tt
take-Distinct (suc n) [] d = tt
take-Distinct (suc n) (s ∷ orders) d =
    (All-take (Other s.id) n orders d.0, take-Distinct n orders d.1)

later-IsRow :
    (s : StandingOrder) (orders rows : List StandingOrder)
    → All (Other s.id) rows
    → All (IsRow orders) rows
    → All (IsRow (s ∷ orders)) rows
unfolding find_standing
later-IsRow s orders [] o h = tt
later-IsRow s orders (t ∷ rows) o h = (ground (arith, o.0, h.0), later-IsRow s orders rows o.1 h.1)

rows-IsRow : (orders : List StandingOrder) → Distinct orders → All (IsRow orders) orders
unfolding find_standing
rows-IsRow [] d = tt
rows-IsRow (s ∷ orders) d =
    (rw (==_refl s.id), later-IsRow s orders orders d.0 (rows-IsRow orders d.1))

-- What a claim gives: at most a batch of rows of the table, each once.
module _ (batch_size now : ℕ) (orders : List StandingOrder) (d : Distinct orders) where
  abbrev due : List StandingOrder
  due = take batch_size (select_standing_due now orders)

  pub due-Distinct : Distinct due
  due-Distinct =
      take-Distinct batch_size (select_standing_due now orders) (select-Distinct now orders d)

  pub due-IsRow : All (IsRow orders) due
  due-IsRow =
      All-take (IsRow orders) batch_size (select_standing_due now orders)
        (select-All (IsRow orders) now orders (rows-IsRow orders d))

-- A write of another row leaves a row where it is.
found_other :
    (row : StandingOrder) (id : ℕ) (orders : List StandingOrder)
    → (id == row.id) ≡ false
    → find_standing id (replace_standing row orders) ≡ find_standing id orders
unfolding find_standing replace_standing
found_other row id [] h = refl
found_other row id (s ∷ orders) h = ground (arith, found_other row id orders h)

pub replaced-IsRow :
    (row : StandingOrder) (orders rows : List StandingOrder)
    → All (Other row.id) rows
    → All (IsRow orders) rows
    → All (IsRow (replace_standing row orders)) rows
replaced-IsRow row orders [] o h = tt
replaced-IsRow row orders (t ∷ rows) o h =
    (found_other row t.id orders o.0 ∙ h.0, replaced-IsRow row orders rows o.1 h.1)

-- A write keeps the identifiers.
replaced-Other :
    (id : ℕ) (row : StandingOrder) (orders : List StandingOrder)
    → All (Other id) orders
    → All (Other id) (replace_standing row orders)
unfolding replace_standing
replaced-Other id row [] h = tt
replaced-Other id row (s ∷ orders) h = (
  elim (Bool-cases (row.id == s.id)) [
    | inl here ↦ rw here (ground (arith, h.0))
    | inr other ↦ rw other h.0
  ],
  replaced-Other id row orders h.1,
)

pub replaced-Distinct :
    (row : StandingOrder) (orders : List StandingOrder)
    → Distinct orders
    → Distinct (replace_standing row orders)
unfolding replace_standing
replaced-Distinct row [] d = tt
replaced-Distinct row (s ∷ orders) d = elim (Bool-cases (row.id == s.id)) [
  | inl here ↦ rw here (
    subst (λ id. All (Other id) (replace_standing row orders)) (sym ((==_iff row.id s.id).0 here))
        (replaced-Other s.id row orders d.0),
    replaced-Distinct row orders d.1,
  )
  | inr other ↦ rw other (replaced-Other s.id row orders d.0, replaced-Distinct row orders d.1)
]
