-- ===== src/Payment/Standing/Revived.antt =====
-- UpdateStandingOrder of backend/internal/payment/standing_orders.go writes the status that it is given,
-- whatever the order's own is, and the worker then claims the order again.
use banking_go.Prelude.{
  ℕ, ◌≡◌, ◌≤◌, refl, sym, ap, ◌∙◌, true, ◌==◌, ==_refl, some, Option, Bool-cases, inl, inr, List,
  [], ◌∷◌, Text, codes, text_eq, text_eq_refl, arith, trim_space, to_upper_text, if_both,
}
use mathlib.Core.Path.{subst}
use mathlib.Core.List.{Memᴰ}
use banking_go.Errors.{ok}
use banking_go.Calendar.{Time, micros}
use banking_go.Decimal.{Decimals}
use banking_go.Payment.Standing.Orders.{update_standing_order}
use banking_go.Database.Tables.{StandingOrder, Database}
use banking_go.Database.Tx.{Env, World, query}
use banking_go.Database.Queries.Standing.{
  find_standing, replace_standing, update_standing, is_due_standing, standing_before,
  insert_standing_due, select_standing_due, update_standing_order as write_standing_order,
}

-- A written row is found under its number.
find-replace_standing :
    (row : StandingOrder) (orders : List StandingOrder) (old : StandingOrder)
    → find_standing row.id orders ≡ some old
    → find_standing row.id (replace_standing row orders) ≡ some row
unfolding find_standing replace_standing
find-replace_standing row [] old h = absurd (ground arith)
find-replace_standing row (s ∷ orders) old h = elim (Bool-cases (row.id == s.id)) [
  | inl here ↦ ground (arith, ==_refl row.id)
  | inr later ↦
      (let rest = find-replace_standing row orders old (ground arith) in ground (arith, rest))
]

find_standing_id :
    (id : ℕ) (orders : List StandingOrder) (s : StandingOrder)
    → find_standing id orders ≡ some s
    → s.id ≡ id
unfolding find_standing
find_standing_id id [] s h = absurd (ground arith)
find_standing_id id (q ∷ orders) s h = elim (Bool-cases (id == q.id)) [
  | inl here ↦ ground arith
  | inr later ↦ find_standing_id id orders s (ground arith)
]

-- The order of the claim loses no row.
inserted_first :
    (r : StandingOrder) (rest : List StandingOrder) → Memᴰ r (insert_standing_due r rest)
unfolding insert_standing_due
inserted_first r [] = Memᴰ.head refl
inserted_first r (s ∷ rest) =
    if_both (Memᴰ r) (standing_before s r) (s ∷ insert_standing_due r rest) (r ∷ s ∷ rest)
      (Memᴰ.tail (inserted_first r rest)) (Memᴰ.head refl)

inserted_other :
    (r s : StandingOrder) (rest : List StandingOrder)
    → Memᴰ r rest
    → Memᴰ r (insert_standing_due s rest)
unfolding insert_standing_due
inserted_other r s [] m = elim m [ ]
inserted_other r s (q ∷ rest) (Memᴰ.head e) =
    if_both (Memᴰ r) (standing_before q s) (q ∷ insert_standing_due s rest) (s ∷ q ∷ rest)
      (Memᴰ.head e) (Memᴰ.tail (Memᴰ.head e))
inserted_other r s (q ∷ rest) (Memᴰ.tail m) =
    if_both (Memᴰ r) (standing_before q s) (q ∷ insert_standing_due s rest) (s ∷ q ∷ rest)
      (Memᴰ.tail (inserted_other r s rest m)) (Memᴰ.tail (Memᴰ.tail m))

selected_due :
    (now id : ℕ) (orders : List StandingOrder) (r : StandingOrder)
    → find_standing id orders ≡ some r
    → is_due_standing now r ≡ true
    → Memᴰ r (select_standing_due now orders)
unfolding find_standing select_standing_due
selected_due now id [] r h due = absurd (ground arith)
selected_due now id (s ∷ orders) r h due = elim (Bool-cases (id == s.id)) [
  | inl here ↦
      let same : r ≡ s = ground arith in
      rw (ap (is_due_standing now) (sym same) ∙ due) (
        subst (λ x. Memᴰ r (insert_standing_due x (select_standing_due now orders))) same
          (inserted_first r (select_standing_due now orders)))
  | inr later ↦
      let m = selected_due now id orders r (ground arith) due in
      if_both (Memᴰ r) (is_due_standing now s)
        (insert_standing_due s (select_standing_due now orders)) (select_standing_due now orders)
        (inserted_other r s (select_standing_due now orders) m) m
]

module _ (D : Decimals) (owner_id id : ℕ) (amount purpose status : Text) (end_date : Option Time)
    (max_occurrences : Option ℕ) (env : Env) (w : World) {r : StandingOrder} {u : World}
    (h : update_standing_order D owner_id id amount purpose status end_date max_occurrences env w
      ≡ (ok r, u))
    {s : StandingOrder} (found : find_standing id w.db.standing_orders ≡ some s) where
  written :
      (s.owner_id ≡ owner_id)
      × (r.id ≡ s.id)
      × (r.status ≡ to_upper_text (trim_space status))
      × (r.next_execution_at ≡ s.next_execution_at)
      × (r.occurrences_created ≡ s.occurrences_created)
      × (u.db ≡ record w.db { standing_orders = replace_standing r w.db.standing_orders })
  unfolding update_standing_order write_standing_order update_standing query
  written = (ground arith, ground arith, ground arith, ground arith, ground arith, ground arith)

  -- An update to ACTIVE that succeeds is of an order of the owner, in whatever state, a cancelled or a
  -- completed one included. The table then has the returned row, active, with the execution time and
  -- the count of the order, and where the worker's clock has reached that time, the row is among the
  -- due ones that its claim takes from.
  pub update_standing_order-revives :
      to_upper_text (trim_space status) ≡ codes "ACTIVE"
      → (now : ℕ) → micros s.next_execution_at ≤ now
      → (s.owner_id ≡ owner_id)
        × (find_standing id u.db.standing_orders ≡ some r)
        × (r.status ≡ codes "ACTIVE")
        × (r.next_execution_at ≡ s.next_execution_at)
        × (r.occurrences_created ≡ s.occurrences_created)
        × Memᴰ r (select_standing_due now u.db.standing_orders)
  update_standing_order-revives active now due =
      let (owner, same_id, state, next, count, table) = written in
      let number : r.id ≡ id = same_id ∙ find_standing_id id w.db.standing_orders s found in
      let stored : find_standing id u.db.standing_orders ≡ some r =
        ap (λ (d : Database). find_standing id d.standing_orders) table
        ∙ subst (λ i. find_standing i (replace_standing r w.db.standing_orders) ≡ some r) number
            (find-replace_standing r w.db.standing_orders s
              (subst (λ i. find_standing i w.db.standing_orders ≡ some s) (sym number) found)) in
      (
        owner,
        stored,
        state ∙ active,
        next,
        count,
        selected_due now id u.db.standing_orders r stored
            (is_due (state ∙ active) (subst (λ t. micros t ≤ now) (sym next) due)),
      )
    where
      is_due :
          r.status ≡ codes "ACTIVE"
          → micros r.next_execution_at ≤ now
          → is_due_standing now r ≡ true
      is_due e k =
          let same : text_eq r.status (codes "ACTIVE") ≡ true =
            ap (λ t. text_eq t (codes "ACTIVE")) e ∙ text_eq_refl (codes "ACTIVE") in
          ground arith
