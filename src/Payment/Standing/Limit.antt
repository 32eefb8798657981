-- ===== src/Payment/Standing/Limit.antt =====
-- No standing order makes more occurrences than its maximum, as long as it is not updated.
use mathlib.Core.Path.{subst}
use banking_go.Prelude.{
  ℕ, ◌+◌, ◌≡◌, ◌≤◌, ◌<◌, sym, ap, Bool, true, ◌||◌, ◌==◌, some, none, Option, List, [], ◌∷◌, Text,
  codes, text_eq, leb, arith, All, if◌then◌else◌, take, inl, inr, Bool-cases,
}
use banking_go.Errors.{Result, ok}
use banking_go.Payment.Standing.{reached, past_end, should_complete_standing}
use banking_go.Payment.Standing.Current.{
  Distinct, IsRow, replace-All, due-Distinct, due-IsRow, replaced-IsRow, replaced-Distinct,
}
use banking_go.Payment.Standing.Materialize.{
  materialize_one, materialize_all, materialize_tx, materialize_standing_orders, next_of,
}
use banking_go.Payment.Standing.Rows.{Materialized, advanced, materialize_one-Materialized}
use banking_go.Database.Tables.{Database, StandingOrder}
use banking_go.Database.Tx.{Env, World, query, current_time}
use banking_go.Database.Tx.Inversion.{bind_ok, query_ok}
use banking_go.Database.Tx.Keeps.{Keeps, exec_tx-Keeps}
use banking_go.Database.Queries.Standing.{
  find_standing, claim_due_standing_orders, select_standing_due,
}

-- At most the maximum, and less while the order is active.
abbrev pub Limited : Option ℕ → ℕ → Text → Type 0
Limited none created status = Unit
Limited (some n) created status =
    (created ≤ n) × (text_eq status (codes "ACTIVE") ≡ true → created < n)

abbrev pub WithinLimit : StandingOrder → Type 0
WithinLimit s = Limited s.max_occurrences s.occurrences_created s.status

pub record StandingsValid (db : Database) : Type 0 where
  pub limited : All WithinLimit db.standing_orders
  pub distinct : Distinct db.standing_orders

pub found-Limited :
    (id : ℕ) (orders : List StandingOrder) (s : StandingOrder)
    → find_standing id orders ≡ some s
    → All WithinLimit orders
    → WithinLimit s
unfolding find_standing
found-Limited id [] s e h = absurd (ground arith)
found-Limited id (t ∷ orders) s e h = elim (Bool-cases (id == t.id)) [
  | inl here ↦ subst WithinLimit (first t s (rw here at e)) h.0
  | inr other ↦ found-Limited id orders s (rw other at e) h.1
]
  where
    first : (t s : StandingOrder) → ◌≡◌ {A = Option StandingOrder} (some t) (some s) → t ≡ s
    first t s e = cc

-- An advanced order is complete once its maximum is reached.
limit_kept :
    (limit : Option ℕ) (created : ℕ) (status : Text) (late : Bool)
    → text_eq status (codes "ACTIVE") ≡ true
    → Limited limit created status
    → Limited limit
        (created + 1)
        (if reached created limit || late then codes "COMPLETED" else codes "ACTIVE")
unfolding text_eq
limit_kept none created status late active h = tt
limit_kept (some n) created status late active h =
    let below : created < n = h.1 active in
    elim (Bool-cases (leb n (created + 1))) [
      | inl full ↦ rw full (omega arith, λ a. cc)
      | inr room ↦ rw room (omega arith, λ a. ground arith)
    ]

advanced-WithinLimit :
    (s : StandingOrder)
    → text_eq s.status (codes "ACTIVE") ≡ true
    → WithinLimit s
    → WithinLimit (advanced s)
unfolding should_complete_standing
advanced-WithinLimit s active h =
    limit_kept s.max_occurrences s.occurrences_created s.status (past_end (next_of s) s.end_date)
      active h

module _ (env : Env) where
  Materialized-StandingsValid :
      (s : StandingOrder) (before after : Database)
      → Materialized s before after
      → IsRow before.standing_orders s
      → StandingsValid before
      → StandingsValid after
  Materialized-StandingsValid s before after m row v = record {
    limited = rw m.advanced_row (
        replace-All WithinLimit (advanced s) before.standing_orders
          (advanced-WithinLimit s m.was_active
            (found-Limited s.id before.standing_orders s row v.limited))
          v.limited);
    distinct = rw m.advanced_row (replaced-Distinct (advanced s) before.standing_orders v.distinct);
  }

  materialize_all-StandingsValid :
      (rows : List StandingOrder) (w : World) {u : World}
      → Distinct rows
      → All (IsRow w.db.standing_orders) rows
      → StandingsValid w.db
      → materialize_all rows env w ≡ (ok tt, u)
      → StandingsValid u.db
  unfolding materialize_all
  materialize_all-StandingsValid [] w {u} d r v h =
      let still : w ≡ u = ground arith in subst (λ (x : World). StandingsValid x.db) still v
  materialize_all-StandingsValid (s ∷ rows) w {u} d r v h =
      let (row, w1, first, rest) =
        bind_ok (materialize_one s) (λ _. materialize_all rows) env w h in
      let m = materialize_one-Materialized s env w r.0 first in
      materialize_all-StandingsValid rows w1 d.1
        (subst (λ orders. All (IsRow orders) rows) (sym m.advanced_row)
          (replaced-IsRow (advanced s) w.db.standing_orders rows d.0 r.1))
        (Materialized-StandingsValid s w.db w1.db m r.0 v) rest

module _ (batch_size : ℕ) where
  abbrev claim_at : ℕ → Database → Result (List StandingOrder) × Database
  claim_at now db = (ok (take batch_size (select_standing_due now db.standing_orders)), db)

  materialize_tx-StandingsValid :
      (env : Env) (w : World) {u : World}
      → StandingsValid w.db
      → materialize_tx batch_size env w ≡ (ok tt, u)
      → StandingsValid u.db
  unfolding materialize_tx claim_due_standing_orders current_time
  materialize_tx-StandingsValid env w v h =
      let now = env.now w.tick in
      let (rows, w1, claim, rest) = bind_ok (query (claim_at now)) materialize_all env w h in
      let (is_due, same) = query_ok env w (claim_at now) claim in
      let here : w1.db.standing_orders ≡ w.db.standing_orders =
        ap (λ (db : Database). db.standing_orders) same in
      let due : rows ≡ take batch_size (select_standing_due now w.db.standing_orders) = cc in
      materialize_all-StandingsValid env rows w1
        (subst Distinct (sym due) (due-Distinct batch_size now w.db.standing_orders v.distinct))
        (subst (λ orders. All (IsRow orders) rows) (sym here)
          (subst (All (IsRow w.db.standing_orders)) (sym due)
            (due-IsRow batch_size now w.db.standing_orders v.distinct)))
        (subst StandingsValid (sym same) v) rest

  pub materialize-Limit : Keeps StandingsValid (materialize_standing_orders batch_size)
  unfolding materialize_standing_orders
  materialize-Limit =
      exec_tx-Keeps (materialize_tx batch_size)
        (record { at = λ env w a u v h. materialize_tx-StandingsValid env w v h })
