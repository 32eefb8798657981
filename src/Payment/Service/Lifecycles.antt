-- ===== src/Payment/Service/Lifecycles.antt =====
-- Every statement that writes an order's status makes a transition that the lifecycle allows.
use banking_go.Prelude.{
  ◌+◌, ◌⊎◌, Mem, All-map, All-self, ℕ, ◌≡◌, ◌≤◌, refl, sym, Bool, true, arith, some, inl, inr, List,
  [], ◌∷◌, All, All-take, length, take, length-take, ◌∙◌, min,
}
use mathlib.Core.Path.{subst}
use banking_go.Errors.{ok}
use banking_go.Payment.Lifecycle.{is_scheduled, scheduled, processing, allowed_transitions}
use banking_go.Payment.Service.Claims.{
  Taken, select_due-All, claim_rows-All, claim_all-All, claim_all-Taken, due_selected,
  length-claim_rows,
}
use banking_go.Database.Tables.{PaymentOrder, NullUuid, NullString}
use banking_go.Database.Tx.{Env, World, Tx, query, current_time}
use banking_go.Database.Queries.Orders.{
  find_order, update_order, confirm_payment_order, cancel_payment_order, mark_payment_booked,
  mark_payment_failed, is_due, claimed, select_due, claim_rows, claim_due_payment_orders, claim_all,
}

-- The statements on one order.
pub data StatusWrite : Type 0 where
  confirm_later confirm_now : Bool → ℕ → StatusWrite
  cancel : ℕ → StatusWrite
  book : NullUuid → StatusWrite
  fail : NullString → NullString → StatusWrite

unfoldable pub write_status : StatusWrite → ℕ → Tx PaymentOrder
write_status (confirm_later overridden owner) id =
    confirm_payment_order scheduled overridden id owner
write_status (confirm_now overridden owner) id =
    confirm_payment_order processing overridden id owner
write_status (cancel owner) id = cancel_payment_order id owner
write_status (book number) id = mark_payment_booked number id
write_status (fail reason code) id = mark_payment_failed reason code id

module _ (id : ℕ) (env : Env) (w : World) {row : PaymentOrder}
    (found : find_order id w.db.orders ≡ some row) {result : PaymentOrder} {w' : World} where
  -- A confirmation, a cancellation, a booking or a failure that its statement accepts takes the order
  -- from the status of its row to one that the lifecycle allows.
  pub write_status_allowed :
      (s : StatusWrite)
      → write_status s id env w ≡ (ok result, w')
      → allowed_transitions row.status result.status ≡ true
  unfolding write_status confirm_payment_order cancel_payment_order mark_payment_booked
      mark_payment_failed update_order query allowed_transitions
  write_status_allowed (confirm_later overridden owner) h = ground arith
  write_status_allowed (confirm_now overridden owner) h = ground arith
  write_status_allowed (cancel owner) h = ground arith
  write_status_allowed (book number) h = ground arith
  write_status_allowed (fail reason code) h = ground arith

-- `r` is a row of the table that was due, as the claim returns it, and the table afterwards has it in
-- processing under that identifier, and nothing else.
pub record Claimed (now : ℕ) (before after : List PaymentOrder) (r : PaymentOrder) : Type 0 where
  pub order : PaymentOrder
  pub stored : Mem order before
  pub was_scheduled : is_scheduled order.status ≡ true
  pub was_due : order.requested_execution_at ≤ now
  pub returned : r ≡ record order {
    status = processing;
    processing_started_at = some now;
    attempt_count = order.attempt_count + 1;
  }
  pub written : All (Taken now r.id) after

min_le : (a b : ℕ) → min a b ≤ a
min_le a b = omega arith

due_stored :
    (now : ℕ) (orders : List PaymentOrder) → All (λ o. Mem o orders) (select_due now orders)
due_stored now orders = select_due-All (λ o. Mem o orders) now orders (All-self orders)

All-both :
    (P Q : PaymentOrder → Type 0) (rows : List PaymentOrder)
    → All P rows
    → All Q rows
    → All (λ r. P r × Q r) rows
All-both P Q [] h k = tt
All-both P Q (r ∷ rows) h k = ((h.0, k.0), All-both P Q rows h.1 k.1)

module _ (batch_size : ℕ) (env : Env) (w : World) {rows : List PaymentOrder} {w' : World}
    (h : claim_due_payment_orders batch_size env w ≡ (ok rows, w')) where
  abbrev now : ℕ
  now = env.now w.tick

  abbrev due : List PaymentOrder
  due = take batch_size (select_due now w.db.orders)

  claimed_rows : (rows ≡ claim_rows now due) × (w'.db.orders ≡ claim_all now due w.db.orders)
  unfolding claim_due_payment_orders current_time query
  claimed_rows = (ground arith, ground arith)

  -- What the claim selected, before it wrote.
  abbrev Selected : PaymentOrder → Type 0
  Selected r =
      (o : PaymentOrder) × (Mem o w.db.orders × (is_due now o ≡ true)) × (r ≡ claimed now o)

  selected : All Selected (claim_rows now due)
  selected =
      claim_rows-All (λ o. Mem o w.db.orders × (is_due now o ≡ true)) Selected now
        (λ o m. (o, m, refl)) due
        (All-take _ batch_size (select_due now w.db.orders) (
          All-both (λ o. Mem o w.db.orders) (λ o. is_due now o ≡ true) (select_due now w.db.orders)
            (due_stored now w.db.orders) (due_selected now w.db.orders)))

  claim_rows-Claimed :
      All (Claimed now w.db.orders (claim_all now due w.db.orders)) (claim_rows now due)
  claim_rows-Claimed =
      All-map (λ r. Selected r × All (Taken now r.id) (claim_all now due w.db.orders))
        (Claimed now w.db.orders (claim_all now due w.db.orders))
        (λ r (s, t).
          let (o, m, is) = s in
          record {
            order = o;
            stored = m.0;
            was_scheduled = ground (arith, m.1);
            was_due = ground (arith, m.1);
            returned = is;
            written = t;
          })
        (claim_rows now due)
        (All-both Selected (λ r. All (Taken now r.id) (claim_all now due w.db.orders))
          (claim_rows now due) selected (claim_all-Taken now due w.db.orders))

  rest_stored :
      All (λ q. Mem q w.db.orders ⊎ Mem q (claim_rows now due)) (claim_all now due w.db.orders)
  rest_stored =
      claim_all-All (λ q. Mem q w.db.orders ⊎ Mem q (claim_rows now due)) now due w.db.orders
        (All-map (λ q. Mem q (claim_rows now due)) _ (λ q m. inr m) (claim_rows now due)
          (All-self (claim_rows now due)))
        (All-map (λ q. Mem q w.db.orders) _ (λ q m. inl m) w.db.orders (All-self w.db.orders))

  -- A claim that succeeds returns at most a batch of orders. Each was a row of the table, scheduled
  -- and due, is returned in processing with one more attempt, and in the table afterwards every row
  -- of its identifier is in processing since the claim. The table has otherwise only rows that it had.
  pub claim_due-Claimed :
      (length rows ≤ batch_size)
      × All (Claimed now w.db.orders w'.db.orders) rows
      × All (λ q. Mem q w.db.orders ⊎ Mem q rows) w'.db.orders
  claim_due-Claimed =
      let (returned, left) = claimed_rows in
      rw returned (
        rw left (
          subst (λ n. n ≤ batch_size)
              (sym
                (length-claim_rows now due ∙ length-take batch_size (select_due now w.db.orders)))
              (min_le batch_size (length (select_due now w.db.orders))),
          claim_rows-Claimed,
          rest_stored,
        ))
