-- ===== src/Payment/Service/Confirm.antt =====
-- A confirmation schedules an order, books it, or fails it.
use banking_go.Prelude.{
  ℕ, suc, ◌≡◌, ◌≢◌, ◌⊎◌, inl, inr, refl, sym, ap, ◌∙◌, Bool, not, true, false, arith, some, none,
  Option-cases, Bool-cases, codes, text_eq, text_eq_sound, text_eq_refl, ◌<◌, if◌then◌else◌,
}
use mathlib.Core.Path.{subst, subst₂}
use banking_go.Errors.{ok}
use banking_go.Decimal.{Decimals, DecimalLaws}
use banking_go.Payment.Lifecycle.{Status, is_awaiting, is_scheduled, scheduled, processing}
use banking_go.Payment.Outbox.{OutboxWriter}
use banking_go.Payment.Booking.Refused.{Bookable}
use banking_go.Payment.Service.{
  confirm_payment_tx, schedule_order, scheduled_event, book_now, book_confirmed, target_status,
}
use banking_go.Payment.Service.Events.{WriterKeeps, same_ledger, audit-OkKeeps}
use banking_go.Payment.Service.Finish.{
  pure_ok, Attempted, attempt-Attempted, same-LedgerValid, find_order_id,
}
use banking_go.Payment.Service.Valid.{
  OrdersValid, owner_exists, awaiting_unbooked, find-replace_order, replaced-OrdersValid,
  same-OrdersValid,
}
use banking_go.Database.Tables.{Database, PaymentOrder}
use banking_go.Database.Tx.{Env, World, open_tx, query, ◌>>◌, pure, current_time}
use banking_go.Database.Tx.Inversion.{bind_ok}
use banking_go.Database.Queries.Users.{find_user}
use banking_go.Database.Queries.Orders.{
  find_order, replace_order, update_order, confirm_payment_order, get_payment_order_for_update,
}
use banking_go.Database.Ledger.Moved.{LedgerValid}

-- Its execution is planned and still to come.
abbrev pub Future : ℕ → PaymentOrder → Type 0
Future now order = (order.schedule_type ≡ codes "SCHEDULED") × (now < order.requested_execution_at)

-- The order as the confirmation writes it.
abbrev pub confirmed_as : Status → Bool → PaymentOrder → PaymentOrder
confirmed_as status overridden order = record order { status = status; vop_overridden = overridden }

-- The row of a future order is scheduled, and nothing moves.
pub record ScheduledEnd (now : ℕ) (order : PaymentOrder) (overridden : Bool)
    (before after : Database) (result : PaymentOrder) : Type 0 where
  pub future : Future now order
  pub result_is : result ≡ confirmed_as scheduled overridden order
  pub orders : after.orders ≡ replace_order result before.orders
  pub accounts : after.accounts ≡ before.accounts
  pub entries : after.entries ≡ before.entries
  pub valid : OrdersValid after

-- The contents in which an order that is due has its row in processing.
abbrev pub with_confirmed : PaymentOrder → Database → Database
with_confirmed confirmed before = record before { orders = replace_order confirmed before.orders }

-- The booking of an order that is due was attempted, and its end is recorded on the order's row.
pub record AttemptedEnd (now : ℕ) (order : PaymentOrder) (overridden : Bool)
    (before after : Database) (result : PaymentOrder) : Type 0 where
  pub due : ¬ Future now order
  pub identity : result.id ≡ order.id
  pub valid : OrdersValid (with_confirmed (confirmed_as processing overridden order) before)
  pub attempted :
      Attempted
        (with_confirmed (confirmed_as processing overridden order) before)
        after
        (confirmed_as processing overridden order)
        result

abbrev pub Confirmed : ℕ → PaymentOrder → Bool → Database → Database → PaymentOrder → Type 0
Confirmed now order overridden before after result =
    ScheduledEnd now order overridden before after result
    ⊎ AttemptedEnd now order overridden before after result

Attempted-id :
    (before after : Database) (order result : PaymentOrder)
    → Attempted before after order result
    → result.id ≡ order.id
Attempted-id before after order result (inl (mid, b, _)) =
    ap (λ (r : PaymentOrder). r.id) b.written ∙ find_order_id order.id before.orders b.row b.found
Attempted-id before after order result (inr n) = n.identity

scheduled-Future :
    (order : PaymentOrder) (now : ℕ)
    → is_scheduled (target_status order now) ≡ true
    → Future now order
scheduled-Future order now h =
    (text_eq_sound order.schedule_type (codes "SCHEDULED") (ground arith), ground arith)

due-Future :
    (order : PaymentOrder) (now : ℕ)
    → is_scheduled (target_status order now) ≡ false
    → ¬ Future now order
due-Future order now h (planned, early) =
    let same : text_eq order.schedule_type (codes "SCHEDULED") ≡ true =
      ap (λ t. text_eq t (codes "SCHEDULED")) planned ∙ text_eq_refl (codes "SCHEDULED") in
    ground arith

module _ (status : Status) (overridden : Bool) (order : PaymentOrder) (env : Env) (s : World)
    (o : s.mode ≡ open_tx) (found : find_order order.id s.db.orders ≡ some order)
    {confirmed : PaymentOrder} {v : World}
    (h : confirm_payment_order status overridden order.id order.owner_id env s
      ≡ (ok confirmed, v)) where
  confirm_written :
      (confirmed ≡ record order { status = status; vop_overridden = overridden })
      × (v.db ≡ record s.db { orders = replace_order confirmed s.db.orders })
      × (v.mode ≡ open_tx)
      × (is_awaiting order.status ≡ true)
  unfolding confirm_payment_order update_order query
  confirm_written = (ground arith, ground arith, ground arith, ground arith)

  confirm-OrdersValid : OrdersValid s.db → is_awaiting status ≡ false → OrdersValid v.db
  confirm-OrdersValid orders moved =
      let (written, stored, _, _) = confirm_written in
      replaced-OrdersValid s.db v.db orders confirmed order (ap (λ (d : Database). d.users) stored)
        (ap (λ (d : Database). d.orders) stored)
        (subst (λ id. find_order id s.db.orders ≡ some order)
          (sym (ap (λ (r : PaymentOrder). r.id) written)) found)
        (ap (λ (r : PaymentOrder). r.owner_id) written)
        (ap (λ (r : PaymentOrder). is_awaiting r.status) written ∙ moved)

module _ (overridden : Bool) (order : PaymentOrder) (s : World)
    (found : find_order order.id s.db.orders ≡ some order) (orders : OrdersValid s.db) where
  confirmed-Bookable :
      (confirmed : PaymentOrder) (d : Database)
      → confirmed ≡ record order { status = processing; vop_overridden = overridden }
      → d ≡ record s.db { orders = replace_order confirmed s.db.orders }
      → is_awaiting order.status ≡ true
      → Bookable d confirmed
  confirmed-Bookable confirmed d written stored awaiting =
      elim (Option-cases (find_user order.owner_id s.db.users)) [
        | inl gone ↦ absurd (owner_exists s.db orders order.id order found gone)
        | inr (sender, sent) ↦ rw stored (
            rw written (record {
              sender = sender;
              sender_found = sent;
              row = record order { status = processing; vop_overridden = overridden };
              row_found =
                  find-replace_order
                    (record order { status = processing; vop_overridden = overridden }) s.db.orders
                    order found;
              in_processing = refl;
              unbooked = awaiting_unbooked s.db orders order.id order found awaiting;
            }))
      ]

module _ (now : ℕ) (overridden : Bool) (order : PaymentOrder) (env : Env) (s : World)
    (o : s.mode ≡ open_tx) (found : find_order order.id s.db.orders ≡ some order)
    (orders : OrdersValid s.db) {result : PaymentOrder} {u : World} where
  schedule-Confirmed :
      Future now order
      → schedule_order order overridden env s ≡ (ok result, u)
      → Confirmed now order overridden s.db u.db result
  schedule-Confirmed future h =
      let (confirmed, v, e, rest) =
        bind_ok (confirm_payment_order scheduled overridden order.id order.owner_id)
          (λ r. scheduled_event order r >> pure r) env s h in
      let (written, stored, _, _) = confirm_written scheduled overridden order env s o found e in
      let (_, x, e2, ended) =
        bind_ok (scheduled_event order confirmed) (λ _. pure confirmed) env v rest in
      let (same, at) = pure_ok ended in
      let still =
        (audit-OkKeeps v.db order.owner_id order.id _ _).at env v tt x (same_ledger v.db) e2 in
      inl (record {
        future = future;
        result_is = sym same ∙ written;
        orders =
            ap (λ (y : World). y.db.orders) (sym at)
            ∙ still.orders
            ∙ ap (λ (d : Database). d.orders) stored
            ∙ ap (λ r. replace_order r s.db.orders) same;
        accounts =
            ap (λ (y : World). y.db.accounts) (sym at)
            ∙ still.accounts
            ∙ ap (λ (d : Database). d.accounts) stored;
        entries =
            ap (λ (y : World). y.db.entries) (sym at)
            ∙ still.entries
            ∙ ap (λ (d : Database). d.entries) stored;
        valid =
            subst (λ (y : World). OrdersValid y.db) at
              (same-OrdersValid still
                (confirm-OrdersValid scheduled overridden order env s o found e orders refl));
      })

  module _ (D : Decimals) (L : DecimalLaws D) (writer : OutboxWriter) (k : WriterKeeps writer)
      (valid : LedgerValid s.db) where
    book-Confirmed :
        ¬ Future now order
        → book_now D writer order overridden env s ≡ (ok result, u)
        → Confirmed now order overridden s.db u.db result
    book-Confirmed due h =
        let (confirmed, v, e, rest) =
          bind_ok (confirm_payment_order processing overridden order.id order.owner_id)
            (book_confirmed D writer) env s h in
        let (written, stored, opened, awaiting) =
          confirm_written processing overridden order env s o found e in
        let here : v.db ≡ with_confirmed (confirmed_as processing overridden order) s.db =
          stored ∙ ap (λ r. with_confirmed r s.db) written in
        let tried : Attempted v.db u.db confirmed result =
          attempt-Attempted D L writer k false confirmed env v opened
            (same-LedgerValid s.db v.db (ap (λ (d : Database). d.accounts) stored)
              (ap (λ (d : Database). d.entries) stored) valid)
            (confirmed-Bookable overridden order s found orders confirmed v.db written stored
              awaiting)
            rest in
        inr (record {
          due = due;
          identity =
              Attempted-id v.db u.db confirmed result tried
              ∙ ap (λ (r : PaymentOrder). r.id) written;
          valid =
              subst OrdersValid here
                (confirm-OrdersValid processing overridden order env s o found e orders refl);
          attempted = subst₂ (λ d r. Attempted d u.db r result) here written tried;
        })

-- What the customer has agreed to: the payee is verified, or the mismatch accepted.
abbrev pub Agreed : PaymentOrder → Bool → Type 0
Agreed order accept_mismatch =
    (text_eq order.vop_result (codes "MATCH") ≡ true) ⊎ (accept_mismatch ≡ true)

module _ (D : Decimals) (L : DecimalLaws D) (writer : OutboxWriter) (k : WriterKeeps writer)
    (owner_id payment_id : ℕ) (accept_mismatch : Bool) (env : Env) (s : World)
    (o : s.mode ≡ open_tx) {result : PaymentOrder} {u : World}
    (h : confirm_payment_tx D writer owner_id payment_id accept_mismatch env s
      ≡ (ok result, u)) where
  order_exists : find_order payment_id s.db.orders ≢ none
  unfolding confirm_payment_tx get_payment_order_for_update query
  order_exists e = ground arith

  module _ {order : PaymentOrder} (found : find_order payment_id s.db.orders ≡ some order) where
    checked :
        (order.owner_id ≡ owner_id)
        × (is_awaiting order.status ≡ true)
        × Agreed order accept_mismatch
    unfolding confirm_payment_tx get_payment_order_for_update query
    checked =
        (ground arith, ground arith, agreed (Bool-cases (text_eq order.vop_result (codes "MATCH"))))
      where
        agreed :
            (text_eq order.vop_result (codes "MATCH") ≡ true)
              ⊎ (text_eq order.vop_result (codes "MATCH") ≡ false)
            → Agreed order accept_mismatch
        agreed (inl same) = inl same
        agreed (inr different) =
            inr (unfold confirm_payment_tx get_payment_order_for_update query in ground arith)

    abbrev overridden : Bool
    overridden = not (text_eq order.vop_result (codes "MATCH"))

    own_number : (t : World) → t.db ≡ s.db → find_order order.id t.db.orders ≡ some order
    own_number t same =
        subst (λ (d : Database). find_order order.id d.orders ≡ some order) (sym same)
          (subst (λ id. find_order id s.db.orders ≡ some order)
            (sym (find_order_id payment_id s.db.orders order found)) found)

    module _ (valid : LedgerValid s.db) (orders : OrdersValid s.db) where
      abbrev now : ℕ
      now = env.now (suc s.tick)

      branch :
          (b : Bool)
          → is_scheduled (target_status order now) ≡ b
          → (t : World) × (t.db ≡ s.db)
            × (t.mode ≡ open_tx)
            × ((if b then schedule_order order overridden else book_now D writer order overridden)
                  env t
                ≡ (ok result, u))
          → Confirmed now order overridden s.db u.db result
      branch true planned (t, same, o_t, rest) =
          subst (λ (d : Database). Confirmed now order overridden d u.db result) same
            (schedule-Confirmed now overridden order env t o_t (own_number t same)
              (subst OrdersValid (sym same) orders) (scheduled-Future order now planned) rest)
      branch false due (t, same, o_t, rest) =
          subst (λ (d : Database). Confirmed now order overridden d u.db result) same
            (book-Confirmed now overridden order env t o_t (own_number t same)
              (subst OrdersValid (sym same) orders) D L writer k
              (subst LedgerValid (sym same) valid) (due-Future order now due) rest)

      order_left :
          (t : World) × (t.db ≡ s.db)
          × (t.mode ≡ open_tx)
          × ((if is_scheduled (target_status order (env.now (suc s.tick)))
                  then schedule_order order overridden
                  else book_now D writer order overridden)
                env t
              ≡ (ok result, u))
      unfolding confirm_payment_tx get_payment_order_for_update query current_time
      order_left = (record s { tick = suc s.tick }, refl, o, ground arith)

      confirm-Confirmed : Confirmed now order overridden s.db u.db result
      confirm-Confirmed = branch (is_scheduled (target_status order now)) refl order_left

  -- A run of a confirmation's body that succeeds in an open transaction, on a valid ledger with
  -- valid orders and with a writer that leaves accounts, entries, orders and users alone, found
  -- an order of the owner that awaited it and had the customer's agreement to an unverified payee.
  -- If the order is planned for later, it has written it as scheduled, noted a mismatch that was
  -- accepted, and moved nothing. Otherwise it has put the order in processing and either booked it
  -- with one movement of its amount, or marked it as failed and moved nothing. What it returns is
  -- that order's row.
  pub confirm_payment_tx-Confirmed :
      LedgerValid s.db
      → OrdersValid s.db
      → (order : PaymentOrder) × (find_order payment_id s.db.orders ≡ some order)
        × (order.owner_id ≡ owner_id)
        × (is_awaiting order.status ≡ true)
        × Agreed order accept_mismatch
        × Confirmed
            (env.now (suc s.tick))
            order
            (not (text_eq order.vop_result (codes "MATCH")))
            s.db
            u.db
            result
  confirm_payment_tx-Confirmed valid orders =
      elim (Option-cases (find_order payment_id s.db.orders)) [
        | inl gone ↦ absurd (order_exists gone)
        | inr (order, found) ↦
            (let (owner, awaiting, agreed) = checked found in
              (order, found, owner, awaiting, agreed, confirm-Confirmed found valid orders))
      ]
