-- ===== src/Payment/Standing/Rows.antt =====
-- One round of the materialisation: a scheduled order for a due occurrence, and the advanced row.
use banking_go.Prelude.{
  false, refl, if◌then◌else◌, ℕ, suc, ◌+◌, ◌≡◌, ap, ◌∙◌, Bool, true, some, ◌∷◌, Text, codes,
  text_eq, arith,
}
use banking_go.Errors.{ok}
use banking_go.Payment.Standing.Materialize.{
  materialize_one, occurrence_params, next_of, status_after,
}
use banking_go.Calendar.{micros}
use banking_go.Payment.Lifecycle.{scheduled}
use banking_go.Payment.Standing.{next_standing_execution, should_complete_standing}
use banking_go.Database.Tables.{Database, StandingOrder, PaymentOrder}
use banking_go.Database.Tx.{Env, World, new_uuid, uuid_string}
use banking_go.Database.Tx.Inversion.{bind_ok, query_ok}
use banking_go.Database.Queries.Standing.{
  find_standing, replace_standing, advance_standing_order, update_standing, write_standing,
}
use banking_go.Database.Queries.Orders.Insert.{
  create_payment_order, insert_order, new_order, CreatePaymentOrderParams,
}

-- The row with one more occurrence, at the next execution of its frequency.
abbrev pub advanced : StandingOrder → StandingOrder
advanced standing =
    let next = next_standing_execution standing.next_execution_at standing.frequency in
    record standing {
      occurrences_created = standing.occurrences_created + 1;
      next_execution_at = next;
      status = if should_complete_standing standing next then codes "COMPLETED" else codes "ACTIVE";
    }

-- The payment of an occurrence: scheduled, not booked, and of the standing order's parties, amount and
-- execution time.
pub record OccurrenceOf (standing : StandingOrder) (order : PaymentOrder) : Type 0 where
  pub scheduled_now : order.status ≡ scheduled
  pub unbooked : order.ledger_transaction_id.valid ≡ false
  pub due_at : order.requested_execution_at ≡ micros standing.next_execution_at
  pub worth : order.amount ≡ standing.amount
  pub owner : order.owner_id ≡ standing.owner_id
  pub charged : order.source_account_id ≡ standing.source_account_id
  pub payee : order.beneficiary_name ≡ standing.beneficiary_name
  pub payee_iban : order.beneficiary_iban ≡ standing.beneficiary_iban
  pub payee_account : order.beneficiary_account_id ≡ standing.beneficiary_account_id
  pub purpose : order.purpose ≡ standing.purpose
  pub origin : order.standing_order_id ≡ record { uuid = standing.id; valid = true }

pub record Materialized (standing : StandingOrder) (before after : Database) : Type 0 where
  pub order : PaymentOrder
  pub occurrence : OccurrenceOf standing order
  pub added : after.orders ≡ order ∷ before.orders
  pub was_active : text_eq standing.status (codes "ACTIVE") ≡ true
  pub advanced_row :
      after.standing_orders ≡ replace_standing (advanced standing) before.standing_orders
  pub accounts : after.accounts ≡ before.accounts
  pub entries : after.entries ≡ before.entries

occurrence_params-OccurrenceOf :
    (standing : StandingOrder) (id : ℕ) (id_text nonce : Text)
    → OccurrenceOf standing (new_order id (occurrence_params id_text nonce standing))
occurrence_params-OccurrenceOf standing id id_text nonce = record {
  scheduled_now = refl;
  unbooked = refl;
  due_at = refl;
  worth = refl;
  owner = refl;
  charged = refl;
  payee = refl;
  payee_iban = refl;
  payee_account = refl;
  purpose = refl;
  origin = refl;
}

inserted_rest :
    (row : PaymentOrder) (db : Database) {order : PaymentOrder}
    → (insert_order row db).0 ≡ ok order
    → (insert_order row db).1 ≡ record db { orders = row ∷ db.orders }
unfolding insert_order
inserted_rest row db h = ground arith

created :
    (arg : CreatePaymentOrderParams) (env : Env) (w : World) {order : PaymentOrder} {v : World}
    → create_payment_order arg env w ≡ (ok order, v)
    → (id : ℕ) × (v.db ≡ record w.db { orders = new_order id arg ∷ w.db.orders })
unfolding create_payment_order new_uuid
created arg env w h =
    let id = env.ids w.tick in
    let (first, last) =
      query_ok env (record w { tick = suc w.tick }) (insert_order (new_order id arg)) h in
    (id, last ∙ inserted_rest (new_order id arg) w.db first)

abbrev guard : StandingOrder → Bool
guard s = text_eq s.status (codes "ACTIVE")

abbrev change : StandingOrder → StandingOrder → StandingOrder
change standing s = record s {
  occurrences_created = s.occurrences_created + 1;
  next_execution_at = next_of standing;
  status = status_after standing;
}

written :
    (standing : StandingOrder) (db : Database) {row : StandingOrder}
    → (write_standing guard (change standing) (some standing) db).0 ≡ ok row
    → (guard standing ≡ true)
      × ((write_standing guard (change standing) (some standing) db).1
          ≡ record db { standing_orders = replace_standing (advanced standing) db.standing_orders })
written standing db h = (ground arith, ground arith)

module _ (standing : StandingOrder) (env : Env) (w : World)
    (found : find_standing standing.id w.db.standing_orders ≡ some standing) {row : StandingOrder}
    {u : World} where
  -- A round that succeeds on a current row has added one scheduled order of its parties and amount,
  -- due at its execution time. It has advanced the row, which was active, by one occurrence to the
  -- next execution of its frequency, completed where that is past the row's limits, and it has moved
  -- no funds.
  pub materialize_one-Materialized :
      materialize_one standing env w ≡ (ok row, u) → Materialized standing w.db u.db
  unfolding materialize_one uuid_string new_uuid advance_standing_order update_standing
  materialize_one-Materialized h =
      let arg =
        occurrence_params (env.uuid_text standing.id) (env.uuid_text (env.ids w.tick)) standing in
      let t : World = record w { tick = suc w.tick } in
      let (order, v, make, rest) =
        bind_ok (create_payment_order arg)
          (λ _. advance_standing_order (next_of standing) (status_after standing) standing.id) env t
          h in
      let (id, made) = created arg env t make in
      let (first, last) =
        query_ok env v (update_standing guard (change standing) standing.id) rest in
      let here : find_standing standing.id v.db.standing_orders ≡ some standing =
        ap (λ (db : Database). find_standing standing.id db.standing_orders) made ∙ found in
      let (active, moved) = written standing v.db (rw here at first) in
      let all : u.db ≡ record w.db {
        orders = new_order id arg ∷ w.db.orders;
        standing_orders = replace_standing (advanced standing) w.db.standing_orders;
      } =
        last
        ∙ ap (λ o. (write_standing guard (change standing) o v.db).1) here
        ∙ moved
        ∙ ap
            (λ (db : Database). record db {
              standing_orders = replace_standing (advanced standing) db.standing_orders;
            })
            made in
      record {
        order = new_order id arg;
        occurrence =
            occurrence_params-OccurrenceOf standing id (env.uuid_text standing.id)
              (env.uuid_text (env.ids w.tick));
        added = ap (λ (db : Database). db.orders) all;
        was_active = active;
        advanced_row = ap (λ (db : Database). db.standing_orders) all;
        accounts = ap (λ (db : Database). db.accounts) all;
        entries = ap (λ (db : Database). db.entries) all;
      }
