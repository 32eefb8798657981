-- ===== src/Payment/Standing/Keeps.antt =====
-- The materialisation of standing orders moves no funds.
use banking_go.Prelude.{ℕ, refl, List, [], ◌∷◌, Bool, not, Option, none, some, if_both, take}
use banking_go.Errors.{Result, ok}
use banking_go.Payment.Standing.Materialize.{
  materialize_one, materialize_all, materialize_tx, materialize_standing_orders, occurrence_params,
  next_of, status_after,
}
use banking_go.Payment.Service.Valid.{BankValid}
use banking_go.Payment.Service.Inserted.{insert_order-BankValid, unchanged-BankValid}
use banking_go.Database.Tables.{Database, StandingOrder}
use banking_go.Database.Tx.{Tx, query, current_time, new_uuid, uuid_string}
use banking_go.Database.Tx.Keeps.{
  Keeps, OkKeeps, OkKeeps-query, OkKeeps-bind, OkKeeps-still, OkKeeps-pure, exec_tx-Keeps,
}
use banking_go.Database.Queries.Standing.{
  claim_due_standing_orders, advance_standing_order, update_standing, write_standing, find_standing,
  select_standing_due, standing_checks,
}
use banking_go.Database.Queries.Orders.Insert.{
  CreatePaymentOrderParams, create_payment_order, insert_order, new_order,
}

pub new_uuid-Keeps : OkKeeps BankValid new_uuid
unfolding new_uuid
new_uuid-Keeps = OkKeeps-still new_uuid (λ env w. refl)

pub create_order-Keeps :
    (arg : CreatePaymentOrderParams) → OkKeeps BankValid (create_payment_order arg)
unfolding create_payment_order
create_order-Keeps arg =
    OkKeeps-bind new_uuid (λ id. query (insert_order (new_order id arg))) new_uuid-Keeps
      (λ id.
        OkKeeps-query (insert_order (new_order id arg))
          (λ db v. insert_order-BankValid (new_order id arg) db refl v))

module _ (guard : StandingOrder → Bool) (change : StandingOrder → StandingOrder) where
  written_standing :
      (found : Option StandingOrder) (db : Database)
      → BankValid db
      → BankValid (write_standing guard change found db).1
  written_standing none db v = v
  written_standing (some s) db v =
      if_both (λ (p : Result StandingOrder × Database). BankValid p.1) (not (guard s)) _ _ v
        (if_both (λ (p : Result StandingOrder × Database). BankValid p.1)
          (standing_checks (change s)) _ _ (unchanged-BankValid db _ refl refl refl refl v) v)

  pub update_standing-Keeps : (id : ℕ) → OkKeeps BankValid (query (update_standing guard change id))
  unfolding update_standing
  update_standing-Keeps id =
      OkKeeps-query _ (λ db v. written_standing (find_standing id db.standing_orders) db v)

uuid_string-Keeps : (id : ℕ) → OkKeeps BankValid (uuid_string id)
unfolding uuid_string
uuid_string-Keeps id = OkKeeps-still (uuid_string id) (λ env w. refl)

module _ (standing : StandingOrder) where
  abbrev advance : Tx StandingOrder
  advance = advance_standing_order (next_of standing) (status_after standing) standing.id

  advance-Keeps : OkKeeps BankValid advance
  unfolding advance_standing_order
  advance-Keeps = update_standing-Keeps _ _ standing.id

  materialize_one-Keeps : OkKeeps BankValid (materialize_one standing)
  unfolding materialize_one
  materialize_one-Keeps =
      OkKeeps-bind (uuid_string standing.id) _ (uuid_string-Keeps standing.id) (λ id_text.
        OkKeeps-bind new_uuid _ new_uuid-Keeps (λ nonce_id.
          OkKeeps-bind (uuid_string nonce_id) _ (uuid_string-Keeps nonce_id) (λ nonce.
            OkKeeps-bind (create_payment_order (occurrence_params id_text nonce standing))
              (λ _. advance) (create_order-Keeps (occurrence_params id_text nonce standing))
              (λ _. advance-Keeps))))

materialize_all-Keeps : (orders : List StandingOrder) → OkKeeps BankValid (materialize_all orders)
unfolding materialize_all
materialize_all-Keeps [] = OkKeeps-pure tt
materialize_all-Keeps (standing ∷ orders) =
    OkKeeps-bind (materialize_one standing) (λ _. materialize_all orders)
      (materialize_one-Keeps standing) (λ _. materialize_all-Keeps orders)

materialize_tx-Keeps : (batch_size : ℕ) → OkKeeps BankValid (materialize_tx batch_size)
unfolding materialize_tx claim_due_standing_orders current_time
materialize_tx-Keeps batch_size =
    OkKeeps-bind (claim_due_standing_orders batch_size) materialize_all
      (OkKeeps-bind current_time _ (OkKeeps-still current_time (λ env w. refl)) (λ now.
        OkKeeps-query
          (λ db. (ok (take batch_size (select_standing_due now db.standing_orders)), db))
          (λ db v. v)))
      materialize_all-Keeps

-- The materialisation of standing orders keeps a valid ledger with valid orders, whatever fails.
pub materialize-Keeps : (batch_size : ℕ) → Keeps BankValid (materialize_standing_orders batch_size)
unfolding materialize_standing_orders
materialize-Keeps batch_size =
    exec_tx-Keeps (materialize_tx batch_size) (materialize_tx-Keeps batch_size)
