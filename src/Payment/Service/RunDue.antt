-- ===== src/Payment/Service/RunDue.antt =====
-- A whole run of the worker: recovery, standing orders, the claim and the batch.
use banking_go.Prelude.{ℕ, refl, List, [], ◌∷◌, All, All-take, if_both, take, none}
use banking_go.Errors.{Result, ok}
use banking_go.Decimal.{Decimals, DecimalLaws}
use banking_go.Payment.Lifecycle.{scheduled}
use banking_go.Payment.Outbox.{OutboxWriter}
use banking_go.Payment.Standing.Materialize.{materialize_standing_orders}
use banking_go.Payment.Standing.Keeps.{materialize-Keeps}
use banking_go.Payment.Service.{
  run_due_payments, process_batch, process_claimed_payment, count_processed, batch_of,
}
use banking_go.Payment.Service.Claims.{select_due-All, claim_rows-All, claim_all-All}
use banking_go.Payment.Service.Events.{WriterKeeps}
use banking_go.Payment.Service.Finish.{same-LedgerValid}
use banking_go.Payment.Service.Valid.{BankValid, OrderSound}
use banking_go.Payment.Service.Process.{process_claimed_payment-BankValid}
use banking_go.Database.Tables.{PaymentOrder, Database}
use banking_go.Database.Tx.{
  Env, World, Tx, wrap_error, attempt, exec_tx, query, current_time, ◌>>=◌, ◌>>◌,
}
use banking_go.Database.Tx.Keeps.{
  Keeps, Keeps-bind, Keeps-query, OkKeeps, OkKeeps-bind, OkKeeps-query, OkKeeps-still,
  exec_tx-Keeps,
}
use banking_go.Database.Queries.Orders.{
  claim_due_payment_orders, recover_stale_payments, recover_rows, count_stale, is_stale, select_due,
  claim_all, claim_rows,
}

module _ (P : PaymentOrder → Type 0) where
  recover_rows-All :
      ((o : PaymentOrder) → P o → P (record o { status = scheduled; processing_started_at = none }))
      → (now stale : ℕ) (orders : List PaymentOrder) → All P orders
      → All P (recover_rows now stale orders)
  unfolding recover_rows
  recover_rows-All k now stale [] h = tt
  recover_rows-All k now stale (o ∷ orders) h = (
    if_both P (is_stale now stale o) (record o { status = scheduled; processing_started_at = none })
        o (k o h.0) h.0,
    recover_rows-All k now stale orders h.1,
  )

abbrev recover_at : ℕ → ℕ → Database → Result ℕ × Database
recover_at stale_seconds now db = (
  ok (count_stale now stale_seconds db.orders),
  record db { orders = recover_rows now stale_seconds db.orders },
)

abbrev claim_at : ℕ → ℕ → Database → Result (List PaymentOrder) × Database
claim_at batch_size now db =
    let due = take batch_size (select_due now db.orders) in
    (ok (claim_rows now due), record db { orders = claim_all now due db.orders })

-- Orders of the same rows, up to states other than waiting, are as valid.
reworked :
    (db : Database) (orders : List PaymentOrder)
    → All (OrderSound db.users) orders
    → BankValid db
    → BankValid (record db { orders = orders })
reworked db orders h (l, o) = (same-LedgerValid db _ refl refl l, record { sound = h })

recover-Keeps : (stale_seconds : ℕ) → Keeps BankValid (recover_stale_payments stale_seconds)
unfolding recover_stale_payments current_time
recover-Keeps stale_seconds =
    Keeps-bind BankValid current_time (λ now. query (recover_at stale_seconds now)) (λ env w h. h)
      (λ now. Keeps-query BankValid (recover_at stale_seconds now) (λ db v.
        reworked db _
          (recover_rows-All (OrderSound db.users)
            (λ p s. record { owned = s.owned; unbooked = λ waits. cc }) now stale_seconds db.orders
            v.1.sound)
          v))

claim-Keeps : (batch_size : ℕ) → OkKeeps BankValid (claim_due_payment_orders batch_size)
unfolding claim_due_payment_orders current_time
claim-Keeps batch_size =
    OkKeeps-bind current_time (λ now. query (claim_at batch_size now))
      (OkKeeps-still current_time (λ env w. refl))
      (λ now. OkKeeps-query (claim_at batch_size now) (λ db v.
        reworked db _
          (claim_all-All (OrderSound db.users) now (take batch_size (select_due now db.orders))
            db.orders
            (claim_rows-All (OrderSound db.users) (OrderSound db.users) now
              (λ o s. record { owned = s.owned; unbooked = λ waits. cc })
              (take batch_size (select_due now db.orders))
              (All-take (OrderSound db.users) batch_size (select_due now db.orders)
                (select_due-All (OrderSound db.users) now db.orders v.1.sound)))
            v.1.sound)
          v))

module _ (D : Decimals) (L : DecimalLaws D) (writer : OutboxWriter) (k : WriterKeeps writer) where
  batch-Keeps :
      (rows : List PaymentOrder) (processed : ℕ)
      → Keeps BankValid (process_batch D writer rows processed)
  unfolding process_batch
  batch-Keeps [] processed = λ env w h. h
  batch-Keeps (order ∷ rows) processed =
      Keeps-bind BankValid (attempt (process_claimed_payment D writer order.id))
        (λ outcome. process_batch D writer rows (count_processed outcome processed))
        (λ env w h. process_claimed_payment-BankValid D L writer k order.id env w h)
        (λ outcome. batch-Keeps rows (count_processed outcome processed))

  abbrev claim_and_process : ℕ → Tx ℕ
  claim_and_process batch_size =
      exec_tx (claim_due_payment_orders batch_size) >>= λ rows. process_batch D writer rows 0

  claim_and_process-Keeps : (batch_size : ℕ) → Keeps BankValid (claim_and_process batch_size)
  claim_and_process-Keeps batch_size =
      Keeps-bind BankValid (exec_tx (claim_due_payment_orders batch_size))
        (λ rows. process_batch D writer rows 0)
        (exec_tx-Keeps (claim_due_payment_orders batch_size) (claim-Keeps batch_size))
        (λ rows. batch-Keeps rows 0)

  -- A run of the worker, with its recovery of stale payments, its standing orders, its claim and its
  -- batch, keeps a valid ledger with valid orders, whatever fails in it, where the outbox writer
  -- leaves accounts, entries, orders and users alone.
  pub run_due_payments-BankValid :
      (batch_size : ℕ) (env : Env) (w : World)
      → BankValid w.db
      → BankValid (run_due_payments D writer batch_size env w).1.db
  unfolding run_due_payments
  run_due_payments-BankValid batch_size =
      let batch = batch_of batch_size in
      Keeps-bind BankValid (wrap_error "recover stale payments" (recover_stale_payments 300))
        (λ _. materialize_standing_orders batch >> claim_and_process batch)
        (λ env w v. recover-Keeps 300 env w v)
        (λ _.
          Keeps-bind BankValid (materialize_standing_orders batch) (λ _. claim_and_process batch)
            (materialize-Keeps batch) (λ _. claim_and_process-Keeps batch))
