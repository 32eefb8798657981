-- ===== src/Payment/Service/Committed.antt =====
-- A confirmation as a transaction keeps what the ledger promises.
use banking_go.Prelude.{ℕ, suc, ◌≡◌, inl, inr, refl, sym, Bool, none, Option}
use mathlib.Core.Path.{subst}
use banking_go.Errors.{Result, ok, err, Error}
use banking_go.Decimal.{Decimals, DecimalLaws}
use banking_go.Payment.Outbox.{OutboxWriter}
use banking_go.Payment.Service.{confirm_payment_tx, confirm_payment}
use banking_go.Payment.Service.Events.{WriterKeeps}
use banking_go.Payment.Service.Finish.{same-LedgerValid}
use banking_go.Payment.Service.Valid.{BankValid, Attempted-BankValid}
use banking_go.Database.Tables.{Database, PaymentOrder}
use banking_go.Database.Tx.{
  Env, World, open_tx, Tx, ◌>>=◌, pure, resume, exec_tx, capture, read_captured,
}
use banking_go.Database.Tx.Keeps.{exec_tx_keeps}
use banking_go.Payment.Service.Confirm.{
  Confirmed, confirmed_as, with_confirmed, confirm_payment_tx-Confirmed,
}
use banking_go.Payment.Lifecycle.{processing}

module _ (D : Decimals) (L : DecimalLaws D) (writer : OutboxWriter) (k : WriterKeeps writer)
    (owner_id payment_id : ℕ) (accept_mismatch : Bool) (env : Env) where
  abbrev body : Tx PaymentOrder
  body = confirm_payment_tx D writer owner_id payment_id accept_mismatch

  Confirmed-BankValid :
      (now : ℕ) (order : PaymentOrder) (overridden : Bool) (before after : Database)
      (r : PaymentOrder)
      → Confirmed now order overridden before after r
      → BankValid before
      → BankValid after
  Confirmed-BankValid now order overridden before after r (inl c) v =
      (same-LedgerValid before after c.accounts c.entries v.0, c.valid)
  Confirmed-BankValid now order overridden before after r (inr c) v =
      let confirmed = confirmed_as processing overridden order in
      let mid = with_confirmed confirmed before in
      Attempted-BankValid mid after confirmed r c.attempted
        (same-LedgerValid before mid refl refl v.0, c.valid)

  run_keeps :
      (w : World)
      → BankValid w.db
      → (r : Result PaymentOrder) (u : World) → exec_tx body env w ≡ (r, u)
      → BankValid u.db
  run_keeps w v = exec_tx_keeps BankValid body env w v (λ t c result x ran.
      let s : World = record { db = w.db; tick = t; mode = open_tx; captured = c } in
      let (order, _, _, _, _, confirmed) =
        confirm_payment_tx-Confirmed D L writer k owner_id payment_id accept_mismatch env s refl ran
          v.0 v.1 in
      Confirmed-BankValid (env.now (suc t)) order _ w.db x.db result confirmed v)

  returned :
      (r : Result PaymentOrder) (u : World)
      → (resume {B = PaymentOrder × Option Error}
          (λ result. read_captured >>= λ business_err. pure (result, business_err))
          env
          (r, u)).1.db
        ≡ u.db
  unfolding read_captured
  returned (ok result) u = refl
  returned (err e) u = refl

  -- A confirmation takes a valid ledger with valid orders (each order's owner is a user, and an
  -- order that awaits its confirmation is not booked) to one, whatever it returns and whatever
  -- fails in it, where the outbox writer leaves accounts, entries, orders and users alone.
  pub confirm_payment-BankValid :
      (w : World)
      → BankValid w.db
      → BankValid (confirm_payment D writer owner_id payment_id accept_mismatch env w).1.db
  unfolding confirm_payment capture
  confirm_payment-BankValid w v =
      let started : World = record w { captured = none } in
      let (r, u) = exec_tx body env started in
      subst BankValid (sym (returned r u)) (run_keeps started v r u refl)
