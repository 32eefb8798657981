-- ===== src/Payment/Create/Again.antt =====
-- The same request twice: the second call replays the first.
use mathlib.Core.Path.{subst}
use banking_go.Prelude.{
  ℕ, suc, ◌≡◌, sym, ap, ◌∙◌, inl, inr, true, false, some, none, List, ◌∷◌, text_eq_refl, text_eq,
  codes, ◌&&◌, ==_refl, arith,
}
use banking_go.Errors.{ok}
use banking_go.Decimal.{Decimals}
use banking_go.Payment.Create.{
  CreatePaymentResult, replay_of, after_lookup, create_valid, create_payment, order_params,
}
use banking_go.Payment.Create.Chain.{create_payment-Outcome}
use banking_go.Payment.Create.Outcome.{Outcome}
use banking_go.Payment.Create.Replay.{ReadsBack, valid_later, created-same_intent}
use banking_go.Payment.Input.{CreatePaymentInput, normalize_input, validate_payment_input, is_past}
use banking_go.Payment.Intent.{same_payment_intent}
use banking_go.Payment.Payee.Names.{Letters}
use banking_go.Database.Tables.{Database, PaymentOrder}
use banking_go.Database.Tx.{Env, World, auto, query, current_time}
use banking_go.Database.Queries.Orders.{find_idempotency, get_payment_order_by_idempotency}
use banking_go.Database.Queries.Orders.Insert.{new_order}

first_found :
    (row : PaymentOrder) (orders : List PaymentOrder)
    → find_idempotency row.owner_id row.idempotency_key (row ∷ orders) ≡ some row
unfolding find_idempotency
first_found row orders = rw (==_refl row.owner_id) (rw (text_eq_refl row.idempotency_key))

module _ (D : Decimals) (letters : Letters) (raw : CreatePaymentInput) where
  abbrev input : CreatePaymentInput
  input = normalize_input raw

  -- A request whose key and intent are stored is replayed, in one read.
  replays :
      (env : Env) (w : World) (amount : D.Decimal) (order : PaymentOrder)
      → w.mode ≡ auto
      → env.faults w.tick ≡ none
      → validate_payment_input D input (env.now w.tick) ≡ ok amount
      → find_idempotency input.owner_id input.idempotency_key w.db.orders ≡ some order
      → same_payment_intent D order input amount ≡ true
      → create_payment D letters raw env w ≡ (ok (replay_of order), record w { tick = suc w.tick })
  unfolding create_payment create_valid current_time get_payment_order_by_idempotency query
      after_lookup
  replays env w amount order idle calm valid found same = ground arith

  stored_order :
      ReadsBack D
      → (now : ℕ) (amount : D.Decimal) → validate_payment_input D input now ≡ ok amount
      → (r : CreatePaymentResult) (before after : Database) → Outcome D input amount r before after
      → (find_idempotency input.owner_id input.idempotency_key after.orders ≡ some r.order)
        × (same_payment_intent D r.order input amount ≡ true)
  stored_order reads_back now amount valid r before after (inl o) = (
    subst
        (λ (db : Database).
          find_idempotency input.owner_id input.idempotency_key db.orders ≡ some r.order)
        (sym o.unchanged) o.stored,
    o.same_intent,
  )
  stored_order reads_back now amount valid r before after (inr o) =
      let row =
        new_order o.id (order_params D input amount o.beneficiary o.vop o.created_at o.nonce) in
      (
        ap (find_idempotency input.owner_id input.idempotency_key)
              (o.added ∙ ap (λ (x : PaymentOrder). x ∷ before.orders) o.order_is)
            ∙ first_found row before.orders
            ∙ ap some (sym o.order_is),
        subst (λ (x : PaymentOrder). same_payment_intent D x input amount ≡ true) (sym o.order_is)
            (created-same_intent D reads_back raw now valid o.id o.created_at o.beneficiary
              o.kind_fits o.vop o.nonce),
      )

  -- A creation that has succeeded once, new or replayed, succeeds again on the same orders: it
  -- returns the same order as a replay after one read and writes nothing, where that read does not
  -- fail, amounts are read back from their column as equal numbers, and, only if the request is a
  -- scheduled one, its execution is not past by more than a minute.
  pub create_payment-replay :
      ReadsBack D
      → (env : Env) (w : World) {r : CreatePaymentResult} {u : World}
      → create_payment D letters raw env w ≡ (ok r, u)
      → (env' : Env) (w' : World) → w'.db.orders ≡ u.db.orders
      → w'.mode ≡ auto
      → env'.faults w'.tick ≡ none
      → (text_eq input.schedule_type (codes "SCHEDULED")
          && is_past input.requested_execution (env'.now w'.tick))
        ≡ false
      → create_payment D letters raw env' w'
        ≡ (ok (replay_of r.order), record w' { tick = suc w'.tick })
  create_payment-replay reads_back env w {r} {u} h env' w' same idle calm timely =
      let (amount, valid, outcome) = create_payment-Outcome D letters raw env w h in
      let (found, intent) =
        stored_order reads_back (env.now w.tick) amount valid r w.db u.db outcome in
      replays env' w' amount r.order idle calm
        (valid_later D input (env.now w.tick) valid (env'.now w'.tick) timely)
        (ap (find_idempotency input.owner_id input.idempotency_key) same ∙ found) intent
