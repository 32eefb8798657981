-- ===== src/Payment/Create/Chain.antt =====
-- The steps of CreatePayment before its insert, and the outcome of the whole.
use mathlib.Core.Path.{subst}
use banking_go.Prelude.{suc, ◌≡◌, inl, inr, refl, sym, ap, ◌∙◌, true, some, Text, arith, Bool-cases}
use banking_go.Errors.{Result, ok, err, Error}
use banking_go.Decimal.{Decimals}
use banking_go.Payment.Create.{
  CreatePaymentResult, replay_of, source_or_error, source_checks, beneficiary_of, order_params,
  after_insert, create_new, after_lookup, create_valid, create_payment,
}
use banking_go.Payment.Create.Outcome.{
  Outcome, tried, untouched, key_found, account_found, inserted_Outcome,
}
use banking_go.Payment.Create.Reads.{
  verify_payee-Kept, find_key-Kept, get_account-Kept, get_iban-Kept,
}
use banking_go.Payment.Input.{CreatePaymentInput, normalize_input, validate_payment_input}
use banking_go.Payment.Intent.{same_payment_intent}
use banking_go.Payment.Payee.Lookup.{verify_payee}
use banking_go.Payment.Payee.Names.{Letters, VopResult}
use banking_go.Database.Tables.{Database, PaymentOrder, Account, NullUuid}
use banking_go.Database.Tx.{
  Env, World, Tx, lift, attempt, current_time, new_uuid, uuid_string, ◌>>=◌, ◌>>◌,
}
use banking_go.Database.Tx.Inversion.{bind_ok, lift_ok}
use banking_go.Database.Queries.Accounts.{get_account, get_account_by_iban, find_account}
use banking_go.Database.Queries.Orders.{find_idempotency, get_payment_order_by_idempotency}
use banking_go.Database.Queries.Orders.Insert.{create_payment_order}

module _ (D : Decimals) (letters : Letters) (input : CreatePaymentInput) (amount : D.Decimal)
    (env : Env) where
  abbrev with_vop : NullUuid × Text → VopResult → Tx CreatePaymentResult
  with_vop b vop = current_time >>= λ now. new_uuid >>= λ nonce_id.
      uuid_string nonce_id >>= λ nonce.
      attempt (create_payment_order (order_params D input amount b vop now nonce))
      >>= after_insert D input amount

  abbrev verified : NullUuid × Text → Tx CreatePaymentResult
  verified b =
      verify_payee letters input.owner_id input.beneficiary_name input.beneficiary_iban
      >>= with_vop b

  abbrev destined : Account → Result Account → Tx CreatePaymentResult
  destined source destination = lift (beneficiary_of input source destination) >>= verified

  abbrev with_source : Account → Tx CreatePaymentResult
  with_source source =
      lift (source_checks input source)
      >> (attempt (get_account_by_iban input.beneficiary_iban) >>= destined source)

  module _ (before : Database) {r : CreatePaymentResult} {u : World} where
    vop_Outcome :
        (source : Account)
        → find_account input.source_account_id before.accounts ≡ some source
        → source_checks input source ≡ ok tt
        → (destination : Result Account) (b : NullUuid × Text)
        → beneficiary_of input source destination ≡ ok b
        → (vop : VopResult) (w : World) → w.db ≡ before
        → with_vop b vop env w ≡ (ok r, u)
        → Outcome D input amount r before u.db
    unfolding current_time new_uuid uuid_string
    vop_Outcome source found allowed destination b chosen vop w same h =
        let now = env.now w.tick in
        let nonce = env.uuid_text (env.ids w.tick) in
        let arg = order_params D input amount b vop now nonce in
        let t : World = record w { tick = suc w.tick } in
        let (made, v, insert, last) =
          bind_ok (attempt (create_payment_order arg)) (after_insert D input amount) env t h in
        inserted_Outcome D input amount env letters before source found allowed destination b chosen
          vop now nonce t same made v (tried (create_payment_order arg) env t insert) last

    source_Outcome :
        (source : Account) (w : World)
        → w.db ≡ before
        → find_account input.source_account_id before.accounts ≡ some source
        → with_source source env w ≡ (ok r, u)
        → Outcome D input amount r before u.db
    source_Outcome source w same found h =
        let (_, w1, check, h1) =
          bind_ok (lift (source_checks input source))
            (λ _. attempt (get_account_by_iban input.beneficiary_iban) >>= destined source) env w
            h in
        let (allowed, e1) = lift_ok env w (source_checks input source) check in
        let (destination, w2, look, h2) =
          bind_ok (attempt (get_account_by_iban input.beneficiary_iban)) (destined source) env w1
            h1 in
        let e2 : w2.db ≡ w1.db =
          untouched (get_account_by_iban input.beneficiary_iban) env w1
            (λ P. get_iban-Kept P input.beneficiary_iban)
            (tried (get_account_by_iban input.beneficiary_iban) env w1 look) in
        let (b, w3, choice, h3) =
          bind_ok (lift (beneficiary_of input source destination)) verified env w2 h2 in
        let (chosen, e3) = lift_ok env w2 (beneficiary_of input source destination) choice in
        let (vop, w4, check_payee, h4) =
          bind_ok
            (verify_payee letters input.owner_id input.beneficiary_name input.beneficiary_iban)
            (with_vop b) env w3 h3 in
        let e4 : w4.db ≡ w3.db =
          untouched
            (verify_payee letters input.owner_id input.beneficiary_name input.beneficiary_iban) env
            w3
            (λ P.
              verify_payee-Kept P letters input.owner_id input.beneficiary_name
                input.beneficiary_iban)
            check_payee in
        vop_Outcome source found allowed destination b chosen vop w4
          (e4 ∙ ap (λ (x : World). x.db) e3 ∙ e2 ∙ ap (λ (x : World). x.db) e1 ∙ same) h4

    found_source :
        (looked : Result Account) (v : World)
        → v.db ≡ before
        → (looked_source : (source : Account)
            → looked ≡ ok source
            → find_account input.source_account_id before.accounts ≡ some source)
        → (lift (source_or_error looked) >>= with_source) env v ≡ (ok r, u)
        → Outcome D input amount r before u.db
    found_source (ok source) v same is_source h =
        source_Outcome source v same (is_source source refl) h
    found_source (err e) v same is_source h = absurd (ground arith)

    new_Outcome :
        (w : World)
        → w.db ≡ before
        → create_new D letters input amount env w ≡ (ok r, u)
        → Outcome D input amount r before u.db
    unfolding create_new
    new_Outcome w same h =
        let (looked, v, look, rest) =
          bind_ok (attempt (get_account input.source_account_id))
            (λ looked. lift (source_or_error looked) >>= with_source) env w h in
        let step = tried (get_account input.source_account_id) env w look in
        found_source looked v
          (untouched (get_account input.source_account_id) env w
              (λ P. get_account-Kept P input.source_account_id) step
            ∙ same)
          (λ source is_ok.
            subst
              (λ (db : Database). find_account input.source_account_id db.accounts ≡ some source)
              same (account_found input.source_account_id env w (step ∙ ap (λ x. (x, v)) is_ok)))
          rest

    looked_Outcome :
        (found : Result PaymentOrder) (w v : World)
        → w.db ≡ before
        → get_payment_order_by_idempotency input.owner_id input.idempotency_key env w ≡ (found, v)
        → after_lookup D letters input amount found env v ≡ (ok r, u)
        → Outcome D input amount r before u.db
    unfolding after_lookup
    looked_Outcome (err Error.no_rows) w v same look h =
        new_Outcome v
          (untouched (get_payment_order_by_idempotency input.owner_id input.idempotency_key) env w
              (λ P. find_key-Kept P input.owner_id input.idempotency_key) look
            ∙ same)
          h
    looked_Outcome (err e) w v same look h = absurd (ground arith)
    looked_Outcome (ok existing) w v same look h =
        elim (Bool-cases (same_payment_intent D existing input amount)) [
          | inr other ↦ absurd (conflict (rw other at h))
          | inl kept ↦
              (let (it, there) = replay existing v (rw kept at h) in
                inl (record {
                  replayed = ap (λ (x : CreatePaymentResult). x.replayed) it;
                  stored =
                      subst
                        (λ (db : Database).
                          find_idempotency input.owner_id input.idempotency_key db.orders
                          ≡ some existing)
                        same (key_found input.owner_id input.idempotency_key env w look)
                      ∙ ap (λ (x : CreatePaymentResult). some x.order) (sym it);
                  same_intent =
                      subst
                        (λ (x : CreatePaymentResult).
                          same_payment_intent D x.order input amount ≡ true)
                        (sym it) kept;
                  unchanged =
                      ap (λ (x : World). x.db) there
                      ∙ untouched
                          (get_payment_order_by_idempotency input.owner_id input.idempotency_key)
                          env w (λ P. find_key-Kept P input.owner_id input.idempotency_key) look
                      ∙ same;
                }))
        ]
      where
        conflict : ¬ (
            ◌≡◌ {A = Result CreatePaymentResult × World}
              (err Error.idempotency_conflict, v)
              (ok r, u))
        conflict k = ground arith

        replay :
            (existing : PaymentOrder) (v : World)
            → ◌≡◌ {A = Result CreatePaymentResult × World} (ok (replay_of existing), v) (ok r, u)
            → (r ≡ replay_of existing) × (u ≡ v)
        replay existing v k = (ground arith, ground arith)

module _ (D : Decimals) (letters : Letters) (raw : CreatePaymentInput) (env : Env) (w : World)
    {r : CreatePaymentResult} {u : World} (h : create_payment D letters raw env w ≡ (ok r, u)) where
  abbrev input : CreatePaymentInput
  input = normalize_input raw

  -- A creation that succeeds has accepted the amount, and has either replayed the stored order of
  -- this key and intent and changed nothing, or added exactly one order. That order awaits its
  -- confirmation, has the request's parties, amount, key and execution time, and is charged to an
  -- active EUR account that the requester owns and that is no system account.
  pub create_payment-Outcome :
      (amount : D.Decimal) × (validate_payment_input D input (env.now w.tick) ≡ ok amount)
      × Outcome D input amount r w.db u.db
  unfolding create_payment create_valid current_time
  create_payment-Outcome =
      let (amount, v1, check, h1) =
        bind_ok (lift (validate_payment_input D input (env.now w.tick)))
          (λ amount.
            attempt (get_payment_order_by_idempotency input.owner_id input.idempotency_key)
            >>= after_lookup D letters input amount)
          env w h in
      let (valid, e1) = lift_ok env w (validate_payment_input D input (env.now w.tick)) check in
      let (found, v2, look, h2) =
        bind_ok (attempt (get_payment_order_by_idempotency input.owner_id input.idempotency_key))
          (after_lookup D letters input amount) env v1 h1 in
      (
        amount,
        valid,
        looked_Outcome D letters input amount env w.db found v1 v2 (ap (λ (x : World). x.db) e1)
            (tried (get_payment_order_by_idempotency input.owner_id input.idempotency_key) env v1
              look)
            h2,
      )
