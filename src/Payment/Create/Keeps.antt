-- ===== src/Payment/Create/Keeps.antt =====
-- What the creation of a payment keeps of the database, whatever fails in it.
use banking_go.Prelude.{ℕ, suc, ◌≡◌, refl, false, ◌∷◌, Text, codes, List, if_both}
use banking_go.Errors.{Result, ok, err, Error}
use banking_go.Decimal.{Decimals}
use banking_go.Payment.Booking.{audit_with_queries}
use banking_go.Payment.Create.{
  CreatePaymentResult, source_or_error, source_checks, beneficiary_of, order_params,
  replay_or_conflict, created_event, after_insert, create_new, after_lookup, create_valid,
  create_payment, replay_of,
}
use banking_go.Payment.Create.Reads.{
  verify_payee-Kept, find_key-Kept, get_account-Kept, get_iban-Kept,
}
use banking_go.Payment.Input.{CreatePaymentInput, normalize_input, validate_payment_input}
use banking_go.Payment.Intent.{same_payment_intent}
use banking_go.Payment.Payee.Lookup.{verify_payee}
use banking_go.Payment.Payee.Names.{Letters, VopResult}
use banking_go.Payment.Service.{audit}
use banking_go.Database.Tables.{Database, PaymentOrder, AuditEvent, EventValue, NullUuid, Account}
use banking_go.Database.Tx.{
  Tx, pure, raise, lift, attempt, query, current_time, new_uuid, uuid_string, is_unique_violation,
  ◌>>=◌, ◌>>◌,
}
use banking_go.Database.Tx.Keeps.{Keeps, Keeps-bind, Keeps-query, OkKeeps-query, exec_tx-Keeps}
use banking_go.Database.Queries.Accounts.{get_account, get_account_by_iban}
use banking_go.Database.Queries.Orders.{get_payment_order_by_idempotency}
use banking_go.Database.Queries.Orders.Insert.{
  CreatePaymentOrderParams, create_payment_order, insert_order, new_order,
}
use banking_go.Database.Queries.Users.{create_audit_event}

module _ (P : Database → Type 0)
    (inserts : (row : PaymentOrder) (db : Database)
      → row.ledger_transaction_id.valid ≡ false
      → P db
      → P (insert_order row db).1)
    (audits : (event : AuditEvent) (db : Database)
      → P db
      → P (record db { audit_events = event ∷ db.audit_events })) where
  audit-Kept :
      (owner_id id : ℕ) (event_type : Text) (data_ : List (Text × EventValue))
      → Keeps P (audit owner_id id event_type data_)
  unfolding audit audit_with_queries create_audit_event
  audit-Kept owner_id id event_type data_ =
      exec_tx-Keeps _ (OkKeeps-query _ (λ db h. audits _ db h))

  create_order-Kept : (arg : CreatePaymentOrderParams) → Keeps P (create_payment_order arg)
  unfolding create_payment_order new_uuid
  create_order-Kept arg =
      Keeps-bind P new_uuid (λ id. query (insert_order (new_order id arg))) (λ env w h. h)
        (λ id.
          Keeps-query P (insert_order (new_order id arg))
            (λ db h. inserts (new_order id arg) db refl h))

  module _ (D : Decimals) (input : CreatePaymentInput) (amount : D.Decimal) where
    abbrev look_again : Tx CreatePaymentResult
    look_again =
        attempt (get_payment_order_by_idempotency input.owner_id input.idempotency_key) >>= λ found.
        lift (replay_or_conflict D input amount found)

    look_again-Kept : Keeps P look_again
    look_again-Kept =
        Keeps-bind P
          (attempt (get_payment_order_by_idempotency input.owner_id input.idempotency_key))
          (λ found. lift (replay_or_conflict D input amount found))
          (λ env w h. find_key-Kept P input.owner_id input.idempotency_key env w h)
          (λ found env w h. h)

    after_insert-Kept :
        (inserted : Result PaymentOrder) → Keeps P (after_insert D input amount inserted)
    unfolding after_insert
    after_insert-Kept (ok order) =
        Keeps-bind P (created_event D order)
          (λ _. pure (record { order = order; replayed = false }))
          (audit-Kept order.owner_id order.id (codes "PAYMENT_CREATED") _) (λ _ env w h. h)
    after_insert-Kept (err e) =
        if_both (Keeps P) (is_unique_violation e) look_again (raise e) look_again-Kept
          (λ env w h. h)

    module _ (letters : Letters) where
      abbrev inserted_with : NullUuid × Text → VopResult → ℕ → Text → Tx CreatePaymentResult
      inserted_with beneficiary vop now nonce =
          attempt (create_payment_order (order_params D input amount beneficiary vop now nonce))
          >>= after_insert D input amount

      abbrev with_vop : NullUuid × Text → VopResult → Tx CreatePaymentResult
      with_vop beneficiary vop = current_time >>= λ now. new_uuid >>= λ nonce_id.
          uuid_string nonce_id >>= λ nonce. inserted_with beneficiary vop now nonce

      with_vop-Kept :
          (beneficiary : NullUuid × Text) (vop : VopResult) → Keeps P (with_vop beneficiary vop)
      unfolding current_time new_uuid uuid_string
      with_vop-Kept beneficiary vop env w h =
          Keeps-bind P
            (attempt (
              create_payment_order (
                order_params D input amount beneficiary vop (env.now w.tick)
                  (env.uuid_text (env.ids w.tick)))))
            (after_insert D input amount) (λ env w h. create_order-Kept _ env w h) after_insert-Kept
            env (record w { tick = suc w.tick }) h

      abbrev verified : NullUuid × Text → Tx CreatePaymentResult
      verified beneficiary =
          verify_payee letters input.owner_id input.beneficiary_name input.beneficiary_iban
          >>= with_vop beneficiary

      abbrev destined : Account → Result Account → Tx CreatePaymentResult
      destined source destination = lift (beneficiary_of input source destination) >>= verified

      abbrev with_source : Account → Tx CreatePaymentResult
      with_source source =
          lift (source_checks input source)
          >> (attempt (get_account_by_iban input.beneficiary_iban) >>= destined source)

      with_source-Kept : (source : Account) → Keeps P (with_source source)
      with_source-Kept source =
          Keeps-bind P (lift (source_checks input source))
            (λ _. attempt (get_account_by_iban input.beneficiary_iban) >>= destined source)
            (λ env w h. h)
            (λ _.
              Keeps-bind P (attempt (get_account_by_iban input.beneficiary_iban)) (destined source)
                (λ env w h. get_iban-Kept P input.beneficiary_iban env w h)
                (λ destination.
                  Keeps-bind P (lift (beneficiary_of input source destination)) verified
                    (λ env w h. h)
                    (λ beneficiary.
                      Keeps-bind P
                        (verify_payee letters input.owner_id input.beneficiary_name
                          input.beneficiary_iban)
                        (with_vop beneficiary)
                        (verify_payee-Kept P letters input.owner_id input.beneficiary_name
                          input.beneficiary_iban)
                        (with_vop-Kept beneficiary))))

      create_new-Kept : Keeps P (create_new D letters input amount)
      unfolding create_new
      create_new-Kept =
          Keeps-bind P (attempt (get_account input.source_account_id))
            (λ looked. lift (source_or_error looked) >>= with_source)
            (λ env w h. get_account-Kept P input.source_account_id env w h)
            (λ looked.
              Keeps-bind P (lift (source_or_error looked)) with_source (λ env w h. h)
                with_source-Kept)

      after_lookup-Kept :
          (found : Result PaymentOrder) → Keeps P (after_lookup D letters input amount found)
      unfolding after_lookup
      after_lookup-Kept (ok existing) =
          if_both (Keeps P) (same_payment_intent D existing input amount)
            (pure (replay_of existing)) (raise Error.idempotency_conflict) (λ env w h. h)
            (λ env w h. h)
      after_lookup-Kept (err Error.no_rows) = create_new-Kept
      after_lookup-Kept (err e) = λ env w h. h

  -- What the insert of an order and an audit event keep, the creation of a payment keeps on every
  -- path.
  pub create_payment-Keeps :
      (D : Decimals) (letters : Letters) (input : CreatePaymentInput)
      → Keeps P (create_payment D letters input)
  unfolding create_payment create_valid current_time
  create_payment-Keeps D letters input env w h =
      let normal = normalize_input input in
      Keeps-bind P (lift (validate_payment_input D normal (env.now w.tick)))
        (λ amount.
          attempt (get_payment_order_by_idempotency normal.owner_id normal.idempotency_key)
          >>= after_lookup D letters normal amount)
        (λ env w h. h)
        (λ amount.
          Keeps-bind P
            (attempt (get_payment_order_by_idempotency normal.owner_id normal.idempotency_key))
            (after_lookup D letters normal amount)
            (λ env w h. find_key-Kept P normal.owner_id normal.idempotency_key env w h)
            (after_lookup-Kept D normal amount letters))
        env w h
