-- ===== src/Payment/Booking/Steps.antt =====
-- The steps that a booking which succeeds has taken before it writes.
use banking_go.Prelude.{
  ℕ, suc, ◌≡◌, ◌≢◌, refl, ap, ◌∙◌, false, none, some, List, [], ◌∷◌, inl, inr, arith, Option-cases,
  Bool-cases,
}
use banking_go.Errors.{Result, ok, err, Error}
use banking_go.Decimal.{Decimals}
use banking_go.Ledger.Posting.{
  Posting, planned, plan_customer_transfer, plan_customer_transfer_sound, Permitted,
}
use banking_go.Database.Tables.{Account, PaymentOrder}
use banking_go.Database.Tx.{Env, World, query}
use banking_go.Database.Queries.Accounts.{
  find_settlement, select_two, get_settlement_account, list_accounts_for_update,
}
use banking_go.Database.LedgerRepository.{account_by_id, source_snapshot, destination_snapshot}
use banking_go.Payment.Booking.{
  destination_of, system_destination, post_payment, plan_and_post, book_payment_tx,
}

module _ (D : Decimals) (env : Env) (order : PaymentOrder) (w : World) {order' : PaymentOrder}
    {w' : World} (h : book_payment_tx D order env w ≡ (ok order', w')) where
  pub read_amount : (amount : D.Decimal) × (D.from_numeric order.amount ≡ some amount)
  read_amount = elim (Option-cases (D.from_numeric order.amount)) [
    | inl unread ↦ absurd (unreadable unread)
    | inr read ↦ read
  ]
    where
      unreadable : D.from_numeric order.amount ≢ none
      unreadable e = unfold book_payment_tx in ground arith

  no_settlement : order.beneficiary_account_id.valid ≡ false → find_settlement w.db.accounts ≢ none
  unfolding book_payment_tx get_settlement_account query
  no_settlement outside e = ground arith

  -- The destination is the beneficiary's account, or else the settlement account.
  pub resolved :
      (dest : ℕ) × (u : World) × (destination_of D order.beneficiary_account_id env w
        ≡ (ok dest, u))
      × (u.db ≡ w.db)
  resolved = elim (Bool-cases order.beneficiary_account_id.valid) [
    | inl inside ↦ (order.beneficiary_account_id.uuid, w, ground arith, refl)
    | inr outside ↦ elim (Option-cases (find_settlement w.db.accounts)) [
      | inl gone ↦ absurd (no_settlement outside gone)
      | inr (s, found) ↦ (s.id, record w { tick = suc w.tick }, settled outside found, refl)
    ]
  ]
    where
      settled :
          order.beneficiary_account_id.valid ≡ false
          → {s : Account} → find_settlement w.db.accounts ≡ some s
          → destination_of D order.beneficiary_account_id env w
            ≡ (ok s.id, record w { tick = suc w.tick })
      settled outside found = unfold book_payment_tx get_settlement_account query in ground arith

  module _ {amount : D.Decimal} (paid : D.from_numeric order.amount ≡ some amount) {dest : ℕ}
      {u : World} (to : destination_of D order.beneficiary_account_id env w ≡ (ok dest, u)) where
    two_rows :
        (rows : List Account)
        → select_two order.source_account_id dest u.db.accounts ≡ rows
        → (a b : Account) × (select_two order.source_account_id dest u.db.accounts ≡ a ∷ b ∷ [])
    unfolding book_payment_tx plan_and_post list_accounts_for_update query
    two_rows [] e = absurd (ground arith)
    two_rows (x ∷ []) e = absurd (ground arith)
    two_rows (x ∷ y ∷ []) e = (x, y, e)
    two_rows (x ∷ y ∷ z ∷ rows) e = absurd (ground arith)

    pub found_rows :
        (a b : Account) × (select_two order.source_account_id dest u.db.accounts ≡ a ∷ b ∷ [])
    found_rows = two_rows (select_two order.source_account_id dest u.db.accounts) refl

    module _ {a b : Account}
        (rows : select_two order.source_account_id dest u.db.accounts ≡ a ∷ b ∷ []) where
      abbrev source : Account
      source = account_by_id a b order.source_account_id

      abbrev destination : Account
      destination = account_by_id a b dest

      pub read_available :
          (available : D.Decimal) × (D.from_numeric
              (account_by_id a b order.source_account_id).available_balance
            ≡ some available)
      read_available = elim (Option-cases (D.from_numeric source.available_balance)) [
        | inl unread ↦ absurd (unreadable unread)
        | inr read ↦ read
      ]
        where
          unreadable : D.from_numeric source.available_balance ≢ none
          unreadable e =
              unfold book_payment_tx plan_and_post list_accounts_for_update query in ground arith

      module _ {available : D.Decimal}
          (reads : D.from_numeric source.available_balance ≡ some available) where
        abbrev plan : Result (Posting D)
        plan =
            plan_customer_transfer D order.owner_id (source_snapshot D source available)
              (destination_snapshot D destination) amount system_destination

        abbrev intended : Posting D
        intended =
            planned D (source_snapshot D source available) (destination_snapshot D destination)
              amount

        refused_plan : (e : Error) → plan ≢ err e
        unfolding book_payment_tx plan_and_post list_accounts_for_update query
        refused_plan e p = ground arith

        plan_made : (r : Result (Posting D)) → plan ≡ r → (p : Posting D) × (plan ≡ ok p)
        plan_made (ok p) e = (p, e)
        plan_made (err x) e = absurd (refused_plan x e)

        pub permitted :
            Permitted D order.owner_id
              (source_snapshot D (account_by_id a b order.source_account_id) available)
              (destination_snapshot D (account_by_id a b dest))
              amount
              system_destination
            × (plan ≡ ok intended)
        permitted =
            let (p, made) = plan_made plan refl in
            let (allowed, same) =
              plan_customer_transfer_sound D order.owner_id (source_snapshot D source available)
                (destination_snapshot D destination) amount system_destination made in
            (allowed, made ∙ ap ok same)

        -- What is left to do is to post the plan, on the same contents.
        pub posting_left :
            plan ≡ ok intended
            → (v : World) × (post_payment D order source intended env v ≡ (ok order', w'))
              × (v.db ≡ u.db)
        posting_left p = (record u { tick = suc u.tick }, left, refl)
          where
            left :
                post_payment D order source intended env (record u { tick = suc u.tick })
                ≡ (ok order', w')
            left =
                unfold book_payment_tx plan_and_post list_accounts_for_update query in ground arith
