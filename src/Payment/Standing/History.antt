-- ===== src/Payment/Standing/History.antt =====
-- Histories of standing orders: what creation, cancellation and the worker keep, and what an update
-- breaks.
use banking_go.Prelude.{
  ℕ, ◌+◌, Bool, true, false, not, ◌&&◌, ◌||◌, ltb, List, [], ◌∷◌, codes, text_eq,
}
use banking_go.Errors.{Error}
use banking_go.Account.Iban.{validate_iban}
use banking_go.Calendar.{micros, day_micros}
use banking_go.Decimal.{Decimals}
use banking_go.Payment.Input.{valid_payment_plain_text}
use banking_go.Payment.Standing.{valid_frequency}
use banking_go.Payment.Standing.Kept.{looked_up, looked_up-Limit, delete-Limit}
use banking_go.Payment.Standing.Limit.{StandingsValid, materialize-Limit}
use banking_go.Payment.Standing.Materialize.{materialize_standing_orders}
use banking_go.Payment.Standing.Orders.{
  CreateStandingOrderInput, normalize_standing, standing_amount, ends_before, not_found_if_none,
  create_valid_standing, create_standing_order, cancel_standing_order,
}
use banking_go.Database.Tables.{StandingOrder}
use banking_go.Database.Tx.{Env, World, Tx, lift, attempt, fail_if, current_time, ◌>>=◌, ◌>>◌}
use banking_go.Database.Tx.Keeps.{Keeps, Keeps-bind}
use banking_go.Database.Queries.Standing.{delete_standing_order}

module _ (D : Decimals) (input : CreateStandingOrderInput) where
  abbrev period : D.Decimal → Tx StandingOrder
  period amount =
      fail_if (ends_before input.end_date input.start_date) Error.standing_order_invalid
      >> looked_up D input amount

  abbrev recurrence : D.Decimal → ℕ → Tx StandingOrder
  recurrence amount now =
      fail_if
        (not (valid_frequency input.frequency) || ltb (micros input.start_date + day_micros) now)
        Error.standing_order_invalid
      >> period amount

  abbrev rail : D.Decimal → Tx StandingOrder
  rail amount =
      fail_if
        (not (text_eq input.transfer_type (codes "STANDARD"))
          && not (text_eq input.transfer_type (codes "INSTANT")))
        Error.standing_order_invalid
      >> (current_time >>= recurrence amount)

  abbrev texts : D.Decimal → Tx StandingOrder
  texts amount =
      fail_if
        (not (valid_payment_plain_text input.beneficiary_name 1 140 true)
          || not (valid_payment_plain_text input.purpose 0 140 false)
          || not (valid_payment_plain_text input.creditor_reference 0 35 false))
        Error.standing_order_invalid
      >> (lift (validate_iban input.beneficiary_iban) >> rail amount)

  -- A refusal, or the rest from the same world.
  guarded :
      (test : Bool) (e : Error) (rest : Tx StandingOrder)
      → Keeps StandingsValid rest
      → Keeps StandingsValid (fail_if test e >> rest)
  guarded test e rest k =
      Keeps-bind StandingsValid (fail_if test e) (λ _. rest) (λ env w h. h) (λ _. k)

  valid-Limit : Keeps StandingsValid (create_valid_standing D input)
  unfolding create_valid_standing current_time
  valid-Limit =
      Keeps-bind StandingsValid (lift (standing_amount D input.amount)) texts (λ env w h. h)
        (λ amount. guarded _ _ (lift (validate_iban input.beneficiary_iban) >> rail amount) (
          Keeps-bind StandingsValid (lift (validate_iban input.beneficiary_iban)) (λ _. rail amount)
            (λ env w h. h)
            (λ _. guarded _ _ (current_time >>= recurrence amount) (
              Keeps-bind StandingsValid current_time (recurrence amount) (λ env w h. h)
                (λ now.
                  guarded _ _ (period amount)
                    (guarded _ _ (looked_up D input amount) (looked_up-Limit D input amount)))))))

cancel-Limit : (owner_id id : ℕ) → Keeps StandingsValid (cancel_standing_order owner_id id)
unfolding cancel_standing_order
cancel-Limit owner_id id =
    Keeps-bind StandingsValid (attempt (delete_standing_order id owner_id))
      (λ cancelled. lift (not_found_if_none Error.invalid_payment_state cancelled))
      (λ env w h. delete-Limit id owner_id env w h) (λ _ env w h. h)

-- One call on the standing orders, an update left out.
pub data StandingCall : Type 0 where
  create : CreateStandingOrderInput → StandingCall
  cancel : ℕ → ℕ → StandingCall
  materialize : ℕ → StandingCall

module _ (D : Decimals) where
  unfoldable pub perform_standing : StandingCall → Env → World → World
  perform_standing (create input) env w = (create_standing_order D input env w).1
  perform_standing (cancel owner_id id) env w = (cancel_standing_order owner_id id env w).1
  perform_standing (materialize batch_size) env w = (materialize_standing_orders batch_size env w).1

  unfoldable pub perform_standings : List (StandingCall × Env) → World → World
  perform_standings [] w = w
  perform_standings ((call, env) ∷ rest) w = perform_standings rest (perform_standing call env w)

  perform-Limit :
      (call : StandingCall) (env : Env) (w : World)
      → StandingsValid w.db
      → StandingsValid (perform_standing call env w).db
  unfolding perform_standing create_standing_order
  perform-Limit (create input) env w h = valid-Limit D (normalize_standing input) env w h
  perform-Limit (cancel owner_id id) env w h = cancel-Limit owner_id id env w h
  perform-Limit (materialize batch_size) env w h = materialize-Limit batch_size env w h

  -- Any history of creations and cancellations of standing orders and of runs of the worker, each in
  -- any environment, keeps every order at or below its maximum of occurrences, and below it while
  -- the order is active.
  pub standing_history-StandingsValid :
      (calls : List (StandingCall × Env)) (w : World)
      → StandingsValid w.db
      → StandingsValid (perform_standings calls w).db
  unfolding perform_standings
  standing_history-StandingsValid [] w h = h
  standing_history-StandingsValid ((call, env) ∷ rest) w h =
      standing_history-StandingsValid rest (perform_standing call env w)
        (perform-Limit call env w h)
