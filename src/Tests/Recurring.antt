-- ===== src/Tests/Recurring.antt =====
-- A monthly standing order of two occurrences, from the last day of January.
use banking_go.Prelude.{
  ◌+◌, ◌*◌, ◌≡◌, ◌≤◌, ◌<◌, refl, none, some, List, [], ◌∷◌, Text, codes, pos, arith, min,
  trim_space, trim_left, is_space, text_eq, byte_len, to_upper_text, to_upper, neg_ℤ,
}
use banking_go.Errors.{ok}
use banking_go.Account.Iban.{pad_digits}
use banking_go.Calendar.{
  Time, micros, month_start, month_days, days_before_year, days_in, is_leap, date, carry_days,
  month_length, month_index, format_rfc3339,
}
use banking_go.Calendar.Days.{IsDate}
use banking_go.Ledger.Money.{parse_eur_amount}
use banking_go.Payment.Input.{valid_payment_plain_text}
use banking_go.Payment.Reasons.{null_string_of}
use banking_go.Payment.Standing.{
  add_months_clamped, next_standing_execution, should_complete_standing,
}
use banking_go.Payment.Standing.Steps.{
  week_micros, occurrence, add_months_clamped-IsDate, occurrence_progress,
}
use banking_go.Payment.Standing.History.{
  StandingCall, materialize, cancel, perform_standings, standing_history-StandingsValid,
}
use banking_go.Payment.Standing.Limit.{StandingsValid}
use banking_go.Payment.Standing.Materialize.{materialize_one, strings_no_hyphen}
use banking_go.Payment.Standing.Orders.{update_standing_order}
use banking_go.Payment.Standing.Revived.{update_standing_order-revives}
use banking_go.Payment.Standing.Rows.{Materialized, advanced, materialize_one-Materialized}
use banking_go.Database.Tables.{StandingOrder, null_uuid, null_string}
use banking_go.Database.Tx.{Env, World, auto, query, new_uuid, uuid_string}
use banking_go.Database.Queries.Accounts.{find_account}
use banking_go.Database.Queries.Orders.{find_order, find_idempotency}
use banking_go.Database.Queries.Orders.Insert.{
  create_payment_order, insert_order, order_checks, order_taken, order_grounded, end_to_end_taken,
}
use mathlib.Core.List.{Memᴰ}
use banking_go.Database.Queries.Standing.{
  select_standing_due, update_standing_order as write_standing_order, find_standing,
  standing_checks, advance_standing_order, update_standing, replace_standing,
}
use banking_go.Database.Queries.Users.{find_user}
use banking_go.Tests.Bank.{bank}
use banking_go.Tests.Creation.{zeros_env}
use banking_go.Tests.Numbers.{exact_decimals}

abbrev january : Time
january = record { year = 2026; month = 1; day = 31; clock = 0 }

january-IsDate : IsDate january
unfolding days_in
january-IsDate = record {
  year_pos = omega arith;
  month_in = (omega arith, omega arith);
  day_in = (omega arith, omega arith);
  clock_in = omega arith;
}

next_month : add_months_clamped january 1 ≡ record { year = 2026; month = 2; day = 28; clock = 0 }
unfolding add_months_clamped date carry_days month_length days_in is_leap
next_month = refl

add_months_clamped-IsDate_example :
    IsDate (add_months_clamped january 1)
    × (month_index (add_months_clamped january 1) ≡ 24313)
    × ((add_months_clamped january 1).day
        ≡ min 31 (days_in (add_months_clamped january 1).year (add_months_clamped january 1).month))
    × ((add_months_clamped january 1).clock ≡ 0)
add_months_clamped-IsDate_example = add_months_clamped-IsDate january 1 january-IsDate

occurrence_progress_example :
    IsDate (occurrence (codes "MONTHLY") 3 january)
    × (micros january + 3 * week_micros ≤ micros (occurrence (codes "MONTHLY") 3 january))
    × (micros january + 2 * week_micros < micros (occurrence (codes "MONTHLY") 3 january))
occurrence_progress_example =
    occurrence_progress (codes "MONTHLY") 3 (micros january + 2 * week_micros) january
      january-IsDate (omega arith)

abbrev standing_of : Text → StandingOrder
standing_of status = record {
  id = 60;
  owner_id = 7;
  source_account_id = 1;
  beneficiary_account_id = null_uuid;
  beneficiary_name = codes "Bob";
  beneficiary_iban = codes "DE89370400440532013000";
  beneficiary_bic = null_string;
  amount = pos 125_000;
  purpose = null_string;
  creditor_reference = null_string;
  transfer_type = codes "STANDARD";
  frequency = codes "MONTHLY";
  start_date = january;
  end_date = none;
  max_occurrences = some 2;
  occurrences_created = 0;
  next_execution_at = january;
  status = status;
}

abbrev rent : StandingOrder
rent = standing_of (codes "ACTIVE")

abbrev with_standing : StandingOrder → World
with_standing s = record {
  db = record bank { standing_orders = s ∷ [] };
  tick = 0;
  mode = auto;
  captured = none;
}

rent-StandingsValid : StandingsValid (with_standing rent).db
rent-StandingsValid = record {
  limited = ((omega arith, λ a. omega arith), tt);
  distinct = (tt, tt);
}

rent_found : find_standing 60 (rent ∷ []) ≡ some rent
unfolding find_standing
rent_found = refl

abbrev after_round : World
after_round = (materialize_one rent zeros_env (with_standing rent)).1

round_runs : materialize_one rent zeros_env (with_standing rent) ≡ (ok (advanced rent), after_round)
unfolding materialize_one uuid_string new_uuid create_payment_order query insert_order order_checks
    order_taken order_grounded end_to_end_taken find_order find_idempotency find_user find_account
    find_standing text_eq strings_no_hyphen format_rfc3339 pad_digits micros month_start month_days
    days_before_year advance_standing_order update_standing standing_checks replace_standing
    next_standing_execution add_months_clamped date carry_days month_length days_in is_leap
    should_complete_standing neg_ℤ
round_runs = refl

materialize_one-Materialized_example : Materialized rent (with_standing rent).db after_round.db
materialize_one-Materialized_example =
    materialize_one-Materialized rent zeros_env (with_standing rent) rent_found round_runs

abbrev standing_calls : List (StandingCall × Env)
standing_calls = (materialize 25, zeros_env) ∷ (cancel 7 60, zeros_env) ∷ []

standing_history-StandingsValid_example :
    StandingsValid (perform_standings exact_decimals standing_calls (with_standing rent)).db
standing_history-StandingsValid_example =
    standing_history-StandingsValid exact_decimals standing_calls (with_standing rent)
      rent-StandingsValid

abbrev cancelled : StandingOrder
cancelled = standing_of (codes "CANCELLED")

cancelled_found : find_standing 60 (cancelled ∷ []) ≡ some cancelled
unfolding find_standing
cancelled_found = refl

to_active : to_upper_text (trim_space (codes "active")) ≡ codes "ACTIVE"
unfolding to_upper_text to_upper trim_space trim_left is_space
to_active = refl

abbrev again : StandingOrder
again = record cancelled { amount = pos 100_000; max_occurrences = none; status = codes "ACTIVE" }

abbrev after_update : World
after_update =
    (update_standing_order exact_decimals 7 60 (codes "10") [] (codes "active") none none zeros_env
      (with_standing cancelled)).1

update_runs :
    update_standing_order exact_decimals 7 60
      (codes "10")
      []
      (codes "active")
      none
      none
      zeros_env
      (with_standing cancelled)
    ≡ (ok again, after_update)
unfolding update_standing_order write_standing_order update_standing query find_standing
    standing_checks parse_eur_amount trim_space trim_left is_space text_eq byte_len neg_ℤ
    valid_payment_plain_text to_upper_text to_upper null_string_of micros month_start month_days
    days_before_year days_in is_leap replace_standing
update_runs = refl

update_standing_order-revives_example :
    (cancelled.owner_id ≡ 7)
    × (find_standing 60 after_update.db.standing_orders ≡ some again)
    × (again.status ≡ codes "ACTIVE")
    × (again.next_execution_at ≡ cancelled.next_execution_at)
    × (again.occurrences_created ≡ cancelled.occurrences_created)
    × Memᴰ again (select_standing_due (micros january) after_update.db.standing_orders)
update_standing_order-revives_example =
    update_standing_order-revives exact_decimals 7 60 (codes "10") [] (codes "active") none none
      zeros_env (with_standing cancelled) update_runs cancelled_found to_active (micros january)
      (omega arith)
