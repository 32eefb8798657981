-- ===== src/Payment/Standing.antt =====
-- The recurrence of backend/internal/payment/standing_orders.go: when the next occurrence is due, and
-- whether it was the last.
pub mod Keeps
pub mod Materialize
pub mod Orders
pub mod Revived
pub mod Rows
pub mod Current
pub mod History
pub mod Kept
pub mod Limit
pub mod Steps
use banking_go.Prelude.{
  ℕ, zero, suc, ◌+◌, ◌*◌, Bool, true, false, ◌&&◌, ◌||◌, Option, none, some, ltb, leb, Text, codes,
  text_eq, min, if◌then◌else◌,
}
use banking_go.Calendar.{Time, date, add_days, micros}
use banking_go.Database.Tables.{StandingOrder}

-- The last day of a month is day 0 of the next.
unfoldable pub add_months_clamped : Time → ℕ → Time
add_months_clamped current months =
    let target_month_start = date current.year (current.month + months) 1 current.clock in
    let last_day =
      (date target_month_start.year (target_month_start.month + 1) 0 current.clock).day in
    date target_month_start.year target_month_start.month (min current.day last_day) current.clock

unfoldable pub next_standing_execution : Time → Text → Time
next_standing_execution current frequency =
    if text_eq frequency (codes "WEEKLY")
    then add_days current 7
    else if text_eq frequency (codes "MONTHLY")
    then add_months_clamped current 1
    else if text_eq frequency (codes "QUARTERLY")
    then add_months_clamped current 3
    else add_months_clamped current 12

unfoldable pub valid_frequency : Text → Bool
valid_frequency value =
    text_eq value (codes "WEEKLY")
    || text_eq value (codes "MONTHLY")
    || text_eq value (codes "QUARTERLY")
    || text_eq value (codes "YEARLY")

abbrev pub reached : ℕ → Option ℕ → Bool
reached created none = false
reached created (some max_occurrences) = leb max_occurrences (created + 1)

abbrev pub past_end : Time → Option Time → Bool
past_end next none = false
past_end next (some end_date) = ltb (micros end_date) (micros next)

unfoldable pub should_complete_standing : StandingOrder → Time → Bool
should_complete_standing order next =
    reached order.occurrences_created order.max_occurrences || past_end next order.end_date
