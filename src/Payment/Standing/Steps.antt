-- ===== src/Payment/Standing/Steps.antt =====
-- Each occurrence of a standing order is at least four weeks, or exactly one, after the one before.
use banking_go.Prelude.{
  ℕ, zero, suc, ◌+◌, ◌*◌, ◌/◌, ◌%◌, ◌≤◌, ◌<◌, ◌≡◌, refl, arith, min, Text, codes, text_eq, if_both,
}
use banking_go.Calendar.{
  Time, month_length, in_month, date, day_micros, micros, days_in, month_start, month_index,
}
use banking_go.Calendar.Days.{IsDate, month_length_bounds, month_start-later}
use banking_go.Calendar.Carry.{date_within, date_last, add_days-IsDate, micros-add_days}
use banking_go.Payment.Standing.{add_months_clamped, next_standing_execution}

abbrev pub week_micros : ℕ
week_micros = 7 * day_micros

own_length : (t : Time) → IsDate t → month_length (month_index t) ≡ days_in t.year t.month
unfolding month_length
own_length t v =
    let year_is : month_index t / 12 ≡ t.year = omega (arith, v.month_in) in
    let month_is : month_index t % 12 + 1 ≡ t.month = omega (arith, v.month_in) in
    rw (year_is, month_is)

later :
    (index n : ℕ)
    → 12 ≤ index
    → 1 ≤ n
    → month_start index + month_length index ≤ month_start (index + n)
later index zero h k = absurd (omega arith)
later index (suc n) h k = omega (arith, month_start-later index n h)

module _ (t : Time) (n : ℕ) (v : IsDate t) where
  abbrev target : ℕ
  target = month_index t + n

  first_of_target : date t.year (t.month + n) 1 t.clock ≡ in_month target 1 t.clock
  first_of_target =
      date_within t.year (t.month + n) 1 t.clock target (omega (arith, v.month_in.0)) (omega arith)
        (omega (arith, (month_length_bounds target).0))

  last_of_target :
      date (target / 12) (target % 12 + 1 + 1) 0 t.clock
      ≡ in_month target (month_length target) t.clock
  last_of_target = date_last (target / 12) (target % 12 + 1 + 1) t.clock target (omega arith)

  -- `n` months on, on the same day of the month or on the month's last.
  add_months_clamped_lem :
      add_months_clamped t n ≡ in_month target (min t.day (month_length target)) t.clock
  unfolding add_months_clamped
  add_months_clamped_lem = rw first_of_target (
      rw last_of_target (
        date_within (target / 12) (target % 12 + 1) (min t.day (month_length target)) t.clock target
          (omega arith) (omega (arith, v.day_in.0, (month_length_bounds target).0)) (omega arith)))

  -- A step by months gives a date of the calendar that is exactly so many months on, at the same time
  -- of the day, on the same day of the month, or on the month's last day where the month is shorter.
  pub add_months_clamped-IsDate :
      IsDate (add_months_clamped t n)
      × (month_index (add_months_clamped t n) ≡ month_index t + n)
      × ((add_months_clamped t n).day
          ≡ min t.day (days_in (add_months_clamped t n).year (add_months_clamped t n).month))
      × ((add_months_clamped t n).clock ≡ t.clock)
  unfolding month_length
  add_months_clamped-IsDate = rw add_months_clamped_lem (
    record {
      year_pos = omega (arith, v.year_pos);
      month_in = (omega arith, omega arith);
      day_in = (omega (arith, v.day_in.0, (month_length_bounds target).0), omega arith);
      clock_in = v.clock_in;
    },
    omega arith,
    refl,
    refl,
  )

  -- Four weeks at least lie between a date and the one some months on.
  micros-add_months : 1 ≤ n → micros t + 4 * week_micros ≤ micros (add_months_clamped t n)
  unfolding micros
  micros-add_months h =
      let (_, index_is, day_is, clock_is) = add_months_clamped-IsDate in
      let far : 12 ≤ month_index t = omega (arith, v.year_pos) in
      rw (index_is, clock_is, add_months_clamped_lem)
        (omega (
          arith,
          v.day_in,
          own_length t v,
          later (month_index t) n far h,
          month_length_bounds target,
          month_length_bounds (month_index t),
        ))

-- A week at least lies between two occurrences.
pub micros-next :
    (t : Time) (frequency : Text)
    → IsDate t
    → micros t + week_micros ≤ micros (next_standing_execution t frequency)
unfolding next_standing_execution
micros-next t frequency v = ground (
  arith,
  micros-add_days t 7 v,
  micros-add_months t 1 v,
  micros-add_months t 3 v,
  micros-add_months t 12 v,
)

pub next-IsDate :
    (t : Time) (frequency : Text) → IsDate t → IsDate (next_standing_execution t frequency)
unfolding next_standing_execution
next-IsDate t frequency v =
    if_both IsDate (text_eq frequency (codes "WEEKLY")) _ _ (add_days-IsDate t 7 v) (
      if_both IsDate (text_eq frequency (codes "MONTHLY")) _ _ (add_months_clamped-IsDate t 1 v).0 (
        if_both IsDate (text_eq frequency (codes "QUARTERLY")) _ _
          (add_months_clamped-IsDate t 3 v).0 (add_months_clamped-IsDate t 12 v).0))

-- The execution time after `k` occurrences.
unfoldable pub occurrence : Text → ℕ → Time → Time
occurrence frequency zero t = t
occurrence frequency (suc k) t = occurrence frequency k (next_standing_execution t frequency)

-- Executions make progress: `k` occurrences take a date to a date at least `k` weeks later, so that
-- an order which is due by less than `k` weeks is due no longer after `k` occurrences.
pub occurrence_progress :
    (frequency : Text) (k now : ℕ) (t : Time)
    → IsDate t
    → now < micros t + k * week_micros
    → IsDate (occurrence frequency k t)
      × (micros t + k * week_micros ≤ micros (occurrence frequency k t))
      × (now < micros (occurrence frequency k t))
unfolding occurrence
occurrence_progress frequency zero now t v h = (v, omega arith, omega arith)
occurrence_progress frequency (suc k) now t v h =
    let step = micros-next t frequency v in
    let (v', far, over) =
      occurrence_progress frequency k now (next_standing_execution t frequency)
        (next-IsDate t frequency v) (omega arith) in
    (v', omega arith, over)
