-- ===== src/Calendar/Days.antt =====
-- Months and days in order: a month starts where the month before ends, and a carried day keeps its
-- number.
use banking_go.Prelude.{
  ℕ, zero, suc, ◌+◌, ◌*◌, ◌/◌, ◌%◌, ◌≤◌, ◌<◌, ◌≡◌, ap, arith, inl, inr, Bool-cases, ◌==◌,
}
use banking_go.Calendar.{
  Time, is_leap, days_in, month_length, day_micros, month_days, days_before_year, month_start,
}

-- A date of the calendar, with a time of the day.
pub record IsDate (t : Time) : Type 0 where
  pub year_pos : 1 ≤ t.year
  pub month_in : (1 ≤ t.month) × (t.month ≤ 12)
  pub day_in : (1 ≤ t.day) × (t.day ≤ days_in t.year t.month)
  pub clock_in : t.clock < day_micros

pub days_in_bounds : (year month : ℕ) → (28 ≤ days_in year month) × (days_in year month ≤ 31)
unfolding days_in
days_in_bounds year month = (ground arith, ground arith)

year_days :
    (year : ℕ) → 1 ≤ year → days_before_year (year + 1) ≡ days_before_year year + month_days year 12
unfolding days_before_year month_days days_in is_leap
year_days year h = ground arith

within_year : (year k : ℕ) → month_days year (k + 1) ≡ month_days year k + days_in year (k + 1)
unfolding month_days
within_year year k = ground arith

start_within :
    (year k index : ℕ)
    → index ≡ year * 12 + k
    → k < 12
    → month_start index ≡ days_before_year year + month_days year k
unfolding month_start
start_within year k index e h =
    let y : index / 12 ≡ year = omega arith in let m : index % 12 ≡ k = omega arith in rw (y, m)

start_of_year : (year index : ℕ) → index ≡ year * 12 → month_start index ≡ days_before_year year
unfolding month_days
start_of_year year index e = ground (arith, start_within year 0 index)

-- A month starts where the month before ends.
pub month_start-next :
    (index : ℕ) → 12 ≤ index → month_start (index + 1) ≡ month_start index + month_length index
unfolding month_length
month_start-next index h = elim (Bool-cases (index % 12 == 11)) [
  | inl last ↦ ground (
    arith,
    start_within (index / 12) 11 index,
    start_of_year (index / 12 + 1) (index + 1),
    year_days (index / 12),
    within_year (index / 12) 11,
    twelve (index % 12),
  )
  | inr more ↦ ground (
    arith,
    start_within (index / 12) (index % 12) index,
    start_within (index / 12) (index % 12 + 1) (index + 1),
    within_year (index / 12) (index % 12),
  )
]
  where
    twelve : (k : ℕ) → k ≡ 11 → k + 1 ≡ 12
    twelve k e = omega arith

pub month_length_bounds : (index : ℕ) → (28 ≤ month_length index) × (month_length index ≤ 31)
unfolding month_length
month_length_bounds index = days_in_bounds (index / 12) (index % 12 + 1)

-- The start of a month `n` months later is 28 days on for each month, at least.
pub month_start-later :
    (index n : ℕ)
    → 12 ≤ index
    → month_start index + month_length index + 28 * n ≤ month_start (index + suc n)
month_start-later index zero h = omega (arith, month_start-next index h)
month_start-later index (suc n) h = omega (
  arith,
  month_start-later index n h,
  month_start-next (index + suc n) (omega arith),
  month_length_bounds (index + suc n),
  ap month_start (regroup index n),
)
  where
    regroup : (i k : ℕ) → i + suc k + 1 ≡ i + suc (suc k)
    regroup i k = omega arith
