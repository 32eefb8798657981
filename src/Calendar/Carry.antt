-- ===== src/Calendar/Carry.antt =====
-- `time.Date` and `AddDate` give dates of the calendar, on the day that was asked for.
use mathlib.Core.Path.{subst}
use banking_go.Prelude.{
  ℕ, zero, suc, ◌+◌, ◌-◌, ◌*◌, ◌≤◌, ◌<◌, ◌≡◌, refl, ap, arith, inl, inr, leb, Bool-cases,
}
use banking_go.Calendar.{
  Time, month_length, in_month, carry_days, date, add_days, day_micros, month_start, month_index,
  micros,
}
use banking_go.Calendar.Days.{IsDate, month_start-next, month_length_bounds}

-- The number of a moment's day.
abbrev pub day_number : Time → ℕ
day_number t = month_start (month_index t) + (t.day - 1)

-- What a call of `time.Date` owes for a day of a month.
record Lands (number clock : ℕ) (t : Time) : Type 0 where
  pub is_date : IsDate t
  pub number_is : day_number t ≡ number
  pub clock_is : t.clock ≡ clock

abbrev pub index_of : (index day clock : ℕ) → month_index (in_month index day clock) ≡ index
index_of index day clock = omega arith

in_month-Lands :
    (index day clock : ℕ)
    → 12 ≤ index
    → clock < day_micros
    → 1 ≤ day
    → day ≤ month_length index
    → Lands (month_start index + (day - 1)) clock (in_month index day clock)
unfolding month_length
in_month-Lands index day clock h c low high = record {
  is_date = record {
    year_pos = omega arith;
    month_in = (omega arith, omega arith);
    day_in = (low, high);
    clock_in = c;
  };
  number_is = ap (λ i. month_start i + (day - 1)) (index_of index day clock);
  clock_is = refl;
}

carry_days-Lands :
    (rounds index day clock : ℕ)
    → 12 ≤ index
    → clock < day_micros
    → 1 ≤ day
    → day ≤ rounds
    → Lands (month_start index + (day - 1)) clock (carry_days rounds index day clock)
unfolding carry_days
carry_days-Lands zero index day clock h c low r = absurd (omega arith)
carry_days-Lands (suc rounds) index day clock h c low r =
    elim (Bool-cases (leb day (month_length index))) [
      | inl fits ↦ rw fits (in_month-Lands index day clock h c low (ground arith))
      | inr over ↦
          (let past : month_length index < day = ground arith in
            let positive = (month_length_bounds index).0 in
            let same : month_start (index + 1) + (day - month_length index - 1)
                ≡ month_start index + (day - 1) =
              omega (arith, month_start-next index h) in
            rw over (
              subst
                (λ n.
                  Lands n clock (carry_days rounds (index + 1) (day - month_length index) clock))
                same
                (carry_days-Lands rounds (index + 1) (day - month_length index) clock (omega arith)
                  c (omega arith) (omega arith))))
    ]

date_pos :
    (year month day clock : ℕ)
    → 1 ≤ day
    → date year month day clock ≡ carry_days day (year * 12 + (month - 1)) day clock
unfolding date
date_pos year month zero clock h = absurd (omega arith)
date_pos year month (suc d) clock h = refl

-- A day that its month has stays in it.
pub date_within :
    (year month day clock index : ℕ)
    → index ≡ year * 12 + (month - 1)
    → 1 ≤ day
    → day ≤ month_length index
    → date year month day clock ≡ in_month index day clock
unfolding date carry_days
date_within year month zero clock index e low high = absurd (omega arith)
date_within year month (suc d) clock index e low high = rw (← e) (ground arith)

-- Day 0 is the last day of the month before.
pub date_last :
    (year month clock index : ℕ)
    → index + 1 ≡ year * 12 + (month - 1)
    → date year month 0 clock ≡ in_month index (month_length index) clock
unfolding date
date_last year month clock index e =
    let same : year * 12 + (month - 1) - 1 ≡ index = omega arith in rw same

module _ (t : Time) (days : ℕ) (v : IsDate t) where
  add_days-Lands : Lands (day_number t + days) t.clock (add_days t days)
  unfolding add_days
  add_days-Lands =
      let positive = v.day_in.0 in
      let far : 12 ≤ month_index t = omega (arith, v.year_pos) in
      let same : month_start (month_index t) + (t.day + days - 1) ≡ day_number t + days =
        omega arith in
      rw (date_pos t.year t.month (t.day + days) t.clock (omega arith)) (
        subst
          (λ n. Lands n t.clock (carry_days (t.day + days) (month_index t) (t.day + days) t.clock))
          same
          (carry_days-Lands (t.day + days) (month_index t) (t.day + days) t.clock far v.clock_in
            (omega arith) (omega arith)))

  pub add_days-IsDate : IsDate (add_days t days)
  add_days-IsDate = add_days-Lands.is_date

  -- A date `days` days later has the number that is as many days on.
  pub micros-add_days : micros (add_days t days) ≡ micros t + days * day_micros
  unfolding micros
  micros-add_days = omega (arith, add_days-Lands.number_is, add_days-Lands.clock_is)
