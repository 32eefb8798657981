-- ===== src/Calendar.antt =====
-- Go's `time.Time` in UTC: a civil date and the microseconds since midnight. `time.Date` is here as
-- far as backend/internal/payment/standing_orders.go calls it. The number of a moment counts
-- microseconds from 1 January of year 1, Go's zero time, which is also the origin of the clock.
pub mod Carry
pub mod Days
use banking_go.Prelude.{
  ℕ, zero, suc, ◌+◌, ◌-◌, ◌*◌, ◌/◌, ◌%◌, Bool, not, ◌&&◌, ◌||◌, ◌==◌, leb, if◌then◌else◌, List,
  ◌++◌, Text, codes,
}
use banking_go.Account.Iban.{pad_digits}

pub record Time : Type 0 where
  pub year : ℕ
  pub month : ℕ
  pub day : ℕ
  pub clock : ℕ

unfoldable pub is_leap : ℕ → Bool
is_leap year = year % 4 == 0 && (not (year % 100 == 0) || year % 400 == 0)

unfoldable pub days_in : ℕ → ℕ → ℕ
days_in year month =
    if month == 2
    then 28 + (if is_leap year then 1 else 0)
    else if month == 4 || month == 6 || month == 9 || month == 11
    then 30
    else 31

-- A day of a month, where the months are counted from year 0.
unfoldable pub month_length : ℕ → ℕ
month_length index = days_in (index / 12) (index % 12 + 1)

abbrev pub in_month : ℕ → ℕ → ℕ → Time
in_month index day clock = record {
  year = index / 12;
  month = index % 12 + 1;
  day = day;
  clock = clock;
}

-- The carry of a day past the end of its month; each round takes a month off.
unfoldable pub carry_days : ℕ → ℕ → ℕ → ℕ → Time
carry_days zero index day clock = in_month index day clock
carry_days (suc rounds) index day clock =
    let later = carry_days rounds (index + 1) (day - month_length index) clock in
    if leb day (month_length index) then in_month index day clock else later

-- `time.Date`: a month past 12 carries into the year, day 0 is the last day of the month before,
-- and a day past the month's end carries on. A month has a day at least, so `day` rounds are enough.
unfoldable pub date : ℕ → ℕ → ℕ → ℕ → Time
date year month zero clock =
    let index = year * 12 + (month - 1) - 1 in in_month index (month_length index) clock
date year month (suc d) clock = carry_days (suc d) (year * 12 + (month - 1)) (suc d) clock

-- `t.AddDate(0, 0, days)`
unfoldable pub add_days : Time → ℕ → Time
add_days t days = date t.year t.month (t.day + days) t.clock

abbrev pub day_micros : ℕ
day_micros = 86_400_000_000

-- The days of the first `months` months of a year.
unfoldable pub month_days : ℕ → ℕ → ℕ
month_days year zero = 0
month_days year (suc months) = month_days year months + days_in year (suc months)

unfoldable pub days_before_year : ℕ → ℕ
days_before_year year = let past = year - 1 in past * 365 + past / 4 + past / 400 - past / 100

-- The number of the month's first day.
unfoldable pub month_start : ℕ → ℕ
month_start index = days_before_year (index / 12) + month_days (index / 12) (index % 12)

abbrev pub month_index : Time → ℕ
month_index t = t.year * 12 + (t.month - 1)

-- The moment's number, by which `Before`, `After` and the columns compare.
unfoldable pub micros : Time → ℕ
micros t = (month_start (month_index t) + (t.day - 1)) * day_micros + t.clock

-- `t.UTC().Format(time.RFC3339)`, for a year of four digits.
unfoldable pub format_rfc3339 : Time → Text
format_rfc3339 t =
    let seconds = t.clock / 1_000_000 in
    pad_digits 4 t.year
    ++ (codes "-"
        ++ (pad_digits 2 t.month
            ++ (codes "-"
                ++ (pad_digits 2 t.day
                    ++ (codes "T"
                        ++ (pad_digits 2 (seconds / 3600)
                            ++ (codes ":"
                                ++ (pad_digits 2 (seconds / 60 % 60)
                                    ++ (codes ":"
                                        ++ (pad_digits 2 (seconds % 60) ++ codes "Z"))))))))))
