-- ===== src/Shared/Calendar.antt =====
-- The parts of Go's package `time` that the program uses: a UTC instant, its Unix seconds and its
-- civil date. An instant is the number of nanoseconds since 1 March of the year 0, so that the
-- zero `time.Time` (1 January of the year 1) is one too.
use marginpilot.Base.{ℕ, ◌+◌, ◌-◌, ◌*◌, ◌/◌, ◌%◌, ◌≤◌, ◌<◌, arith, ltb, if◌then◌else◌, ℤ, pos, ◌-ℤ◌}

abbrev pub Time : Type 0
Time = ℕ

abbrev pub nanos : ℕ
nanos = 1_000_000_000

seconds : Time → ℕ
seconds t = t / nanos

-- `t.Unix()`: 1970 began 719468 days after 1 March of the year 0.
unfoldable pub unix : Time → ℤ
unfolding seconds
unix t = pos (seconds t) -ℤ pos (719468 * 86400)

-- The proleptic Gregorian calendar repeats after 146097 days, which are 400 years. From the day of
-- such an era, the year of the era and the day of that year, which begins in March.
unfoldable pub year_of_era : ℕ → ℕ
year_of_era doe = (doe + doe / 36524 - doe / 1460 - doe / 146096) / 365

unfoldable pub day_of_year : ℕ → ℕ
day_of_year doe = let yoe = year_of_era doe in doe + yoe / 100 - (365 * yoe + yoe / 4)

day : Time → ℕ
unfolding seconds
day t = seconds t / 86400

unfoldable pub march_year : Time → ℕ
unfolding day year_of_era
march_year t = year_of_era (day t % 146097) + day t / 146097 * 400

-- Months counted from March, 0 to 11.
unfoldable pub march_month : Time → ℕ
unfolding day day_of_year year_of_era
march_month t = (5 * day_of_year (day t % 146097) + 2) / 153

-- `t.UTC().Month()`
unfoldable pub month : Time → ℕ
unfolding march_month
month t = if ltb (march_month t) 10 then march_month t + 3 else march_month t - 9

-- `t.UTC().Year()`
unfoldable pub year : Time → ℕ
unfolding march_month march_year
year t = if ltb (march_month t) 10 then march_year t else march_year t + 1

-- A day of the year is at most 365, so there are twelve months.
day_of_year-le : (doe : ℕ) → doe < 146097 → day_of_year doe ≤ 365
unfolding day_of_year year_of_era
day_of_year-le doe h = omega arith

pub month_bounds : (t : Time) → (1 ≤ month t) × (month t ≤ 12)
unfolding month march_month
month_bounds t = ground (arith, day_of_year-le (day t % 146097) (omega arith))
