-- ===== src/Calendar.antt =====
-- The arithmetic of dates in src/backtest/engine/risk-manager.ts (`addTradingDays`, `getISOWeek`,
-- `substring(0, 10)`), over the built-in `Date` in UTC. A time is a number of milliseconds since the
-- epoch and a date is a number of days, whose order is that of the ISO date strings.
pub mod TradingDays
pub mod Weeks
use shamarx_app.Prelude.{
  ℕ, zero, suc, ◌+◌, ◌-◌, ◌*◌, ◌/◌, ◌%◌, Bool, ◌&&◌, ◌||◌, not, Option, none, some, ltb, ◌==◌,
  if◌then◌else◌, or_else,
}

-- `time.substring(0, 10)`.
abbrev pub date_of : ℕ → ℕ
date_of t = t / 86400000

-- `getDay()`: 0 is Sunday. The epoch was a Thursday.
abbrev pub weekday : ℕ → ℕ
weekday date = (date + 4) % 7

abbrev pub is_weekend : ℕ → Bool
is_weekend date = weekday date == 0 || weekday date == 6

-- The loop of `addTradingDays`, with fuel, over the days that are left and the date.
pub advance : ℕ → ℕ → ℕ → Option ℕ
advance fuel zero date = some date
advance zero (suc left) date = none
advance (suc fuel) (suc left) date =
    advance fuel (if is_weekend (date + 1) then suc left else left) (date + 1)

-- Three steps reach the next weekday from anywhere, so the fuel suffices.
unfoldable pub add_trading_days : ℕ → ℕ → ℕ
unfolding advance
add_trading_days date days = or_else (advance (3 * days) days date) date

abbrev is_leap : ℕ → Bool
is_leap year = year % 4 == 0 && (not (year % 100 == 0) || year % 400 == 0)

abbrev pub year_length : ℕ → ℕ
year_length year = if is_leap year then 366 else 365

-- The position in its year, from 1, of the day that is `date` days after the start of `year`.
year_walk : ℕ → ℕ → ℕ → Option ℕ
year_walk zero year date = none
year_walk (suc fuel) year date =
    let rest = year_walk fuel (year + 1) (date - year_length year) in
    if ltb date (year_length year) then some (date + 1) else rest

day_of_year : ℕ → ℕ
unfolding year_walk
day_of_year date = or_else (year_walk (date + 1) 1970 date) 1

-- `getISOWeek`: `Math.ceil(dayOfYear / 7)`.
unfoldable pub iso_week : ℕ → ℕ
unfolding day_of_year
iso_week t = (day_of_year (date_of t) + 6) / 7
