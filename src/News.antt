-- ===== src/News.antt =====
-- src/backtest/engine/news-calendar.ts: the times of news, and the binary search for one near a time.
-- Months count from 0, as `Date` has them.
pub mod Near
pub mod Sorted
use shamarx_app.Prelude.{
  ℕ, zero, suc, ◌+◌, ◌-◌, ◌*◌, ◌/◌, ◌%◌, Bool, true, false, ◌&&◌, ◌||◌, Option, none, some, List,
  [], ◌∷◌, ◌++◌, map, String, ltb, leb, ◌==◌, if◌then◌else◌, or_else, get_elem?, length,
}
use shamarx_app.Calendar.{year_length, weekday}

-- The impact, which is the same of all, is left out.
pub record NewsEvent : Type 0 where
  pub time : ℕ
  pub title : String
  pub currency : String

-- The days from 1970 to the year `1970 + n`.
days_of_years : ℕ → ℕ
days_of_years zero = 0
days_of_years (suc n) = days_of_years n + year_length (1970 + n)

month_length : ℕ → ℕ → ℕ
month_length year month =
    if month == 1
    then year_length year - 337
    else if month == 3 || month == 5 || month == 8 || month == 10
    then 30
    else 31

days_of_months : ℕ → ℕ → ℕ
unfolding month_length
days_of_months year zero = 0
days_of_months year (suc month) = days_of_months year month + month_length year month

-- `Date.UTC`, as a day number.
pub day_number : ℕ → ℕ → ℕ → ℕ
unfolding days_of_years days_of_months
day_number year month day = days_of_years (year - 1970) + days_of_months year month + (day - 1)

pub utc : ℕ → ℕ → ℕ → ℕ → ℕ → ℕ
utc year month day hours minutes = ((day_number year month day * 24 + hours) * 60 + minutes) * 60000

-- FOMC_DATES_UTC and ECB_DATES_UTC.
fomc_dates_utc : List ℕ
fomc_dates_utc =
    utc 2023 1 1 19 0
    ∷ utc 2023 2 22 18 0
    ∷ utc 2023 4 3 18 0
    ∷ utc 2023 5 14 18 0
    ∷ utc 2023 6 26 18 0
    ∷ utc 2023 8 20 18 0
    ∷ utc 2023 10 1 18 0
    ∷ utc 2023 11 13 19 0
    ∷ utc 2024 0 31 19 0
    ∷ utc 2024 2 20 18 0
    ∷ utc 2024 4 1 18 0
    ∷ utc 2024 5 12 18 0
    ∷ utc 2024 6 31 18 0
    ∷ utc 2024 8 18 18 0
    ∷ utc 2024 10 7 19 0
    ∷ utc 2024 11 18 19 0
    ∷ utc 2025 0 29 19 0
    ∷ utc 2025 2 19 18 0
    ∷ utc 2025 4 7 18 0
    ∷ utc 2025 5 18 18 0
    ∷ utc 2025 6 30 18 0
    ∷ utc 2025 8 17 18 0
    ∷ utc 2025 9 29 18 0
    ∷ utc 2025 11 10 19 0
    ∷ utc 2026 0 28 19 0
    ∷ utc 2026 2 18 18 0
    ∷ utc 2026 3 29 18 0
    ∷ utc 2026 5 17 18 0
    ∷ utc 2026 6 29 18 0
    ∷ utc 2026 8 16 18 0
    ∷ utc 2026 10 4 19 0
    ∷ utc 2026 11 16 19 0
    ∷ []

ecb_dates_utc : List ℕ
ecb_dates_utc =
    utc 2023 1 2 13 15
    ∷ utc 2023 2 16 13 15
    ∷ utc 2023 4 4 12 15
    ∷ utc 2023 5 15 12 15
    ∷ utc 2023 6 27 12 15
    ∷ utc 2023 8 14 12 15
    ∷ utc 2023 9 26 12 15
    ∷ utc 2023 11 14 13 15
    ∷ utc 2024 0 25 13 15
    ∷ utc 2024 2 7 13 15
    ∷ utc 2024 3 11 12 15
    ∷ utc 2024 5 6 12 15
    ∷ utc 2024 6 18 12 15
    ∷ utc 2024 8 12 12 15
    ∷ utc 2024 9 17 12 15
    ∷ utc 2024 11 12 13 15
    ∷ utc 2025 0 30 13 15
    ∷ utc 2025 2 6 13 15
    ∷ utc 2025 3 17 12 15
    ∷ utc 2025 5 5 12 15
    ∷ utc 2025 6 24 12 15
    ∷ utc 2025 8 11 12 15
    ∷ utc 2025 9 30 13 15
    ∷ utc 2025 11 18 13 15
    ∷ utc 2026 0 29 13 15
    ∷ utc 2026 2 12 13 15
    ∷ utc 2026 3 23 12 15
    ∷ utc 2026 5 11 12 15
    ∷ utc 2026 6 23 12 15
    ∷ utc 2026 8 10 12 15
    ∷ utc 2026 9 29 13 15
    ∷ utc 2026 11 17 13 15
    ∷ []

-- The day of the month.
pub first_friday_of_month : ℕ → ℕ → ℕ
first_friday_of_month year month = 1 + (12 - weekday (day_number year month 1)) % 7

-- The events of the first `n` months of a year.
months_of : ℕ → ℕ → List NewsEvent
months_of year zero = []
months_of year (suc n) =
    months_of year n
    ++ record {
      time = utc year n (first_friday_of_month year n) 12 30;
      title = "NFP — US Non-Farm Payrolls";
      currency = "USD";
    }
      ∷ record { time = utc year n 12 12 30; title = "US CPI"; currency = "USD" }
      ∷ []

-- The events of `n` years from `start_year` on.
generate_pattern_events : ℕ → ℕ → List NewsEvent
unfolding months_of
generate_pattern_events start_year zero = []
generate_pattern_events start_year (suc n) =
    months_of start_year 12 ++ generate_pattern_events (start_year + 1) n

insert_event : NewsEvent → List NewsEvent → List NewsEvent
insert_event e [] = e ∷ []
insert_event e (f ∷ rest) = if leb e.time f.time then e ∷ f ∷ rest else f ∷ insert_event e rest

-- The built-in stable `sort`, by the time.
sort_events : List NewsEvent → List NewsEvent
unfolding insert_event
sort_events [] = []
sort_events (e ∷ rest) = insert_event e (sort_events rest)

pub unsorted_events : List NewsEvent
unfolding generate_pattern_events fomc_dates_utc ecb_dates_utc
unsorted_events =
    generate_pattern_events 2023 4
    ++ map (λ (t : ℕ). record { time = t; title = "FOMC Rate Decision"; currency = "USD" })
        fomc_dates_utc
    ++ map (λ (t : ℕ). record { time = t; title = "ECB Rate Decision"; currency = "EUR" })
        ecb_dates_utc

pub all_events : List NewsEvent
unfolding sort_events
all_events = sort_events unsorted_events

pub event_times_ms : List ℕ
event_times_ms = map (λ (e : NewsEvent). e.time) all_events

-- `Math.abs(et - t) <= window`.
abbrev pub is_near : ℕ → ℕ → ℕ → Bool
is_near t window et = leb et (t + window) && leb t (et + window)

-- The loop over the times from `lo` and below `hi + 1`, with fuel; `none` where the fuel runs out.
-- An index out of range, which is NaN in the source, does not occur.
pub search_near : ℕ → List ℕ → ℕ → ℕ → ℕ → ℕ → Option Bool
search_near zero times t window lo hi = none
search_near (suc fuel) times t window lo hi =
    let mid = (lo + hi - 1) / 2 in
    let right = search_near fuel times t window (suc mid) hi in
    let left = search_near fuel times t window lo mid in
    if ltb lo hi
    then (elim (get_elem? times mid) [
      | none ↦ some false
      | some et ↦ if is_near t window et then some true else if ltb et t then right else left
    ])
    else some false

-- Each round leaves fewer times, so one step more than there are times suffices.
pub is_in_blackout : List ℕ → ℕ → ℕ → Bool
is_in_blackout times t window_minutes =
    or_else (search_near (suc (length times)) times t (window_minutes * 60 * 1000) 0 (length times))
      false
