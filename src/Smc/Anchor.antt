-- ===== src/Smc/Anchor.antt =====
-- src/backtest/engine/smc/anchor-levels.ts: the highs and lows of yesterday, of the Asian session and
-- of last week. The subtractions of days are written as sums on the other side.
pub mod Windows
use shamarx_app.Prelude.{
  ℕ, ◌+◌, ◌-◌, ◌*◌, ◌%◌, Bool, true, false, not, ◌&&◌, Option, none, some, List, [], ◌∷◌, ltb, leb,
  ◌==◌, if◌then◌else◌, reverse,
}
use shamarx_app.Double.{Double, ◌⊖◌, ◌⊗◌, ◌⊲◌, ◌⊴◌}
use shamarx_app.Engine.{BacktestCandle}
use shamarx_app.Calendar.{date_of, weekday}

abbrev pub day_ms : ℕ
day_ms = 86400000

abbrev pub hour_ms : ℕ
hour_ms = 3600000

abbrev pub midnight : ℕ → ℕ
midnight t = date_of t * day_ms

abbrev pub since_monday : ℕ → ℕ
since_monday t = (weekday (date_of t) + 6) % 7

-- The windows of a candle's time, seen from the time `t`; a candle from `t` on is in none.
pub is_yesterday : ℕ → ℕ → Bool
is_yesterday t time = date_of time + 1 == date_of t

pub is_asian : ℕ → ℕ → Bool
is_asian t time = leb (midnight t) (time + 2 * hour_ms) && ltb time (midnight t + 6 * hour_ms)

pub is_last_week : ℕ → ℕ → Bool
is_last_week t time =
    leb (midnight t) (time + (since_monday t + 7) * day_ms)
    && ltb (time + since_monday t * day_ms) (midnight t)

-- More than two days before last week.
pub is_stale : ℕ → ℕ → Bool
is_stale t time = ltb (time + (since_monday t + 9) * day_ms) (midnight t)

pub record Seen (W : Type 0) : Type 0 where
  pub high : W
  pub low : W
  pub found : Bool

pub record AnchorRanges (W : Type 0) : Type 0 where
  pub day : Seen W
  pub asian : Seen W
  pub week : Seen W

pub record AnchorLevels (W : Type 0) : Type 0 where
  pub pdh : Option W
  pub pdl : Option W
  pub asian_high : Option W
  pub asian_low : Option W
  pub weekly_high : Option W
  pub weekly_low : Option W

module _ {W : Type 0} ⦃d : Double W⦄ where
  abbrev pub nothing_seen : Seen W
  nothing_seen = record { high = d.neg d.infinity; low = d.infinity; found = false }

  pub see : BacktestCandle W → Seen W → Seen W
  see c s = record {
    high = if s.high ⊲ c.high then c.high else s.high;
    low = if c.low ⊲ s.low then c.low else s.low;
    found = true;
  }

  abbrev pub see_if : Bool → BacktestCandle W → Seen W → Seen W
  see_if test c s = if test then see c s else s

  -- The body of the loop for a candle before `t`.
  pub see_all : ℕ → BacktestCandle W → AnchorRanges W → AnchorRanges W
  see_all t c r = record {
    day = see_if (is_yesterday t c.open_time) c r.day;
    asian = see_if (is_asian t c.open_time) c r.asian;
    week = see_if (is_last_week t c.open_time) c r.week;
  }

  -- The loop, over the candles from the newest on.
  pub scan_ranges : ℕ → List (BacktestCandle W) → AnchorRanges W → AnchorRanges W
  scan_ranges t [] r = r
  scan_ranges t (c ∷ older) r =
      let next = if leb t c.open_time then r else see_all t c r in
      let rest = scan_ranges t older next in
      if not (leb t c.open_time) && is_stale t c.open_time then next else rest

  abbrev pub level_if : Bool → W → Option W
  level_if found x = if found then some x else none

  pub levels_of : AnchorRanges W → AnchorLevels W
  levels_of r = record {
    pdh = level_if r.day.found r.day.high;
    pdl = level_if r.day.found r.day.low;
    asian_high = level_if r.asian.found r.asian.high;
    asian_low = level_if r.asian.found r.asian.low;
    weekly_high = level_if r.week.found r.week.high;
    weekly_low = level_if r.week.found r.week.low;
  }

  pub get_anchor_levels : List (BacktestCandle W) → ℕ → AnchorLevels W
  get_anchor_levels candles t = levels_of (
      scan_ranges t (reverse candles)
        record { day = nothing_seen; asian = nothing_seen; week = nothing_seen })

  pub within_tolerance : W → W → W → W → Bool
  within_tolerance price level tolerance_atr atr = d.abs (price ⊖ level) ⊴ tolerance_atr ⊗ atr
