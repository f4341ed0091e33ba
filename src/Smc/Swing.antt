-- ===== src/Smc/Swing.antt =====
-- The swings of src/backtest/engine/smc/sweep-detector.ts: three-bar fractals, newest first. A loop
-- that counts down from `lo + n` is a recursion on `n`. A bar past the end is skipped, as the source
-- does; no other index is out of range.
pub mod Recent
use shamarx_app.Prelude.{
  ℕ, zero, suc, ◌+◌, ◌-◌, Bool, true, false, ◌&&◌, Option, none, some, List, get_elem?,
  if◌then◌else◌, max,
}
use shamarx_app.Double.{Double, ◌⊲◌}
use shamarx_app.Engine.{Side, buy, sell, BacktestCandle}

-- The oldest bar of a search over `lookback` bars before `idx`.
abbrev pub oldest : ℕ → ℕ → ℕ
oldest idx lookback = max 1 (idx - lookback)

module _ {W : Type 0} where
  -- `candles[k].low` or `.high`.
  abbrev pub level_at : (BacktestCandle W → W) → Option (BacktestCandle W) → Option W
  level_at level none = none
  level_at level (some c) = some (level c)

  abbrev pub is_extreme : (W → W → Bool) → Option W → Option W → Option W → Bool
  is_extreme beyond (some older) (some here) (some newer) = beyond here older && beyond here newer
  is_extreme beyond _ _ _ = false

  -- The loop of both searches, over the level of a bar and the order in which it is `beyond`.
  unfoldable pub find_swing :
      (W → W → Bool) → (BacktestCandle W → W) → List (BacktestCandle W) → ℕ → ℕ → Option W
  find_swing beyond level candles lo zero = none
  find_swing beyond level candles lo (suc n) =
      let k = lo + n in
      let here = level_at level (get_elem? candles k) in
      let rest = find_swing beyond level candles lo n in
      if is_extreme beyond (level_at level (get_elem? candles (k - 1))) here
        (level_at level (get_elem? candles (k + 1)))
      then here
      else rest

module _ {W : Type 0} ⦃d : Double W⦄ where
  unfoldable pub find_recent_swing_high : List (BacktestCandle W) → ℕ → ℕ → Option W
  find_recent_swing_high candles h1_idx lookback =
      let lo = oldest h1_idx lookback in
      find_swing (λ here other. other ⊲ here) (λ c. c.high) candles lo (h1_idx - lo)

  unfoldable pub find_recent_swing_low : List (BacktestCandle W) → ℕ → ℕ → Option W
  find_recent_swing_low candles h1_idx lookback =
      let lo = oldest h1_idx lookback in
      find_swing (λ here other. here ⊲ other) (λ c. c.low) candles lo (h1_idx - lo)

  -- The extreme that a sweep in the direction takes out: the low for a buy.
  abbrev pub swept_side : Side → BacktestCandle W → W
  swept_side buy c = c.low
  swept_side sell c = c.high

  abbrev equals_level : W → Option W → Bool
  equals_level level none = false
  equals_level level (some x) = d.eq x level

  find_level : Side → W → List (BacktestCandle W) → ℕ → ℕ → Option ℕ
  find_level side level candles lo zero = none
  find_level side level candles lo (suc n) =
      let rest = find_level side level candles lo n in
      if equals_level level (level_at (swept_side side) (get_elem? candles (lo + n)))
      then some (lo + n)
      else rest

  pub find_swept_swing_idx : List (BacktestCandle W) → ℕ → Side → W → ℕ → Option ℕ
  unfolding find_level
  find_swept_swing_idx candles sweep_candle_idx side sweep_level search_back =
      let lo = oldest sweep_candle_idx search_back in
      find_level side sweep_level candles lo (sweep_candle_idx - lo)
