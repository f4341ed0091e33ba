-- ===== src/Smc/Bos.antt =====
-- src/backtest/engine/smc/bos-detector.ts: breaks of structure. A loop that counts down from
-- `lo + n` is a recursion on `n`. The outer option is none where the source reads a bar past the
-- end and throws.
pub mod Break
use shamarx_app.Prelude.{
  ℕ, zero, suc, ◌+◌, ◌-◌, Bool, true, false, Option, none, some, List, get_elem?, length, ltb, leb,
  max, if◌then◌else◌,
}
use shamarx_app.Double.{Double, ◌⊲◌}
use shamarx_app.Engine.{Side, BacktestCandle}
use shamarx_app.Smc.Scan.{is_buy}
use shamarx_app.Smc.Swing.{find_recent_swing_high, find_recent_swing_low, oldest, swept_side}

pub record Bos (W : Type 0) : Type 0 where
  pub level : W
  pub broken_at_idx : ℕ
  pub broken_at_time : ℕ
  pub is_bullish : Bool

abbrev pub start_of : ℕ → ℕ → ℕ → ℕ
start_of end_idx lookback swing_lookback = max swing_lookback (end_idx - lookback)

module _ {W : Type 0} ⦃d : Double W⦄ where
  -- The swing before the bar `k` that a break in the direction takes out.
  abbrev pub swing_to_break : List (BacktestCandle W) → Side → ℕ → ℕ → Option W
  swing_to_break candles side k swing_lookback =
      if is_buy side
      then find_recent_swing_high candles k swing_lookback
      else find_recent_swing_low candles k swing_lookback

  abbrev pub breaks : Side → BacktestCandle W → W → Bool
  breaks side c swing = if is_buy side then swing ⊲ c.close else c.close ⊲ swing

  abbrev pub bos_of : Side → ℕ → BacktestCandle W → W → Bos W
  bos_of side k c swing = record {
    level = swing;
    broken_at_idx = k;
    broken_at_time = c.open_time;
    is_bullish = is_buy side;
  }

  -- The body of the loop at the bar `k`, with the result of the older bars.
  abbrev pub break_or :
      Side
      → ℕ
      → Option W
      → Option (BacktestCandle W)
      → Option (Option (Bos W))
      → Option (Option (Bos W))
  break_or side k none bar older = older
  break_or side k (some swing) none older = none
  break_or side k (some swing) (some c) older =
      if breaks side c swing then some (some (bos_of side k c swing)) else older

  unfoldable pub find_break : List (BacktestCandle W) → Side → ℕ → ℕ → ℕ → Option (Option (Bos W))
  find_break candles side swing_lookback lo zero = some none
  find_break candles side swing_lookback lo (suc n) =
      let k = lo + n in
      let rest = find_break candles side swing_lookback lo n in
      if ltb k 1
      then some none
      else break_or side k (swing_to_break candles side k swing_lookback) (get_elem? candles k) rest

  unfoldable pub detect_bos : List (BacktestCandle W) → Side → ℕ → ℕ → ℕ → Option (Option (Bos W))
  detect_bos candles side end_idx lookback swing_lookback =
      let start = start_of end_idx lookback swing_lookback in
      if ltb (length candles) (swing_lookback + 2)
      then some none
      else find_break candles side swing_lookback start (end_idx + 1 - start)

  -- The swept extreme, seen as a break of an earlier swing of its own kind: that swing.
  find_broken : List (BacktestCandle W) → Side → W → ℕ → ℕ → ℕ → Option W
  find_broken candles side swing_level fractal_lookback lo zero = none
  find_broken candles side swing_level fractal_lookback lo (suc n) =
      let rest = find_broken candles side swing_level fractal_lookback lo n in
      let prior =
        if is_buy side
        then find_recent_swing_low candles (lo + n + 1) fractal_lookback
        else find_recent_swing_high candles (lo + n + 1) fractal_lookback in
      elim prior [
        | none ↦ rest
        | some swing ↦
            if (if is_buy side then swing_level ⊲ swing else swing ⊲ swing_level)
            then some swing
            else rest
      ]

  -- The broken level and the time of the swing.
  pub swept_level_was_itself_a_bos :
      List (BacktestCandle W) → ℕ → Side → ℕ → ℕ → Option (Option (W × ℕ))
  unfolding find_broken
  swept_level_was_itself_a_bos candles swing_idx side lookback fractal_lookback =
      let lo = oldest swing_idx lookback in
      let found : Option (Option (W × ℕ)) = elim (get_elem? candles swing_idx) [
        | none ↦ none
        | some swing ↦
            elim (find_broken candles side (swept_side side swing) fractal_lookback lo
              (swing_idx - 1 - lo)) [
                | none ↦ some none
                | some level ↦ some (some (level, swing.open_time))
              ]
      ] in
      if ltb swing_idx 2 then some none else found

  abbrev since : ℕ → Option (Bos W) → Option (Bos W)
  since since_idx none = none
  since since_idx (some bos) = if leb since_idx bos.broken_at_idx then some bos else none

  unfoldable pub has_bos_after :
      List (BacktestCandle W) → Side → ℕ → ℕ → ℕ → Option (Option (Bos W))
  has_bos_after candles side since_idx end_idx swing_lookback =
      elim (detect_bos candles side end_idx (max 1 (end_idx - since_idx)) swing_lookback) [
        | none ↦ none
        | some result ↦ some (since since_idx result)
      ]
