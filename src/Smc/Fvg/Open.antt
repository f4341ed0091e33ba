-- ===== src/Smc/Fvg/Open.antt =====
-- The gap that the search reports is a gap of the bars, still open, and the newest such.
use shamarx_app.Prelude.{
  ℕ, ◌+◌, ◌-◌, ◌≤◌, ◌<◌, ◌≡◌, true, false, Option, some, List, get_elem?, length, or_else,
}
use shamarx_app.Double.{Double, ◌⊲◌, num}
use shamarx_app.Engine.{Side, buy, sell, BacktestCandle}
use shamarx_app.Smc.Scan.{end_of, is_buy, reenters}
use shamarx_app.Smc.Fvg.{Fvg, DetectFvgsOptions, gap_at, first_gap, supports}

module _ {W : Type 0} ⦃d : Double W⦄ (candles : List (BacktestCandle W)) where
  -- The bars before and after `k` leave a gap in the direction, whose bounds `f` has, and no bar
  -- after them up to `end_idx` has come back to it.
  pub record IsOpenGap (side : Side) (end_idx k : ℕ) (f : Fvg W) : Type 0 where
    pub prev : BacktestCandle W
    pub next : BacktestCandle W
    pub is_prev : get_elem? candles (k - 1) ≡ some prev
    pub is_next : get_elem? candles (k + 1) ≡ some next
    pub at : f.candle_idx ≡ k
    pub direction : f.is_bullish ≡ is_buy side
    pub bottom : f.bottom ≡ (elim side [ buy ↦ prev.high | sell ↦ next.high ])
    pub top : f.top ≡ (elim side [ buy ↦ next.low | sell ↦ prev.low ])
    pub gap : (f.bottom ⊲ f.top) ≡ true
    pub open_still :
        (j : ℕ)
        → k + 2 ≤ j
        → j ≤ end_idx
        → reenters (is_buy side) f.top f.bottom (get_elem? candles j) ≡ false

module _ {W : Type 0} ⦃d : Double W⦄ (candles : List (BacktestCandle W)) (side : Side)
    (options : DetectFvgsOptions W) where
  abbrev end_idx : ℕ
  end_idx = end_of options.end_idx (length candles)

  abbrev first : ℕ
  first = first_gap end_idx options.lookback

  abbrev yields : ℕ → Option (Fvg W)
  yields = gap_at candles end_idx (or_else options.min_height_atr_fraction (num 0)) options.atr

  -- The result is an open gap of the direction around a bar of the range, and every gap that the
  -- loop keeps around a newer bar is filled or of the other direction.
  pub record IsNewestOpenGap (f : Fvg W) : Type 0 where
    pub from : first ≤ f.candle_idx
    pub below : f.candle_idx < end_idx
    pub gap : IsOpenGap candles side end_idx f.candle_idx f
    pub newest :
        (j : ℕ)
        → f.candle_idx < j
        → j < end_idx
        → (g : Fvg W) → yields j ≡ some g
        → supports side g ≡ false
