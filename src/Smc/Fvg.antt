-- ===== src/Smc/Fvg.antt =====
-- src/backtest/engine/smc/fvg-detector.ts: fair value gaps. A gap lies around the bar `i`, between
-- the bars before and after it; the bars that the loops read are all in range.
pub mod Open
use shamarx_app.Prelude.{
  ℕ, ◌+◌, ◌-◌, Bool, true, false, not, ◌&&◌, ◌||◌, Option, none, some, List, [], ◌∷◌, get_elem?,
  length, ltb, leb, max, or_else, is_some, reverse, if◌then◌else◌,
}
use shamarx_app.Double.{Double, ◌⊖◌, ◌⊗◌, ◌⊲◌, ◌⊴◌, num}
use shamarx_app.Engine.{Side, BacktestCandle}
use shamarx_app.Smc.Scan.{
  collect, last_where, end_of, is_buy, same, first_reentry, atr_at, is_inside,
}

pub record Fvg (W : Type 0) : Type 0 where
  pub top : W
  pub bottom : W
  pub candle_idx : ℕ
  pub candle_time : ℕ
  pub is_bullish : Bool
  pub mitigated : Bool
  pub mitigated_at_idx : Option ℕ
  pub height : W

pub record DetectFvgsOptions (W : Type 0) : Type 0 where
  pub lookback : Option ℕ
  pub end_idx : Option ℕ
  pub min_height_atr_fraction : Option W
  pub atr : Option (List W)

-- The first bar that the loop of `detectFvgs` visits.
abbrev pub first_gap : ℕ → Option ℕ → ℕ
first_gap end_idx lookback = max 1 (end_idx - or_else lookback end_idx) + 1

module _ {W : Type 0} ⦃d : Double W⦄ where
  unfoldable pub make_fvg :
      List (BacktestCandle W) → BacktestCandle W → ℕ → W → W → Bool → ℕ → Fvg W
  make_fvg candles c candle_idx bottom top is_bullish end_idx =
      let at =
        first_reentry is_bullish top bottom candles (candle_idx + 2)
          (end_idx + 1 - (candle_idx + 2)) in
      record {
        top = top;
        bottom = bottom;
        candle_idx = candle_idx;
        candle_time = c.open_time;
        is_bullish = is_bullish;
        mitigated = is_some at;
        mitigated_at_idx = at;
        height = top ⊖ bottom;
      }

  unfoldable pub passes_atr_filter : Fvg W → ℕ → W → Option (List W) → Bool
  passes_atr_filter fvg candle_idx fraction atr =
      let local_atr = atr_at atr candle_idx in
      (fraction ⊴ num 0) || (local_atr ⊴ num 0) || (fraction ⊗ local_atr ⊴ fvg.height)

  -- The gap between the bars before and after `c`.
  abbrev pub between :
      List (BacktestCandle W)
      → ℕ
      → ℕ
      → BacktestCandle W
      → BacktestCandle W
      → BacktestCandle W
      → Option (Fvg W)
  between candles end_idx i prev c next =
      if prev.high ⊲ next.low
      then some (make_fvg candles c i prev.high next.low true end_idx)
      else if next.high ⊲ prev.low
      then some (make_fvg candles c i next.high prev.low false end_idx)
      else none

  abbrev pub kept : W → Option (List W) → ℕ → Option (Fvg W) → Option (Fvg W)
  kept fraction atr i none = none
  kept fraction atr i (some f) = if passes_atr_filter f i fraction atr then some f else none

  -- The body of the loop of `detectFvgs`.
  unfoldable pub gap_at : List (BacktestCandle W) → ℕ → W → Option (List W) → ℕ → Option (Fvg W)
  gap_at candles end_idx fraction atr i = elim (get_elem? candles (i - 1)) [
    | none ↦ none
    | some prev ↦ elim (get_elem? candles i) [
      | none ↦ none
      | some c ↦ elim (get_elem? candles (i + 1)) [
        | none ↦ none
        | some next ↦ kept fraction atr i (between candles end_idx i prev c next)
      ]
    ]
  ]

  unfoldable pub detect_fvgs : List (BacktestCandle W) → DetectFvgsOptions W → List (Fvg W)
  detect_fvgs candles options =
      let end_idx = end_of options.end_idx (length candles) in
      let first = first_gap end_idx options.lookback in
      collect (gap_at candles end_idx (or_else options.min_height_atr_fraction (num 0)) options.atr)
        first (end_idx - first)

  -- The zone is active and in the direction of the trade.
  abbrev pub supports : Side → Fvg W → Bool
  supports side f = not f.mitigated && same f.is_bullish (is_buy side)

  unfoldable pub nearest_unmitigated_fvg :
      List (BacktestCandle W) → Side → DetectFvgsOptions W → Option (Fvg W)
  nearest_unmitigated_fvg candles side options =
      last_where (supports side) (detect_fvgs candles options)

  abbrev is_near : Fvg W → W → W → W → Bool
  is_near f entry_price max_distance_atr current_atr =
      let distance = if f.top ⊲ entry_price then entry_price ⊖ f.top else f.bottom ⊖ entry_price in
      (current_atr ⊴ num 0)
      || is_inside entry_price f.bottom f.top
      || (distance ⊴ max_distance_atr ⊗ current_atr)

  pub has_supporting_fvg : List (BacktestCandle W) → Side → W → W → List W → ℕ → Option (Fvg W)
  has_supporting_fvg candles side entry_price max_distance_atr atr end_idx =
      let options : DetectFvgsOptions W = record {
        lookback = none;
        end_idx = some end_idx;
        min_height_atr_fraction = none;
        atr = some atr;
      } in
      elim (nearest_unmitigated_fvg candles side options) [
        | none ↦ none
        | some f ↦
            if is_near f entry_price max_distance_atr (atr_at (some atr) end_idx)
            then some f
            else none
      ]

  -- The loop of `sweptMoveLeftFvg`, over the gaps from the newest on.
  left_before : Bool → ℕ → ℕ → List (Fvg W) → Option (Fvg W)
  left_before want_bullish min_idx swing_idx [] = none
  left_before want_bullish min_idx swing_idx (f ∷ older) =
      let rest = left_before want_bullish min_idx swing_idx older in
      if ltb f.candle_idx min_idx
      then none
      else if leb swing_idx f.candle_idx
      then rest
      else if same f.is_bullish want_bullish
      then some f
      else rest

  pub swept_move_left_fvg :
      List (BacktestCandle W) → ℕ → Side → ℕ → Option (List W) → Option (Fvg W)
  unfolding left_before
  swept_move_left_fvg candles swing_idx side lookback atr =
      let all = detect_fvgs candles record {
        lookback = some lookback;
        end_idx = some swing_idx;
        min_height_atr_fraction = none;
        atr = atr;
      } in
      if ltb swing_idx 2
      then none
      else left_before (not (is_buy side)) (swing_idx - lookback) swing_idx (reverse all)
