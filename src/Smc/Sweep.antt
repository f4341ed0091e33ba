-- ===== src/Smc/Sweep.antt =====
-- `detectSweep`, `detectAnchorSweep` and `isContinuationSafe` of
-- src/backtest/engine/smc/sweep-detector.ts.
pub mod Taken
pub mod Shape
use shamarx_app.Prelude.{
  ℕ, ◌+◌, ◌-◌, Bool, true, false, not, ◌&&◌, ◌||◌, Option, none, some, List, [], ◌∷◌, ltb, leb,
  if◌then◌else◌, or_else, get_elem?, length,
}
use shamarx_app.Double.{Double, ◌⊕◌, ◌⊖◌, ◌⊗◌, ◌⊘◌, ◌⊲◌, ◌⊴◌, num, dec, number_of}
use shamarx_app.Engine.{Side, buy, sell, BacktestCandle}
use shamarx_app.Smc.{
  SmcMode, reversal, continuation, D1Bias, bullish, bearish, neutral, AnchorType, pdh, pdl, asian_h,
  asian_l, weekly_h, weekly_l, IndicatorState, PendingSetup, SmcPairConfig,
}
use shamarx_app.Smc.Index.{index_for_time}
use shamarx_app.Smc.Swing.{find_recent_swing_high, find_recent_swing_low}
use shamarx_app.Smc.Anchor.{AnchorLevels, get_anchor_levels}

-- What the caller may pass of the daily candles.
pub record D1Context (W : Type 0) : Type 0 where
  pub candles : Option (List (BacktestCandle W))
  pub indicators : Option (IndicatorState W)
  pub current_time : Option ℕ

abbrev is_continuation : SmcMode → Bool
is_continuation continuation = true
is_continuation reversal = false

abbrev pub flag : Option Bool → Bool
flag none = false
flag (some b) = b

abbrev pub first_of {ℓ} : {A : Type ℓ} → Option A → Option A → Option A
first_of none b = b
first_of (some a) b = some a

-- The mode and the bias allow the direction.
abbrev pub agrees : SmcMode → D1Bias → Side → Bool
agrees reversal bias direction = true
agrees continuation bullish buy = true
agrees continuation bearish sell = true
agrees continuation _ _ = false

module _ {W : Type 0} ⦃d : Double W⦄ where
  -- The checks of `isContinuationSafe` from the third on, at the index of the current day.
  pub trend_is_healthy : List (BacktestCandle W) → IndicatorState W → ℕ → D1Bias → Bool
  trend_is_healthy candles s idx bias = elim (number_of (get_elem? s.adx14 idx)) [
    | none ↦ false
    | some adx_now ↦ elim (number_of (get_elem? s.adx14 (idx - 3))) [
      | none ↦ false
      | some adx_prev ↦ elim (number_of (get_elem? s.ema20 idx)) [
        | none ↦ false
        | some ema20 ↦ elim (number_of (get_elem? s.ema50 idx)) [
          | none ↦ false
          | some ema50 ↦ elim (get_elem? candles idx) [
            | none ↦ false
            | some c ↦
                let stacked : Bool = elim bias [
                  | bullish ↦ not (ema20 ⊴ ema50)
                  | bearish ↦ not (ema50 ⊴ ema20)
                  | neutral ↦ true
                ] in
                not (adx_now ⊴ adx_prev)
                && not (num 50 ⊲ adx_now)
                && stacked
                && not (c.close ⊴ num 0)
                && not (dec 6 2 ⊲ d.abs (c.close ⊖ ema50) ⊘ c.close)
          ]
        ]
      ]
    ]
  ]

  pub is_continuation_safe : List (BacktestCandle W) → Option (IndicatorState W) → ℕ → D1Bias → Bool
  is_continuation_safe [] indicators time bias = true
  is_continuation_safe (c ∷ rest) none time bias = true
  is_continuation_safe (c ∷ rest) (some s) time bias = elim (index_for_time (c ∷ rest) time) [
    | none ↦ false
    | some idx ↦ if ltb idx 50 then false else trend_is_healthy (c ∷ rest) s idx bias
  ]

  unfoldable pub mode_of : W → SmcPairConfig W → SmcMode
  mode_of d1_adx cfg = if cfg.trending_d1_adx ⊴ d1_adx then continuation else reversal

  -- The filter rejects the setup.
  unfoldable pub is_filtered : SmcPairConfig W → SmcMode → D1Context W → D1Bias → Bool
  is_filtered cfg mode ctx bias = elim ctx.candles [
    | none ↦ false
    | some candles ↦ elim ctx.current_time [
      | none ↦ false
      | some time ↦
          or_else cfg.auto_mode_filter true
          && is_continuation mode
          && not (is_continuation_safe candles ctx.indicators time bias)
    ]
  ]

  abbrev make :
      Side
      → W
      → W
      → Option AnchorType
      → BacktestCandle W
      → W
      → ℕ
      → SmcMode
      → SmcPairConfig W
      → PendingSetup W
  make direction level wick anchor bar atr h1_idx mode cfg = record {
    direction = direction;
    sweep_level = level;
    sweep_wick = wick;
    sweep_mid = (bar.high ⊕ bar.low) ⊘ num 2;
    sweep_candle_atr = atr;
    sweep_candle_high = bar.high;
    sweep_candle_low = bar.low;
    detected_at_h1_idx = h1_idx;
    expires_at_h1_idx = h1_idx + cfg.setup_expiry_h1_bars;
    mode = mode;
    sweep_time = bar.open_time;
    anchor_type = anchor;
  }

  -- The wick takes out the level by the buffer, and the close is back inside.
  abbrev pub sweeps_high : BacktestCandle W → W → W → Bool
  sweeps_high bar level buffer = (level ⊕ buffer ⊲ bar.high) && (bar.close ⊲ level)

  abbrev pub sweeps_low : BacktestCandle W → W → W → Bool
  sweeps_low bar level buffer = (bar.low ⊲ level ⊖ buffer) && (level ⊲ bar.close)

  -- The setup of a swept high or low, if there is one.
  unfoldable pub sell_setup :
      Option W
      → Option AnchorType
      → BacktestCandle W
      → W
      → ℕ
      → SmcMode
      → SmcPairConfig W
      → Option (PendingSetup W)
  sell_setup none anchor bar atr h1_idx mode cfg = none
  sell_setup (some level) anchor bar atr h1_idx mode cfg =
      if sweeps_high bar level (atr ⊗ cfg.sweep_buffer_atr)
      then some (make sell level bar.high anchor bar atr h1_idx mode cfg)
      else none

  unfoldable pub buy_setup :
      Option W
      → Option AnchorType
      → BacktestCandle W
      → W
      → ℕ
      → SmcMode
      → SmcPairConfig W
      → Option (PendingSetup W)
  buy_setup none anchor bar atr h1_idx mode cfg = none
  buy_setup (some level) anchor bar atr h1_idx mode cfg =
      if sweeps_low bar level (atr ⊗ cfg.sweep_buffer_atr)
      then some (make buy level bar.low anchor bar atr h1_idx mode cfg)
      else none

  -- The end of `detectSweep`, where the level is any recent swing.
  unfoldable pub swing_setup :
      List (BacktestCandle W)
      → ℕ
      → D1Bias
      → SmcMode
      → SmcPairConfig W
      → BacktestCandle W
      → W
      → Option (PendingSetup W)
  swing_setup candles h1_idx bias mode cfg bar atr =
      let high = find_recent_swing_high candles h1_idx cfg.recent_swing_lookback_h1 in
      let low = find_recent_swing_low candles h1_idx cfg.recent_swing_lookback_h1 in
      let sells = sell_setup high none bar atr h1_idx mode cfg in
      let buys = buy_setup low none bar atr h1_idx mode cfg in
      elim mode [
        | continuation ↦ elim bias [ bullish ↦ buys | bearish ↦ sells | neutral ↦ none ]
        | reversal ↦ first_of sells buys
      ]

  -- `passesDisplacement`, which reads the bar after the sweep.
  unfoldable pub passes_displacement :
      List (BacktestCandle W) → ℕ → SmcPairConfig W → W → Side → Bool
  passes_displacement candles h1_idx cfg atr direction =
      let disp_atr = or_else cfg.anchor_displacement_atr (num 0) in
      let moves : Bool = elim (get_elem? candles (h1_idx + 1)) [
        | none ↦ false
        | some next ↦ disp_atr ⊗ atr ⊴ (elim direction [
          | buy ↦ next.close ⊖ next.opening
          | sell ↦ next.opening ⊖ next.close
        ])
      ] in
      if disp_atr ⊴ num 0 then true else moves

  -- The first anchor of the list that yields a setup.
  unfoldable pub first_anchor :
      (Option W → Option AnchorType → Option (PendingSetup W))
      → Bool
      → List (Option W × AnchorType)
      → Option (PendingSetup W)
  first_anchor setup allowed [] = none
  first_anchor setup allowed ((level, anchor) ∷ rest) =
      first_of (if allowed then setup level (some anchor) else none)
        (first_anchor setup allowed rest)

  -- `highs` and `lows`.
  abbrev pub upper_anchors : AnchorLevels W → List (Option W × AnchorType)
  upper_anchors a = (a.pdh, pdh) ∷ (a.asian_high, asian_h) ∷ (a.weekly_high, weekly_h) ∷ []

  abbrev pub lower_anchors : AnchorLevels W → List (Option W × AnchorType)
  lower_anchors a = (a.pdl, pdl) ∷ (a.asian_low, asian_l) ∷ (a.weekly_low, weekly_l) ∷ []

  abbrev pub may :
      List (BacktestCandle W) → ℕ → D1Bias → SmcMode → SmcPairConfig W → W → Side → Bool
  may candles h1_idx bias mode cfg atr side =
      passes_displacement candles h1_idx cfg atr side && agrees mode bias side

  -- The end of `detectAnchorSweep`.
  unfoldable pub anchor_setup :
      List (BacktestCandle W)
      → ℕ
      → D1Bias
      → SmcMode
      → SmcPairConfig W
      → BacktestCandle W
      → W
      → Option (PendingSetup W)
  anchor_setup candles h1_idx bias mode cfg bar atr =
      let a = get_anchor_levels candles bar.open_time in
      first_of
        (first_anchor (λ level anchor. sell_setup level anchor bar atr h1_idx mode cfg)
          (may candles h1_idx bias mode cfg atr sell) (upper_anchors a))
        (first_anchor (λ level anchor. buy_setup level anchor bar atr h1_idx mode cfg)
          (may candles h1_idx bias mode cfg atr buy) (lower_anchors a))

  -- The bar is a news spike.
  abbrev pub is_spike : W → Option W → SmcPairConfig W → Bool
  is_spike atr none cfg = false
  is_spike atr (some baseline) cfg = (num 0 ⊲ baseline) && (cfg.atr_spike_limit ⊲ atr ⊘ baseline)

  unfoldable pub detect_sweep :
      List (BacktestCandle W)
      → IndicatorState W
      → ℕ
      → D1Bias
      → W
      → SmcPairConfig W
      → D1Context W
      → Option (PendingSetup W)
  detect_sweep candles indicators h1_idx bias d1_adx cfg ctx =
      let mode = mode_of d1_adx cfg in
      elim (get_elem? candles h1_idx) [
        | none ↦ none
        | some bar ↦ elim (number_of (get_elem? indicators.atr14 h1_idx)) [
          | none ↦ none
          | some atr ↦
              let rejected =
                ltb h1_idx 5
                || (atr ⊴ num 0)
                || is_spike atr (number_of (get_elem? indicators.atr_baseline h1_idx)) cfg
                || is_filtered cfg mode ctx bias in
              let anchored = anchor_setup candles h1_idx bias mode cfg bar atr in
              let swung = swing_setup candles h1_idx bias mode cfg bar atr in
              if rejected then none else if flag cfg.use_anchor_sweeps then anchored else swung
        ]
      ]
