-- ===== src/Smc/Sweep/Shape.antt =====
-- The shape of every setup that the detector reports, whichever of its two variants reports it.
use shamarx_app.Prelude.{
  ℕ, ◌+◌, ◌≡◌, ◌⊎◌, refl, sym, subst, inl, inr, true, false, ◌&&◌, Option, none, some, List, arith,
  All, or_else, get_elem?, Option-cases, Bool-cases,
}
use shamarx_app.Double.{Double, ◌⊖◌, ◌⊗◌, ◌⊴◌, num, number_of}
use shamarx_app.Engine.{Side, buy, sell, BacktestCandle}
use shamarx_app.Smc.{
  SmcMode, reversal, continuation, D1Bias, bullish, bearish, neutral, AnchorType, pdh, pdl, asian_h,
  asian_l, weekly_h, weekly_l, IndicatorState, PendingSetup, SmcPairConfig,
}
use shamarx_app.Smc.Swing.{find_recent_swing_high, find_recent_swing_low}
use shamarx_app.Smc.Anchor.{get_anchor_levels}
use shamarx_app.Smc.Sweep.{
  D1Context, mode_of, is_filtered, is_spike, agrees, flag, sell_setup, buy_setup, swing_setup,
  passes_displacement, first_anchor, anchor_setup, detect_sweep, may, upper_anchors, lower_anchors,
}
use shamarx_app.Smc.Sweep.Taken.{
  IsSweep, sell_setup-IsSweep, buy_setup-IsSweep, first_of-some, first_anchor-some,
}

module _ {W : Type 0} ⦃d : Double W⦄ (candles : List (BacktestCandle W)) (h1_idx : ℕ)
    (cfg : SmcPairConfig W) (bar : BacktestCandle W) (atr : W) where
  -- The recent swing that a setup in the direction takes out.
  abbrev pub recent_swing : Side → Option W
  recent_swing sell = find_recent_swing_high candles h1_idx cfg.recent_swing_lookback_h1
  recent_swing buy = find_recent_swing_low candles h1_idx cfg.recent_swing_lookback_h1

  abbrev FromSwing : D1Bias → SmcMode → PendingSetup W → Type 0
  FromSwing bias mode p =
      IsSweep bar atr h1_idx bias mode cfg p × (recent_swing p.direction ≡ some p.sweep_level)

  sold :
      (bias : D1Bias) (mode : SmcMode) (p : PendingSetup W)
      → agrees mode bias sell ≡ true
      → sell_setup (recent_swing sell) none bar atr h1_idx mode cfg ≡ some p
      → FromSwing bias mode p
  sold bias mode p allowed h =
      let (s, direction, level, _) =
        sell_setup-IsSweep bar atr h1_idx bias mode cfg (recent_swing sell) none p allowed h in
      (s, subst (λ side. recent_swing side ≡ some p.sweep_level) (sym direction) level)

  bought :
      (bias : D1Bias) (mode : SmcMode) (p : PendingSetup W)
      → agrees mode bias buy ≡ true
      → buy_setup (recent_swing buy) none bar atr h1_idx mode cfg ≡ some p
      → FromSwing bias mode p
  bought bias mode p allowed h =
      let (s, direction, level, _) =
        buy_setup-IsSweep bar atr h1_idx bias mode cfg (recent_swing buy) none p allowed h in
      (s, subst (λ side. recent_swing side ≡ some p.sweep_level) (sym direction) level)

  swing_setup-IsSweep :
      (bias : D1Bias) (mode : SmcMode) (p : PendingSetup W)
      → swing_setup candles h1_idx bias mode cfg bar atr ≡ some p
      → FromSwing bias mode p
  unfolding swing_setup
  swing_setup-IsSweep bullish continuation p h = bought bullish continuation p refl h
  swing_setup-IsSweep bearish continuation p h = sold bearish continuation p refl h
  swing_setup-IsSweep neutral continuation p h = absurd (ground arith)
  swing_setup-IsSweep bias reversal p h = elim (first_of-some _ _ p h) [
    | inl sells ↦ sold bias reversal p refl sells
    | inr buys ↦ bought bias reversal p refl buys
  ]

  -- The level of an anchor, on the side that a setup in the direction takes out.
  abbrev pub level_of : Side → AnchorType → Option W
  level_of side anchor =
      let a = get_anchor_levels candles bar.open_time in
      elim side [
        | sell ↦ elim anchor [
          | pdh ↦ a.pdh
          | asian_h ↦ a.asian_high
          | weekly_h ↦ a.weekly_high
          | _ ↦ none
        ]
        | buy ↦ elim anchor [
          | pdl ↦ a.pdl
          | asian_l ↦ a.asian_low
          | weekly_l ↦ a.weekly_low
          | _ ↦ none
        ]
      ]

  -- The next bar moves in the direction by at least the displacement of the pair, where it asks for
  -- one.
  abbrev pub IsDisplaced : Side → Type 0
  IsDisplaced side =
      ((or_else cfg.anchor_displacement_atr (num 0) ⊴ num 0) ≡ true)
      ⊎ ((next : BacktestCandle W) × (get_elem? candles (h1_idx + 1) ≡ some next)
          × ((or_else cfg.anchor_displacement_atr (num 0) ⊗ atr ⊴ (elim side [
            | buy ↦ next.close ⊖ next.opening
            | sell ↦ next.opening ⊖ next.close
          ]))
              ≡ true))

  -- The anchor that the setup names has the level, and the next bar displaces.
  abbrev pub OnAnchor : PendingSetup W → Type 0
  OnAnchor p =
      ((anchor : AnchorType) × (p.anchor_type ≡ some anchor)
        × (level_of p.direction anchor ≡ some p.sweep_level))
      × IsDisplaced p.direction

  passes_displacement-IsDisplaced :
      (side : Side) → passes_displacement candles h1_idx cfg atr side ≡ true → IsDisplaced side
  unfolding passes_displacement
  passes_displacement-IsDisplaced side h =
      elim (Bool-cases (or_else cfg.anchor_displacement_atr (num 0) ⊴ num 0)) [
        | inl off ↦ inl off
        | inr on ↦ elim (Option-cases (get_elem? candles (h1_idx + 1))) [
          | inl outside ↦ absurd (ground (arith, on, outside))
          | inr (next, at) ↦ inr (next, at, ground (arith, on, at))
        ]
      ]

  abbrev FromAnchor : D1Bias → SmcMode → PendingSetup W → Type 0
  FromAnchor bias mode p = IsSweep bar atr h1_idx bias mode cfg p × OnAnchor p

  anchor_sold :
      (bias : D1Bias) (mode : SmcMode) (levels : List (Option W × AnchorType)) (p : PendingSetup W)
      → All (λ (l : Option W × AnchorType). level_of sell l.1 ≡ l.0) levels
      → first_anchor
          (λ level anchor. sell_setup level anchor bar atr h1_idx mode cfg)
          (passes_displacement candles h1_idx cfg atr sell && agrees mode bias sell)
          levels
        ≡ some p
      → FromAnchor bias mode p
  anchor_sold bias mode levels p listed h =
      let (may, (anchor, found)) =
        first_anchor-some (λ level anchor. sell_setup level anchor bar atr h1_idx mode cfg)
          (passes_displacement candles h1_idx cfg atr sell && agrees mode bias sell) (level_of sell)
          levels p listed h in
      let (s, direction, level, named) =
        sell_setup-IsSweep bar atr h1_idx bias mode cfg (level_of sell anchor) (some anchor) p
          (ground arith) found in
      let displaced = passes_displacement-IsDisplaced sell (ground arith) in
      (
        s,
        (
          (
            anchor,
            named,
            subst (λ side. level_of side anchor ≡ some p.sweep_level) (sym direction) level,
          ),
          subst IsDisplaced (sym direction) displaced,
        ),
      )

  anchor_bought :
      (bias : D1Bias) (mode : SmcMode) (levels : List (Option W × AnchorType)) (p : PendingSetup W)
      → All (λ (l : Option W × AnchorType). level_of buy l.1 ≡ l.0) levels
      → first_anchor
          (λ level anchor. buy_setup level anchor bar atr h1_idx mode cfg)
          (passes_displacement candles h1_idx cfg atr buy && agrees mode bias buy)
          levels
        ≡ some p
      → FromAnchor bias mode p
  anchor_bought bias mode levels p listed h =
      let (may, (anchor, found)) =
        first_anchor-some (λ level anchor. buy_setup level anchor bar atr h1_idx mode cfg)
          (passes_displacement candles h1_idx cfg atr buy && agrees mode bias buy) (level_of buy)
          levels p listed h in
      let (s, direction, level, named) =
        buy_setup-IsSweep bar atr h1_idx bias mode cfg (level_of buy anchor) (some anchor) p
          (ground arith) found in
      let displaced = passes_displacement-IsDisplaced buy (ground arith) in
      (
        s,
        (
          (
            anchor,
            named,
            subst (λ side. level_of side anchor ≡ some p.sweep_level) (sym direction) level,
          ),
          subst IsDisplaced (sym direction) displaced,
        ),
      )

  anchor_setup-IsSweep :
      (bias : D1Bias) (mode : SmcMode) (p : PendingSetup W)
      → anchor_setup candles h1_idx bias mode cfg bar atr ≡ some p
      → FromAnchor bias mode p
  unfolding anchor_setup
  anchor_setup-IsSweep bias mode p h =
      let a = get_anchor_levels candles bar.open_time in
      let upper =
        first_anchor (λ level anchor. sell_setup level anchor bar atr h1_idx mode cfg)
          (may candles h1_idx bias mode cfg atr sell) (upper_anchors a) in
      let lower =
        first_anchor (λ level anchor. buy_setup level anchor bar atr h1_idx mode cfg)
          (may candles h1_idx bias mode cfg atr buy) (lower_anchors a) in
      elim (first_of-some upper lower p h) [
        | inl sells ↦ anchor_sold bias mode (upper_anchors a) p (refl, (refl, (refl, tt))) sells
        | inr buys ↦ anchor_bought bias mode (lower_anchors a) p (refl, (refl, (refl, tt))) buys
      ]

module _ {W : Type 0} ⦃d : Double W⦄ (candles : List (BacktestCandle W))
    (indicators : IndicatorState W) (h1_idx : ℕ) (bias : D1Bias) (d1_adx : W)
    (cfg : SmcPairConfig W) (ctx : D1Context W) where
  -- The setup is a sweep by the bar at `h1_idx`, neither a news spike nor rejected by the filter, of
  -- a recent swing or, where the pair trades anchors, of the anchor that the setup names.
  pub record IsDetected (p : PendingSetup W) : Type 0 where
    pub bar : BacktestCandle W
    pub atr : W
    pub there : get_elem? candles h1_idx ≡ some bar
    pub measured : number_of (get_elem? indicators.atr14 h1_idx) ≡ some atr
    pub moves : (atr ⊴ num 0) ≡ false
    pub calm : is_spike atr (number_of (get_elem? indicators.atr_baseline h1_idx)) cfg ≡ false
    pub unfiltered : is_filtered cfg (mode_of d1_adx cfg) ctx bias ≡ false
    pub sweep : IsSweep bar atr h1_idx bias (mode_of d1_adx cfg) cfg p
    pub source :
        ((flag cfg.use_anchor_sweeps ≡ true) × OnAnchor candles h1_idx cfg bar atr p)
        ⊎ ((flag cfg.use_anchor_sweeps ≡ false)
            × (recent_swing candles h1_idx cfg bar atr p.direction ≡ some p.sweep_level))

  -- A setup that is detected is a sweep by its bar, calm and not filtered, in a direction that the mode
  -- and the bias allow. Its level is the recent swing or, where the pair trades anchors, that of the
  -- anchor it names, a high for a sale and a low for a purchase, and then the next bar moves in its
  -- direction by the displacement, where the pair asks for one.
  pub detect_sweep-IsDetected :
      (p : PendingSetup W)
      → detect_sweep candles indicators h1_idx bias d1_adx cfg ctx ≡ some p
      → IsDetected p
  unfolding detect_sweep
  detect_sweep-IsDetected p h = elim (Option-cases (get_elem? candles h1_idx)) [
    | inl no_bar ↦ absurd (ground arith)
    | inr (bar, there) ↦ elim (Option-cases (number_of (get_elem? indicators.atr14 h1_idx))) [
      | inl no_atr ↦ absurd (ground arith)
      | inr (atr, measured) ↦ elim (Bool-cases (flag cfg.use_anchor_sweeps)) [
        | inl anchors ↦
            let (sweep, displaced) =
              anchor_setup-IsSweep candles h1_idx cfg bar atr bias (mode_of d1_adx cfg) p
                (ground arith) in
            record {
              bar = bar;
              atr = atr;
              there = there;
              measured = measured;
              moves = ground arith;
              calm = ground arith;
              unfiltered = ground arith;
              sweep = sweep;
              source = inl (anchors, displaced);
            }
        | inr swings ↦
            let (sweep, level) =
              swing_setup-IsSweep candles h1_idx cfg bar atr bias (mode_of d1_adx cfg) p
                (ground arith) in
            record {
              bar = bar;
              atr = atr;
              there = there;
              measured = measured;
              moves = ground arith;
              calm = ground arith;
              unfiltered = ground arith;
              sweep = sweep;
              source = inr (swings, level);
            }
      ]
    ]
  ]
