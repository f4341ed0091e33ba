-- ===== src/Orchestrator/Signal/Protective.antt =====
-- What a pending setup has met when it fires.
use shamarx_app.Prelude.{
  ℕ, ap, ◌∙◌, or_else, if◌then◌else◌, ◌≡◌, refl, inl, inr, Bool, true, false, Option, none, some,
  List, String, any, Option-cases, arith, ◌-◌, get_elem?, ◌^◌,
}
use shamarx_app.Double.{Double, ◌⊕◌, ◌⊖◌, ◌⊗◌, ◌⊘◌, num, ◌⊲◌, ◌⊴◌, number_of}
use shamarx_app.Engine.{Side, buy, sell, BacktestCandle}
use shamarx_app.Engine.Instrument.{get_spread}
use shamarx_app.Risk.{create}
use shamarx_app.Broker.{SmcLiveSignal, SweepContext}
use shamarx_app.Smc.{PendingSetup, reversal, continuation}
use shamarx_app.Smc.Entry.{same_side, is_too_wide, round_to, entry_price_of, sl_price_of}
use shamarx_app.Orchestrator.{LiveContext, Surroundings, has}
use shamarx_app.Orchestrator.Detect.{View}
use shamarx_app.Orchestrator.Gates.{Gate, GateNotes, pass_gates, passed, rejected, thrown}
use shamarx_app.Orchestrator.Signal.{
  Prices, positive_atr, fire, prices_of, is_protective, is_loose, size_and_fire, judge_prices,
  judge, signal_of, signal_with, sizing_config, total_lot_of, context_of, format_reason,
  fire_or_keep,
}

module _ {W : Type 0} ⦃d : Double W⦄ where
  -- The signal is that of the setup at the prices: its identity, and the stop as it is sent.
  pub record IsSignalOf (v : View W) (setup : PendingSetup W) (p : Prices W)
      (signal : SmcLiveSignal W) : Type 0 where
    pub same_symbol : signal.symbol ≡ v.symbol
    pub same_direction : signal.side ≡ setup.direction
    pub same_sweep : signal.h1_sweep_time ≡ setup.sweep_time
    pub same_stop : signal.sl_price ≡ round_to (num (10 ^ v.instrument.price_precision)) p.sl_price

  -- The range of M15 on the last bar, or that of the sweep where there is none above 0.
  abbrev pub range_of : View W → PendingSetup W → W
  range_of v setup = elim (number_of (get_elem? v.m15_indicators.atr14 (v.m15_len - 1))) [
    | none ↦ setup.sweep_candle_atr
    | some a ↦ if num 0 ⊲ a then a else setup.sweep_candle_atr
  ]

  -- The price from which the stop is measured: the wick of the sweep, or in continuation the far end
  -- of its candle.
  abbrev pub far_end : PendingSetup W → W
  far_end setup = elim setup.mode [
    | reversal ↦ setup.sweep_wick
    | continuation ↦ elim setup.direction [
      | buy ↦ setup.sweep_candle_low
      | sell ↦ setup.sweep_candle_high
    ]
  ]

  -- The prices of the setup: the entry is half the spread beyond the last close, and the stop is
  -- behind the far end by a part of the range.
  pub record IsPricedAt (v : View W) (setup : PendingSetup W) (spread : W) (p : Prices W)
      : Type 0 where
    pub entry : p.entry_price ≡ (elim setup.direction [
      | buy ↦ v.last_m15.close ⊕ spread ⊘ num 2
      | sell ↦ v.last_m15.close ⊖ spread ⊘ num 2
    ])
    pub stop : p.sl_price ≡ (elim setup.direction [
      | buy ↦ far_end setup ⊖ range_of v setup ⊗ v.cfg.sl_buffer_atr_m15
      | sell ↦ far_end setup ⊕ range_of v setup ⊗ v.cfg.sl_buffer_atr_m15
    ])
    pub distance : p.sl_points ≡ d.abs (p.entry_price ⊖ p.sl_price)

  range_of_lem :
      (setup : PendingSetup W) (atr : Option W)
      → or_else (positive_atr atr) setup.sweep_candle_atr ≡ (elim atr [
        | none ↦ setup.sweep_candle_atr
        | some a ↦ if num 0 ⊲ a then a else setup.sweep_candle_atr
      ])
  range_of_lem setup none = refl
  range_of_lem setup (some a) = ground arith

  sl_price_of_lem :
      (setup : PendingSetup W) (x : W)
      → sl_price_of setup x
        ≡ (elim setup.direction [ buy ↦ far_end setup ⊖ x | sell ↦ far_end setup ⊕ x ])
  unfolding sl_price_of
  sl_price_of_lem setup x = ground arith

  entry_price_of_lem :
      (side : Side) (candle : BacktestCandle W) (spread : W)
      → entry_price_of side candle spread
        ≡ (elim side [ buy ↦ candle.close ⊕ spread ⊘ num 2 | sell ↦ candle.close ⊖ spread ⊘ num 2 ])
  unfolding entry_price_of
  entry_price_of_lem buy candle spread = refl
  entry_price_of_lem sell candle spread = refl

  pub prices_of-IsPricedAt :
      (v : View W) (setup : PendingSetup W) (spread : W)
      → IsPricedAt v setup spread (prices_of v setup spread)
  unfolding prices_of
  prices_of-IsPricedAt v setup spread =
      let atr = number_of (get_elem? v.m15_indicators.atr14 (v.m15_len - 1)) in
      record {
        entry = entry_price_of_lem setup.direction v.last_m15 spread;
        stop =
            ap (λ r. sl_price_of setup (r ⊗ v.cfg.sl_buffer_atr_m15)) (range_of_lem setup atr)
            ∙ sl_price_of_lem setup (range_of v setup ⊗ v.cfg.sl_buffer_atr_m15);
        distance = refl;
      }

  -- The tests that the setup has passed, at the prices.
  pub record IsSound (v : View W) (setup : PendingSetup W) (p : Prices W) : Type 0 where
    pub apart : (p.sl_points ⊴ num 0) ≡ false
    pub tight : is_loose v.cfg setup p.sl_points ≡ false
    pub protective :
        (elim setup.direction [
          | buy ↦ p.sl_price ⊲ p.entry_price
          | sell ↦ p.entry_price ⊲ p.sl_price
        ])
        ≡ true
    pub narrow :
        is_too_wide v.cfg (number_of (get_elem? v.m15_indicators.atr14 (v.m15_len - 1))) p.sl_points
        ≡ false
    pub supported : (notes : GateNotes W) × (pass_gates v setup p.entry_price ≡ passed notes)

  pub signal_of-IsSignalOf :
      (v : View W) (setup : PendingSetup W) (p : Prices W) (total_lot : W) (reason : Bool → String)
      (smc_context : Option (SweepContext W)) (signal : SmcLiveSignal W)
      → signal_of v setup p total_lot reason smc_context ≡ some signal
      → IsSignalOf v setup p signal
  unfolding signal_of signal_with
  signal_of-IsSignalOf v setup p total_lot reason smc_context signal h = ground arith

  fire_or_keep-fire :
      (o : Option (SmcLiveSignal W)) (signal : SmcLiveSignal W)
      → fire_or_keep o ≡ fire signal
      → o ≡ some signal
  fire_or_keep-fire none signal h = absurd (ground arith)
  fire_or_keep-fire (some other) signal h = ground arith

  size_and_fire-fire :
      (env : Surroundings W) (v : View W) (ctx : LiveContext W) (setup : PendingSetup W)
      (p : Prices W) (gates : Gate (GateNotes W)) (signal : SmcLiveSignal W)
      → size_and_fire env v ctx setup p gates ≡ fire signal
      → (IsSignalOf v setup p signal × (notes : GateNotes W) × (gates ≡ passed notes))
  unfolding size_and_fire
  size_and_fire-fire env v ctx setup p thrown signal h = absurd (ground arith)
  size_and_fire-fire env v ctx setup p rejected signal h = absurd (ground arith)
  size_and_fire-fire env v ctx setup p (passed notes) signal h =
      elim (Option-cases (create (sizing_config env ctx v.symbol))) [
        | inl unknown ↦ absurd (ground arith)
        | inr (m, known) ↦
            let lot = total_lot_of v setup p m in
            let context = context_of v setup notes in
            let reason = format_reason env v setup in
            let fires : fire_or_keep (signal_of v setup p lot reason context) ≡ fire signal =
              ground (arith, known) in
            let e = fire_or_keep-fire (signal_of v setup p lot reason context) signal fires in
            (signal_of-IsSignalOf v setup p lot reason context signal e, notes, refl)
      ]

  is_protective-sides :
      (side : Side) (p : Prices W)
      → is_protective side p ≡ true
      → (elim side [ buy ↦ p.sl_price ⊲ p.entry_price | sell ↦ p.entry_price ⊲ p.sl_price ]) ≡ true
  is_protective-sides buy p h = h
  is_protective-sides sell p h = h

  judge_prices-fire :
      (env : Surroundings W) (v : View W) (ctx : LiveContext W) (setup : PendingSetup W)
      (p : Prices W) (signal : SmcLiveSignal W)
      → judge_prices env v ctx setup p ≡ fire signal
      → (IsSignalOf v setup p signal × IsSound v setup p)
  unfolding judge_prices
  judge_prices-fire env v ctx setup p signal h =
      let sized : size_and_fire env v ctx setup p (pass_gates v setup p.entry_price) ≡ fire signal =
        ground arith in
      let (is_signal, notes, passes) =
        size_and_fire-fire env v ctx setup p (pass_gates v setup p.entry_price) signal sized in
      (
        is_signal,
        record {
          apart = ground arith;
          tight = ground arith;
          protective = is_protective-sides setup.direction p (ground arith);
          narrow = ground arith;
          supported = (notes, passes);
        },
      )

  -- A setup that fires stacks on no open direction and has not been traded; it is sound at its prices.
  pub record IsFired (v : View W) (ctx : LiveContext W) (actioned : List ℕ) (setup : PendingSetup W)
      (signal : SmcLiveSignal W) : Type 0 where
    pub unstacked : any (same_side setup.direction) ctx.open_directions ≡ false
    pub untraded : has actioned setup.sweep_time ≡ false
    pub spread : W
    pub quoted : get_spread v.symbol v.last_m15.open_time ≡ some spread
    pub prices : Prices W
    pub priced : IsPricedAt v setup spread prices
    pub of_setup : IsSignalOf v setup prices signal
    pub sound : IsSound v setup prices

  pub judge-IsFired :
      (env : Surroundings W) (v : View W) (ctx : LiveContext W) (actioned : List ℕ)
      (setup : PendingSetup W) (signal : SmcLiveSignal W)
      → judge env v ctx actioned setup ≡ fire signal
      → IsFired v ctx actioned setup signal
  unfolding judge
  judge-IsFired env v ctx actioned setup signal h =
      elim (Option-cases (get_spread {W = W} v.symbol v.last_m15.open_time)) [
        | inl unknown ↦ absurd (ground arith)
        | inr (spread, known) ↦
            let judged : judge_prices env v ctx setup (prices_of v setup spread) ≡ fire signal =
              ground arith in
            let (is_signal, sound) =
              judge_prices-fire env v ctx setup (prices_of v setup spread) signal judged in
            record {
              unstacked = ground arith;
              untraded = ground arith;
              spread = spread;
              quoted = known;
              prices = prices_of v setup spread;
              priced = prices_of-IsPricedAt v setup spread;
              of_setup = is_signal;
              sound = sound;
            }
      ]
