-- ===== src/Smc/Entry.antt =====
-- The entry of `runSmcBacktest` of src/backtest/engine/smc/smc-engine.ts: what becomes of a pending
-- setup on a bar, and the positions that it opens. The trails are those of trail-config.ts, as in Broker.
pub mod Legs
use shamarx_app.Prelude.{
  ℕ, ◌/◌, ◌%◌, ◌^◌, Bool, true, false, not, ◌&&◌, ◌||◌, Option, none, some, List, [], ◌∷◌, String,
  ltb, if◌then◌else◌, any, get_elem?, or_else,
}
use shamarx_app.Double.{Double, ◌⊕◌, ◌⊖◌, ◌⊗◌, ◌⊘◌, ◌⊲◌, ◌⊴◌, num, dec, cents, number_of}
use shamarx_app.Engine.{
  Side, buy, sell, BacktestCandle, RegimeTradeParams, SimulatedPosition, DetailedRegime, weak_trend,
}
use shamarx_app.Engine.Instrument.{InstrumentConfig}
use shamarx_app.Risk.{RiskManager}
use shamarx_app.Broker.{smc_tp1_trail, smc_runner_trail}
use shamarx_app.Risk.Lots.{calculate_lot_size}
use shamarx_app.Smc.{SmcMode, reversal, continuation, IndicatorState, PendingSetup, SmcPairConfig}

-- What the loop over the pending setups does with one.
pub data Verdict (W : Type 0) : Type 0 where
  keep : Verdict W
  discard : Verdict W
  enter : List (SimulatedPosition W) → Verdict W

abbrev pub same_side : Side → Side → Bool
same_side buy buy = true
same_side sell sell = true
same_side _ _ = false

abbrev pub mode_name : SmcMode → String
mode_name reversal = "REVERSAL"
mode_name continuation = "CONTINUATION"

abbrev bias_name : Side → String
bias_name buy = "BULLISH"
bias_name sell = "BEARISH"

abbrev pub session_of : ℕ → String
session_of time = if ltb (time / 3600000 % 24) 12 then "LONDON" else "NY"

module _ {W : Type 0} ⦃d : Double W⦄ where
  -- The amount, in the direction of the trade.
  abbrev pub ahead : Side → W → W → W
  ahead buy price amount = price ⊕ amount
  ahead sell price amount = price ⊖ amount

  abbrev behind : Side → W → W → W
  behind buy price amount = price ⊖ amount
  behind sell price amount = price ⊕ amount

  unfoldable pub entry_price_of : Side → BacktestCandle W → W → W
  entry_price_of side candle spread = ahead side candle.close (spread ⊘ num 2)

  unfoldable pub sl_price_of : PendingSetup W → W → W
  sl_price_of setup sl_buffer =
      let far : W = elim setup.mode [
        | continuation ↦ elim setup.direction [
          | buy ↦ setup.sweep_candle_low
          | sell ↦ setup.sweep_candle_high
        ]
        | reversal ↦ setup.sweep_wick
      ] in
      behind setup.direction far sl_buffer

  -- The stop is further than the cap on multiples of the range of M15 allows.
  unfoldable pub is_too_wide : SmcPairConfig W → Option W → W → Bool
  is_too_wide cfg none sl_points = false
  is_too_wide cfg (some m15_atr) sl_points =
      let cap = or_else cfg.max_sl_atr_m15 (num 0) in
      (num 0 ⊲ cap) && (num 0 ⊲ m15_atr) && (cap ⊲ sl_points ⊘ m15_atr)

  -- `Math.round(x * factor) / factor`.
  abbrev pub round_to : W → W → W
  round_to factor x = d.round (x ⊗ factor) ⊘ factor

  -- The fields that the legs of an entry share, with those of one leg.
  leg :
      PendingSetup W
      → BacktestCandle W
      → ℕ
      → IndicatorState W
      → W
      → W
      → W
      → W
      → W
      → String
      → RegimeTradeParams W
      → SimulatedPosition W
  leg setup candle i m15 factor entry_price sl_price lot tp_price name trail = record {
    side = setup.direction;
    entry_price = round_to factor entry_price;
    sl_price = round_to factor sl_price;
    tp_price = some (round_to factor tp_price);
    original_sl_price = round_to factor sl_price;
    breakeven_activated = false;
    peak_favorable_price = entry_price;
    lot_size = lot;
    entry_time = candle.open_time;
    entry_index = i;
    setup_tags = "SMC" ∷ "SWEEP" ∷ session_of candle.open_time ∷ mode_name setup.mode ∷ name ∷ [];
    h1_bias = bias_name setup.direction;
    rsi_at_entry = or_else (get_elem? m15.rsi14 i) (num 50);
    atr_at_entry = or_else (number_of (get_elem? m15.atr14 i)) setup.sweep_candle_atr;
    trail_config = some trail;
    regime_at_entry = some weak_trend;
    is_scale_in = none;
    parent_entry_price = none;
    has_scale_in = none;
  }

  -- The legs that the size allows; none is opened where it does not.
  legs_of :
      PendingSetup W
      → BacktestCandle W
      → ℕ
      → IndicatorState W
      → SmcPairConfig W
      → W
      → W
      → W
      → W
      → W
      → Verdict W
  unfolding leg
  legs_of setup candle i m15 cfg factor entry_price sl_price sl_points total_lot =
      let target = λ (r : W). ahead setup.direction entry_price (sl_points ⊗ r) in
      let tp1_lot = d.maximum (dec 1 2) (cents (total_lot ⊗ cfg.tp1_partial_fraction)) in
      let runner_lot = d.maximum (dec 1 2) (cents (total_lot ⊖ tp1_lot)) in
      let single =
        leg setup candle i m15 factor entry_price sl_price total_lot (target cfg.tp2_r) "RUNNER"
          smc_runner_trail in
      let first =
        leg setup candle i m15 factor entry_price sl_price tp1_lot (target cfg.tp1_r) "TP1"
          smc_tp1_trail in
      let runner =
        leg setup candle i m15 factor entry_price sl_price runner_lot (target cfg.tp2_r) "RUNNER"
          smc_runner_trail in
      if num 0 ⊲ cfg.tp1_partial_fraction
      then (if (total_lot ⊲ dec 2 2) || (tp1_lot ⊲ dec 1 2) || (runner_lot ⊲ dec 1 2)
          then keep
          else enter (first ∷ runner ∷ []))
      else if total_lot ⊲ dec 1 2
      then keep
      else enter (single ∷ [])

  -- The body of the loop over the pending setups.
  unfoldable pub judge :
      BacktestCandle W
      → ℕ
      → W
      → IndicatorState W
      → InstrumentConfig W
      → SmcPairConfig W
      → RiskManager W
      → List (SimulatedPosition W)
      → PendingSetup W
      → Verdict W
  unfolding entry_price_of sl_price_of is_too_wide legs_of
  judge candle i spread m15 instrument cfg risk open_positions setup =
      let m15_atr = number_of (get_elem? m15.atr14 i) in
      let sl_buffer = or_else m15_atr setup.sweep_candle_atr ⊗ cfg.sl_buffer_atr_m15 in
      let entry_price = entry_price_of setup.direction candle spread in
      let sl_price = sl_price_of setup sl_buffer in
      let sl_points = d.abs (entry_price ⊖ sl_price) in
      let total_lot =
        calculate_lot_size risk sl_points (some (num 60)) (some weak_trend) (some (num 50))
          (some entry_price) in
      let legs =
        legs_of setup candle i m15 cfg (num (10 ^ instrument.price_precision)) entry_price sl_price
          sl_points total_lot in
      if any (λ p. same_side p.side setup.direction) open_positions
      then keep
      else if sl_points ⊴ num 0
      then discard
      else if is_too_wide cfg m15_atr sl_points
      then discard
      else legs

  abbrev pub after_verdict :
      PendingSetup W
      → Verdict W
      → List (PendingSetup W)
      → Option (List (SimulatedPosition W)) × List (PendingSetup W)
  after_verdict setup keep kept = (none, setup ∷ kept)
  after_verdict setup discard kept = (none, kept)
  after_verdict setup (enter legs) kept = (some legs, kept)

  -- The loop from the last setup down to the first that enters: its legs, and the setups that stay.
  unfoldable pub enter_first :
      (PendingSetup W → Verdict W)
      → List (PendingSetup W)
      → Option (List (SimulatedPosition W)) × List (PendingSetup W)
  enter_first verdict [] = (none, [])
  enter_first verdict (setup ∷ later) =
      let r = enter_first verdict later in
      elim r.0 [
        | some legs ↦ (some legs, setup ∷ r.1)
        | none ↦ after_verdict setup (verdict setup) r.1
      ]
