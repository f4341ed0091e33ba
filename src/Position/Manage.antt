-- ===== src/Position/Manage.antt =====
-- `updatePositionManagement` and `computeTrailDistance` of
-- src/backtest/engine/position-simulator.ts: breakeven, trailing stop and removal of the target.
pub mod Stop
pub mod Frame
use shamarx_app.Prelude.{
  ℕ, Bool, true, false, not, ◌&&◌, ◌||◌, Option, none, some, List, String, if◌then◌else◌, ◌is◌,
  includes, or_else, is_some,
}
use shamarx_app.Double.{Double, ◌⊕◌, ◌⊖◌, ◌⊗◌, ◌⊘◌, ◌⊲◌, ◌⊴◌, num, dec, cents, same_level}
use shamarx_app.Engine.{
  Side, buy, sell, BacktestCandle, RegimeTradeParams, SimulatedPosition, ClosedTrade, ExitReason,
  sl, tp, breakeven, forced_close, EngineType, trend_pullback, fvg_fill, range_engine,
}
use shamarx_app.Engine.Instrument.{is_jpy_pair}

-- The four values that management may change.
pub record Levels (W : Type 0) : Type 0 where
  pub peak : W
  pub stop : W
  pub active : Bool
  pub target : Option W

-- What one call of `updatePositionManagement` computes from the position before its branches.
pub record Plan (W : Type 0) : Type 0 where
  pub risk : W
  pub config : RegimeTradeParams W
  pub is_fvg : Bool
  pub breakeven_threshold : W
  pub tp_removal_threshold : W

abbrev same_flag : Bool → Bool → Bool
same_flag true b = b
same_flag false b = not b

module _ {W : Type 0} ⦃d : Double W⦄ where
  -- DEFAULT_TRAIL_CONFIG.
  abbrev pub default_trail_config : RegimeTradeParams W
  default_trail_config = record {
    trend_tp_r = dec 20 1;
    fvg_tp_r = dec 10 1;
    be_threshold_r = dec 10 1;
    tp_removal_r = dec 20 1;
    sl_clamp_max_atr = dec 30 1;
    trail_width_mult = none;
  }

  -- The distance of the trailing stop, by the favorable move in multiples of the risk.
  pub compute_trail_distance : W → W → RegimeTradeParams W → Bool → W
  compute_trail_distance favorable_move risk config is_fvg =
      let tightness = d.minimum (dec 10 1) (config.sl_clamp_max_atr ⊘ dec 30 1) in
      let width = or_else config.trail_width_mult (num 1) in
      if is_fvg
      then (if risk ⊗ dec 30 1 ⊴ favorable_move
          then width ⊗ risk ⊗ (dec 4 1 ⊕ dec 1 1 ⊗ tightness)
          else if risk ⊗ dec 20 1 ⊴ favorable_move
          then width ⊗ risk ⊗ (dec 5 1 ⊕ dec 1 1 ⊗ tightness)
          else if risk ⊗ dec 15 1 ⊴ favorable_move
          then width ⊗ risk ⊗ (dec 6 1 ⊕ dec 1 1 ⊗ tightness)
          else width ⊗ risk)
      else (if risk ⊗ dec 50 1 ⊴ favorable_move
          then width ⊗ risk ⊗ (dec 3 1 ⊕ dec 1 1 ⊗ tightness)
          else if risk ⊗ dec 40 1 ⊴ favorable_move
          then width ⊗ risk ⊗ (dec 4 1 ⊕ dec 1 1 ⊗ tightness)
          else if risk ⊗ dec 30 1 ⊴ favorable_move
          then width ⊗ risk ⊗ (dec 5 1 ⊕ dec 1 1 ⊗ tightness)
          else if risk ⊗ dec 20 1 ⊴ favorable_move
          then width ⊗ risk ⊗ (dec 6 1 ⊕ dec 15 2 ⊗ tightness)
          else width ⊗ risk)

  pub plan : SimulatedPosition W → Plan W
  plan position =
      let risk = d.abs (position.entry_price ⊖ position.original_sl_price) in
      let config = or_else position.trail_config default_trail_config in
      record {
        risk = risk;
        config = config;
        is_fvg = includes position.setup_tags "FVG_FILL";
        breakeven_threshold = risk ⊗ config.be_threshold_r;
        tp_removal_threshold =
            if num 0 ⊲ config.tp_removal_r then risk ⊗ config.tp_removal_r else d.infinity;
      }

  -- The branch of `side === 'BUY'`.
  pub manage_buy : SimulatedPosition W → BacktestCandle W → W → Plan W → Levels W
  manage_buy position candle spread p =
      let current_bid = candle.high ⊖ spread ⊘ num 2 in
      let old_peak = position.peak_favorable_price in
      let peak = if old_peak ⊲ current_bid then current_bid else old_peak in
      let activates =
        not position.breakeven_activated && (position.entry_price ⊕ p.breakeven_threshold ⊴ peak) in
      let stop = if activates then position.entry_price ⊕ p.risk ⊗ dec 1 1 else position.sl_price in
      let active = activates || position.breakeven_activated in
      let favorable_move = peak ⊖ position.entry_price in
      let removes = (p.tp_removal_threshold ⊴ favorable_move) && is_some position.tp_price in
      let trail_stop = peak ⊖ compute_trail_distance favorable_move p.risk p.config p.is_fvg in
      record {
        peak = peak;
        stop = if active && (stop ⊲ trail_stop) then trail_stop else stop;
        active = active;
        target = if active && removes then none else position.tp_price;
      }

  -- The branch of `side === 'SELL'`.
  pub manage_sell : SimulatedPosition W → BacktestCandle W → W → Plan W → Levels W
  manage_sell position candle spread p =
      let current_ask = candle.low ⊕ spread ⊘ num 2 in
      let old_peak = position.peak_favorable_price in
      let peak = if current_ask ⊲ old_peak then current_ask else old_peak in
      let activates =
        not position.breakeven_activated && (peak ⊴ position.entry_price ⊖ p.breakeven_threshold) in
      let stop = if activates then position.entry_price ⊖ p.risk ⊗ dec 1 1 else position.sl_price in
      let active = activates || position.breakeven_activated in
      let favorable_move = position.entry_price ⊖ peak in
      let removes = (p.tp_removal_threshold ⊴ favorable_move) && is_some position.tp_price in
      let trail_stop = peak ⊕ compute_trail_distance favorable_move p.risk p.config p.is_fvg in
      record {
        peak = peak;
        stop = if active && (trail_stop ⊲ stop) then trail_stop else stop;
        active = active;
        target = if active && removes then none else position.tp_price;
      }

  abbrev manage : Side → SimulatedPosition W → BacktestCandle W → W → Plan W → Levels W
  unfolding manage_buy manage_sell
  manage buy = manage_buy
  manage sell = manage_sell

  abbrev with_levels : SimulatedPosition W → Levels W → SimulatedPosition W
  with_levels position l = record position {
    peak_favorable_price = l.peak;
    sl_price = l.stop;
    breakeven_activated = l.active;
    tp_price = l.target;
  }

  -- The position itself where no value changed, so that the caller can compare by reference.
  abbrev unless_unchanged : SimulatedPosition W → Levels W → SimulatedPosition W
  unless_unchanged position l =
      if d.eq l.peak position.peak_favorable_price
        && d.eq l.stop position.sl_price
        && same_flag l.active position.breakeven_activated
        && same_level l.target position.tp_price
      then position
      else with_levels position l

  unfoldable pub update_position_management :
      SimulatedPosition W → BacktestCandle W → W → SimulatedPosition W
  unfolding manage_buy manage_sell plan compute_trail_distance includes
  update_position_management position candle spread =
      if includes position.setup_tags "RANGE_ENGINE"
      then position
      else unless_unchanged position (manage position.side position candle spread (plan position))
