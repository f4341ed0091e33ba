-- ===== src/Position/Close.antt =====
-- `checkPositionExit`, `forceClosePosition` and `calculatePnl` of
-- src/backtest/engine/position-simulator.ts: how a position ends, and what the trade has earned.
pub mod Reason
use shamarx_app.Prelude.{
  ℕ, Bool, true, false, not, ◌&&◌, ◌||◌, Option, none, some, List, String, if◌then◌else◌, ◌is◌,
  includes, or_else, is_some,
}
use shamarx_app.Double.{Double, ◌⊕◌, ◌⊖◌, ◌⊗◌, ◌⊘◌, ◌⊲◌, ◌⊴◌, num, dec, cents, same_level}
use shamarx_app.Engine.{
  Side, buy, sell, BacktestCandle, RegimeTradeParams, SimulatedPosition, ClosedTrade, ExitReason,
  sl, tp, breakeven, forced_close, EngineType, trend_pullback, fvg_fill, range_engine,
}
use shamarx_app.Engine.Instrument.{is_jpy_pair}

-- `symbol ? symbol.endsWith('JPY') : false`.
unfoldable pub is_yen : Option String → Bool
unfolding is_jpy_pair
is_yen none = false
is_yen (some symbol) = is_jpy_pair symbol

engine_type_of : List String → EngineType
unfolding includes
engine_type_of tags =
    if includes tags "RANGE_ENGINE"
    then range_engine
    else if includes tags "FVG_FILL"
    then fvg_fill
    else trend_pullback

pub exit_reason_of : Bool → Bool → Bool → ExitReason
exit_reason_of sl_hit tp_hit breakeven_activated =
    if sl_hit && tp_hit
    then (if breakeven_activated then tp else sl)
    else if sl_hit
    then (if breakeven_activated then breakeven else sl)
    else tp

module _ {W : Type 0} ⦃d : Double W⦄ where
  -- `calculatePnl`: the profit in US dollars, rounded to cents.
  pub calculate_pnl : Side → W → W → W → W → W → Option String → W
  calculate_pnl side entry_price exit_price lot_size commission lot_size_units symbol =
      let direction : W = elim side [ buy ↦ num 1 | sell ↦ d.neg (num 1) ] in
      let price_diff = (exit_price ⊖ entry_price) ⊗ direction in
      let raw = price_diff ⊗ lot_size ⊗ lot_size_units in
      let raw_pnl = if is_yen symbol then raw ⊘ exit_price else raw in cents (raw_pnl ⊖ commission)

  -- The multiple of the initial risk that a trade has earned.
  r_multiple_of : SimulatedPosition W → W → W → W → Option String → W
  r_multiple_of position pnl commission lot_size_units symbol =
      let risk_per_unit = d.abs (position.entry_price ⊖ position.original_sl_price) in
      let usd_risk_per_lot =
        if is_yen symbol && (num 0 ⊲ position.entry_price)
        then risk_per_unit ⊗ lot_size_units ⊘ position.entry_price
        else risk_per_unit ⊗ lot_size_units in
      let multiple =
        if num 0 ⊲ usd_risk_per_lot
        then (pnl ⊕ commission) ⊘ (usd_risk_per_lot ⊗ position.lot_size)
        else num 0 in
      cents multiple

  -- The record of a trade that closes at a price, a time and for a reason.
  closed_trade : SimulatedPosition W → W → ℕ → ExitReason → W → W → Option String → ClosedTrade W
  unfolding calculate_pnl r_multiple_of engine_type_of
  closed_trade position exit_price exit_time reason commission lot_size_units symbol =
      let pnl =
        calculate_pnl position.side position.entry_price exit_price position.lot_size commission
          lot_size_units symbol in
      record {
        side = position.side;
        entry_price = position.entry_price;
        exit_price = exit_price;
        sl_price = position.sl_price;
        tp_price = position.tp_price;
        lot_size = position.lot_size;
        pnl = pnl;
        commission = commission;
        setup_tags = position.setup_tags;
        entry_time = position.entry_time;
        exit_time = exit_time;
        exit_reason = reason;
        h1_bias = position.h1_bias;
        rsi_at_entry = position.rsi_at_entry;
        atr_at_entry = position.atr_at_entry;
        r_multiple = r_multiple_of position pnl commission lot_size_units symbol;
        regime_at_entry = position.regime_at_entry;
        engine_type = engine_type_of position.setup_tags;
      }

  -- `slHit` and `tpHit` of `checkPositionExit`: the bid, or the ask, has reached the level.
  unfoldable pub sl_hit : SimulatedPosition W → BacktestCandle W → W → Bool
  sl_hit position candle spread = elim position.side [
    | buy ↦ candle.low ⊖ spread ⊘ num 2 ⊴ position.sl_price
    | sell ↦ position.sl_price ⊴ candle.high ⊕ spread ⊘ num 2
  ]

  reaches : Side → BacktestCandle W → W → W → Bool
  reaches buy candle spread target = target ⊴ candle.high ⊖ spread ⊘ num 2
  reaches sell candle spread target = candle.low ⊕ spread ⊘ num 2 ⊴ target

  unfoldable pub tp_hit : SimulatedPosition W → BacktestCandle W → W → Bool
  unfolding reaches
  tp_hit position candle spread = elim position.tp_price [
    | none ↦ false
    | some target ↦ reaches position.side candle spread target
  ]

  -- The target is read as 0 where it is `null`, as arithmetic would; no exit does so.
  pub exit_price_of : SimulatedPosition W → ExitReason → W
  exit_price_of position tp = or_else position.tp_price (num 0)
  exit_price_of position _ = position.sl_price

  unfoldable pub check_position_exit :
      SimulatedPosition W → BacktestCandle W → W → W → W → Option String → Option (ClosedTrade W)
  unfolding exit_reason_of exit_price_of closed_trade
  check_position_exit position candle spread commission lot_size_units symbol =
      let stopped = sl_hit position candle spread in
      let reached = tp_hit position candle spread in
      let reason = exit_reason_of stopped reached position.breakeven_activated in
      if not stopped && not reached
      then none
      else some (
          closed_trade position (exit_price_of position reason) candle.open_time reason commission
            lot_size_units symbol)

  unfoldable pub force_close_position :
      SimulatedPosition W → W → ℕ → W → W → Option String → ClosedTrade W
  unfolding closed_trade
  force_close_position position close_price close_time commission lot_size_units symbol =
      closed_trade position close_price close_time forced_close commission lot_size_units symbol
