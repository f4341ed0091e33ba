-- ===== src/Smc/Engine.antt =====
-- `runSmcBacktest` of src/backtest/engine/smc/smc-engine.ts: the state that the loop over the M15
-- bars keeps, the parts of a bar in the order of the source, and the loop. `none` is a throw. The
-- tracker is only written there and is left out.
pub mod Backtest
pub mod Ledger
pub mod Stacking
pub mod Total
use shamarx_app.Prelude.{
  ℕ, zero, suc, ◌+◌, ◌-◌, ◌*◌, ◌/◌, ◌%◌, Bool, true, false, not, ◌&&◌, Option, none, some, List, [],
  ◌∷◌, ◌++◌, map, foldl, String, ltb, leb, if◌then◌else◌, any, filter, get_elem?, length, or_else,
  ◌>>=◌,
}
use shamarx_app.Double.{Double, ◌⊗◌, ◌⊲◌, ◌⊴◌, num}
use shamarx_app.Calendar.{date_of}
use shamarx_app.Engine.{
  BacktestCandle, SimulatedPosition, ClosedTrade, EngineConfig, ExitReason, sl, tp, breakeven,
  forced_close,
}
use shamarx_app.Engine.Instrument.{InstrumentConfig, get_instrument_config, get_spread}
use shamarx_app.Position.Manage.{update_position_management}
use shamarx_app.Position.Close.{check_position_exit, force_close_position}
use shamarx_app.Risk.{RiskManager, create}
use shamarx_app.Risk.Guards.{can_trade}
use shamarx_app.Risk.Record.{record_trade}
use shamarx_app.Metrics.{BacktestMetrics, calculate_metrics}
use shamarx_app.News.{event_times_ms, is_in_blackout}
use shamarx_app.Indicators.{TechnicalIndicators, compute_indicators, get_d1_bias, d1_adx_at}
use shamarx_app.Smc.{
  SmcMode, reversal, continuation, D1Bias, neutral, IndicatorState, PendingSetup, SmcPairConfig,
}
use shamarx_app.Smc.Index.{index_for_time}
use shamarx_app.Smc.Pairs.{get_smc_pair_config}
use shamarx_app.Smc.Sweep.{D1Context, detect_sweep}
use shamarx_app.Smc.Entry.{judge, enter_first}

abbrev pub exit_name : ExitReason → String
exit_name sl = "SL"
exit_name tp = "TP"
exit_name breakeven = "BREAKEVEN"
exit_name forced_close = "FORCED_CLOSE"

abbrev pub in_killzone : ℕ → List (ℕ × ℕ) → Bool
in_killzone time killzones =
    let h = time / 3600000 % 24 in any (λ (k : ℕ × ℕ). leb k.0 h && ltb h k.1) killzones

-- `n > index`, where the index may be -1.
abbrev pub is_after : ℕ → Option ℕ → Bool
is_after n none = true
is_after n (some index) = ltb index n

-- `index <= n`.
abbrev pub is_upto : Option ℕ → ℕ → Bool
is_upto none n = true
is_upto (some index) n = leb index n

abbrev pub same_mode : SmcMode → SmcMode → Bool
same_mode reversal reversal = true
same_mode continuation continuation = true
same_mode _ _ = false

-- What a run reads and does not change.
pub record Market (W : Type 0) : Type 0 where
  pub config : EngineConfig W
  pub instrument : InstrumentConfig W
  pub cfg : SmcPairConfig W
  pub m15_candles : List (BacktestCandle W)
  pub h1_candles : List (BacktestCandle W)
  pub d1_candles : List (BacktestCandle W)
  pub m15_indicators : IndicatorState W
  pub h1_indicators : IndicatorState W
  pub d1_indicators : Option (IndicatorState W)

-- The state of the loop; an index that is -1 is `none`.
pub record Run (W : Type 0) : Type 0 where
  pub risk : RiskManager W
  pub open_positions : List (SimulatedPosition W)
  pub closed : List (ClosedTrade W)
  pub pending : List (PendingSetup W)
  pub last_processed_h1 : Option ℕ
  pub cooldown_until : Option ℕ

module _ {W : Type 0} ⦃d : Double W⦄ where
  -- `recordTrade` and `closed.push`.
  unfoldable pub book_trade : ℕ → ClosedTrade W → Run W → Run W
  book_trade time t s = record s {
    risk = record_trade s.risk t.pnl time (some (exit_name t.exit_reason));
    closed = s.closed ++ t ∷ [];
  }

  abbrev pub cooldown_after : SmcPairConfig W → ℕ → ExitReason → ℕ
  cooldown_after cfg i tp = i + 2
  cooldown_after cfg i sl = i + cfg.sl_cooldown_bars
  cooldown_after cfg i _ = i + 1

  -- The loop over the open positions from the last to the first; those that stay open are put back.
  abbrev pub close_one :
      Market W → ℕ → BacktestCandle W → SimulatedPosition W → Option (ClosedTrade W) → Run W → Run W
  close_one m i candle p none s = record s { open_positions = p ∷ s.open_positions }
  close_one m i candle p (some t) s = record (book_trade candle.open_time t s) {
    cooldown_until = some (cooldown_after m.cfg i t.exit_reason);
  }

  abbrev pub exit_of :
      Market W → BacktestCandle W → W → SimulatedPosition W → Option (ClosedTrade W)
  exit_of m candle spread p =
      check_position_exit p candle spread (p.lot_size ⊗ m.instrument.commission_per_lot)
        m.instrument.lot_size_units (some m.config.symbol)

  unfoldable pub close_exits :
      Market W → ℕ → BacktestCandle W → W → List (SimulatedPosition W) → Run W → Run W
  close_exits m i candle spread [] s = record s { open_positions = [] }
  close_exits m i candle spread (p ∷ later) s =
      close_one m i candle p (exit_of m candle spread p) (close_exits m i candle spread later s)

  -- Part 1 of a bar.
  unfoldable pub manage_positions : Market W → ℕ → BacktestCandle W → W → Run W → Run W
  manage_positions m i candle spread s =
      close_exits m i candle spread
        (map (λ (p : SimulatedPosition W). update_position_management p candle spread)
          s.open_positions)
        s

  abbrev is_enabled : SmcPairConfig W → PendingSetup W → Bool
  is_enabled cfg setup = not (any (same_mode setup.mode) (or_else cfg.disabled_modes []))

  -- The new setup, in a list that is empty where there is none.
  unfoldable pub new_setup : Market W → ℕ → ℕ → List (PendingSetup W)
  new_setup m time closed_h1_idx =
      let bias : D1Bias = elim m.d1_indicators [
        | none ↦ neutral
        | some s ↦ get_d1_bias m.d1_candles s time
      ] in
      let adx = d1_adx_at m.d1_candles m.d1_indicators time in
      let ctx : D1Context W = record {
        candles = some m.d1_candles;
        indicators = m.d1_indicators;
        current_time = some time;
      } in
      let found : List (PendingSetup W) =
        elim (detect_sweep m.h1_candles m.h1_indicators closed_h1_idx bias adx m.cfg ctx) [
          | none ↦ []
          | some setup ↦ if is_enabled m.cfg setup then setup ∷ [] else []
        ] in
      if m.cfg.d1_adx_floor ⊴ adx then found else []

  -- Part 2: the detection on each H1 bar that has closed.
  unfoldable pub detect_setups : Market W → ℕ → Option ℕ → Run W → Run W
  detect_setups m time none s = s
  detect_setups m time (some zero) s = s
  detect_setups m time (some (suc closed)) s =
      if is_after (suc closed) s.last_processed_h1 && is_after closed s.last_processed_h1
      then record s {
        pending = s.pending ++ new_setup m time closed;
        last_processed_h1 = some closed;
      }
      else s

  -- Part 3.
  unfoldable pub expire_setups : Option ℕ → Run W → Run W
  expire_setups h1_idx s = record s {
    pending = filter (λ (p : PendingSetup W). is_upto h1_idx p.expires_at_h1_idx) s.pending;
  }

  unfoldable pub is_blacked_out : SmcPairConfig W → ℕ → Bool
  is_blacked_out cfg time =
      let minutes = or_else cfg.news_blackout_minutes 0 in
      ltb 0 minutes && is_in_blackout event_times_ms time minutes

  abbrev pub open_legs :
      ℕ → Option (List (SimulatedPosition W)) × List (PendingSetup W) → Run W → Run W
  open_legs i (none, kept) s = record s { pending = kept }
  open_legs i (some legs, kept) s = record s {
    pending = kept;
    open_positions = s.open_positions ++ legs;
    cooldown_until = some (i + 1);
  }

  -- Part 5.
  unfoldable pub enter_setup : Market W → ℕ → BacktestCandle W → W → Run W → Run W
  enter_setup m i candle spread s =
      open_legs i
        (enter_first
          (judge candle i spread m.m15_indicators m.instrument m.cfg s.risk s.open_positions)
          s.pending)
        s

  -- Parts 4 and 5: the gates of a bar, then the entry. `canTrade` is given the date.
  unfoldable pub trade : Market W → ℕ → BacktestCandle W → W → Run W → Run W
  trade m i candle spread s =
      let asked =
        can_trade s.risk (date_of candle.open_time * 86400000) (length s.open_positions) in
      let allowed = record s { risk = asked.0 } in
      if not (is_after i s.cooldown_until)
      then s
      else if is_blacked_out m.cfg candle.open_time
      then s
      else if not asked.1
      then allowed
      else if not (in_killzone candle.open_time m.cfg.killzones)
      then allowed
      else enter_setup m i candle spread allowed

  -- The body of the loop over the M15 bars.
  unfoldable pub run_bar : Market W → ℕ → BacktestCandle W → Run W → Option (Run W)
  run_bar m i candle s = elim (get_spread m.config.symbol candle.open_time) [
    | none ↦ none
    | some spread ↦
        let h1_idx = index_for_time m.h1_candles candle.open_time in
        some (
          trade m i candle spread (
            expire_setups h1_idx
              (detect_setups m candle.open_time h1_idx (manage_positions m i candle spread s))))
  ]

  unfoldable pub run_bars : Market W → ℕ → List (BacktestCandle W) → Run W → Option (Run W)
  run_bars m i [] s = some s
  run_bars m i (candle ∷ later) s = elim (run_bar m i candle s) [
    | none ↦ none
    | some next ↦ run_bars m (i + 1) later next
  ]

  -- The positions that are left close at the last bar; the source leaves them in the list.
  unfoldable pub force_close :
      Market W → BacktestCandle W → List (SimulatedPosition W) → Run W → Run W
  force_close m last [] s = s
  force_close m last (p ∷ later) s = force_close m last later (
      book_trade last.open_time
        (force_close_position p last.close last.open_time
          (p.lot_size ⊗ m.instrument.commission_per_lot) m.instrument.lot_size_units
          (some m.config.symbol))
        s)

  unfoldable pub finish : Market W → Run W → Run W
  finish m s = elim (get_elem? m.m15_candles (length m.m15_candles - 1)) [
    | none ↦ s
    | some last ↦ force_close m last s.open_positions s
  ]

  unfoldable pub start : RiskManager W → Run W
  start risk = record {
    risk = risk;
    open_positions = [];
    closed = [];
    pending = [];
    last_processed_h1 = none;
    cooldown_until = none;
  }

  -- The run of a market with a new risk manager: the state at its end.
  unfoldable pub run_market : Market W → RiskManager W → Option (Run W)
  run_market m risk = elim (run_bars m 0 m.m15_candles (start risk)) [
    | none ↦ none
    | some s ↦ some (finish m s)
  ]
