-- ===== src/Broker.antt =====
-- `SimulatedBroker` of src/backtest/live-replay/simulated-broker.ts: the in-memory account of the
-- live replay. `uuid n` is the n-th id that `randomUUID` returns. `none` is an exception, which an
-- unknown instrument throws and which ends the replay.
pub mod Orders
pub mod Candle
use shamarx_app.Prelude.{
  ℕ, ◌+◌, ◌-◌, Bool, true, false, not, ◌&&◌, Option, none, some, List, [], ◌∷◌, ◌++◌, map, String,
  ltb, ◌==◌, if◌then◌else◌, includes, or_else, length, items, set_items, delete_items, count_items,
  ◌>>=◌, ◌≡◌, max,
}
use shamarx_app.Double.{Double, ◌⊕◌, ◌⊖◌, ◌⊗◌, ◌⊘◌, ◌⊲◌, ◌⊴◌, num, dec, cents}
use shamarx_app.Engine.{
  Side, buy, sell, BacktestCandle, RegimeTradeParams, SimulatedPosition, weak_trend,
}
use shamarx_app.Engine.Instrument.{get_instrument_config, get_spread, is_jpy_pair}
use shamarx_app.Position.Manage.{update_position_management}
use shamarx_app.Smc.{AnchorType, D1Bias, SmcMode}

pub data BrokerExit : Type 0 where
  stopped targeted forced : BrokerExit

-- A zone and a break of structure that the charts draw.
pub record ChartZone (W : Type 0) : Type 0 where
  pub top : W
  pub bottom : W
  pub candle_time : ℕ
  pub is_bullish : Bool

pub record ChartBreak (W : Type 0) : Type 0 where
  pub level : W
  pub broken_at_time : ℕ

-- The annotation of a signal, which the broker passes on.
pub record SweepContext (W : Type 0) : Type 0 where
  pub anchor_type : Option AnchorType
  pub swept_level : W
  pub swept_high : W
  pub swept_low : W
  pub sweep_candle_time : ℕ
  pub d1_bias : D1Bias
  pub fvg : Option (ChartZone W)
  pub ob : Option (ChartZone W)
  pub bos : Option (ChartBreak W)
  pub ob_origin : Option (ChartZone W)
  pub impulse_fvg : Option (ChartZone W)
  pub bos_origin : Option (ChartBreak W)

pub record Leg (W : Type 0) : Type 0 where
  pub lot_size : W
  pub tp_price : W
  pub setup_tags : List String

pub record SmcLiveSignal (W : Type 0) : Type 0 where
  pub symbol : String
  pub side : Side
  pub entry_price : W
  pub sl_price : W
  pub tp_price : W
  pub total_lot : W
  pub legs : List (Leg W)
  pub mode : SmcMode
  pub h1_sweep_time : ℕ
  pub reason : String
  pub smc_context : Option (SweepContext W)

-- `SimulatedPosition` of the broker, which extends that of the engine.
pub record BrokerPosition (W : Type 0) : Type 0 where
  pub base : SimulatedPosition W
  pub open base use *
  pub id : String
  pub symbol : String
  pub opened_at : ℕ
  pub mode : SmcMode
  pub reason : String
  pub smc_context : Option (SweepContext W)

pub record ClosedPosition (W : Type 0) : Type 0 where
  pub position : BrokerPosition W
  pub close_price : W
  pub closed_at : ℕ
  pub pnl : W
  pub exit_reason : BrokerExit

pub record RetraceEntry (W : Type 0) : Type 0 where
  pub frac : W
  pub expiry_bars : ℕ

pub record PendingLimit (W : Type 0) : Type 0 where
  pub signal : SmcLiveSignal W
  pub limit_price : W
  pub scale : W
  pub bars_left : ℕ

-- `issued` counts the ids that have been drawn.
pub record SimulatedBroker (W : Type 0) : Type 0 where
  pub balance : W
  pub positions : List (String × List (BrokerPosition W))
  pub closed : List (ClosedPosition W)
  pub max_concurrent : ℕ
  pub pending_limits : List (String × List (PendingLimit W))
  pub runner_trail : RegimeTradeParams W
  pub retrace_entry : Option (RetraceEntry W)
  pub issued : ℕ

module _ {W : Type 0} ⦃d : Double W⦄ where
  -- The presets of src/backtest/engine/smc/trail-config.ts.
  abbrev pub smc_tp1_trail : RegimeTradeParams W
  smc_tp1_trail = record {
    trend_tp_r = dec 8 1;
    fvg_tp_r = dec 8 1;
    be_threshold_r = dec 6 1;
    tp_removal_r = num 0;
    sl_clamp_max_atr = dec 30 1;
    trail_width_mult = none;
  }

  abbrev pub smc_runner_trail : RegimeTradeParams W
  smc_runner_trail = record {
    trend_tp_r = dec 40 1;
    fvg_tp_r = dec 8 1;
    be_threshold_r = dec 15 1;
    tp_removal_r = dec 30 1;
    sl_clamp_max_atr = dec 40 1;
    trail_width_mult = none;
  }

  -- The constructor; `override` replaces fields of the runner preset.
  unfoldable pub create :
      W → (RegimeTradeParams W → RegimeTradeParams W) → Option (RetraceEntry W) → SimulatedBroker W
  create initial_balance override retrace_entry = record {
    balance = initial_balance;
    positions = [];
    closed = [];
    max_concurrent = 0;
    pending_limits = [];
    runner_trail = override smc_runner_trail;
    retrace_entry = retrace_entry;
    issued = 0;
  }

  unfoldable pub total_open_count : SimulatedBroker W → ℕ
  total_open_count b = count_items b.positions

  -- The number of parked limits.
  pub pending_count : SimulatedBroker W → ℕ
  pending_count b = count_items b.pending_limits

  unfoldable pub calc_pnl : BrokerPosition W → W → Option W
  unfolding get_instrument_config is_jpy_pair
  calc_pnl pos close_price = do
    config ← get_instrument_config pos.symbol
    let direction : W = elim pos.side [ buy ↦ num 1 | sell ↦ d.neg (num 1) ]
    let price_diff = (close_price ⊖ pos.entry_price) ⊗ direction
    let raw = price_diff ⊗ pos.lot_size ⊗ config.lot_size_units
    some (cents (if is_jpy_pair pos.symbol then raw ⊘ close_price else raw))

  unfoldable pub close :
      SimulatedBroker W
      → BrokerPosition W
      → W
      → ℕ
      → BrokerExit
      → Option (SimulatedBroker W × ClosedPosition W)
  close b pos close_price close_time exit_reason = do
    pnl ← calc_pnl pos close_price
    let c : ClosedPosition W = record {
      position = pos;
      close_price = close_price;
      closed_at = close_time;
      pnl = pnl;
      exit_reason = exit_reason;
    }
    some (record b { balance = b.balance ⊕ pnl; closed = b.closed ++ c ∷ [] }, c)
