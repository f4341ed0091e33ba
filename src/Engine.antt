-- ===== src/Engine.antt =====
-- The types of src/backtest/engine/types.ts that the other modules use. A time string, which the
-- program keeps in ISO 8601 and in UTC, is the number of milliseconds since the epoch; a date
-- string, its first ten characters, is the number of the day (Calendar).
pub mod Instrument
use shamarx_app.Prelude.{ℕ, Bool, Option, List, String}

pub data Side : Type 0 where
  buy : Side
  sell : Side

pub data TradingMode : Type 0 where
  aggressive normal defensive : TradingMode

pub data DetailedRegime : Type 0 where
  strong_trend weak_trend ranging volatile transitioning : DetailedRegime

pub data EngineType : Type 0 where
  trend_pullback fvg_fill range_engine bb_reversal smc : EngineType

pub data ExitReason : Type 0 where
  sl tp breakeven forced_close : ExitReason

pub record BacktestCandle (W : Type 0) : Type 0 where
  pub symbol : String
  pub timeframe : String
  pub open_time : ℕ
  pub opening : W
  pub high : W
  pub low : W
  pub close : W
  pub volume : W

-- Parameters of trade management, per regime.
pub record RegimeTradeParams (W : Type 0) : Type 0 where
  pub trend_tp_r : W
  pub fvg_tp_r : W
  pub be_threshold_r : W
  pub tp_removal_r : W
  pub sl_clamp_max_atr : W
  pub trail_width_mult : Option W

pub record SimulatedPosition (W : Type 0) : Type 0 where
  pub side : Side
  pub entry_price : W
  pub sl_price : W
  pub tp_price : Option W
  pub original_sl_price : W
  pub breakeven_activated : Bool
  pub peak_favorable_price : W
  pub lot_size : W
  pub entry_time : ℕ
  pub entry_index : ℕ
  pub setup_tags : List String
  pub h1_bias : String
  pub rsi_at_entry : W
  pub atr_at_entry : W
  pub trail_config : Option (RegimeTradeParams W)
  pub regime_at_entry : Option DetailedRegime
  pub is_scale_in : Option Bool
  pub parent_entry_price : Option W
  pub has_scale_in : Option Bool

pub record ClosedTrade (W : Type 0) : Type 0 where
  pub side : Side
  pub entry_price : W
  pub exit_price : W
  pub sl_price : W
  pub tp_price : Option W
  pub lot_size : W
  pub pnl : W
  pub commission : W
  pub setup_tags : List String
  pub entry_time : ℕ
  pub exit_time : ℕ
  pub exit_reason : ExitReason
  pub h1_bias : String
  pub rsi_at_entry : W
  pub atr_at_entry : W
  pub r_multiple : W
  pub regime_at_entry : Option DetailedRegime
  pub engine_type : EngineType

pub record EngineConfig (W : Type 0) : Type 0 where
  pub symbol : String
  pub initial_balance : W
  pub risk_percent : W
  pub max_daily_loss_percent : W
  pub max_consecutive_losses : ℕ
  pub max_open_positions : ℕ
