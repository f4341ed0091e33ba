-- ===== src/Examples.antt =====
-- The theorems at concrete inputs, over the fixed-point instance of the interface of numbers.
mod Positions
mod Brakes
mod Live
mod Monitor
mod Replay
mod Accounts
mod Detectors
mod Backtest
mod Trades
use shamarx_app.Prelude.{Option, none, some, List, [], ◌∷◌, String, true, false}
use shamarx_app.Double.{dec, num}
use shamarx_app.Double.Fixed.{Fixed, fixed_double}
use shamarx_app.Engine.{BacktestCandle, SimulatedPosition, EngineConfig, buy}

-- A position in gold: bought at 2000 with the stop at 1990 and the target at 2030.
abbrev pub gold : SimulatedPosition Fixed
gold = record {
  side = buy;
  entry_price = num 2000;
  sl_price = num 1990;
  tp_price = some (num 2030);
  original_sl_price = num 1990;
  breakeven_activated = false;
  peak_favorable_price = num 2000;
  lot_size = dec 1 1;
  entry_time = 0;
  entry_index = 0;
  setup_tags = [];
  h1_bias = "BULLISH";
  rsi_at_entry = num 50;
  atr_at_entry = num 5;
  trail_config = none;
  regime_at_entry = none;
  is_scale_in = none;
  parent_entry_price = none;
  has_scale_in = none;
}

-- A bar of fifteen minutes later, with the given low and high.
abbrev pub bar : Fixed → Fixed → BacktestCandle Fixed
bar low high = record {
  symbol = "XAUUSD";
  timeframe = "M15";
  open_time = 900000;
  opening = num 2000;
  high = high;
  low = low;
  close = num 2000;
  volume = num 100;
}

abbrev pub account : EngineConfig Fixed
account = record {
  symbol = "XAUUSD";
  initial_balance = num 1000;
  risk_percent = num 1;
  max_daily_loss_percent = num 5;
  max_consecutive_losses = 3;
  max_open_positions = 2;
}
