-- ===== src/Examples/Backtest.antt =====
-- The theorems on the backtest of swept levels, on a market in which the sweep of Examples/Detectors
-- is sold, and on its calendar and series.
use shamarx_app.Prelude.{
  ℕ, suc, ◌≡◌, ◌*◌, ◌≤◌, refl, none, some, List, [], ◌∷◌, reverse, length, any, arith, or_else,
}
use shamarx_app.Double.{dec, num, ◌⊗◌, ◌⊘◌}
use shamarx_app.Double.Fixed.{Fixed, negsuc, fixed_double, Fixed-IsIeee}
use shamarx_app.Engine.{sell, BacktestCandle, EngineConfig, ClosedTrade}
use shamarx_app.Risk.{
  RiskManager, maybe_reset_daily, maybe_reset_weekly, get_trading_mode, equity_dd_percent,
  rolling7_day_losses,
}
use shamarx_app.Smc.Entry.{judge, enter_first}
use shamarx_app.Risk.Lots.{calculate_lot_size}
use shamarx_app.Smc.Index.{index_for_time, last_index, search_last, times_of, not_after}
use shamarx_app.Indicators.{d1_adx_at}
use shamarx_app.Smc.Sweep.{detect_sweep, swing_setup, sell_setup, buy_setup, is_filtered, mode_of}
use shamarx_app.Smc.Swing.{find_recent_swing_high, find_recent_swing_low, find_swing}
use shamarx_app.Engine.Instrument.{get_spread, is_jpy_pair, get_instrument_config}
use shamarx_app.Risk.Guards.{can_trade}
use shamarx_app.Risk.Record.{record_trade, settle}
use shamarx_app.Position.Manage.{update_position_management}
use shamarx_app.Position.Close.{check_position_exit, force_close_position, sl_hit, tp_hit, is_yen}
use shamarx_app.Calendar.{iso_week, add_trading_days}
use shamarx_app.Smc.{IndicatorState}
use shamarx_app.Smc.Engine.Backtest.{run_smc_backtest}
use shamarx_app.Smc.Engine.{
  Market, Run, run_market, run_bars, run_bar, start, manage_positions, close_exits, book_trade,
  detect_setups, new_setup, expire_setups, trade, enter_setup, is_blacked_out, finish, force_close,
}
use shamarx_app.Smc.Engine.Ledger.{IsBalanced, run_market-IsBalanced}
use shamarx_app.Smc.Engine.Stacking.{count_side, run_bars-IsUnstacked}
use shamarx_app.Metrics.{calculate_metrics}
use shamarx_app.Metrics.Drawdown.{IsMaximum, drawdown_of-IsMaximum}
use shamarx_app.News.{event_times_ms, is_near, is_in_blackout}
use shamarx_app.News.Sorted.{event_times_ms-IsSorted, is_in_blackout_calendar}
use shamarx_app.Smc.Index.Last.{before, IsSplit, last_index-IsSplit}
use shamarx_app.Smc.Anchor.{get_anchor_levels, levels_of, nothing_seen}
use shamarx_app.Smc.Anchor.Windows.{IsNewestFirst, ranges_of, anchors-ranges_of}
use shamarx_app.Smc.Pairs.{xauusd, get_smc_pair_config}
use shamarx_app.Smc.Engine.Total.{run_smc_backtest-total}
use shamarx_app.Indicators.{TechnicalIndicators}
use shamarx_app.Indicators.Aligned.{IsShort}
use shamarx_app.Examples.Positions.{stopped_trade}
use shamarx_app.Examples.Brakes.{new_manager}
use shamarx_app.Examples.Detectors.{hour, swept, calm, gold_swings}

abbrev large : EngineConfig Fixed
large = record {
  symbol = "XAUUSD";
  initial_balance = num 10000;
  risk_percent = num 1;
  max_daily_loss_percent = num 5;
  max_consecutive_losses = 3;
  max_open_positions = 4;
}

abbrev m15_bar : ℕ → ℕ → ℕ → ℕ → BacktestCandle Fixed
m15_bar time high low close = record {
  symbol = "XAUUSD";
  timeframe = "M15";
  open_time = time;
  opening = num 2007;
  high = num high;
  low = num low;
  close = num close;
  volume = num 100;
}

-- The bars of the eighth hour: the entry, then the targets of the first leg, then the end.
abbrev quarters : List (BacktestCandle Fixed)
quarters =
    m15_bar 25200000 2008 2006 2007
    ∷ m15_bar 26100000 2008 1999 2000
    ∷ m15_bar 27000000 2001 1999 2000
    ∷ []

abbrev pub gold_market : Market Fixed
gold_market = record {
  config = large;
  instrument = record {
    lot_size_units = num 100;
    commission_per_lot = num 7;
    min_atr = dec 35 1;
    price_precision = 2;
    spreads = record {
      london_ny_overlap = dec 20 2;
      london = dec 25 2;
      ny_extended = dec 30 2;
      asian = dec 50 2;
      off_hours = dec 40 2;
    };
  };
  cfg = record gold_swings { d1_adx_floor = num 0; disabled_modes = none };
  m15_candles = quarters;
  h1_candles = swept;
  d1_candles = [];
  m15_indicators = record calm { atr14 = num 4 ∷ num 4 ∷ num 4 ∷ [] };
  h1_indicators = calm;
  d1_indicators = none;
}

abbrev large_manager : RiskManager Fixed
large_manager = record new_manager {
  config = large;
  balance = num 10000;
  equity = num 10000;
  weekly_peak_equity = num 10000;
  overall_peak_equity = num 10000;
}

-- The state at the end of the run.
abbrev ended : Run Fixed
ended = or_else (run_market gold_market large_manager) (start large_manager)

market-Ends : run_market gold_market large_manager ≡ some ended
unfolding run_market run_bars run_bar start manage_positions close_exits book_trade detect_setups
    new_setup expire_setups trade enter_setup is_blacked_out finish force_close judge enter_first
    calculate_lot_size index_for_time last_index search_last times_of not_after d1_adx_at
    detect_sweep swing_setup sell_setup buy_setup is_filtered mode_of find_recent_swing_high
    find_recent_swing_low find_swing get_spread can_trade record_trade update_position_management
    check_position_exit force_close_position maybe_reset_daily maybe_reset_weekly iso_week sl_hit
    tp_hit get_trading_mode equity_dd_percent rolling7_day_losses settle is_yen is_jpy_pair
    get_instrument_config add_trading_days
market-Ends = refl

run_market-IsBalanced_example : IsBalanced (num 10000) ended
run_market-IsBalanced_example = run_market-IsBalanced gold_market large_manager ended market-Ends

abbrev running : Run Fixed
running = or_else (run_bars gold_market 0 quarters (start large_manager)) (start large_manager)

quarters-Ran : run_bars gold_market 0 quarters (start large_manager) ≡ some running
unfolding run_market run_bars run_bar start manage_positions close_exits book_trade detect_setups
    new_setup expire_setups trade enter_setup is_blacked_out finish force_close judge enter_first
    calculate_lot_size index_for_time last_index search_last times_of not_after d1_adx_at
    detect_sweep swing_setup sell_setup buy_setup is_filtered mode_of find_recent_swing_high
    find_recent_swing_low find_swing get_spread can_trade record_trade update_position_management
    check_position_exit force_close_position maybe_reset_daily maybe_reset_weekly iso_week sl_hit
    tp_hit get_trading_mode equity_dd_percent rolling7_day_losses settle is_yen is_jpy_pair
    get_instrument_config add_trading_days
quarters-Ran = refl

run_bars-IsUnstacked_example : count_side sell running.open_positions ≤ 2
unfolding start
run_bars-IsUnstacked_example =
    run_bars-IsUnstacked gold_market 0 quarters (start large_manager) running quarters-Ran
      (λ side. omega arith) sell

-- 12 June 2024 at 18:00 UTC, a decision of the Federal Reserve.
abbrev decision : ℕ
decision = 1718215200000

is_in_blackout_calendar_example :
    is_in_blackout event_times_ms decision 15
    ≡ any (is_near decision (15 * 60 * 1000)) event_times_ms
is_in_blackout_calendar_example = is_in_blackout_calendar decision 15

last_index-IsSplit_example :
    (n : ℕ) × (search_last
        (suc (length event_times_ms))
        event_times_ms
        decision
        0
        (length event_times_ms)
        none
      ≡ some (before n))
    × (last_index event_times_ms decision ≡ before n)
    × IsSplit event_times_ms decision n
last_index-IsSplit_example = last_index-IsSplit event_times_ms decision event_times_ms-IsSorted

-- Three bars of one night.
abbrev night : List (BacktestCandle Fixed)
night = hour 1 2000 2004 1998 2002 ∷ hour 2 2002 2005 2000 2003 ∷ hour 3 2003 2006 2001 2004 ∷ []

night-IsNewestFirst : IsNewestFirst (reverse night)
night-IsNewestFirst = ((omega arith, (omega arith, tt)), ((omega arith, tt), (tt, tt)))

anchors-ranges_of_example :
    get_anchor_levels night 10800000
    ≡ levels_of (
        ranges_of 10800000
          (reverse night)
          record { day = nothing_seen; asian = nothing_seen; week = nothing_seen })
anchors-ranges_of_example = anchors-ranges_of night 10800000 night-IsNewestFirst

-- A library that is always too short by its first value.
abbrev tail_of : List Fixed → List Fixed
tail_of [] = []
tail_of (x ∷ xs) = xs

length-tail_of : (xs : List Fixed) → length (tail_of xs) ≤ length xs
length-tail_of [] = omega arith
length-tail_of (x ∷ xs) = omega arith

abbrev pub shifted : TechnicalIndicators Fixed
shifted = record {
  ema = λ period xs. tail_of xs;
  rsi = λ period xs. tail_of xs;
  sma = λ period xs. tail_of xs;
  atr = λ period highs lows closes. tail_of closes;
  adx = λ period highs lows closes. [];
}

shifted-IsShort : IsShort shifted
shifted-IsShort = record {
  ema = λ period xs. length-tail_of xs;
  rsi = λ period xs. length-tail_of xs;
  sma = λ period xs. length-tail_of xs;
  atr = λ period highs lows closes. length-tail_of closes;
  adx = λ period highs lows closes. omega arith;
}

run_smc_backtest-total_example :
    (trades : List (ClosedTrade Fixed)) × (run_smc_backtest shifted
        (λ x. x)
        (λ x. x ⊗ x)
        []
        quarters
        swept
        []
        large
      ≡ some (trades, calculate_metrics (λ x. x) (λ x. x ⊗ x) trades (num 10000)))
unfolding get_instrument_config get_smc_pair_config
run_smc_backtest-total_example =
    run_smc_backtest-total shifted shifted-IsShort (λ x. x) (λ x. x ⊗ x) [] quarters swept [] large
      gold_market.instrument xauusd refl refl

-- A gain of 10 dollars, a loss of 30 and a gain of 5, from 100 dollars.
abbrev trade_of : Fixed → ClosedTrade Fixed
trade_of pnl = record stopped_trade { pnl = pnl }

abbrev three : List (ClosedTrade Fixed)
three = trade_of (num 10) ∷ trade_of (negsuc 29999999) ∷ trade_of (num 5) ∷ []

drawdown_of-IsMaximum_example : IsMaximum Fixed-IsIeee (num 100) three
drawdown_of-IsMaximum_example = drawdown_of-IsMaximum Fixed-IsIeee (num 100) three

abbrev no_number : Fixed
no_number = num 0 ⊘ num 0

abbrev night_series : IndicatorState Fixed
night_series =
    let late = no_number ∷ num 2003 ∷ num 2004 ∷ [] in
    let never = no_number ∷ no_number ∷ no_number ∷ [] in
    record {
      ema20 = late;
      ema50 = late;
      ema200 = late;
      rsi14 = late;
      atr14 = late;
      adx14 = never;
      plus_di14 = never;
      minus_di14 = never;
      atr_baseline = no_number ∷ no_number ∷ num 2004 ∷ [];
    }
