-- ===== src/Examples/Live.antt =====
-- The theorems on the live orchestrator: a sweep in gold that is traded at the close of an M15 bar.
use shamarx_app.Prelude.{
  ℕ, zero, suc, ◌≡◌, ◌≢◌, refl, true, none, some, List, [], ◌∷◌, or_else, lookup, insert,
}
use shamarx_app.Double.{dec, num}
use shamarx_app.Double.Fixed.{Fixed, fixed_double}
use shamarx_app.Engine.{BacktestCandle}
use shamarx_app.Engine.Instrument.{get_instrument_config, get_spread, is_jpy_pair}
use shamarx_app.Smc.{PendingSetup, SmcPairConfig}
use shamarx_app.Smc.Pairs.{get_smc_pair_config}
use shamarx_app.Broker.{SmcLiveSignal}
use shamarx_app.Risk.{RiskManager}
use shamarx_app.Orchestrator.{
  Orchestrator, OrchestratorState, Surroundings, LiveContext, fresh, build_risk_manager,
  risk_config, record_entry, commit, get_or_create_state,
}
use shamarx_app.Orchestrator.Evaluate.{evaluate, Bars, Outcome, fired}
use shamarx_app.Risk.{
  create, maybe_reset_daily, maybe_reset_weekly, rolling7_day_losses, get_trading_mode,
  equity_dd_percent,
}
use shamarx_app.Risk.Guards.{can_trade, daily_loss_reached}
use shamarx_app.Risk.Lots.{calculate_lot_size, actual_risk_percent}
use shamarx_app.Calendar.{iso_week}
use shamarx_app.Smc.Entry.{is_too_wide, entry_price_of, sl_price_of}
use shamarx_app.Smc.Engine.{is_blacked_out}
use shamarx_app.Orchestrator.Detect.{
  View, indicators_of, d1_indicators_of, live_adx, live_bias, detect_sweeps, first_unprocessed,
  setups_from, expire_setups,
}
use shamarx_app.Orchestrator.Gates.{pass_gates}
use shamarx_app.Orchestrator.Signal.{
  judge, judge_prices, prices_of, is_loose, size_and_fire, total_lot_of, signal_of, signal_with,
}
use shamarx_app.Orchestrator.Evaluate.{
  evaluate_bars, evaluate_pair, evaluate_view, view_of, run_bar, gate_and_fire, try_to_fire,
  fire_first,
}
use shamarx_app.Orchestrator.Store.{serialize, restore}
use shamarx_app.Orchestrator.Store.Roundtrip.{IsKept, restore-serialize, trimmed_state}
use shamarx_app.Orchestrator.Once.{here, next, evaluated, sweep_fires_once}
use shamarx_app.Smc.{neutral}
use shamarx_app.Examples.Detectors.{hour, swept, calm, sweep_setup, gold_swings}
use shamarx_app.Examples.Backtest.{shifted, gold_market}
use shamarx_app.Examples.Brakes.{new_manager}
use shamarx_app.Examples.Replay.{signal}

abbrev pub copies : ℕ → BacktestCandle Fixed → List (BacktestCandle Fixed)
copies zero c = []
copies (suc n) c = c ∷ copies n c

abbrev pub numbers : ℕ → Fixed → List Fixed
numbers zero x = []
numbers (suc n) x = x ∷ numbers n x

-- Gold without the gates that the example does not need.
abbrev pub gold_surroundings : Surroundings Fixed
gold_surroundings = record {
  indicators = shifted;
  overrides =
      ("XAUUSD", λ (cfg : SmcPairConfig Fixed). record cfg { max_sl_sweep_ratio = none }) ∷ [];
  env_risk_percent = dec 15 1;
  to_fixed1 = λ x. "0.0";
}

abbrev gold_context : LiveContext Fixed
gold_context = record {
  account_equity = num 10000;
  open_directions = [];
  total_open_positions = 0;
  risk_percent = none;
  max_open_positions = none;
}

-- Thirty bars of M15 up to 07:00, and thirty of H1.
abbrev pub gold_bars : Bars Fixed
gold_bars = record {
  m15_candles = copies 30 (record (hour 7 2007 2008 2006 2007) { timeframe = "M15" });
  h1_candles = copies 30 (hour 6 2006 2013 2005 2007);
  d1_candles = [];
  precomputed = some record {
    m15 = record calm { atr14 = numbers 30 (num 4) };
    h1 = record calm { atr14 = numbers 30 (num 5) };
    d1 = none;
  };
  cursor = none;
}

abbrev waiting_setup : PendingSetup Fixed
waiting_setup = record sweep_setup { expires_at_h1_idx = 40 }

-- An older sweep waits behind it.
abbrev older_setup : PendingSetup Fixed
older_setup = record waiting_setup { sweep_time = 18000000 }

abbrev gold_manager : RiskManager Fixed
gold_manager = or_else (build_risk_manager fresh "XAUUSD") new_manager

abbrev waiting : OrchestratorState Fixed
waiting = record {
  pending = older_setup ∷ waiting_setup ∷ [];
  last_processed_h1_time = some 21600000;
  cooldown_bars_remaining = 0;
  actioned_sweeps = [];
  risk_manager = gold_manager;
}

abbrev gold_live : Orchestrator Fixed
gold_live = record fresh { states = ("XAUUSD", waiting) ∷ [] }

abbrev gold_outcome : Outcome Fixed
gold_outcome = (evaluate gold_surroundings gold_live "XAUUSD" gold_bars gold_context).1

abbrev pub signal_or : Outcome Fixed → SmcLiveSignal Fixed → SmcLiveSignal Fixed
signal_or (fired signal) other = signal
signal_or _ other = other

abbrev gold_signal : SmcLiveSignal Fixed
gold_signal = signal_or gold_outcome signal

gold-IsKept : IsKept gold_live
unfolding build_risk_manager risk_config create get_instrument_config fresh lookup
gold-IsKept = record {
  distinct = (refl, tt);
  all_built = (
    record {
      new = gold_manager;
      built = refl;
      same_config = refl;
      same_units = refl;
      no_repeats = tt;
    },
    tt,
  );
}

restore-serialize_example :
    let after = restore gold_live (serialize gold_live) in
    (after.1 ≡ true)
    × (lookup "XAUUSD" after.0.states ≡ trimmed_state (lookup "XAUUSD" gold_live.states))
restore-serialize_example = restore-serialize gold_live gold_live "XAUUSD" refl gold-IsKept

abbrev committed : Orchestrator Fixed
committed = or_else (record_entry gold_live "XAUUSD" gold_signal) gold_live

-- The commit, the close of a bar on which the cooldown ends, and the close of another.
abbrev rested : Orchestrator Fixed
rested = (evaluate gold_surroundings committed "XAUUSD" gold_bars gold_context).0

abbrev next_signal : SmcLiveSignal Fixed
next_signal = signal_or (evaluate gold_surroundings rested "XAUUSD" gold_bars gold_context).1 signal

committed-Commits : record_entry gold_live "XAUUSD" gold_signal ≡ some committed
unfolding evaluate evaluate_bars evaluate_pair evaluate_view view_of indicators_of d1_indicators_of
    live_adx live_bias get_or_create_state build_risk_manager risk_config create lookup insert
    get_smc_pair_config get_instrument_config run_bar detect_sweeps first_unprocessed setups_from
    expire_setups gate_and_fire is_blacked_out can_trade maybe_reset_daily maybe_reset_weekly
    try_to_fire fire_first judge judge_prices prices_of is_loose is_too_wide get_spread
    size_and_fire pass_gates total_lot_of signal_of signal_with calculate_lot_size fresh iso_week
    entry_price_of sl_price_of rolling7_day_losses get_trading_mode equity_dd_percent is_jpy_pair
    daily_loss_reached actual_risk_percent record_entry commit
committed-Commits = refl

rested-Fires :
    (evaluate gold_surroundings rested "XAUUSD" gold_bars gold_context).1 ≡ fired next_signal
unfolding evaluate evaluate_bars evaluate_pair evaluate_view view_of indicators_of d1_indicators_of
    live_adx live_bias get_or_create_state build_risk_manager risk_config create lookup insert
    get_smc_pair_config get_instrument_config run_bar detect_sweeps first_unprocessed setups_from
    expire_setups gate_and_fire is_blacked_out can_trade maybe_reset_daily maybe_reset_weekly
    try_to_fire fire_first judge judge_prices prices_of is_loose is_too_wide get_spread
    size_and_fire pass_gates total_lot_of signal_of signal_with calculate_lot_size fresh iso_week
    entry_price_of sl_price_of rolling7_day_losses get_trading_mode equity_dd_percent is_jpy_pair
    daily_loss_reached actual_risk_percent record_entry commit
rested-Fires = refl

sweep_fires_once_example : next_signal.h1_sweep_time ≢ gold_signal.h1_sweep_time
sweep_fires_once_example =
    sweep_fires_once gold_surroundings gold_live committed rested "XAUUSD" gold_signal next_signal
      gold_bars gold_context gold-IsKept committed-Commits
      (next here (evaluated "XAUUSD" gold_bars gold_context refl)) rested-Fires

-- The bars of Examples/Detectors: the sixth hour has swept, the seventh has closed.
abbrev gold_view : View Fixed
gold_view = record {
  symbol = "XAUUSD";
  cfg = record gold_swings { d1_adx_floor = num 0; disabled_modes = none };
  instrument = gold_market.instrument;
  m15_candles = [];
  h1_candles = swept;
  d1_candles = [];
  m15_indicators = calm;
  h1_indicators = calm;
  d1_indicators = none;
  m15_len = 0;
  h1_len = 8;
  last_m15 = hour 8 2006 2008 2006 2007;
  live_d1_bias = neutral;
  live_d1_adx = num 0;
}

-- The engine has been down since the second hour.
abbrev resumed : OrchestratorState Fixed
resumed = record waiting { pending = []; last_processed_h1_time = some 7200000 }
