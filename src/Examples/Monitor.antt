-- ===== src/Examples/Monitor.antt =====
-- The theorems on the management of open trades, on their reconciliation, and on the stateless
-- evaluator.
use shamarx_app.Prelude.{
  ◌<◌, ◌%◌, ◌↔◌, inl, inr, length, ◌≡◌, refl, true, none, some, List, [], ◌∷◌,
}
use shamarx_app.Double.{dec, num}
use shamarx_app.Double.Fixed.{Fixed, fixed_double, Fixed-IsIeee}
use shamarx_app.Engine.{buy, BacktestCandle}
use shamarx_app.Smc.{SmcPairConfig}
use shamarx_app.Broker.{SmcLiveSignal}
use shamarx_app.Orchestrator.{Surroundings}
use shamarx_app.Orchestrator.Evaluate.{Outcome}
use shamarx_app.Smc.Scan.{last_where}
use shamarx_app.LiveManager.{ManagedTrade, LivePosition, manage_trade, parse_state, position_of}
use shamarx_app.LiveManager.Levels.{start_stop}
use shamarx_app.LiveManager.Managed.{
  IsFrozen, manage_trade-IsFrozen, NotLooser, manage_trade-NotLooser,
}
use shamarx_app.Examples.{bar}
use shamarx_app.Indicators.{TechnicalIndicators}
use shamarx_app.PositionMonitor.{OpenTrade, reconcile_trades}
use shamarx_app.PositionMonitor.Reported.{closes}
use shamarx_app.PositionMonitor.Absence.{Pass, counts_after, misses_in_a_row, closes_after_three}
use shamarx_app.LiveManager.{runner}
use shamarx_app.LiveEvaluator
use shamarx_app.LiveEvaluator.{Buffers, LiveEvaluationContext}
use shamarx_app.Examples.Detectors.{hour, gold_swings}
use shamarx_app.Examples.Backtest.{shifted}
use shamarx_app.Examples.Replay.{signal}
use shamarx_app.Examples.Live.{copies, numbers, gold_bars, gold_surroundings, signal_or}

-- An open trade in gold, with the broker's position of it.
abbrev open_trade : ManagedTrade Fixed
open_trade = record {
  id = "t";
  mt5_ticket = 7;
  account_id = none;
  side = buy;
  entry_price = num 2000;
  sl_price = num 1990;
  tp_price = num 2030;
  lot_size = dec 1 1;
  setup_tags = [];
  created_at = 0;
  management_state = record {
    breakeven_activated = none;
    peak_favorable_price = none;
    original_sl_price = none;
    trail_key = none;
  };
}

abbrev at_broker : LivePosition Fixed
at_broker = record { ticket = 7; entry_price = some (num 2000); sl = num 1990; tp = num 2030 }

abbrev risen : BacktestCandle Fixed
risen = bar (num 1999) (num 2025)

manage_trade-IsFrozen_example :
    IsFrozen at_broker open_trade
      (manage_trade "XAUUSD" (λ ticket. true) risen (dec 3 1) (at_broker ∷ []) open_trade).0
manage_trade-IsFrozen_example =
    manage_trade-IsFrozen Fixed-IsIeee "XAUUSD" (λ ticket. true) risen (dec 3 1) (at_broker ∷ [])
      open_trade at_broker

manage_trade-NotLooser_example :
    NotLooser open_trade
      (start_stop at_broker open_trade)
      (manage_trade "XAUUSD" (λ ticket. true) risen (dec 3 1) (at_broker ∷ []) open_trade)
unfolding last_where parse_state position_of
manage_trade-NotLooser_example =
    manage_trade-NotLooser Fixed-IsIeee "XAUUSD" (λ ticket. true) risen (dec 3 1) (at_broker ∷ [])
      open_trade at_broker refl (λ _. refl)

-- A trade that the broker no longer reports, on three passes in a row.
abbrev gone_trade : OpenTrade Fixed
gone_trade = record {
  id = "t";
  mt5_ticket = 7;
  symbol = "XAUUSD";
  side = buy;
  lot_size = dec 1 1;
  entry_price = num 2000;
  sl_price = num 1990;
  tp_price = num 2030;
}

abbrev missed_pass : Pass Fixed
missed_pass = record { tickets = 8 ∷ []; trades = gone_trade ∷ [] }

-- A pass over another pair, and one in which the stop of the trade has been moved.
abbrev other_pass : Pass Fixed
other_pass = record { tickets = []; trades = [] }

abbrev moved_pass : Pass Fixed
moved_pass = record { tickets = 8 ∷ []; trades = record gone_trade { sl_price = num 1995 } ∷ [] }

closes_after_three_example :
    (closes "t"
        (reconcile_trades
          (8 ∷ [])
          (counts_after (moved_pass ∷ other_pass ∷ missed_pass ∷ []))
          moved_pass.trades).1
      ≡ true)
    ↔ ((0 < misses_in_a_row "t" 7 (moved_pass ∷ moved_pass ∷ other_pass ∷ missed_pass ∷ []))
        × (misses_in_a_row "t" 7 (moved_pass ∷ moved_pass ∷ other_pass ∷ missed_pass ∷ []) % 3 ≡ 0))
closes_after_three_example =
    closes_after_three "t" 7 moved_pass (moved_pass ∷ other_pass ∷ missed_pass ∷ [])
      (inl (refl, refl, tt))
      (inl (inl (refl, refl, tt)), (inr tt, (inl (inl (refl, refl, tt)), tt)))

-- The runner of the entry whose first leg has reached its target.
abbrev sister_runner : ManagedTrade Fixed
sister_runner = record open_trade {
  management_state = record open_trade.management_state { trail_key = some runner };
}

-- A library with the range of 5 everywhere, and the hours of Examples/Detectors up to the sweep.
abbrev steady : TechnicalIndicators Fixed
steady = record shifted { atr = λ period highs lows closes. numbers (length closes) (num 5) }

abbrev join :
    List (BacktestCandle Fixed) → List (BacktestCandle Fixed) → List (BacktestCandle Fixed)
join [] ys = ys
join (x ∷ xs) ys = x ∷ join xs ys

abbrev gold_buffers : Buffers Fixed
gold_buffers = record {
  m15_candles = gold_bars.m15_candles;
  h1_candles = join (copies 23 (hour 0 2000 2004 1998 2002)) (
      hour 0 2000 2004 1998 2002
      ∷ hour 1 2002 2005 2000 2003
      ∷ hour 2 2003 2005 2001 2004
      ∷ hour 3 2004 2006 2002 2005
      ∷ hour 4 2005 2010 2004 2006
      ∷ hour 5 2006 2007 2003 2006
      ∷ hour 6 2006 2013 2005 2007
      ∷ []);
  d1_candles = [];
  risk_percent = none;
}

abbrev stateless : Surroundings Fixed
stateless = record gold_surroundings {
  indicators = steady;
  overrides =
      (
        "XAUUSD",
        λ (cfg : SmcPairConfig Fixed). record gold_swings {
          d1_adx_floor = num 0;
          disabled_modes = none;
        },
      )
      ∷ [];
}

abbrev nothing_entered : LiveEvaluationContext Fixed
nothing_entered = record {
  account_equity = num 10000;
  open_directions = [];
  recently_entered_sweep_times = [];
}

abbrev stateless_outcome : Outcome Fixed
stateless_outcome =
    LiveEvaluator.evaluate stateless (λ x. "0") "XAUUSD" gold_buffers nothing_entered

abbrev stateless_signal : SmcLiveSignal Fixed
stateless_signal = signal_or stateless_outcome signal
