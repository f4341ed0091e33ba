-- ===== src/Examples/Replay.antt =====
-- The theorems on the broker of the replay, with a signal in gold that opens one leg.
use shamarx_app.Prelude.{
  refl, ℕ, none, true, [], ◌∷◌, String, arith, items, count_items, delete_items, includes,
}
use shamarx_app.Double.{dec, num}
use shamarx_app.Double.Fixed.{Fixed, negsuc, fixed_double}
use shamarx_app.Engine.{buy}
use shamarx_app.Engine.Instrument.{get_spread}
use shamarx_app.Position.Manage.{update_position_management}
use shamarx_app.Smc.{reversal}
use shamarx_app.Broker.{
  SimulatedBroker, SmcLiveSignal, BrokerPosition, ClosedPosition, PendingLimit, stopped, create,
  close, calc_pnl,
}
use shamarx_app.Broker.Orders.{process_pending_limits, pending_or_same}
use shamarx_app.Broker.Candle.{process_candle, scan, exit_of, manage_on, process_open, store_open}
use shamarx_app.Broker.Candle.Ledger.{IsBalanced}
use shamarx_app.Broker.Candle.Books.{create-IsBalanced, process_candle-IsBalanced}
use shamarx_app.Broker.Candle.Exits.{scan-IsFairExit, IsFairScan}
use shamarx_app.Broker.Candle.{Scan}
use shamarx_app.Examples.{gold, bar}

abbrev ids : ℕ → String
ids n = "id"

abbrev new_broker : SimulatedBroker Fixed
unfolding create
new_broker = create (num 1000) (λ trail. trail) none

abbrev pub signal : SmcLiveSignal Fixed
signal = record {
  symbol = "XAUUSD";
  side = buy;
  entry_price = num 2000;
  sl_price = num 1990;
  tp_price = num 2030;
  total_lot = dec 1 1;
  legs = record { lot_size = dec 1 1; tp_price = num 2030; setup_tags = [] } ∷ [];
  mode = reversal;
  h1_sweep_time = 0;
  reason = "sweep";
  smc_context = none;
}

-- The position in gold as the broker holds it, at breakeven.
abbrev held : BrokerPosition Fixed
held = record {
  base = record gold { breakeven_activated = true };
  id = "id";
  symbol = "XAUUSD";
  opened_at = 0;
  mode = reversal;
  reason = "sweep";
  smc_context = none;
}

abbrev broker : SimulatedBroker Fixed
broker = record {
  balance = num 1000;
  positions = ("XAUUSD", held ∷ []) ∷ [];
  closed = [];
  max_concurrent = 1;
  pending_limits = [];
  runner_trail = new_broker.runner_trail;
  retrace_entry = none;
  issued = 1;
}

broker-IsBalanced : IsBalanced (num 1000) broker
unfolding count_items
broker-IsBalanced = record { balance = refl; counted = refl; concurrent = omega arith }

-- The stop and its result: 10 dollars on 10 ounces.
abbrev lost : ClosedPosition Fixed
lost = record {
  position = held;
  close_price = num 1990;
  closed_at = 900000;
  pnl = negsuc 99999999;
  exit_reason = stopped;
}

abbrev after : SimulatedBroker Fixed
after = record broker { balance = num 900; positions = []; closed = lost ∷ [] }

create-IsBalanced_example : IsBalanced (num 1000) new_broker
unfolding create
create-IsBalanced_example = create-IsBalanced (num 1000) (λ trail. trail) none

process_candle-IsBalanced_example : IsBalanced (num 1000) after
unfolding process_candle process_pending_limits pending_or_same items scan close calc_pnl get_spread
    manage_on exit_of process_open store_open update_position_management includes delete_items
process_candle-IsBalanced_example =
    process_candle-IsBalanced ids (num 1000) broker "XAUUSD" (bar (num 1985) (num 1995))
      (after, lost ∷ []) broker-IsBalanced refl

-- The scan that closes the held position at its stop.
abbrev scanned : Scan Fixed
scanned = record {
  broker = record after { positions = broker.positions };
  still_open = [];
  just_closed = lost ∷ [];
}

scan-IsFairExit_example : IsFairScan (bar (num 1985) (num 1995)) scanned
unfolding scan close calc_pnl exit_of
scan-IsFairExit_example =
    scan-IsFairExit (bar (num 1985) (num 1995)) (held ∷ []) broker scanned refl

-- Two bars are left to a limit that the bar does not touch.
abbrev limit : PendingLimit Fixed
limit = record { signal = signal; limit_price = num 1995; scale = num 2; bars_left = 2 }
