-- ===== src/Examples/Brakes.antt =====
-- The theorems on the risk manager and on dates, at an account of 1000 dollars in gold.
use shamarx_app.Prelude.{◌≡◌, refl, ◌*◌, none, some, true, false, ◌↔◌, [], ◌∷◌, ◌++◌, arith}
use shamarx_app.Double.{num, ◌⊕◌}
use shamarx_app.Double.Fixed.{Fixed, negsuc, fixed_double, Fixed-IsIeee}
use shamarx_app.Engine.Instrument.{get_instrument_config}
use shamarx_app.Calendar.{date_of, add_trading_days, advance}
use shamarx_app.Calendar.TradingDays.{add_trading_days-IsTradingDays, IsTradingDays}
use shamarx_app.Risk.{RiskManager, create, equity_dd_percent, maybe_reset_daily, maybe_reset_weekly}
use shamarx_app.Risk.Guards.{can_trade}
use shamarx_app.Risk.Guards.Clear.{can_trade_iff, IsClear, refreshed}
use shamarx_app.Risk.Record.{record_trade, settle}
use shamarx_app.Risk.Record.Booked.{record_trade_booked, booked_entry}
use shamarx_app.Risk.Record.Coherent.{IsCoherent, create-IsCoherent}
use shamarx_app.Risk.Record.Pauses.{
  drawdown_pause_holds, killed_for_good, drawdown_days, none_yet, asked, here, next, asks,
}
use shamarx_app.Risk.Snapshot.{restore-snapshot, restore, snapshot, last_entries}
use shamarx_app.Examples.{account}

abbrev pub new_manager : RiskManager Fixed
new_manager = record {
  config = account;
  lot_size_units = num 100;
  balance = num 1000;
  equity = num 1000;
  daily_pnl = num 0;
  consecutive_losses = 0;
  consecutive_wins = 0;
  last_trade_date = none;
  weekly_peak_equity = num 1000;
  current_week_number = none;
  pause_until_date = none;
  consecutive_loss_pause_until = none;
  awaiting_post_pause_trade = false;
  overall_peak_equity = num 1000;
  trade_log = [];
  equity_dd_pause_until = none;
  last_dd_tier_triggered = 0;
  rolling7_day_pause_until = none;
  hard_killed = false;
}

-- After four losses in a row.
abbrev unlucky : RiskManager Fixed
unlucky = record new_manager { consecutive_losses = 4 }

can_trade_iff_example :
    ((can_trade unlucky 86400000 1).1 ≡ true)
    ↔ IsClear (refreshed unlucky 86400000) (date_of 86400000) 1
can_trade_iff_example = can_trade_iff unlucky 86400000 1

record_trade_booked_example :
    let q = record_trade new_manager (negsuc 9999999) 86400000 (some "SL") in
    (q.balance ≡ num 1000 ⊕ negsuc 9999999)
    × (q.equity ≡ num 1000 ⊕ negsuc 9999999)
    × (q.trade_log ≡ [] ++ booked_entry (negsuc 9999999) 86400000 (some "SL") ∷ [])
    × (q.last_trade_date ≡ some 86400000)
record_trade_booked_example = record_trade_booked new_manager (negsuc 9999999) 86400000 (some "SL")

new_manager-IsCoherent : IsCoherent new_manager
unfolding create get_instrument_config
new_manager-IsCoherent = create-IsCoherent Fixed-IsIeee account new_manager refl

-- A loss of a fifth of the account is a drawdown of 20 per cent.
-- The manager after a trade that loses a fifth, and a request on the next day.
abbrev paused_manager : RiskManager Fixed
paused_manager = record_trade new_manager (negsuc 199999999) 86400000 (some "SL")

drawdown_pause_holds_example :
    (can_trade (can_trade paused_manager 172800000 0).0 259200000 0).1 ≡ false
unfolding drawdown_days settle equity_dd_percent maybe_reset_daily maybe_reset_weekly
drawdown_pause_holds_example =
    drawdown_pause_holds new_manager (can_trade paused_manager 172800000 0).0 (negsuc 199999999)
      86400000 259200000 0 (some "SL") (omega arith) (asked 172800000 0 none_yet (omega arith))
      (omega arith)

killed_for_good_example :
    (can_trade
      (can_trade (record_trade new_manager (negsuc 449999999) 86400000 (some "SL")) 172800000 0).0
      259200000
      0).1
    ≡ false
unfolding settle equity_dd_percent maybe_reset_daily maybe_reset_weekly
killed_for_good_example =
    killed_for_good new_manager (negsuc 449999999) 86400000 (some "SL")
      (can_trade (record_trade new_manager (negsuc 449999999) 86400000 (some "SL")) 172800000 0).0
      259200000 0 refl
      (next here
        (asks (record_trade new_manager (negsuc 449999999) 86400000 (some "SL")) 172800000 0))

restore-snapshot_example :
    restore new_manager (snapshot unlucky)
    ≡ record unlucky { trade_log = last_entries unlucky.trade_log }
restore-snapshot_example = restore-snapshot new_manager unlucky refl refl

add_trading_days-IsTradingDays_example :
    (advance (3 * 2) 2 1 ≡ some (add_trading_days 1 2)) × IsTradingDays 1 2 (add_trading_days 1 2)
add_trading_days-IsTradingDays_example = add_trading_days-IsTradingDays 1 2
