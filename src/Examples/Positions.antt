-- ===== src/Examples/Positions.antt =====
-- The theorems on positions, at a position in gold.
use shamarx_app.Prelude.{◌≡◌, refl, [], none, some, false}
use shamarx_app.Double.{dec, num}
use shamarx_app.Double.Fixed.{Fixed, negsuc, fixed_double, Fixed-IsIeee}
use shamarx_app.Engine.{buy, ClosedTrade, sl, trend_pullback}
use shamarx_app.Position.Manage.{update_position_management}
use shamarx_app.Position.Manage.Stop.{stop_never_loosens, is_looser}
use shamarx_app.Position.Manage.Frame.{update-IsManagedFrom, IsManagedFrom}
use shamarx_app.Position.Close.{is_yen, check_position_exit, sl_hit, tp_hit, force_close_position}
use shamarx_app.Position.Close.Reason.{exit-ExitsBy, ExitsBy}
use shamarx_app.Examples.{gold, bar}

stop_never_loosens_example :
    is_looser buy
      (update_position_management gold (bar (num 1999) (num 2025)) (dec 3 1)).sl_price
      (num 1990)
    ≡ false
stop_never_loosens_example =
    stop_never_loosens Fixed-IsIeee gold (bar (num 1999) (num 2025)) (dec 3 1) (λ _. refl)

update-IsManagedFrom_example :
    IsManagedFrom gold (update_position_management gold (bar (num 1999) (num 2025)) (dec 3 1))
update-IsManagedFrom_example =
    update-IsManagedFrom Fixed-IsIeee gold (bar (num 1999) (num 2025)) (dec 3 1)

-- The trade of the stop, which a bar that reaches both levels hits.
abbrev pub stopped_trade : ClosedTrade Fixed
stopped_trade = record {
  side = buy;
  entry_price = num 2000;
  exit_price = num 1990;
  sl_price = num 1990;
  tp_price = some (num 2030);
  lot_size = dec 1 1;
  pnl = negsuc 100999999;
  commission = num 1;
  setup_tags = [];
  entry_time = 0;
  exit_time = 900000;
  exit_reason = sl;
  h1_bias = "BULLISH";
  rsi_at_entry = num 50;
  atr_at_entry = num 5;
  r_multiple = negsuc 999999;
  regime_at_entry = none;
  engine_type = trend_pullback;
}

exit-ExitsBy_example :
    let t = stopped_trade in
    ExitsBy gold
      (sl_hit gold (bar (num 1985) (num 2035)) (dec 3 1))
      (tp_hit gold (bar (num 1985) (num 2035)) (dec 3 1))
      sl
      (num 1990)
    × (t ≡ record (force_close_position gold (num 1990) 900000 (num 1) (num 100) none) {
      exit_reason = sl;
    })
unfolding check_position_exit sl_hit tp_hit is_yen
exit-ExitsBy_example =
    exit-ExitsBy gold (bar (num 1985) (num 2035)) (dec 3 1) (num 1) (num 100) none stopped_trade
      refl
