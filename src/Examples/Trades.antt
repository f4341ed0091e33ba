-- ===== src/Examples/Trades.antt =====
-- The theorem on live trades, at a cancelled order beside a parked one.
use shamarx_app.Prelude.{◌≡◌, refl, inl, true, false, none, some, List, [], ◌∷◌, get_elem?}
use shamarx_app.Double.{num}
use shamarx_app.Double.Fixed.{Fixed, fixed_double}
use shamarx_app.LiveTrade.{
  Trade, pending, cancelled, expired, filled, sweep_pending, sweep_stale, reconcile,
}
use shamarx_app.LiveTrade.Final.{here, next, follows, retires, corrects, final_stays}

abbrev parked_order : Trade Fixed
parked_order = record {
  id = "a";
  symbol = "XAUUSD";
  status = pending;
  is_retrace_limit = true;
  account_id = some "acc";
  broker_order_id = some "o1";
  limit_price = some (num 2000);
  entry_price = num 2000;
  peak_favorable_price = none;
  mt5_ticket = none;
  exit_reason = none;
  close_price = none;
  pnl = none;
  created_at = 0;
  closed_at = none;
  status_history = [];
}

abbrev lapsed_order : Trade Fixed
lapsed_order = record parked_order {
  id = "b";
  status = cancelled;
  exit_reason = some expired;
  closed_at = some 60000;
}

abbrev table : List (Trade Fixed)
table = parked_order ∷ lapsed_order ∷ []

-- The broker says of every order that it is filled.
abbrev followed : List (Trade Fixed)
followed = sweep_pending 120000 (λ t. true) (λ t. some (filled (some 7) (some (num 2001)))) table

abbrev retired : List (Trade Fixed)
retired = sweep_stale 999999999 7 (λ t. false) followed

final_stays_example :
    get_elem? (reconcile 999999999 72 (λ t. true) (λ t. none) retired) 1 ≡ some lapsed_order
final_stays_example =
    final_stays table (reconcile 999999999 72 (λ t. true) (λ t. none) retired) 1 lapsed_order
      (next
        (next
          (next here
            (follows 120000 (λ t. true) (λ t. some (filled (some 7) (some (num 2001)))) refl))
          (retires 999999999 7 (λ t. false) refl))
        (corrects 999999999 72 (λ t. true) (λ t. none) refl))
      (inl refl) refl
