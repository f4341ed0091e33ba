-- ===== src/LiveTrade.antt =====
-- The rows of live trades and the two services that settle them in the background:
-- src/strategy/live/pending-entry-monitor.service.ts, which follows parked limit orders, and
-- src/strategy/live/exit-reconciliation.service.ts, which replaces estimated exits by the broker's.
-- What the broker answers is an argument, none where the call throws. A query that takes at most 50
-- rows without an order may take any of them: `picked` says which.
pub mod Final
use shamarx_app.Prelude.{
  ℕ, ◌+◌, ◌*◌, Bool, true, false, not, ◌&&◌, ◌||◌, Option, none, some, List, [], ◌∷◌, ◌++◌, map,
  String, ltb, leb, if◌then◌else◌, or_else, is_some,
}
use shamarx_app.Double.{Double, ◌⊗◌, ◌⊘◌, ◌⊲◌, num, cents}

pub data TradeStatus : Type 0 where
  pending live closed cancelled : TradeStatus

-- The exits that these services read or write; `other` is any other reason.
pub data TradeExit : Type 0 where
  tp_est sl_est tp sl plain_close expired stale_broker other : TradeExit

-- The columns that the services read or write; `status_history` is the list of stages with times.
pub record Trade (W : Type 0) : Type 0 where
  pub id : String
  pub symbol : String
  pub status : TradeStatus
  pub is_retrace_limit : Bool
  pub account_id : Option String
  pub broker_order_id : Option String
  pub limit_price : Option W
  pub entry_price : W
  pub peak_favorable_price : Option W
  pub mt5_ticket : Option ℕ
  pub exit_reason : Option TradeExit
  pub close_price : Option W
  pub pnl : Option W
  pub created_at : ℕ
  pub closed_at : Option ℕ
  pub status_history : List (TradeStatus × ℕ)

-- The broker's answer on a parked order: filled with a position and a price, gone, or still parked.
pub data OrderStatus (W : Type 0) : Type 0 where
  filled : Option ℕ → Option W → OrderStatus W
  gone : OrderStatus W
  parked : OrderStatus W

-- What the broker's history says of a closed position: its reason contains TP or TAKE, or SL or STOP.
pub record BrokerCloseInfo (W : Type 0) : Type 0 where
  pub close_price : W
  pub pnl : W
  pub says_tp : Bool
  pub says_sl : Bool
  pub closed_at : Option ℕ

abbrev pub is_pending : TradeStatus → Bool
is_pending pending = true
is_pending _ = false

abbrev pub is_live : TradeStatus → Bool
is_live live = true
is_live _ = false

abbrev pub is_closed : TradeStatus → Bool
is_closed closed = true
is_closed _ = false

abbrev pub is_estimate : Option TradeExit → Bool
is_estimate (some tp_est) = true
is_estimate (some sl_est) = true
is_estimate _ = false

module _ {W : Type 0} ⦃d : Double W⦄ where
  -- The `where` of the sweep over parked orders.
  abbrev pub is_parked_limit : Trade W → Bool
  is_parked_limit t =
      is_pending t.status && t.is_retrace_limit && is_some t.broker_order_id && is_some t.account_id

  abbrev fill_price_of : Trade W → Option W → Option W
  fill_price_of t none = t.limit_price
  fill_price_of t (some price) = if num 0 ⊲ price then some price else t.limit_price

  -- The promotion of a filled order; without a price the update throws, and the row stays.
  abbrev promote : ℕ → ℕ → Option W → Trade W → Trade W
  promote now ticket none t = t
  promote now ticket (some fill_price) t = record t {
    status = live;
    mt5_ticket = some ticket;
    entry_price = fill_price;
    peak_favorable_price = some fill_price;
    status_history = t.status_history ++ (live, now) ∷ [];
  }

  -- The body of the loop for an answer of the broker; ticket 0 counts as none.
  pub settle_order : ℕ → Option (OrderStatus W) → Trade W → Trade W
  settle_order now none t = t
  settle_order now (some parked) t = t
  settle_order now (some (filled none price)) t = t
  settle_order now (some (filled (some ticket) price)) t =
      if ltb 0 ticket then promote now ticket (fill_price_of t price) t else t
  settle_order now (some gone) t = record t {
    status = cancelled;
    exit_reason = some expired;
    closed_at = some now;
    status_history = t.status_history ++ (cancelled, now) ∷ [];
  }

  -- `sweepOnce` of the monitor of pending entries.
  pub sweep_pending :
      ℕ → (Trade W → Bool) → (Trade W → Option (OrderStatus W)) → List (Trade W) → List (Trade W)
  sweep_pending now picked order_status = map λ (t : Trade W).
      if is_parked_limit t && picked t then settle_order now (order_status t) t else t

  -- `staleSweepOnce`, with STALE_BROKER_DAYS as `days` and the accounts that have a recent snapshot.
  pub sweep_stale : ℕ → ℕ → (Trade W → Bool) → List (Trade W) → List (Trade W)
  sweep_stale now days is_seen = map λ (t : Trade W).
      if is_live t.status && ltb (t.created_at + days * 24 * 3600 * 1000) now && not (is_seen t)
      then record t { status = closed; exit_reason = some stale_broker; closed_at = some now }
      else t

  abbrev pub is_estimated : ℕ → ℕ → Trade W → Bool
  is_estimated now hours t =
      is_closed t.status
      && is_estimate t.exit_reason
      && (elim t.closed_at [ none ↦ false | some at ↦ leb now (at + hours * 3600 * 1000) ])
      && is_some t.mt5_ticket

  -- The reason of `fetchCloseInfo`.
  abbrev reason_of : BrokerCloseInfo W → TradeExit
  reason_of info = if info.says_tp then tp else if info.says_sl then sl else plain_close

  -- The update of an estimated exit by the broker's history.
  pub correct_exit : Option (BrokerCloseInfo W) → Trade W → Trade W
  correct_exit none t = t
  correct_exit (some info) t = record t {
    close_price = some (d.round (info.close_price ⊗ num 100000) ⊘ num 100000);
    pnl = some (cents info.pnl);
    exit_reason = some (reason_of info);
    closed_at = elim info.closed_at [ none ↦ t.closed_at | some at ↦ some at ];
  }

  -- `sweepOnce` of the reconciliation, with LOOKBACK_HOURS as `hours`.
  pub reconcile :
      ℕ
      → ℕ
      → (Trade W → Bool)
      → (Trade W → Option (BrokerCloseInfo W))
      → List (Trade W)
      → List (Trade W)
  reconcile now hours picked close_info = map λ (t : Trade W).
      if is_estimated now hours t && picked t then correct_exit (close_info t) t else t
