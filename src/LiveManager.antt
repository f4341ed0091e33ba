-- ===== src/LiveManager.antt =====
-- src/strategy/live/live-position-manager.service.ts: the management of the open trades of a symbol at
-- the close of an M15 bar, for one account or for each. What the broker and the database answer are
-- arguments; `accepts ticket` says whether the broker takes a change of the position. A run returns
-- the rows of the trades and the changes that were sent, in their order.
pub mod Levels
pub mod Managed
pub mod Accounts
use shamarx_app.Prelude.{
  ℕ, Bool, true, false, not, ◌&&◌, ◌||◌, Option, none, some, List, [], ◌∷◌, ◌++◌, map, String, ◌==◌,
  ◌is◌, includes, or_else, is_some, filter, if◌then◌else◌,
}
use shamarx_app.Double.{Double, ◌⊖◌, ◌⊲◌, ◌⊴◌, num, dec, same_level}
use shamarx_app.Engine.{
  Side, buy, sell, BacktestCandle, RegimeTradeParams, SimulatedPosition, weak_trend,
}
use shamarx_app.Engine.Instrument.{get_spread}
use shamarx_app.Position.Manage.{update_position_management}
use shamarx_app.Broker.{smc_tp1_trail, smc_runner_trail}
use shamarx_app.Smc.Scan.{last_where}

pub data TrailKey : Type 0 where
  tp1 runner : TrailKey

-- The column `managementState`, with the fields that are there.
pub record PartialState (W : Type 0) : Type 0 where
  pub breakeven_activated : Option Bool
  pub peak_favorable_price : Option W
  pub original_sl_price : Option W
  pub trail_key : Option TrailKey

pub record ManagementState (W : Type 0) : Type 0 where
  pub breakeven_activated : Bool
  pub peak_favorable_price : W
  pub original_sl_price : W
  pub trail_key : TrailKey

-- The columns of an open trade that the manager reads or writes.
pub record ManagedTrade (W : Type 0) : Type 0 where
  pub id : String
  pub mt5_ticket : ℕ
  pub account_id : Option String
  pub side : Side
  pub entry_price : W
  pub sl_price : W
  pub tp_price : W
  pub lot_size : W
  pub setup_tags : List String
  pub created_at : ℕ
  pub management_state : PartialState W

pub record LivePosition (W : Type 0) : Type 0 where
  pub ticket : ℕ
  pub entry_price : Option W
  pub sl : W
  pub tp : W

-- A change that the broker is asked for; no target is 0.
pub record Modify (W : Type 0) : Type 0 where
  pub ticket : ℕ
  pub sl_price : W
  pub tp_price : W

abbrev side_bias : Side → String
side_bias buy = "BULLISH"
side_bias sell = "BEARISH"

abbrev trail_tags : TrailKey → List String
trail_tags tp1 = "SMC" ∷ "TP1" ∷ []
trail_tags runner = "SMC" ∷ "RUNNER" ∷ []

abbrev same_bool : Bool → Bool → Bool
same_bool true b = b
same_bool false b = not b

abbrev key_of_tags : List String → TrailKey
key_of_tags tags = if includes tags "TP1" then tp1 else runner

module _ {W : Type 0} ⦃d : Double W⦄ where
  -- `minSlChangeAbs[symbol] ?? 0.0001`.
  pub min_sl_change_abs : String → W
  min_sl_change_abs symbol =
      if symbol is "XAUUSD" then dec 5 2 else if symbol is "USDJPY" then dec 1 2 else dec 1 4

  abbrev pub trail_of : TrailKey → RegimeTradeParams W
  trail_of tp1 = smc_tp1_trail
  trail_of runner = smc_runner_trail

  unfoldable pub parse_state : ManagedTrade W → LivePosition W → ManagementState W
  unfolding includes
  parse_state trade broker =
      let raw = trade.management_state in
      record {
        breakeven_activated = or_else raw.breakeven_activated false;
        peak_favorable_price =
            or_else raw.peak_favorable_price (or_else broker.entry_price trade.entry_price);
        original_sl_price = or_else raw.original_sl_price trade.sl_price;
        trail_key = or_else raw.trail_key (key_of_tags trade.setup_tags);
      }

  -- The position that the engine manages; the broker's levels come first.
  unfoldable pub position_of :
      ManagedTrade W → LivePosition W → ManagementState W → SimulatedPosition W
  position_of trade broker state = record {
    side = trade.side;
    entry_price = trade.entry_price;
    sl_price = if num 0 ⊲ broker.sl then broker.sl else trade.sl_price;
    tp_price = some (if num 0 ⊲ broker.tp then broker.tp else trade.tp_price);
    original_sl_price = state.original_sl_price;
    breakeven_activated = state.breakeven_activated;
    peak_favorable_price = state.peak_favorable_price;
    lot_size = trade.lot_size;
    entry_time = trade.created_at;
    entry_index = 0;
    setup_tags = trail_tags state.trail_key;
    h1_bias = side_bias trade.side;
    rsi_at_entry = num 50;
    atr_at_entry = num 0;
    trail_config = some (trail_of state.trail_key);
    regime_at_entry = some weak_trend;
    is_scale_in = none;
    parent_entry_price = none;
    has_scale_in = none;
  }

  -- `updated === pos`: the management returns the position itself where these values are equal.
  unfoldable pub is_same_position : SimulatedPosition W → SimulatedPosition W → Bool
  is_same_position updated pos =
      d.eq updated.peak_favorable_price pos.peak_favorable_price
      && d.eq updated.sl_price pos.sl_price
      && same_bool updated.breakeven_activated pos.breakeven_activated
      && same_level updated.tp_price pos.tp_price

  abbrev tp_changed : W → Option W → Option W → Bool
  tp_changed least (some new) (some old) = least ⊴ d.abs (new ⊖ old)
  tp_changed least _ _ = false

  -- The change is worth a call of the broker.
  unfoldable pub needs_modify : String → SimulatedPosition W → SimulatedPosition W → Bool
  needs_modify symbol updated pos =
      let least = min_sl_change_abs symbol in
      let sl_changed = least ⊴ d.abs (updated.sl_price ⊖ pos.sl_price) in
      let tp_removed = is_some pos.tp_price && not (is_some updated.tp_price) in
      sl_changed || tp_removed || tp_changed least updated.tp_price pos.tp_price

  -- `prisma.trade.update`.
  unfoldable pub store : ManagedTrade W → ManagementState W → SimulatedPosition W → ManagedTrade W
  store trade state updated = record trade {
    sl_price = updated.sl_price;
    tp_price = or_else updated.tp_price trade.tp_price;
    management_state = record {
      breakeven_activated = some updated.breakeven_activated;
      peak_favorable_price = some updated.peak_favorable_price;
      original_sl_price = some state.original_sl_price;
      trail_key = some state.trail_key;
    };
  }

  unfoldable pub modify_of : ManagedTrade W → SimulatedPosition W → Modify W
  modify_of trade updated = record {
    ticket = trade.mt5_ticket;
    sl_price = updated.sl_price;
    tp_price = or_else updated.tp_price (num 0);
  }

  -- What follows the management of one trade: the row, and the changes that were sent. A change that
  -- the broker rejects leaves the row as it was.
  unfoldable pub apply_update :
      String
      → (ℕ → Bool)
      → ManagedTrade W
      → ManagementState W
      → SimulatedPosition W
      → SimulatedPosition W
      → ManagedTrade W × List (Modify W)
  apply_update symbol accepts trade state pos updated =
      if is_same_position updated pos
      then (trade, [])
      else if needs_modify symbol updated pos
      then (
        if accepts trade.mt5_ticket then store trade state updated else trade,
        modify_of trade updated ∷ [],
      )
      else (store trade state updated, [])

  -- The body of the loop over the open trades.
  unfoldable pub manage_trade :
      String
      → (ℕ → Bool)
      → BacktestCandle W
      → W
      → List (LivePosition W)
      → ManagedTrade W
      → ManagedTrade W × List (Modify W)
  unfolding last_where
  manage_trade symbol accepts candle spread positions trade =
      elim (last_where (λ (p : LivePosition W). p.ticket == trade.mt5_ticket) positions) [
        | none ↦ (trade, [])
        | some broker ↦
            let state = parse_state trade broker in
            let pos = position_of trade broker state in
            apply_update symbol accepts trade state pos
              (update_position_management pos candle spread)
      ]

  unfoldable pub manage_trades :
      String
      → (ℕ → Bool)
      → BacktestCandle W
      → W
      → List (LivePosition W)
      → List (ManagedTrade W)
      → List (ManagedTrade W) × List (Modify W)
  manage_trades symbol accepts candle spread positions [] = ([], [])
  manage_trades symbol accepts candle spread positions (trade ∷ rest) =
      let one = manage_trade symbol accepts candle spread positions trade in
      let others = manage_trades symbol accepts candle spread positions rest in
      (one.0 ∷ others.0, one.1 ++ others.1)
