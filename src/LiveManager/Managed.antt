-- ===== src/LiveManager/Managed.antt =====
-- What one run of the manager does to a trade and asks of the broker.
use shamarx_app.Prelude.{
  ℕ, ◌≡◌, refl, subst, ◌⊎◌, inl, inr, Bool, true, false, not, some, List, [], String, arith,
  Bool-cases, Option-cases, either, All,
}
use shamarx_app.Double.{Double, IsIeee}
use shamarx_app.Engine.{BacktestCandle, SimulatedPosition}
use shamarx_app.Position.Manage.{update_position_management}
use shamarx_app.Position.Manage.Stop.{is_looser, is_protective, stop_never_loosens}
use shamarx_app.Position.Manage.Frame.{update-IsManagedFrom}
use shamarx_app.LiveManager.{
  ManagedTrade, LivePosition, ManagementState, Modify, parse_state, position_of, is_same_position,
  needs_modify, store, modify_of, apply_update, manage_trade,
}
use shamarx_app.LiveManager.Levels.{found_by_ticket, start_stop}

module _ {W : Type 0} ⦃d : Double W⦄ where
  -- A later run, whatever the broker then answers as `p`, starts from the row with the same first
  -- stop and the same trail as this one, and with breakeven still on if it was on.
  pub record IsFrozen (p : LivePosition W) (trade row : ManagedTrade W) : Type 0 where
    pub same_identity :
        (row.id ≡ trade.id) × (row.mt5_ticket ≡ trade.mt5_ticket) × (row.side ≡ trade.side)
    pub first_stop : (parse_state row p).original_sl_price ≡ (parse_state trade p).original_sl_price
    pub same_trail : (parse_state row p).trail_key ≡ (parse_state trade p).trail_key
    pub latched :
        ((parse_state trade p).breakeven_activated ≡ false)
        ⊎ ((parse_state row p).breakeven_activated ≡ true)

  same-IsFrozen : (p : LivePosition W) (trade : ManagedTrade W) → IsFrozen p trade trade
  same-IsFrozen p trade = record {
    same_identity = (refl, refl, refl);
    first_stop = refl;
    same_trail = refl;
    latched = elim (Bool-cases (parse_state trade p).breakeven_activated) [
      | inl on ↦ inr on
      | inr off ↦ inl off
    ];
  }

  store-IsFrozen :
      (p broker : LivePosition W) (trade : ManagedTrade W) (updated : SimulatedPosition W)
      → ((parse_state trade broker).breakeven_activated ≡ false)
        ⊎ (updated.breakeven_activated ≡ true)
      → IsFrozen p trade (store trade (parse_state trade broker) updated)
  unfolding store parse_state
  store-IsFrozen p broker trade updated latched = record {
    same_identity = (refl, refl, refl);
    first_stop = refl;
    same_trail = refl;
    latched = latched;
  }

  apply_update-cases :
      (P : ManagedTrade W → Type 0) (symbol : String) (accepts : ℕ → Bool) (trade : ManagedTrade W)
      (state : ManagementState W) (pos updated : SimulatedPosition W)
      → P trade
      → P (store trade state updated)
      → P (apply_update symbol accepts trade state pos updated).0
  unfolding apply_update
  apply_update-cases P symbol accepts trade state pos updated kept stored =
      either (λ (r : ManagedTrade W × List (Modify W)). P r.0) (is_same_position updated pos) kept
        (either (λ (r : ManagedTrade W × List (Modify W)). P r.0) (needs_modify symbol updated pos)
          (either P (accepts trade.mt5_ticket) stored kept) stored)

  -- Managing a trade freezes the risk it was opened with: the first stop, from which R is measured,
  -- and the trail stay what they were, however the stop has moved, and breakeven is never undone.
  pub manage_trade-IsFrozen :
      (laws : IsIeee W) (symbol : String) (accepts : ℕ → Bool) (candle : BacktestCandle W)
      (spread : W) (positions : List (LivePosition W)) (trade : ManagedTrade W) (p : LivePosition W)
      → IsFrozen p trade (manage_trade symbol accepts candle spread positions trade).0
  unfolding manage_trade position_of
  manage_trade-IsFrozen laws symbol accepts candle spread positions trade p =
      elim (Option-cases (found_by_ticket positions trade)) [
        | inl closed ↦
            subst (λ (r : ManagedTrade W × List (Modify W)). IsFrozen p trade r.0) {x = (trade, [])}
              {y = manage_trade symbol accepts candle spread positions trade}
              (ground (arith, closed)) (same-IsFrozen p trade)
        | inr (broker, open_there) ↦
            let state = parse_state trade broker in
            let pos = position_of trade broker state in
            let updated = update_position_management pos candle spread in
            subst (λ (r : ManagedTrade W × List (Modify W)). IsFrozen p trade r.0)
              {x = apply_update symbol accepts trade state pos updated}
              {y = manage_trade symbol accepts candle spread positions trade}
              (ground (arith, open_there))
              (apply_update-cases (IsFrozen p trade) symbol accepts trade state pos updated
                (same-IsFrozen p trade)
                (store-IsFrozen p broker trade updated
                  (update-IsManagedFrom laws pos candle spread).latched))
      ]

  abbrev pub NotLooser : ManagedTrade W → W → ManagedTrade W × List (Modify W) → Type 0
  NotLooser trade start r =
      ((r.0 ≡ trade) ⊎ (is_looser trade.side r.0.sl_price start ≡ false))
      × All (λ (m : Modify W). is_looser trade.side m.sl_price start ≡ false) r.1

  apply_update-NotLooser :
      (symbol : String) (accepts : ℕ → Bool) (trade : ManagedTrade W) (state : ManagementState W)
      (pos updated : SimulatedPosition W) (start : W)
      → is_looser trade.side updated.sl_price start ≡ false
      → NotLooser trade start (apply_update symbol accepts trade state pos updated)
  unfolding apply_update store modify_of
  apply_update-NotLooser symbol accepts trade state pos updated start h =
      either (NotLooser trade start) (is_same_position updated pos) (inl refl, tt)
        (either (NotLooser trade start) (needs_modify symbol updated pos)
          (
            either
                (λ (row : ManagedTrade W).
                  (row ≡ trade) ⊎ (is_looser trade.side row.sl_price start ≡ false))
                (accepts trade.mt5_ticket) (inr h) (inl refl),
            (h, tt),
          )
          (inr h, tt))

  -- Neither the row nor a change sent to the broker moves the stop against the trade, measured from
  -- the broker's stop. The condition is that before breakeven that stop stands on the losing side of
  -- the entry, and that the broker has the position.
  pub manage_trade-NotLooser :
      (laws : IsIeee W) (symbol : String) (accepts : ℕ → Bool) (candle : BacktestCandle W)
      (spread : W) (positions : List (LivePosition W)) (trade : ManagedTrade W)
      (broker : LivePosition W)
      → found_by_ticket positions trade ≡ some broker
      → (not (parse_state trade broker).breakeven_activated ≡ true
          → is_protective trade.side (position_of trade broker (parse_state trade broker)) ≡ true)
      → NotLooser trade
          (start_stop broker trade)
          (manage_trade symbol accepts candle spread positions trade)
  unfolding manage_trade position_of
  manage_trade-NotLooser laws symbol accepts candle spread positions trade broker at h =
      let state = parse_state trade broker in
      let pos = position_of trade broker state in
      let updated = update_position_management pos candle spread in
      subst (λ r. NotLooser trade (start_stop broker trade) r)
        {x = apply_update symbol accepts trade state pos updated} (ground (arith, at))
        (apply_update-NotLooser symbol accepts trade state pos updated (start_stop broker trade)
          (stop_never_loosens laws pos candle spread h))
