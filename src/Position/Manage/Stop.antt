-- ===== src/Position/Manage/Stop.antt =====
-- The stop of a managed position moves only in the position's favour.
use shamarx_app.Prelude.{◌≡◌, Bool, true, false, not, ◌&&◌, arith, if◌then◌else◌}
use shamarx_app.Double.{Double, IsIeee, ◌⊲◌, ◌⊴◌, ◌⊖◌, ◌⊕◌, ◌⊗◌, num, dec}
use shamarx_app.Engine.{Side, buy, sell, BacktestCandle, SimulatedPosition}
use shamarx_app.Position.Manage.{plan, manage, manage_buy, manage_sell, update_position_management}

module _ {W : Type 0} ⦃d : Double W⦄ where
  -- The first stop allows a larger loss than the second.
  abbrev pub is_looser : Side → W → W → Bool
  is_looser buy new old = new ⊲ old
  is_looser sell new old = old ⊲ new

  -- The stop stands on the losing side of the entry, as it does when a position is opened.
  abbrev pub is_protective : Side → SimulatedPosition W → Bool
  is_protective buy position = position.sl_price ⊴ position.entry_price
  is_protective sell position = position.entry_price ⊴ position.sl_price

  module _ (laws : IsIeee W) where
    open laws use {
      lt_irrefl, lt_trans, lt_of_lt_le, lt_of_le_lt, add_nonneg, sub_nonneg, mul_nonneg, abs_nonneg,
      decimal_mono,
    }

    tenth_nonneg : (x : W) → (d.abs x ⊗ dec 1 1 ⊲ num 0) ≡ false
    tenth_nonneg x =
        mul_nonneg (d.abs x) (dec 1 1) (abs_nonneg x) (decimal_mono 1 1 0 0 (omega arith))

    -- A stop that is raised to `trail`, if at all, only where that is higher; and its mirror.
    raise_not_lower :
        (active : Bool) (old stop trail : W)
        → (stop ⊲ old) ≡ false
        → ((if active && (stop ⊲ trail) then trail else stop) ⊲ old) ≡ false
    raise_not_lower active old stop trail h = ground (arith, lt_trans stop trail old)

    lower_not_higher :
        (active : Bool) (old stop trail : W)
        → (old ⊲ stop) ≡ false
        → (old ⊲ (if active && (trail ⊲ stop) then trail else stop)) ≡ false
    lower_not_higher active old stop trail h = ground (arith, lt_trans old trail stop)

    -- The stop at breakeven, a tenth of the risk `x` beyond the entry, is not looser.
    breakeven_not_lower :
        (crossed inactive : Bool) (stop entry x : W)
        → (inactive ≡ true → (stop ⊴ entry) ≡ true)
        → ((if inactive && crossed then entry ⊕ d.abs x ⊗ dec 1 1 else stop) ⊲ stop) ≡ false
    breakeven_not_lower crossed inactive stop entry x h =
        let tenth = d.abs x ⊗ dec 1 1 in
        ground (
          arith,
          lt_irrefl stop,
          add_nonneg entry tenth (tenth_nonneg x),
          lt_of_lt_le (entry ⊕ tenth) stop entry,
        )

    breakeven_not_higher :
        (crossed inactive : Bool) (stop entry x : W)
        → (inactive ≡ true → (entry ⊴ stop) ≡ true)
        → (stop ⊲ (if inactive && crossed then entry ⊖ d.abs x ⊗ dec 1 1 else stop)) ≡ false
    breakeven_not_higher crossed inactive stop entry x h =
        let tenth = d.abs x ⊗ dec 1 1 in
        ground (
          arith,
          lt_irrefl stop,
          sub_nonneg entry tenth (tenth_nonneg x),
          lt_of_le_lt entry stop (entry ⊖ tenth),
        )

    buy_not_looser :
        (position : SimulatedPosition W) (candle : BacktestCandle W) (spread : W)
        → (not position.breakeven_activated ≡ true
            → (position.sl_price ⊴ position.entry_price) ≡ true)
        → ((manage_buy position candle spread (plan position)).stop ⊲ position.sl_price) ≡ false
    unfolding manage_buy plan
    buy_not_looser position candle spread h =
        raise_not_lower _ _ _ _ (breakeven_not_lower _ _ _ _ _ h)

    sell_not_looser :
        (position : SimulatedPosition W) (candle : BacktestCandle W) (spread : W)
        → (not position.breakeven_activated ≡ true
            → (position.entry_price ⊴ position.sl_price) ≡ true)
        → (position.sl_price ⊲ (manage_sell position candle spread (plan position)).stop) ≡ false
    unfolding manage_sell plan
    sell_not_looser position candle spread h =
        lower_not_higher _ _ _ _ (breakeven_not_higher _ _ _ _ _ h)

    manage-not_looser :
        (side : Side) (position : SimulatedPosition W) (candle : BacktestCandle W) (spread : W)
        → (not position.breakeven_activated ≡ true → is_protective side position ≡ true)
        → is_looser side (manage side position candle spread (plan position)).stop position.sl_price
          ≡ false
    unfolding manage
    manage-not_looser buy position candle spread h = buy_not_looser position candle spread h
    manage-not_looser sell position candle spread h = sell_not_looser position candle spread h

    is_looser_irrefl : (side : Side) (x : W) → is_looser side x x ≡ false
    is_looser_irrefl buy x = lt_irrefl x
    is_looser_irrefl sell x = lt_irrefl x

    -- Managing a position on a candle never loosens its stop: not lower for a buy, not higher for a
    -- sell. The condition is that, before breakeven, the stop stands on the losing side of the entry.
    pub stop_never_loosens :
        (position : SimulatedPosition W) (candle : BacktestCandle W) (spread : W)
        → (not position.breakeven_activated ≡ true → is_protective position.side position ≡ true)
        → is_looser position.side
            (update_position_management position candle spread).sl_price
            position.sl_price
          ≡ false
    unfolding update_position_management
    stop_never_loosens position candle spread h = ground (
      arith,
      is_looser_irrefl position.side position.sl_price,
      manage-not_looser position.side position candle spread h,
    )
