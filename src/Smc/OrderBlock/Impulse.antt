-- ===== src/Smc/OrderBlock/Impulse.antt =====
-- The order block that the search reports was left by an impulsive move, and price has not come back.
use shamarx_app.Prelude.{
  ℕ, ◌+◌, ◌≤◌, ◌<◌, ◌≡◌, true, false, Option, some, List, get_elem?, length, or_else,
}
use shamarx_app.Double.{Double, ◌⊗◌, ◌⊴◌, dec}
use shamarx_app.Engine.{Side, buy, sell, BacktestCandle}
use shamarx_app.Smc.Scan.{end_of, is_buy, reenters, atr_at}
use shamarx_app.Smc.OrderBlock.{
  OrderBlock, DetectObOptions, is_down, is_up, move_away, bars_ahead, block_at, backs,
}

module _ {W : Type 0} ⦃d : Double W⦄ (candles : List (BacktestCandle W)) where
  -- The move of a bar of the range that goes as far as the threshold.
  pub record IsImpulse (c : BacktestCandle W) (threshold : W) (k n : ℕ) (move : W) : Type 0 where
    pub at : ℕ
    pub from : k ≤ at
    pub below : at < k + n
    pub fwd : BacktestCandle W
    pub there : get_elem? candles at ≡ some fwd
    pub measured : move_away c fwd ≡ move
    pub far : (threshold ⊴ move) ≡ true

  -- `ob` is the bar `k`, against the direction, whose range a later bar left by the impulse, and no
  -- bar from the second after it up to `end_idx` has come back to.
  pub record IsOpenBlock (side : Side) (end_idx look_forward : ℕ) (mult : W) (atr : Option (List W))
      (k : ℕ) (ob : OrderBlock W) : Type 0 where
    pub c : BacktestCandle W
    pub there : get_elem? candles k ≡ some c
    pub at : ob.candle_idx ≡ k
    pub top : ob.top ≡ c.high
    pub bottom : ob.bottom ≡ c.low
    pub direction : ob.is_bullish ≡ is_buy side
    pub opposes : (elim side [ buy ↦ is_down c | sell ↦ is_up c ]) ≡ true
    pub impulse :
        IsImpulse c
          (mult ⊗ atr_at atr k)
          (k + 1)
          (bars_ahead k look_forward end_idx)
          ob.displacement
    pub open_still :
        (j : ℕ)
        → k + 2 ≤ j
        → j ≤ end_idx
        → reenters (is_buy side) ob.top ob.bottom (get_elem? candles j) ≡ false

module _ {W : Type 0} ⦃d : Double W⦄ (candles : List (BacktestCandle W)) (side : Side)
    (options : DetectObOptions W) where
  abbrev end_idx : ℕ
  end_idx = end_of options.end_idx (length candles)

  abbrev look_forward : ℕ
  look_forward = or_else options.look_forward_max 4

  abbrev mult : W
  mult = or_else options.displacement_atr_mult (dec 15 1)

  abbrev yields : ℕ → Option (OrderBlock W)
  yields = block_at candles end_idx look_forward mult options.atr

  -- The result is an open block of the direction on a bar of the range, and every block on a newer
  -- bar is mitigated or of the other direction.
  pub record IsNewestOpenBlock (ob : OrderBlock W) : Type 0 where
    pub from : 1 ≤ ob.candle_idx
    pub below : ob.candle_idx < end_idx
    pub block : IsOpenBlock candles side end_idx look_forward mult options.atr ob.candle_idx ob
    pub newest :
        (j : ℕ)
        → ob.candle_idx < j
        → j < end_idx
        → (other : OrderBlock W) → yields j ≡ some other
        → backs side other ≡ false
