-- ===== src/Broker/Orders/Expiry.antt =====
-- A parked limit waits for its bars and no longer.
use shamarx_app.Prelude.{
  ℕ, ◌-◌, ◌≡◌, refl, List, [], ◌∷◌, map, String, arith, ltb, if◌then◌else◌, filter, not, ◌&&◌,
}
use shamarx_app.Double.{Double}
use shamarx_app.Engine.{BacktestCandle}
use shamarx_app.Broker.{SimulatedBroker, PendingLimit}
use shamarx_app.Broker.Orders.{touches, fill_or_expire, fill_at}

module _ {W : Type 0} ⦃d : Double W⦄ (uuid : ℕ → String) where
  -- A limit after one more bar.
  abbrev pub aged : PendingLimit W → PendingLimit W
  aged p = record p { bars_left = p.bars_left - 1 }

  -- The limits that remain after a bar are, in their order, those that the bar does not touch and
  -- that had more than one bar left, each with one bar less.
  pub remaining_limits :
      (candle : BacktestCandle W) (ps : List (PendingLimit W)) (b : SimulatedBroker W)
      → (fill_or_expire uuid b candle ps).1
        ≡ map aged (filter (λ p. not (touches p candle) && ltb 1 p.bars_left) ps)
  unfolding fill_or_expire
  remaining_limits candle [] b = refl
  remaining_limits candle (p ∷ rest) b = ground (
    arith,
    remaining_limits candle rest (
        if touches p candle
        then (fill_at uuid b p.signal p.limit_price candle.open_time p.scale).0
        else b),
  )
