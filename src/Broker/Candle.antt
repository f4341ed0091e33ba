-- ===== src/Broker/Candle.antt =====
-- `processCandle` and `closeAllForSymbol` of `SimulatedBroker`: how positions
-- are managed and closed.
pub mod Ledger
pub mod Books
pub mod Exits
use shamarx_app.Prelude.{
  ℕ, Bool, true, false, not, ◌&&◌, Option, none, some, List, [], ◌∷◌, ◌++◌, map, String, ◌==◌,
  if◌then◌else◌, items, set_items, delete_items, ◌>>=◌,
}
use shamarx_app.Double.{Double, ◌⊴◌}
use shamarx_app.Engine.{Side, buy, sell, BacktestCandle}
use shamarx_app.Engine.Instrument.{get_spread}
use shamarx_app.Position.Manage.{update_position_management}
use shamarx_app.Broker.{
  SimulatedBroker, BrokerPosition, ClosedPosition, BrokerExit, stopped, targeted, forced, close,
}
use shamarx_app.Broker.Orders.{process_pending_limits}

-- What the loop over the managed positions carries.
pub record Scan (W : Type 0) : Type 0 where
  pub broker : SimulatedBroker W
  pub still_open : List (BrokerPosition W)
  pub just_closed : List (ClosedPosition W)

-- `positions.set`, or `delete` where no position is left.
abbrev pub store_items {ℓ} :
    {A : Type ℓ} → String → List A → List (String × List A) → List (String × List A)
store_items symbol [] m = delete_items symbol m
store_items symbol (x ∷ xs) m = set_items symbol (x ∷ xs) m

module _ {W : Type 0} ⦃d : Double W⦄ where
  -- A position that was filled on this bar is not managed on it.
  unfoldable pub manage_on : BacktestCandle W → W → BrokerPosition W → BrokerPosition W
  manage_on candle spread p =
      if p.entry_time == candle.open_time
      then p
      else record p { base = update_position_management p.base candle spread }

  unfoldable pub stop_hit : BrokerPosition W → BacktestCandle W → Bool
  stop_hit p candle = elim p.side [
    | buy ↦ candle.low ⊴ p.sl_price
    | sell ↦ p.sl_price ⊴ candle.high
  ]

  abbrev reaches : Side → BacktestCandle W → W → Bool
  reaches buy candle target = target ⊴ candle.high
  reaches sell candle target = candle.low ⊴ target

  -- The level and the reason of the exit on this bar, if there is one: the stop first.
  unfoldable pub exit_of : BrokerPosition W → BacktestCandle W → Option (W × BrokerExit)
  unfolding stop_hit
  exit_of p candle =
      let target_exit : Option (W × BrokerExit) = elim p.tp_price [
        | none ↦ none
        | some target ↦
            if not (p.entry_time == candle.open_time) && reaches p.side candle target
            then some (target, targeted)
            else none
      ] in
      if stop_hit p candle then some (p.sl_price, stopped) else target_exit

  unfoldable pub scan :
      SimulatedBroker W → BacktestCandle W → List (BrokerPosition W) → Option (Scan W)
  scan b candle [] = some (record { broker = b; still_open = []; just_closed = [] })
  scan b candle (p ∷ rest) = elim (exit_of p candle) [
    | none ↦ do s ← scan b candle rest; some (record s { still_open = p ∷ s.still_open })
    | some (price, reason) ↦ do
      r ← close b p price candle.open_time reason
      s ← scan r.0 candle rest
      some (record s { just_closed = r.1 ∷ s.just_closed })
  ]

  unfoldable pub store_open : String → Scan W → SimulatedBroker W × List (ClosedPosition W)
  store_open symbol s = (
    record (s.broker) { positions = store_items symbol s.still_open s.broker.positions },
    s.just_closed,
  )

  -- The positions of the symbol, after the parked limits.
  unfoldable pub process_open :
      SimulatedBroker W
      → String
      → BacktestCandle W
      → List (BrokerPosition W)
      → Option (SimulatedBroker W × List (ClosedPosition W))
  process_open b symbol candle [] = some (b, [])
  process_open b symbol candle (p ∷ rest) = do
    spread ← get_spread symbol candle.open_time
    s ← scan b candle (map (manage_on candle spread) (p ∷ rest))
    some (store_open symbol s)

  unfoldable pub process_candle :
      (ℕ → String)
      → SimulatedBroker W
      → String
      → BacktestCandle W
      → Option (SimulatedBroker W × List (ClosedPosition W))
  process_candle uuid b symbol candle =
      let filled = process_pending_limits uuid b symbol candle in
      process_open filled symbol candle (items symbol filled.positions)

  -- The loop of `closeAllForSymbol`.
  unfoldable pub close_each :
      SimulatedBroker W
      → W
      → ℕ
      → List (BrokerPosition W)
      → Option (SimulatedBroker W × List (ClosedPosition W))
  close_each b close_price close_time [] = some (b, [])
  close_each b close_price close_time (p ∷ rest) = do
    r ← close b p close_price close_time forced
    s ← close_each r.0 close_price close_time rest
    some (s.0, r.1 ∷ s.1)

  unfoldable pub close_all_for_symbol :
      SimulatedBroker W → String → W → ℕ → Option (SimulatedBroker W × List (ClosedPosition W))
  close_all_for_symbol b symbol close_price close_time = do
    s ← close_each b close_price close_time (items symbol b.positions)
    some (record (s.0) { positions = delete_items symbol s.0.positions }, s.1)
