-- ===== src/Broker/Candle/Books.antt =====
-- Every operation of the broker keeps its books balanced.
use shamarx_app.Prelude.{
  ℕ, ◌+◌, ◌≡◌, refl, subst, Bool, true, false, Option, some, List, [], ◌∷◌, ◌++◌, map, String,
  arith, if◌then◌else◌, length, length-append, length-map, items, delete_items, count_items,
  count_items-set, count_items-delete, Option-cases, inl, inr,
}
use shamarx_app.Double.{Double, num}
use shamarx_app.Engine.{BacktestCandle, RegimeTradeParams}
use shamarx_app.Engine.Instrument.{get_spread}
use shamarx_app.Broker.{
  SimulatedBroker, SmcLiveSignal, PendingLimit, RetraceEntry, BrokerPosition, ClosedPosition,
  create, total_open_count,
}
use shamarx_app.Broker.Orders.{
  open_legs, fill_at, place_order, fill_or_expire, process_pending_limits, store_limits,
  pending_or_same, touches,
}
use shamarx_app.Broker.Candle.{
  scan, store_open, process_open, process_candle, close_each, close_all_for_symbol, store_items,
  manage_on,
}
use shamarx_app.Broker.Candle.Ledger.{IsBalanced, scan_lem, close_each_lem, closed-IsBalanced}

module _ {W : Type 0} ⦃d : Double W⦄ where
  -- Closing the positions of a symbol at the end keeps the books balanced.
  pub close_all-IsBalanced :
      (initial : W) (b : SimulatedBroker W) (symbol : String) (price : W) (time : ℕ)
      (r : SimulatedBroker W × List (ClosedPosition W))
      → IsBalanced initial b
      → close_all_for_symbol b symbol price time ≡ some r
      → IsBalanced initial r.0
  unfolding close_all_for_symbol
  close_all-IsBalanced initial b symbol price time r v h =
      elim (Option-cases (close_each b price time (items symbol b.positions))) [
        | inl missing ↦ absurd (ground arith)
        | inr (t, found) ↦
            let (c, n) = close_each_lem b price time (items symbol b.positions) t found in
            let same : record (t.0) { positions = delete_items symbol t.0.positions } ≡ r.0 =
              ground arith in
            subst (IsBalanced initial) same (
              closed-IsBalanced initial b t.0 symbol [] t.1 _ v c (omega (arith, n))
                (ground (arith, count_items-delete symbol b.positions, c.positions)))
      ]

  -- A new broker is balanced.
  pub create-IsBalanced :
      (initial : W) (override : RegimeTradeParams W → RegimeTradeParams W)
      (retrace : Option (RetraceEntry W))
      → IsBalanced initial (create initial override retrace)
  unfolding create count_items
  create-IsBalanced initial override retrace = record {
    balance = refl;
    counted = refl;
    concurrent = omega arith;
  }

  store_items-count :
      (symbol : String) (kept : List (BrokerPosition W))
      (m : List (String × List (BrokerPosition W)))
      → count_items (store_items symbol kept m) + length (items symbol m)
        ≡ count_items m + length kept
  store_items-count symbol [] m = omega (arith, count_items-delete symbol m)
  store_items-count symbol (p ∷ ps) m = count_items-set symbol (p ∷ ps) m

  process_open-IsBalanced :
      (initial : W) (b : SimulatedBroker W) (symbol : String) (candle : BacktestCandle W)
      (ps : List (BrokerPosition W)) (r : SimulatedBroker W × List (ClosedPosition W))
      → ps ≡ items symbol b.positions
      → IsBalanced initial b
      → process_open b symbol candle ps ≡ some r
      → IsBalanced initial r.0
  unfolding process_open store_open
  process_open-IsBalanced initial b symbol candle [] r e v h =
      subst (IsBalanced initial) (ground arith) v
  process_open-IsBalanced initial b symbol candle (p ∷ rest) r e v h =
      elim (Option-cases (get_spread {W = W} symbol candle.open_time)) [
        | inl missing ↦ absurd (ground arith)
        | inr (spread, known) ↦
            let managed = map (manage_on candle spread) (p ∷ rest) in
            elim (Option-cases (scan b candle managed)) [
              | inl missing ↦ absurd (ground arith)
              | inr (s, found) ↦
                  let (c, n) = scan_lem b candle managed s found in
                  let same : (store_open symbol s).0 ≡ r.0 = ground arith in
                  subst (IsBalanced initial) same (
                    closed-IsBalanced initial b s.broker symbol s.still_open s.just_closed _ v c
                      (ground (arith, n, length-map (manage_on candle spread) (p ∷ rest)))
                      (rw c.positions (store_items-count symbol s.still_open b.positions)))
            ]
      ]

  module _ (uuid : ℕ → String) where
    fill_at-IsBalanced :
        (initial : W) (b : SimulatedBroker W) (signal : SmcLiveSignal W) (entry : W) (time : ℕ)
        (scale : W)
        → IsBalanced initial b
        → IsBalanced initial (fill_at uuid b signal entry time scale).0
    unfolding fill_at total_open_count
    fill_at-IsBalanced initial b signal entry time scale v =
        let opened = open_legs uuid b signal entry time scale b.issued signal.legs in
        record {
          balance = v.balance;
          counted = omega (
            arith,
            v.counted,
            count_items-set signal.symbol (items signal.symbol b.positions ++ opened) b.positions,
            length-append (items signal.symbol b.positions) opened,
          );
          concurrent = omega arith;
        }

    either :
        (initial : W) (test : Bool) {x y : SimulatedBroker W}
        → IsBalanced initial x
        → IsBalanced initial y
        → IsBalanced initial (if test then x else y)
    either initial true p q = p
    either initial false p q = q

    fill_or_expire-IsBalanced :
        (initial : W) (candle : BacktestCandle W) (ps : List (PendingLimit W))
        (b : SimulatedBroker W)
        → IsBalanced initial b
        → IsBalanced initial (fill_or_expire uuid b candle ps).0
    unfolding fill_or_expire
    fill_or_expire-IsBalanced initial candle [] b v = v
    fill_or_expire-IsBalanced initial candle (p ∷ rest) b v =
        fill_or_expire-IsBalanced initial candle rest _ (
          either initial (touches p candle)
            (fill_at-IsBalanced initial b p.signal p.limit_price candle.open_time p.scale v) v)

    store_limits-IsBalanced :
        (initial : W) (symbol : String) (b : SimulatedBroker W) (ps : List (PendingLimit W))
        → IsBalanced initial b
        → IsBalanced initial (store_limits symbol (b, ps))
    unfolding store_limits
    store_limits-IsBalanced initial symbol b [] v = ground arith
    store_limits-IsBalanced initial symbol b (p ∷ ps) v = ground arith

    pending-IsBalanced :
        (initial : W) (b : SimulatedBroker W) (symbol : String) (candle : BacktestCandle W)
        (ps : List (PendingLimit W))
        → IsBalanced initial b
        → IsBalanced initial (pending_or_same uuid b symbol candle ps)
    unfolding pending_or_same
    pending-IsBalanced initial b symbol candle [] v = v
    pending-IsBalanced initial b symbol candle (p ∷ ps) v =
        store_limits-IsBalanced initial symbol _ _
          (fill_or_expire-IsBalanced initial candle (p ∷ ps) b v)

    process_pending-IsBalanced :
        (initial : W) (b : SimulatedBroker W) (symbol : String) (candle : BacktestCandle W)
        → IsBalanced initial b
        → IsBalanced initial (process_pending_limits uuid b symbol candle)
    unfolding process_pending_limits
    process_pending-IsBalanced initial b symbol candle v =
        pending-IsBalanced initial b symbol candle (items symbol b.pending_limits) v

    -- Placing an order keeps the books balanced, be it filled or parked.
    pub place_order-IsBalanced :
        (initial : W) (b : SimulatedBroker W) (signal : SmcLiveSignal W) (time : ℕ)
        → IsBalanced initial b
        → IsBalanced initial (place_order uuid b signal time).0
    unfolding place_order
    place_order-IsBalanced initial b signal time v =
        ground (arith, fill_at-IsBalanced initial b signal signal.entry_price time (num 1) v)

    -- A candle keeps the books balanced, whatever it fills, manages and closes.
    pub process_candle-IsBalanced :
        (initial : W) (b : SimulatedBroker W) (symbol : String) (candle : BacktestCandle W)
        (r : SimulatedBroker W × List (ClosedPosition W))
        → IsBalanced initial b
        → process_candle uuid b symbol candle ≡ some r
        → IsBalanced initial r.0
    unfolding process_candle
    process_candle-IsBalanced initial b symbol candle r v h =
        let filled = process_pending_limits uuid b symbol candle in
        process_open-IsBalanced initial filled symbol candle (items symbol filled.positions) r refl
          (process_pending-IsBalanced initial b symbol candle v) h
