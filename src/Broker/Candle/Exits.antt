-- ===== src/Broker/Candle/Exits.antt =====
-- Which positions the broker closes on a bar, and where.
use shamarx_app.Prelude.{
  ℕ, Bool, ◌≡◌, ◌≢◌, ◌⊎◌, ◌∙◌, ap, subst, true, false, none, some, List, [], ◌∷◌, arith, All,
  Bool-cases, Option-cases, inl, inr,
}
use shamarx_app.Double.{Double, ◌⊴◌}
use shamarx_app.Engine.{Side, buy, sell, BacktestCandle}
use shamarx_app.Broker.{
  SimulatedBroker, BrokerPosition, ClosedPosition, BrokerExit, stopped, targeted, close, calc_pnl,
}
use shamarx_app.Broker.Candle.{Scan, scan, exit_of, stop_hit}

module _ {W : Type 0} ⦃d : Double W⦄ where
  -- The low of the bar, for a buy, or its high, for a sell, is at the stop or beyond it.
  abbrev pub is_stopped : BacktestCandle W → BrokerPosition W → Bool
  is_stopped candle p = elim p.side [
    | buy ↦ candle.low ⊴ p.sl_price
    | sell ↦ p.sl_price ⊴ candle.high
  ]

  -- The high of the bar, for a buy, or its low, for a sell, is at the price or beyond it.
  abbrev pub is_reached : BacktestCandle W → Side → W → Bool
  is_reached candle buy price = price ⊴ candle.high
  is_reached candle sell price = candle.low ⊴ price

  -- The exit `c` is by the stop, at the stop that the bar reaches, or at the target, which the bar
  -- reaches, of a position whose stop it does not reach and which was not filled on it.
  pub data IsFairExit (candle : BacktestCandle W) (c : ClosedPosition W) : Type 0 where
    by_stop :
        c.exit_reason ≡ stopped
        → is_stopped candle c.position ≡ true
        → c.close_price ≡ c.position.sl_price
        → IsFairExit candle c
    by_target :
        c.exit_reason ≡ targeted
        → is_stopped candle c.position ≡ false
        → c.position.tp_price ≡ some c.close_price
        → is_reached candle c.position.side c.close_price ≡ true
        → c.position.entry_time ≢ candle.open_time
        → IsFairExit candle c

  -- The bar does not reach the stop of the position, nor its target where it was filled earlier.
  pub record IsFairlyOpen (candle : BacktestCandle W) (p : BrokerPosition W) : Type 0 where
    pub unstopped : is_stopped candle p ≡ false
    pub unreached :
        (target : W)
        → p.tp_price ≡ some target
        → p.entry_time ≢ candle.open_time
        → is_reached candle p.side target ≡ false

  exit_of-none :
      (p : BrokerPosition W) (candle : BacktestCandle W)
      → exit_of p candle ≡ none
      → IsFairlyOpen candle p
  unfolding exit_of stop_hit
  exit_of-none p candle h = record {
    unstopped = ground arith;
    unreached = λ target at later. ground arith;
  }

  exit_of_lem :
      (p : BrokerPosition W) (candle : BacktestCandle W) (price : W) (reason : BrokerExit)
      → exit_of p candle ≡ some (price, reason)
      → ((reason ≡ stopped) × (is_stopped candle p ≡ true) × (price ≡ p.sl_price))
        ⊎ ((reason ≡ targeted)
            × (is_stopped candle p ≡ false)
            × (p.tp_price ≡ some price)
            × (is_reached candle p.side price ≡ true)
            × (p.entry_time ≢ candle.open_time))
  unfolding exit_of stop_hit
  exit_of_lem p candle price reason h = elim (Bool-cases (is_stopped candle p)) [
    | inl hit ↦ inl (ground arith)
    | inr miss ↦ inr (ground arith)
  ]

  close_parts :
      (b : SimulatedBroker W) (p : BrokerPosition W) (price : W) (time : ℕ) (reason : BrokerExit)
      (r : SimulatedBroker W × ClosedPosition W)
      → close b p price time reason ≡ some r
      → (r.1.position ≡ p)
        × (r.1.close_price ≡ price)
        × (r.1.closed_at ≡ time)
        × (r.1.exit_reason ≡ reason)
  unfolding close
  close_parts b p price time reason r h = elim (Option-cases (calc_pnl p price)) [
    | inl missing ↦ absurd (ground arith)
    | inr (pnl, found) ↦ ground arith
  ]

  closed-IsFairExit :
      (b : SimulatedBroker W) (p : BrokerPosition W) (candle : BacktestCandle W) (price : W)
      (reason : BrokerExit) (r : SimulatedBroker W × ClosedPosition W)
      → exit_of p candle ≡ some (price, reason)
      → close b p price candle.open_time reason ≡ some r
      → IsFairExit candle r.1
  closed-IsFairExit b p candle price reason r h k =
      let (pos, at, _, why) = close_parts b p price candle.open_time reason r k in
      let hits = ap (is_stopped candle) pos in
      elim (exit_of_lem p candle price reason h) [
        | inl (by, hit, level) ↦ by_stop (why ∙ by) (hits ∙ hit) (ground arith)
        | inr (by, miss, target, there, later) ↦
            by_target (why ∙ by) (hits ∙ miss) (ground arith) (ground arith) (ground arith)
      ]

  -- What a bar closes and what it leaves open are as they should be.
  abbrev pub IsFairScan : BacktestCandle W → Scan W → Type 0
  IsFairScan candle s =
      All (IsFairExit candle) s.just_closed × All (IsFairlyOpen candle) s.still_open

  -- Every position that a bar closes is closed fairly: at its stop if the low (for a sell, the high)
  -- of the bar reaches the stop, and otherwise at its target, which the high (the low) reaches, and
  -- then not on the bar on which it was filled. A position that stays open is not reached by the bar
  -- at its stop, nor at its target if it was filled on another bar.
  pub scan-IsFairExit :
      (candle : BacktestCandle W) (ps : List (BrokerPosition W)) (b : SimulatedBroker W)
      (s : Scan W)
      → scan b candle ps ≡ some s
      → IsFairScan candle s
  unfolding scan
  scan-IsFairExit candle [] b s h =
      let same : record { broker = b; still_open = []; just_closed = [] } ≡ s = ground arith in
      subst (IsFairScan candle) same (tt, tt)
  scan-IsFairExit candle (p ∷ rest) b s h = elim (Option-cases (exit_of p candle)) [
    | inl stays ↦ elim (Option-cases (scan b candle rest)) [
      | inl missing ↦ absurd (ground arith)
      | inr (t, found) ↦
          let same : record t { still_open = p ∷ t.still_open } ≡ s = ground arith in
          let (closed, opened) = scan-IsFairExit candle rest b t found in
          subst (IsFairScan candle) same (closed, (exit_of-none p candle stays, opened))
    ]
    | inr ((price, reason), leaves) ↦
        elim (Option-cases (close b p price candle.open_time reason)) [
          | inl missing ↦ absurd (ground arith)
          | inr (r, done) ↦ elim (Option-cases (scan r.0 candle rest)) [
            | inl missing ↦ absurd (ground arith)
            | inr (t, found) ↦
                let same : record t { just_closed = r.1 ∷ t.just_closed } ≡ s = ground arith in
                let (closed, opened) = scan-IsFairExit candle rest r.0 t found in
                subst (IsFairScan candle) same
                  ((closed-IsFairExit b p candle price reason r leaves done, closed), opened)
          ]
        ]
  ]
