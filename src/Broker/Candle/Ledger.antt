-- ===== src/Broker/Candle/Ledger.antt =====
-- The books of the broker: the balance is the initial balance with the results of the closed
-- positions, and every position that was opened is open or closed.
use shamarx_app.Prelude.{
  ℕ, ◌+◌, ◌≤◌, ◌≡◌, refl, sym, ap, ◌∙◌, some, List, [], ◌∷◌, ◌++◌, foldl, String, arith, length,
  length-append, items, count_items, Option-cases, inl, inr,
}
use mathlib.Core.List.{append_assoc, append-nil}
use shamarx_app.Double.{Double, ◌⊕◌}
use shamarx_app.Engine.{BacktestCandle}
use shamarx_app.Broker.{
  SimulatedBroker, BrokerPosition, ClosedPosition, BrokerExit, forced, close, calc_pnl,
}
use shamarx_app.Broker.Candle.{Scan, scan, exit_of, close_each}

module _ {W : Type 0} ⦃d : Double W⦄ where
  -- The balance after the results of some closed positions, in their order.
  abbrev pub settle_all : W → List (ClosedPosition W) → W
  settle_all = foldl λ balance (c : ClosedPosition W). balance ⊕ c.pnl

  settle_all-append :
      (w : W) (xs ys : List (ClosedPosition W))
      → settle_all w (xs ++ ys) ≡ settle_all (settle_all w xs) ys
  settle_all-append w [] ys = refl
  settle_all-append w (x ∷ xs) ys = settle_all-append (w ⊕ x.pnl) xs ys

  pub record IsBalanced (initial : W) (b : SimulatedBroker W) : Type 0 where
    pub balance : b.balance ≡ settle_all initial b.closed
    pub counted : b.issued ≡ count_items b.positions + length b.closed
    pub concurrent : count_items b.positions ≤ b.max_concurrent

  -- `b'` is `b` after it has closed `n` of its positions, `cs`, and before it forgets them.
  pub record HasClosed (b : SimulatedBroker W) (cs : List (ClosedPosition W))
      (b' : SimulatedBroker W) : Type 0 where
    pub closed : b'.closed ≡ b.closed ++ cs
    pub balance : b'.balance ≡ settle_all b.balance cs
    pub positions : b'.positions ≡ b.positions
    pub max_concurrent : b'.max_concurrent ≡ b.max_concurrent
    pub issued : b'.issued ≡ b.issued

  close-HasClosed :
      (b : SimulatedBroker W) (p : BrokerPosition W) (price : W) (time : ℕ) (reason : BrokerExit)
      (r : SimulatedBroker W × ClosedPosition W)
      → close b p price time reason ≡ some r
      → HasClosed b (r.1 ∷ []) r.0
  unfolding close
  close-HasClosed b p price time reason r h = elim (Option-cases (calc_pnl p price)) [
    | inl missing ↦ absurd (ground arith)
    | inr (pnl, found) ↦ ground arith
  ]

  HasClosed-cons :
      (b b' b'' : SimulatedBroker W) (c : ClosedPosition W) (cs : List (ClosedPosition W))
      → HasClosed b (c ∷ []) b'
      → HasClosed b' cs b''
      → HasClosed b (c ∷ cs) b''
  HasClosed-cons b b' b'' c cs x y = ground (arith, append_assoc b.closed (c ∷ []) cs)

  pub scan_lem :
      (b : SimulatedBroker W) (candle : BacktestCandle W) (ps : List (BrokerPosition W))
      (s : Scan W)
      → scan b candle ps ≡ some s
      → HasClosed b s.just_closed s.broker
        × (length s.still_open + length s.just_closed ≡ length ps)
  unfolding scan
  scan_lem b candle [] s h = ground (arith, append-nil b.closed)
  scan_lem b candle (p ∷ rest) s h = elim (Option-cases (exit_of p candle)) [
    | inl stays ↦ elim (Option-cases (scan b candle rest)) [
      | inl missing ↦ absurd (ground arith)
      | inr (t, found) ↦ let ih = scan_lem b candle rest t found in ground arith
    ]
    | inr ((price, reason), leaves) ↦
        elim (Option-cases (close b p price candle.open_time reason)) [
          | inl missing ↦ absurd (ground arith)
          | inr (r, done) ↦ elim (Option-cases (scan r.0 candle rest)) [
            | inl missing ↦ absurd (ground arith)
            | inr (t, found) ↦
                let ih = scan_lem r.0 candle rest t found in
                let both =
                  HasClosed-cons b r.0 t.broker r.1 t.just_closed
                    (close-HasClosed b p price candle.open_time reason r done) ih.0 in
                ground arith
          ]
        ]
  ]

  pub close_each_lem :
      (b : SimulatedBroker W) (price : W) (time : ℕ) (ps : List (BrokerPosition W))
      (s : SimulatedBroker W × List (ClosedPosition W))
      → close_each b price time ps ≡ some s
      → HasClosed b s.1 s.0 × (length s.1 ≡ length ps)
  unfolding close_each
  close_each_lem b price time [] s h = ground (arith, append-nil b.closed)
  close_each_lem b price time (p ∷ rest) s h = elim (Option-cases (close b p price time forced)) [
    | inl missing ↦ absurd (ground arith)
    | inr (r, done) ↦ elim (Option-cases (close_each r.0 price time rest)) [
      | inl missing ↦ absurd (ground arith)
      | inr (t, found) ↦
          let ih = close_each_lem r.0 price time rest t found in
          let both =
            HasClosed-cons b r.0 t.0 r.1 t.1 (close-HasClosed b p price time forced r done) ih.0 in
          ground arith
    ]
  ]

  -- Closing some of the positions of a symbol and keeping the others balances the books.
  pub closed-IsBalanced :
      (initial : W) (b b' : SimulatedBroker W) (symbol : String) (kept : List (BrokerPosition W))
      (cs : List (ClosedPosition W)) (positions : List (String × List (BrokerPosition W)))
      → IsBalanced initial b
      → HasClosed b cs b'
      → length kept + length cs ≡ length (items symbol b.positions)
      → count_items positions + length (items symbol b.positions)
        ≡ count_items b.positions + length kept
      → IsBalanced initial (record b' { positions = positions })
  closed-IsBalanced initial b b' symbol kept cs positions v c n k = record {
    balance =
        c.balance
        ∙ ap (λ w. settle_all w cs) v.balance
        ∙ sym (settle_all-append initial b.closed cs)
        ∙ ap (settle_all initial) (sym c.closed);
    counted = rw c.closed (omega (arith, c.issued, v.counted, length-append b.closed cs));
    concurrent = omega (arith, c.max_concurrent, v.concurrent);
  }
