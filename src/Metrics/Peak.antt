-- ===== src/Metrics/Peak.antt =====
-- The balance after each trade and its peak, apart from the loop of the metrics that tracks them.
use shamarx_app.Prelude.{
  ◌≡◌, refl, sym, subst, ap, ◌∙◌, ◌⊎◌, inl, inr, true, false, List, [], ◌∷◌, ◌++◌, foldl, arith,
  Bool-cases,
}
use shamarx_app.Double.{Double, IsIeee, ◌⊕◌, ◌⊖◌, ◌⊲◌}
use shamarx_app.Engine.{ClosedTrade}
use shamarx_app.Metrics.{DrawdownState, draw_down, no_drawdown, drawdown_of}

module _ {W : Type 0} ⦃d : Double W⦄ where
  -- The balance after the trades.
  abbrev pub balance_after : W → List (ClosedTrade W) → W
  balance_after initial = foldl (λ (b : W) (t : ClosedTrade W). b ⊕ t.pnl) initial

  -- One of the balances on the way, the first and the last included, and not below any of them.
  pub record IsPeak (initial : W) (trades : List (ClosedTrade W)) (p : W) : Type 0 where
    pub above :
        (xs ys : List (ClosedTrade W)) → trades ≡ xs ++ ys → (p ⊲ balance_after initial xs) ≡ false
    pub reached :
        (xs : List (ClosedTrade W)) × ((ys : List (ClosedTrade W)) × (trades ≡ xs ++ ys)
          × (p ≡ balance_after initial xs))

  -- The drawdown after the trades: how far the balance is below its peak.
  pub record IsDrawdown (initial : W) (trades : List (ClosedTrade W)) (x : W) : Type 0 where
    pub peak : W
    pub is_peak : IsPeak initial trades peak
    pub value : x ≡ peak ⊖ balance_after initial trades

  running_balance_lem :
      (trades : List (ClosedTrade W)) (s : DrawdownState W)
      → (foldl draw_down s trades).running_balance ≡ balance_after s.running_balance trades
  unfolding draw_down
  running_balance_lem [] s = refl
  running_balance_lem (t ∷ rest) s = running_balance_lem rest (draw_down s t)

  -- A trade that makes a new peak ends at it; any other keeps the peak.
  step_peak :
      (s : DrawdownState W) (t : ClosedTrade W)
      → let q = draw_down s t in
        ((s.peak ⊲ q.running_balance) ≡ true × (q.peak ≡ q.running_balance))
        ⊎ ((s.peak ⊲ q.running_balance) ≡ false × (q.peak ≡ s.peak))
  unfolding draw_down
  step_peak s t = elim (Bool-cases (s.peak ⊲ (draw_down s t).running_balance)) [
    | inl up ↦ inl (up, ground (arith, up))
    | inr same ↦ inr (same, ground (arith, same))
  ]

  reached_from :
      (trades : List (ClosedTrade W)) (s : DrawdownState W)
      → let q = foldl draw_down s trades in
        (q.peak ≡ s.peak)
        ⊎ ((xs : List (ClosedTrade W)) × ((ys : List (ClosedTrade W)) × (trades ≡ xs ++ ys)
              × (q.peak ≡ balance_after s.running_balance xs)))
  unfolding draw_down
  reached_from [] s = inl refl
  reached_from (t ∷ rest) s =
      let next = draw_down s t in
      elim (reached_from rest next) [
        | inl stays ↦ elim (step_peak s t) [
          | inl (up, here) ↦ inr (t ∷ [], (rest, refl, stays ∙ here))
          | inr (low, same) ↦ inl (stays ∙ same)
        ]
        | inr (xs, (ys, split, value)) ↦ inr (t ∷ xs, (ys, ap (λ l. t ∷ l) split, value))
      ]

  module _ (ieee : IsIeee W) where
    raised :
        (trades : List (ClosedTrade W)) (s : DrawdownState W)
        → let q = foldl draw_down s trades in (q.peak ≡ s.peak) ⊎ ((s.peak ⊲ q.peak) ≡ true)
    raised [] s = inl refl
    raised (t ∷ rest) s =
        let next = draw_down s t in
        let last = foldl draw_down next rest in
        elim (step_peak s t) [
          | inl (up, here) ↦
              let rises : (s.peak ⊲ next.peak) ≡ true = rw here up in
              elim (raised rest next) [
                | inl stays ↦ inr (rw stays rises)
                | inr later ↦ inr (ieee.lt_trans s.peak next.peak last.peak rises later)
              ]
          | inr (low, same) ↦ elim (raised rest next) [
            | inl stays ↦ inl (stays ∙ same)
            | inr later ↦ inr (subst (λ x. (x ⊲ last.peak) ≡ true) same later)
          ]
        ]

    not_below :
        (s : DrawdownState W) (t : ClosedTrade W)
        → ((draw_down s t).peak ⊲ (draw_down s t).running_balance) ≡ false
    not_below s t =
        let q = draw_down s t in
        elim (step_peak s t) [
          | inl (up, here) ↦
              subst (λ x. (x ⊲ q.running_balance) ≡ false) (sym here)
                (ieee.lt_irrefl q.running_balance)
          | inr (low, same) ↦ subst (λ x. (x ⊲ q.running_balance) ≡ false) (sym same) low
        ]

    above_from :
        (xs ys : List (ClosedTrade W)) (s : DrawdownState W)
        → (s.peak ⊲ s.running_balance) ≡ false
        → ((foldl draw_down s (xs ++ ys)).peak ⊲ balance_after s.running_balance xs) ≡ false
    unfolding draw_down
    above_from (t ∷ xs) ys s h = above_from xs ys (draw_down s t) (not_below s t)
    above_from [] ys s h =
        let last = foldl draw_down s ys in
        elim (raised ys s) [
          | inl stays ↦ rw stays h
          | inr later ↦ elim (Bool-cases (last.peak ⊲ s.running_balance)) [
            | inl below ↦
                let chained = ieee.lt_trans s.peak last.peak s.running_balance later below in
                absurd (ground arith)
            | inr fine ↦ fine
          ]
        ]

    -- The loop's peak less its balance is the drawdown after the trades.
    pub drawdown_of-IsDrawdown :
        (initial : W) (trades : List (ClosedTrade W))
        → let s = drawdown_of initial trades in
          IsDrawdown initial trades (s.peak ⊖ s.running_balance)
    unfolding drawdown_of
    drawdown_of-IsDrawdown initial trades =
        let start = no_drawdown initial in
        let s = foldl draw_down start trades in
        record {
          peak = s.peak;
          is_peak = record {
            above = λ xs ys split.
                subst (λ l. ((foldl draw_down start l).peak ⊲ balance_after initial xs) ≡ false)
                  (sym split) (above_from xs ys start (ieee.lt_irrefl initial));
            reached = elim (reached_from trades start) [
              | inl stays ↦ ([], (trades, refl, stays))
              | inr r ↦ r
            ];
          };
          value = ap (λ b. s.peak ⊖ b) (running_balance_lem trades start);
        }
