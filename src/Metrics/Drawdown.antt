-- ===== src/Metrics/Drawdown.antt =====
-- The maximum drawdown against the drawdowns after each trade.
use shamarx_app.Prelude.{
  ◌≡◌, refl, sym, subst, ap, ◌∙◌, ◌⊎◌, inl, inr, true, false, List, [], ◌∷◌, ◌++◌, foldl, arith,
  Bool-cases,
}
use shamarx_app.Double.{Double, IsIeee, ◌⊖◌, ◌⊲◌, num}
use shamarx_app.Engine.{ClosedTrade}
use shamarx_app.Metrics.{DrawdownState, draw_down, no_drawdown, drawdown_of}
use shamarx_app.Metrics.Peak.{IsDrawdown, drawdown_of-IsDrawdown}

module _ {W : Type 0} ⦃d : Double W⦄ (ieee : IsIeee W) where
  -- How far the balance is below its peak.
  abbrev pub gap_of : DrawdownState W → W
  gap_of s = s.peak ⊖ s.running_balance

  -- A trade leaves the maximum or raises it to the new drawdown.
  step :
      (s : DrawdownState W) (t : ClosedTrade W)
      → let q = draw_down s t in
        ((s.max_dd ⊲ gap_of q) ≡ true × (q.max_dd ≡ gap_of q))
        ⊎ ((s.max_dd ⊲ gap_of q) ≡ false × (q.max_dd ≡ s.max_dd))
  unfolding draw_down
  step s t = elim (Bool-cases (s.max_dd ⊲ gap_of (draw_down s t))) [
    | inl up ↦ inl (up, rw up refl)
    | inr same ↦ inr (same, rw same refl)
  ]

  -- The maximum stays or rises.
  raised :
      (trades : List (ClosedTrade W)) (s : DrawdownState W)
      → let q = foldl draw_down s trades in (q.max_dd ≡ s.max_dd) ⊎ ((s.max_dd ⊲ q.max_dd) ≡ true)
  raised [] s = inl refl
  raised (t ∷ rest) s =
      let next = draw_down s t in
      let last = foldl draw_down next rest in
      elim (step s t) [
        | inl (up, here) ↦
            let rises : (s.max_dd ⊲ next.max_dd) ≡ true = rw here up in
            elim (raised rest next) [
              | inl stays ↦ inr (rw stays rises)
              | inr later ↦ inr (ieee.lt_trans s.max_dd next.max_dd last.max_dd rises later)
            ]
        | inr (same, here) ↦ elim (raised rest next) [
          | inl stays ↦ inl (stays ∙ here)
          | inr later ↦ inr (subst (λ x. (x ⊲ last.max_dd) ≡ true) here later)
        ]
      ]

  not_below :
      (s : DrawdownState W) (t : ClosedTrade W)
      → ((draw_down s t).max_dd ⊲ gap_of (draw_down s t)) ≡ false
  not_below s t =
      let q = draw_down s t in
      elim (step s t) [
        | inl (up, here) ↦
            subst (λ x. (x ⊲ gap_of q) ≡ false) (sym here) (ieee.lt_irrefl (gap_of q))
        | inr (same, here) ↦ subst (λ x. (x ⊲ gap_of q) ≡ false) (sym here) same
      ]

  bound_from :
      (xs : List (ClosedTrade W)) (t : ClosedTrade W) (ys : List (ClosedTrade W))
      (s : DrawdownState W)
      → ((foldl draw_down s (xs ++ t ∷ ys)).max_dd ⊲ gap_of (foldl draw_down s (xs ++ t ∷ [])))
        ≡ false
  bound_from (x ∷ xs) t ys s = bound_from xs t ys (draw_down s x)
  bound_from [] t ys s =
      let q = draw_down s t in
      let last = foldl draw_down q ys in
      let here = not_below s t in
      elim (raised ys q) [
        | inl stays ↦ rw stays here
        | inr later ↦ elim (Bool-cases (last.max_dd ⊲ gap_of q)) [
          | inl below ↦
              let chained = ieee.lt_trans q.max_dd last.max_dd (gap_of q) later below in
              absurd (ground arith)
          | inr fine ↦ fine
        ]
      ]

  -- The value is the drawdown after one of the trades.
  pub record IsDrawdownOf (s : DrawdownState W) (trades : List (ClosedTrade W)) (x : W)
      : Type 0 where
    pub before : List (ClosedTrade W)
    pub t : ClosedTrade W
    pub after : List (ClosedTrade W)
    pub split : trades ≡ before ++ t ∷ after
    pub value : x ≡ gap_of (foldl draw_down s (before ++ t ∷ []))

  attained_from :
      (trades : List (ClosedTrade W)) (s : DrawdownState W)
      → let q = foldl draw_down s trades in (q.max_dd ≡ s.max_dd) ⊎ IsDrawdownOf s trades q.max_dd
  attained_from [] s = inl refl
  attained_from (t ∷ rest) s =
      let next = draw_down s t in
      elim (attained_from rest next) [
        | inl stays ↦ elim (step s t) [
          | inl (up, here) ↦
              inr record { before = []; t = t; after = rest; split = refl; value = stays ∙ here }
          | inr (same, here) ↦ inl (stays ∙ here)
        ]
        | inr r ↦ inr record {
          before = t ∷ r.before;
          t = r.t;
          after = r.after;
          split = ap (λ l. t ∷ l) r.split;
          value = r.value;
        }
      ]

  -- The maximum is not below the drawdown after any trade, and it is 0 or one of them.
  pub record IsMaximum (initial : W) (trades : List (ClosedTrade W)) : Type 0 where
    pub bound :
        (xs : List (ClosedTrade W)) (t : ClosedTrade W) (ys : List (ClosedTrade W))
        → trades ≡ xs ++ t ∷ ys
        → (x : W) × IsDrawdown initial (xs ++ t ∷ []) x
          × (((drawdown_of initial trades).max_dd ⊲ x) ≡ false)
    pub attained :
        ((drawdown_of initial trades).max_dd ≡ num 0)
        ⊎ ((xs : List (ClosedTrade W)) × ((t : ClosedTrade W) × ((ys : List (ClosedTrade W))
                × (trades ≡ xs ++ t ∷ ys)
                × IsDrawdown initial (xs ++ t ∷ []) (drawdown_of initial trades).max_dd)))

  -- The maximum drawdown of the metrics is not below the drawdown after any of the trades, and it is 0
  -- or the drawdown after one of them. The drawdown after some trades is the peak of the balances from
  -- the first to the last of them, less the last.
  pub drawdown_of-IsMaximum :
      (initial : W) (trades : List (ClosedTrade W)) → IsMaximum initial trades
  unfolding drawdown_of
  drawdown_of-IsMaximum initial trades = record {
    bound = λ xs t ys split. (
      gap_of (drawdown_of initial (xs ++ t ∷ [])),
      drawdown_of-IsDrawdown ieee initial (xs ++ t ∷ []),
      subst
          (λ l.
            ((foldl draw_down (no_drawdown initial) l).max_dd
              ⊲ gap_of (drawdown_of initial (xs ++ t ∷ [])))
            ≡ false)
          (sym split) (bound_from xs t ys (no_drawdown initial)),
    );
    attained = elim (attained_from trades (no_drawdown initial)) [
      | inl zero ↦ inl zero
      | inr r ↦ inr (
        r.before,
        (
          r.t,
          (
            r.after,
            r.split,
            subst (IsDrawdown initial (r.before ++ r.t ∷ [])) (sym r.value)
                (drawdown_of-IsDrawdown ieee initial (r.before ++ r.t ∷ [])),
          ),
        ),
      )
    ];
  }
