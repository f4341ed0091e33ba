-- ===== src/Performance.antt =====
-- The rolling statistics of src/backtest/engine/performance-tracker.ts: a window of trades, what is
-- computed from it, and the confidence that follows.
pub mod Window
use shamarx_app.Prelude.{
  ℕ, zero, suc, Bool, not, List, [], ◌∷◌, ◌++◌, foldl, filter, length, drop, ltb, if◌then◌else◌,
}
use shamarx_app.Double.{Double, ◌⊕◌, ◌⊖◌, ◌⊗◌, ◌⊘◌, ◌⊲◌, num, dec}

-- The columns of a tracked trade that the statistics read.
pub record TrackedTrade (W : Type 0) : Type 0 where
  pub r_multiple : W
  pub won : Bool
  pub pnl : W

pub record EngineStats (W : Type 0) : Type 0 where
  pub win_rate : W
  pub avg_r : W
  pub expectancy : W
  pub hot_streak : ℕ
  pub profit_factor : W
  pub trade_count : ℕ

-- `push`, then `shift` if the window is longer than its size.
pub push_window {ℓ} : {A : Type ℓ} → ℕ → A → List A → List A
push_window size trade window =
    let grown = window ++ trade ∷ [] in if ltb size (length grown) then drop 1 grown else grown

module _ {W : Type 0} ⦃d : Double W⦄ where
  abbrev sum_r : List (TrackedTrade W) → W
  sum_r = foldl (λ s (t : TrackedTrade W). s ⊕ t.r_multiple) (num 0)

  abbrev sum_pnl : List (TrackedTrade W) → W
  sum_pnl = foldl (λ s (t : TrackedTrade W). s ⊕ t.pnl) (num 0)

  -- The loop from the end of the window as a fold from its start: a loss starts the count again.
  pub hot_streak_of : ℕ → List (TrackedTrade W) → ℕ
  hot_streak_of n [] = n
  hot_streak_of n (t ∷ rest) = hot_streak_of (if t.won then suc n else 0) rest

  abbrev average : W → ℕ → W
  average total zero = num 0
  average total (suc n) = total ⊘ num (suc n)

  pub compute_stats : List (TrackedTrade W) → EngineStats W
  compute_stats [] = record {
    win_rate = num 0;
    avg_r = num 0;
    expectancy = num 0;
    hot_streak = 0;
    profit_factor = num 0;
    trade_count = 0;
  }
  compute_stats (t ∷ rest) =
      let trades = t ∷ rest in
      let count : W = num (length trades) in
      let wins = filter (λ (t : TrackedTrade W). t.won) trades in
      let losses = filter (λ (t : TrackedTrade W). not t.won) trades in
      let gross_win = sum_pnl wins in
      let gross_loss = d.abs (sum_pnl losses) in
      let avg_win_r = average (sum_r wins) (length wins) in
      let avg_loss_r =
        if ltb 0 (length losses) then d.abs (average (sum_r losses) (length losses)) else num 0 in
      record {
        win_rate = num (length wins) ⊘ count ⊗ num 100;
        avg_r = sum_r trades ⊘ count;
        expectancy = (avg_win_r ⊗ num (length wins) ⊖ avg_loss_r ⊗ num (length losses)) ⊘ count;
        hot_streak = hot_streak_of 0 trades;
        profit_factor =
            if num 0 ⊲ gross_loss
            then gross_win ⊘ gross_loss
            else if num 0 ⊲ gross_win
            then num 999
            else num 0;
        trade_count = length trades;
      }

  -- The score of `getEngineConfidence` and `getGlobalConfidence`; 50 below ten trades.
  pub confidence_of : EngineStats W → W
  confidence_of stats =
      if ltb stats.trade_count 10
      then num 50
      else (let wr_score = d.minimum (num 50) (stats.win_rate ⊗ dec 5 1) in
          let exp_score = d.minimum (num 30) (d.maximum (num 0) (stats.expectancy ⊗ num 30)) in
          let streak_score = d.minimum (num 20) (num stats.hot_streak ⊗ num 4) in
          d.round (d.minimum (num 100) (d.maximum (num 0) (wr_score ⊕ exp_score ⊕ streak_score))))
