-- ===== src/Metrics.antt =====
-- src/backtest/engine/metrics-calculator.ts: the figures of a backtest. `Math.sqrt` and the square by
-- `Math.pow` are parameters.
pub mod Peak
pub mod Drawdown
use shamarx_app.Prelude.{
  ℕ, suc, ◌+◌, Bool, true, false, not, ◌&&◌, List, [], ◌∷◌, foldl, map, filter, length, ltb,
  if◌then◌else◌,
}
use shamarx_app.Double.{Double, ◌⊕◌, ◌⊖◌, ◌⊗◌, ◌⊘◌, ◌⊲◌, ◌⊴◌, num, cents, truthy}
use shamarx_app.Engine.{ClosedTrade, ExitReason, breakeven}

pub record BacktestMetrics (W : Type 0) : Type 0 where
  pub total_trades : ℕ
  pub win_count : ℕ
  pub loss_count : ℕ
  pub breakeven_count : ℕ
  pub win_rate : W
  pub total_pnl : W
  pub profit_factor : W
  pub max_drawdown : W
  pub max_drawdown_percent : W
  pub sharpe_ratio : W
  pub avg_win : W
  pub avg_loss : W
  pub avg_rr : W
  pub largest_win : W
  pub largest_loss : W
  pub max_consecutive_wins : ℕ
  pub max_consecutive_losses : ℕ
  pub total_commission : W
  pub final_balance : W
  pub return_percent : W

-- The variables of the loop over the running balance.
pub record DrawdownState (W : Type 0) : Type 0 where
  pub peak : W
  pub max_dd : W
  pub max_dd_percent : W
  pub running_balance : W

-- The variables of the loop over wins and losses in a row.
pub record Streaks : Type 0 where
  pub max_wins : ℕ
  pub max_losses : ℕ
  pub wins : ℕ
  pub losses : ℕ

abbrev is_breakeven : ExitReason → Bool
is_breakeven breakeven = true
is_breakeven _ = false

module _ {W : Type 0} ⦃d : Double W⦄ where
  -- The body of the first loop.
  unfoldable pub draw_down : DrawdownState W → ClosedTrade W → DrawdownState W
  draw_down s trade =
      let running_balance = s.running_balance ⊕ trade.pnl in
      let peak = if s.peak ⊲ running_balance then running_balance else s.peak in
      let dd = peak ⊖ running_balance in
      record {
        peak = peak;
        max_dd = if s.max_dd ⊲ dd then dd else s.max_dd;
        max_dd_percent = if s.max_dd ⊲ dd then dd ⊘ peak ⊗ num 100 else s.max_dd_percent;
        running_balance = running_balance;
      }

  abbrev pub no_drawdown : W → DrawdownState W
  no_drawdown initial_balance = record {
    peak = initial_balance;
    max_dd = num 0;
    max_dd_percent = num 0;
    running_balance = initial_balance;
  }

  unfoldable pub drawdown_of : W → List (ClosedTrade W) → DrawdownState W
  drawdown_of initial_balance = foldl draw_down (no_drawdown initial_balance)

  -- The body of the second loop.
  count_streaks : Streaks → ClosedTrade W → Streaks
  count_streaks s trade =
      let wins = suc s.wins in
      let losses = suc s.losses in
      if is_breakeven trade.exit_reason
      then s
      else if num 0 ⊲ trade.pnl
      then record s {
        wins = wins;
        losses = 0;
        max_wins = if ltb s.max_wins wins then wins else s.max_wins;
      }
      else record s {
        losses = losses;
        wins = 0;
        max_losses = if ltb s.max_losses losses then losses else s.max_losses;
      }

  streaks_of : List (ClosedTrade W) → Streaks
  unfolding count_streaks
  streaks_of = foldl count_streaks record { max_wins = 0; max_losses = 0; wins = 0; losses = 0 }

  abbrev sum_of : List W → W
  sum_of = foldl d.add (num 0)

  -- `Math.max(...xs)` and `Math.min(...xs)`.
  abbrev greatest : List W → W
  greatest = foldl d.maximum (d.neg d.infinity)

  abbrev least : List W → W
  least = foldl d.minimum d.infinity

  sharpe_ratio_of : (W → W) → (W → W) → List W → W
  sharpe_ratio_of sqrt square returns =
      let n = num (length returns) in
      let avg_return = sum_of returns ⊘ n in
      let variance = sum_of (map (λ (r : W). square (r ⊖ avg_return)) returns) ⊘ n in
      let std_dev = sqrt variance in
      if num 0 ⊲ std_dev then avg_return ⊘ std_dev ⊗ sqrt (num 252) else num 0

  abbrev unless_empty : ℕ → W → W
  unless_empty n x = if ltb 0 n then x else num 0

  empty_metrics : W → BacktestMetrics W
  empty_metrics initial_balance = record {
    total_trades = 0;
    win_count = 0;
    loss_count = 0;
    breakeven_count = 0;
    win_rate = num 0;
    total_pnl = num 0;
    profit_factor = num 0;
    max_drawdown = num 0;
    max_drawdown_percent = num 0;
    sharpe_ratio = num 0;
    avg_win = num 0;
    avg_loss = num 0;
    avg_rr = num 0;
    largest_win = num 0;
    largest_loss = num 0;
    max_consecutive_wins = 0;
    max_consecutive_losses = 0;
    total_commission = num 0;
    final_balance = initial_balance;
    return_percent = num 0;
  }

  full_metrics : (W → W) → (W → W) → List (ClosedTrade W) → W → BacktestMetrics W
  unfolding streaks_of sharpe_ratio_of drawdown_of
  full_metrics sqrt square trades initial_balance =
      let pnls = map (λ (t : ClosedTrade W). t.pnl) trades in
      let wins = filter (λ x. num 0 ⊲ x) pnls in
      let losses = filter (λ x. x ⊴ num 0) pnls in
      let won = length wins in
      let lost = length losses in
      let total_pnl = sum_of pnls in
      let gross_profit = sum_of wins in
      let gross_loss = d.abs (sum_of losses) in
      let dd = drawdown_of initial_balance trades in
      let streaks = streaks_of trades in
      let avg_win = gross_profit ⊘ num won in
      let final_balance = initial_balance ⊕ total_pnl in
      record {
        total_trades = length trades;
        win_count = won;
        loss_count = lost;
        breakeven_count =
            length (filter (λ (t : ClosedTrade W). is_breakeven t.exit_reason) trades);
        win_rate = d.round (num won ⊘ num (length trades) ⊗ num 10000) ⊘ num 100;
        total_pnl = cents total_pnl;
        profit_factor =
            if num 0 ⊲ gross_loss
            then cents (gross_profit ⊘ gross_loss)
            else if num 0 ⊲ gross_profit
            then d.infinity
            else num 0;
        max_drawdown = cents dd.max_dd;
        max_drawdown_percent = cents dd.max_dd_percent;
        sharpe_ratio = cents (sharpe_ratio_of sqrt square pnls);
        avg_win = unless_empty won (cents avg_win);
        avg_loss = unless_empty lost (cents (gross_loss ⊘ num lost));
        avg_rr =
            if ltb 0 lost && (num 0 ⊲ gross_loss)
            then cents ((if truthy avg_win then avg_win else num 0) ⊘ (gross_loss ⊘ num lost))
            else num 0;
        largest_win = unless_empty won (cents (greatest wins));
        largest_loss = unless_empty lost (cents (least losses));
        max_consecutive_wins = streaks.max_wins;
        max_consecutive_losses = streaks.max_losses;
        total_commission = cents (sum_of (map (λ (t : ClosedTrade W). t.commission) trades));
        final_balance = cents final_balance;
        return_percent =
            d.round ((final_balance ⊖ initial_balance) ⊘ initial_balance ⊗ num 10000) ⊘ num 100;
      }

  pub calculate_metrics : (W → W) → (W → W) → List (ClosedTrade W) → W → BacktestMetrics W
  unfolding empty_metrics full_metrics
  calculate_metrics sqrt square [] initial_balance = empty_metrics initial_balance
  calculate_metrics sqrt square (t ∷ rest) initial_balance =
      full_metrics sqrt square (t ∷ rest) initial_balance
