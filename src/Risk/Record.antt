-- ===== src/Risk/Record.antt =====
-- `recordTrade` of `RiskManager`: the account, the log, the streaks, the peaks and the pauses after a
-- closed trade. Each function is one part of the method, in the order of the source.
pub mod Booked
pub mod Coherent
pub mod Pauses
use shamarx_app.Prelude.{
  ℕ, zero, suc, ◌+◌, Bool, true, false, not, ◌&&◌, Option, none, some, List, [], ◌∷◌, ◌++◌, String,
  ltb, if◌then◌else◌, ◌is◌,
}
use shamarx_app.Double.{Double, ◌⊕◌, ◌⊖◌, ◌⊗◌, ◌⊘◌, ◌⊲◌, ◌⊴◌, num}
use shamarx_app.Calendar.{date_of, add_trading_days}
use shamarx_app.Risk.{
  RiskManager, TradeLogEntry, equity_dd_percent, maybe_reset_daily, maybe_reset_weekly,
}

-- `exitReason === name`.
abbrev pub exits_as : Option String → String → Bool
exits_as none name = false
exits_as (some reason) name = reason is name

module _ {W : Type 0} ⦃d : Double W⦄ where
  book : RiskManager W → W → ℕ → Option String → RiskManager W
  book m pnl trade_date exit_reason = record m {
    awaiting_post_pause_trade = false;
    balance = m.balance ⊕ pnl;
    equity = m.balance ⊕ pnl;
    daily_pnl = m.daily_pnl ⊕ pnl;
    trade_log =
        m.trade_log
        ++ record {
          date = date_of trade_date;
          pnl = pnl;
          is_loss = (pnl ⊲ num 0) && not (exits_as exit_reason "BREAKEVEN");
        }
          ∷ [];
  }

  count_streak : RiskManager W → W → Option String → RiskManager W
  count_streak m pnl exit_reason =
      if exits_as exit_reason "BREAKEVEN"
      then record m { consecutive_losses = 0 }
      else if exits_as exit_reason "TP"
      then record m { consecutive_losses = 0; consecutive_wins = m.consecutive_wins + 1 }
      else if pnl ⊲ num 0
      then record m { consecutive_losses = m.consecutive_losses + 1; consecutive_wins = 0 }
      else m

  raise_peaks : RiskManager W → RiskManager W
  raise_peaks m =
      let above = m.overall_peak_equity ⊲ m.equity in
      record m {
        weekly_peak_equity =
            if m.weekly_peak_equity ⊲ m.equity then m.equity else m.weekly_peak_equity;
        overall_peak_equity = if above then m.equity else m.overall_peak_equity;
        last_dd_tier_triggered = if above then 0 else m.last_dd_tier_triggered;
      }

  -- HARD_KILL_DD_PERCENT is 40.
  kill_switch : RiskManager W → RiskManager W
  kill_switch m = record m {
    hard_killed = if num 40 ⊴ equity_dd_percent m then true else m.hard_killed;
  }

  abbrev pub tier_reached : RiskManager W → ℕ → Bool
  tier_reached m tier = (num tier ⊴ equity_dd_percent m) && ltb m.last_dd_tier_triggered tier

  abbrev pause_for_tier : RiskManager W → ℕ → ℕ → ℕ → RiskManager W
  pause_for_tier m date tier days = record m {
    last_dd_tier_triggered = tier;
    equity_dd_pause_until = some (add_trading_days date days);
  }

  equity_tiers : RiskManager W → ℕ → RiskManager W
  equity_tiers m date =
      if tier_reached m 35
      then pause_for_tier m date 35 30
      else if tier_reached m 25
      then pause_for_tier m date 25 7
      else if tier_reached m 15
      then pause_for_tier m date 15 3
      else m

  -- WEEKLY_DD_THRESHOLD is 8 and WEEKLY_DD_PAUSE_DAYS is 5.
  weekly_pause : RiskManager W → ℕ → RiskManager W
  weekly_pause m date =
      if num 8 ⊴ (m.weekly_peak_equity ⊖ m.equity) ⊘ m.weekly_peak_equity ⊗ num 100
      then record m { pause_until_date = some (add_trading_days date 5) }
      else m

  -- The manager after the account, the streaks and the peaks, before the pauses are set.
  unfoldable pub settle : RiskManager W → W → ℕ → Option String → RiskManager W
  unfolding book count_streak raise_peaks
  settle m pnl trade_date exit_reason =
      let reset = maybe_reset_weekly (maybe_reset_daily m trade_date) trade_date in
      raise_peaks (count_streak (book reset pnl trade_date exit_reason) pnl exit_reason)

  unfoldable pub record_trade : RiskManager W → W → ℕ → Option String → RiskManager W
  unfolding kill_switch equity_tiers weekly_pause settle
  record_trade m pnl trade_date exit_reason =
      let date = date_of trade_date in
      let settled = kill_switch (settle m pnl trade_date exit_reason) in
      let paused = weekly_pause (equity_tiers settled date) date in
      record paused { last_trade_date = some trade_date }
