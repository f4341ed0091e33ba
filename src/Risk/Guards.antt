-- ===== src/Risk/Guards.antt =====
-- `canTrade` of `RiskManager`: the chain of guards before an entry. Each function is one guard and
-- what follows it; it returns the manager, whose pauses the guards set and clear, and the answer.
pub mod Clear
pub mod Scope
use shamarx_app.Prelude.{
  ℕ, ◌-◌, Bool, true, false, not, ◌&&◌, Option, none, some, ltb, leb, if◌then◌else◌, is_some,
}
use shamarx_app.Double.{Double, ◌⊗◌, ◌⊘◌, ◌⊴◌, num}
use shamarx_app.Calendar.{date_of, add_trading_days}
use shamarx_app.Risk.{
  RiskManager, is_before, rolling7_day_losses, maybe_reset_daily, maybe_reset_weekly,
}

-- The days of the pause for a streak that exceeds the limit by `excess`.
abbrev pub pause_days : ℕ → ℕ
pause_days excess = if leb 2 excess then 5 else if leb 1 excess then 3 else 1

module _ {W : Type 0} ⦃d : Double W⦄ where
  check_slots : RiskManager W → ℕ → RiskManager W × Bool
  check_slots m open_position_count = (m, ltb open_position_count m.config.max_open_positions)

  check_streak : RiskManager W → ℕ → ℕ → RiskManager W × Bool
  unfolding check_slots
  check_streak m date open_position_count =
      if not m.awaiting_post_pause_trade && leb m.config.max_consecutive_losses m.consecutive_losses
      then (
        record m {
          consecutive_loss_pause_until = some (
              add_trading_days date
                (pause_days (m.consecutive_losses - m.config.max_consecutive_losses)));
        },
        false,
      )
      else check_slots m open_position_count

  unfoldable pub daily_loss_reached : RiskManager W → Bool
  daily_loss_reached m = m.daily_pnl ⊘ m.balance ⊗ num 100 ⊴ d.neg m.config.max_daily_loss_percent

  check_daily : RiskManager W → ℕ → ℕ → RiskManager W × Bool
  unfolding check_streak
  check_daily m date open_position_count =
      if daily_loss_reached m then (m, false) else check_streak m date open_position_count

  check_streak_pause : RiskManager W → ℕ → ℕ → RiskManager W × Bool
  unfolding check_daily
  check_streak_pause m date open_position_count =
      if is_before date m.consecutive_loss_pause_until
      then (m, false)
      else check_daily
          (if is_some m.consecutive_loss_pause_until
            then record m { consecutive_loss_pause_until = none; awaiting_post_pause_trade = true }
            else m)
          date open_position_count

  check_rolling : RiskManager W → ℕ → ℕ → RiskManager W × Bool
  unfolding check_streak_pause
  check_rolling m date open_position_count =
      if is_before date m.rolling7_day_pause_until
      then (m, false)
      else if leb 4 (rolling7_day_losses m (some date))
      then (record m { rolling7_day_pause_until = some (add_trading_days date 5) }, false)
      else check_streak_pause m date open_position_count

  check_equity_pause : RiskManager W → ℕ → ℕ → RiskManager W × Bool
  unfolding check_rolling
  check_equity_pause m date open_position_count =
      if is_before date m.equity_dd_pause_until
      then (m, false)
      else check_rolling (record m { equity_dd_pause_until = none }) date open_position_count

  pub check_weekly_pause : RiskManager W → ℕ → ℕ → RiskManager W × Bool
  unfolding check_equity_pause
  check_weekly_pause m date open_position_count =
      if is_before date m.pause_until_date
      then (m, false)
      else check_equity_pause m date open_position_count

  unfoldable pub can_trade : RiskManager W → ℕ → ℕ → RiskManager W × Bool
  unfolding check_weekly_pause
  can_trade m now open_position_count =
      if m.hard_killed
      then (m, false)
      else check_weekly_pause (maybe_reset_weekly (maybe_reset_daily m now) now) (date_of now)
          open_position_count
