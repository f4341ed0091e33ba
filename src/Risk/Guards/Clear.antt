-- ===== src/Risk/Guards/Clear.antt =====
-- When `canTrade` allows an entry.
use shamarx_app.Prelude.{
  ℕ, ◌+◌, ◌-◌, ◌≤◌, ◌<◌, ◌≡◌, ap, ◌∙◌, ◌⊎◌, ◌↔◌, true, false, ◌||◌, none, some, arith,
  if◌then◌else◌, is_some, inl, inr, Bool-cases,
}
use mathlib.Core.Bool.{false≢true}
use shamarx_app.Double.{Double}
use shamarx_app.Calendar.{date_of, add_trading_days}
use shamarx_app.Calendar.TradingDays.{add_trading_days_later}
use shamarx_app.Risk.{
  RiskManager, is_before, rolling7_day_losses, maybe_reset_daily, maybe_reset_weekly,
}
use shamarx_app.Risk.Guards.{can_trade, check_weekly_pause, daily_loss_reached, pause_days}

module _ {W : Type 0} ⦃d : Double W⦄ where
  -- No safety brake of the manager `m` holds on the date, and a slot is free.
  pub record IsClear (m : RiskManager W) (date open_position_count : ℕ) : Type 0 where
    pub alive : m.hard_killed ≡ false
    pub weekly : is_before date m.pause_until_date ≡ false
    pub equity : is_before date m.equity_dd_pause_until ≡ false
    pub rolling : is_before date m.rolling7_day_pause_until ≡ false
    pub few_losses : rolling7_day_losses m (some date) < 4
    pub streak : is_before date m.consecutive_loss_pause_until ≡ false
    pub daily : daily_loss_reached m ≡ false
    pub short_streak :
        (is_some m.consecutive_loss_pause_until ≡ true)
        ⊎ (m.awaiting_post_pause_trade ≡ true)
        ⊎ (m.consecutive_losses < m.config.max_consecutive_losses)
    pub slots : open_position_count < m.config.max_open_positions

  -- The manager as the guards see it: the daily result and the weekly peak are up to date.
  unfoldable pub refreshed : RiskManager W → ℕ → RiskManager W
  refreshed m now = maybe_reset_weekly (maybe_reset_daily m now) now

  guards-IsClear :
      (m : RiskManager W) (date n : ℕ)
      → m.hard_killed ≡ false
      → (check_weekly_pause m date n).1 ≡ true
      → IsClear m date n
  unfolding check_weekly_pause rolling7_day_losses daily_loss_reached
  guards-IsClear m date n alive h = ground arith

  IsClear-guards :
      (m : RiskManager W) (date n : ℕ) → IsClear m date n → (check_weekly_pause m date n).1 ≡ true
  unfolding check_weekly_pause rolling7_day_losses daily_loss_reached
  IsClear-guards m date n c = ground arith

  pub refreshed_kill : (m : RiskManager W) (now : ℕ) → (refreshed m now).hard_killed ≡ m.hard_killed
  unfolding refreshed maybe_reset_weekly maybe_reset_daily
  refreshed_kill m now = ground arith

  pub can_trade_killed :
      (m : RiskManager W) (now n : ℕ) → m.hard_killed ≡ true → can_trade m now n ≡ (m, false)
  unfolding can_trade refreshed
  can_trade_killed m now n h =
      ap (λ b. if b then (m, false) else check_weekly_pause (refreshed m now) (date_of now) n) h

  pub can_trade_alive :
      (m : RiskManager W) (now n : ℕ)
      → m.hard_killed ≡ false
      → can_trade m now n ≡ check_weekly_pause (refreshed m now) (date_of now) n
  unfolding can_trade refreshed
  can_trade_alive m now n h =
      ap (λ b. if b then (m, false) else check_weekly_pause (refreshed m now) (date_of now) n) h

  -- An entry is allowed exactly when the manager, refreshed at the time of the request, is clear.
  pub can_trade_iff :
      (m : RiskManager W) (now open_position_count : ℕ)
      → ((can_trade m now open_position_count).1 ≡ true)
        ↔ IsClear (refreshed m now) (date_of now) open_position_count
  can_trade_iff m now n = elim (Bool-cases m.hard_killed) [
    | inl killed ↦
        rw (can_trade_killed m now n killed)
          (λ h. absurd (false≢true h), λ c. ground (arith, refreshed_kill m now))
    | inr alive ↦
        rw (can_trade_alive m now n alive)
          (guards-IsClear _ _ n (refreshed_kill m now ∙ alive), IsClear-guards _ _ n)
  ]

  refreshed_pauses :
      (m : RiskManager W) (now : ℕ)
      → ((refreshed m now).consecutive_loss_pause_until ≡ m.consecutive_loss_pause_until)
        × ((refreshed m now).equity_dd_pause_until ≡ m.equity_dd_pause_until)
        × ((refreshed m now).pause_until_date ≡ m.pause_until_date)
        × ((refreshed m now).consecutive_losses ≡ m.consecutive_losses)
        × ((refreshed m now).config ≡ m.config)
  unfolding refreshed maybe_reset_weekly maybe_reset_daily
  refreshed_pauses m now = ground arith

  pub refreshed_equity :
      (m : RiskManager W) (now : ℕ)
      → (refreshed m now).equity_dd_pause_until ≡ m.equity_dd_pause_until
  refreshed_equity m now = ground (arith, refreshed_pauses m now)

  -- A refusal by a drawdown pause keeps the pause.
  pub weekly_pause_keeps :
      (m : RiskManager W) (date n p : ℕ)
      → m.equity_dd_pause_until ≡ some p
      → date < p
      → (check_weekly_pause m date n).0.equity_dd_pause_until ≡ some p
  unfolding check_weekly_pause
  weekly_pause_keeps m date n p h before = ground arith

  refused :
      (m : RiskManager W) (now n : ℕ)
      → ¬ IsClear (refreshed m now) (date_of now) n
      → (can_trade m now n).1 ≡ false
  refused m now n blocked = elim (Bool-cases (can_trade m now n).1) [
    | inl allowed ↦ absurd (blocked ((can_trade_iff m now n).0 allowed))
    | inr denied ↦ denied
  ]

  -- No entry is allowed before the date of a pause.
  pub paused :
      (m : RiskManager W) (now n : ℕ)
      → (is_before (date_of now) m.consecutive_loss_pause_until
          || is_before (date_of now) m.equity_dd_pause_until
          || is_before (date_of now) m.pause_until_date
          || m.hard_killed)
        ≡ true
      → (can_trade m now n).1 ≡ false
  paused m now n h =
      let same = refreshed_pauses m now in
      let alive = refreshed_kill m now in refused m now n λ c. ground arith

  guards_streak_pause :
      (m : RiskManager W) (date n p : ℕ)
      → m.consecutive_loss_pause_until ≡ none
      → (check_weekly_pause m date n).0.consecutive_loss_pause_until ≡ some p
      → (m.config.max_consecutive_losses ≤ m.consecutive_losses)
        × (p
            ≡ add_trading_days date
                (pause_days (m.consecutive_losses - m.config.max_consecutive_losses)))
  unfolding check_weekly_pause
  guards_streak_pause m date n p h k = ground arith

  -- A call that sets a pause for a streak of losses where there was none does so because the streak
  -- is at its limit. The pause ends at least 1, 3 or 5 days later, as the streak asks for, and at a
  -- time whose date is before its end no entry is allowed.
  pub streak_pause_holds :
      (m : RiskManager W) (now n p : ℕ)
      → m.consecutive_loss_pause_until ≡ none
      → (can_trade m now n).0.consecutive_loss_pause_until ≡ some p
      → (later k : ℕ) → date_of later < p
      → (m.config.max_consecutive_losses ≤ m.consecutive_losses)
        × (date_of now + pause_days (m.consecutive_losses - m.config.max_consecutive_losses) ≤ p)
        × ((can_trade (can_trade m now n).0 later k).1 ≡ false)
  streak_pause_holds m now n p h set_to later k before = elim (Bool-cases m.hard_killed) [
    | inl killed ↦ absurd (ground (arith, can_trade_killed m now n killed))
    | inr alive ↦
        let same = refreshed_pauses m now in
        let date = date_of now in
        let days = pause_days (m.consecutive_losses - m.config.max_consecutive_losses) in
        let set =
          guards_streak_pause (refreshed m now) date n p (ground arith)
            (ground (arith, can_trade_alive m now n alive)) in
        let holds : (can_trade (can_trade m now n).0 later k).1 ≡ false =
          paused (can_trade m now n).0 later k (ground arith) in
        (ground arith, ground (arith, add_trading_days_later date days), holds)
  ]
