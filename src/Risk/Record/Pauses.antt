-- ===== src/Risk/Record/Pauses.antt =====
-- What follows a deep drawdown: a pause of trading days, and at 40 per cent the kill switch.
use shamarx_app.Prelude.{
  ℕ, ◌+◌, ◌<◌, ◌≤◌, Bool-cases, ◌≡◌, sym, ap, ◌∙◌, Bool, true, false, Option, some, String, arith,
  if◌then◌else◌, inl, inr,
}
use mathlib.Core.Bool.{false≢true}
use shamarx_app.Double.{Double, ◌⊴◌, num}
use shamarx_app.Calendar.{date_of, add_trading_days}
use shamarx_app.Calendar.TradingDays.{add_trading_days_later}
use shamarx_app.Risk.{RiskManager, equity_dd_percent}
use shamarx_app.Risk.Guards.{can_trade}
use shamarx_app.Risk.Guards.Clear.{
  refreshed, paused, refreshed_kill, refreshed_equity, weekly_pause_keeps, can_trade_killed,
  can_trade_alive,
}
use shamarx_app.Risk.Guards.Scope.{can_trade_frame}
use shamarx_app.Risk.Record.{
  record_trade, settle, kill_switch, equity_tiers, weekly_pause, count_streak, book, tier_reached,
}

module _ {W : Type 0} ⦃d : Double W⦄ where
  -- The trading days that a new drawdown tier costs; 0 where no new tier is reached.
  unfoldable pub drawdown_days : RiskManager W → ℕ
  drawdown_days m =
      if tier_reached m 35
      then 30
      else if tier_reached m 25
      then 7
      else if tier_reached m 15
      then 3
      else 0

  tiers_pause :
      (m : RiskManager W) (date : ℕ)
      → 0 < drawdown_days m
      → (weekly_pause (equity_tiers (kill_switch m) date) date).equity_dd_pause_until
        ≡ some (add_trading_days date (drawdown_days m))
  unfolding drawdown_days weekly_pause equity_tiers kill_switch equity_dd_percent
  tiers_pause m date h = ground arith

  kill_kept :
      (m : RiskManager W) (date : ℕ)
      → (weekly_pause (equity_tiers (kill_switch m) date) date).hard_killed
        ≡ (if num 40 ⊴ equity_dd_percent m then true else m.hard_killed)
  unfolding weekly_pause equity_tiers kill_switch
  kill_kept m date = ground arith

  -- Requests on dates before the end, one after the other.
  pub data Asked (end : ℕ) (m : RiskManager W) : RiskManager W → Type 0 where
    none_yet : Asked end m m
    asked :
        {q : RiskManager W} (now n : ℕ)
        → Asked end m q
        → date_of now < end
        → Asked end m (can_trade q now n).0

  -- A request before the end of a pause does not move its end.
  can_trade-keeps :
      (m : RiskManager W) (now n p : ℕ)
      → m.equity_dd_pause_until ≡ some p
      → date_of now < p
      → (can_trade m now n).0.equity_dd_pause_until ≡ some p
  can_trade-keeps m now n p h before = elim (Bool-cases m.hard_killed) [
    | inl killed ↦
        ap (λ (r : RiskManager W × Bool). r.0.equity_dd_pause_until)
          (can_trade_killed m now n killed)
        ∙ h
    | inr alive ↦
        ap (λ (r : RiskManager W × Bool). r.0.equity_dd_pause_until) (can_trade_alive m now n alive)
        ∙ weekly_pause_keeps (refreshed m now) (date_of now) n p (refreshed_equity m now ∙ h) before
  ]

  Asked-keeps :
      (m : RiskManager W) (end p : ℕ)
      → end ≤ p
      → m.equity_dd_pause_until ≡ some p
      → {q : RiskManager W} → Asked end m q
      → q.equity_dd_pause_until ≡ some p
  Asked-keeps m end p within h none_yet = h
  Asked-keeps m end p within h (asked {q = q} now n a before) =
      can_trade-keeps q now n p (Asked-keeps m end p within h a) (omega arith)

  -- A trade that takes the account to a new drawdown tier stops all entries for 3, 7 or 30 days, by
  -- the tier: after any requests in that time, a further one in that time is refused. No other trade
  -- is booked in between.
  pub drawdown_pause_holds :
      (m q : RiskManager W) (pnl : W) (trade_date later n : ℕ) (exit_reason : Option String)
      → let days = drawdown_days (settle m pnl trade_date exit_reason) in
        0 < days
        → Asked (date_of trade_date + days) (record_trade m pnl trade_date exit_reason) q
        → date_of later < date_of trade_date + days
        → (can_trade q later n).1 ≡ false
  unfolding record_trade
  drawdown_pause_holds m q pnl trade_date later n exit_reason h a before =
      let s = settle m pnl trade_date exit_reason in
      let date = date_of trade_date in
      let end = add_trading_days date (drawdown_days s) in
      let within : date + drawdown_days s ≤ end = add_trading_days_later date (drawdown_days s) in
      let holds =
        Asked-keeps (record_trade m pnl trade_date exit_reason) (date + drawdown_days s) end within
          (tiers_pause s date h) a in
      paused q later n (ground arith)

  -- The life of a manager: requests and trades in any order.
  pub data Step : RiskManager W → RiskManager W → Type 0 where
    asks : (m : RiskManager W) (now n : ℕ) → Step m (can_trade m now n).0
    trades :
        (m : RiskManager W) (pnl : W) (trade_date : ℕ) (exit_reason : Option String)
        → Step m (record_trade m pnl trade_date exit_reason)

  pub data Reach (m : RiskManager W) : RiskManager W → Type 0 where
    here : Reach m m
    next : {q r : RiskManager W} → Reach m q → Step q r → Reach m r

  streak_kill :
      (m : RiskManager W) (pnl : W) (exit_reason : Option String)
      → (count_streak m pnl exit_reason).hard_killed ≡ m.hard_killed
  unfolding count_streak
  streak_kill m pnl exit_reason = ground arith

  settle_kill :
      (m : RiskManager W) (pnl : W) (trade_date : ℕ) (exit_reason : Option String)
      → (settle m pnl trade_date exit_reason).hard_killed ≡ m.hard_killed
  unfolding settle refreshed book
  settle_kill m pnl trade_date exit_reason =
      streak_kill (book (refreshed m trade_date) pnl trade_date exit_reason) pnl exit_reason
      ∙ refreshed_kill m trade_date

  Step-killed : {m q : RiskManager W} → Step m q → m.hard_killed ≡ true → q.hard_killed ≡ true
  unfolding record_trade
  Step-killed (asks m now n) h = elim (can_trade_frame m now n) [
    | inl (_, same) ↦ ap (λ (q : RiskManager W). q.hard_killed) same ∙ h
    | inr (alive, same) ↦ absurd (false≢true (sym alive ∙ h))
  ]
  Step-killed (trades m pnl trade_date exit_reason) h =
      let s = settle m pnl trade_date exit_reason in
      ground (arith, kill_kept s (date_of trade_date), settle_kill m pnl trade_date exit_reason)

  Reach-killed : {m q : RiskManager W} → Reach m q → m.hard_killed ≡ true → q.hard_killed ≡ true
  Reach-killed here h = h
  Reach-killed (next r s) h = Step-killed s (Reach-killed r h)

  -- A drawdown of 40 per cent trips the kill switch for good: from then on, after any requests and
  -- trades, no entry is allowed.
  pub killed_for_good :
      (m : RiskManager W) (pnl : W) (trade_date : ℕ) (exit_reason : Option String)
      (q : RiskManager W) (now n : ℕ)
      → (num 40 ⊴ equity_dd_percent (settle m pnl trade_date exit_reason)) ≡ true
      → Reach (record_trade m pnl trade_date exit_reason) q
      → (can_trade q now n).1 ≡ false
  unfolding record_trade
  killed_for_good m pnl trade_date exit_reason q now n h r =
      let killed = Reach-killed r (
        kill_kept (settle m pnl trade_date exit_reason) (date_of trade_date)
        ∙ ap (λ b. if b then true else (settle m pnl trade_date exit_reason).hard_killed) h) in
      ap (λ (r : RiskManager W × Bool). r.1) (can_trade_killed q now n killed)
