-- ===== src/Risk/Guards/Scope.antt =====
-- What `canTrade` may change in the manager.
use shamarx_app.Prelude.{
  ℕ, ◌≡◌, ap, sym, subst, Bool, true, false, ◌⊎◌, inl, inr, arith, Bool-cases,
}
use shamarx_app.Double.{Double}
use shamarx_app.Calendar.{date_of}
use shamarx_app.Risk.{RiskManager}
use shamarx_app.Risk.Guards.{can_trade, check_weekly_pause}
use shamarx_app.Risk.Guards.Clear.{refreshed, can_trade_killed, can_trade_alive}

module _ {W : Type 0} ⦃d : Double W⦄ where
  -- `q` differs from `m` at most in the pauses that the guards set and clear.
  abbrev pub IsRepaused : RiskManager W → RiskManager W → Type 0
  IsRepaused m q = q ≡ record m {
    consecutive_loss_pause_until = q.consecutive_loss_pause_until;
    awaiting_post_pause_trade = q.awaiting_post_pause_trade;
    equity_dd_pause_until = q.equity_dd_pause_until;
    rolling7_day_pause_until = q.rolling7_day_pause_until;
  }

  guards-IsRepaused :
      (m : RiskManager W) (date n : ℕ) → IsRepaused m (check_weekly_pause m date n).0
  unfolding check_weekly_pause
  guards-IsRepaused m date n = ground arith

  -- A request changes nothing where the kill switch has tripped. Otherwise it refreshes the daily
  -- result and the weekly peak, and then changes pauses only.
  pub can_trade_frame :
      (m : RiskManager W) (now n : ℕ)
      → let q = (can_trade m now n).0 in
        (m.hard_killed ≡ true × (q ≡ m)) ⊎ (m.hard_killed ≡ false × IsRepaused (refreshed m now) q)
  can_trade_frame m now n = elim (Bool-cases m.hard_killed) [
    | inl killed ↦
        inl (killed, ap (λ (r : RiskManager W × Bool). r.0) (can_trade_killed m now n killed))
    | inr alive ↦ inr (
      alive,
      subst (λ (r : RiskManager W × Bool). IsRepaused (refreshed m now) r.0)
          (sym (can_trade_alive m now n alive))
          (guards-IsRepaused (refreshed m now) (date_of now) n),
    )
  ]
