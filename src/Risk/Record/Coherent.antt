-- ===== src/Risk/Record/Coherent.antt =====
-- An invariant of `RiskManager`, which every operation keeps.
use shamarx_app.Prelude.{
  Option-cases, ℕ, ◌≡◌, sym, subst, ◌⊎◌, true, false, Option, some, [], ◌∷◌, String, arith, All,
  All-append, inl, inr,
}
use shamarx_app.Double.{Double, IsIeee, ◌⊲◌, ◌⊕◌, num}
use shamarx_app.Calendar.{date_of}
use shamarx_app.Engine.{EngineConfig}
use shamarx_app.Risk.{RiskManager, TradeLogEntry, create, maybe_reset_daily, maybe_reset_weekly}
use shamarx_app.Risk.Guards.{can_trade}
use shamarx_app.Risk.Guards.Clear.{refreshed}
use shamarx_app.Risk.Guards.Scope.{can_trade_frame}
use shamarx_app.Risk.Record.Booked.{record_trade_booked, booked_entry, refreshed-IsSameLedger}
use shamarx_app.Risk.Record.{
  record_trade, settle, book, count_streak, raise_peaks, kill_switch, equity_tiers, weekly_pause,
}
use shamarx_app.Engine.Instrument.{get_instrument_config}

module _ {W : Type 0} ⦃d : Double W⦄ where
  -- The account carries no open result; no equity is above a peak; a streak is of losses or of wins;
  -- a drawdown tier is one of three.
  pub record IsAccount (m : RiskManager W) : Type 0 where
    pub flat : m.equity ≡ m.balance
    pub overall_peak : (m.overall_peak_equity ⊲ m.equity) ≡ false
    pub weekly_peak : (m.weekly_peak_equity ⊲ m.equity) ≡ false
    pub one_streak : (m.consecutive_losses ≡ 0) ⊎ (m.consecutive_wins ≡ 0)
    pub tiers :
        (m.last_dd_tier_triggered ≡ 0)
        ⊎ (m.last_dd_tier_triggered ≡ 15)
        ⊎ (m.last_dd_tier_triggered ≡ 25)
        ⊎ (m.last_dd_tier_triggered ≡ 35)

  abbrev pub IsNegative : TradeLogEntry W → Type 0
  IsNegative t = (t.is_loss ≡ false) ⊎ ((t.pnl ⊲ num 0) ≡ true)

  -- The account is coherent, and the log calls only a negative result a loss.
  pub record IsCoherent (m : RiskManager W) : Type 0 where
    pub account : IsAccount m
    pub losses : All IsNegative m.trade_log

  module _ (laws : IsIeee W) where
    -- A new manager is coherent.
    pub create-IsCoherent :
        (config : EngineConfig W) (m : RiskManager W) → create config ≡ some m → IsCoherent m
    unfolding create
    create-IsCoherent config m h =
        elim (Option-cases (get_instrument_config {W = W} config.symbol)) [
          | inl unknown ↦ absurd (ground arith)
          | inr (instrument, known) ↦ ground (arith, laws.lt_irrefl config.initial_balance)
        ]

    refreshed-IsAccount : (m : RiskManager W) (now : ℕ) → IsAccount m → IsAccount (refreshed m now)
    unfolding refreshed maybe_reset_weekly maybe_reset_daily
    refreshed-IsAccount m now c = ground (arith, laws.lt_irrefl m.equity)

    settled-IsAccount :
        (m : RiskManager W) (pnl : W) (trade_date : ℕ) (exit_reason : Option String)
        → IsAccount m
        → IsAccount (raise_peaks (count_streak (book m pnl trade_date exit_reason) pnl exit_reason))
    unfolding raise_peaks count_streak book
    settled-IsAccount m pnl trade_date exit_reason c =
        ground (arith, laws.lt_irrefl (m.balance ⊕ pnl))

    kill_switch-IsAccount : (m : RiskManager W) → IsAccount m → IsAccount (kill_switch m)
    unfolding kill_switch
    kill_switch-IsAccount m c = ground arith

    equity_tiers-IsAccount :
        (m : RiskManager W) (date : ℕ) → IsAccount m → IsAccount (equity_tiers m date)
    unfolding equity_tiers
    equity_tiers-IsAccount m date c = ground arith

    weekly_pause-IsAccount :
        (m : RiskManager W) (date : ℕ) → IsAccount m → IsAccount (weekly_pause m date)
    unfolding weekly_pause
    weekly_pause-IsAccount m date c = ground arith

    -- `canTrade` keeps the manager coherent.
    pub can_trade-IsCoherent :
        (m : RiskManager W) (now n : ℕ) → IsCoherent m → IsCoherent (can_trade m now n).0
    can_trade-IsCoherent m now n c = elim (can_trade_frame m now n) [
      | inl (_, same) ↦ subst IsCoherent (sym same) c
      | inr (_, same) ↦ subst IsCoherent (sym same) (
          let a = refreshed-IsAccount m now c.account in
          record {
            account = record {
              flat = a.flat;
              overall_peak = a.overall_peak;
              weekly_peak = a.weekly_peak;
              one_streak = a.one_streak;
              tiers = a.tiers;
            };
            losses = subst (All IsNegative) (sym (refreshed-IsSameLedger m now).trade_log) c.losses;
          })
    ]

    -- `recordTrade` keeps the manager coherent, whatever the trade.
    pub record_trade-IsCoherent :
        (m : RiskManager W) (pnl : W) (trade_date : ℕ) (exit_reason : Option String)
        → IsCoherent m
        → IsCoherent (record_trade m pnl trade_date exit_reason)
    unfolding record_trade settle refreshed
    record_trade-IsCoherent m pnl trade_date exit_reason c =
        let date = date_of trade_date in
        let a = weekly_pause-IsAccount _ date (
          equity_tiers-IsAccount _ date (
            kill_switch-IsAccount _ (
              settled-IsAccount (refreshed m trade_date) pnl trade_date exit_reason
                (refreshed-IsAccount m trade_date c.account)))) in
        let (_, _, log, _) = record_trade_booked m pnl trade_date exit_reason in
        record {
          account = record {
            flat = a.flat;
            overall_peak = a.overall_peak;
            weekly_peak = a.weekly_peak;
            one_streak = a.one_streak;
            tiers = a.tiers;
          };
          losses = subst (All IsNegative) (sym log) (
              All-append IsNegative m.trade_log (booked_entry pnl trade_date exit_reason ∷ [])
                c.losses (ground arith, tt));
        }
