-- ===== src/Risk/Record/Booked.antt =====
-- What `recordTrade` books: the result in the account and one entry in the log.
use shamarx_app.Prelude.{
  ℕ, ◌≡◌, refl, ap, ◌∙◌, not, ◌&&◌, Option, some, [], ◌∷◌, ◌++◌, String, arith,
}
use shamarx_app.Double.{Double, ◌⊕◌, ◌⊲◌, num}
use shamarx_app.Calendar.{date_of}
use shamarx_app.Risk.{RiskManager, TradeLogEntry, maybe_reset_daily, maybe_reset_weekly}
use shamarx_app.Risk.Guards.Clear.{refreshed}
use shamarx_app.Risk.Record.{
  record_trade, settle, book, count_streak, raise_peaks, kill_switch, equity_tiers, weekly_pause,
  exits_as,
}

module _ {W : Type 0} ⦃d : Double W⦄ where
  -- `q` has the account and the log of `m`.
  pub record IsSameLedger (m q : RiskManager W) : Type 0 where
    pub balance : q.balance ≡ m.balance
    pub equity : q.equity ≡ m.equity
    pub trade_log : q.trade_log ≡ m.trade_log
    pub config : q.config ≡ m.config
    pub lot_size_units : q.lot_size_units ≡ m.lot_size_units

  pub IsSameLedger-trans :
      {m q r : RiskManager W} → IsSameLedger m q → IsSameLedger q r → IsSameLedger m r
  IsSameLedger-trans a b = ground arith

  pub refreshed-IsSameLedger : (m : RiskManager W) (now : ℕ) → IsSameLedger m (refreshed m now)
  unfolding refreshed maybe_reset_weekly maybe_reset_daily
  refreshed-IsSameLedger m now = ground arith

  streak-IsSameLedger :
      (m : RiskManager W) (pnl : W) (exit_reason : Option String)
      → IsSameLedger m (count_streak m pnl exit_reason)
  unfolding count_streak
  streak-IsSameLedger m pnl exit_reason = ground arith

  peaks-IsSameLedger : (m : RiskManager W) → IsSameLedger m (raise_peaks m)
  unfolding raise_peaks
  peaks-IsSameLedger m = ground arith

  kill-IsSameLedger : (m : RiskManager W) → IsSameLedger m (kill_switch m)
  unfolding kill_switch
  kill-IsSameLedger m = ground arith

  tiers-IsSameLedger : (m : RiskManager W) (date : ℕ) → IsSameLedger m (equity_tiers m date)
  unfolding equity_tiers
  tiers-IsSameLedger m date = ground arith

  pause-IsSameLedger : (m : RiskManager W) (date : ℕ) → IsSameLedger m (weekly_pause m date)
  unfolding weekly_pause
  pause-IsSameLedger m date = ground arith

  -- What follows the booking leaves the ledger as it is.
  counted-IsSameLedger :
      (b : RiskManager W) (pnl : W) (exit_reason : Option String) (date : ℕ)
      → IsSameLedger b (
          weekly_pause
            (equity_tiers (kill_switch (raise_peaks (count_streak b pnl exit_reason))) date)
            date)
  counted-IsSameLedger b pnl exit_reason date =
      let s = count_streak b pnl exit_reason in
      let k = kill_switch (raise_peaks s) in
      IsSameLedger-trans (streak-IsSameLedger b pnl exit_reason) (
        IsSameLedger-trans (peaks-IsSameLedger s) (
          IsSameLedger-trans (kill-IsSameLedger (raise_peaks s)) (
            IsSameLedger-trans (tiers-IsSameLedger k date)
              (pause-IsSameLedger (equity_tiers k date) date))))

  -- The entry of a trade in the log.
  abbrev pub booked_entry : W → ℕ → Option String → TradeLogEntry W
  booked_entry pnl trade_date exit_reason = record {
    date = date_of trade_date;
    pnl = pnl;
    is_loss = (pnl ⊲ num 0) && not (exits_as exit_reason "BREAKEVEN");
  }

  -- The trade moves the balance and the equity by its result, adds one entry to the log, which is a
  -- loss if the result is negative and the exit was not at breakeven, and is the last trade.
  pub record_trade_booked :
      (m : RiskManager W) (pnl : W) (trade_date : ℕ) (exit_reason : Option String)
      → let q = record_trade m pnl trade_date exit_reason in
        (q.balance ≡ m.balance ⊕ pnl)
        × (q.equity ≡ m.balance ⊕ pnl)
        × (q.trade_log ≡ m.trade_log ++ booked_entry pnl trade_date exit_reason ∷ [])
        × (q.last_trade_date ≡ some trade_date)
  unfolding record_trade refreshed kill_switch settle book
  record_trade_booked m pnl trade_date exit_reason =
      let r = refreshed m trade_date in
      let date = date_of trade_date in
      let b = book r pnl trade_date exit_reason in
      let before = refreshed-IsSameLedger m trade_date in
      let after = counted-IsSameLedger b pnl exit_reason date in
      (
        after.balance ∙ ap (λ x. x ⊕ pnl) before.balance,
        after.equity ∙ ap (λ x. x ⊕ pnl) before.balance,
        after.trade_log
            ∙ ap (λ l. l ++ booked_entry pnl trade_date exit_reason ∷ []) before.trade_log,
        refl,
      )

  -- The trade does not change what the manager was created with.
  pub record_trade-config :
      (m : RiskManager W) (pnl : W) (trade_date : ℕ) (exit_reason : Option String)
      → let q = record_trade m pnl trade_date exit_reason in
        (q.config ≡ m.config) × (q.lot_size_units ≡ m.lot_size_units)
  unfolding record_trade refreshed kill_switch settle book
  record_trade-config m pnl trade_date exit_reason =
      let r = refreshed m trade_date in
      let date = date_of trade_date in
      let b = book r pnl trade_date exit_reason in
      let before = refreshed-IsSameLedger m trade_date in
      let after = counted-IsSameLedger b pnl exit_reason date in
      (after.config ∙ before.config, after.lot_size_units ∙ before.lot_size_units)
