-- ===== src/Position/Close/Reason.antt =====
-- Why and at which price a position closes on a candle.
use shamarx_app.Prelude.{
  ◌≡◌, refl, ◌⊎◌, ◌↔◌, Bool, true, false, not, ◌&&◌, sym, subst, Option, none, some, String, arith,
  inl, inr, Bool-cases,
}
use mathlib.Core.Bool.{false≢true}
use shamarx_app.Double.{Double}
use shamarx_app.Engine.{
  BacktestCandle, SimulatedPosition, ClosedTrade, ExitReason, sl, tp, breakeven,
}
use shamarx_app.Position.Close.{
  sl_hit, tp_hit, exit_reason_of, exit_price_of, check_position_exit, force_close_position,
  closed_trade,
}

module _ {W : Type 0} ⦃d : Double W⦄ where
  -- The rules of an exit: a stop before breakeven wins over the target on the same candle, and the
  -- target wins over a stop at breakeven.
  pub data ExitsBy (p : SimulatedPosition W) (stopped reached : Bool) (reason : ExitReason)
      (price : W) : Type 0 where
    at_loss :
        stopped ≡ true
        → p.breakeven_activated ≡ false
        → reason ≡ sl
        → price ≡ p.sl_price
        → ExitsBy p stopped reached reason price
    at_breakeven :
        stopped ≡ true
        → reached ≡ false
        → p.breakeven_activated ≡ true
        → reason ≡ breakeven
        → price ≡ p.sl_price
        → ExitsBy p stopped reached reason price
    at_target :
        reached ≡ true
        → (stopped ≡ false) ⊎ (p.breakeven_activated ≡ true)
        → reason ≡ tp
        → p.tp_price ≡ some price
        → ExitsBy p stopped reached reason price

  tp_hit-some :
      (p : SimulatedPosition W) (candle : BacktestCandle W) (spread : W)
      → tp_hit p candle spread ≡ true
      → (target : W) × (p.tp_price ≡ some target)
  unfolding tp_hit
  tp_hit-some p candle spread h = ground arith

  by_rule :
      (p : SimulatedPosition W) (stopped reached : Bool)
      → (reached ≡ true → (target : W) × (p.tp_price ≡ some target))
      → not stopped && not reached ≡ false
      → let reason = exit_reason_of stopped reached p.breakeven_activated in
        ExitsBy p stopped reached reason (exit_price_of p reason)
  unfolding exit_reason_of exit_price_of
  by_rule p true true target hit = elim (Bool-cases p.breakeven_activated) [
    | inl active ↦ at_target refl (inr active) (ground arith) (ground (arith, target))
    | inr inactive ↦ at_loss refl inactive (ground arith) (ground arith)
  ]
  by_rule p true false target hit = elim (Bool-cases p.breakeven_activated) [
    | inl active ↦ at_breakeven refl refl active (ground arith) (ground arith)
    | inr inactive ↦ at_loss refl inactive (ground arith) (ground arith)
  ]
  by_rule p false true target hit = at_target refl (inl refl) refl (ground (arith, target))
  by_rule p false false target hit = absurd (false≢true (sym hit))

  module _ (p : SimulatedPosition W) (candle : BacktestCandle W) (spread commission units : W)
      (symbol : Option String) where
    -- A position closes on a candle exactly when its stop or its target is hit.
    pub exit-none_iff :
        (check_position_exit p candle spread commission units symbol ≡ none)
        ↔ ((sl_hit p candle spread ≡ false) × (tp_hit p candle spread ≡ false))
    unfolding check_position_exit
    exit-none_iff = ground arith

    -- A position that closes does so by one of the rules, at the time of the candle, and books the
    -- trade that a forced close at the same price and time would book. A trade that closes at the
    -- target has one.
    pub exit-ExitsBy :
        (t : ClosedTrade W)
        → check_position_exit p candle spread commission units symbol ≡ some t
        → ExitsBy p (sl_hit p candle spread) (tp_hit p candle spread) t.exit_reason t.exit_price
          × (t
              ≡ record (force_close_position p t.exit_price candle.open_time commission units
                  symbol) { exit_reason = t.exit_reason })
    unfolding check_position_exit force_close_position
    exit-ExitsBy t h =
        let stopped = sl_hit p candle spread in
        let reached = tp_hit p candle spread in
        elim (Bool-cases (not stopped && not reached)) [
          | inl none_hit ↦ ground arith
          | inr hit ↦
              let reason = exit_reason_of stopped reached p.breakeven_activated in
              let price = exit_price_of p reason in
              let same : closed_trade p price candle.open_time reason commission units symbol ≡ t =
                ground arith in
              subst
                (λ (t : ClosedTrade W).
                  ExitsBy p stopped reached t.exit_reason t.exit_price
                  × (t
                      ≡ record (force_close_position p t.exit_price candle.open_time commission
                          units symbol) { exit_reason = t.exit_reason }))
                same (by_rule p stopped reached (tp_hit-some p candle spread) hit, refl)
        ]
