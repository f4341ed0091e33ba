-- ===== src/Smc/Engine/Ledger.antt =====
-- The account through a run of the engine: it moves by the results of the closed trades only.
use mathlib.Core.List.{foldl-append}
use shamarx_app.Prelude.{
  ℕ, zero, suc, ◌+◌, ◌-◌, ◌*◌, ◌≡◌, refl, sym, ap, ◌∙◌, subst, inl, inr, not, Option, none, some,
  List, [], ◌∷◌, foldl, arith, length, get_elem?, Option-cases, either,
}
use shamarx_app.Double.{Double, ◌⊕◌}
use shamarx_app.Calendar.{date_of}
use shamarx_app.Engine.{BacktestCandle, SimulatedPosition, ClosedTrade}
use shamarx_app.Engine.Instrument.{get_spread}
use shamarx_app.Risk.{RiskManager}
use shamarx_app.Risk.Guards.{can_trade}
use shamarx_app.Risk.Guards.Scope.{can_trade_frame}
use shamarx_app.Risk.Record.Booked.{record_trade_booked, refreshed-IsSameLedger}
use shamarx_app.Smc.{PendingSetup}
use shamarx_app.Smc.Index.{index_for_time}
use shamarx_app.Smc.Entry.{enter_first, judge}
use shamarx_app.Smc.Engine.{
  Market, Run, book_trade, close_one, close_exits, exit_of, exit_name, manage_positions,
  detect_setups, expire_setups, open_legs, enter_setup, trade, run_bar, run_bars, force_close,
  finish, start, run_market, is_after, is_blacked_out, in_killzone,
}

module _ {W : Type 0} ⦃d : Double W⦄ where
  -- The balance after the trades, from the balance before them.
  abbrev pub balance_after : W → List (ClosedTrade W) → W
  balance_after = foldl (λ (b : W) (t : ClosedTrade W). b ⊕ t.pnl)

  -- The account of the run is the initial balance with the results of its closed trades added in
  -- their order.
  pub record IsBalanced (initial : W) (s : Run W) : Type 0 where
    pub balance : s.risk.balance ≡ balance_after initial s.closed

  abbrev SameBalance : Run W → Run W → Type 0
  SameBalance s q = (q.risk.balance ≡ s.risk.balance) × (q.closed ≡ s.closed)

  kept : (initial : W) (s q : Run W) → SameBalance s q → IsBalanced initial s → IsBalanced initial q
  kept initial s q same b = record {
    balance = same.0 ∙ b.balance ∙ ap (balance_after initial) (sym same.1);
  }

  can_trade-balance : (m : RiskManager W) (now n : ℕ) → (can_trade m now n).0.balance ≡ m.balance
  can_trade-balance m now n = elim (can_trade_frame m now n) [
    | inl (killed, same) ↦ ap (λ (q : RiskManager W). q.balance) same
    | inr (alive, repaused) ↦
        ap (λ (q : RiskManager W). q.balance) repaused ∙ (refreshed-IsSameLedger m now).balance
  ]

  book_trade-IsBalanced :
      (initial : W) (time : ℕ) (t : ClosedTrade W) (s : Run W)
      → IsBalanced initial s
      → IsBalanced initial (book_trade time t s)
  unfolding book_trade
  book_trade-IsBalanced initial time t s b = record {
    balance =
        (record_trade_booked s.risk t.pnl time (some (exit_name t.exit_reason))).0
        ∙ ap (λ (x : W). x ⊕ t.pnl) b.balance
        ∙ sym (foldl-append (λ (b : W) (t : ClosedTrade W). b ⊕ t.pnl) initial s.closed (t ∷ []));
  }

  module _ (initial : W) (m : Market W) where
    close_exits-IsBalanced :
        (i : ℕ) (candle : BacktestCandle W) (spread : W) (ps : List (SimulatedPosition W))
        (s : Run W)
        → IsBalanced initial s
        → IsBalanced initial (close_exits m i candle spread ps s)
    unfolding close_exits
    close_exits-IsBalanced i candle spread [] s b = record { balance = b.balance }
    close_exits-IsBalanced i candle spread (p ∷ later) s b =
        let rest = close_exits-IsBalanced i candle spread later s b in
        closing (exit_of m candle spread p) rest
      where
        closing :
            (o : Option (ClosedTrade W))
            → IsBalanced initial (close_exits m i candle spread later s)
            → IsBalanced initial (close_one m i candle p o (close_exits m i candle spread later s))
        closing none rest = record { balance = rest.balance }
        closing (some t) rest = record {
          balance = (book_trade-IsBalanced initial candle.open_time t _ rest).balance;
        }

    detect_setups-same :
        (time : ℕ) (h1_idx : Option ℕ) (s : Run W) → SameBalance s (detect_setups m time h1_idx s)
    unfolding detect_setups
    detect_setups-same time none s = (refl, refl)
    detect_setups-same time (some zero) s = (refl, refl)
    detect_setups-same time (some (suc closed)) s = (ground arith, ground arith)

    open_legs-same :
        (i : ℕ) (r : Option (List (SimulatedPosition W)) × List (PendingSetup W)) (s : Run W)
        → SameBalance s (open_legs i r s)
    open_legs-same i (none, pending) s = (refl, refl)
    open_legs-same i (some legs, pending) s = (refl, refl)

    trade-same :
        (i : ℕ) (candle : BacktestCandle W) (spread : W) (s : Run W)
        → SameBalance s (trade m i candle spread s)
    unfolding trade enter_setup
    trade-same i candle spread s =
        let asked =
          can_trade s.risk (date_of candle.open_time * 86400000) (length s.open_positions) in
        let allowed = record s { risk = asked.0 } in
        let asking : SameBalance s allowed = (
          can_trade-balance s.risk (date_of candle.open_time * 86400000) (length s.open_positions),
          refl,
        ) in
        let r =
          enter_first
            (judge candle i spread m.m15_indicators m.instrument m.cfg allowed.risk
              allowed.open_positions)
            allowed.pending in
        let entered = open_legs-same i r allowed in
        either (SameBalance s) (not (is_after i s.cooldown_until)) (refl, refl)
          (either (SameBalance s) (is_blacked_out m.cfg candle.open_time) (refl, refl)
            (either (SameBalance s) (not asked.1) asking (
              either (SameBalance s) (not (in_killzone candle.open_time m.cfg.killzones)) asking
                (entered.0 ∙ asking.0, entered.1))))

    run_bar-IsBalanced :
        (i : ℕ) (candle : BacktestCandle W) (s q : Run W)
        → run_bar m i candle s ≡ some q
        → IsBalanced initial s
        → IsBalanced initial q
    unfolding run_bar manage_positions expire_setups
    run_bar-IsBalanced i candle s q h b =
        elim (Option-cases (get_spread {W = W} m.config.symbol candle.open_time)) [
          | inl unknown ↦ absurd (ground arith)
          | inr (spread, known) ↦
              let h1_idx = index_for_time m.h1_candles candle.open_time in
              let managed = manage_positions m i candle spread s in
              let detected = detect_setups m candle.open_time h1_idx managed in
              let expired = expire_setups h1_idx detected in
              let same : trade m i candle spread expired ≡ q = ground arith in
              let b1 : IsBalanced initial managed = close_exits-IsBalanced i candle spread _ s b in
              let b2 =
                kept initial managed detected (detect_setups-same candle.open_time h1_idx managed)
                  b1 in
              let b3 = kept initial detected expired (refl, refl) b2 in
              subst (IsBalanced initial) same
                (kept initial expired _ (trade-same i candle spread expired) b3)
        ]

    run_bars-IsBalanced :
        (i : ℕ) (candles : List (BacktestCandle W)) (s q : Run W)
        → run_bars m i candles s ≡ some q
        → IsBalanced initial s
        → IsBalanced initial q
    unfolding run_bars
    run_bars-IsBalanced i [] s q h b = subst (IsBalanced initial) (ground arith) b
    run_bars-IsBalanced i (candle ∷ later) s q h b = elim (Option-cases (run_bar m i candle s)) [
      | inl thrown ↦ absurd (ground arith)
      | inr (next, ran) ↦
          run_bars-IsBalanced (i + 1) later next q (ground arith)
            (run_bar-IsBalanced i candle s next ran b)
    ]

    force_close-IsBalanced :
        (last : BacktestCandle W) (ps : List (SimulatedPosition W)) (s : Run W)
        → IsBalanced initial s
        → IsBalanced initial (force_close m last ps s)
    unfolding force_close
    force_close-IsBalanced last [] s b = b
    force_close-IsBalanced last (p ∷ later) s b =
        force_close-IsBalanced last later _ (book_trade-IsBalanced initial last.open_time _ s b)

    finish-IsBalanced : (s : Run W) → IsBalanced initial s → IsBalanced initial (finish m s)
    unfolding finish
    finish-IsBalanced s b =
        elim (Option-cases (get_elem? m.m15_candles (length m.m15_candles - 1))) [
          | inl no_bar ↦ subst (IsBalanced initial) (ground arith) b
          | inr (last, there) ↦
              let same : force_close m last s.open_positions s ≡ finish m s = ground arith in
              subst (IsBalanced initial) same (force_close-IsBalanced last s.open_positions s b)
        ]

  -- A run that ends has moved the account by the results of its closed trades only, in their order;
  -- the trades that are closed by force at the end are among them.
  pub run_market-IsBalanced :
      (m : Market W) (risk : RiskManager W) (q : Run W)
      → run_market m risk ≡ some q
      → IsBalanced risk.balance q
  unfolding run_market start
  run_market-IsBalanced m risk q h = elim (Option-cases (run_bars m 0 m.m15_candles (start risk))) [
    | inl thrown ↦ absurd (ground arith)
    | inr (s, ran) ↦
        let same : finish m s ≡ q = ground arith in
        let begun : IsBalanced risk.balance (start risk) = record { balance = refl } in
        subst (IsBalanced risk.balance) same (
          finish-IsBalanced risk.balance m s
            (run_bars-IsBalanced risk.balance m 0 m.m15_candles (start risk) s ran begun))
  ]
