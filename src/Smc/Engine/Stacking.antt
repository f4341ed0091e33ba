-- ===== src/Smc/Engine/Stacking.antt =====
-- The engine holds at most the two legs of one entry on each side.
use mathlib.Core.Path.{◌≡◌}
use shamarx_app.Prelude.{
  ℕ, zero, suc, ◌+◌, ◌*◌, ◌≤◌, All, refl, sym, subst, inl, inr, true, false, not, Option, none,
  some, List, [], ◌∷◌, ◌++◌, map, arith, any, filter, length, Option-cases, Bool-cases, either,
}
use shamarx_app.Double.{Double}
use shamarx_app.Calendar.{date_of}
use shamarx_app.Engine.{Side, buy, sell, BacktestCandle, SimulatedPosition, ClosedTrade}
use shamarx_app.Engine.Instrument.{get_spread}
use shamarx_app.Risk.Guards.{can_trade}
use shamarx_app.Position.Manage.{update_position_management}
use shamarx_app.Position.Manage.Frame.{update-side}
use shamarx_app.Smc.{PendingSetup}
use shamarx_app.Smc.Index.{index_for_time}
use shamarx_app.Smc.Entry.{same_side, judge, enter_first}
use shamarx_app.Smc.Entry.Legs.{IsEntry, judge-IsEntry, enter_first-some}
use shamarx_app.Smc.Engine.{
  Market, Run, book_trade, close_one, close_exits, exit_of, manage_positions, detect_setups,
  expire_setups, open_legs, enter_setup, trade, run_bar, run_bars, is_after, is_blacked_out,
  in_killzone,
}

same_side-eq : (a b : Side) → same_side a b ≡ true → a ≡ b
same_side-eq buy buy h = refl
same_side-eq sell sell h = refl
same_side-eq buy sell h = absurd (ground arith)
same_side-eq sell buy h = absurd (ground arith)

module _ {W : Type 0} ⦃d : Double W⦄ where
  -- How many of the positions are on the side.
  abbrev pub count_side : Side → List (SimulatedPosition W) → ℕ
  count_side side ps = length (filter (λ (p : SimulatedPosition W). same_side p.side side) ps)

  abbrev pub IsUnstacked : List (SimulatedPosition W) → Type 0
  IsUnstacked ps = (side : Side) → count_side side ps ≤ 2

  count_side-append :
      (side : Side) (ps qs : List (SimulatedPosition W))
      → count_side side (ps ++ qs) ≡ count_side side ps + count_side side qs
  count_side-append side [] qs = omega arith
  count_side-append side (p ∷ ps) qs =
      let rest = count_side-append side ps qs in
      elim (Bool-cases (same_side p.side side)) [ inl on ↦ ground arith | inr off ↦ ground arith ]

  none_on_side :
      (side : Side) (ps : List (SimulatedPosition W))
      → any (λ p. same_side p.side side) ps ≡ false
      → count_side side ps ≡ 0
  none_on_side side [] h = refl
  none_on_side side (p ∷ ps) h = let rest = none_on_side side ps (ground arith) in ground arith

  count_side-managed :
      (side : Side) (candle : BacktestCandle W) (spread : W) (ps : List (SimulatedPosition W))
      → count_side side
          (map (λ (p : SimulatedPosition W). update_position_management p candle spread) ps)
        ≡ count_side side ps
  count_side-managed side candle spread [] = refl
  count_side-managed side candle spread (p ∷ ps) =
      let rest = count_side-managed side candle spread ps in
      let here = update-side p candle spread in ground arith

  count_side-le : (side : Side) (ps : List (SimulatedPosition W)) → count_side side ps ≤ length ps
  count_side-le side [] = omega arith
  count_side-le side (p ∷ ps) =
      let rest = count_side-le side ps in
      elim (Bool-cases (same_side p.side side)) [ inl on ↦ ground arith | inr off ↦ ground arith ]

  -- Positions that are all on one side are on no other.
  count_side-other :
      (side other : Side) (ps : List (SimulatedPosition W))
      → All (λ (p : SimulatedPosition W). p.side ≡ other) ps
      → same_side other side ≡ false
      → count_side side ps ≡ 0
  count_side-other side other [] all h = refl
  count_side-other side other (p ∷ ps) all h =
      let rest = count_side-other side other ps all.1 h in let here = all.0 in ground arith

  entry-IsUnstacked :
      (ps legs : List (SimulatedPosition W)) (setup : PendingSetup W)
      → IsEntry ps setup legs
      → IsUnstacked ps
      → IsUnstacked (ps ++ legs)
  entry-IsUnstacked ps legs setup e u side =
      let joined = count_side-append side ps legs in
      elim (Bool-cases (same_side setup.direction side)) [
        | inl on ↦
            let same = same_side-eq setup.direction side on in
            let before : count_side side ps ≡ 0 =
              subst (λ s. count_side s ps ≡ 0) same (none_on_side setup.direction ps e.0) in
            omega (arith, joined, before, count_side-le side legs, e.1.few)
        | inr off ↦
            let others = count_side-other side setup.direction legs e.1.on_side off in
            omega (arith, joined, others, u side)
      ]

  module _ (m : Market W) where
    abbrev pub Unstacked : Run W → Type 0
    Unstacked s = IsUnstacked s.open_positions

    close_exits-count :
        (side : Side) (i : ℕ) (candle : BacktestCandle W) (spread : W)
        (ps : List (SimulatedPosition W)) (s : Run W)
        → count_side side (close_exits m i candle spread ps s).open_positions ≤ count_side side ps
    unfolding close_exits book_trade
    close_exits-count side i candle spread [] s = omega arith
    close_exits-count side i candle spread (p ∷ later) s =
        let rest = close_exits-count side i candle spread later s in
        closing (exit_of m candle spread p) rest
      where
        closing :
            (o : Option (ClosedTrade W))
            → count_side side (close_exits m i candle spread later s).open_positions
              ≤ count_side side later
            → count_side side
                (close_one m i candle p o (close_exits m i candle spread later s)).open_positions
              ≤ count_side side (p ∷ later)
        closing none rest = ground arith
        closing (some t) rest = ground arith

    manage_positions-Unstacked :
        (i : ℕ) (candle : BacktestCandle W) (spread : W) (s : Run W)
        → Unstacked s
        → Unstacked (manage_positions m i candle spread s)
    unfolding manage_positions
    manage_positions-Unstacked i candle spread s u side =
        let managed =
          map (λ (p : SimulatedPosition W). update_position_management p candle spread)
            s.open_positions in
        omega (
          arith,
          close_exits-count side i candle spread managed s,
          count_side-managed side candle spread s.open_positions,
          u side,
        )

    detect_setups-open :
        (time : ℕ) (h1_idx : Option ℕ) (s : Run W)
        → (detect_setups m time h1_idx s).open_positions ≡ s.open_positions
    unfolding detect_setups
    detect_setups-open time none s = refl
    detect_setups-open time (some zero) s = refl
    detect_setups-open time (some (suc closed)) s = ground arith

    enter_setup-Unstacked :
        (i : ℕ) (candle : BacktestCandle W) (spread : W) (s : Run W)
        → Unstacked s
        → Unstacked (enter_setup m i candle spread s)
    unfolding enter_setup
    enter_setup-Unstacked i candle spread s u =
        let verdict =
          judge candle i spread m.m15_indicators m.instrument m.cfg s.risk s.open_positions in
        let r = enter_first verdict s.pending in
        opening r.0 r.1 (λ legs h.
          let e = enter_first-some verdict s.pending legs h in
          entry-IsUnstacked s.open_positions legs e.0
            (judge-IsEntry candle i spread m.m15_indicators m.instrument m.cfg s.risk
              s.open_positions legs e.0 e.1)
            u)
      where
        opening :
            (o : Option (List (SimulatedPosition W))) (kept : List (PendingSetup W))
            → ((legs : List (SimulatedPosition W))
                → o ≡ some legs
                → IsUnstacked (s.open_positions ++ legs))
            → Unstacked (open_legs i (o, kept) s)
        opening none kept e = u
        opening (some legs) kept e = e legs refl

    trade-Unstacked :
        (i : ℕ) (candle : BacktestCandle W) (spread : W) (s : Run W)
        → Unstacked s
        → Unstacked (trade m i candle spread s)
    unfolding trade
    trade-Unstacked i candle spread s u =
        let asked =
          can_trade s.risk (date_of candle.open_time * 86400000) (length s.open_positions) in
        let allowed = record s { risk = asked.0 } in
        either Unstacked (not (is_after i s.cooldown_until)) u (
          either Unstacked (is_blacked_out m.cfg candle.open_time) u (
            either Unstacked (not asked.1) u (
              either Unstacked (not (in_killzone candle.open_time m.cfg.killzones)) u
                (enter_setup-Unstacked i candle spread allowed u))))

    run_bar-Unstacked :
        (i : ℕ) (candle : BacktestCandle W) (s q : Run W)
        → run_bar m i candle s ≡ some q
        → Unstacked s
        → Unstacked q
    unfolding run_bar expire_setups
    run_bar-Unstacked i candle s q h u =
        elim (Option-cases (get_spread {W = W} m.config.symbol candle.open_time)) [
          | inl unknown ↦ absurd (ground arith)
          | inr (spread, known) ↦
              let h1_idx = index_for_time m.h1_candles candle.open_time in
              let managed = manage_positions m i candle spread s in
              let expired =
                expire_setups h1_idx (detect_setups m candle.open_time h1_idx managed) in
              let same : trade m i candle spread expired ≡ q = ground arith in
              let u1 = manage_positions-Unstacked i candle spread s u in
              let u2 =
                subst IsUnstacked (sym (detect_setups-open candle.open_time h1_idx managed)) u1 in
              subst Unstacked same (trade-Unstacked i candle spread expired u2)
        ]

    -- After any number of bars at most two positions are open on each side.
    pub run_bars-IsUnstacked :
        (i : ℕ) (candles : List (BacktestCandle W)) (s q : Run W)
        → run_bars m i candles s ≡ some q
        → IsUnstacked s.open_positions
        → IsUnstacked q.open_positions
    unfolding run_bars
    run_bars-IsUnstacked i [] s q h u = let same : s ≡ q = ground arith in subst Unstacked same u
    run_bars-IsUnstacked i (candle ∷ later) s q h u = elim (Option-cases (run_bar m i candle s)) [
      | inl thrown ↦ absurd (ground arith)
      | inr (next, ran) ↦
          run_bars-IsUnstacked (i + 1) later next q (ground arith)
            (run_bar-Unstacked i candle s next ran u)
    ]
