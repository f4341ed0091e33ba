-- ===== src/Position/Manage/Frame.antt =====
-- What the management of a position may change, and that a candle counts once.
use shamarx_app.Prelude.{
  ◌≡◌, refl, ap, ◌∙◌, includes, ◌⊎◌, Bool, true, false, not, ◌&&◌, ◌||◌, Option, none, is_some,
  either, arith, if◌then◌else◌, inl, inr,
}
use shamarx_app.Double.{Double, IsIeee, ◌⊲◌, ◌⊴◌, ◌⊕◌, ◌⊖◌, ◌⊗◌, ◌⊘◌, num, dec, same_level}
use shamarx_app.Engine.{Side, buy, sell, BacktestCandle, SimulatedPosition}
use shamarx_app.Position.Manage.{
  Levels, plan, manage, manage_buy, manage_sell, unless_unchanged, with_levels, same_flag,
  update_position_management, compute_trail_distance,
}
use shamarx_app.Position.Manage.Stop.{is_looser}

module _ {W : Type 0} ⦃d : Double W⦄ where
  pub update-side :
      (p : SimulatedPosition W) (candle : BacktestCandle W) (spread : W)
      → (update_position_management p candle spread).side ≡ p.side
  unfolding update_position_management
  update-side p candle spread =
      let l = manage p.side p candle spread (plan p) in
      either (λ (q : SimulatedPosition W). q.side ≡ p.side) (includes p.setup_tags "RANGE_ENGINE")
        refl
        (either (λ (q : SimulatedPosition W). q.side ≡ p.side)
          (d.eq l.peak p.peak_favorable_price
            && d.eq l.stop p.sl_price
            && same_flag l.active p.breakeven_activated
            && same_level l.target p.tp_price)
          refl refl)

  -- The new position `q` of the old one `p`.
  pub record IsManagedFrom (p q : SimulatedPosition W) : Type 0 where
    -- Only the four managed values differ.
    pub frame : q ≡ record p {
      peak_favorable_price = q.peak_favorable_price;
      sl_price = q.sl_price;
      breakeven_activated = q.breakeven_activated;
      tp_price = q.tp_price;
    }
    pub latched : (p.breakeven_activated ≡ false) ⊎ (q.breakeven_activated ≡ true)
    pub waits :
        (q.breakeven_activated ≡ true) ⊎ ((q.sl_price ≡ p.sl_price) × (q.tp_price ≡ p.tp_price))
    pub target : (q.tp_price ≡ p.tp_price) ⊎ (q.tp_price ≡ none)
    pub advances : is_looser p.side q.peak_favorable_price p.peak_favorable_price ≡ false

  -- The same of the four levels, where `worse x y` says that the peak `x` is behind `y`.
  record LevelsFrom (worse : W → W → Bool) (old_peak : W) (active : Bool) (stop : W)
      (target : Option W) (l : Levels W) : Type 0 where
    latched : (active ≡ false) ⊎ (l.active ≡ true)
    waits : (l.active ≡ true) ⊎ ((l.stop ≡ stop) × (l.target ≡ target))
    kept : (l.target ≡ target) ⊎ (l.target ≡ none)
    advances : worse l.peak old_peak ≡ false

  -- One call of either branch, over the direction in which a price is `better`.
  abbrev levels :
      (W → W → Bool)
      → W
      → (W → Bool)
      → W
      → (W → W)
      → (W → Bool)
      → W
      → Bool
      → W
      → Option W
      → Levels W
  levels better quote crossed breakeven_stop trail far old_peak active stop target =
      let peak = if better old_peak quote then quote else old_peak in
      let activates = not active && crossed peak in
      let first = if activates then breakeven_stop else stop in
      let now = activates || active in
      record {
        peak = peak;
        stop = if now && better first (trail peak) then trail peak else first;
        active = now;
        target = if now && (far peak && is_some target) then none else target;
      }

  module _ (better : W → W → Bool) (irrefl : (x : W) → better x x ≡ false) (quote : W)
      (crossed : W → Bool) (breakeven_stop : W) (trail : W → W) (far : W → Bool) where
    abbrev step : W → Bool → W → Option W → Levels W
    step = levels better quote crossed breakeven_stop trail far

    abbrev again : Levels W → Levels W
    again l = step l.peak l.active l.stop l.target

    -- The step is idempotent, and changes the levels as far as it may.
    step_lem :
        (trans : (x y z : W) → better x y ≡ true → better y z ≡ true → better x z ≡ true)
        (old_peak : W) (active : Bool) (stop : W) (target : Option W)
        → let l = step old_peak active stop target in
          (again l ≡ l) × LevelsFrom better old_peak active stop target l
    step_lem trans old_peak active stop target = (
      ground (arith, irrefl quote, irrefl (trail old_peak), irrefl (trail quote)),
      ground (arith, irrefl old_peak, trans quote old_peak quote, irrefl quote),
    )

  manage_lem :
      (laws : IsIeee W) (side : Side) (position : SimulatedPosition W) (candle : BacktestCandle W)
      (spread : W)
      → let l = manage side position candle spread (plan position) in
        let next = with_levels position l in
        (manage side next candle spread (plan next) ≡ l)
        × LevelsFrom
            (is_looser side)
            position.peak_favorable_price
            position.breakeven_activated
            position.sl_price
            position.tp_price
            l
  unfolding manage plan manage_buy manage_sell
  manage_lem laws buy position candle spread =
      let p = plan position in
      let entry = position.entry_price in
      step_lem ◌⊲◌ laws.lt_irrefl (candle.high ⊖ spread ⊘ num 2)
        (λ peak. entry ⊕ p.breakeven_threshold ⊴ peak) (entry ⊕ p.risk ⊗ dec 1 1)
        (λ peak. peak ⊖ compute_trail_distance (peak ⊖ entry) p.risk p.config p.is_fvg)
        (λ peak. p.tp_removal_threshold ⊴ peak ⊖ entry) laws.lt_trans position.peak_favorable_price
        position.breakeven_activated position.sl_price position.tp_price
  manage_lem laws sell position candle spread =
      let p = plan position in
      let entry = position.entry_price in
      step_lem (λ x y. y ⊲ x) laws.lt_irrefl (candle.low ⊕ spread ⊘ num 2)
        (λ peak. peak ⊴ entry ⊖ p.breakeven_threshold) (entry ⊖ p.risk ⊗ dec 1 1)
        (λ peak. peak ⊕ compute_trail_distance (entry ⊖ peak) p.risk p.config p.is_fvg)
        (λ peak. p.tp_removal_threshold ⊴ entry ⊖ peak) (λ x y z h k. laws.lt_trans z y x k h)
        position.peak_favorable_price position.breakeven_activated position.sl_price
        position.tp_price

  unless_unchanged_self :
      (position : SimulatedPosition W) (l : Levels W)
      → unless_unchanged (with_levels position l) l ≡ with_levels position l
  unless_unchanged_self position l = ground arith

  update-eq :
      (position : SimulatedPosition W) (candle : BacktestCandle W) (spread : W)
      → update_position_management position candle spread ≡ (
          if includes position.setup_tags "RANGE_ENGINE"
          then position
          else unless_unchanged position
              (manage position.side position candle spread (plan position)))
  unfolding update_position_management
  update-eq position candle spread = refl

  if_same : (b : Bool) {x y : SimulatedPosition W} → x ≡ y → (if b then y else x) ≡ y
  if_same true e = refl
  if_same false e = e

  -- A call returns the position itself or the position with the computed levels.
  update_cases :
      (position : SimulatedPosition W) (candle : BacktestCandle W) (spread : W)
      → let l = manage position.side position candle spread (plan position) in
        (update_position_management position candle spread ≡ position)
        ⊎ (update_position_management position candle spread ≡ with_levels position l)
  update_cases position candle spread = rw update-eq (ground arith)

  managed_again :
      (laws : IsIeee W) (position : SimulatedPosition W) (candle : BacktestCandle W) (spread : W)
      → let next =
          with_levels position (manage position.side position candle spread (plan position)) in
        update_position_management next candle spread ≡ next
  managed_again laws position candle spread =
      let l = manage position.side position candle spread (plan position) in
      update-eq (with_levels position l) candle spread
      ∙ if_same _ (
          ap (unless_unchanged (with_levels position l))
            (manage_lem laws position.side position candle spread).0
          ∙ unless_unchanged_self position l)

  -- Managing a position twice on the same candle is managing it once.
  pub update_twice :
      (laws : IsIeee W) (position : SimulatedPosition W) (candle : BacktestCandle W) (spread : W)
      → let next = update_position_management position candle spread in
        update_position_management next candle spread ≡ next
  update_twice laws position candle spread = elim (update_cases position candle spread) [
    | inl same ↦ ap (λ q. update_position_management q candle spread) same
    | inr changed ↦ rw changed (managed_again laws position candle spread)
  ]

  -- What a call may change: only the peak, the stop, the breakeven flag and the target. Breakeven,
  -- once active, stays; before it the stop and the target stay; the target is kept or removed; the
  -- peak does not move against the position.
  pub update-IsManagedFrom :
      (laws : IsIeee W) (position : SimulatedPosition W) (candle : BacktestCandle W) (spread : W)
      → IsManagedFrom position (update_position_management position candle spread)
  update-IsManagedFrom laws position candle spread = elim (update_cases position candle spread) [
    | inl same ↦ rw same (ground (arith, laws.lt_irrefl position.peak_favorable_price))
    | inr changed ↦ rw changed (
        let facts = (manage_lem laws position.side position candle spread).1 in
        record {
          frame = refl;
          latched = facts.latched;
          waits = facts.waits;
          target = facts.kept;
          advances = facts.advances;
        })
  ]
