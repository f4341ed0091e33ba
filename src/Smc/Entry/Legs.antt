-- ===== src/Smc/Entry/Legs.antt =====
-- What the entry of a setup opens.
use shamarx_app.Prelude.{
  ℕ, ◌^◌, ◌≤◌, ◌≡◌, refl, subst, Bool, true, false, ◌||◌, some, List, [], ◌∷◌, All, any, arith,
  length, inl, inr, Option-cases, if◌then◌else◌, either, or_else, get_elem?,
}
use shamarx_app.Double.{Double, ◌⊖◌, ◌⊗◌, ◌⊲◌, ◌⊴◌, num, dec, cents, number_of}
use shamarx_app.Engine.{Side, BacktestCandle, SimulatedPosition, weak_trend}
use shamarx_app.Engine.Instrument.{InstrumentConfig}
use shamarx_app.Risk.{RiskManager}
use shamarx_app.Risk.Lots.{calculate_lot_size}
use shamarx_app.Smc.{IndicatorState, PendingSetup, SmcPairConfig}
use shamarx_app.Smc.Entry.{
  Verdict, keep, discard, enter, same_side, judge, enter_first, after_verdict, legs_of, leg,
  entry_price_of, sl_price_of, is_too_wide,
}

module _ {W : Type 0} ⦃d : Double W⦄ where
  -- One position or two, all on the side.
  pub record IsLegs (side : Side) (legs : List (SimulatedPosition W)) : Type 0 where
    pub few : length legs ≤ 2
    pub on_side : All (λ (p : SimulatedPosition W). p.side ≡ side) legs

  -- A verdict that enters does so with legs on the side.
  abbrev Enters : Side → Verdict W → Type 0
  Enters side v = (legs : List (SimulatedPosition W)) → v ≡ enter legs → IsLegs side legs

  enter-Enters :
      (side : Side) (these : List (SimulatedPosition W))
      → IsLegs side these
      → Enters side (enter these)
  enter-Enters side these l legs h = subst (IsLegs side) (ground arith) l

  keep-Enters : (side : Side) → Enters side keep
  keep-Enters side legs h = absurd (ground arith)

  discard-Enters : (side : Side) → Enters side discard
  discard-Enters side legs h = absurd (ground arith)

  legs_of-Enters :
      (setup : PendingSetup W) (candle : BacktestCandle W) (i : ℕ) (m15 : IndicatorState W)
      (cfg : SmcPairConfig W) (factor entry_price sl_price sl_points total_lot : W)
      → Enters setup.direction
          (legs_of setup candle i m15 cfg factor entry_price sl_price sl_points total_lot)
  unfolding legs_of leg
  legs_of-Enters setup candle i m15 cfg factor entry_price sl_price sl_points total_lot =
      let tp1_lot = d.maximum (dec 1 2) (cents (total_lot ⊗ cfg.tp1_partial_fraction)) in
      let runner_lot = d.maximum (dec 1 2) (cents (total_lot ⊖ tp1_lot)) in
      let side = setup.direction in
      either (Enters side) (num 0 ⊲ cfg.tp1_partial_fraction)
        (either (Enters side)
          ((total_lot ⊲ dec 2 2) || (tp1_lot ⊲ dec 1 2) || (runner_lot ⊲ dec 1 2))
          (keep-Enters side)
          (enter-Enters side _ record { few = omega arith; on_side = (refl, (refl, tt)) }))
        (either (Enters side) (total_lot ⊲ dec 1 2) (keep-Enters side)
          (enter-Enters side _ record { few = omega arith; on_side = (refl, tt) }))

  -- An entry is one position or two on the side of the setup, and no open position was on it.
  abbrev pub IsEntry :
      List (SimulatedPosition W) → PendingSetup W → List (SimulatedPosition W) → Type 0
  IsEntry ps setup legs =
      (any (λ (p : SimulatedPosition W). same_side p.side setup.direction) ps ≡ false)
      × IsLegs setup.direction legs

  pub judge-IsEntry :
      (candle : BacktestCandle W) (i : ℕ) (spread : W) (m15 : IndicatorState W)
      (instrument : InstrumentConfig W) (cfg : SmcPairConfig W) (risk : RiskManager W)
      (ps legs : List (SimulatedPosition W)) (setup : PendingSetup W)
      → judge candle i spread m15 instrument cfg risk ps setup ≡ enter legs
      → IsEntry ps setup legs
  unfolding judge
  judge-IsEntry candle i spread m15 instrument cfg risk ps legs setup h =
      let m15_atr = number_of (get_elem? m15.atr14 i) in
      let sl_buffer = or_else m15_atr setup.sweep_candle_atr ⊗ cfg.sl_buffer_atr_m15 in
      let entry_price = entry_price_of setup.direction candle spread in
      let sl_price = sl_price_of setup sl_buffer in
      let sl_points = d.abs (entry_price ⊖ sl_price) in
      let total_lot =
        calculate_lot_size risk sl_points (some (num 60)) (some weak_trend) (some (num 50))
          (some entry_price) in
      let legs_here =
        legs_of setup candle i m15 cfg (num (10 ^ instrument.price_precision)) entry_price sl_price
          sl_points total_lot in
      let rest : Verdict W =
        if sl_points ⊴ num 0
        then discard
        else if is_too_wide cfg m15_atr sl_points
        then discard
        else legs_here in
      let enters : Enters setup.direction rest =
        either (Enters setup.direction) (sl_points ⊴ num 0) (discard-Enters setup.direction) (
          either (Enters setup.direction) (is_too_wide cfg m15_atr sl_points)
            (discard-Enters setup.direction)
            (legs_of-Enters setup candle i m15 cfg _ entry_price sl_price sl_points total_lot)) in
      after (any (λ (p : SimulatedPosition W). same_side p.side setup.direction) ps) rest enters h
    where
      after :
          (blocked : Bool) (rest : Verdict W)
          → Enters setup.direction rest
          → (if blocked then keep else rest) ≡ enter legs
          → (blocked ≡ false) × IsLegs setup.direction legs
      after true rest e h = absurd (ground arith)
      after false rest e h = (refl, e legs h)

  -- The legs that the loop opens are those of one of the setups.
  pub enter_first-some :
      (verdict : PendingSetup W → Verdict W) (setups : List (PendingSetup W))
      (legs : List (SimulatedPosition W))
      → (enter_first verdict setups).0 ≡ some legs
      → (setup : PendingSetup W) × (verdict setup ≡ enter legs)
  unfolding enter_first
  enter_first-some verdict [] legs h = absurd (ground arith)
  enter_first-some verdict (setup ∷ later) legs h =
      elim (Option-cases (enter_first verdict later).0) [
        | inr (first, found) ↦
            let r = enter_first-some verdict later first found in
            let same : first ≡ legs = ground arith in
            (r.0, subst (λ l. verdict r.0 ≡ enter l) same r.1)
        | inl nothing ↦ (setup, decided (verdict setup) (ground arith))
      ]
    where
      decided :
          (v : Verdict W)
          → (after_verdict setup v (enter_first verdict later).1).0 ≡ some legs
          → v ≡ enter legs
      decided keep h = absurd (ground arith)
      decided discard h = absurd (ground arith)
      decided (enter these) h = ground arith
