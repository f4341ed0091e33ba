-- ===== src/Orchestrator/Evaluate.antt =====
-- `LiveSmcOrchestrator.evaluate`: the gates of a bar, the loop over the pending setups, and the whole
-- method. It returns the orchestrator that it leaves and what it answers.
pub mod Fired
use shamarx_app.Prelude.{
  ℕ, suc, ◌-◌, ◌/◌, Bool, true, false, not, ◌||◌, Option, none, some, List, [], ◌∷◌, String, ltb,
  ◌==◌, any, get_elem?, length, or_else, if◌then◌else◌, ◌>>=◌,
}
use shamarx_app.Double.{Double}
use shamarx_app.Calendar.{date_of, weekday}
use shamarx_app.Engine.{BacktestCandle}
use shamarx_app.Engine.Instrument.{InstrumentConfig, get_instrument_config}
use shamarx_app.Risk.{RiskManager}
use shamarx_app.Risk.Guards.{can_trade}
use shamarx_app.Smc.{IndicatorState, PendingSetup, SmcPairConfig}
use shamarx_app.Smc.Pairs.{get_smc_pair_config}
use shamarx_app.Smc.Engine.{in_killzone, is_blacked_out}
use shamarx_app.Broker.{SmcLiveSignal}
use shamarx_app.Orchestrator.{
  OrchestratorState, Orchestrator, LiveContext, PrecomputedIndicators, Cursor, Surroundings,
  get_or_create_state, put,
}
use shamarx_app.Orchestrator.Detect.{
  View, indicators_of, d1_indicators_of, live_adx, live_bias, detect_sweeps, expire_setups,
}
use shamarx_app.Orchestrator.Signal.{Verdict, keep, discard, fire, fail, judge}

-- An exception, `null`, or a signal.
pub data Outcome (W : Type 0) : Type 0 where
  thrown : Outcome W
  silent : Outcome W
  fired : SmcLiveSignal W → Outcome W

-- The arguments of an evaluation.
pub record Bars (W : Type 0) : Type 0 where
  pub m15_candles : List (BacktestCandle W)
  pub h1_candles : List (BacktestCandle W)
  pub d1_candles : List (BacktestCandle W)
  pub precomputed : Option (PrecomputedIndicators W)
  pub cursor : Option Cursor

module _ {W : Type 0} ⦃d : Double W⦄ where
  abbrev pub after_verdict :
      PendingSetup W → Verdict W → List (PendingSetup W) → Outcome W × List (PendingSetup W)
  after_verdict setup keep kept = (silent, setup ∷ kept)
  after_verdict setup discard kept = (silent, kept)
  after_verdict setup (fire signal) kept = (fired signal, setup ∷ kept)
  after_verdict setup fail kept = (thrown, setup ∷ kept)

  -- The loop from the last setup down to the first that fires or throws, and the setups it leaves.
  unfoldable pub fire_first :
      (PendingSetup W → Verdict W) → List (PendingSetup W) → Outcome W × List (PendingSetup W)
  fire_first verdict [] = (silent, [])
  fire_first verdict (setup ∷ later) =
      let r = fire_first verdict later in
      elim r.0 [
        | silent ↦ after_verdict setup (verdict setup) r.1
        | thrown ↦ (thrown, setup ∷ r.1)
        | fired signal ↦ (fired signal, setup ∷ r.1)
      ]

  -- The weekday is one on which the pair does not enter.
  abbrev pub is_skipped_day : SmcPairConfig W → ℕ → Bool
  is_skipped_day cfg time = any (λ w. w == weekday (date_of time)) (or_else cfg.skip_entry_dows [])

  unfoldable pub try_to_fire :
      Surroundings W
      → View W
      → LiveContext W
      → OrchestratorState W
      → OrchestratorState W × Outcome W
  try_to_fire env v ctx s =
      let r = fire_first (judge env v ctx s.actioned_sweeps) s.pending in
      (record s { pending = r.1 }, r.0)

  -- Parts 3 and 4: the gates, then the pending setups.
  unfoldable pub gate_and_fire :
      Surroundings W
      → View W
      → LiveContext W
      → OrchestratorState W
      → OrchestratorState W × Outcome W
  gate_and_fire env v ctx s =
      let time = v.last_m15.open_time in
      let asked = can_trade s.risk_manager time ctx.total_open_positions in
      let allowed = record s { risk_manager = asked.0 } in
      if ltb 0 s.cooldown_bars_remaining
      then (record s { cooldown_bars_remaining = s.cooldown_bars_remaining - 1 }, silent)
      else if is_blacked_out v.cfg time
      then (s, silent)
      else if not (in_killzone time v.cfg.killzones)
      then (s, silent)
      else if is_skipped_day v.cfg time
      then (s, silent)
      else if not asked.1
      then (allowed, silent)
      else try_to_fire env v ctx allowed

  -- The body of `evaluate`, on the state of the symbol.
  unfoldable pub run_bar :
      Surroundings W
      → View W
      → LiveContext W
      → OrchestratorState W
      → OrchestratorState W × Outcome W
  run_bar env v ctx s = gate_and_fire env v ctx (expire_setups v (detect_sweeps v s))

  abbrev lengths_of : Bars W → Cursor
  lengths_of b = elim b.cursor [
    | some c ↦ c
    | none ↦ record {
      m15 = length b.m15_candles;
      h1 = length b.h1_candles;
      d1 = length b.d1_candles;
    }
  ]

  abbrev given_m15 : Option (PrecomputedIndicators W) → Option (IndicatorState W)
  given_m15 none = none
  given_m15 (some p) = some p.m15

  abbrev given_h1 : Option (PrecomputedIndicators W) → Option (IndicatorState W)
  given_h1 none = none
  given_h1 (some p) = some p.h1

  -- What the evaluation reads; none where reading it throws.
  unfoldable pub view_of :
      Surroundings W → String → Bars W → SmcPairConfig W → InstrumentConfig W → Option (View W)
  view_of env symbol b cfg instrument = do
    let len = lengths_of b
    last_m15 ← get_elem? b.m15_candles (len.m15 - 1)
    m15 ← indicators_of env.indicators (given_m15 b.precomputed) b.m15_candles
    h1 ← indicators_of env.indicators (given_h1 b.precomputed) b.h1_candles
    d1 ← d1_indicators_of env.indicators b.precomputed b.d1_candles
    some record {
      symbol = symbol;
      cfg = cfg;
      instrument = instrument;
      m15_candles = b.m15_candles;
      h1_candles = b.h1_candles;
      d1_candles = b.d1_candles;
      m15_indicators = m15;
      h1_indicators = h1;
      d1_indicators = d1;
      m15_len = len.m15;
      h1_len = len.h1;
      last_m15 = last_m15;
      live_d1_bias = live_bias b.d1_candles d1 last_m15.open_time;
      live_d1_adx = live_adx d1 len.d1;
    }

  -- The evaluation of a view in the state of its symbol.
  unfoldable pub evaluate_view :
      Surroundings W
      → Orchestrator W
      → String
      → OrchestratorState W
      → LiveContext W
      → Option (View W)
      → Orchestrator W × Outcome W
  evaluate_view env o symbol s ctx none = (o, thrown)
  evaluate_view env o symbol s ctx (some v) = let r = run_bar env v ctx s in (put o symbol r.0, r.1)

  -- The evaluation of a known symbol.
  unfoldable pub evaluate_pair :
      Surroundings W
      → Orchestrator W
      → String
      → Bars W
      → LiveContext W
      → SmcPairConfig W
      → InstrumentConfig W
      → Orchestrator W × Outcome W
  evaluate_pair env o symbol b ctx cfg instrument = elim (get_or_create_state o symbol) [
    | none ↦ (o, thrown)
    | some (found, s) ↦ evaluate_view env found symbol s ctx (view_of env symbol b cfg instrument)
  ]

  -- The evaluation once there are enough bars.
  unfoldable pub evaluate_bars :
      Surroundings W → Orchestrator W → String → Bars W → LiveContext W → Orchestrator W × Outcome W
  evaluate_bars env o symbol b ctx = elim (get_smc_pair_config env.overrides symbol) [
    | none ↦ (o, thrown)
    | some cfg ↦ elim (get_instrument_config symbol) [
      | none ↦ (o, thrown)
      | some instrument ↦ evaluate_pair env o symbol b ctx cfg instrument
    ]
  ]

  unfoldable pub evaluate :
      Surroundings W → Orchestrator W → String → Bars W → LiveContext W → Orchestrator W × Outcome W
  evaluate env o symbol b ctx =
      let len = lengths_of b in
      if ltb len.m15 30 || ltb len.h1 30 then (o, silent) else evaluate_bars env o symbol b ctx
