-- ===== src/Orchestrator/Detect.antt =====
-- What `LiveSmcOrchestrator.evaluate` reads of the market at the close of an M15 bar (`View`), and its
-- first two parts: the detection of sweeps on each H1 bar that has not been processed and is followed
-- by a closed bar, and the expiry of setups.
pub mod Catchup
use shamarx_app.Prelude.{
  ℕ, zero, suc, ◌+◌, ◌-◌, Bool, true, false, not, ◌&&◌, Option, none, some, List, [], ◌∷◌, ◌++◌,
  String, ltb, leb, ◌==◌, if◌then◌else◌, any, filter, get_elem?, length, or_else,
}
use shamarx_app.Double.{Double, ◌⊴◌, num, truthy}
use shamarx_app.Engine.{BacktestCandle}
use shamarx_app.Engine.Instrument.{InstrumentConfig}
use shamarx_app.Indicators.{TechnicalIndicators, compute_indicators, get_d1_bias}
use shamarx_app.Smc.{
  SmcMode, reversal, continuation, D1Bias, neutral, IndicatorState, PendingSetup, SmcPairConfig,
}
use shamarx_app.Smc.Sweep.{D1Context, detect_sweep}
use shamarx_app.Smc.Engine.{same_mode}
use shamarx_app.Orchestrator.{OrchestratorState, PrecomputedIndicators, has}

-- The locals of `evaluate` up to the first part, with its arguments.
pub record View (W : Type 0) : Type 0 where
  pub symbol : String
  pub cfg : SmcPairConfig W
  pub instrument : InstrumentConfig W
  pub m15_candles : List (BacktestCandle W)
  pub h1_candles : List (BacktestCandle W)
  pub d1_candles : List (BacktestCandle W)
  pub m15_indicators : IndicatorState W
  pub h1_indicators : IndicatorState W
  pub d1_indicators : Option (IndicatorState W)
  pub m15_len : ℕ
  pub h1_len : ℕ
  pub last_m15 : BacktestCandle W
  pub live_d1_bias : D1Bias
  pub live_d1_adx : W

abbrev pub is_continuation : SmcMode → Bool
is_continuation continuation = true
is_continuation reversal = false

abbrev pub is_processed : Option ℕ → ℕ → Bool
is_processed none time = false
is_processed (some last) time = last == time

module _ {W : Type 0} ⦃d : Double W⦄ where
  -- Given indicators are taken, and else they are computed.
  unfoldable pub indicators_of :
      TechnicalIndicators W
      → Option (IndicatorState W)
      → List (BacktestCandle W)
      → Option (IndicatorState W)
  indicators_of lib none candles = compute_indicators lib candles
  indicators_of lib (some given) candles = some given

  abbrev computed_d1 :
      TechnicalIndicators W → List (BacktestCandle W) → Option (Option (IndicatorState W))
  computed_d1 lib candles = elim (compute_indicators lib candles) [
    | none ↦ none
    | some s ↦ some (some s)
  ]

  unfoldable pub d1_indicators_of :
      TechnicalIndicators W
      → Option (PrecomputedIndicators W)
      → List (BacktestCandle W)
      → Option (Option (IndicatorState W))
  d1_indicators_of lib (some precomputed) candles = some precomputed.d1
  d1_indicators_of lib none candles =
      if ltb 30 (length candles) then computed_d1 lib candles else some none

  -- `d1Indicators.adx14[d1Len - 1] || 0`: no value, zero and NaN give zero.
  unfoldable pub live_adx : Option (IndicatorState W) → ℕ → W
  live_adx none d1_len = num 0
  live_adx (some s) zero = num 0
  live_adx (some s) (suc last) = elim (get_elem? s.adx14 last) [
    | none ↦ num 0
    | some adx ↦ if truthy adx then adx else num 0
  ]

  unfoldable pub live_bias : List (BacktestCandle W) → Option (IndicatorState W) → ℕ → D1Bias
  live_bias d1_candles none time = neutral
  live_bias d1_candles (some s) time = get_d1_bias d1_candles s time

  -- The loop of `findH1IdxAfter` over the `n` indices from `i` on, all of which are in range.
  unfoldable pub first_after : List (BacktestCandle W) → ℕ → ℕ → ℕ → Option ℕ
  first_after h1_candles after i zero = none
  first_after h1_candles after i (suc n) =
      let rest = first_after h1_candles after (suc i) n in
      elim (get_elem? h1_candles i) [
        | none ↦ rest
        | some c ↦ if ltb after c.open_time then some i else rest
      ]

  unfoldable pub find_h1_idx_after : List (BacktestCandle W) → ℕ → ℕ → ℕ
  find_h1_idx_after h1_candles after max_idx =
      or_else (first_after h1_candles after 0 (suc max_idx)) max_idx

  -- The tests on a setup that has been detected.
  unfoldable pub is_wanted : View W → List ℕ → PendingSetup W → Bool
  is_wanted v actioned setup =
      not (any (same_mode setup.mode) (or_else v.cfg.disabled_modes []))
      && not (has actioned setup.sweep_time)
      && not (is_continuation setup.mode && or_else v.cfg.disable_continuation false)

  -- `detectSweep` on the bar `idx`, under the floor of the ADX.
  unfoldable pub sweep_at : View W → ℕ → Option (PendingSetup W)
  sweep_at v idx =
      let ctx : D1Context W = record {
        candles = some v.d1_candles;
        indicators = v.d1_indicators;
        current_time = some v.last_m15.open_time;
      } in
      if v.cfg.d1_adx_floor ⊴ v.live_d1_adx
      then detect_sweep v.h1_candles v.h1_indicators idx v.live_d1_bias v.live_d1_adx v.cfg ctx
      else none

  -- The setup of a bar, in a list that is empty where there is none.
  unfoldable pub setup_at : View W → List ℕ → ℕ → List (PendingSetup W)
  setup_at v actioned idx = elim (sweep_at v idx) [
    | none ↦ []
    | some setup ↦ if is_wanted v actioned setup then setup ∷ [] else []
  ]

  -- The catch-up loop over the `n` bars from `idx` on.
  unfoldable pub setups_from : View W → List ℕ → ℕ → ℕ → List (PendingSetup W)
  setups_from v actioned idx zero = []
  setups_from v actioned idx (suc n) = setup_at v actioned idx ++ setups_from v actioned (suc idx) n

  -- The first bar of the catch-up that ends at `last`.
  unfoldable pub first_unprocessed : View W → Option ℕ → ℕ → ℕ
  first_unprocessed v none last = last
  first_unprocessed v (some time) last = find_h1_idx_after v.h1_candles time last

  -- Part 1: the last bar is not used, since the detection asks for the bar that follows.
  unfoldable pub detect_sweeps : View W → OrchestratorState W → OrchestratorState W
  detect_sweeps v s =
      let last = v.h1_len - 2 in
      let first = first_unprocessed v s.last_processed_h1_time last in
      elim (get_elem? v.h1_candles last) [
        | none ↦ s
        | some bar ↦ if is_processed s.last_processed_h1_time bar.open_time then s else record s {
          pending = s.pending ++ setups_from v s.actioned_sweeps first (suc last - first);
          last_processed_h1_time = some bar.open_time;
        }
      ]

  -- Part 2.
  unfoldable pub expire_setups : View W → OrchestratorState W → OrchestratorState W
  expire_setups v s = record s {
    pending = filter (λ (p : PendingSetup W). leb (v.h1_len - 1) p.expires_at_h1_idx) s.pending;
  }
