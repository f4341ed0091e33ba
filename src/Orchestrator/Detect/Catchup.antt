-- ===== src/Orchestrator/Detect/Catchup.antt =====
-- The detection after a pause: every H1 bar that closed meanwhile is examined, and examined once.
use shamarx_app.Prelude.{
  ℕ, ◌-◌, ◌≤◌, ◌<◌, ◌≡◌, Option, none, some, inl, inr, get_elem?, arith, Option-cases,
}
use shamarx_app.Double.{Double}
use shamarx_app.Engine.{BacktestCandle}
use shamarx_app.Orchestrator.{OrchestratorState}
use shamarx_app.Orchestrator.Detect.{View, detect_sweeps}

module _ {W : Type 0} ⦃d : Double W⦄ where
  -- The last H1 bar that the detection may use.
  abbrev pub last_usable : View W → ℕ
  last_usable v = v.h1_len - 2

  -- The bar `j` closed after the last one that was processed; without one, only the last bar counts.
  abbrev pub IsUnprocessed : View W → Option ℕ → ℕ → Type 0
  IsUnprocessed v none j = j ≡ last_usable v
  IsUnprocessed v (some time) j =
      (j ≤ last_usable v)
      × (bar : BacktestCandle W) × (get_elem? v.h1_candles j ≡ some bar)
      × (time < bar.open_time)

  -- A second detection with the same bars, at the next M15 closes of the hour, changes nothing.
  pub detect_sweeps_once :
      (v : View W) (s : OrchestratorState W)
      → detect_sweeps v (detect_sweeps v s) ≡ detect_sweeps v s
  unfolding detect_sweeps
  detect_sweeps_once v s = elim (Option-cases (get_elem? v.h1_candles (last_usable v))) [
    | inl nothing ↦ ground (arith, nothing)
    | inr (bar, at) ↦ ground (arith, at)
  ]
