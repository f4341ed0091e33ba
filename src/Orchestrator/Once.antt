-- ===== src/Orchestrator/Once.antt =====
-- The life of an orchestrator as a sequence of operations and restarts: over it the invariant holds,
-- and a sweep that has been traded is not traded again.
use shamarx_app.Prelude.{
  ℕ, ◌≡◌, ◌≢◌, sym, ◌∙◌, subst, true, false, Option, some, String, arith, inl, inr, Option-cases,
  lookup,
}
use mathlib.Core.Bool.{false≢true}
use shamarx_app.Double.{Double}
use shamarx_app.Broker.{SmcLiveSignal}
use shamarx_app.Orchestrator.{
  Orchestrator, LiveContext, Surroundings, OrchestratorExit, put, commit, get_or_create_state,
  record_entry, record_exit,
}
use shamarx_app.Orchestrator.Sets.{add-has}
use shamarx_app.Orchestrator.Actioned.{is_actioned, is_actioned-put, get_or_create_state-cases}
use shamarx_app.Orchestrator.Evaluate.{fired, Bars, evaluate}
use shamarx_app.Orchestrator.Evaluate.Fired.{IsFiredBy, evaluate-IsFiredBy}
use shamarx_app.Orchestrator.Store.{serialize, restore}
use shamarx_app.Orchestrator.Store.Roundtrip.{
  IsKept, restore-serialize, restore-IsKept, trimmed_state,
}
use shamarx_app.Orchestrator.Update.Kept.{
  evaluate-Update, record_entry-Update, record_exit-Update, Update-is_actioned, Update-IsKept,
}

module _ {W : Type 0} ⦃d : Double W⦄ where
  -- One step: an evaluation, a commit, an exit, or a restart of the process that restores the state as
  -- it stood, under the same defaults.
  pub data Step (env : Surroundings W) (o after : Orchestrator W) : Type 0 where
    evaluated :
        (symbol : String) (b : Bars W) (ctx : LiveContext W)
        → after ≡ (evaluate env o symbol b ctx).0
        → Step env o after
    entered :
        (symbol : String) (signal : SmcLiveSignal W)
        → record_entry o symbol signal ≡ some after
        → Step env o after
    exited :
        (symbol : String) (exit_reason : OrchestratorExit) (exit_time : ℕ) (pnl : Option W)
        → record_exit env o symbol exit_reason exit_time pnl ≡ some after
        → Step env o after
    restarted :
        (new : Orchestrator W)
        → new.default_risk_cfg ≡ o.default_risk_cfg
        → after ≡ (restore new (serialize o)).0
        → Step env o after

  pub data Reach (env : Surroundings W) (o : Orchestrator W) : Orchestrator W → Type 0 where
    here : Reach env o o
    next : {p q : Orchestrator W} → Reach env o p → Step env p q → Reach env o q

  Step-IsKept :
      (env : Surroundings W) (o after : Orchestrator W) → Step env o after → IsKept o → IsKept after
  Step-IsKept env o after (evaluated symbol b ctx same) kept =
      subst IsKept (sym same) (Update-IsKept o _ (evaluate-Update env o symbol b ctx) kept).1
  Step-IsKept env o after (entered symbol signal h) kept =
      (Update-IsKept o after (record_entry-Update o after symbol signal h) kept).1
  Step-IsKept env o after (exited symbol exit_reason exit_time pnl h) kept =
      (Update-IsKept o after (record_exit-Update env o after symbol exit_reason exit_time pnl h)
        kept).1
  Step-IsKept env o after (restarted new defaults same) kept =
      subst IsKept (sym same) (restore-IsKept new o defaults kept)

  pub Reach-IsKept :
      (env : Surroundings W) (o : Orchestrator W) {after : Orchestrator W}
      → Reach env o after
      → IsKept o
      → IsKept after
  Reach-IsKept env o here kept = kept
  Reach-IsKept env o (next {p = p} {q = q} r step) kept =
      Step-IsKept env p q step (Reach-IsKept env o r kept)

  -- A restart forgets no traded sweep.
  trimmed-is_actioned :
      (o before : Orchestrator W) (symbol : String) (sweep : ℕ)
      → lookup symbol o.states ≡ trimmed_state (lookup symbol before.states)
      → is_actioned o symbol sweep ≡ is_actioned before symbol sweep
  unfolding is_actioned
  trimmed-is_actioned o before symbol sweep h = elim (Option-cases (lookup symbol before.states)) [
    | inl nothing ↦ ground (arith, nothing, h)
    | inr (s, found) ↦ ground (arith, found, h)
  ]

  Step-is_actioned :
      (env : Surroundings W) (o after : Orchestrator W) (symbol : String) (sweep : ℕ)
      → Step env o after
      → IsKept o
      → is_actioned o symbol sweep ≡ true
      → is_actioned after symbol sweep ≡ true
  Step-is_actioned env o after symbol sweep (evaluated other b ctx same) kept h =
      subst (λ x. is_actioned x symbol sweep ≡ true) (sym same)
        (Update-is_actioned o _ symbol sweep (evaluate-Update env o other b ctx) h)
  Step-is_actioned env o after symbol sweep (entered other signal e) kept h =
      Update-is_actioned o after symbol sweep (record_entry-Update o after other signal e) h
  Step-is_actioned env o after symbol sweep (exited other exit_reason exit_time pnl e) kept h =
      Update-is_actioned o after symbol sweep
        (record_exit-Update env o after other exit_reason exit_time pnl e) h
  Step-is_actioned env o after symbol sweep (restarted new defaults same) kept h =
      subst (λ x. is_actioned x symbol sweep ≡ true) (sym same)
        (trimmed-is_actioned (restore new (serialize o)).0 o symbol sweep
            (restore-serialize new o symbol defaults kept).1
          ∙ h)

  Reach-is_actioned :
      (env : Surroundings W) (o : Orchestrator W) (symbol : String) (sweep : ℕ)
      {after : Orchestrator W}
      → Reach env o after
      → IsKept o
      → is_actioned o symbol sweep ≡ true
      → is_actioned after symbol sweep ≡ true
  Reach-is_actioned env o symbol sweep here kept h = h
  Reach-is_actioned env o symbol sweep (next {p = p} {q = q} r step) kept h =
      Step-is_actioned env p q symbol sweep step (Reach-IsKept env o r kept)
        (Reach-is_actioned env o symbol sweep r kept h)

  -- The commit marks the sweep of the signal.
  record_entry-is_actioned :
      (o after : Orchestrator W) (symbol : String) (signal : SmcLiveSignal W)
      → record_entry o symbol signal ≡ some after
      → is_actioned after symbol signal.h1_sweep_time ≡ true
  unfolding record_entry commit
  record_entry-is_actioned o after symbol signal h =
      elim (Option-cases (get_or_create_state o symbol)) [
        | inl failed ↦ absurd (ground (arith, failed))
        | inr ((between, s), at) ↦
            let e : after ≡ put between symbol (commit signal s) = ground (arith, at) in
            subst (λ x. is_actioned x symbol signal.h1_sweep_time ≡ true) (sym e)
              (is_actioned-put between symbol (commit signal s) signal.h1_sweep_time
                ∙ add-has s.actioned_sweeps signal.h1_sweep_time)
      ]

  -- A fired signal is of a sweep that has not been traded.
  fired-is_actioned :
      (env : Surroundings W) (o : Orchestrator W) (symbol : String) (b : Bars W)
      (ctx : LiveContext W) (signal : SmcLiveSignal W)
      → IsFiredBy env o symbol b ctx signal
      → is_actioned o symbol signal.h1_sweep_time ≡ false
  unfolding is_actioned
  fired-is_actioned env o symbol b ctx signal f =
      elim (get_or_create_state-cases o f.found symbol f.state f.of_symbol) [
        | inl (same, e) ↦ ground (arith, e, f.untraded)
        | inr (new, unknown, none_yet, built) ↦ ground (arith, unknown)
      ]

  -- Once a signal has been committed, no later evaluation of its symbol answers with a signal of the
  -- same sweep, after any evaluations, commits and exits, of any symbols, and any restarts that restore
  -- the state as it stood under the same defaults. The orchestrator is one that keeps the invariant.
  -- Resets by hand, changes of the defaults and the loss of unsaved state are not among the steps.
  pub sweep_fires_once :
      (env : Surroundings W) (o committed after : Orchestrator W) (symbol : String)
      (signal again : SmcLiveSignal W) (b : Bars W) (ctx : LiveContext W)
      → IsKept o
      → record_entry o symbol signal ≡ some committed
      → Reach env committed after
      → (evaluate env after symbol b ctx).1 ≡ fired again
      → again.h1_sweep_time ≢ signal.h1_sweep_time
  sweep_fires_once env o committed after symbol signal again b ctx kept commits r h same =
      let kept_after =
        (Update-IsKept o committed (record_entry-Update o committed symbol signal commits)
          kept).1 in
      let marked =
        Reach-is_actioned env committed symbol signal.h1_sweep_time r kept_after
          (record_entry-is_actioned o committed symbol signal commits) in
      let fresh =
        fired-is_actioned env after symbol b ctx again
          (evaluate-IsFiredBy env after symbol b ctx again h) in
      false≢true (sym (subst (λ t. is_actioned after symbol t ≡ false) same fresh) ∙ marked)
