-- ===== src/Orchestrator/Update.antt =====
-- What the operations on an orchestrator have in common: they find or create the state of a symbol
-- and mutate it, and neither takes a traded sweep back nor changes what the risk manager was made of.
pub mod Kept
use shamarx_app.Prelude.{
  ℕ, ◌≡◌, refl, sym, ap, ◌∙◌, subst, ◌⊎◌, inl, inr, Bool, true, false, Option, none, some, String,
  Option-cases, Bool-cases, arith, insert, lookup, lookup-AllEntries, insert-AllEntries,
  insert-IsDistinct, lookup-insert, ◌>>=◌, ◌||◌, if◌then◌else◌,
}
use shamarx_app.Double.{Double}
use shamarx_app.Engine.Instrument.{InstrumentConfig, get_instrument_config}
use shamarx_app.Risk.{RiskManager}
use shamarx_app.Risk.Guards.{can_trade}
use shamarx_app.Risk.Guards.Clear.{refreshed}
use shamarx_app.Risk.Guards.Scope.{IsRepaused, can_trade_frame}
use shamarx_app.Risk.Record.Booked.{refreshed-IsSameLedger, record_trade-config}
use shamarx_app.Smc.{SmcPairConfig}
use shamarx_app.Smc.Pairs.{get_smc_pair_config}
use shamarx_app.Broker.{SmcLiveSignal}
use shamarx_app.Orchestrator.{
  OrchestratorState, Orchestrator, LiveContext, Surroundings, OrchestratorExit, RiskCfg, has, add,
  put, commit, settle, get_or_create_state, build_risk_manager, risk_config, record_entry,
  record_exit,
}
use shamarx_app.Orchestrator.Sets.{IsSetList, add-has, add-keeps, add-IsSetList}
use shamarx_app.Orchestrator.Actioned.{
  is_actioned, updated-keeps, found-keeps, get_or_create_state-cases,
}
use shamarx_app.Orchestrator.Detect.{View, detect_sweeps, expire_setups}
use shamarx_app.Orchestrator.Evaluate.{
  Outcome, Bars, try_to_fire, gate_and_fire, run_bar, view_of, evaluate_view, evaluate_pair,
  evaluate,
}
use shamarx_app.Orchestrator.Evaluate.Fired.{run_bar-actioned}
use shamarx_app.Orchestrator.Store.Roundtrip.{IsKept, IsBuilt}

module _ {W : Type 0} ⦃d : Double W⦄ where
  -- The manager `q` was made of the same as `m`.
  abbrev pub IsSameMake : RiskManager W → RiskManager W → Type 0
  IsSameMake m q = (q.config ≡ m.config) × (q.lot_size_units ≡ m.lot_size_units)

  can_trade-IsSameMake : (m : RiskManager W) (now n : ℕ) → IsSameMake m (can_trade m now n).0
  can_trade-IsSameMake m now n = elim (can_trade_frame m now n) [
    | inl (killed, same) ↦ (
      ap (λ (q : RiskManager W). q.config) same,
      ap (λ (q : RiskManager W). q.lot_size_units) same,
    )
    | inr (alive, frame) ↦
        let r = refreshed-IsSameLedger m now in
        (
          ap (λ (q : RiskManager W). q.config) frame ∙ r.config,
          ap (λ (q : RiskManager W). q.lot_size_units) frame ∙ r.lot_size_units,
        )
  ]

  -- A next state of a symbol: the same make, and the traded sweeps with at most one more.
  pub record IsNext (s next : OrchestratorState W) : Type 0 where
    pub make : IsSameMake s.risk_manager next.risk_manager
    pub sweeps :
        (next.actioned_sweeps ≡ s.actioned_sweeps)
        ⊎ ((sweep : ℕ) × (next.actioned_sweeps ≡ add s.actioned_sweeps sweep))

  gate_and_fire-make :
      (env : Surroundings W) (v : View W) (ctx : LiveContext W) (s : OrchestratorState W)
      → IsSameMake s.risk_manager (gate_and_fire env v ctx s).0.risk_manager
  unfolding gate_and_fire try_to_fire
  gate_and_fire-make env v ctx s =
      ground
        (arith, can_trade-IsSameMake s.risk_manager v.last_m15.open_time ctx.total_open_positions)

  detect_sweeps-manager :
      (v : View W) (s : OrchestratorState W) → (detect_sweeps v s).risk_manager ≡ s.risk_manager
  unfolding detect_sweeps
  detect_sweeps-manager v s = ground arith

  run_bar-IsNext :
      (env : Surroundings W) (v : View W) (ctx : LiveContext W) (s : OrchestratorState W)
      → IsNext s (run_bar env v ctx s).0
  unfolding run_bar expire_setups
  run_bar-IsNext env v ctx s = record {
    make =
        subst (λ m. IsSameMake m (run_bar env v ctx s).0.risk_manager) (detect_sweeps-manager v s)
          (gate_and_fire-make env v ctx (expire_setups v (detect_sweeps v s)));
    sweeps = inl (run_bar-actioned env v ctx s);
  }

  commit-IsNext : (signal : SmcLiveSignal W) (s : OrchestratorState W) → IsNext s (commit signal s)
  unfolding commit
  commit-IsNext signal s = record { make = (refl, refl); sweeps = inr (signal.h1_sweep_time, refl) }

  settle-IsNext :
      (cfg : SmcPairConfig W) (exit_reason : OrchestratorExit) (exit_time : ℕ) (pnl : Option W)
      (s : OrchestratorState W)
      → IsNext s (settle cfg exit_reason exit_time pnl s)
  unfolding settle
  settle-IsNext cfg exit_reason exit_time none s = record { make = (refl, refl); sweeps = inl refl }
  settle-IsNext cfg exit_reason exit_time (some pnl) s = record {
    make = record_trade-config s.risk_manager pnl exit_time _;
    sweeps = inl refl;
  }

  -- One operation on an orchestrator.
  pub data Update (o after : Orchestrator W) : Type 0 where
    unchanged : after ≡ o → Update o after
    found :
        (symbol : String) (s : OrchestratorState W)
        → get_or_create_state o symbol ≡ some (after, s)
        → Update o after
    mutated :
        (symbol : String) (between : Orchestrator W) (s next : OrchestratorState W)
        → get_or_create_state o symbol ≡ some (between, s)
        → IsNext s next
        → after ≡ put between symbol next
        → Update o after
