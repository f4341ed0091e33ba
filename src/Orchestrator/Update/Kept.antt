-- ===== src/Orchestrator/Update/Kept.antt =====
-- Each operation is an update, and what an update keeps.
use shamarx_app.Prelude.{
  ℕ, ◌≡◌, refl, sym, ap, ◌∙◌, subst, inl, inr, true, Option, none, some, [], String, Option-cases,
  either, arith, lookup-AllEntries, insert-AllEntries, insert-IsDistinct,
}
use shamarx_app.Double.{Double}
use shamarx_app.Engine.Instrument.{InstrumentConfig, get_instrument_config}
use shamarx_app.Smc.{SmcPairConfig}
use shamarx_app.Smc.Pairs.{get_smc_pair_config}
use shamarx_app.Broker.{SmcLiveSignal}
use shamarx_app.Orchestrator.{
  OrchestratorState, Orchestrator, LiveContext, Surroundings, OrchestratorExit, RiskCfg, has, put,
  commit, settle, get_or_create_state, build_risk_manager, risk_config, record_entry, record_exit,
}
use shamarx_app.Orchestrator.Sets.{IsSetList, add-keeps, add-IsSetList}
use shamarx_app.Orchestrator.Actioned.{
  is_actioned, updated-keeps, found-keeps, get_or_create_state-cases,
}
use shamarx_app.Orchestrator.Detect.{View}
use shamarx_app.Orchestrator.Evaluate.{
  Outcome, Bars, run_bar, view_of, evaluate_view, evaluate_pair, evaluate_bars, evaluate,
}
use shamarx_app.Orchestrator.Store.Roundtrip.{IsKept, IsBuilt}
use shamarx_app.Orchestrator.Update.{
  IsNext, Update, unchanged, found, mutated, run_bar-IsNext, commit-IsNext, settle-IsNext,
}

module _ {W : Type 0} ⦃d : Double W⦄ where
  evaluate_view-Update :
      (env : Surroundings W) (o between : Orchestrator W) (symbol : String)
      (s : OrchestratorState W) (ctx : LiveContext W) (v : Option (View W))
      → get_or_create_state o symbol ≡ some (between, s)
      → Update o (evaluate_view env between symbol s ctx v).0
  unfolding evaluate_view
  evaluate_view-Update env o between symbol s ctx none at = found symbol s at
  evaluate_view-Update env o between symbol s ctx (some v) at =
      mutated symbol between s (run_bar env v ctx s).0 at (run_bar-IsNext env v ctx s) refl

  evaluate_pair-Update :
      (env : Surroundings W) (o : Orchestrator W) (symbol : String) (b : Bars W)
      (ctx : LiveContext W) (cfg : SmcPairConfig W) (instrument : InstrumentConfig W)
      → Update o (evaluate_pair env o symbol b ctx cfg instrument).0
  unfolding evaluate_pair
  evaluate_pair-Update env o symbol b ctx cfg instrument =
      elim (Option-cases (get_or_create_state o symbol)) [
        | inl failed ↦ unchanged (ground (arith, failed))
        | inr ((between, s), at) ↦
            let v = view_of env symbol b cfg instrument in
            let e : evaluate_pair env o symbol b ctx cfg instrument
                ≡ evaluate_view env between symbol s ctx v =
              ground (arith, at) in
            subst (λ (r : Orchestrator W × Outcome W). Update o r.0) (sym e)
              (evaluate_view-Update env o between symbol s ctx v at)
      ]

  evaluate_bars-Update :
      (env : Surroundings W) (o : Orchestrator W) (symbol : String) (b : Bars W)
      (ctx : LiveContext W)
      → Update o (evaluate_bars env o symbol b ctx).0
  unfolding evaluate_bars
  evaluate_bars-Update env o symbol b ctx =
      elim (Option-cases (get_smc_pair_config env.overrides symbol)) [
        | inl unknown ↦ unchanged (ground (arith, unknown))
        | inr (cfg, known) ↦ elim (Option-cases (get_instrument_config {W = W} symbol)) [
          | inl unlisted ↦ unchanged (ground (arith, known, unlisted))
          | inr (instrument, listed) ↦
              let e : evaluate_bars env o symbol b ctx
                  ≡ evaluate_pair env o symbol b ctx cfg instrument =
                ground (arith, known, listed) in
              subst (λ (r : Orchestrator W × Outcome W). Update o r.0) (sym e)
                (evaluate_pair-Update env o symbol b ctx cfg instrument)
        ]
      ]

  pub evaluate-Update :
      (env : Surroundings W) (o : Orchestrator W) (symbol : String) (b : Bars W)
      (ctx : LiveContext W)
      → Update o (evaluate env o symbol b ctx).0
  unfolding evaluate
  evaluate-Update env o symbol b ctx =
      either (λ (r : Orchestrator W × Outcome W). Update o r.0) _ (unchanged refl)
        (evaluate_bars-Update env o symbol b ctx)

  pub record_entry-Update :
      (o after : Orchestrator W) (symbol : String) (signal : SmcLiveSignal W)
      → record_entry o symbol signal ≡ some after
      → Update o after
  unfolding record_entry
  record_entry-Update o after symbol signal h = elim (Option-cases (get_or_create_state o symbol)) [
    | inl failed ↦ absurd (ground (arith, failed))
    | inr ((between, s), at) ↦
        mutated symbol between s (commit signal s) at (commit-IsNext signal s) (ground (arith, at))
  ]

  pub record_exit-Update :
      (env : Surroundings W) (o after : Orchestrator W) (symbol : String)
      (exit_reason : OrchestratorExit) (exit_time : ℕ) (pnl : Option W)
      → record_exit env o symbol exit_reason exit_time pnl ≡ some after
      → Update o after
  unfolding record_exit
  record_exit-Update env o after symbol exit_reason exit_time pnl h =
      elim (Option-cases (get_or_create_state o symbol)) [
        | inl failed ↦ absurd (ground (arith, failed))
        | inr ((between, s), at) ↦ elim (Option-cases (get_smc_pair_config env.overrides symbol)) [
          | inl unknown ↦ absurd (ground (arith, at, unknown))
          | inr (cfg, known) ↦
              mutated symbol between s (settle cfg exit_reason exit_time pnl s) at
                (settle-IsNext cfg exit_reason exit_time pnl s) (ground (arith, at, known))
        ]
      ]

  next-has :
      (s next : OrchestratorState W) (sweep : ℕ)
      → IsNext s next
      → has s.actioned_sweeps sweep ≡ true
      → has next.actioned_sweeps sweep ≡ true
  next-has s next sweep n h = elim n.sweeps [
    | inl same ↦ subst (λ l. has l sweep ≡ true) (sym same) h
    | inr (new, more) ↦
        subst (λ l. has l sweep ≡ true) (sym more) (add-keeps s.actioned_sweeps new sweep h)
  ]

  -- An update takes no traded sweep back.
  pub Update-is_actioned :
      (o after : Orchestrator W) (symbol : String) (sweep : ℕ)
      → Update o after
      → is_actioned o symbol sweep ≡ true
      → is_actioned after symbol sweep ≡ true
  Update-is_actioned o after symbol sweep (unchanged same) h =
      subst (λ x. is_actioned x symbol sweep ≡ true) (sym same) h
  Update-is_actioned o after symbol sweep (found other s at) h =
      found-keeps o after other symbol s sweep at h
  Update-is_actioned o after symbol sweep (mutated other between s next at n same) h =
      subst (λ x. is_actioned x symbol sweep ≡ true) (sym same)
        (updated-keeps o between other symbol s next sweep at (next-has s next sweep n) h)

  next-IsBuilt :
      (defaults : RiskCfg W) (symbol : String) (s next : OrchestratorState W)
      → IsNext s next
      → IsBuilt defaults symbol s
      → IsBuilt defaults symbol next
  next-IsBuilt defaults symbol s next n b = record {
    new = b.new;
    built = b.built;
    same_config = b.same_config ∙ sym n.make.0;
    same_units = b.same_units ∙ sym n.make.1;
    no_repeats = elim n.sweeps [
      | inl same ↦ subst (λ l. IsSetList [] l) (sym same) b.no_repeats
      | inr (new, more) ↦
          subst (λ l. IsSetList [] l) (sym more) (add-IsSetList s.actioned_sweeps new b.no_repeats)
    ];
  }

  put-IsKept :
      (o : Orchestrator W) (symbol : String) (s : OrchestratorState W)
      → IsBuilt o.default_risk_cfg symbol s
      → IsKept o
      → IsKept (put o symbol s)
  put-IsKept o symbol s b kept = record {
    distinct = insert-IsDistinct symbol s o.states kept.distinct;
    all_built = insert-AllEntries (IsBuilt o.default_risk_cfg) symbol s o.states b kept.all_built;
  }

  -- The orchestrator with the state that is found or created, and that state, are kept and built.
  pub record IsFound (o between : Orchestrator W) (symbol : String) (s : OrchestratorState W)
      : Type 0 where
    pub same_defaults : between.default_risk_cfg ≡ o.default_risk_cfg
    pub kept : IsKept between
    pub built : IsBuilt between.default_risk_cfg symbol s

  get_or_create_state-IsFound :
      (o between : Orchestrator W) (symbol : String) (s : OrchestratorState W)
      → get_or_create_state o symbol ≡ some (between, s)
      → IsKept o
      → IsFound o between symbol s
  unfolding build_risk_manager risk_config
  get_or_create_state-IsFound o between symbol s at kept =
      elim (get_or_create_state-cases o between symbol s at) [
        | inl (same, e) ↦
            subst (λ x. IsFound o x symbol s) (sym same)
              record {
                same_defaults = refl;
                kept = kept;
                built =
                    lookup-AllEntries (IsBuilt o.default_risk_cfg) symbol s o.states kept.all_built
                      e;
              }
        | inr (same, unknown, none_yet, built) ↦
            let b : IsBuilt o.default_risk_cfg symbol s = record {
              new = s.risk_manager;
              built = built;
              same_config = refl;
              same_units = refl;
              no_repeats = subst (λ l. IsSetList [] l) (sym none_yet) tt;
            } in
            subst (λ x. IsFound o x symbol s) (sym same)
              record { same_defaults = refl; kept = put-IsKept o symbol s b kept; built = b }
      ]

  -- An update keeps the invariant and the defaults.
  pub Update-IsKept :
      (o after : Orchestrator W)
      → Update o after
      → IsKept o
      → (after.default_risk_cfg ≡ o.default_risk_cfg) × IsKept after
  Update-IsKept o after (unchanged same) kept =
      (ap (λ x. x.default_risk_cfg) same, subst IsKept (sym same) kept)
  Update-IsKept o after (found symbol s at) kept =
      let f = get_or_create_state-IsFound o after symbol s at kept in (f.same_defaults, f.kept)
  Update-IsKept o after (mutated symbol between s next at n same) kept =
      let f = get_or_create_state-IsFound o between symbol s at kept in
      (
        ap (λ x. x.default_risk_cfg) same ∙ f.same_defaults,
        subst IsKept (sym same) (
            put-IsKept between symbol next
              (next-IsBuilt between.default_risk_cfg symbol s next n f.built) f.kept),
      )
