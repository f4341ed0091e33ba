-- ===== src/Orchestrator/Store/Roundtrip.antt =====
-- What a restart gives back: `restore` of what `serialize` wrote.
use shamarx_app.Prelude.{
  ◌≡◌, refl, sym, ap, ◌∙◌, Bool, true, Option, none, some, List, [], ◌∷◌, map, String, arith, subst,
  lookup, insert, IsDistinct, AllEntries, lookup-AllEntries, insert-AllEntries, insert-IsDistinct,
}
use shamarx_app.Double.{Double}
use shamarx_app.Risk.{RiskManager}
use shamarx_app.Risk.Snapshot.{last_entries, restore-snapshot}
use shamarx_app.Smc.{PendingSetup}
use shamarx_app.Orchestrator.{
  OrchestratorState, Orchestrator, RiskCfg, fresh, risk_config, build_risk_manager,
}
use shamarx_app.Orchestrator.Sets.{IsSetList, foldl-add}
use shamarx_app.Orchestrator.Store.Entries.{serialized, found_after, restore_entries-lookup}
use shamarx_app.Orchestrator.Store.{
  stamped, serialize_state, serialize, stamped_setups, restore_state, restore_entries, restore,
}

module _ {W : Type 0} ⦃d : Double W⦄ where
  stamped_setups-map :
      (xs : List (PendingSetup W))
      → stamped_setups (map (λ (p : PendingSetup W). stamped p) xs) ≡ xs
  unfolding stamped_setups
  stamped_setups-map [] = refl
  stamped_setups-map (p ∷ xs) = ap (λ l. p ∷ l) (stamped_setups-map xs)

  -- The risk manager that a new state of the symbol has under the defaults.
  abbrev pub default_manager : RiskCfg W → String → Option (RiskManager W)
  default_manager defaults symbol =
      build_risk_manager record { states = []; default_risk_cfg = defaults } symbol

  -- The state of the symbol has a risk manager of the defaults, and a set of traded sweeps.
  pub record IsBuilt (defaults : RiskCfg W) (symbol : String) (s : OrchestratorState W)
      : Type 0 where
    pub new : RiskManager W
    pub built : default_manager defaults symbol ≡ some new
    pub same_config : new.config ≡ s.risk_manager.config
    pub same_units : new.lot_size_units ≡ s.risk_manager.lot_size_units
    pub no_repeats : IsSetList [] s.actioned_sweeps

  -- The state with the last 30 entries of the log of its risk manager.
  abbrev pub trimmed : OrchestratorState W → OrchestratorState W
  trimmed s = record s {
    risk_manager = record s.risk_manager { trade_log = last_entries s.risk_manager.trade_log };
  }

  restore_state-trimmed :
      (defaults : RiskCfg W) (symbol : String) (s : OrchestratorState W)
      (b : IsBuilt defaults symbol s)
      → restore_state b.new (serialize_state s) ≡ trimmed s
  unfolding restore_state serialize_state
  restore_state-trimmed defaults symbol s b = ground (
    arith,
    stamped_setups-map s.pending,
    foldl-add [] s.actioned_sweeps b.no_repeats,
    restore-snapshot b.new s.risk_manager b.same_config b.same_units,
  )

  -- Every symbol's state is built.
  abbrev pub AllBuilt : RiskCfg W → List (String × OrchestratorState W) → Type 0
  AllBuilt defaults m = AllEntries (IsBuilt defaults) m

  restore_entries-succeeds :
      (m : List (String × OrchestratorState W)) (o : Orchestrator W)
      → AllBuilt o.default_risk_cfg m
      → (restore_entries (serialized m) o).1 ≡ true
  unfolding restore_entries build_risk_manager risk_config
  restore_entries-succeeds [] o h = refl
  restore_entries-succeeds ((k, s) ∷ rest) o (b, h) =
      let st = restore_state b.new (serialize_state s) in
      let ih = restore_entries-succeeds rest (record o { states = insert k st o.states }) h in
      ground (arith, b.built, ih)

  -- The invariant of an orchestrator: one state for each symbol, and each of them built.
  pub record IsKept (o : Orchestrator W) : Type 0 where
    pub distinct : IsDistinct o.states
    pub all_built : AllBuilt o.default_risk_cfg o.states

  trimmed-IsBuilt :
      (defaults : RiskCfg W) (symbol : String) (s : OrchestratorState W)
      → IsBuilt defaults symbol s
      → IsBuilt defaults symbol (trimmed s)
  trimmed-IsBuilt defaults symbol s b = record {
    new = b.new;
    built = b.built;
    same_config = b.same_config;
    same_units = b.same_units;
    no_repeats = b.no_repeats;
  }

  restore_entries-IsKept :
      (m : List (String × OrchestratorState W)) (o : Orchestrator W)
      → AllBuilt o.default_risk_cfg m
      → IsKept o
      → IsKept (restore_entries (serialized m) o).0
  unfolding restore_entries build_risk_manager risk_config
  restore_entries-IsKept [] o h kept = kept
  restore_entries-IsKept ((k, s) ∷ rest) o (b, h) kept =
      let st = restore_state b.new (serialize_state s) in
      let o1 = record o { states = insert k st o.states } in
      let step : restore_entries (serialized ((k, s) ∷ rest)) o
          ≡ restore_entries (serialized rest) o1 =
        ground (arith, b.built) in
      let st_built : IsBuilt o.default_risk_cfg k st =
        subst (λ x. IsBuilt o.default_risk_cfg k x)
          (sym (restore_state-trimmed o.default_risk_cfg k s b))
          (trimmed-IsBuilt o.default_risk_cfg k s b) in
      subst (λ (r : Orchestrator W × Bool). IsKept r.0) (sym step)
        (restore_entries-IsKept rest o1 h record {
          distinct = insert-IsDistinct k st o.states kept.distinct;
          all_built =
              insert-AllEntries (IsBuilt o.default_risk_cfg) k st o.states st_built kept.all_built;
        })

  -- The state of a symbol after a restart, where it had one.
  abbrev pub trimmed_state : Option (OrchestratorState W) → Option (OrchestratorState W)
  trimmed_state none = none
  trimmed_state (some s) = some (trimmed s)

  found_after-trimmed :
      (o : Orchestrator W) (symbol : String) (m : List (String × OrchestratorState W))
      (e : Option (OrchestratorState W))
      → o.states ≡ []
      → AllBuilt o.default_risk_cfg m
      → lookup symbol m ≡ e
      → found_after o symbol e ≡ trimmed_state e
  unfolding lookup build_risk_manager risk_config
  found_after-trimmed o symbol m none empty h at = ground (arith, empty)
  found_after-trimmed o symbol m (some s) empty h at =
      let b = lookup-AllEntries (IsBuilt o.default_risk_cfg) symbol s m h at in
      ground (arith, b.built, restore_state-trimmed o.default_risk_cfg symbol s b)

  -- A restart under the same defaults restores everything: it does not throw, and each symbol has
  -- its state back, less the entries of the risk manager's log before the last 30.
  pub restore-serialize :
      (o before : Orchestrator W) (symbol : String)
      → o.default_risk_cfg ≡ before.default_risk_cfg
      → IsKept before
      → let after = restore o (serialize before) in
        (after.1 ≡ true)
        × (lookup symbol after.0.states ≡ trimmed_state (lookup symbol before.states))
  unfolding restore serialize
  restore-serialize o before symbol same kept =
      let empty = record o { states = [] } in
      let all : AllBuilt o.default_risk_cfg before.states =
        subst (λ c. AllBuilt c before.states) (sym same) kept.all_built in
      let went = restore_entries-succeeds before.states empty all in
      (
        went,
        restore_entries-lookup before.states empty symbol kept.distinct went
            ∙ found_after-trimmed empty symbol before.states (lookup symbol before.states) refl all
                refl,
      )

  -- A new orchestrator satisfies the invariant.
  pub fresh-IsKept : IsKept fresh
  unfolding fresh
  fresh-IsKept = record { distinct = tt; all_built = tt }

  -- A restart under the same defaults keeps the invariant.
  pub restore-IsKept :
      (o before : Orchestrator W)
      → o.default_risk_cfg ≡ before.default_risk_cfg
      → IsKept before
      → IsKept (restore o (serialize before)).0
  unfolding restore serialize
  restore-IsKept o before same kept =
      restore_entries-IsKept before.states (record o { states = [] })
        (subst (λ c. AllBuilt c before.states) (sym same) kept.all_built)
        record { distinct = tt; all_built = tt }
