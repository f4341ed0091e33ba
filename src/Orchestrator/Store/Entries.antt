-- ===== src/Orchestrator/Store/Entries.antt =====
-- What `restore` makes of each entry of what `serialize` wrote.
use shamarx_app.Prelude.{
  ◌≡◌, refl, ap, ◌∙◌, inl, inr, Bool, true, false, Option, none, some, List, [], ◌∷◌, map, String,
  ◌is◌, Option-cases, Bool-cases, arith, subst, lookup, insert, lookup-insert, lookup-insert_other,
  eq_iff, IsDistinct,
}
use shamarx_app.Double.{Double}
use shamarx_app.Orchestrator.{OrchestratorState, Orchestrator, risk_config, build_risk_manager}
use shamarx_app.Orchestrator.Store.{StoredState, serialize_state, restore_state, restore_entries}

module _ {W : Type 0} ⦃d : Double W⦄ where
  abbrev pub serialized : List (String × OrchestratorState W) → List (String × StoredState W)
  serialized = map λ (e : String × OrchestratorState W). (e.0, serialize_state e.1)

  -- What becomes of a state in a restart: its risk manager is built anew and restored.
  abbrev pub restarted :
      Orchestrator W → String → OrchestratorState W → Option (OrchestratorState W)
  restarted o symbol s = elim (build_risk_manager o symbol) [
    | none ↦ none
    | some m ↦ some (restore_state m (serialize_state s))
  ]

  abbrev pub found_after :
      Orchestrator W → String → Option (OrchestratorState W) → Option (OrchestratorState W)
  found_after o symbol none = lookup symbol o.states
  found_after o symbol (some s) = restarted o symbol s

  -- The states so far do not matter to a symbol that is still to come.
  found_after-put :
      (o : Orchestrator W) (k symbol : String) (st : OrchestratorState W)
      (e : Option (OrchestratorState W))
      → (k is symbol) ≡ false
      → found_after (record o { states = insert k st o.states }) symbol e ≡ found_after o symbol e
  unfolding build_risk_manager risk_config
  found_after-put o k symbol st none h = lookup-insert_other k symbol st o.states h
  found_after-put o k symbol st (some s) h = refl

  -- The loop finds the state of each symbol as `restarted` makes it, and no other.
  pub restore_entries-lookup :
      (m : List (String × OrchestratorState W)) (o : Orchestrator W) (symbol : String)
      → IsDistinct m
      → (restore_entries (serialized m) o).1 ≡ true
      → lookup symbol (restore_entries (serialized m) o).0.states
        ≡ found_after o symbol (lookup symbol m)
  unfolding restore_entries lookup
  restore_entries-lookup [] o symbol h went = refl
  restore_entries-lookup ((k, s) ∷ rest) o symbol h went =
      elim (Option-cases (build_risk_manager o k)) [
        | inl failed ↦ absurd (ground (arith, failed))
        | inr (m, built) ↦
            let st = restore_state m (serialize_state s) in
            let o1 = record o { states = insert k st o.states } in
            let step : restore_entries (serialized ((k, s) ∷ rest)) o
                ≡ restore_entries (serialized rest) o1 =
              ground (arith, built) in
            let ih =
              restore_entries-lookup rest o1 symbol h.1
                (subst (λ (r : Orchestrator W × Bool). r.1 ≡ true) step went) in
            ap (λ (r : Orchestrator W × Bool). lookup symbol r.0.states) step
            ∙ ih
            ∙ elim (Bool-cases (k is symbol)) [
              | inl same ↦
                  let e : k ≡ symbol = (eq_iff k symbol).0 same in
                  let last : lookup symbol rest ≡ none = subst (λ x. lookup x rest ≡ none) e h.0 in
                  let here : lookup symbol o1.states ≡ some st =
                    subst (λ x. lookup x o1.states ≡ some st) e (lookup-insert k st o.states) in
                  let there : restarted o symbol s ≡ some st =
                    subst (λ x. restarted o x s ≡ some st) e (ground (arith, built)) in
                  ground (arith, same, last, here, there)
              | inr other ↦
                  let e = found_after-put o k symbol st (lookup symbol rest) other in
                  ground (arith, other, e)
            ]
      ]
