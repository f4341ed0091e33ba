-- ===== src/Orchestrator/Actioned.antt =====
-- The sweeps that an orchestrator has traded, and what finding or mutating a state does to them.
use shamarx_app.Prelude.{
  ℕ, ◌≡◌, sym, ap, ◌∙◌, ◌⊎◌, inl, inr, Bool, true, false, Option, none, some, [], String, ◌is◌,
  Option-cases, Bool-cases, arith, subst, lookup, lookup-insert, lookup-insert_other, eq_iff,
}
use shamarx_app.Double.{Double}
use shamarx_app.Orchestrator.{
  OrchestratorState, Orchestrator, has, put, get_or_create_state, build_risk_manager,
}

module _ {W : Type 0} ⦃d : Double W⦄ where
  abbrev pub actioned_in : Option (OrchestratorState W) → ℕ → Bool
  actioned_in none sweep = false
  actioned_in (some s) sweep = has s.actioned_sweeps sweep

  -- The sweep at the time has been traded on the symbol.
  unfoldable pub is_actioned : Orchestrator W → String → ℕ → Bool
  is_actioned o symbol sweep = actioned_in (lookup symbol o.states) sweep

  pub is_actioned-put :
      (o : Orchestrator W) (symbol : String) (s : OrchestratorState W) (sweep : ℕ)
      → is_actioned (put o symbol s) symbol sweep ≡ has s.actioned_sweeps sweep
  unfolding is_actioned
  is_actioned-put o symbol s sweep = ap (λ e. actioned_in e sweep) (lookup-insert symbol s o.states)

  is_actioned-put_other :
      (o : Orchestrator W) (symbol other : String) (s : OrchestratorState W) (sweep : ℕ)
      → (symbol is other) ≡ false
      → is_actioned (put o symbol s) other sweep ≡ is_actioned o other sweep
  unfolding is_actioned
  is_actioned-put_other o symbol other s sweep h =
      ap (λ e. actioned_in e sweep) (lookup-insert_other symbol other s o.states h)

  -- A state with as many traded sweeps takes none back.
  pub put-keeps :
      (o : Orchestrator W) (symbol other : String) (s : OrchestratorState W) (sweep : ℕ)
      → (is_actioned o symbol sweep ≡ true → has s.actioned_sweeps sweep ≡ true)
      → is_actioned o other sweep ≡ true
      → is_actioned (put o symbol s) other sweep ≡ true
  put-keeps o symbol other s sweep more h = elim (Bool-cases (symbol is other)) [
    | inl same ↦
        let e : symbol ≡ other = (eq_iff symbol other).0 same in
        subst (λ x. is_actioned (put o symbol s) x sweep ≡ true) e
          (is_actioned-put o symbol s sweep
            ∙ more (subst (λ x. is_actioned o x sweep ≡ true) (sym e) h))
    | inr differs ↦ is_actioned-put_other o symbol other s sweep differs ∙ h
  ]

  -- A state is found, or it is new and has traded nothing.
  pub get_or_create_state-cases :
      (o found : Orchestrator W) (symbol : String) (s : OrchestratorState W)
      → get_or_create_state o symbol ≡ some (found, s)
      → ((found ≡ o) × (lookup symbol o.states ≡ some s))
        ⊎ ((found ≡ put o symbol s)
            × (lookup symbol o.states ≡ none)
            × (s.actioned_sweeps ≡ [])
            × (build_risk_manager o symbol ≡ some s.risk_manager))
  unfolding get_or_create_state
  get_or_create_state-cases o found symbol s at = elim (Option-cases (lookup symbol o.states)) [
    | inr (known, e) ↦ inl (ground (arith, e), ground (arith, e))
    | inl unknown ↦ elim (Option-cases (build_risk_manager o symbol)) [
      | inl failed ↦ absurd (ground (arith, unknown, failed))
      | inr (m, built) ↦ inr (
        ground (arith, unknown, built),
        unknown,
        ground (arith, unknown, built),
        ground (arith, unknown, built),
      )
    ]
  ]

  -- The orchestrator that has a state for the symbol has the traded sweeps of the one before.
  pub found-keeps :
      (o found : Orchestrator W) (symbol other : String) (s : OrchestratorState W) (sweep : ℕ)
      → get_or_create_state o symbol ≡ some (found, s)
      → is_actioned o other sweep ≡ true
      → is_actioned found other sweep ≡ true
  unfolding is_actioned
  found-keeps o found symbol other s sweep at h =
      elim (get_or_create_state-cases o found symbol s at) [
        | inl (same, e) ↦ subst (λ x. is_actioned x other sweep ≡ true) (sym same) h
        | inr (new, unknown, none_yet, built) ↦
            subst (λ x. is_actioned x other sweep ≡ true) (sym new)
              (put-keeps o symbol other s sweep (λ t. absurd (ground (arith, t, unknown))) h)
      ]

  pub found-has :
      (o found : Orchestrator W) (symbol : String) (s : OrchestratorState W) (sweep : ℕ)
      → get_or_create_state o symbol ≡ some (found, s)
      → has s.actioned_sweeps sweep ≡ is_actioned found symbol sweep
  unfolding is_actioned
  found-has o found symbol s sweep at = elim (get_or_create_state-cases o found symbol s at) [
    | inl (same, e) ↦ ground (arith, same, e)
    | inr (new, unknown, none_yet, built) ↦ sym (
        subst (λ x. is_actioned x symbol sweep ≡ has s.actioned_sweeps sweep) (sym new)
          (is_actioned-put o symbol s sweep))
  ]

  -- So has the one in which the state is mutated, if the state gives none back.
  pub updated-keeps :
      (o found : Orchestrator W) (symbol other : String) (s next : OrchestratorState W) (sweep : ℕ)
      → get_or_create_state o symbol ≡ some (found, s)
      → (has s.actioned_sweeps sweep ≡ true → has next.actioned_sweeps sweep ≡ true)
      → is_actioned o other sweep ≡ true
      → is_actioned (put found symbol next) other sweep ≡ true
  updated-keeps o found symbol other s next sweep at more h =
      put-keeps found symbol other next sweep (λ t. more (found-has o found symbol s sweep at ∙ t))
        (found-keeps o found symbol other s sweep at h)
