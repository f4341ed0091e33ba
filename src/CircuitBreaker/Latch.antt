-- ===== src/CircuitBreaker/Latch.antt =====
-- The circuit breaker between two resets by an admin.
use shamarx_app.Prelude.{
  ℕ, ◌≡◌, refl, sym, ◌∙◌, Bool, true, false, Option, none, some, List, [], String, arith, ◌is◌,
  Option-cases, inl, inr, or_else, ap,
}
use shamarx_app.Double.{Double}
use shamarx_app.CircuitBreaker.{
  BreakerState, Trade, Service, read_state, get_state, was_tripped, is_tripped, check_once,
  next_state, no_state,
}

-- JSON keeps the flag, which is a Boolean. Of the other fields it keeps the finite numbers only.
pub record KeepsFlag {W : Type 0} (stringify : BreakerState W → String)
    (parse : String → BreakerState W) : Type 0 where
  pub keeps : (st : BreakerState W) → (parse (stringify st)).tripped ≡ st.tripped
  pub nonempty : (st : BreakerState W) → (stringify st is "") ≡ false

module _ {W : Type 0} ⦃d : Double W⦄ (stringify : BreakerState W → String)
    (parse : String → BreakerState W) where
  abbrev pub stored_flag : Service W → Bool
  stored_flag s = (get_state stringify parse s).tripped

  -- The copy is absent, or it has the flag that is stored.
  pub data IsCoherent (s : Service W) : Type 0 where
    empty : s.cached ≡ none → IsCoherent s
    same : (st : BreakerState W) → s.cached ≡ some st → st.tripped ≡ stored_flag s → IsCoherent s

  -- What may happen but a reset: a check on any trades and equities, a signal that asks, and a restart
  -- of the process, which loses the copy.
  pub data Run (s : Service W) : Service W → Type 0 where
    here : Run s s
    checks :
        {q : Service W} (sum : List W → Option W) (pct : W) (now : ℕ) (trades : List (Trade W))
        (equities : List W) (admins : List String)
        → Run s q
        → Run s (check_once stringify parse sum pct now trades equities admins q).0
    asks :
        {q : Service W} (enabled : Bool) → Run s q → Run s (is_tripped stringify parse enabled q).0
    restarts : {q : Service W} → Run s q → Run s (record q { cached = none })

  flag-get_state :
      (s : Service W)
      → stored_flag s ≡ was_tripped stringify parse (read_state stringify parse s.stored)
  unfolding get_state was_tripped
  flag-get_state s = elim (Option-cases (read_state stringify parse s.stored)) [
    | inl none_stored ↦ ground arith
    | inr (st, found) ↦ ground arith
  ]

  answer-stored_flag :
      (s : Service W) → IsCoherent s → (is_tripped stringify parse true s).1 ≡ stored_flag s
  unfolding is_tripped
  answer-stored_flag s (empty e) = ground (arith, flag-get_state s)
  answer-stored_flag s (same st e f) = ground arith

  asked-stored :
      (enabled : Bool) (s : Service W) → (is_tripped stringify parse enabled s).0.stored ≡ s.stored
  unfolding is_tripped
  asked-stored false s = refl
  asked-stored true s = elim (Option-cases s.cached) [
    | inl e ↦ ground arith
    | inr (st, e) ↦ ground arith
  ]

  asked-stored_flag :
      (enabled : Bool) (s : Service W)
      → stored_flag (is_tripped stringify parse enabled s).0 ≡ stored_flag s
  unfolding get_state
  asked-stored_flag enabled s =
      ap (λ stored. (or_else (read_state stringify parse stored) no_state).tripped)
        (asked-stored enabled s)

  fetched-IsCoherent :
      (s : Service W) → s.cached ≡ none → IsCoherent (is_tripped stringify parse true s).0
  unfolding is_tripped get_state
  fetched-IsCoherent s e = elim (Option-cases (read_state stringify parse s.stored)) [
    | inl absent ↦ empty (ground arith)
    | inr (st, found) ↦ same st (ground arith) (ground arith)
  ]

  asked-IsCoherent :
      (enabled : Bool) (s : Service W)
      → IsCoherent s
      → IsCoherent (is_tripped stringify parse enabled s).0
  unfolding is_tripped get_state
  asked-IsCoherent false s c = c
  asked-IsCoherent true s (empty e) = fetched-IsCoherent s e
  asked-IsCoherent true s (same st e f) = same st (ground arith) (ground arith)

  abbrev written : BreakerState W → Service W
  written st = record { stored = some (stringify st); cached = some st }

  written-stored_flag :
      KeepsFlag stringify parse → (st : BreakerState W) → stored_flag (written st) ≡ st.tripped
  unfolding get_state read_state
  written-stored_flag json st = ground (arith, json.keeps st, json.nonempty st)

  -- What a check leaves: the state that it returns, written and copied; one that finds the flag set
  -- leaves it set and sends no alert.
  checked_parts :
      (sum : List W → Option W) (pct : W) (now : ℕ) (trades : List (Trade W)) (equities : List W)
      (admins : List String) (s : Service W)
      → let (s', st, alerts) = check_once stringify parse sum pct now trades equities admins s in
        (s' ≡ written st) × (stored_flag s ≡ true → (st.tripped ≡ true) × (alerts ≡ []))
  unfolding check_once next_state
  checked_parts sum pct now trades equities admins s = (refl, λ h. (ground arith, ground arith))

  checked-IsCoherent :
      KeepsFlag stringify parse
      → (sum : List W → Option W) (pct : W) (now : ℕ) (trades : List (Trade W)) (equities : List W)
        (admins : List String) (s : Service W)
      → IsCoherent (check_once stringify parse sum pct now trades equities admins s).0
  unfolding check_once
  checked-IsCoherent json sum pct now trades equities admins s =
      same _ refl (sym (written-stored_flag json _))

  checked-stored_flag :
      KeepsFlag stringify parse
      → (sum : List W → Option W) (pct : W) (now : ℕ) (trades : List (Trade W)) (equities : List W)
        (admins : List String) (s : Service W)
      → stored_flag s ≡ true
      → stored_flag (check_once stringify parse sum pct now trades equities admins s).0 ≡ true
  checked-stored_flag json sum pct now trades equities admins s h =
      let (left, set) = checked_parts sum pct now trades equities admins s in
      let (tripped, _) = set h in ap stored_flag left ∙ written-stored_flag json _ ∙ tripped

  Run-IsCoherent :
      KeepsFlag stringify parse
      → (s s' : Service W) → IsCoherent s
      → stored_flag s ≡ true
      → Run s s'
      → IsCoherent s' × (stored_flag s' ≡ true)
  unfolding get_state
  Run-IsCoherent json s s' c h here = (c, h)
  Run-IsCoherent json s s' c h (checks sum pct now trades equities admins run) =
      let (c', h') = Run-IsCoherent json s _ c h run in
      (
        checked-IsCoherent json sum pct now trades equities admins _,
        checked-stored_flag json sum pct now trades equities admins _ h',
      )
  Run-IsCoherent json s s' c h (asks enabled run) =
      let (c', h') = Run-IsCoherent json s _ c h run in
      (asked-IsCoherent enabled _ c', asked-stored_flag enabled _ ∙ h')
  Run-IsCoherent json s s' c h (restarts run) =
      let (c', h') = Run-IsCoherent json s _ c h run in (empty refl, h')

  -- Once the stored flag is set and the copy agrees with it, then after any run of checks, questions
  -- and restarts, but no reset, the enabled breaker answers that it is tripped, and the next check,
  -- whatever it reads, returns a tripped state and alerts nobody again.
  pub tripped_until_reset :
      KeepsFlag stringify parse
      → (s s' : Service W) → IsCoherent s
      → stored_flag s ≡ true
      → Run s s'
      → (sum : List W → Option W) (pct : W) (now : ℕ) (trades : List (Trade W)) (equities : List W)
        (admins : List String)
      → ((is_tripped stringify parse true s').1 ≡ true)
        × ((check_once stringify parse sum pct now trades equities admins s').1.tripped ≡ true)
        × ((check_once stringify parse sum pct now trades equities admins s').2 ≡ [])
  tripped_until_reset json s s' c h run sum pct now trades equities admins =
      let (c', h') = Run-IsCoherent json s s' c h run in
      let (_, set) = checked_parts sum pct now trades equities admins s' in
      let (tripped, silent) = set h' in (answer-stored_flag s' c' ∙ h', tripped, silent)
