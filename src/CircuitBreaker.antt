-- ===== src/CircuitBreaker.antt =====
-- src/strategy/live/circuit-breaker.service.ts: the pause of all entries after a loss. The store is the
-- value under the key of Redis. JSON, the configuration, the clock, and the sum and the queries of the
-- database are arguments.
pub mod Latch
use shamarx_app.Prelude.{
  ℕ, ◌-◌, ◌*◌, Bool, true, false, not, ◌&&◌, ◌||◌, Option, none, some, List, [], ◌∷◌, foldl, map,
  filter, String, if◌then◌else◌, ◌is◌, is_some, leb, or_else,
}
use shamarx_app.Double.{Double, ◌⊕◌, ◌⊗◌, ◌⊘◌, ◌⊴◌, num, cents, truthy}

pub record BreakerState (W : Type 0) : Type 0 where
  pub tripped : Bool
  pub tripped_at : Option ℕ
  pub rolling_pnl : W
  pub threshold : W

-- The row of a trade, with the columns that the query reads.
pub record Trade (W : Type 0) : Type 0 where
  pub status : String
  pub pnl : Option W
  pub closed_at : Option ℕ
  pub exit_reason : Option String

-- The service with what it shares: the text in Redis, and its copy of the state.
pub record Service (W : Type 0) : Type 0 where
  pub stored : Option String
  pub cached : Option (BreakerState W)

abbrev pub rolling_ms : ℕ
rolling_ms = 60 * 24 * 3600 * 1000

-- `value || default` on texts.
pub text_or : Option String → String → String
text_or none default = default
text_or (some text) default = if text is "" then default else text

pub is_enabled : (String → String) → Option String → Bool
is_enabled to_lower setting = to_lower (text_or setting "true") is "true"

-- The reasons of an exit that are no fill.
pub is_real_exit : Option String → Bool
is_real_exit none = true
is_real_exit (some reason) = not (reason is "ORPHAN" || reason is "STALE_BROKER")

pub closed_since : ℕ → Option ℕ → Bool
closed_since since none = false
closed_since since (some at) = leb since at

pub is_counted : {W : Type 0} → ℕ → Trade W → Bool
is_counted since t =
    t.status is "CLOSED"
    && is_some t.pnl
    && closed_since since t.closed_at
    && is_real_exit t.exit_reason

module _ {W : Type 0} ⦃d : Double W⦄ where
  pub loss_pct : (String → W) → Option String → W
  loss_pct parse_float setting =
      let v = parse_float (text_or setting "15") in
      if not (d.eq v v) || (v ⊴ num 0) then num 15 else v

  -- The equity of the newest snapshots, or 1000 where the sum is 0 or no number.
  pub equity_basis : List W → W
  equity_basis equities =
      let total = foldl (λ s e. s ⊕ e) (num 0) equities in if truthy total then total else num 1000

  abbrev pub no_state : BreakerState W
  no_state = record { tripped = false; tripped_at = none; rolling_pnl = num 0; threshold = num 0 }

  module _ (stringify : BreakerState W → String) (parse : String → BreakerState W) where
    -- `raw ? JSON.parse(raw) : ...`: the empty text counts as no text.
    unfoldable pub read_state : Option String → Option (BreakerState W)
    read_state none = none
    read_state (some raw) = if raw is "" then none else some (parse raw)

    unfoldable pub get_state : Service W → BreakerState W
    get_state s = or_else (read_state s.stored) no_state

    unfoldable pub was_tripped : Option (BreakerState W) → Bool
    was_tripped none = false
    was_tripped (some st) = st.tripped

    unfoldable pub is_tripped : Bool → Service W → Service W × Bool
    is_tripped false s = (s, false)
    is_tripped true s = elim s.cached [
      | some st ↦ (s, st.tripped)
      | none ↦ let found = read_state s.stored in (record s { cached = found }, was_tripped found)
    ]

    pub reset : Service W → Service W
    reset s = record s { stored = none; cached = none }

    -- The state that a check writes, from the one before.
    unfoldable pub next_state : ℕ → W → W → BreakerState W → BreakerState W
    next_state now rolling limit prev = record {
      tripped = prev.tripped || (rolling ⊴ limit);
      tripped_at =
          if prev.tripped then prev.tripped_at else if rolling ⊴ limit then some now else none;
      rolling_pnl = cents rolling;
      threshold = cents limit;
    }

    -- `checkOnce`, with the addresses that it sends an alert to.
    unfoldable pub check_once :
        (sum : List W → Option W)
        → W
        → ℕ
        → List (Trade W)
        → List W
        → List String
        → Service W
        → Service W × BreakerState W × List String
    check_once sum pct now trades equities admins s =
        let since = now - rolling_ms in
        let pnls =
          map (λ (t : Trade W). or_else t.pnl (num 0)) (filter (is_counted since) trades) in
        let rolling = or_else (sum pnls) (num 0) in
        let limit = d.neg (pct ⊘ num 100) ⊗ equity_basis equities in
        let prev = get_state s in
        let state = next_state now rolling limit prev in
        let alerts = if state.tripped && not prev.tripped then admins else [] in
        (record { stored = some (stringify state); cached = some state }, state, alerts)
