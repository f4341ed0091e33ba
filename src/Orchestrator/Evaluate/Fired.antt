-- ===== src/Orchestrator/Evaluate/Fired.antt =====
-- What holds where `evaluate` answers with a signal, and what an evaluation does to the sweeps that
-- have been traded.
use shamarx_app.Prelude.{
  ℕ, ◌/◌, ◌%◌, ◌&&◌, ◌==◌, ltb, any, or_else, length, get_elem?, ◌≡◌, refl, sym, inl, inr, true,
  false, Option, none, some, List, [], ◌∷◌, String, Option-cases, arith, subst, leb, ◌-◌, IsIn,
  here, there, IsIn-filter, ◌≤◌,
}
use shamarx_app.Double.{Double}
use shamarx_app.Engine.Instrument.{InstrumentConfig, get_instrument_config}
use shamarx_app.Smc.{PendingSetup, SmcPairConfig}
use shamarx_app.Smc.Pairs.{get_smc_pair_config}
use shamarx_app.Smc.Engine.{is_blacked_out}
use shamarx_app.News.{event_times_ms, is_in_blackout}
use shamarx_app.Calendar.{date_of, weekday}
use shamarx_app.Orchestrator.Viewed.{Feed, IsViewOf, read_view, read_view-IsViewOf}
use shamarx_app.Risk.Guards.{can_trade}
use shamarx_app.Broker.{SmcLiveSignal}
use shamarx_app.Orchestrator.{
  OrchestratorState, Orchestrator, LiveContext, Surroundings, get_or_create_state, has,
}
use shamarx_app.Orchestrator.Detect.{
  View, detect_sweeps, expire_setups, indicators_of, d1_indicators_of,
}
use shamarx_app.Orchestrator.Signal.{Verdict, keep, discard, fire, fail, judge}
use shamarx_app.Orchestrator.Signal.Protective.{IsFired, judge-IsFired}
use shamarx_app.Orchestrator.Evaluate.{
  Outcome, thrown, silent, fired, Bars, after_verdict, fire_first, try_to_fire, gate_and_fire,
  run_bar, view_of, evaluate_view, evaluate_pair, evaluate_bars, evaluate,
}

module _ {W : Type 0} ⦃d : Double W⦄ where
  after_verdict-fired :
      (setup : PendingSetup W) (v : Verdict W) (kept : List (PendingSetup W))
      (signal : SmcLiveSignal W)
      → (after_verdict setup v kept).0 ≡ fired signal
      → v ≡ fire signal
  after_verdict-fired setup keep kept signal h = absurd (ground arith)
  after_verdict-fired setup discard kept signal h = absurd (ground arith)
  after_verdict-fired setup (fire other) kept signal h = ground arith
  after_verdict-fired setup fail kept signal h = absurd (ground arith)

  -- The signal of the loop is that of one of the setups.
  fire_first-fired :
      (verdict : PendingSetup W → Verdict W) (setups : List (PendingSetup W))
      (signal : SmcLiveSignal W)
      → (fire_first verdict setups).0 ≡ fired signal
      → (setup : PendingSetup W) × IsIn setup setups × (verdict setup ≡ fire signal)
  unfolding fire_first
  fire_first-fired verdict [] signal h = absurd (ground arith)
  fire_first-fired verdict (setup ∷ later) signal h =
      go (fire_first verdict later).0 refl (λ other. fire_first-fired verdict later other)
    where
      go :
          (x : Outcome W)
          → (fire_first verdict later).0 ≡ x
          → ((other : SmcLiveSignal W)
              → (fire_first verdict later).0 ≡ fired other
              → (s : PendingSetup W) × IsIn s later × (verdict s ≡ fire other))
          → (s : PendingSetup W) × IsIn s (setup ∷ later) × (verdict s ≡ fire signal)
      go silent e ih = (
        setup,
        here refl,
        after_verdict-fired setup (verdict setup) (fire_first verdict later).1 signal
            (ground arith),
      )
      go thrown e ih = absurd (ground arith)
      go (fired other) e ih =
          let (s, within, fires) = ih signal (ground arith) in (s, there within, fires)

  -- The gates of a bar are open in the state, and a setup of it fires.
  pub record IsJustified (v : View W) (ctx : LiveContext W) (s : OrchestratorState W)
      (signal : SmcLiveSignal W) : Type 0 where
    pub rested : s.cooldown_bars_remaining ≡ 0
    pub quiet :
        (ltb 0 (or_else v.cfg.news_blackout_minutes 0)
          && is_in_blackout event_times_ms v.last_m15.open_time
              (or_else v.cfg.news_blackout_minutes 0))
        ≡ false
    pub in_hours :
        any
          (λ (k : ℕ × ℕ).
            leb k.0 (v.last_m15.open_time / 3600000 % 24)
            && ltb (v.last_m15.open_time / 3600000 % 24) k.1)
          v.cfg.killzones
        ≡ true
    pub on_weekday :
        any (λ w. w == weekday (date_of v.last_m15.open_time)) (or_else v.cfg.skip_entry_dows [])
        ≡ false
    pub allowed : (can_trade s.risk_manager v.last_m15.open_time ctx.total_open_positions).1 ≡ true
    pub setup : PendingSetup W
    pub pending : IsIn setup s.pending
    pub fires : IsFired v ctx s.actioned_sweeps setup signal

  gate_and_fire-IsJustified :
      (env : Surroundings W) (v : View W) (ctx : LiveContext W) (s : OrchestratorState W)
      (signal : SmcLiveSignal W)
      → (gate_and_fire env v ctx s).1 ≡ fired signal
      → IsJustified v ctx s signal
  unfolding gate_and_fire try_to_fire is_blacked_out
  gate_and_fire-IsJustified env v ctx s signal h =
      let verdict = judge env v ctx s.actioned_sweeps in
      let e : (fire_first verdict s.pending).0 ≡ fired signal = ground arith in
      let (setup, within, fires) = fire_first-fired verdict s.pending signal e in
      record {
        rested = ground arith;
        quiet = ground arith;
        in_hours = ground arith;
        on_weekday = ground arith;
        allowed = ground arith;
        setup = setup;
        pending = within;
        fires = judge-IsFired env v ctx s.actioned_sweeps setup signal fires;
      }

  detect_sweeps-actioned :
      (v : View W) (s : OrchestratorState W)
      → (detect_sweeps v s).actioned_sweeps ≡ s.actioned_sweeps
  unfolding detect_sweeps
  detect_sweeps-actioned v s = ground arith

  expire_setups-actioned :
      (v : View W) (s : OrchestratorState W)
      → (expire_setups v (detect_sweeps v s)).actioned_sweeps ≡ s.actioned_sweeps
  unfolding expire_setups
  expire_setups-actioned v s = detect_sweeps-actioned v s

  unexpired :
      (v : View W) (s : OrchestratorState W) (p : PendingSetup W)
      → IsIn p (expire_setups v s).pending
      → v.h1_len - 1 ≤ p.expires_at_h1_idx
  unfolding expire_setups
  unexpired v s p h =
      let e =
        IsIn-filter (λ (q : PendingSetup W). leb (v.h1_len - 1) q.expires_at_h1_idx) p s.pending
          h in
      ground (arith, e)

  -- No bar marks a sweep as traded: only the commit does.
  pub run_bar-actioned :
      (env : Surroundings W) (v : View W) (ctx : LiveContext W) (s : OrchestratorState W)
      → (run_bar env v ctx s).0.actioned_sweeps ≡ s.actioned_sweeps
  unfolding run_bar gate_and_fire try_to_fire expire_setups
  run_bar-actioned env v ctx s = ground (arith, detect_sweeps-actioned v s)

  -- The market of an evaluation: a cursor, where one is given, says how much of it is in use.
  abbrev pub feed_of : Bars W → Feed W
  feed_of b = record {
    m15_candles = b.m15_candles;
    h1_candles = b.h1_candles;
    d1_candles = b.d1_candles;
    m15_len = elim b.cursor [ some c ↦ c.m15 | none ↦ length b.m15_candles ];
    h1_len = elim b.cursor [ some c ↦ c.h1 | none ↦ length b.h1_candles ];
    d1_len = elim b.cursor [ some c ↦ c.d1 | none ↦ length b.d1_candles ];
    m15_series = elim b.precomputed [ some p ↦ some p.m15 | none ↦ none ];
    h1_series = elim b.precomputed [ some p ↦ some p.h1 | none ↦ none ];
    precomputed = b.precomputed;
  }

  -- The signal of an evaluation: the state and the view of the market in which the gates of the
  -- symbol's own pair are open at the last M15 bar in use, and the setup, which has not expired.
  pub record IsFiredBy (env : Surroundings W) (o : Orchestrator W) (symbol : String) (b : Bars W)
      (ctx : LiveContext W) (signal : SmcLiveSignal W) : Type 0 where
    pub view : View W
    pub viewed : IsViewOf env symbol (feed_of b) view
    pub found : Orchestrator W
    pub state : OrchestratorState W
    pub of_symbol : get_or_create_state o symbol ≡ some (found, state)
    pub justified : IsJustified view ctx (expire_setups view (detect_sweeps view state)) signal
    pub unexpired : (view.h1_len - 1) ≤ justified.setup.expires_at_h1_idx
    pub untraded : has state.actioned_sweeps signal.h1_sweep_time ≡ false

  view_of-IsViewOf :
      (env : Surroundings W) (symbol : String) (b : Bars W) (cfg : SmcPairConfig W)
      (instrument : InstrumentConfig W) (v : View W)
      → get_smc_pair_config env.overrides symbol ≡ some cfg
      → get_instrument_config symbol ≡ some instrument
      → view_of env symbol b cfg instrument ≡ some v
      → IsViewOf env symbol (feed_of b) v
  unfolding view_of
  view_of-IsViewOf env symbol b cfg instrument v own listed h =
      let f = feed_of b in
      let m15_at = indicators_of env.indicators f.m15_series f.m15_candles in
      let h1_at = indicators_of env.indicators f.h1_series f.h1_candles in
      let d1_at = d1_indicators_of env.indicators f.precomputed f.d1_candles in
      elim (Option-cases (get_elem? f.m15_candles (f.m15_len - 1))) [
        | inl outside ↦ absurd (ground (arith, h, outside))
        | inr (last_m15, at) ↦ elim (Option-cases m15_at) [
          | inl unread ↦ absurd (ground (arith, h, at, unread))
          | inr (m15, m15_is) ↦ elim (Option-cases h1_at) [
            | inl unread ↦ absurd (ground (arith, h, at, m15_is, unread))
            | inr (h1, h1_is) ↦ elim (Option-cases d1_at) [
              | inl unread ↦ absurd (ground (arith, h, at, m15_is, h1_is, unread))
              | inr (d1, d1_is) ↦
                  let read = read_view symbol f cfg instrument last_m15 m15 h1 d1 in
                  let same : read ≡ v = ground (arith, h, at, m15_is, h1_is, d1_is) in
                  subst (IsViewOf env symbol f) same (
                    read_view-IsViewOf env symbol f cfg instrument last_m15 m15 h1 d1 own listed at
                      m15_is h1_is d1_is)
            ]
          ]
        ]
      ]

  run_bar-fired :
      (env : Surroundings W) (o : Orchestrator W) (symbol : String) (b : Bars W) (v : View W)
      (ctx : LiveContext W) (found : Orchestrator W) (s : OrchestratorState W)
      (signal : SmcLiveSignal W)
      → IsViewOf env symbol (feed_of b) v
      → get_or_create_state o symbol ≡ some (found, s)
      → (run_bar env v ctx s).1 ≡ fired signal
      → IsFiredBy env o symbol b ctx signal
  unfolding run_bar
  run_bar-fired env o symbol b v ctx found s signal seen at h =
      let j = gate_and_fire-IsJustified env v ctx (expire_setups v (detect_sweeps v s)) signal h in
      record {
        view = v;
        viewed = seen;
        found = found;
        state = s;
        of_symbol = at;
        justified = j;
        unexpired = unexpired v (detect_sweeps v s) j.setup j.pending;
        untraded =
            subst (λ t. has s.actioned_sweeps t ≡ false) (sym j.fires.of_setup.same_sweep)
              (subst (λ l. has l j.setup.sweep_time ≡ false) (expire_setups-actioned v s)
                j.fires.untraded);
      }

  evaluate_view-fired :
      (env : Surroundings W) (o : Orchestrator W) (symbol : String) (b : Bars W)
      (ctx : LiveContext W) (found : Orchestrator W) (s : OrchestratorState W) (v : Option (View W))
      (signal : SmcLiveSignal W)
      → ((x : View W) → v ≡ some x → IsViewOf env symbol (feed_of b) x)
      → get_or_create_state o symbol ≡ some (found, s)
      → (evaluate_view env found symbol s ctx v).1 ≡ fired signal
      → IsFiredBy env o symbol b ctx signal
  unfolding evaluate_view
  evaluate_view-fired env o symbol b ctx found s none signal seen at h = absurd (ground arith)
  evaluate_view-fired env o symbol b ctx found s (some v) signal seen at h =
      run_bar-fired env o symbol b v ctx found s signal (seen v refl) at h

  evaluate_pair-fired :
      (env : Surroundings W) (o : Orchestrator W) (symbol : String) (b : Bars W)
      (ctx : LiveContext W) (cfg : SmcPairConfig W) (instrument : InstrumentConfig W)
      (signal : SmcLiveSignal W)
      → get_smc_pair_config env.overrides symbol ≡ some cfg
      → get_instrument_config symbol ≡ some instrument
      → (evaluate_pair env o symbol b ctx cfg instrument).1 ≡ fired signal
      → IsFiredBy env o symbol b ctx signal
  unfolding evaluate_pair
  evaluate_pair-fired env o symbol b ctx cfg instrument signal own listed h =
      elim (Option-cases (get_or_create_state o symbol)) [
        | inl unknown ↦ absurd (ground arith)
        | inr ((found, s), at) ↦
            evaluate_view-fired env o symbol b ctx found s (view_of env symbol b cfg instrument)
              signal (λ v e. view_of-IsViewOf env symbol b cfg instrument v own listed e) at
              (ground (arith, at))
      ]

  pub evaluate-IsFiredBy :
      (env : Surroundings W) (o : Orchestrator W) (symbol : String) (b : Bars W)
      (ctx : LiveContext W) (signal : SmcLiveSignal W)
      → (evaluate env o symbol b ctx).1 ≡ fired signal
      → IsFiredBy env o symbol b ctx signal
  unfolding evaluate evaluate_bars
  evaluate-IsFiredBy env o symbol b ctx signal h =
      elim (Option-cases (get_smc_pair_config env.overrides symbol)) [
        | inl unknown ↦ absurd (ground arith)
        | inr (cfg, known) ↦ elim (Option-cases (get_instrument_config {W = W} symbol)) [
          | inl unknown ↦ absurd (ground arith)
          | inr (instrument, listed) ↦
              evaluate_pair-fired env o symbol b ctx cfg instrument signal known listed
                (ground (arith, known, listed))
        ]
      ]
