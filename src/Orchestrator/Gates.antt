-- ===== src/Orchestrator/Gates.antt =====
-- The optional structure gates of `LiveSmcOrchestrator.evaluate`: each asks a detector whether a
-- structure supports the setup, and notes the structure for the signal. `thrown` is an exception.
use shamarx_app.Prelude.{ℕ, ◌-◌, ◌||◌, Bool, false, Option, none, some, or_else, if◌then◌else◌}
use shamarx_app.Double.{Double, dec}
use shamarx_app.Broker.{ChartZone, ChartBreak}
use shamarx_app.Smc.{PendingSetup}
use shamarx_app.Smc.Fvg.{Fvg, has_supporting_fvg, swept_move_left_fvg}
use shamarx_app.Smc.OrderBlock.{OrderBlock, has_supporting_ob, has_fresh_ob_at_swept_level}
use shamarx_app.Smc.Bos.{has_bos_after, swept_level_was_itself_a_bos}
use shamarx_app.Smc.Swing.{find_swept_swing_idx}
use shamarx_app.Orchestrator.Detect.{View}

pub data Gate {ℓ} (A : Type ℓ) : Type ℓ where
  thrown : Gate A
  rejected : Gate A
  passed : A → Gate A

infixl 5 ◌>>=◌
abbrev pub ◌>>=◌ {ℓ κ} : {A : Type ℓ} {B : Type κ} → Gate A → (A → Gate B) → Gate B
thrown >>= f = thrown
rejected >>= f = rejected
passed a >>= f = f a

-- A result `{ ok, … }` of a detector.
abbrev of_result {ℓ} : {A : Type ℓ} → Option A → Gate A
of_result none = rejected
of_result (some a) = passed a

-- The same of a detector that may throw.
abbrev of_attempt {ℓ} : {A : Type ℓ} → Option (Option A) → Gate A
of_attempt none = thrown
of_attempt (some r) = of_result r

-- A gate that is off lets every setup pass, without a note.
abbrev when_on {ℓ} : {A : Type ℓ} → Option Bool → Gate A → Gate (Option A)
when_on flag g =
    let noted = g >>= (λ a. passed (some a)) in if or_else flag false then noted else passed none

-- A gate on the swing; there is one wherever a gate is on.
abbrev at_swing {ℓ} : {A : Type ℓ} → Option Bool → Option ℕ → (ℕ → Gate A) → Gate (Option A)
at_swing flag none gate = passed none
at_swing flag (some swing_idx) gate = when_on flag (gate swing_idx)

pub record GateNotes (W : Type 0) : Type 0 where
  pub fvg : Option (ChartZone W)
  pub ob : Option (ChartZone W)
  pub bos : Option (ChartBreak W)
  pub ob_origin : Option (ChartZone W)
  pub impulse_fvg : Option (ChartZone W)
  pub bos_origin : Option (ChartBreak W)

module _ {W : Type 0} ⦃d : Double W⦄ where
  abbrev zone_of_fvg : Fvg W → ChartZone W
  zone_of_fvg f = record {
    top = f.top;
    bottom = f.bottom;
    candle_time = f.candle_time;
    is_bullish = f.is_bullish;
  }

  abbrev zone_of_ob : OrderBlock W → ChartZone W
  zone_of_ob ob = record {
    top = ob.top;
    bottom = ob.bottom;
    candle_time = ob.candle_time;
    is_bullish = ob.is_bullish;
  }

  fvg_gate : View W → PendingSetup W → W → Gate (Option (ChartZone W))
  fvg_gate v setup entry_price = when_on v.cfg.gates.use_fvg_gate (do
    f ← of_result (
        has_supporting_fvg v.m15_candles setup.direction entry_price
          (or_else v.cfg.gates.fvg_gate_max_distance_atr (dec 15 1)) v.m15_indicators.atr14
          (v.m15_len - 1))
    passed (zone_of_fvg f))

  ob_gate : View W → PendingSetup W → W → Gate (Option (ChartZone W))
  ob_gate v setup entry_price = when_on v.cfg.gates.use_ob_gate (do
    ob ← of_result (
        has_supporting_ob v.h1_candles setup.direction entry_price
          (or_else v.cfg.gates.ob_gate_max_distance_atr (dec 20 1)) v.h1_indicators.atr14
          (v.h1_len - 1))
    passed (zone_of_ob ob))

  bos_gate : View W → PendingSetup W → Gate (Option (ChartBreak W))
  bos_gate v setup = when_on v.cfg.gates.use_bos_gate (do
    bos ← of_attempt (
        has_bos_after v.h1_candles setup.direction setup.detected_at_h1_idx (v.h1_len - 1)
          (or_else v.cfg.gates.bos_gate_swing_lookback v.cfg.recent_swing_lookback_h1))
    passed record { level = bos.level; broken_at_time = bos.broken_at_time })

  -- The swing that was swept, where a gate asks for it.
  swept_swing : View W → PendingSetup W → Gate (Option ℕ)
  swept_swing v setup =
      let on = λ (flag : Option Bool). or_else flag false in
      when_on
        (some (
          on v.cfg.gates.use_ob_origin_gate
          || on v.cfg.gates.use_impulse_fvg_gate
          || on v.cfg.gates.use_bos_origin_gate))
        (of_result (
          find_swept_swing_idx v.h1_candles setup.detected_at_h1_idx setup.direction
            setup.sweep_level v.cfg.recent_swing_lookback_h1))

  ob_origin_gate : View W → PendingSetup W → Option ℕ → Gate (Option (ChartZone W))
  ob_origin_gate v setup swing = at_swing v.cfg.gates.use_ob_origin_gate swing λ swing_idx. do
    ob ← of_result (
        has_fresh_ob_at_swept_level v.h1_candles swing_idx setup.direction
          (or_else v.cfg.gates.ob_origin_lookback 12) v.h1_indicators.atr14
          (or_else v.cfg.gates.ob_origin_displacement_atr (dec 12 1)))
    passed (zone_of_ob ob)

  impulse_fvg_gate : View W → PendingSetup W → Option ℕ → Gate (Option (ChartZone W))
  impulse_fvg_gate v setup swing = at_swing v.cfg.gates.use_impulse_fvg_gate swing λ swing_idx. do
    f ← of_result (
        swept_move_left_fvg v.h1_candles swing_idx setup.direction
          (or_else v.cfg.gates.impulse_fvg_lookback 5) (some v.h1_indicators.atr14))
    passed (zone_of_fvg f)

  bos_origin_gate : View W → PendingSetup W → Option ℕ → Gate (Option (ChartBreak W))
  bos_origin_gate v setup swing = at_swing v.cfg.gates.use_bos_origin_gate swing λ swing_idx. do
    broken ← of_attempt (
        swept_level_was_itself_a_bos v.h1_candles swing_idx setup.direction
          (or_else v.cfg.gates.bos_origin_lookback 24) 5)
    passed record { level = broken.0; broken_at_time = broken.1 }

  -- All gates, in the order of the source.
  unfoldable pub pass_gates : View W → PendingSetup W → W → Gate (GateNotes W)
  unfolding fvg_gate ob_gate bos_gate swept_swing ob_origin_gate impulse_fvg_gate bos_origin_gate
  pass_gates v setup entry_price = do
    fvg ← fvg_gate v setup entry_price
    ob ← ob_gate v setup entry_price
    bos ← bos_gate v setup
    swing ← swept_swing v setup
    ob_origin ← ob_origin_gate v setup swing
    impulse_fvg ← impulse_fvg_gate v setup swing
    bos_origin ← bos_origin_gate v setup swing
    passed record {
      fvg = fvg;
      ob = ob;
      bos = bos;
      ob_origin = ob_origin;
      impulse_fvg = impulse_fvg;
      bos_origin = bos_origin;
    }
