-- ===== src/Orchestrator/Signal.antt =====
-- The fourth part of `LiveSmcOrchestrator.evaluate`: what becomes of one pending setup at the close of
-- a bar, and the signal of one that fires.
pub mod Protective
use shamarx_app.Prelude.{
  ℕ, ◌-◌, ◌/◌, ◌%◌, ◌^◌, Bool, true, false, not, ◌&&◌, Option, none, some, List, [], ◌∷◌, ◌++◌,
  String, ◌+++◌, any, get_elem?, or_else, if◌then◌else◌,
}
use shamarx_app.Double.{Double, ◌⊖◌, ◌⊗◌, ◌⊘◌, ◌⊲◌, ◌⊴◌, num, dec, cents, number_of}
use shamarx_app.Engine.{Side, buy, sell, EngineConfig, weak_trend}
use shamarx_app.Engine.Instrument.{get_spread}
use shamarx_app.Risk.{RiskManager, create}
use shamarx_app.Risk.Lots.{calculate_lot_size}
use shamarx_app.Broker.{SmcLiveSignal, SweepContext, Leg}
use shamarx_app.Smc.{
  D1Bias, bullish, bearish, neutral, PendingSetup, SmcPairConfig, ConvictionSizing,
}
use shamarx_app.Smc.Entry.{
  same_side, sl_price_of, entry_price_of, is_too_wide, ahead, round_to, mode_name, session_of,
}
use shamarx_app.Orchestrator.{LiveContext, Surroundings, has}
use shamarx_app.Orchestrator.Detect.{View}
use shamarx_app.Orchestrator.Gates.{Gate, thrown, rejected, passed, GateNotes, pass_gates}

-- What the loop over the pending setups does with one: it stays, it is spliced out, it fires and
-- stays, or an exception ends the loop.
pub data Verdict (W : Type 0) : Type 0 where
  keep : Verdict W
  discard : Verdict W
  fire : SmcLiveSignal W → Verdict W
  fail : Verdict W

abbrev pub side_name : Side → String
side_name buy = "BUY"
side_name sell = "SELL"

abbrev pub bias_name : D1Bias → String
bias_name bullish = "BULLISH"
bias_name bearish = "BEARISH"
bias_name neutral = "NEUTRAL"

-- The prices of an entry.
pub record Prices (W : Type 0) : Type 0 where
  pub entry_price : W
  pub sl_price : W
  pub sl_points : W

module _ {W : Type 0} ⦃d : Double W⦄ where
  -- The range of M15, where it is a positive number.
  abbrev positive_atr : Option W → Option W
  positive_atr none = none
  positive_atr (some a) = if num 0 ⊲ a then some a else none

  unfoldable pub prices_of : View W → PendingSetup W → W → Prices W
  prices_of v setup spread =
      let m15_atr = number_of (get_elem? v.m15_indicators.atr14 (v.m15_len - 1)) in
      let sl_buffer =
        or_else (positive_atr m15_atr) setup.sweep_candle_atr ⊗ v.cfg.sl_buffer_atr_m15 in
      let entry_price = entry_price_of setup.direction v.last_m15 spread in
      let sl_price = sl_price_of setup sl_buffer in
      record {
        entry_price = entry_price;
        sl_price = sl_price;
        sl_points = d.abs (entry_price ⊖ sl_price);
      }

  -- The stop is loose against the range of the sweep.
  unfoldable pub is_loose : SmcPairConfig W → PendingSetup W → W → Bool
  is_loose cfg setup sl_points =
      let cap = or_else cfg.max_sl_sweep_ratio (num 0) in
      let sweep_range = setup.sweep_candle_high ⊖ setup.sweep_candle_low in
      (num 0 ⊲ cap) && (num 0 ⊲ sweep_range) && (cap ⊲ sl_points ⊘ sweep_range)

  -- The stop is on the side of the entry on which it protects.
  abbrev pub is_protective : Side → Prices W → Bool
  is_protective buy p = p.sl_price ⊲ p.entry_price
  is_protective sell p = p.entry_price ⊲ p.sl_price

  sizing_config : Surroundings W → LiveContext W → String → EngineConfig W
  sizing_config env ctx symbol = record {
    symbol = symbol;
    initial_balance = ctx.account_equity;
    risk_percent = or_else ctx.risk_percent env.env_risk_percent;
    max_daily_loss_percent = num 4;
    max_consecutive_losses = 5;
    max_open_positions = or_else ctx.max_open_positions 4;
  }

  convicted : PendingSetup W → W → W → Option (ConvictionSizing W) → W
  convicted setup sl_points total_lot none = total_lot
  convicted setup sl_points total_lot (some c) =
      let range = setup.sweep_candle_high ⊖ setup.sweep_candle_low in
      let mult = if sl_points ⊘ range ⊲ c.tight_ratio then c.tight_mult else c.loose_mult in
      if num 0 ⊲ range then cents (total_lot ⊗ mult) else total_lot

  -- The size of the entry, by a risk manager of the account's equity.
  unfoldable pub total_lot_of : View W → PendingSetup W → Prices W → RiskManager W → W
  unfolding convicted
  total_lot_of v setup p m =
      convicted setup p.sl_points
        (calculate_lot_size m p.sl_points (some (num 60)) (some weak_trend) (some (num 50))
          (some p.entry_price))
        v.cfg.conviction_sizing

  format_reason : Surroundings W → View W → PendingSetup W → Bool → String
  format_reason env v setup ladder =
      mode_name setup.mode
      +++ " "
      +++ side_name setup.direction
      +++ " on "
      +++ v.cfg.symbol
      +++ " — D1 ADX="
      +++ env.to_fixed1 v.live_d1_adx
      +++ ", bias="
      +++ bias_name v.live_d1_bias
      +++ ", "
      +++ session_of v.last_m15.open_time
      +++ (if ladder then ", ladder" else "")

  context_of : View W → PendingSetup W → GateNotes W → Option (SweepContext W)
  context_of v setup notes = elim (get_elem? v.h1_candles setup.detected_at_h1_idx) [
    | none ↦ none
    | some sweep_candle ↦ some record {
      anchor_type = setup.anchor_type;
      swept_level = setup.sweep_level;
      swept_high = setup.sweep_candle_high;
      swept_low = setup.sweep_candle_low;
      sweep_candle_time = sweep_candle.open_time;
      d1_bias = v.live_d1_bias;
      fvg = notes.fvg;
      ob = notes.ob;
      bos = notes.bos;
      ob_origin = notes.ob_origin;
      impulse_fvg = notes.impulse_fvg;
      bos_origin = notes.bos_origin;
    }
  ]

  -- The fields that do not depend on the ladder.
  unfoldable pub signal_with :
      View W
      → PendingSetup W
      → Prices W
      → W
      → W
      → List (Leg W)
      → String
      → Option (SweepContext W)
      → SmcLiveSignal W
  signal_with v setup p total_lot tp_price legs reason smc_context =
      let factor = num (10 ^ v.instrument.price_precision) in
      record {
        symbol = v.symbol;
        side = setup.direction;
        entry_price = round_to factor p.entry_price;
        sl_price = round_to factor p.sl_price;
        tp_price = tp_price;
        total_lot = total_lot;
        legs = legs;
        mode = setup.mode;
        h1_sweep_time = setup.sweep_time;
        reason = reason;
        smc_context = smc_context;
      }

  -- The signal of the size, on one leg or on two; none where the size is too small.
  unfoldable pub signal_of :
      View W
      → PendingSetup W
      → Prices W
      → W
      → (Bool → String)
      → Option (SweepContext W)
      → Option (SmcLiveSignal W)
  signal_of v setup p total_lot reason smc_context =
      let factor = num (10 ^ v.instrument.price_precision) in
      let target =
        λ (r : W). round_to factor (ahead setup.direction p.entry_price (p.sl_points ⊗ r)) in
      let tags = λ (name : String).
        "SMC" ∷ "SWEEP" ∷ session_of v.last_m15.open_time ∷ mode_name setup.mode ∷ name ∷ [] in
      let leg : W → W → String → Leg W =
        λ lot r name. record { lot_size = lot; tp_price = target r; setup_tags = tags name } in
      let tp1_lot = d.maximum (dec 1 2) (cents (total_lot ⊗ v.cfg.tp1_partial_fraction)) in
      let runner_lot = d.maximum (dec 1 2) (cents (total_lot ⊖ tp1_lot)) in
      let single =
        signal_with v setup p total_lot (target v.cfg.tp2_r)
          (leg total_lot v.cfg.tp2_r "RUNNER" ∷ []) (reason false) smc_context in
      let ladder =
        signal_with v setup p total_lot (target v.cfg.tp1_r)
          (leg tp1_lot v.cfg.tp1_r "TP1" ∷ leg runner_lot v.cfg.tp2_r "RUNNER" ∷ []) (reason true)
          smc_context in
      if num 0 ⊲ v.cfg.tp1_partial_fraction
      then (if total_lot ⊲ dec 2 2
          then none
          else if tp1_lot ⊲ dec 1 2
          then none
          else if runner_lot ⊲ dec 1 2
          then none
          else some ladder)
      else if total_lot ⊲ dec 1 2
      then none
      else some single

  abbrev fire_or_keep : Option (SmcLiveSignal W) → Verdict W
  fire_or_keep none = keep
  fire_or_keep (some signal) = fire signal

  -- The sizing and the signal.
  unfoldable pub size_and_fire :
      Surroundings W
      → View W
      → LiveContext W
      → PendingSetup W
      → Prices W
      → Gate (GateNotes W)
      → Verdict W
  unfolding sizing_config format_reason context_of
  size_and_fire env v ctx setup p thrown = fail
  size_and_fire env v ctx setup p rejected = keep
  size_and_fire env v ctx setup p (passed notes) = elim (create (sizing_config env ctx v.symbol)) [
    | none ↦ fail
    | some m ↦ fire_or_keep (
        signal_of v setup p (total_lot_of v setup p m) (format_reason env v setup)
          (context_of v setup notes))
  ]

  -- The tests on the stop, then the gates.
  unfoldable pub judge_prices :
      Surroundings W → View W → LiveContext W → PendingSetup W → Prices W → Verdict W
  judge_prices env v ctx setup p =
      let m15_atr = number_of (get_elem? v.m15_indicators.atr14 (v.m15_len - 1)) in
      let sized = size_and_fire env v ctx setup p (pass_gates v setup p.entry_price) in
      if p.sl_points ⊴ num 0
      then discard
      else if is_loose v.cfg setup p.sl_points
      then keep
      else if not (is_protective setup.direction p)
      then discard
      else if is_too_wide v.cfg m15_atr p.sl_points
      then discard
      else sized

  -- The body of the loop over the pending setups.
  unfoldable pub judge :
      Surroundings W → View W → LiveContext W → List ℕ → PendingSetup W → Verdict W
  judge env v ctx actioned setup =
      let judged : Verdict W = elim (get_spread v.symbol v.last_m15.open_time) [
        | none ↦ fail
        | some spread ↦ judge_prices env v ctx setup (prices_of v setup spread)
      ] in
      if any (same_side setup.direction) ctx.open_directions
      then keep
      else if has actioned setup.sweep_time
      then discard
      else judged
