-- ===== src/LiveEvaluator.antt =====
-- `SmcLiveEvaluator` of src/strategy/live/smc-live-evaluator.ts, the stateless evaluator that the live
-- orchestrator replaces: one evaluation of the last M15 bar. It reads the market and builds the signal
-- as the orchestrator does, with fewer tests on the setup.
pub mod Fired
use shamarx_app.Prelude.{
  ℕ, ◌-◌, ◌/◌, ◌%◌, Bool, true, false, not, ◌||◌, Option, none, some, List, [], ◌∷◌, String, ◌+++◌,
  ltb, any, get_elem?, length, or_else, if◌then◌else◌, ◌>>=◌,
}
use shamarx_app.Double.{Double, ◌⊲◌, ◌⊴◌, num, number_of}
use shamarx_app.Engine.{Side, BacktestCandle, EngineConfig, weak_trend}
use shamarx_app.Engine.Instrument.{get_instrument_config, get_spread}
use shamarx_app.Risk.{RiskManager, create}
use shamarx_app.Risk.Lots.{calculate_lot_size}
use shamarx_app.Smc.{PendingSetup}
use shamarx_app.Smc.Pairs.{get_smc_pair_config}
use shamarx_app.Smc.Sweep.{D1Context, detect_sweep}
use shamarx_app.Smc.Engine.{in_killzone, is_blacked_out, same_mode}
use shamarx_app.Smc.Entry.{same_side, is_too_wide, mode_name, session_of}
use shamarx_app.Broker.{SmcLiveSignal}
use shamarx_app.Orchestrator.{Surroundings, has}
use shamarx_app.Orchestrator.Detect.{View, indicators_of, d1_indicators_of, live_adx, live_bias}
use shamarx_app.Orchestrator.Signal.{Prices, prices_of, signal_of, side_name, bias_name}
use shamarx_app.Orchestrator.Evaluate.{Outcome, thrown, silent, fired}

pub record LiveEvaluationContext (W : Type 0) : Type 0 where
  pub account_equity : W
  pub open_directions : List Side
  pub recently_entered_sweep_times : List ℕ

-- The arguments of an evaluation.
pub record Buffers (W : Type 0) : Type 0 where
  pub m15_candles : List (BacktestCandle W)
  pub h1_candles : List (BacktestCandle W)
  pub d1_candles : List (BacktestCandle W)
  pub risk_percent : Option W

module _ {W : Type 0} ⦃d : Double W⦄ where
  -- What the evaluation reads, with the computed indicators; none where reading it throws.
  unfoldable pub view_of : Surroundings W → String → Buffers W → Option (View W)
  view_of env symbol b = do
    cfg ← get_smc_pair_config env.overrides symbol
    instrument ← get_instrument_config symbol
    m15 ← indicators_of env.indicators none b.m15_candles
    h1 ← indicators_of env.indicators none b.h1_candles
    d1 ← d1_indicators_of env.indicators none b.d1_candles
    last_m15 ← get_elem? b.m15_candles (length b.m15_candles - 1)
    some record {
      symbol = symbol;
      cfg = cfg;
      instrument = instrument;
      m15_candles = b.m15_candles;
      h1_candles = b.h1_candles;
      d1_candles = b.d1_candles;
      m15_indicators = m15;
      h1_indicators = h1;
      d1_indicators = d1;
      m15_len = length b.m15_candles;
      h1_len = length b.h1_candles;
      last_m15 = last_m15;
      live_d1_bias = live_bias b.d1_candles d1 last_m15.open_time;
      live_d1_adx = live_adx d1 (length b.d1_candles);
    }

  -- Part 4: the sweep of the last closed H1 bar.
  unfoldable pub last_sweep : View W → Option (PendingSetup W)
  last_sweep v =
      let ctx : D1Context W = record {
        candles = some v.d1_candles;
        indicators = v.d1_indicators;
        current_time = some v.last_m15.open_time;
      } in
      detect_sweep v.h1_candles v.h1_indicators (v.h1_len - 1) v.live_d1_bias v.live_d1_adx v.cfg
        ctx

  pub sizing_config : Surroundings W → LiveEvaluationContext W → Buffers W → String → EngineConfig W
  sizing_config env ctx b symbol = record {
    symbol = symbol;
    initial_balance = ctx.account_equity;
    risk_percent = or_else b.risk_percent env.env_risk_percent;
    max_daily_loss_percent = num 4;
    max_consecutive_losses = 5;
    max_open_positions = 4;
  }

  pub reason_of : Surroundings W → (W → String) → View W → PendingSetup W → Bool → String
  reason_of env number_text v setup ladder =
      mode_name setup.mode
      +++ " "
      +++ side_name setup.direction
      +++ " on "
      +++ v.cfg.symbol
      +++ " — D1 ADX="
      +++ env.to_fixed1 v.live_d1_adx
      +++ " (≥"
      +++ number_text v.cfg.d1_adx_floor
      +++ "), bias="
      +++ bias_name v.live_d1_bias
      +++ ", "
      +++ session_of v.last_m15.open_time
      +++ (if ladder then ", ladder" else "")

  abbrev pub answer : Option (SmcLiveSignal W) → Outcome W
  answer none = silent
  answer (some signal) = fired signal

  -- Parts 7 to 9: the prices, the cap on the stop, the size and the signal.
  unfoldable pub price_and_size :
      Surroundings W
      → (W → String)
      → LiveEvaluationContext W
      → Buffers W
      → View W
      → PendingSetup W
      → Prices W
      → Outcome W
  unfolding sizing_config reason_of
  price_and_size env number_text ctx b v setup p =
      let m15_atr = number_of (get_elem? v.m15_indicators.atr14 (v.m15_len - 1)) in
      let sized : Outcome W = elim (create (sizing_config env ctx b v.symbol)) [
        | none ↦ thrown
        | some m ↦ answer (
            signal_of v setup p
              (calculate_lot_size m p.sl_points (some (num 60)) (some weak_trend) (some (num 50))
                (some p.entry_price))
              (reason_of env number_text v setup) none)
      ] in
      if p.sl_points ⊴ num 0
      then silent
      else if is_too_wide v.cfg m15_atr p.sl_points
      then silent
      else sized

  -- Parts 5 and 6, for a setup that has been detected on the bar at `sweep_time`.
  unfoldable pub judge_setup :
      Surroundings W
      → (W → String)
      → LiveEvaluationContext W
      → Buffers W
      → View W
      → PendingSetup W
      → ℕ
      → Outcome W
  judge_setup env number_text ctx b v setup sweep_time =
      let timed = record setup { sweep_time = sweep_time } in
      let priced : Outcome W = elim (get_spread v.symbol v.last_m15.open_time) [
        | none ↦ thrown
        | some spread ↦ price_and_size env number_text ctx b v timed (prices_of v timed spread)
      ] in
      if any (same_mode setup.mode) (or_else v.cfg.disabled_modes [])
      then silent
      else if has ctx.recently_entered_sweep_times sweep_time
      then silent
      else if any (same_side setup.direction) ctx.open_directions
      then silent
      else priced

  abbrev judge_found :
      Surroundings W
      → (W → String)
      → LiveEvaluationContext W
      → Buffers W
      → View W
      → Option (PendingSetup W)
      → Outcome W
  judge_found env number_text ctx b v none = silent
  judge_found env number_text ctx b v (some setup) =
      elim (get_elem? v.h1_candles setup.detected_at_h1_idx) [
        | none ↦ thrown
        | some candle ↦ judge_setup env number_text ctx b v setup candle.open_time
      ]

  -- The gates, then the sweep.
  unfoldable pub evaluate_view :
      Surroundings W
      → (W → String)
      → LiveEvaluationContext W
      → Buffers W
      → Option (View W)
      → Outcome W
  evaluate_view env number_text ctx b none = thrown
  evaluate_view env number_text ctx b (some v) =
      let time = v.last_m15.open_time in
      if v.live_d1_adx ⊲ v.cfg.d1_adx_floor
      then silent
      else if not (in_killzone time v.cfg.killzones)
      then silent
      else if is_blacked_out v.cfg time
      then silent
      else judge_found env number_text ctx b v (last_sweep v)

  -- `evaluate`; `number_text` writes a number as a template literal does.
  unfoldable pub evaluate :
      Surroundings W → (W → String) → String → Buffers W → LiveEvaluationContext W → Outcome W
  evaluate env number_text symbol b ctx =
      let known = evaluate_view env number_text ctx b (view_of env symbol b) in
      if ltb (length b.m15_candles) 30 || ltb (length b.h1_candles) 30 then silent else known
