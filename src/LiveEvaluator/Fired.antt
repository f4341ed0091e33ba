-- ===== src/LiveEvaluator/Fired.antt =====
-- What holds where the stateless evaluator answers with a signal.
use shamarx_app.Prelude.{
  ℕ, ◌-◌, ◌/◌, ◌%◌, ◌≡◌, ◌&&◌, true, false, none, some, [], any, leb, ltb, length, get_elem?,
  or_else,
}
use shamarx_app.Double.{Double, ◌⊲◌, number_of}
use shamarx_app.Engine.{BacktestCandle}
use shamarx_app.Engine.Instrument.{get_spread}
use shamarx_app.News.{event_times_ms, is_in_blackout}
use shamarx_app.Smc.{PendingSetup}
use shamarx_app.Smc.Sweep.{detect_sweep}
use shamarx_app.Smc.Engine.{same_mode}
use shamarx_app.Smc.Entry.{same_side, is_too_wide}
use shamarx_app.Broker.{SmcLiveSignal}
use shamarx_app.Orchestrator.{has}
use shamarx_app.Orchestrator.Detect.{View}
use shamarx_app.Orchestrator.Viewed.{Feed}
use shamarx_app.Orchestrator.Signal.{Prices}
use shamarx_app.Orchestrator.Signal.Protective.{IsPricedAt, IsSignalOf}
use shamarx_app.LiveEvaluator.{LiveEvaluationContext, Buffers}

module _ {W : Type 0} ⦃d : Double W⦄ where
  -- The market of an evaluation: the whole buffers, with nothing computed before.
  abbrev pub feed_of : Buffers W → Feed W
  feed_of b = record {
    m15_candles = b.m15_candles;
    h1_candles = b.h1_candles;
    d1_candles = b.d1_candles;
    m15_len = length b.m15_candles;
    h1_len = length b.h1_candles;
    d1_len = length b.d1_candles;
    m15_series = none;
    h1_series = none;
    precomputed = none;
  }

  -- The setup, with the time of the H1 bar it is on, is new, enabled, and on a side that is not open;
  -- the signal is that of this setup at the prices of the last M15 bar, and the stop is not too wide.
  pub record IsAdmitted (v : View W) (ctx : LiveEvaluationContext W) (setup : PendingSetup W)
      (signal : SmcLiveSignal W) : Type 0 where
    pub candle : BacktestCandle W
    pub on_bar : get_elem? v.h1_candles setup.detected_at_h1_idx ≡ some candle
    pub enabled : any (same_mode setup.mode) (or_else v.cfg.disabled_modes []) ≡ false
    pub new : has ctx.recently_entered_sweep_times candle.open_time ≡ false
    pub unstacked : any (same_side setup.direction) ctx.open_directions ≡ false
    pub spread : W
    pub quoted : get_spread v.symbol v.last_m15.open_time ≡ some spread
    pub prices : Prices W
    pub priced : IsPricedAt v (record setup { sweep_time = candle.open_time }) spread prices
    pub narrow :
        is_too_wide v.cfg
          (number_of (get_elem? v.m15_indicators.atr14 (v.m15_len - 1)))
          prices.sl_points
        ≡ false
    pub of_setup : IsSignalOf v (record setup { sweep_time = candle.open_time }) prices signal

  -- The gates of the bar are open, and the last closed H1 bar has an admitted sweep, which is that of
  -- the signal.
  pub record IsAnswered (v : View W) (ctx : LiveEvaluationContext W) (signal : SmcLiveSignal W)
      : Type 0 where
    pub trending : (v.live_d1_adx ⊲ v.cfg.d1_adx_floor) ≡ false
    pub in_hours :
        any
          (λ (k : ℕ × ℕ).
            leb k.0 (v.last_m15.open_time / 3600000 % 24)
            && ltb (v.last_m15.open_time / 3600000 % 24) k.1)
          v.cfg.killzones
        ≡ true
    pub quiet :
        (ltb 0 (or_else v.cfg.news_blackout_minutes 0)
          && is_in_blackout event_times_ms v.last_m15.open_time
              (or_else v.cfg.news_blackout_minutes 0))
        ≡ false
    pub setup : PendingSetup W
    pub swept :
        detect_sweep v.h1_candles v.h1_indicators
          (v.h1_len - 1)
          v.live_d1_bias
          v.live_d1_adx
          v.cfg
          (record {
            candles = some v.d1_candles;
            indicators = v.d1_indicators;
            current_time = some v.last_m15.open_time;
          })
        ≡ some setup
    pub admitted : IsAdmitted v ctx setup signal
