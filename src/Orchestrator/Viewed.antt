-- ===== src/Orchestrator/Viewed.antt =====
-- What an evaluation reads of its market, field by field: the pair's own configuration, the candles
-- given, their series, the lengths in use, and the last M15 bar.
use shamarx_app.Prelude.{ℕ, ◌-◌, ◌≡◌, refl, Option, some, List, String, get_elem?}
use shamarx_app.Double.{Double}
use shamarx_app.Engine.{BacktestCandle}
use shamarx_app.Engine.Instrument.{InstrumentConfig, get_instrument_config}
use shamarx_app.Smc.{IndicatorState, SmcPairConfig}
use shamarx_app.Smc.Pairs.{get_smc_pair_config}
use shamarx_app.Orchestrator.{Surroundings, PrecomputedIndicators}
use shamarx_app.Orchestrator.Detect.{View, indicators_of, d1_indicators_of, live_adx, live_bias}

-- The market: the candles, the first of them that are in use, and the series computed before.
pub record Feed (W : Type 0) : Type 0 where
  pub m15_candles : List (BacktestCandle W)
  pub h1_candles : List (BacktestCandle W)
  pub d1_candles : List (BacktestCandle W)
  pub m15_len : ℕ
  pub h1_len : ℕ
  pub d1_len : ℕ
  pub m15_series : Option (IndicatorState W)
  pub h1_series : Option (IndicatorState W)
  pub precomputed : Option (PrecomputedIndicators W)

module _ {W : Type 0} ⦃d : Double W⦄ where
  pub record IsViewOf (env : Surroundings W) (symbol : String) (f : Feed W) (v : View W)
      : Type 0 where
    pub same_symbol : v.symbol ≡ symbol
    pub own_config : get_smc_pair_config env.overrides symbol ≡ some v.cfg
    pub own_instrument : get_instrument_config symbol ≡ some v.instrument
    pub m15_there : v.m15_candles ≡ f.m15_candles
    pub h1_there : v.h1_candles ≡ f.h1_candles
    pub d1_there : v.d1_candles ≡ f.d1_candles
    pub m15_used : v.m15_len ≡ f.m15_len
    pub h1_used : v.h1_len ≡ f.h1_len
    pub last_bar : get_elem? f.m15_candles (f.m15_len - 1) ≡ some v.last_m15
    pub m15_read : indicators_of env.indicators f.m15_series f.m15_candles ≡ some v.m15_indicators
    pub h1_read : indicators_of env.indicators f.h1_series f.h1_candles ≡ some v.h1_indicators
    pub d1_read : d1_indicators_of env.indicators f.precomputed f.d1_candles ≡ some v.d1_indicators
    pub bias : v.live_d1_bias ≡ live_bias f.d1_candles v.d1_indicators v.last_m15.open_time
    pub adx : v.live_d1_adx ≡ live_adx v.d1_indicators f.d1_len

  -- The view of the feed, from the values read.
  abbrev pub read_view :
      String
      → Feed W
      → SmcPairConfig W
      → InstrumentConfig W
      → BacktestCandle W
      → IndicatorState W
      → IndicatorState W
      → Option (IndicatorState W)
      → View W
  read_view symbol f cfg instrument last_m15 m15 h1 d1 = record {
    symbol = symbol;
    cfg = cfg;
    instrument = instrument;
    m15_candles = f.m15_candles;
    h1_candles = f.h1_candles;
    d1_candles = f.d1_candles;
    m15_indicators = m15;
    h1_indicators = h1;
    d1_indicators = d1;
    m15_len = f.m15_len;
    h1_len = f.h1_len;
    last_m15 = last_m15;
    live_d1_bias = live_bias f.d1_candles d1 last_m15.open_time;
    live_d1_adx = live_adx d1 f.d1_len;
  }

  pub read_view-IsViewOf :
      (env : Surroundings W) (symbol : String) (f : Feed W) (cfg : SmcPairConfig W)
      (instrument : InstrumentConfig W) (last_m15 : BacktestCandle W) (m15 h1 : IndicatorState W)
      (d1 : Option (IndicatorState W))
      → get_smc_pair_config env.overrides symbol ≡ some cfg
      → get_instrument_config symbol ≡ some instrument
      → get_elem? f.m15_candles (f.m15_len - 1) ≡ some last_m15
      → indicators_of env.indicators f.m15_series f.m15_candles ≡ some m15
      → indicators_of env.indicators f.h1_series f.h1_candles ≡ some h1
      → d1_indicators_of env.indicators f.precomputed f.d1_candles ≡ some d1
      → IsViewOf env symbol f (read_view symbol f cfg instrument last_m15 m15 h1 d1)
  read_view-IsViewOf env symbol f cfg instrument last_m15 m15 h1 d1 own listed at m15_is h1_is
        d1_is =
      record {
        same_symbol = refl;
        own_config = own;
        own_instrument = listed;
        m15_there = refl;
        h1_there = refl;
        d1_there = refl;
        m15_used = refl;
        h1_used = refl;
        last_bar = at;
        m15_read = m15_is;
        h1_read = h1_is;
        d1_read = d1_is;
        bias = refl;
        adx = refl;
      }
