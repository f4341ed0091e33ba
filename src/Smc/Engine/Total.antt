-- ===== src/Smc/Engine/Total.antt =====
-- A run of the engine on a known pair reaches its end.
use shamarx_app.Prelude.{
  ℕ, ◌+◌, ◌≡◌, refl, inl, inr, Option, none, some, List, [], ◌∷◌, String, arith, length, ltb,
  Option-cases, Bool-cases,
}
use shamarx_app.Double.{Double}
use shamarx_app.Engine.{BacktestCandle, EngineConfig, ClosedTrade}
use shamarx_app.Engine.Instrument.{InstrumentConfig, get_instrument_config, get_spread}
use shamarx_app.Risk.{RiskManager, create}
use shamarx_app.Indicators.{TechnicalIndicators}
use shamarx_app.Indicators.Aligned.{IsShort, compute_indicators-total}
use shamarx_app.Smc.{IndicatorState, SmcPairConfig}
use shamarx_app.Metrics.{calculate_metrics}
use shamarx_app.Smc.Pairs.{get_smc_pair_config}
use shamarx_app.Smc.Engine.Backtest.{daily_indicators, market_of, run_smc_backtest}
use shamarx_app.Smc.Engine.{Market, Run, run_bar, run_bars, finish, start, run_market}

module _ {W : Type 0} ⦃d : Double W⦄ where
  run_bars-total :
      (m : Market W) (instrument : InstrumentConfig W)
      → get_instrument_config m.config.symbol ≡ some instrument
      → (i : ℕ) (candles : List (BacktestCandle W)) (s : Run W)
      → (q : Run W) × (run_bars m i candles s ≡ some q)
  unfolding run_bars run_bar get_spread
  run_bars-total m instrument known i [] s = (s, refl)
  run_bars-total m instrument known i (candle ∷ later) s =
      elim (Option-cases (run_bar m i candle s)) [
        | inl thrown ↦ absurd (ground arith)
        | inr (next, ran) ↦
            let (q, rest) = run_bars-total m instrument known (i + 1) later next in
            (q, ground arith)
      ]

  run_market-total :
      (m : Market W) (instrument : InstrumentConfig W)
      → get_instrument_config m.config.symbol ≡ some instrument
      → (risk : RiskManager W) → (q : Run W) × (run_market m risk ≡ some q)
  unfolding run_market
  run_market-total m instrument known risk =
      let (s, ran) = run_bars-total m instrument known 0 m.m15_candles (start risk) in
      (finish m s, ground arith)

  daily_indicators-total :
      (lib : TechnicalIndicators W)
      → IsShort lib
      → (candles : List (BacktestCandle W))
      → (s : Option (IndicatorState W)) × (daily_indicators lib candles ≡ some s)
  unfolding daily_indicators
  daily_indicators-total lib short [] = (none, refl)
  daily_indicators-total lib short (c ∷ rest) =
      let (s, computed) = compute_indicators-total lib short (c ∷ rest) in (some s, ground arith)

  market_of-total :
      (lib : TechnicalIndicators W)
      → IsShort lib
      → (instrument : InstrumentConfig W) (cfg : SmcPairConfig W)
        (m15 h1 d1 : List (BacktestCandle W)) (config : EngineConfig W)
      → (m : Market W) × ((market_of lib instrument cfg m15 h1 d1 config ≡ some m)
          × (m.config ≡ config))
  unfolding market_of
  market_of-total lib short instrument cfg m15 h1 d1 config =
      let (a, ha) = compute_indicators-total lib short m15 in
      let (b, hb) = compute_indicators-total lib short h1 in
      let (c, hc) = daily_indicators-total lib short d1 in
      (
        record {
          config = config;
          instrument = instrument;
          cfg = cfg;
          m15_candles = m15;
          h1_candles = h1;
          d1_candles = d1;
          m15_indicators = a;
          h1_indicators = b;
          d1_indicators = c;
        },
        (ground arith, refl),
      )

  -- For a symbol that both tables know, and with a library of indicators that returns no more
  -- values than it is given, the backtest returns trades with the metrics of just these, whatever the candles are.
  pub run_smc_backtest-total :
      (lib : TechnicalIndicators W)
      → IsShort lib
      → (sqrt square : W → W) (overrides : List (String × (SmcPairConfig W → SmcPairConfig W)))
        (m15 h1 d1 : List (BacktestCandle W)) (config : EngineConfig W)
        (instrument : InstrumentConfig W) (cfg : SmcPairConfig W)
      → get_instrument_config config.symbol ≡ some instrument
      → get_smc_pair_config overrides config.symbol ≡ some cfg
      → (trades : List (ClosedTrade W)) × (run_smc_backtest lib sqrt square overrides m15 h1 d1
            config
          ≡ some (trades, calculate_metrics sqrt square trades config.initial_balance))
  unfolding run_smc_backtest create
  run_smc_backtest-total lib short sqrt square overrides m15 h1 d1 config instrument cfg known
        paired =
      let (m, (built, same)) = market_of-total lib short instrument cfg m15 h1 d1 config in
      elim (Option-cases (create config)) [
        | inl thrown ↦ absurd (ground arith)
        | inr (risk, created) ↦
            let (s, ran) = run_market-total m instrument (rw (same, known) refl) risk in
            elim (Bool-cases (ltb (length h1) 30)) [
              | inl few ↦ ([], ground arith)
              | inr enough ↦ (s.closed, ground arith)
            ]
      ]
