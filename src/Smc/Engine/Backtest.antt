-- ===== src/Smc/Engine/Backtest.antt =====
-- `runSmcBacktest` of src/backtest/engine/smc/smc-engine.ts as a whole: the lookups and the series
-- before the loop, and the result after it.
use shamarx_app.Prelude.{
  Option, none, some, List, [], ◌∷◌, String, ltb, if◌then◌else◌, length, ◌>>=◌,
}
use shamarx_app.Double.{Double}
use shamarx_app.Engine.{BacktestCandle, ClosedTrade, EngineConfig}
use shamarx_app.Engine.Instrument.{InstrumentConfig, get_instrument_config}
use shamarx_app.Risk.{create}
use shamarx_app.Metrics.{BacktestMetrics, calculate_metrics}
use shamarx_app.Indicators.{TechnicalIndicators, compute_indicators}
use shamarx_app.Smc.{IndicatorState, SmcPairConfig}
use shamarx_app.Smc.Pairs.{get_smc_pair_config}
use shamarx_app.Smc.Engine.{Market, run_market}

module _ {W : Type 0} ⦃d : Double W⦄ where
  -- `null` where there are no daily candles.
  unfoldable pub daily_indicators :
      TechnicalIndicators W → List (BacktestCandle W) → Option (Option (IndicatorState W))
  daily_indicators lib [] = some none
  daily_indicators lib (c ∷ rest) = do s ← compute_indicators lib (c ∷ rest); some (some s)

  unfoldable pub market_of :
      TechnicalIndicators W
      → InstrumentConfig W
      → SmcPairConfig W
      → List (BacktestCandle W)
      → List (BacktestCandle W)
      → List (BacktestCandle W)
      → EngineConfig W
      → Option (Market W)
  unfolding daily_indicators
  market_of lib instrument cfg m15 h1 d1 config = do
    m15_indicators ← compute_indicators lib m15
    h1_indicators ← compute_indicators lib h1
    d1_indicators ← daily_indicators lib d1
    some record {
      config = config;
      instrument = instrument;
      cfg = cfg;
      m15_candles = m15;
      h1_candles = h1;
      d1_candles = d1;
      m15_indicators = m15_indicators;
      h1_indicators = h1_indicators;
      d1_indicators = d1_indicators;
    }

  -- The trades of `runSmcBacktest` and their metrics, under the overrides of the pair configurations.
  unfoldable pub run_smc_backtest :
      TechnicalIndicators W
      → (W → W)
      → (W → W)
      → List (String × (SmcPairConfig W → SmcPairConfig W))
      → List (BacktestCandle W)
      → List (BacktestCandle W)
      → List (BacktestCandle W)
      → EngineConfig W
      → Option (List (ClosedTrade W) × BacktestMetrics W)
  run_smc_backtest lib sqrt square overrides m15 h1 d1 config = do
    instrument ← get_instrument_config config.symbol
    cfg ← get_smc_pair_config overrides config.symbol
    let ran = do
      m ← market_of lib instrument cfg m15 h1 d1 config
      risk ← create config
      s ← run_market m risk
      some (s.closed, calculate_metrics sqrt square s.closed config.initial_balance)
    let too_few = some ([], calculate_metrics sqrt square [] config.initial_balance)
    if ltb (length h1) 30 then too_few else ran
