-- ===== src/Indicators.antt =====
-- src/backtest/engine/indicator-calculator.ts, and the daily bias that
-- src/backtest/engine/strategy-evaluator.ts reads off the series. The indicators themselves are
-- those of the package `technicalindicators`, which is a parameter.
pub mod Aligned
use shamarx_app.Prelude.{
  ℕ, zero, suc, ◌+◌, ◌-◌, Bool, true, false, not, ◌&&◌, Option, none, some, List, [], ◌∷◌, ◌++◌,
  map, ltb, leb, if◌then◌else◌, get_elem?, length, ◌>>=◌,
}
use shamarx_app.Double.{Double, ◌⊖◌, ◌⊘◌, ◌⊲◌, ◌⊴◌, num, dec, number_of}
use shamarx_app.Engine.{BacktestCandle}
use shamarx_app.Smc.{D1Bias, bullish, bearish, neutral, IndicatorState}
use shamarx_app.Smc.Index.{index_for_time}

-- One value of the average directional index.
pub record AdxOutput (W : Type 0) : Type 0 where
  pub adx : W
  pub pdi : W
  pub mdi : W

-- `EMA`, `RSI`, `ATR`, `ADX` and `SMA` of the package, by period; the ranges take highs, lows and
-- closes.
pub record TechnicalIndicators (W : Type 0) : Type 0 where
  pub ema : ℕ → List W → List W
  pub rsi : ℕ → List W → List W
  pub sma : ℕ → List W → List W
  pub atr : ℕ → List W → List W → List W → List W
  pub adx : ℕ → List W → List W → List W → List (AdxOutput W)

abbrev repeat {ℓ} : {A : Type ℓ} → ℕ → A → List A
repeat zero x = []
repeat (suc n) x = x ∷ repeat n x

module _ {W : Type 0} ⦃d : Double W⦄ where
  -- `pad`; a series longer than the candles would make `Array` throw. NaN is 0 / 0.
  unfoldable pub pad : ℕ → List W → Option (List W)
  pad count series =
      if ltb count (length series)
      then none
      else some (repeat (count - length series) (num 0 ⊘ num 0) ++ series)

  unfoldable pub compute_indicators :
      TechnicalIndicators W → List (BacktestCandle W) → Option (IndicatorState W)
  compute_indicators lib candles =
      let closes = map (λ (c : BacktestCandle W). c.close) candles in
      let highs = map (λ (c : BacktestCandle W). c.high) candles in
      let lows = map (λ (c : BacktestCandle W). c.low) candles in
      let atr14_raw = lib.atr 14 highs lows closes in
      let adx_raw = lib.adx 14 highs lows closes in
      let n = length closes in
      do
        ema20 ← pad n (lib.ema 20 closes)
        ema50 ← pad n (lib.ema 50 closes)
        ema200 ← pad n (lib.ema 200 closes)
        rsi14 ← pad n (lib.rsi 14 closes)
        atr14 ← pad n atr14_raw
        adx14 ← pad n (map (λ (v : AdxOutput W). v.adx) adx_raw)
        plus_di14 ← pad n (map (λ (v : AdxOutput W). v.pdi) adx_raw)
        minus_di14 ← pad n (map (λ (v : AdxOutput W). v.mdi) adx_raw)
        atr_baseline ← pad n (lib.sma 20 atr14_raw)
        some record {
          ema20 = ema20;
          ema50 = ema50;
          ema200 = ema200;
          rsi14 = rsi14;
          atr14 = atr14;
          adx14 = adx14;
          plus_di14 = plus_di14;
          minus_di14 = minus_di14;
          atr_baseline = atr_baseline;
        }

  bias_of : W → W → W → D1Bias
  bias_of ema50 ema50_prev close =
      let slope = ema50 ⊖ ema50_prev in
      let above = ema50 ⊲ close in
      if d.abs slope ⊘ d.maximum (num 1) close ⊲ dec 3 3
      then neutral
      else if (num 0 ⊲ slope) && above
      then bullish
      else if (slope ⊲ num 0) && not above
      then bearish
      else neutral

  -- `getD1Bias`.
  pub get_d1_bias : List (BacktestCandle W) → IndicatorState W → ℕ → D1Bias
  unfolding bias_of
  get_d1_bias candles s current_time = elim (index_for_time candles current_time) [
    | none ↦ neutral
    | some idx ↦ elim (number_of (get_elem? s.ema50 idx)) [
      | none ↦ neutral
      | some ema50 ↦ elim (number_of (get_elem? s.ema50 (idx - 5))) [
        | none ↦ neutral
        | some ema50_prev ↦ elim (get_elem? candles idx) [
          | none ↦ neutral
          | some c ↦ if ltb idx 5 then neutral else bias_of ema50 ema50_prev c.close
        ]
      ]
    ]
  ]

  -- `d1AdxAt` of src/backtest/engine/smc/smc-engine.ts.
  unfoldable pub d1_adx_at : List (BacktestCandle W) → Option (IndicatorState W) → ℕ → W
  d1_adx_at candles none time = num 0
  d1_adx_at candles (some s) time = elim (index_for_time candles time) [
    | none ↦ num 0
    | some idx ↦ elim (number_of (get_elem? s.adx14 idx)) [ none ↦ num 0 | some adx ↦ adx ]
  ]
