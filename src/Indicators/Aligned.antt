-- ===== src/Indicators/Aligned.antt =====
-- Each series of indicators is aligned with the candles.
use shamarx_app.Prelude.{
  ℕ, zero, suc, ◌-◌, ◌≡◌, ◌≤◌, ◌∙◌, subst, refl, inl, inr, some, List, ◌++◌, map, arith, ltb,
  length, length-append, length-map, Bool-cases,
}
use shamarx_app.Double.{Double, ◌⊘◌, num}
use shamarx_app.Engine.{BacktestCandle}
use shamarx_app.Smc.{IndicatorState}
use shamarx_app.Indicators.{AdxOutput, TechnicalIndicators, repeat, pad, compute_indicators}

length-repeat {ℓ} : {A : Type ℓ} (n : ℕ) (x : A) → length (repeat n x) ≡ n
length-repeat zero x = refl
length-repeat (suc n) x = omega (arith, length-repeat n x)

module _ {W : Type 0} ⦃d : Double W⦄ where
  length-pad : (n : ℕ) (series out : List W) → pad n series ≡ some out → length out ≡ n
  unfolding pad
  length-pad n series out h = elim (Bool-cases (ltb n (length series))) [
    | inl longer ↦ absurd (ground arith)
    | inr fits ↦
        let filled = repeat (n - length series) (num 0 ⊘ num 0) in
        let same : filled ++ series ≡ out = ground arith in
        let long_enough : length series ≤ n = ground arith in
        subst (λ xs. length xs ≡ n) same
          (omega
            (arith, length-append filled series, length-repeat (n - length series) (num 0 ⊘ num 0)))
  ]

  -- Every series of the state has one entry for each candle.
  pub record IsAligned (candles : List (BacktestCandle W)) (s : IndicatorState W) : Type 0 where
    pub ema20 : length s.ema20 ≡ length candles
    pub ema50 : length s.ema50 ≡ length candles
    pub ema200 : length s.ema200 ≡ length candles
    pub rsi14 : length s.rsi14 ≡ length candles
    pub atr14 : length s.atr14 ≡ length candles
    pub adx14 : length s.adx14 ≡ length candles
    pub plus_di14 : length s.plus_di14 ≡ length candles
    pub minus_di14 : length s.minus_di14 ≡ length candles
    pub atr_baseline : length s.atr_baseline ≡ length candles

  -- Where the series are computed, each has one entry for each candle.
  pub compute_indicators-IsAligned :
      (lib : TechnicalIndicators W) (candles : List (BacktestCandle W)) (s : IndicatorState W)
      → compute_indicators lib candles ≡ some s
      → IsAligned candles s
  unfolding compute_indicators
  compute_indicators-IsAligned lib candles s h =
      let closes = map (λ (c : BacktestCandle W). c.close) candles in
      let n = length closes in
      let count : n ≡ length candles = length-map (λ (c : BacktestCandle W). c.close) candles in
      let highs = map (λ (c : BacktestCandle W). c.high) candles in
      let lows = map (λ (c : BacktestCandle W). c.low) candles in
      let atr14_raw = lib.atr 14 highs lows closes in
      let adx_raw = lib.adx 14 highs lows closes in
      let aligned =
        λ (series out : List W) (p : pad n series ≡ some out). length-pad n series out p ∙ count in
      record {
        ema20 = aligned (lib.ema 20 closes) _ (ground arith);
        ema50 = aligned (lib.ema 50 closes) _ (ground arith);
        ema200 = aligned (lib.ema 200 closes) _ (ground arith);
        rsi14 = aligned (lib.rsi 14 closes) _ (ground arith);
        atr14 = aligned (atr14_raw) _ (ground arith);
        adx14 = aligned (map (λ (v : AdxOutput W). v.adx) adx_raw) _ (ground arith);
        plus_di14 = aligned (map (λ (v : AdxOutput W). v.pdi) adx_raw) _ (ground arith);
        minus_di14 = aligned (map (λ (v : AdxOutput W). v.mdi) adx_raw) _ (ground arith);
        atr_baseline = aligned (lib.sma 20 atr14_raw) _ (ground arith);
      }

  -- The library returns no more values than it is given.
  pub record IsShort (lib : TechnicalIndicators W) : Type 0 where
    pub ema : (period : ℕ) (xs : List W) → length (lib.ema period xs) ≤ length xs
    pub rsi : (period : ℕ) (xs : List W) → length (lib.rsi period xs) ≤ length xs
    pub sma : (period : ℕ) (xs : List W) → length (lib.sma period xs) ≤ length xs
    pub atr :
        (period : ℕ) (highs lows closes : List W)
        → length (lib.atr period highs lows closes) ≤ length closes
    pub adx :
        (period : ℕ) (highs lows closes : List W)
        → length (lib.adx period highs lows closes) ≤ length closes

  pad-total :
      (n : ℕ) (series : List W) → length series ≤ n → (out : List W) × (pad n series ≡ some out)
  unfolding pad
  pad-total n series fits = (repeat (n - length series) (num 0 ⊘ num 0) ++ series, ground arith)

  pub compute_indicators-total :
      (lib : TechnicalIndicators W)
      → IsShort lib
      → (candles : List (BacktestCandle W))
      → (s : IndicatorState W) × (compute_indicators lib candles ≡ some s)
  unfolding compute_indicators
  compute_indicators-total lib short candles =
      let closes = map (λ (c : BacktestCandle W). c.close) candles in
      let highs = map (λ (c : BacktestCandle W). c.high) candles in
      let lows = map (λ (c : BacktestCandle W). c.low) candles in
      let atr14_raw = lib.atr 14 highs lows closes in
      let adx_raw = lib.adx 14 highs lows closes in
      let n = length closes in
      let of_adx = λ (f : AdxOutput W → W).
        pad-total n (map f adx_raw)
          (omega (arith, length-map f adx_raw, short.adx 14 highs lows closes)) in
      let (ema20, h1) = pad-total n (lib.ema 20 closes) (short.ema 20 closes) in
      let (ema50, h2) = pad-total n (lib.ema 50 closes) (short.ema 50 closes) in
      let (ema200, h3) = pad-total n (lib.ema 200 closes) (short.ema 200 closes) in
      let (rsi14, h4) = pad-total n (lib.rsi 14 closes) (short.rsi 14 closes) in
      let (atr14, h5) = pad-total n atr14_raw (short.atr 14 highs lows closes) in
      let (adx14, h6) = of_adx (λ v. v.adx) in
      let (plus_di14, h7) = of_adx (λ v. v.pdi) in
      let (minus_di14, h8) = of_adx (λ v. v.mdi) in
      let (atr_baseline, h9) =
        pad-total n (lib.sma 20 atr14_raw)
          (omega (arith, short.sma 20 atr14_raw, short.atr 14 highs lows closes)) in
      (
        record {
          ema20 = ema20;
          ema50 = ema50;
          ema200 = ema200;
          rsi14 = rsi14;
          atr14 = atr14;
          adx14 = adx14;
          plus_di14 = plus_di14;
          minus_di14 = minus_di14;
          atr_baseline = atr_baseline;
        },
        rw (h1, h2, h3, h4, h5, h6, h7, h8, h9) refl,
      )
