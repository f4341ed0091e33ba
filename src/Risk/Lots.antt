-- ===== src/Risk/Lots.antt =====
-- `calculateLotSize` of `RiskManager` and the multipliers that it applies to the risk.
pub mod Cap
use shamarx_app.Prelude.{ℕ, Bool, true, false, ◌&&◌, Option, none, some, ltb, if◌then◌else◌}
use shamarx_app.Double.{Double, ◌⊖◌, ◌⊗◌, ◌⊘◌, ◌⊲◌, ◌⊴◌, num, dec, cents, truthy}
use shamarx_app.Engine.{DetailedRegime, strong_trend, weak_trend, ranging, volatile, transitioning}
use shamarx_app.Engine.Instrument.{is_jpy_pair}
use shamarx_app.Risk.{RiskManager, equity_dd_percent, get_trading_mode, is_defensive}

module _ {W : Type 0} ⦃d : Double W⦄ where
  regime_multiplier : Option DetailedRegime → W
  regime_multiplier none = dec 10 1
  regime_multiplier (some strong_trend) = dec 12 1
  regime_multiplier (some weak_trend) = dec 9 1
  regime_multiplier (some ranging) = dec 7 1
  regime_multiplier (some volatile) = dec 6 1
  regime_multiplier (some transitioning) = dec 8 1

  quality_multiplier : Option W → W
  quality_multiplier none = dec 10 1
  quality_multiplier (some quality) =
      if num 75 ⊴ quality
      then dec 13 1
      else if num 65 ⊴ quality
      then dec 115 2
      else if num 55 ⊴ quality
      then dec 10 1
      else if num 45 ⊴ quality
      then dec 85 2
      else if num 35 ⊴ quality
      then dec 7 1
      else dec 5 1

  dd_multiplier : W → W
  dd_multiplier dd_percent =
      if dd_percent ⊲ num 10
      then dec 10 1
      else if dd_percent ⊲ num 20
      then dec 5 1
      else if dd_percent ⊲ num 30
      then dec 25 2
      else dec 10 2

  confidence_multiplier : Option W → W
  confidence_multiplier none = dec 10 1
  confidence_multiplier (some confidence) =
      if num 70 ⊴ confidence
      then dec 12 1
      else if num 60 ⊴ confidence
      then dec 11 1
      else if num 50 ⊴ confidence
      then dec 10 1
      else if num 40 ⊴ confidence
      then dec 9 1
      else if num 30 ⊴ confidence
      then dec 8 1
      else dec 7 1

  -- The risk of a trade in per cent of the balance, clamped to [0.5, 4.0].
  pub effective_risk : RiskManager W → Option W → Option DetailedRegime → Option W → W
  unfolding regime_multiplier quality_multiplier dd_multiplier confidence_multiplier
  effective_risk m quality_score regime engine_confidence =
      let risk =
        m.config.risk_percent
        ⊗ regime_multiplier regime
        ⊗ quality_multiplier quality_score
        ⊗ confidence_multiplier engine_confidence
        ⊗ dd_multiplier (equity_dd_percent m) in
      let stacked =
        if is_defensive (get_trading_mode m) && ltb m.consecutive_wins 3
        then risk ⊗ dec 5 1
        else risk in
      d.maximum (dec 5 1) (d.minimum (dec 40 1) stacked)

  -- What a stop of `sl_points` costs per lot, in US dollars.
  pub usd_per_lot : RiskManager W → W → Option W → W
  usd_per_lot m sl_points none = sl_points ⊗ m.lot_size_units
  usd_per_lot m sl_points (some price) =
      if is_jpy_pair m.config.symbol && truthy price
      then sl_points ⊗ m.lot_size_units ⊘ price
      else sl_points ⊗ m.lot_size_units

  unfoldable pub actual_risk_percent : RiskManager W → W → W → W
  actual_risk_percent m lot_size per_lot = lot_size ⊗ per_lot ⊘ m.balance ⊗ num 100

  unfoldable pub calculate_lot_size :
      RiskManager W → W → Option W → Option DetailedRegime → Option W → Option W → W
  unfolding effective_risk usd_per_lot
  calculate_lot_size m sl_points quality_score regime engine_confidence current_price =
      let risk = effective_risk m quality_score regime engine_confidence in
      let per_lot = usd_per_lot m sl_points current_price in
      let ideal_lot = m.balance ⊗ (risk ⊘ num 100) ⊘ per_lot in
      let lot_size = cents (d.maximum (dec 1 2) (d.minimum (dec 10 1) ideal_lot)) in
      if risk ⊗ dec 110 2 ⊲ actual_risk_percent m lot_size per_lot then num 0 else lot_size
