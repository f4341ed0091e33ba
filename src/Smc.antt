-- ===== src/Smc.antt =====
-- The types of src/backtest/engine/smc/types.ts, with the indicator series and the bias of
-- src/backtest/engine/types.ts: what the detectors of sweeps and of structure share.
pub mod Pairs
pub mod Index
pub mod Swing
pub mod Anchor
pub mod Sweep
pub mod Scan
pub mod Fvg
pub mod OrderBlock
pub mod Bos
pub mod Entry
pub mod Engine
use shamarx_app.Prelude.{ℕ, Bool, Option, List, String}
use shamarx_app.Engine.{Side}

pub data SmcMode : Type 0 where
  reversal continuation : SmcMode

pub data D1Bias : Type 0 where
  bullish bearish neutral : D1Bias

pub data AnchorType : Type 0 where
  pdh pdl asian_h asian_l weekly_h weekly_l : AnchorType

-- One series for each indicator, aligned with the candles.
pub record IndicatorState (W : Type 0) : Type 0 where
  pub ema20 : List W
  pub ema50 : List W
  pub ema200 : List W
  pub rsi14 : List W
  pub atr14 : List W
  pub adx14 : List W
  pub plus_di14 : List W
  pub minus_di14 : List W
  pub atr_baseline : List W

pub record PendingSetup (W : Type 0) : Type 0 where
  pub direction : Side
  pub sweep_level : W
  pub sweep_wick : W
  pub sweep_mid : W
  pub sweep_candle_atr : W
  pub sweep_candle_high : W
  pub sweep_candle_low : W
  pub detected_at_h1_idx : ℕ
  pub expires_at_h1_idx : ℕ
  pub mode : SmcMode
  pub sweep_time : ℕ
  pub anchor_type : Option AnchorType

pub record ConvictionSizing (W : Type 0) : Type 0 where
  pub tight_ratio : W
  pub tight_mult : W
  pub loose_mult : W

-- The optional gates on fair value gaps, order blocks and breaks of structure.
pub record StructureGates (W : Type 0) : Type 0 where
  pub use_fvg_gate : Option Bool
  pub fvg_gate_max_distance_atr : Option W
  pub fvg_gate_min_height_atr : Option W
  pub use_ob_gate : Option Bool
  pub ob_gate_displacement_atr_mult : Option W
  pub ob_gate_max_distance_atr : Option W
  pub use_bos_gate : Option Bool
  pub bos_gate_swing_lookback : Option ℕ
  pub use_ob_origin_gate : Option Bool
  pub ob_origin_lookback : Option ℕ
  pub ob_origin_displacement_atr : Option W
  pub use_impulse_fvg_gate : Option Bool
  pub impulse_fvg_lookback : Option ℕ
  pub use_bos_origin_gate : Option Bool
  pub bos_origin_lookback : Option ℕ

pub record SmcPairConfig (W : Type 0) : Type 0 where
  pub symbol : String
  pub sweep_buffer_atr : W
  pub sl_buffer_atr_m15 : W
  pub setup_expiry_h1_bars : ℕ
  pub atr_spike_limit : W
  pub trending_d1_adx : W
  pub d1_adx_floor : W
  pub recent_swing_lookback_h1 : ℕ
  pub sl_cooldown_bars : ℕ
  pub killzones : List (ℕ × ℕ)
  pub disable_continuation : Option Bool
  pub skip_entry_dows : Option (List ℕ)
  pub max_sl_sweep_ratio : Option W
  pub conviction_sizing : Option (ConvictionSizing W)
  pub tp1_partial_fraction : W
  pub tp1_r : W
  pub tp2_r : W
  pub disabled_modes : Option (List SmcMode)
  pub auto_mode_filter : Option Bool
  pub use_anchor_sweeps : Option Bool
  pub anchor_displacement_atr : Option W
  pub news_blackout_minutes : Option ℕ
  pub max_sl_atr_m15 : Option W
  pub gates : StructureGates W
