-- ===== src/Smc/Pairs.antt =====
-- src/backtest/engine/smc/pairs: the tuning of each pair, and the registry with its overrides. An
-- override is the function that replaces the fields which a partial configuration has.
use shamarx_app.Prelude.{true, Option, none, some, List, [], ◌∷◌, String, if◌then◌else◌, ◌is◌}
use shamarx_app.Double.{Double, num, dec}
use shamarx_app.Smc.{SmcPairConfig, StructureGates}

abbrev find {ℓ} : {A : Type ℓ} → String → List (String × A) → Option A
find symbol [] = none
find symbol ((name, a) ∷ rest) = if name is symbol then some a else find symbol rest

module _ {W : Type 0} ⦃d : Double W⦄ where
  abbrev no_gates : StructureGates W
  no_gates = record {
    use_fvg_gate = none;
    fvg_gate_max_distance_atr = none;
    fvg_gate_min_height_atr = none;
    use_ob_gate = none;
    ob_gate_displacement_atr_mult = none;
    ob_gate_max_distance_atr = none;
    use_bos_gate = none;
    bos_gate_swing_lookback = none;
    use_ob_origin_gate = none;
    ob_origin_lookback = none;
    ob_origin_displacement_atr = none;
    use_impulse_fvg_gate = none;
    impulse_fvg_lookback = none;
    use_bos_origin_gate = none;
    bos_origin_lookback = none;
  }

  abbrev pub xauusd : SmcPairConfig W
  xauusd = record {
    symbol = "XAUUSD";
    sweep_buffer_atr = dec 10 2;
    sl_buffer_atr_m15 = dec 20 2;
    setup_expiry_h1_bars = 8;
    atr_spike_limit = dec 25 1;
    trending_d1_adx = num 22;
    d1_adx_floor = num 18;
    recent_swing_lookback_h1 = 24;
    sl_cooldown_bars = 4;
    killzones = (6, 12) ∷ (12, 18) ∷ [];
    disable_continuation = none;
    skip_entry_dows = none;
    max_sl_sweep_ratio = some (dec 5 1);
    conviction_sizing = none;
    tp1_partial_fraction = dec 30 2;
    tp1_r = dec 8 1;
    tp2_r = dec 40 1;
    disabled_modes = none;
    auto_mode_filter = some true;
    use_anchor_sweeps = some true;
    anchor_displacement_atr = some (num 0);
    news_blackout_minutes = none;
    max_sl_atr_m15 = some (dec 20 1);
    gates = no_gates;
  }

  abbrev pub eurusd : SmcPairConfig W
  eurusd = record {
    symbol = "EURUSD";
    sweep_buffer_atr = dec 25 2;
    sl_buffer_atr_m15 = dec 30 2;
    setup_expiry_h1_bars = 12;
    atr_spike_limit = dec 20 1;
    trending_d1_adx = num 22;
    d1_adx_floor = num 10;
    recent_swing_lookback_h1 = 32;
    sl_cooldown_bars = 6;
    killzones = (7, 11) ∷ (13, 17) ∷ [];
    disable_continuation = none;
    skip_entry_dows = none;
    max_sl_sweep_ratio = some (dec 5 1);
    conviction_sizing = none;
    tp1_partial_fraction = dec 30 2;
    tp1_r = dec 8 1;
    tp2_r = dec 35 1;
    disabled_modes = none;
    auto_mode_filter = some true;
    use_anchor_sweeps = some true;
    anchor_displacement_atr = some (num 0);
    news_blackout_minutes = some 15;
    max_sl_atr_m15 = none;
    gates = no_gates;
  }

  abbrev pub gbpusd : SmcPairConfig W
  gbpusd = record {
    symbol = "GBPUSD";
    sweep_buffer_atr = dec 25 2;
    sl_buffer_atr_m15 = dec 30 2;
    setup_expiry_h1_bars = 10;
    atr_spike_limit = dec 22 1;
    trending_d1_adx = num 22;
    d1_adx_floor = num 10;
    recent_swing_lookback_h1 = 28;
    sl_cooldown_bars = 6;
    killzones = (7, 11) ∷ (13, 17) ∷ [];
    disable_continuation = none;
    skip_entry_dows = none;
    max_sl_sweep_ratio = some (dec 5 1);
    conviction_sizing = none;
    tp1_partial_fraction = dec 30 2;
    tp1_r = dec 8 1;
    tp2_r = dec 35 1;
    disabled_modes = none;
    auto_mode_filter = some true;
    use_anchor_sweeps = some true;
    anchor_displacement_atr = some (num 0);
    news_blackout_minutes = some 15;
    max_sl_atr_m15 = none;
    gates = no_gates;
  }

  abbrev pub usdjpy : SmcPairConfig W
  usdjpy = record {
    symbol = "USDJPY";
    sweep_buffer_atr = dec 25 2;
    sl_buffer_atr_m15 = dec 30 2;
    setup_expiry_h1_bars = 10;
    atr_spike_limit = dec 35 1;
    trending_d1_adx = num 22;
    d1_adx_floor = num 10;
    recent_swing_lookback_h1 = 28;
    sl_cooldown_bars = 6;
    killzones = (0, 3) ∷ (7, 11) ∷ (13, 17) ∷ [];
    disable_continuation = none;
    skip_entry_dows = none;
    max_sl_sweep_ratio = some (dec 5 1);
    conviction_sizing = none;
    tp1_partial_fraction = dec 30 2;
    tp1_r = dec 8 1;
    tp2_r = dec 35 1;
    disabled_modes = none;
    auto_mode_filter = some true;
    use_anchor_sweeps = some true;
    anchor_displacement_atr = some (num 0);
    news_blackout_minutes = some 15;
    max_sl_atr_m15 = none;
    gates = no_gates;
  }

  abbrev registry : List (String × SmcPairConfig W)
  registry =
      ("XAUUSD", xauusd)
      ∷ ("EURUSD", eurusd)
      ∷ ("GBPUSD", gbpusd)
      ∷ ("USDJPY", usdjpy)
      ∷ ("AUDUSD", record gbpusd { symbol = "AUDUSD" })
      ∷ ("USDCAD", record gbpusd { symbol = "USDCAD" })
      ∷ ("EURJPY", record usdjpy { symbol = "EURJPY" })
      ∷ []

  -- `getSmcPairConfig` of the symbol in capitals; `none` where it throws.
  unfoldable pub get_smc_pair_config :
      List (String × (SmcPairConfig W → SmcPairConfig W)) → String → Option (SmcPairConfig W)
  get_smc_pair_config overrides symbol = elim (find symbol registry) [
    | none ↦ none
    | some cfg ↦ elim (find symbol overrides) [ none ↦ some cfg | some change ↦ some (change cfg) ]
  ]

  -- `setSmcPairConfigOverride`: the new fields replace those of an older override.
  pub set_smc_pair_config_override :
      String
      → (SmcPairConfig W → SmcPairConfig W)
      → List (String × (SmcPairConfig W → SmcPairConfig W))
      → List (String × (SmcPairConfig W → SmcPairConfig W))
  set_smc_pair_config_override symbol partial [] = (symbol, partial) ∷ []
  set_smc_pair_config_override symbol partial ((name, older) ∷ rest) =
      if name is symbol
      then (name, λ cfg. partial (older cfg)) ∷ rest
      else (name, older) ∷ set_smc_pair_config_override symbol partial rest
