-- ===== src/Examples/Detectors.antt =====
-- The theorems on the detectors, at a few bars of an hour.
use shamarx_app.Prelude.{ℕ, ◌*◌, refl, true, false, none, some, List, [], ◌∷◌}
use shamarx_app.Double.{num}
use shamarx_app.Double.Fixed.{Fixed, fixed_double}
use shamarx_app.Engine.{buy, sell, BacktestCandle}
use shamarx_app.Smc.{reversal, neutral, IndicatorState, PendingSetup, SmcPairConfig}
use shamarx_app.Smc.Pairs.{xauusd}
use shamarx_app.Smc.Swing.{find_swing, find_recent_swing_high, find_recent_swing_low}
use shamarx_app.Smc.Sweep.{
  D1Context, detect_sweep, swing_setup, sell_setup, buy_setup, is_filtered, mode_of,
}
use shamarx_app.Smc.Sweep.Shape.{IsDetected, detect_sweep-IsDetected}
use shamarx_app.Smc.Fvg.{Fvg, DetectFvgsOptions}
use shamarx_app.Smc.OrderBlock.{OrderBlock, DetectObOptions}
use shamarx_app.Smc.Bos.{Bos, find_break, detect_bos, has_bos_after}
use shamarx_app.Smc.Bos.Break.{IsBreakSince, has_bos_after-IsBreakSince}

-- The bar of the hour `k`.
abbrev pub hour : ℕ → ℕ → ℕ → ℕ → ℕ → BacktestCandle Fixed
hour k opening high low close = record {
  symbol = "XAUUSD";
  timeframe = "H1";
  open_time = k * 3600000;
  opening = num opening;
  high = num high;
  low = num low;
  close = num close;
  volume = num 100;
}

-- A swing high of 2010 at the fifth bar, which the seventh sweeps and closes below.
abbrev pub swept : List (BacktestCandle Fixed)
swept =
    hour 0 2000 2004 1998 2002
    ∷ hour 1 2002 2005 2000 2003
    ∷ hour 2 2003 2005 2001 2004
    ∷ hour 3 2004 2006 2002 2005
    ∷ hour 4 2005 2010 2004 2006
    ∷ hour 5 2006 2007 2003 2006
    ∷ hour 6 2006 2013 2005 2007
    ∷ hour 7 2007 2008 2006 2007
    ∷ []

abbrev pub fives : List Fixed
fives = num 5 ∷ num 5 ∷ num 5 ∷ num 5 ∷ num 5 ∷ num 5 ∷ num 5 ∷ num 5 ∷ []

abbrev pub calm : IndicatorState Fixed
calm = record {
  ema20 = [];
  ema50 = [];
  ema200 = [];
  rsi14 = [];
  atr14 = fives;
  adx14 = [];
  plus_di14 = [];
  minus_di14 = [];
  atr_baseline = [];
}

abbrev pub no_days : D1Context Fixed
no_days = record { candles = none; indicators = none; current_time = none }

abbrev pub sweep_setup : PendingSetup Fixed
sweep_setup = record {
  direction = sell;
  sweep_level = num 2010;
  sweep_wick = num 2013;
  sweep_mid = num 2009;
  sweep_candle_atr = num 5;
  sweep_candle_high = num 2013;
  sweep_candle_low = num 2005;
  detected_at_h1_idx = 6;
  expires_at_h1_idx = 14;
  mode = reversal;
  sweep_time = 21600000;
  anchor_type = none;
}

-- Gold, with sweeps of any recent swing.
abbrev pub gold_swings : SmcPairConfig Fixed
gold_swings = record xauusd { use_anchor_sweeps = none }

detect_sweep-IsDetected_example :
    IsDetected swept calm 6 neutral (num 0) gold_swings no_days sweep_setup
unfolding detect_sweep swing_setup sell_setup buy_setup is_filtered mode_of find_recent_swing_high
    find_recent_swing_low find_swing
detect_sweep-IsDetected_example =
    detect_sweep-IsDetected swept calm 6 neutral (num 0) gold_swings no_days sweep_setup refl

-- A gap up between the first and the third of these bars, which no later bar fills.
abbrev gapped : List (BacktestCandle Fixed)
gapped =
    hour 0 2000 2001 1999 2000
    ∷ hour 1 2001 2002 2000 2001
    ∷ hour 2 2002 2008 2001 2007
    ∷ hour 3 2007 2010 2005 2009
    ∷ hour 4 2009 2012 2007 2011
    ∷ hour 5 2011 2013 2010 2012
    ∷ []

abbrev fvg_options : DetectFvgsOptions Fixed
fvg_options = record { lookback = none; end_idx = none; min_height_atr_fraction = none; atr = none }

abbrev open_gap : Fvg Fixed
open_gap = record {
  top = num 2005;
  bottom = num 2002;
  candle_idx = 2;
  candle_time = 7200000;
  is_bullish = true;
  mitigated = false;
  mitigated_at_idx = none;
  height = num 3;
}

abbrev ob_options : DetectObOptions Fixed
ob_options = record {
  end_idx = none;
  look_forward_max = none;
  displacement_atr_mult = none;
  atr = some fives;
}

-- The bar that falls before the rise, and stays below it.
abbrev risen : List (BacktestCandle Fixed)
risen =
    hour 0 2000 2001 1999 2000
    ∷ hour 1 2002 2002 2000 2001
    ∷ hour 2 2002 2012 2001 2011
    ∷ hour 3 2011 2015 2009 2014
    ∷ hour 4 2014 2016 2012 2015
    ∷ []

abbrev open_block : OrderBlock Fixed
open_block = record {
  top = num 2002;
  bottom = num 2000;
  candle_time = 3600000;
  candle_idx = 1;
  is_bullish = true;
  displacement = num 12;
  mitigated = false;
  mitigated_at_idx = none;
}

-- The last bar closes above the swing high of 2010.
abbrev broken : List (BacktestCandle Fixed)
broken =
    hour 0 2000 2004 1998 2002
    ∷ hour 1 2002 2005 2000 2003
    ∷ hour 2 2003 2010 2001 2004
    ∷ hour 3 2004 2006 2002 2005
    ∷ hour 4 2005 2013 2004 2012
    ∷ hour 5 2012 2014 2010 2011
    ∷ []

abbrev break_up : Bos Fixed
break_up = record {
  level = num 2010;
  broken_at_idx = 4;
  broken_at_time = 14400000;
  is_bullish = true;
}

has_bos_after-IsBreakSince_example : IsBreakSince broken buy 2 3 4 break_up
unfolding has_bos_after detect_bos find_break find_recent_swing_high find_swing
has_bos_after-IsBreakSince_example = has_bos_after-IsBreakSince broken buy 2 3 4 break_up refl
