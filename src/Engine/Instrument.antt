-- ===== src/Engine/Instrument.antt =====
-- src/backtest/engine/instrument-config.ts and spread-model.ts: the market facts of each symbol and
-- the spread of each trading session. A symbol that is not in the table throws: `none`.
use Prim.Native.Char.{code}
use shamarx_app.Prelude.{
  ℕ, ◌-◌, ◌/◌, ◌%◌, Bool, true, false, ◌&&◌, ◌||◌, Option, none, some, List, [], ◌∷◌, String, leb,
  if◌then◌else◌, ◌is◌, length, drop, ◌==◌,
}
use shamarx_app.Double.{Double, dec, num}

pub record Spreads (W : Type 0) : Type 0 where
  pub london_ny_overlap : W
  pub london : W
  pub ny_extended : W
  pub asian : W
  pub off_hours : W

pub record InstrumentConfig (W : Type 0) : Type 0 where
  pub lot_size_units : W
  pub commission_per_lot : W
  pub min_atr : W
  pub price_precision : ℕ
  pub spreads : Spreads W

abbrev codes : String → List ℕ
codes String.[] = []
codes (String.◌∷◌ c s) = code c ∷ codes s

abbrev same_codes : List ℕ → List ℕ → Bool
same_codes [] [] = true
same_codes (a ∷ s) (b ∷ t) = a == b && same_codes s t
same_codes _ _ = false

-- `symbol.endsWith('JPY')`: the quote currency is the yen.
unfoldable pub is_jpy_pair : String → Bool
is_jpy_pair symbol =
    let s = codes symbol in leb 3 (length s) && same_codes (drop (length s - 3) s) (codes "JPY")

-- The hour of the day in UTC of a time in milliseconds.
abbrev utc_hours : ℕ → ℕ
utc_hours t = t / 3600000 % 24

module _ {W : Type 0} ⦃d : Double W⦄ where
  abbrev xauusd : InstrumentConfig W
  xauusd = record {
    lot_size_units = num 100;
    commission_per_lot = dec 70 1;
    min_atr = dec 35 1;
    price_precision = 2;
    spreads = record {
      london_ny_overlap = dec 20 2;
      london = dec 25 2;
      ny_extended = dec 30 2;
      asian = dec 50 2;
      off_hours = dec 40 2;
    };
  }

  -- The template of the pairs with 100 000 units to a lot.
  abbrev forex : W → ℕ → Spreads W → InstrumentConfig W
  forex atr precision spreads = record {
    lot_size_units = num 100000;
    commission_per_lot = dec 70 1;
    min_atr = atr;
    price_precision = precision;
    spreads = spreads;
  }

  abbrev spread_table : W → W → W → W → W → Spreads W
  spread_table overlap london ny asian off = record {
    london_ny_overlap = overlap;
    london = london;
    ny_extended = ny;
    asian = asian;
    off_hours = off;
  }

  -- The template of the index contracts: one unit to a lot, no commission.
  abbrev index : W → Spreads W → InstrumentConfig W
  index atr spreads = record {
    lot_size_units = num 1;
    commission_per_lot = num 0;
    min_atr = atr;
    price_precision = 1;
    spreads = spreads;
  }

  abbrev instrument_configs : List (String × InstrumentConfig W)
  instrument_configs =
      ("XAUUSD", xauusd)
      ∷ (
        "GBPUSD",
        forex (dec 20 4) 5 (spread_table (dec 20 5) (dec 25 5) (dec 30 5) (dec 50 5) (dec 40 5)),
      )
      ∷ (
        "EURUSD",
        forex (dec 18 4) 5 (spread_table (dec 15 5) (dec 20 5) (dec 25 5) (dec 45 5) (dec 35 5)),
      )
      ∷ (
        "USDJPY",
        forex (dec 15 2) 3 (spread_table (dec 15 3) (dec 20 3) (dec 25 3) (dec 40 3) (dec 30 3)),
      )
      ∷ (
        "AUDUSD",
        forex (dec 15 4) 5 (spread_table (dec 18 5) (dec 25 5) (dec 30 5) (dec 35 5) (dec 40 5)),
      )
      ∷ (
        "USDCAD",
        forex (dec 15 4) 5 (spread_table (dec 20 5) (dec 30 5) (dec 25 5) (dec 60 5) (dec 45 5)),
      )
      ∷ (
        "EURJPY",
        forex (dec 20 2) 3 (spread_table (dec 20 3) (dec 25 3) (dec 30 3) (dec 45 3) (dec 40 3)),
      )
      ∷ (
        "US30",
        index (num 30) (spread_table (dec 24 1) (dec 36 1) (dec 24 1) (dec 80 1) (dec 48 1)),
      )
      ∷ (
        "NAS100",
        index (num 20) (spread_table (dec 10 1) (dec 19 1) (dec 10 1) (dec 40 1) (dec 19 1)),
      )
      ∷ []

  abbrev find_config : String → List (String × InstrumentConfig W) → Option (InstrumentConfig W)
  find_config symbol [] = none
  find_config symbol ((name, config) ∷ rest) =
      if name is symbol then some config else find_config symbol rest

  unfoldable pub get_instrument_config : String → Option (InstrumentConfig W)
  get_instrument_config symbol = find_config symbol instrument_configs

  abbrev session_spread : Spreads W → ℕ → W
  session_spread s hour =
      if leb 12 hour && leb hour 15
      then s.london_ny_overlap
      else if leb 7 hour && leb hour 11
      then s.london
      else if leb 16 hour && leb hour 17
      then s.ny_extended
      else if leb 22 hour || leb hour 6
      then s.asian
      else s.off_hours

  unfoldable pub get_spread : String → ℕ → Option W
  unfolding get_instrument_config
  get_spread symbol open_time = elim (get_instrument_config symbol) [
    | none ↦ none
    | some config ↦ some (session_spread config.spreads (utc_hours open_time))
  ]
