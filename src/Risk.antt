-- ===== src/Risk.antt =====
-- `RiskManager` of src/backtest/engine/risk-manager.ts: its state and the private helpers that its
-- operations share. The operations are in the children: `canTrade` (Guards), `recordTrade` (Record),
-- `calculateLotSize` (Lots), `snapshot` and `restore` (Snapshot).
pub mod Guards
pub mod Record
pub mod Lots
pub mod Snapshot
use shamarx_app.Prelude.{
  ℕ, ◌+◌, ◌≡◌, Bool, true, false, not, ◌&&◌, Option, none, some, List, [], ◌∷◌, ltb, leb, ◌==◌,
  if◌then◌else◌, filter, length,
}
use shamarx_app.Double.{Double, ◌⊖◌, ◌⊗◌, ◌⊘◌, ◌⊲◌, ◌⊴◌, num}
use shamarx_app.Engine.{EngineConfig, TradingMode, aggressive, normal, defensive}
use shamarx_app.Engine.Instrument.{get_instrument_config}
use shamarx_app.Calendar.{date_of, iso_week}

pub record TradeLogEntry (W : Type 0) : Type 0 where
  pub date : ℕ
  pub pnl : W
  pub is_loss : Bool

-- The fields of `BacktestRiskState` and of the manager. `current_week_number` is `none` for -1, and
-- the dates of pauses are day numbers.
pub record RiskManager (W : Type 0) : Type 0 where
  pub config : EngineConfig W
  pub lot_size_units : W
  pub balance : W
  pub equity : W
  pub daily_pnl : W
  pub consecutive_losses : ℕ
  pub consecutive_wins : ℕ
  pub last_trade_date : Option ℕ
  pub weekly_peak_equity : W
  pub current_week_number : Option ℕ
  pub pause_until_date : Option ℕ
  pub consecutive_loss_pause_until : Option ℕ
  pub awaiting_post_pause_trade : Bool
  pub overall_peak_equity : W
  pub trade_log : List (TradeLogEntry W)
  pub equity_dd_pause_until : Option ℕ
  pub last_dd_tier_triggered : ℕ
  pub rolling7_day_pause_until : Option ℕ
  pub hard_killed : Bool

-- `pause && date < pause`.
abbrev pub is_before : ℕ → Option ℕ → Bool
is_before date none = false
is_before date (some pause) = ltb date pause

abbrev same_week : ℕ → Option ℕ → Bool
same_week week none = false
same_week week (some current) = week == current

abbrev is_defensive : TradingMode → Bool
is_defensive defensive = true
is_defensive _ = false

module _ {W : Type 0} ⦃d : Double W⦄ where
  -- The constructor; it throws for an unknown symbol.
  unfoldable pub create : EngineConfig W → Option (RiskManager W)
  create config = elim (get_instrument_config config.symbol) [
    | none ↦ none
    | some instrument ↦ some (record {
      config = config;
      lot_size_units = instrument.lot_size_units;
      balance = config.initial_balance;
      equity = config.initial_balance;
      daily_pnl = num 0;
      consecutive_losses = 0;
      consecutive_wins = 0;
      last_trade_date = none;
      weekly_peak_equity = config.initial_balance;
      current_week_number = none;
      pause_until_date = none;
      consecutive_loss_pause_until = none;
      awaiting_post_pause_trade = false;
      overall_peak_equity = config.initial_balance;
      trade_log = [];
      equity_dd_pause_until = none;
      last_dd_tier_triggered = 0;
      rolling7_day_pause_until = none;
      hard_killed = false;
    })
  ]

  -- A loss at most seven days before the date.
  abbrev counts_at : ℕ → TradeLogEntry W → Bool
  counts_at date t = t.is_loss && leb date (t.date + 7)

  -- `getRolling7DayLosses`. No date, the empty string of the source, is an invalid `Date`, whose
  -- difference with any other is NaN and is not `<=` a week.
  unfoldable pub rolling7_day_losses : RiskManager W → Option ℕ → ℕ
  rolling7_day_losses m none = 0
  rolling7_day_losses m (some date) = length (filter (counts_at date) m.trade_log)

  unfoldable pub equity_dd_percent : RiskManager W → W
  equity_dd_percent m =
      if num 0 ⊲ m.overall_peak_equity
      then (m.overall_peak_equity ⊖ m.equity) ⊘ m.overall_peak_equity ⊗ num 100
      else num 0

  unfoldable pub maybe_reset_daily : RiskManager W → ℕ → RiskManager W
  maybe_reset_daily m now = elim m.last_trade_date [
    | none ↦ m
    | some last ↦ if date_of now == date_of last then m else record m { daily_pnl = num 0 }
  ]

  unfoldable pub maybe_reset_weekly : RiskManager W → ℕ → RiskManager W
  maybe_reset_weekly m now =
      if same_week (iso_week now) m.current_week_number
      then m
      else record m { current_week_number = some (iso_week now); weekly_peak_equity = m.equity }

  abbrev last_date : RiskManager W → Option ℕ
  last_date m = elim m.last_trade_date [ none ↦ none | some t ↦ some (date_of t) ]

  unfoldable pub get_trading_mode : RiskManager W → TradingMode
  unfolding equity_dd_percent rolling7_day_losses
  get_trading_mode m =
      let dd = equity_dd_percent m in
      if num 15 ⊴ dd
      then defensive
      else if leb 4 m.consecutive_losses
      then defensive
      else if leb 5 (rolling7_day_losses m (last_date m))
      then defensive
      else if dd ⊲ num 5 && leb 2 m.consecutive_wins
      then aggressive
      else normal

  pub can_pyramid : RiskManager W → Bool
  unfolding get_trading_mode equity_dd_percent
  can_pyramid m =
      not (is_defensive (get_trading_mode m))
      && not (num 10 ⊴ equity_dd_percent m)
      && not (leb 2 m.consecutive_losses)
