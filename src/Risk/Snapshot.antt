-- ===== src/Risk/Snapshot.antt =====
-- `snapshot` and `restore` of `RiskManager`, with which the live orchestrator keeps the safety brakes
-- across restarts. A partial snapshot has each field or not; a field that is `null` in a snapshot is
-- restored as if it were missing.
use shamarx_app.Prelude.{
  Option-cases, inl, inr, ℕ, ◌-◌, ◌≡◌, Bool, false, Option, none, some, List, [], or_else, length,
  drop, arith,
}
use shamarx_app.Double.{Double, num}
use shamarx_app.Engine.{EngineConfig}
use shamarx_app.Engine.Instrument.{get_instrument_config}
use shamarx_app.Risk.{RiskManager, TradeLogEntry, create}

pub record PartialSnapshot (W : Type 0) : Type 0 where
  pub balance : Option W
  pub equity : Option W
  pub daily_pnl : Option W
  pub consecutive_losses : Option ℕ
  pub consecutive_wins : Option ℕ
  pub last_trade_date : Option ℕ
  pub weekly_peak_equity : Option W
  pub current_week_number : Option ℕ
  pub pause_until_date : Option ℕ
  pub consecutive_loss_pause_until : Option ℕ
  pub awaiting_post_pause_trade : Option Bool
  pub overall_peak_equity : Option W
  pub trade_log : Option (List (TradeLogEntry W))
  pub equity_dd_pause_until : Option ℕ
  pub last_dd_tier_triggered : Option ℕ
  pub rolling7_day_pause_until : Option ℕ
  pub hard_killed : Option Bool

module _ {W : Type 0} ⦃d : Double W⦄ where
  -- `tradeLog.slice(-TRADE_LOG_KEEP)`, the last 30 entries.
  abbrev pub last_entries : List (TradeLogEntry W) → List (TradeLogEntry W)
  last_entries log = drop (length log - 30) log

  pub snapshot : RiskManager W → PartialSnapshot W
  snapshot m = record {
    balance = some m.balance;
    equity = some m.equity;
    daily_pnl = some m.daily_pnl;
    consecutive_losses = some m.consecutive_losses;
    consecutive_wins = some m.consecutive_wins;
    last_trade_date = m.last_trade_date;
    weekly_peak_equity = some m.weekly_peak_equity;
    current_week_number = m.current_week_number;
    pause_until_date = m.pause_until_date;
    consecutive_loss_pause_until = m.consecutive_loss_pause_until;
    awaiting_post_pause_trade = some m.awaiting_post_pause_trade;
    overall_peak_equity = some m.overall_peak_equity;
    trade_log = some (last_entries m.trade_log);
    equity_dd_pause_until = m.equity_dd_pause_until;
    last_dd_tier_triggered = some m.last_dd_tier_triggered;
    rolling7_day_pause_until = m.rolling7_day_pause_until;
    hard_killed = some m.hard_killed;
  }

  pub restore : RiskManager W → PartialSnapshot W → RiskManager W
  restore m snap = record m {
    balance = or_else snap.balance m.balance;
    equity = or_else snap.equity m.equity;
    daily_pnl = or_else snap.daily_pnl (num 0);
    consecutive_losses = or_else snap.consecutive_losses 0;
    consecutive_wins = or_else snap.consecutive_wins 0;
    last_trade_date = snap.last_trade_date;
    weekly_peak_equity = or_else snap.weekly_peak_equity m.weekly_peak_equity;
    current_week_number = snap.current_week_number;
    pause_until_date = snap.pause_until_date;
    consecutive_loss_pause_until = snap.consecutive_loss_pause_until;
    awaiting_post_pause_trade = or_else snap.awaiting_post_pause_trade false;
    overall_peak_equity = or_else snap.overall_peak_equity m.overall_peak_equity;
    trade_log = or_else snap.trade_log [];
    equity_dd_pause_until = snap.equity_dd_pause_until;
    last_dd_tier_triggered = or_else snap.last_dd_tier_triggered 0;
    rolling7_day_pause_until = snap.rolling7_day_pause_until;
    hard_killed = or_else snap.hard_killed false;
  }

  -- The empty snapshot.
  abbrev pub nothing : PartialSnapshot W
  nothing = record {
    balance = none;
    equity = none;
    daily_pnl = none;
    consecutive_losses = none;
    consecutive_wins = none;
    last_trade_date = none;
    weekly_peak_equity = none;
    current_week_number = none;
    pause_until_date = none;
    consecutive_loss_pause_until = none;
    awaiting_post_pause_trade = none;
    overall_peak_equity = none;
    trade_log = none;
    equity_dd_pause_until = none;
    last_dd_tier_triggered = none;
    rolling7_day_pause_until = none;
    hard_killed = none;
  }

  -- A manager of the same configuration, in whatever state, that is restored from the snapshot of
  -- `m` is `m` with the last 30 entries of its log.
  pub restore-snapshot :
      (fresh m : RiskManager W)
      → fresh.config ≡ m.config
      → fresh.lot_size_units ≡ m.lot_size_units
      → restore fresh (snapshot m) ≡ record m { trade_log = last_entries m.trade_log }
  unfolding restore snapshot
  restore-snapshot fresh m e f = ground arith

  -- A new manager that is restored from the empty snapshot stays new.
  pub restore-nothing :
      (config : EngineConfig W) (m : RiskManager W) → create config ≡ some m → restore m nothing ≡ m
  unfolding restore create
  restore-nothing config m h = elim (Option-cases (get_instrument_config {W = W} config.symbol)) [
    | inl unknown ↦ absurd (ground arith)
    | inr (instrument, known) ↦ ground arith
  ]
