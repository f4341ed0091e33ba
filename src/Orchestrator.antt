-- ===== src/Orchestrator.antt =====
-- `LiveSmcOrchestrator` of src/strategy/live/live-smc-orchestrator.ts, which decides at each close of
-- an M15 bar whether the live engine trades a swept level: its state, one `OrchestratorState` for
-- each symbol, and the operations around an evaluation. `none` is a throw, which only an unknown
-- symbol causes. The children: what an evaluation detects (Detect), the structure gates of a setup
-- (Gates), the signal (Signal), the evaluation (Evaluate), and what is kept across restarts (Store).
pub mod Detect
pub mod Viewed
pub mod Gates
pub mod Signal
pub mod Evaluate
pub mod Store
pub mod Sets
pub mod Actioned
pub mod Update
pub mod Once
use shamarx_app.Prelude.{
  ℕ, Bool, true, false, not, Option, none, some, List, [], ◌∷◌, ◌++◌, map, String, ◌==◌, any,
  filter, length, max, or_else, if◌then◌else◌, lookup, insert, remove, ◌>>=◌,
}
use shamarx_app.Double.{Double, num, dec}
use shamarx_app.Engine.{Side, BacktestCandle, EngineConfig}
use shamarx_app.Risk.{RiskManager, create}
use shamarx_app.Risk.Record.{record_trade}
use shamarx_app.Indicators.{TechnicalIndicators}
use shamarx_app.Smc.{SmcMode, IndicatorState, PendingSetup, SmcPairConfig}
use shamarx_app.Smc.Pairs.{get_smc_pair_config}
use shamarx_app.Broker.{SmcLiveSignal}

-- A `Set`, in the order of insertion.
abbrev pub has : List ℕ → ℕ → Bool
has set x = any (λ y. y == x) set

abbrev pub add : List ℕ → ℕ → List ℕ
add set x = if has set x then set else set ++ x ∷ []

pub record OrchestratorState (W : Type 0) : Type 0 where
  pub pending : List (PendingSetup W)
  pub last_processed_h1_time : Option ℕ
  pub cooldown_bars_remaining : ℕ
  pub actioned_sweeps : List ℕ
  pub risk_manager : RiskManager W

pub record RiskCfg (W : Type 0) : Type 0 where
  pub initial_balance : W
  pub risk_percent : W
  pub max_open_positions : ℕ

pub record Orchestrator (W : Type 0) : Type 0 where
  pub states : List (String × OrchestratorState W)
  pub default_risk_cfg : RiskCfg W

pub record LiveContext (W : Type 0) : Type 0 where
  pub account_equity : W
  pub open_directions : List Side
  pub total_open_positions : ℕ
  pub risk_percent : Option W
  pub max_open_positions : Option ℕ

pub record PrecomputedIndicators (W : Type 0) : Type 0 where
  pub m15 : IndicatorState W
  pub h1 : IndicatorState W
  pub d1 : Option (IndicatorState W)

-- The lengths up to which the arrays of a replay are read.
pub record Cursor : Type 0 where
  pub m15 : ℕ
  pub h1 : ℕ
  pub d1 : ℕ

-- What the code takes from its surroundings: the library of indicators, the overrides of the pairs,
-- RISK_PERCENT of the environment, and `toFixed(1)` of the language.
pub record Surroundings (W : Type 0) : Type 0 where
  pub indicators : TechnicalIndicators W
  pub overrides : List (String × (SmcPairConfig W → SmcPairConfig W))
  pub env_risk_percent : W
  pub to_fixed1 : W → String

pub data OrchestratorExit : Type 0 where
  sl tp other : OrchestratorExit

-- The reason that the risk manager is told.
abbrev reason_for_rm : OrchestratorExit → String
reason_for_rm sl = "SL"
reason_for_rm tp = "TP"
reason_for_rm other = "FORCED_CLOSE"

pub record PendingTelemetry (W : Type 0) : Type 0 where
  pub direction : Side
  pub mode : SmcMode
  pub entry_hint : W
  pub detected_at_h1_idx : ℕ
  pub expires_at_h1_idx : ℕ

pub record OrchestratorTelemetry (W : Type 0) : Type 0 where
  pub pending_count : ℕ
  pub last_processed_h1_time : Option ℕ
  pub cooldown_bars_remaining : ℕ
  pub pending : List (PendingTelemetry W)

module _ {W : Type 0} ⦃d : Double W⦄ where
  -- A new orchestrator.
  unfoldable pub fresh : Orchestrator W
  fresh = record {
    states = [];
    default_risk_cfg = record {
      initial_balance = num 10000;
      risk_percent = dec 15 1;
      max_open_positions = 4;
    };
  }

  unfoldable pub reset : Orchestrator W → String → Orchestrator W
  reset o symbol = record o { states = remove symbol o.states }

  unfoldable pub reset_all : Orchestrator W → Orchestrator W
  reset_all o = record o { states = [] }

  unfoldable pub set_default_risk_cfg : Orchestrator W → RiskCfg W → Orchestrator W
  set_default_risk_cfg o cfg = record o { default_risk_cfg = cfg }

  -- The configuration of a symbol's risk manager.
  unfoldable pub risk_config : Orchestrator W → String → EngineConfig W
  risk_config o symbol = record {
    symbol = symbol;
    initial_balance = o.default_risk_cfg.initial_balance;
    risk_percent = o.default_risk_cfg.risk_percent;
    max_daily_loss_percent = num 4;
    max_consecutive_losses = 5;
    max_open_positions = o.default_risk_cfg.max_open_positions;
  }

  unfoldable pub build_risk_manager : Orchestrator W → String → Option (RiskManager W)
  build_risk_manager o symbol = create (risk_config o symbol)

  -- `getOrCreateState`: the orchestrator that has a state for the symbol, and that state.
  unfoldable pub get_or_create_state :
      Orchestrator W → String → Option (Orchestrator W × OrchestratorState W)
  get_or_create_state o symbol = elim (lookup symbol o.states) [
    | some s ↦ some (o, s)
    | none ↦ do
      risk_manager ← build_risk_manager o symbol
      let s : OrchestratorState W = record {
        pending = [];
        last_processed_h1_time = none;
        cooldown_bars_remaining = 0;
        actioned_sweeps = [];
        risk_manager = risk_manager;
      }
      some (record o { states = insert symbol s o.states }, s)
  ]

  -- The mutation of the state of a symbol.
  abbrev pub put : Orchestrator W → String → OrchestratorState W → Orchestrator W
  put o symbol s = record o { states = insert symbol s o.states }

  unfoldable pub commit : SmcLiveSignal W → OrchestratorState W → OrchestratorState W
  commit signal s = record s {
    pending = filter (λ (p : PendingSetup W). not (p.sweep_time == signal.h1_sweep_time)) s.pending;
    actioned_sweeps = add s.actioned_sweeps signal.h1_sweep_time;
    cooldown_bars_remaining = 1;
  }

  unfoldable pub record_entry : Orchestrator W → String → SmcLiveSignal W → Option (Orchestrator W)
  record_entry o symbol signal = do
    (found, s) ← get_or_create_state o symbol
    some (put found symbol (commit signal s))

  abbrev cooldown_bars : SmcPairConfig W → OrchestratorExit → ℕ
  cooldown_bars cfg tp = 2
  cooldown_bars cfg sl = cfg.sl_cooldown_bars
  cooldown_bars cfg other = 1

  abbrev tell : RiskManager W → OrchestratorExit → ℕ → Option W → RiskManager W
  tell m exit_reason exit_time none = m
  tell m exit_reason exit_time (some pnl) =
      record_trade m pnl exit_time (some (reason_for_rm exit_reason))

  unfoldable pub settle :
      SmcPairConfig W → OrchestratorExit → ℕ → Option W → OrchestratorState W → OrchestratorState W
  settle cfg exit_reason exit_time pnl s = record s {
    cooldown_bars_remaining = max s.cooldown_bars_remaining (cooldown_bars cfg exit_reason);
    risk_manager = tell s.risk_manager exit_reason exit_time pnl;
  }

  unfoldable pub record_exit :
      Surroundings W
      → Orchestrator W
      → String
      → OrchestratorExit
      → ℕ
      → Option W
      → Option (Orchestrator W)
  record_exit env o symbol exit_reason exit_time pnl = do
    (found, s) ← get_or_create_state o symbol
    cfg ← get_smc_pair_config env.overrides symbol
    some (put found symbol (settle cfg exit_reason exit_time pnl s))

  abbrev pending_telemetry : PendingSetup W → PendingTelemetry W
  pending_telemetry p = record {
    direction = p.direction;
    mode = p.mode;
    entry_hint = p.sweep_mid;
    detected_at_h1_idx = p.detected_at_h1_idx;
    expires_at_h1_idx = p.expires_at_h1_idx;
  }

  abbrev telemetry_of : OrchestratorState W → OrchestratorTelemetry W
  telemetry_of s = record {
    pending_count = length s.pending;
    last_processed_h1_time = s.last_processed_h1_time;
    cooldown_bars_remaining = s.cooldown_bars_remaining;
    pending = map pending_telemetry s.pending;
  }

  pub get_telemetry : Orchestrator W → List (String × OrchestratorTelemetry W)
  get_telemetry o = map (λ (e : String × OrchestratorState W). (e.0, telemetry_of e.1)) o.states

  -- `getState`.
  unfoldable pub get_state : Orchestrator W → String → Option (OrchestratorState W)
  get_state o symbol = lookup symbol o.states
