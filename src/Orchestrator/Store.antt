-- ===== src/Orchestrator/Store.antt =====
-- What of `LiveSmcOrchestrator` survives a restart: `serialize` and `restore`, and the keys of Redis
-- under which the snapshots are kept. The text of a snapshot (JSON) is not modelled: a key holds the
-- snapshot. `fails` says that the call to Redis throws, which is caught.
pub mod Entries
pub mod Roundtrip
use shamarx_app.Prelude.{
  ℕ, Bool, true, false, Option, none, some, List, [], ◌∷◌, ◌++◌, map, foldl, String, ◌is◌, ◌+++◌,
  or_else, lookup, insert, if◌then◌else◌,
}
use shamarx_app.Double.{Double}
use shamarx_app.Risk.{RiskManager}
use shamarx_app.Risk.Snapshot.{PartialSnapshot, snapshot, restore as restore_manager}
use shamarx_app.Smc.{PendingSetup}
use shamarx_app.Orchestrator.{OrchestratorState, Orchestrator, add, build_risk_manager}

-- A setup of a snapshot: one of the older schema has no time of the sweep.
pub data StoredSetup (W : Type 0) : Type 0 where
  stamped : PendingSetup W → StoredSetup W
  unstamped : StoredSetup W

pub record StoredState (W : Type 0) : Type 0 where
  pub pending : Option (List (StoredSetup W))
  pub last_processed_h1_time : Option ℕ
  pub cooldown_bars_remaining : Option ℕ
  pub actioned_sweeps : Option (List ℕ)
  pub risk_manager : Option (PartialSnapshot W)

module _ {W : Type 0} ⦃d : Double W⦄ where
  unfoldable pub serialize_state : OrchestratorState W → StoredState W
  serialize_state s = record {
    pending = some (map stamped s.pending);
    last_processed_h1_time = s.last_processed_h1_time;
    cooldown_bars_remaining = some s.cooldown_bars_remaining;
    actioned_sweeps = some s.actioned_sweeps;
    risk_manager = some (snapshot s.risk_manager);
  }

  unfoldable pub serialize : Orchestrator W → List (String × StoredState W)
  serialize o = map (λ (e : String × OrchestratorState W). (e.0, serialize_state e.1)) o.states

  -- The setups that have the time of their sweep.
  unfoldable pub stamped_setups : List (StoredSetup W) → List (PendingSetup W)
  stamped_setups [] = []
  stamped_setups (stamped p ∷ rest) = p ∷ stamped_setups rest
  stamped_setups (unstamped ∷ rest) = stamped_setups rest

  abbrev rehydrate : RiskManager W → Option (PartialSnapshot W) → RiskManager W
  rehydrate m none = m
  rehydrate m (some snap) = restore_manager m snap

  unfoldable pub restore_state : RiskManager W → StoredState W → OrchestratorState W
  restore_state m raw = record {
    pending = stamped_setups (or_else raw.pending []);
    last_processed_h1_time = raw.last_processed_h1_time;
    cooldown_bars_remaining = or_else raw.cooldown_bars_remaining 0;
    actioned_sweeps = foldl add [] (or_else raw.actioned_sweeps []);
    risk_manager = rehydrate m raw.risk_manager;
  }

  -- The loop of `restore`: what it leaves, and whether it went through. An unknown symbol throws.
  unfoldable pub restore_entries :
      List (String × StoredState W) → Orchestrator W → Orchestrator W × Bool
  restore_entries [] o = (o, true)
  restore_entries ((symbol, raw) ∷ rest) o = elim (build_risk_manager o symbol) [
    | none ↦ (o, false)
    | some m ↦
        restore_entries rest (record o { states = insert symbol (restore_state m raw) o.states })
  ]

  unfoldable pub restore : Orchestrator W → List (String × StoredState W) → Orchestrator W × Bool
  restore o snap = restore_entries snap (record o { states = [] })

-- The empty account is falsy.
unfoldable pub state_key : Option String → String
state_key none = "live:orchestrator:state"
state_key (some account_id) =
    if account_id is ""
    then "live:orchestrator:state"
    else "live:orchestrator:state:" +++ account_id

-- The service, where there is one: the snapshot under each key.
abbrev pub Redis : Type 0 → Type 0
Redis W = Option (List (String × List (String × StoredState W)))

module _ {W : Type 0} ⦃d : Double W⦄ where
  abbrev restore_from : Orchestrator W → Option (List (String × StoredState W)) → Orchestrator W
  restore_from o none = o
  restore_from o (some raw) = (restore o raw).0

  unfoldable pub restore_from_redis :
      Redis W → Bool → Orchestrator W → Option String → Orchestrator W
  restore_from_redis none fails o account_id = o
  restore_from_redis (some keys) true o account_id = o
  restore_from_redis (some keys) false o account_id =
      restore_from o (lookup (state_key account_id) keys)

  unfoldable pub persist_to_redis : Redis W → Bool → Orchestrator W → Option String → Redis W
  persist_to_redis none fails o account_id = none
  persist_to_redis (some keys) true o account_id = some keys
  persist_to_redis (some keys) false o account_id =
      some (insert (state_key account_id) (serialize o) keys)

  abbrev copy_legacy :
      String
      → List (String × List (String × StoredState W))
      → List (String × List (String × StoredState W))
  copy_legacy suffixed keys = elim (lookup suffixed keys) [
    | some exists ↦ keys
    | none ↦ elim (lookup "live:orchestrator:state" keys) [
      | none ↦ keys
      | some legacy ↦ insert suffixed legacy keys
    ]
  ]

  unfoldable pub migrate_legacy_key_once : Redis W → Bool → String → Redis W
  migrate_legacy_key_once none fails default_account_id = none
  migrate_legacy_key_once (some keys) true default_account_id = some keys
  migrate_legacy_key_once (some keys) false default_account_id =
      some (copy_legacy ("live:orchestrator:state:" +++ default_account_id) keys)
