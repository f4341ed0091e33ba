-- ===== src/PositionMonitor/Sister.antt =====
-- `maybeTriggerSisterRunnerBe` of position-monitor.service.ts: the runner of an entry goes to
-- breakeven when the first leg has reached its target. The rows are what the database answers for the
-- closed trade and for its sister (symbol, side, entry price and account of the closed trade, open,
-- with a ticket, opened within five seconds), none where there is no such row.
use shamarx_app.Prelude.{
  ◌≡◌, ◌≢◌, ◌⊎◌, Bool, true, false, ◌&&◌, not, Option, none, some, List, [], ◌∷◌, or_else,
  if◌then◌else◌,
}
use shamarx_app.Double.{Double, IsIeee, ◌⊕◌, ◌⊖◌, ◌⊗◌, ◌⊴◌, dec}
use shamarx_app.Engine.{buy, sell}
use shamarx_app.Position.Manage.Stop.{is_looser}
use shamarx_app.LiveManager.{ManagedTrade, Modify, TrailKey, tp1, runner}

abbrev is_tp1 : Option TrailKey → Bool
is_tp1 (some tp1) = true
is_tp1 _ = false

abbrev is_runner : Option TrailKey → Bool
is_runner (some runner) = true
is_runner _ = false

module _ {W : Type 0} ⦃d : Double W⦄ where
  -- A tenth of the first risk beyond the entry.
  abbrev pub breakeven_stop : ManagedTrade W → W
  breakeven_stop sister =
      let original_sl = or_else sister.management_state.original_sl_price sister.sl_price in
      let buffer = d.abs (sister.entry_price ⊖ original_sl) ⊗ dec 1 1 in
      elim sister.side [ buy ↦ sister.entry_price ⊕ buffer | sell ↦ sister.entry_price ⊖ buffer ]

  -- The sister is a runner that is not at breakeven.
  abbrev awaits_breakeven : ManagedTrade W → Bool
  awaits_breakeven sister =
      is_runner sister.management_state.trail_key
      && not (or_else sister.management_state.breakeven_activated false)

  -- The sister's row, and the change that was sent; `accepted` says whether the broker took it.
  unfoldable pub activate_runner : Bool → ManagedTrade W → ManagedTrade W × List (Modify W)
  activate_runner accepted sister =
      let change : Modify W = record {
        ticket = sister.mt5_ticket;
        sl_price = breakeven_stop sister;
        tp_price = sister.tp_price;
      } in
      let moved = record sister {
        sl_price = breakeven_stop sister;
        management_state = record sister.management_state { breakeven_activated = some true };
      } in
      if awaits_breakeven sister
      then (if accepted then moved else sister, change ∷ [])
      else (sister, [])

  unfoldable pub trigger_sister_runner_be :
      Bool
      → Option (ManagedTrade W)
      → Option (ManagedTrade W)
      → Option (ManagedTrade W × List (Modify W))
  trigger_sister_runner_be accepted none sister = none
  trigger_sister_runner_be accepted (some closed) none = none
  trigger_sister_runner_be accepted (some closed) (some sister) =
      if is_tp1 closed.management_state.trail_key
      then some (activate_runner accepted sister)
      else none

  -- The stop of the sister is on the losing side of its entry.
  abbrev pub is_losing_side : ManagedTrade W → Bool
  is_losing_side sister = elim sister.side [
    | buy ↦ sister.sl_price ⊴ sister.entry_price
    | sell ↦ sister.entry_price ⊴ sister.sl_price
  ]

  module _ (laws : IsIeee W) where
    open laws use {
      lt_of_lt_le, lt_of_le_lt, add_nonneg, sub_nonneg, mul_nonneg, abs_nonneg, decimal_mono,
    }

    -- What is sent and stored for the sister: nothing, for a trade that is no runner or is at
    -- breakeven; and for a runner before breakeven one change of its own position, with the target it
    -- has and a stop that is neither looser than its stop nor on the losing side of its entry. The
    -- row takes that stop and is marked as at breakeven where the broker accepts, and else stays.
    pub data IsMovedTo (accepted : Bool) (sister : ManagedTrade W)
        (r : ManagedTrade W × List (Modify W)) : Type 0 where
      left :
          (sister.management_state.trail_key ≢ some runner)
            ⊎ (sister.management_state.breakeven_activated ≡ some true)
          → r ≡ (sister, [])
          → IsMovedTo accepted sister r
      sent :
          (m : Modify W)
          → r.1 ≡ m ∷ []
          → m.ticket ≡ sister.mt5_ticket
          → m.tp_price ≡ sister.tp_price
          → is_looser sister.side m.sl_price sister.sl_price ≡ false
          → is_looser sister.side m.sl_price sister.entry_price ≡ false
          → (accepted ≡ true
              × (r.0.sl_price ≡ m.sl_price)
              × (r.0.management_state.breakeven_activated ≡ some true))
            ⊎ (accepted ≡ false × (r.0 ≡ sister))
          → IsMovedTo accepted sister r
