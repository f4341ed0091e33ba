-- ===== src/LiveManager/Levels.antt =====
-- The levels with which a run starts, and how the row and the broker stand after one change.
use shamarx_app.Prelude.{
  ℕ, ◌≡◌, refl, inl, inr, Bool, true, false, Option, some, List, [], ◌∷◌, String, ◌==◌, arith,
  Bool-cases, Option-cases, if◌then◌else◌, or_else,
}
use shamarx_app.Double.{Double, num, ◌⊖◌, ◌⊲◌, ◌⊴◌, same_level}
use shamarx_app.Engine.{SimulatedPosition}
use shamarx_app.Smc.Scan.{last_where}
use shamarx_app.LiveManager.{
  ManagedTrade, LivePosition, ManagementState, Modify, position_of, is_same_position, needs_modify,
  min_sl_change_abs, store, modify_of, apply_update,
}

module _ {W : Type 0} ⦃d : Double W⦄ where
  -- The broker's position of the trade.
  abbrev pub found_by_ticket : List (LivePosition W) → ManagedTrade W → Option (LivePosition W)
  found_by_ticket positions trade =
      last_where (λ (p : LivePosition W). p.ticket == trade.mt5_ticket) positions

  -- The target with which the run starts: the broker's, or that of the row where the broker has none.
  abbrev pub start_target : LivePosition W → ManagedTrade W → W
  start_target broker trade = if num 0 ⊲ broker.tp then broker.tp else trade.tp_price

  -- The stop with which the run starts: the broker's, or that of the row where the broker has none.
  abbrev pub start_stop : LivePosition W → ManagedTrade W → W
  start_stop broker trade = if num 0 ⊲ broker.sl then broker.sl else trade.sl_price

  -- The run leaves the trade `trade` as `r.0` and sends `r.1`, where the engine makes of the broker's
  -- position a position with the levels `updated`: it finds nothing moved, or the broker refuses the
  -- change, or the levels moved by less than the symbol's least change and the row follows them, or
  -- the broker takes the change and the row follows it. A change carries the engine's levels, with 0
  -- for no target.
  pub data IsInStep (symbol : String) (accepts : ℕ → Bool) (trade : ManagedTrade W)
      (broker : LivePosition W) (updated : SimulatedPosition W)
      (r : ManagedTrade W × List (Modify W)) : Type 0 where
    unmoved :
        d.eq updated.sl_price (start_stop broker trade) ≡ true
        → same_level updated.tp_price (some (start_target broker trade)) ≡ true
        → r ≡ (trade, [])
        → IsInStep symbol accepts trade broker updated r
    too_small :
        (target : W)
        → updated.tp_price ≡ some target
        → (min_sl_change_abs symbol ⊴ d.abs (updated.sl_price ⊖ start_stop broker trade)) ≡ false
        → (min_sl_change_abs symbol ⊴ d.abs (target ⊖ start_target broker trade)) ≡ false
        → r.0.sl_price ≡ updated.sl_price
        → r.0.tp_price ≡ target
        → r.1 ≡ []
        → IsInStep symbol accepts trade broker updated r
    refused :
        accepts trade.mt5_ticket ≡ false
        → r.0 ≡ trade
        → r.1
          ≡ (record {
            ticket = trade.mt5_ticket;
            sl_price = updated.sl_price;
            tp_price = or_else updated.tp_price (num 0);
          })
            ∷ []
        → IsInStep symbol accepts trade broker updated r
    taken :
        accepts trade.mt5_ticket ≡ true
        → r.0.sl_price ≡ updated.sl_price
        → r.0.tp_price ≡ or_else updated.tp_price trade.tp_price
        → r.1
          ≡ (record {
            ticket = trade.mt5_ticket;
            sl_price = updated.sl_price;
            tp_price = or_else updated.tp_price (num 0);
          })
            ∷ []
        → IsInStep symbol accepts trade broker updated r

  -- A change that is not sent is small, and removes no target.
  needs_modify-small :
      (symbol : String) (updated pos : SimulatedPosition W) (old : W)
      → pos.tp_price ≡ some old
      → needs_modify symbol updated pos ≡ false
      → (target : W) × (updated.tp_price ≡ some target)
        × ((min_sl_change_abs symbol ⊴ d.abs (updated.sl_price ⊖ pos.sl_price)) ≡ false)
        × ((min_sl_change_abs symbol ⊴ d.abs (target ⊖ old)) ≡ false)
  unfolding needs_modify
  needs_modify-small symbol updated pos old at h = elim (Option-cases updated.tp_price) [
    | inl removed ↦ absurd (ground (arith, removed, at))
    | inr (target, kept) ↦ (target, kept, ground (arith, kept, at), ground (arith, kept, at))
  ]

  pub apply_update-IsInStep :
      (symbol : String) (accepts : ℕ → Bool) (trade : ManagedTrade W) (broker : LivePosition W)
      (state : ManagementState W) (updated : SimulatedPosition W)
      → IsInStep symbol accepts trade broker updated
          (apply_update symbol accepts trade state (position_of trade broker state) updated)
  unfolding apply_update store modify_of position_of is_same_position
  apply_update-IsInStep symbol accepts trade broker state updated =
      let pos = position_of trade broker state in
      elim (Bool-cases (is_same_position updated pos)) [
        | inl same ↦ unmoved (ground (arith, same)) (ground (arith, same)) (ground (arith, same))
        | inr changed ↦ elim (Bool-cases (needs_modify symbol updated pos)) [
          | inr small ↦
              let (target, kept, stop, level) =
                needs_modify-small symbol updated pos (start_target broker trade) refl small in
              too_small target kept stop level (ground (arith, changed, small))
                (ground (arith, changed, small, kept)) (ground (arith, changed, small))
          | inl large ↦ elim (Bool-cases (accepts trade.mt5_ticket)) [
            | inr refusal ↦
                refused refusal (ground (arith, changed, large, refusal))
                  (ground (arith, changed, large))
            | inl accepted ↦
                taken accepted (ground (arith, changed, large, accepted))
                  (ground (arith, changed, large, accepted)) (ground (arith, changed, large))
          ]
        ]
      ]
