-- ===== src/PositionMonitor.antt =====
-- src/strategy/live/position-monitor.service.ts: the reconciliation of the open trades with the
-- positions that the broker reports. A trade that the broker does not report is closed in the
-- database only after three passes in a row without it. What the broker and the database answer are
-- arguments.
pub mod Reported
pub mod Absence
pub mod Sister
use shamarx_app.Prelude.{
  ℕ, ◌+◌, ◌-◌, ◌≤◌, Bool, true, false, not, ◌&&◌, ◌||◌, Option, none, some, List, [], ◌∷◌, ◌++◌,
  String, ltb, leb, ◌==◌, ◌is◌, any, or_else, is_some, if◌then◌else◌, lookup, insert, remove,
}
use shamarx_app.Double.{Double, ◌⊕◌, ◌⊖◌, ◌⊗◌, ◌⊘◌, ◌⊲◌, ◌⊴◌, num, dec, cents}
use shamarx_app.Engine.{Side, buy, sell}
use shamarx_app.Engine.Instrument.{is_jpy_pair}
use shamarx_app.Orchestrator.{
  Orchestrator, Surroundings, OrchestratorExit, sl, tp, other, record_exit,
}

-- The reason of a close: `named` is the broker's own, where it is none of the others.
pub data CloseReason : Type 0 where
  by_tp by_sl plain tp_est sl_est : CloseReason
  named : String → CloseReason

-- The broker's history of a closed position: the reason says that it contains TP or TAKE, or SL or
-- STOP, and else its text.
pub record History (W : Type 0) : Type 0 where
  pub close_price : Option W
  pub pnl : Option W
  pub reason : Option CloseReason
  pub close_time : Option ℕ

-- The columns of an open trade that the reconciliation reads.
pub record OpenTrade (W : Type 0) : Type 0 where
  pub id : String
  pub mt5_ticket : ℕ
  pub symbol : String
  pub side : Side
  pub lot_size : W
  pub entry_price : W
  pub sl_price : W
  pub tp_price : W

-- What `finalizeClosedTrade` writes to the row.
pub record Closing (W : Type 0) : Type 0 where
  pub close_price : W
  pub pnl : W
  pub exit_reason : CloseReason
  pub closed_at : ℕ

-- ABSENCE_CONFIRMATIONS.
abbrev pub absence_confirmations : ℕ
absence_confirmations = 3

-- The count of a trade after a pass that does not report it, none where the trade is to be closed.
abbrev pub counted_miss : Option ℕ → Option ℕ
counted_miss count =
    let misses = or_else count 0 + 1 in
    if ltb misses absence_confirmations then some misses else none

module _ {W : Type 0} where
  -- The broker reports the trade; ticket 0 counts as none.
  abbrev pub is_reported : List ℕ → OpenTrade W → Bool
  is_reported tickets trade =
      not (trade.mt5_ticket == 0) && any (λ t. t == trade.mt5_ticket) tickets

  -- A miss: the counts, and the trades to finalize.
  abbrev pub miss :
      OpenTrade W → List (String × ℕ) → Option ℕ → List (String × ℕ) × List (OpenTrade W)
  miss trade counts none = (remove trade.id counts, trade ∷ [])
  miss trade counts (some misses) = (insert trade.id misses counts, [])

  -- The body of the loop of `reconcileTrades`.
  unfoldable pub reconcile_trade :
      List ℕ → List (String × ℕ) → OpenTrade W → List (String × ℕ) × List (OpenTrade W)
  reconcile_trade tickets counts trade =
      if is_reported tickets trade
      then (remove trade.id counts, [])
      else miss trade counts (counted_miss (lookup trade.id counts))

  unfoldable pub reconcile_trades :
      List ℕ → List (String × ℕ) → List (OpenTrade W) → List (String × ℕ) × List (OpenTrade W)
  reconcile_trades tickets counts [] = (counts, [])
  reconcile_trades tickets counts (trade ∷ rest) =
      let one = reconcile_trade tickets counts trade in
      let others = reconcile_trades tickets one.0 rest in (others.0, one.1 ++ others.1)

abbrev pub is_tp_or_sl : CloseReason → Bool
is_tp_or_sl by_tp = true
is_tp_or_sl by_sl = true
is_tp_or_sl _ = false

abbrev is_plain : CloseReason → Bool
is_plain plain = true
is_plain _ = false

module _ {W : Type 0} ⦃d : Double W⦄ where
  -- `isFinite`.
  abbrev is_finite : W → Bool
  is_finite x = d.abs x ⊲ d.infinity

  unfoldable pub infer_exit_reason : W → W → W → CloseReason
  infer_exit_reason close_price sl_price tp_price =
      let span = d.abs (tp_price ⊖ sl_price) in
      let tol = span ⊗ dec 25 2 in
      if not (is_finite span) || (span ⊴ num 0)
      then plain
      else if d.abs (close_price ⊖ tp_price) ⊴ tol
      then by_tp
      else if d.abs (close_price ⊖ sl_price) ⊴ tol
      then by_sl
      else plain

  -- The reason, inferred from a price where the broker gives no usable one.
  abbrev reason_at : OpenTrade W → Option W → CloseReason → CloseReason
  reason_at trade none reason = reason
  reason_at trade (some close_price) reason =
      if is_tp_or_sl reason
      then reason
      else infer_exit_reason close_price trade.sl_price trade.tp_price

  abbrev guess_reason : OpenTrade W → W → CloseReason
  guess_reason trade close_price = elim trade.side [
    | buy ↦ if trade.entry_price ⊴ close_price then tp_est else sl_est
    | sell ↦ if close_price ⊴ trade.entry_price then tp_est else sl_est
  ]

  -- The profit that the price gives: 100 units a lot in gold, 100000 in other pairs.
  abbrev estimated_pnl : OpenTrade W → W → W
  estimated_pnl trade close_price =
      let price_diff : W = elim trade.side [
        | buy ↦ close_price ⊖ trade.entry_price
        | sell ↦ trade.entry_price ⊖ close_price
      ] in
      let lot_units : W = if trade.symbol is "XAUUSD" then num 100 else num 100000 in
      let raw = price_diff ⊗ trade.lot_size ⊗ lot_units in
      cents (if is_jpy_pair trade.symbol then raw ⊘ close_price else raw)

  abbrev rounded : Closing W → Closing W
  rounded c = record c {
    close_price = d.round (c.close_price ⊗ num 100000) ⊘ num 100000;
    pnl = cents c.pnl;
  }

  -- The close by the broker's price and result.
  abbrev close_by : OpenTrade W → ℕ → CloseReason → Option W → Option W → Closing W
  close_by trade closed_at reason (some close_price) (some pnl) = record {
    close_price = close_price;
    pnl = pnl;
    exit_reason = reason;
    closed_at = closed_at;
  }
  close_by trade closed_at reason close_price _ =
      let mid_guess = (trade.sl_price ⊕ trade.tp_price) ⊘ num 2 in
      let price = or_else close_price mid_guess in
      record {
        close_price = price;
        pnl = estimated_pnl trade price;
        exit_reason = if is_plain reason then guess_reason trade price else reason;
        closed_at = closed_at;
      }

  abbrev no_history : History W
  no_history = record { close_price = none; pnl = none; reason = none; close_time = none }

  -- The close that `finalizeClosedTrade` finds, from the history if the broker gives one.
  unfoldable pub closing_of : ℕ → Option (History W) → OpenTrade W → Closing W
  unfolding is_jpy_pair
  closing_of now history trade =
      let h = or_else history no_history in
      let reason = reason_at trade h.close_price (or_else h.reason plain) in
      close_by trade (or_else h.close_time now) reason h.close_price h.pnl

-- The exit that the orchestrator is told, by the prefix of the reason.
abbrev pub normalized : (String → OrchestratorExit) → CloseReason → OrchestratorExit
normalized by_prefix by_tp = tp
normalized by_prefix tp_est = tp
normalized by_prefix by_sl = sl
normalized by_prefix sl_est = sl
normalized by_prefix plain = other
normalized by_prefix (named reason) = by_prefix reason

module _ {W : Type 0} ⦃d : Double W⦄ where
  -- `finalizeClosedTrade`: the update of the row, and the orchestrator that has been told of the exit,
  -- none where that throws. `by_prefix` tests the prefix of a reason of the broker's own.
  unfoldable pub finalize_closed_trade :
      Surroundings W
      → (String → OrchestratorExit)
      → ℕ
      → Option (History W)
      → OpenTrade W
      → Orchestrator W
      → Closing W × Option (Orchestrator W)
  finalize_closed_trade env by_prefix now history trade o =
      let c = closing_of now history trade in
      (
        rounded c,
        record_exit env o trade.symbol (normalized by_prefix c.exit_reason) c.closed_at
            (some c.pnl),
      )
