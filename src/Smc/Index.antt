-- ===== src/Smc/Index.antt =====
-- `indexForTime` of src/backtest/engine/smc/smc-engine.ts, the binary search that sweep-detector.ts
-- and strategy-evaluator.ts write out again. The loop runs over the times from `lo` and below
-- `hi + 1`; the index -1 is `none`.
pub mod Last
use shamarx_app.Prelude.{
  ℕ, zero, suc, ◌+◌, ◌-◌, ◌/◌, Bool, false, Option, none, some, List, map, ltb, leb, if◌then◌else◌,
  or_else, get_elem?, length,
}
use shamarx_app.Engine.{BacktestCandle}

-- `times[i] <= t`; an index out of range, where the source would throw, does not occur.
unfoldable pub not_after : ℕ → Option ℕ → Bool
not_after t none = false
not_after t (some time) = leb time t

-- The loop, with fuel; `none` where the fuel runs out.
unfoldable pub search_last : ℕ → List ℕ → ℕ → ℕ → ℕ → Option ℕ → Option (Option ℕ)
search_last zero times t lo hi best = none
search_last (suc fuel) times t lo hi best =
    let mid = (lo + hi - 1) / 2 in
    let right = search_last fuel times t (suc mid) hi (some mid) in
    let left = search_last fuel times t lo mid best in
    if ltb lo hi then (if not_after t (get_elem? times mid) then right else left) else some best

-- Each round leaves fewer times, so one step more than there are times suffices.
unfoldable pub last_index : List ℕ → ℕ → Option ℕ
last_index times t = or_else (search_last (suc (length times)) times t 0 (length times) none) none

module _ {W : Type 0} where
  unfoldable pub times_of : List (BacktestCandle W) → List ℕ
  times_of = map λ (c : BacktestCandle W). c.open_time

  unfoldable pub index_for_time : List (BacktestCandle W) → ℕ → Option ℕ
  index_for_time candles t = last_index (times_of candles) t
