-- ===== src/Smc/Scan.antt =====
-- The searches that the detectors of gaps and of order blocks share: each collects the zones of a
-- range of bars in their order, then looks for the newest one that passes a test
-- (src/backtest/engine/smc/fvg-detector.ts and order-block-detector.ts). A loop of `n` steps from
-- `i` up is a recursion on `n`.
pub mod Newest
use shamarx_app.Prelude.{
  ℕ, zero, suc, ◌+◌, ◌-◌, Bool, true, false, not, ◌&&◌, Option, none, some, List, [], ◌∷◌,
  get_elem?, length, leb, if◌then◌else◌,
}
use shamarx_app.Double.{Double, ◌⊲◌, ◌⊴◌, num}
use shamarx_app.Engine.{Side, buy, sell, BacktestCandle}

module _ {ℓ} {A : Type ℓ} where
  abbrev pub cons_if : Option A → List A → List A
  cons_if none xs = xs
  cons_if (some x) xs = x ∷ xs

  -- What the bars `i`, …, `i + n - 1` yield.
  unfoldable pub collect : (ℕ → Option A) → ℕ → ℕ → List A
  collect yields i zero = []
  collect yields i (suc n) = cons_if (yields i) (collect yields (i + 1) n)

  abbrev pub else_if : Option A → Bool → A → Option A
  else_if (some y) test x = some y
  else_if none test x = if test then some x else none

  -- The loop from the last entry down to the first that passes the test.
  unfoldable pub last_where : (A → Bool) → List A → Option A
  last_where test [] = none
  last_where test (x ∷ xs) = else_if (last_where test xs) (test x) x

-- `Math.min(endIdx ?? length - 1, length - 1)`. Where there is no bar the source has -1 and no loop
-- runs; none runs from 0 either.
abbrev pub end_of : Option ℕ → ℕ → ℕ
end_of none len = len - 1
end_of (some i) len = if leb i (len - 1) then i else len - 1

abbrev pub is_buy : Side → Bool
is_buy buy = true
is_buy sell = false

-- `a === b` on Booleans.
abbrev pub same : Bool → Bool → Bool
same true b = b
same false b = not b

module _ {W : Type 0} ⦃d : Double W⦄ where
  abbrev pub reenters : Bool → W → W → Option (BacktestCandle W) → Bool
  reenters is_bullish top bottom none = false
  reenters true top bottom (some c) = c.low ⊴ top
  reenters false top bottom (some c) = bottom ⊴ c.high

  -- The first of the bars `k`, …, `k + n - 1` that comes back to the zone.
  unfoldable pub first_reentry : Bool → W → W → List (BacktestCandle W) → ℕ → ℕ → Option ℕ
  first_reentry is_bullish top bottom candles k zero = none
  first_reentry is_bullish top bottom candles k (suc n) =
      let rest = first_reentry is_bullish top bottom candles (k + 1) n in
      if reenters is_bullish top bottom (get_elem? candles k) then some k else rest

  -- An entry of an average true range, 0 where there is none.
  abbrev pub atr_at : Option (List W) → ℕ → W
  atr_at none i = num 0
  atr_at (some atr) i = elim (get_elem? atr i) [ none ↦ num 0 | some x ↦ x ]

  abbrev pub is_inside : W → W → W → Bool
  is_inside price bottom top = (bottom ⊴ price) && (price ⊴ top)
