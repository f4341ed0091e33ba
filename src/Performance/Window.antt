-- ===== src/Performance/Window.antt =====
-- What the window of trades keeps.
use shamarx_app.Prelude.{
  ℕ, suc, ◌+◌, ◌≤◌, List, [], ◌∷◌, ◌++◌, length, length-append, drop, if◌then◌else◌, arith,
}
use shamarx_app.Double.{Double}
use shamarx_app.Performance.{TrackedTrade, push_window, hot_streak_of, compute_stats}

length-drop_one {ℓ} : {A : Type ℓ} (xs : List A) → length (drop 1 xs) + 1 ≤ suc (length xs)
length-drop_one [] = omega arith
length-drop_one (x ∷ xs) = omega arith

hot_streak_le :
    {W : Type 0} ⦃d : Double W⦄ (n : ℕ) (trades : List (TrackedTrade W))
    → hot_streak_of n trades ≤ n + length trades
unfolding hot_streak_of
hot_streak_le n [] = omega arith
hot_streak_le n (t ∷ rest) = ground (arith, hot_streak_le (if t.won then suc n else 0) rest)

-- The hot streak of the statistics of a window is not longer than their number of trades.
pub hot_streak_bounded :
    {W : Type 0} ⦃d : Double W⦄ (trades : List (TrackedTrade W))
    → (compute_stats trades).hot_streak ≤ (compute_stats trades).trade_count
unfolding compute_stats
hot_streak_bounded [] = omega arith
hot_streak_bounded (t ∷ rest) = omega (arith, hot_streak_le 0 (t ∷ rest))

-- A window that is not longer than its size is not longer after a trade is pushed.
pub push_window_bounded {ℓ} :
    {A : Type ℓ} (size : ℕ) (trade : A) (window : List A)
    → length window ≤ size
    → length (push_window size trade window) ≤ size
unfolding push_window
push_window_bounded size trade window h =
    ground (arith, length-append window (trade ∷ []), length-drop_one (window ++ trade ∷ []))
