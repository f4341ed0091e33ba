-- ===== src/Smc/Swing/Recent.antt =====
-- What the search for a recent swing finds, and that it does not look past its bar.
use shamarx_app.Prelude.{
  ℕ, zero, suc, ◌+◌, ◌-◌, ◌≤◌, ◌<◌, ◌≡◌, refl, inl, inr, Bool, true, false, Option, none, some,
  List, arith, get_elem?, Bool-cases, ltb,
}
use shamarx_app.Engine.{BacktestCandle}
use shamarx_app.Smc.Swing.{level_at, is_extreme, find_swing}

module _ {W : Type 0} (beyond : W → W → Bool) (level : BacktestCandle W → W)
    (candles : List (BacktestCandle W)) where
  -- The level of the bar `k`.
  abbrev pub nth_level : ℕ → Option W
  nth_level k = level_at level (get_elem? candles k)

  -- The bar `k` is a fractal, and `x` is its level.
  pub record IsSwing (k : ℕ) (x : W) : Type 0 where
    pub here : nth_level k ≡ some x
    pub extreme : is_extreme beyond (nth_level (k - 1)) (nth_level k) (nth_level (k + 1)) ≡ true

  extreme-some : (a b c : Option W) → is_extreme beyond a b c ≡ true → (x : W) × (b ≡ some x)
  extreme-some (some a) (some b) (some c) h = (b, refl)
  extreme-some (some a) (some b) none h = absurd (ground arith)
  extreme-some (some a) none c h = absurd (ground arith)
  extreme-some none b c h = absurd (ground arith)

  -- A swing that is found is that of a bar in the range, and no newer bar of the range is a swing.
  pub record IsNewestSwing (lo n : ℕ) (x : W) : Type 0 where
    pub k : ℕ
    pub from : lo ≤ k
    pub below : k < lo + n
    pub swing : IsSwing k x
    pub newest :
        (j : ℕ)
        → k < j
        → j < lo + n
        → is_extreme beyond (nth_level (j - 1)) (nth_level j) (nth_level (j + 1)) ≡ false

  -- A swing that the search finds is that of a fractal of the range, and no newer bar of the range is
  -- a fractal.
  pub find_swing-IsNewestSwing :
      (lo n : ℕ) (x : W) → find_swing beyond level candles lo n ≡ some x → IsNewestSwing lo n x
  unfolding find_swing
  find_swing-IsNewestSwing lo zero x h = absurd (ground arith)
  find_swing-IsNewestSwing lo (suc n) x h =
      elim (Bool-cases (
        is_extreme beyond (nth_level (lo + n - 1)) (nth_level (lo + n)) (nth_level (lo + n + 1)))) [
          | inl yes_swing ↦ record {
            k = lo + n;
            from = omega arith;
            below = omega arith;
            swing = record { here = ground arith; extreme = yes_swing };
            newest = λ j above under. absurd (omega arith);
          }
          | inr no_swing ↦
              let s = find_swing-IsNewestSwing lo n x (ground arith) in
              record {
                k = s.k;
                from = s.from;
                below = omega (arith, s.below);
                swing = s.swing;
                newest = λ j above under. elim (Bool-cases (ltb j (lo + n))) [
                  | inl older ↦ s.newest j above (ground arith)
                  | inr last ↦ let same : j ≡ lo + n = ground arith in rw same no_swing
                ];
              }
        ]

  -- A search that finds nothing has seen no swing.
  pub find_swing-none :
      (lo n : ℕ)
      → find_swing beyond level candles lo n ≡ none
      → (j : ℕ) → lo ≤ j
      → j < lo + n
      → is_extreme beyond (nth_level (j - 1)) (nth_level j) (nth_level (j + 1)) ≡ false
  unfolding find_swing
  find_swing-none lo zero h j a b = absurd (omega arith)
  find_swing-none lo (suc n) h j a b =
      elim (Bool-cases (
        is_extreme beyond (nth_level (lo + n - 1)) (nth_level (lo + n)) (nth_level (lo + n + 1)))) [
          | inl yes_swing ↦ let (x, there) = extreme-some _ _ _ yes_swing in absurd (ground arith)
          | inr no_swing ↦ elim (Bool-cases (ltb j (lo + n))) [
            | inl older ↦ find_swing-none lo n (ground arith) j a (ground arith)
            | inr last ↦ let same : j ≡ lo + n = ground arith in rw same no_swing
          ]
        ]
