-- ===== src/Smc/Scan/Newest.antt =====
-- What the searches of a range of bars find: the newest bar of the range that yields an entry that
-- passes the test, and the first bar that comes back to a zone.
use shamarx_app.Prelude.{
  ℕ, zero, suc, ◌+◌, ◌≤◌, ◌<◌, ◌≡◌, inl, inr, Bool, true, false, Option, none, some, List, arith,
  get_elem?, Bool-cases, Option-cases, ltb,
}
use shamarx_app.Double.{Double}
use shamarx_app.Engine.{BacktestCandle}
use shamarx_app.Smc.Scan.{collect, last_where, first_reentry, reenters}

-- No bar of the range yields an entry that passes the test.
abbrev pub YieldsNo {ℓ} : {A : Type ℓ} → (ℕ → Option A) → (A → Bool) → ℕ → ℕ → Type ℓ
YieldsNo {A} yields test lo n =
    (j : ℕ) → lo ≤ j → j < lo + n → (x : A) → yields j ≡ some x → test x ≡ false

-- The entry of the newest bar of the range that yields one that passes the test.
pub record IsNewest {ℓ} {A : Type ℓ} (yields : ℕ → Option A) (test : A → Bool) (lo n : ℕ) (x : A)
    : Type ℓ where
  pub k : ℕ
  pub from : lo ≤ k
  pub below : k < lo + n
  pub yielded : yields k ≡ some x
  pub passes : test x ≡ true
  pub newest : (j : ℕ) → k < j → j < lo + n → (y : A) → yields j ≡ some y → test y ≡ false

module _ {ℓ} {A : Type ℓ} (yields : ℕ → Option A) (test : A → Bool) where
  -- The newest entry of a range, seen from one bar earlier.
  later : (i n : ℕ) (x : A) → IsNewest yields test (i + 1) n x → IsNewest yields test i (suc n) x
  later i n x r = record {
    k = r.k;
    from = omega (arith, r.from);
    below = omega (arith, r.below);
    yielded = r.yielded;
    passes = r.passes;
    newest = λ j above under. r.newest j above (omega arith);
  }

  YieldsNo-extend :
      (i n : ℕ)
      → YieldsNo yields test (i + 1) n
      → ((x : A) → yields i ≡ some x → test x ≡ false)
      → YieldsNo yields test i (suc n)
  YieldsNo-extend i n rest here j from under x h = elim (Bool-cases (ltb i j)) [
    | inl above ↦ rest j (ground arith) (omega arith) x h
    | inr at ↦ let same : i ≡ j = ground arith in here x (rw same h)
  ]

  pub last_where-none :
      (i n : ℕ) → last_where test (collect yields i n) ≡ none → YieldsNo yields test i n
  unfolding last_where collect
  last_where-none i zero h = λ j from under x hx. absurd (omega arith)
  last_where-none i (suc n) h = elim (Option-cases (yields i)) [
    | inl nothing ↦
        YieldsNo-extend i n (last_where-none (i + 1) n (ground arith))
          (λ x hx. absurd (ground arith))
    | inr (y, found) ↦
        YieldsNo-extend i n (last_where-none (i + 1) n (ground arith)) (λ x hx. ground arith)
  ]

  pub last_where-IsNewest :
      (i n : ℕ) (x : A) → last_where test (collect yields i n) ≡ some x → IsNewest yields test i n x
  unfolding last_where collect
  last_where-IsNewest i zero x h = absurd (ground arith)
  last_where-IsNewest i (suc n) x h =
      elim (Option-cases (last_where test (collect yields (i + 1) n))) [
        | inl none_later ↦
            let rest = last_where-none (i + 1) n none_later in
            record {
              k = i;
              from = omega arith;
              below = omega arith;
              yielded = ground arith;
              passes = ground arith;
              newest = λ j above under. rest j (omega arith) (omega arith);
            }
        | inr (y, found) ↦ later i n x (last_where-IsNewest (i + 1) n x (ground arith))
      ]

module _ {W : Type 0} ⦃d : Double W⦄ (is_bullish : Bool) (top bottom : W)
    (candles : List (BacktestCandle W)) where
  pub first_reentry-none :
      (k n : ℕ)
      → first_reentry is_bullish top bottom candles k n ≡ none
      → (j : ℕ) → k ≤ j
      → j < k + n
      → reenters is_bullish top bottom (get_elem? candles j) ≡ false
  unfolding first_reentry
  first_reentry-none k zero h j from under = absurd (omega arith)
  first_reentry-none k (suc n) h j from under = elim (Bool-cases (ltb k j)) [
    | inl above ↦ first_reentry-none (k + 1) n (ground arith) j (ground arith) (omega arith)
    | inr at ↦ let same : j ≡ k = ground arith in rw same (ground arith)
  ]
