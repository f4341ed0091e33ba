-- ===== src/Smc/Bos/Break.antt =====
-- The newest break of structure: what the search reports, and that with every bar in range it
-- answers.
use shamarx_app.Prelude.{
  ℕ, zero, suc, ◌+◌, ◌-◌, ◌≤◌, ◌<◌, ◌≡◌, refl, subst, inl, inr, true, Option, none, some, List,
  arith, get_elem?, get_elem?-some, length, ltb, leb, max, Option-cases, Bool-cases,
}
use shamarx_app.Double.{Double}
use shamarx_app.Engine.{Side, BacktestCandle}
use shamarx_app.Smc.Bos.{
  Bos, swing_to_break, breaks, bos_of, find_break, start_of, detect_bos, has_bos_after,
}

module _ {W : Type 0} ⦃d : Double W⦄ (candles : List (BacktestCandle W)) (side : Side)
    (swing_lookback : ℕ) where
  -- The close of the bar `k` is beyond the swing that is there to break at `k`.
  pub record IsBreak (k : ℕ) (bos : Bos W) : Type 0 where
    pub c : BacktestCandle W
    pub there : get_elem? candles k ≡ some c
    pub is_bos : bos ≡ bos_of side k c bos.level
    pub swing : swing_to_break candles side k swing_lookback ≡ some bos.level
    pub broke : breaks side c bos.level ≡ true

  pub record IsNewestBreak (lo n : ℕ) (bos : Bos W) : Type 0 where
    pub from : lo ≤ bos.broken_at_idx
    pub below : bos.broken_at_idx < lo + n
    pub break_here : IsBreak bos.broken_at_idx bos
    pub newest :
        (j : ℕ) → bos.broken_at_idx < j → j < lo + n → (later : Bos W) → ¬ (IsBreak j later)

  one_more :
      (lo n : ℕ) (bos : Bos W)
      → ((later : Bos W) → ¬ (IsBreak (lo + n) later))
      → IsNewestBreak lo n bos
      → IsNewestBreak lo (suc n) bos
  one_more lo n bos not_here r = record {
    from = r.from;
    below = omega (arith, r.below);
    break_here = r.break_here;
    newest = λ j above under. elim (Bool-cases (ltb j (lo + n))) [
      | inl earlier ↦ r.newest j above (ground arith)
      | inr last ↦
          let same : lo + n ≡ j = ground arith in
          subst (λ k. (later : Bos W) → ¬ (IsBreak k later)) same not_here
    ];
  }

  at_bar :
      (lo n : ℕ) (bos : Bos W) (swing : W) (c : BacktestCandle W)
      → swing_to_break candles side (lo + n) swing_lookback ≡ some swing
      → get_elem? candles (lo + n) ≡ some c
      → (find_break candles side swing_lookback lo n ≡ some (some bos) → IsNewestBreak lo n bos)
      → find_break candles side swing_lookback lo (suc n) ≡ some (some bos)
      → IsNewestBreak lo (suc n) bos
  unfolding find_break
  at_bar lo n bos swing c hs hc rest h = elim (Bool-cases (breaks side c swing)) [
    | inl broke ↦
        let same : bos_of side (lo + n) c swing ≡ bos = ground arith in
        subst (λ b. IsNewestBreak lo (suc n) b) same
          record {
            from = omega arith;
            below = omega arith;
            break_here = record { c = c; there = hc; is_bos = refl; swing = hs; broke = broke };
            newest = λ j above under later. absurd (omega arith);
          }
    | inr holds ↦
        one_more lo n bos
          (λ later b.
            let s1 = b.swing in let s2 = b.there in let s3 = b.broke in absurd (ground arith))
          (rest (ground arith))
  ]

  pub find_break-IsNewestBreak :
      (lo n : ℕ) (bos : Bos W)
      → find_break candles side swing_lookback lo n ≡ some (some bos)
      → IsNewestBreak lo n bos
  unfolding find_break
  find_break-IsNewestBreak lo zero bos h = absurd (ground arith)
  find_break-IsNewestBreak lo (suc n) bos h =
      elim (Option-cases (swing_to_break candles side (lo + n) swing_lookback)) [
        | inl no_swing ↦
            one_more lo n bos (λ later b. let there = b.swing in absurd (ground arith))
              (find_break-IsNewestBreak lo n bos (ground arith))
        | inr (swing, hs) ↦ elim (Option-cases (get_elem? candles (lo + n))) [
          | inl no_bar ↦ absurd (ground arith)
          | inr (c, hc) ↦ at_bar lo n bos swing c hs hc (find_break-IsNewestBreak lo n bos) h
        ]
      ]

  find_break-total :
      (lo n : ℕ)
      → lo + n ≤ length candles
      → (r : Option (Bos W)) × (find_break candles side swing_lookback lo n ≡ some r)
  unfolding find_break
  find_break-total lo zero fits = (none, refl)
  find_break-total lo (suc n) fits =
      let (r, older) = find_break-total lo n (omega arith) in
      let (c, there) = get_elem?-some candles (lo + n) (omega arith) in
      elim (Bool-cases (ltb (lo + n) 1)) [
        | inl oldest ↦ (none, ground arith)
        | inr inside ↦ elim (Option-cases (swing_to_break candles side (lo + n) swing_lookback)) [
          | inl no_swing ↦ (r, ground arith)
          | inr (swing, hs) ↦ elim (Bool-cases (breaks side c swing)) [
            | inl broke ↦ (some (bos_of side (lo + n) c swing), ground arith)
            | inr holds ↦ (r, ground arith)
          ]
        ]
      ]

  find_break-empty : (lo n : ℕ) → n ≡ 0 → find_break candles side swing_lookback lo n ≡ some none
  unfolding find_break
  find_break-empty lo zero h = refl
  find_break-empty lo (suc n) h = absurd (omega arith)

  -- A reported break is one of the bars from `since_idx` to `end_idx`, and no later bar up to
  -- `end_idx` breaks structure.
  pub record IsBreakSince (since_idx end_idx : ℕ) (bos : Bos W) : Type 0 where
    pub from : since_idx ≤ bos.broken_at_idx
    pub upto : bos.broken_at_idx ≤ end_idx
    pub break_here : IsBreak bos.broken_at_idx bos
    pub newest :
        (j : ℕ) → bos.broken_at_idx < j → j ≤ end_idx → (later : Bos W) → ¬ (IsBreak j later)

  -- Where the last bar of the search is in range the search reads no bar out of range and returns.
  pub detect_bos-total :
      (end_idx lookback : ℕ)
      → end_idx < length candles
      → (r : Option (Bos W)) × (detect_bos candles side end_idx lookback swing_lookback ≡ some r)
  unfolding detect_bos
  detect_bos-total end_idx lookback inside =
      let start = start_of end_idx lookback swing_lookback in
      elim (Bool-cases (leb start (end_idx + 1))) [
        | inl some_bars ↦
            let (r, found) = find_break-total start (end_idx + 1 - start) (ground arith) in
            elim (Bool-cases (ltb (length candles) (swing_lookback + 2))) [
              | inl short ↦ (none, ground arith)
              | inr long ↦ (r, ground arith)
            ]
        | inr no_bars ↦
            let no_steps : end_idx + 1 - start ≡ 0 = ground arith in
            elim (Bool-cases (ltb (length candles) (swing_lookback + 2))) [
              | inl short ↦ (none, ground arith)
              | inr long ↦
                  let empty = find_break-empty start (end_idx + 1 - start) no_steps in
                  (none, ground arith)
            ]
      ]

  -- A break that is reported is a close beyond the swing before it, at a bar from `since_idx` to
  -- `end_idx`, and no later bar up to `end_idx` breaks structure.
  pub has_bos_after-IsBreakSince :
      (since_idx end_idx : ℕ) (bos : Bos W)
      → has_bos_after candles side since_idx end_idx swing_lookback ≡ some (some bos)
      → IsBreakSince since_idx end_idx bos
  unfolding has_bos_after detect_bos
  has_bos_after-IsBreakSince since_idx end_idx bos h =
      let lookback = max 1 (end_idx - since_idx) in
      let start = start_of end_idx lookback swing_lookback in
      elim (Option-cases (find_break candles side swing_lookback start (end_idx + 1 - start))) [
        | inl thrown ↦ absurd (ground arith)
        | inr (none, nothing) ↦ absurd (ground arith)
        | inr (some b, found) ↦
            let same : b ≡ bos = ground arith in
            let r = find_break-IsNewestBreak start (end_idx + 1 - start) b found in
            let from : since_idx ≤ b.broken_at_idx = ground arith in
            let below = r.below in
            subst (IsBreakSince since_idx end_idx) same record {
              from = from;
              upto = omega arith;
              break_here = r.break_here;
              newest = λ j above under. r.newest j above (omega arith);
            }
      ]
