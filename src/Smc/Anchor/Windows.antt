-- ===== src/Smc/Anchor/Windows.antt =====
-- The single pass with its early end finds what three searches of all candles would find.
use shamarx_app.Prelude.{
  ℕ, ◌≤◌, ◌≡◌, refl, sym, ap, ◌∙◌, Bool, true, false, not, ◌&&◌, List, [], ◌∷◌, arith, leb,
  if◌then◌else◌, filter, foldl, All, reverse, Bool-cases, inl, inr,
}
use shamarx_app.Double.{Double}
use shamarx_app.Engine.{BacktestCandle}
use shamarx_app.Smc.Anchor.{
  is_yesterday, is_asian, is_last_week, is_stale, Seen, AnchorRanges, nothing_seen, see, see_if,
  see_all, scan_ranges, levels_of, get_anchor_levels,
}

-- The candles do not get newer along the list.
abbrev pub IsNewestFirst : {W : Type 0} → List (BacktestCandle W) → Type 0
IsNewestFirst [] = Unit
IsNewestFirst (c ∷ older) =
    All (λ (x : BacktestCandle _). x.open_time ≤ c.open_time) older × IsNewestFirst older

stale_windows :
    (t time : ℕ)
    → is_stale t time ≡ true
    → (is_yesterday t time ≡ false) × (is_asian t time ≡ false) × (is_last_week t time ≡ false)
unfolding is_stale is_yesterday is_asian is_last_week
stale_windows t time h = ground arith

stale_older : (t time time' : ℕ) → is_stale t time ≡ true → time' ≤ time → is_stale t time' ≡ true
unfolding is_stale
stale_older t time time' h le = ground arith

module _ {W : Type 0} ⦃d : Double W⦄ where
  -- The range of the candles before `t` that lie in a window.
  pub range_of : (ℕ → ℕ → Bool) → ℕ → List (BacktestCandle W) → Seen W → Seen W
  range_of window t candles s =
      foldl (λ s c. see c s) s
        (filter (λ (c : BacktestCandle W). not (leb t c.open_time) && window t c.open_time) candles)

  range_of-stale :
      (window : ℕ → ℕ → Bool) (t : ℕ) (candles : List (BacktestCandle W)) (s : Seen W)
      → ((time : ℕ) → is_stale t time ≡ true → window t time ≡ false)
      → All (λ (c : BacktestCandle W). is_stale t c.open_time ≡ true) candles
      → range_of window t candles s ≡ s
  unfolding range_of
  range_of-stale window t [] s out h = refl
  range_of-stale window t (c ∷ rest) s out h =
      ground (arith, out c.open_time, range_of-stale window t rest s out)

  All-stale :
      (t time : ℕ) (candles : List (BacktestCandle W))
      → is_stale t time ≡ true
      → All (λ (c : BacktestCandle W). c.open_time ≤ time) candles
      → All (λ (c : BacktestCandle W). is_stale t c.open_time ≡ true) candles
  All-stale t time [] h a = tt
  All-stale t time (c ∷ rest) h a =
      (stale_older t time c.open_time h a.0, All-stale t time rest h a.1)

  range_of-cons :
      (window : ℕ → ℕ → Bool) (t : ℕ) (c : BacktestCandle W) (older : List (BacktestCandle W))
      (s : Seen W)
      → range_of window t (c ∷ older) s
        ≡ range_of window t older (see_if (not (leb t c.open_time) && window t c.open_time) c s)
  unfolding range_of
  range_of-cons window t c older s =
      elim (Bool-cases (not (leb t c.open_time) && window t c.open_time)) [
        | inl inside ↦ rw inside refl
        | inr outside ↦ rw outside refl
      ]

  -- The three ranges, each by its own search.
  abbrev pub ranges_of : ℕ → List (BacktestCandle W) → AnchorRanges W → AnchorRanges W
  ranges_of t candles r = record {
    day = range_of is_yesterday t candles r.day;
    asian = range_of is_asian t candles r.asian;
    week = range_of is_last_week t candles r.week;
  }

  ranges_of-stale :
      (t : ℕ) (candles : List (BacktestCandle W)) (r : AnchorRanges W)
      → All (λ (c : BacktestCandle W). is_stale t c.open_time ≡ true) candles
      → ranges_of t candles r ≡ r
  ranges_of-stale t candles r h = ground (
    arith,
    range_of-stale is_yesterday t candles r.day (λ time e. (stale_windows t time e).0) h,
    range_of-stale is_asian t candles r.asian (λ time e. (stale_windows t time e).1) h,
    range_of-stale is_last_week t candles r.week (λ time e. (stale_windows t time e).2) h,
  )

  ranges_of-cons :
      (t : ℕ) (c : BacktestCandle W) (older : List (BacktestCandle W)) (r : AnchorRanges W)
      → ranges_of t (c ∷ older) r
        ≡ ranges_of t older (if leb t c.open_time then r else see_all t c r)
  unfolding see_all
  ranges_of-cons t c older r = elim (Bool-cases (leb t c.open_time)) [
    | inl future ↦ ground (
      arith,
      range_of-cons is_yesterday t c older r.day,
      range_of-cons is_asian t c older r.asian,
      range_of-cons is_last_week t c older r.week,
    )
    | inr past ↦ ground (
      arith,
      range_of-cons is_yesterday t c older r.day,
      range_of-cons is_asian t c older r.asian,
      range_of-cons is_last_week t c older r.week,
    )
  ]

  scan_ranges_lem :
      (t : ℕ) (candles : List (BacktestCandle W)) (r : AnchorRanges W)
      → IsNewestFirst candles
      → scan_ranges t candles r ≡ ranges_of t candles r
  unfolding scan_ranges
  scan_ranges_lem t [] r h = ground (arith, ranges_of-stale t [] r tt)
  scan_ranges_lem t (c ∷ older) r h =
      let next = if leb t c.open_time then r else see_all t c r in
      let ih = scan_ranges_lem t older next h.1 in
      elim (Bool-cases (not (leb t c.open_time) && is_stale t c.open_time)) [
        | inl ends ↦ rw ends (
            sym (
              ranges_of-cons t c older r
              ∙ ranges_of-stale t older next (All-stale t c.open_time older (ground arith) h.0)))
        | inr goes ↦ rw goes (ih ∙ sym (ranges_of-cons t c older r))
      ]

  -- On candles in order of time the anchor levels at a time are those of three separate searches of
  -- all candles: the highs and lows of yesterday, of the Asian session from 22:00 to 6:00 and of last
  -- week. The early end of the single pass loses nothing.
  pub anchors-ranges_of :
      (candles : List (BacktestCandle W)) (t : ℕ)
      → IsNewestFirst (reverse candles)
      → get_anchor_levels candles t
        ≡ levels_of (
            ranges_of t
              (reverse candles)
              record { day = nothing_seen; asian = nothing_seen; week = nothing_seen })
  unfolding get_anchor_levels
  anchors-ranges_of candles t h = ap levels_of (scan_ranges_lem t (reverse candles) _ h)
