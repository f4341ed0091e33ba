-- ===== src/PositionMonitor/Absence.antt =====
-- When the reconciliation closes a trade: after three passes in a row that do not report it.
use shamarx_app.Prelude.{
  ℕ, zero, suc, ◌%◌, ◌<◌, ◌≡◌, refl, sym, ap, ◌∙◌, subst, ◌↔◌, ◌⊎◌, inl, inr, Bool, true, false,
  not, Option, none, some, List, [], ◌∷◌, String, arith, lookup, if◌then◌else◌, is_some, All,
}
use shamarx_app.PositionMonitor.{OpenTrade, counted_miss, reconcile_trades}
use shamarx_app.PositionMonitor.Reported.{
  IsAbsent, IsOnce, is_seen, next_count, closes, enough, absent-closes, once-closes,
  reconcile_trades-others, reconcile_trades-count, reconcile_trades-closes,
}

-- One pass over a symbol and an account: the tickets that the broker reports, and the open trades.
pub record Pass (W : Type 0) : Type 0 where
  pub tickets : List ℕ
  pub trades : List (OpenTrade W)

-- The count of a trade after so many misses in a row.
abbrev count_of : ℕ → Option ℕ
count_of misses = elim (misses % 3) [ zero ↦ none | suc r ↦ some (suc r) ]

counted-count_of : (misses : ℕ) → counted_miss (count_of misses) ≡ count_of (suc misses)
counted-count_of misses = ground arith

step :
    (seen : Bool) (before : ℕ)
    → (if seen then none else counted_miss (count_of before))
      ≡ count_of (if seen then 0 else suc before)
step true before = refl
step false before = counted-count_of before

decided :
    (seen : Bool) (before : ℕ)
    → ((if seen then false else not (is_some (counted_miss (count_of before)))) ≡ true)
      ↔ ((0 < (if seen then 0 else suc before)) × ((if seen then 0 else suc before) % 3 ≡ 0))
decided true before = ground arith
decided false before = ground arith

module _ {W : Type 0} where
  -- The counts after a sequence of passes, the newest first.
  unfoldable pub counts_after : List (Pass W) → List (String × ℕ)
  counts_after [] = []
  counts_after (last ∷ earlier) =
      (reconcile_trades last.tickets (counts_after earlier) last.trades).0

  -- The passes in a row over the trade with the id and the ticket, up to the newest, that do not
  -- report the ticket. A pass without the trade, over another symbol or account, does not count.
  unfoldable pub misses_in_a_row : String → ℕ → List (Pass W) → ℕ
  misses_in_a_row id ticket [] = 0
  misses_in_a_row id ticket (last ∷ earlier) =
      let before = misses_in_a_row id ticket earlier in
      if not (closes id last.trades)
      then before
      else if is_seen last.tickets ticket
      then 0
      else suc before

  -- The pass has the trade once, whatever its other columns, or not at all.
  abbrev pub IsAtMostOnce : String → ℕ → Pass W → Type 0
  IsAtMostOnce id ticket p = IsOnce id ticket p.trades ⊎ IsAbsent id p.trades

  misses-once :
      (id : String) (ticket : ℕ) (last : Pass W) (earlier : List (Pass W))
      → IsOnce id ticket last.trades
      → misses_in_a_row id ticket (last ∷ earlier)
        ≡ (if is_seen last.tickets ticket then 0 else suc (misses_in_a_row id ticket earlier))
  unfolding misses_in_a_row
  misses-once id ticket last earlier h = ground (arith, once-closes id ticket last.trades h)

  misses-absent :
      (id : String) (ticket : ℕ) (last : Pass W) (earlier : List (Pass W))
      → IsAbsent id last.trades
      → misses_in_a_row id ticket (last ∷ earlier) ≡ misses_in_a_row id ticket earlier
  unfolding misses_in_a_row
  misses-absent id ticket last earlier h = ground (arith, absent-closes id last.trades h)

  counts_after-count_of :
      (id : String) (ticket : ℕ) (passes : List (Pass W))
      → All (IsAtMostOnce id ticket) passes
      → lookup id (counts_after passes) ≡ count_of (misses_in_a_row id ticket passes)
  unfolding counts_after misses_in_a_row lookup
  counts_after-count_of id ticket [] h = refl
  counts_after-count_of id ticket (last ∷ earlier) (inl once, hs) =
      reconcile_trades-count last.tickets (counts_after earlier) last.trades id ticket once
      ∙ ap (next_count last.tickets ticket) (counts_after-count_of id ticket earlier hs)
      ∙ step (is_seen last.tickets ticket) (misses_in_a_row id ticket earlier)
      ∙ ap count_of (sym (misses-once id ticket last earlier once))
  counts_after-count_of id ticket (last ∷ earlier) (inr absent, hs) =
      reconcile_trades-others last.tickets (counts_after earlier) last.trades id absent
      ∙ counts_after-count_of id ticket earlier hs
      ∙ ap count_of (sym (misses-absent id ticket last earlier absent))

  -- From the start of the monitor and after any passes, over any symbols and accounts, in which the
  -- trade with the id appears at most once and with the same ticket, a pass that has the trade closes
  -- it exactly where it does not report the ticket and the misses in a row, this one included, are a
  -- multiple of three; so never on fewer than three.
  pub closes_after_three :
      (id : String) (ticket : ℕ) (last : Pass W) (earlier : List (Pass W))
      → IsOnce id ticket last.trades
      → All (IsAtMostOnce id ticket) earlier
      → (closes id (reconcile_trades last.tickets (counts_after earlier) last.trades).1 ≡ true) ↔ (
          (0 < misses_in_a_row id ticket (last ∷ earlier))
          × (misses_in_a_row id ticket (last ∷ earlier) % 3 ≡ 0))
  closes_after_three id ticket last earlier h hs =
      let e =
        reconcile_trades-closes last.tickets (counts_after earlier) last.trades id ticket h
        ∙ ap (enough last.tickets ticket) (counts_after-count_of id ticket earlier hs) in
      subst
        (λ n.
          (closes id (reconcile_trades last.tickets (counts_after earlier) last.trades).1 ≡ true)
          ↔ ((0 < n) × (n % 3 ≡ 0)))
        (sym (misses-once id ticket last earlier h))
        (subst
          (λ b. (b ≡ true) ↔ (
            (0 < (
              if is_seen last.tickets ticket then 0 else suc (misses_in_a_row id ticket earlier)))
            × ((if is_seen last.tickets ticket then 0 else suc (misses_in_a_row id ticket earlier))
                  % 3
                ≡ 0)))
          (sym e) (decided (is_seen last.tickets ticket) (misses_in_a_row id ticket earlier)))
