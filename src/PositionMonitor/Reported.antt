-- ===== src/PositionMonitor/Reported.antt =====
-- What one pass of the reconciliation does to one trade: its count of misses, and whether it closes.
use shamarx_app.Prelude.{
  ℕ, ◌≡◌, refl, ap, ◌∙◌, subst, ◌⊎◌, inl, inr, Bool, true, false, not, Option, none, some, List, [],
  ◌∷◌, ◌++◌, String, ◌is◌, arith, Bool-cases, Option-cases, lookup, eq_iff, lookup-insert,
  lookup-insert_other, lookup-remove, lookup-remove_other, if◌then◌else◌, any, is_some, ◌||◌, ◌&&◌,
  ◌==◌, All, either,
}
use shamarx_app.PositionMonitor.{
  OpenTrade, counted_miss, is_reported, miss, reconcile_trade, reconcile_trades,
}

or_false : (a b c : Bool) → a ≡ c → b ≡ false → (a || b) ≡ c
or_false a b c h k = ground arith

false_or : (a b c : Bool) → a ≡ false → b ≡ c → (a || b) ≡ c
false_or a b c h k = ground arith

-- The broker reports the ticket; 0 counts as none.
abbrev pub is_seen : List ℕ → ℕ → Bool
is_seen tickets ticket = not (ticket == 0) && any (λ t. t == ticket) tickets

-- The count of a trade with the ticket after a pass.
abbrev pub next_count : List ℕ → ℕ → Option ℕ → Option ℕ
next_count tickets ticket count =
    let missed = counted_miss count in if is_seen tickets ticket then none else missed

-- The pass is the third miss in a row.
abbrev pub enough : List ℕ → ℕ → Option ℕ → Bool
enough tickets ticket count =
    let left = is_some (counted_miss count) in if is_seen tickets ticket then false else not left

module _ {W : Type 0} where
  -- No open trade has the id.
  abbrev pub IsAbsent : String → List (OpenTrade W) → Type 0
  IsAbsent id trades = All (λ (u : OpenTrade W). (u.id is id) ≡ false) trades

  -- One open trade has the id, and it has the ticket.
  abbrev pub IsOnce : String → ℕ → List (OpenTrade W) → Type 0
  IsOnce id ticket [] = true ≡ false
  IsOnce id ticket (t ∷ rest) =
      ((t.id ≡ id) × (t.mt5_ticket ≡ ticket) × IsAbsent id rest)
      ⊎ (((t.id is id) ≡ false) × IsOnce id ticket rest)

  reconcile_trade-own :
      (tickets : List ℕ) (counts : List (String × ℕ)) (trade : OpenTrade W)
      → lookup trade.id (reconcile_trade tickets counts trade).0
        ≡ next_count tickets trade.mt5_ticket (lookup trade.id counts)
  unfolding reconcile_trade
  reconcile_trade-own tickets counts trade = elim (Bool-cases (is_reported tickets trade)) [
    | inl seen ↦ ground (arith, seen, lookup-remove trade.id counts)
    | inr unseen ↦ elim (Option-cases (counted_miss (lookup trade.id counts))) [
      | inl enough ↦ ground (arith, unseen, enough, lookup-remove trade.id counts)
      | inr (misses, few) ↦ ground (arith, unseen, few, lookup-insert trade.id misses counts)
    ]
  ]

  miss-other :
      (other : OpenTrade W) (id : String) (counts : List (String × ℕ)) (count : Option ℕ)
      → (other.id is id) ≡ false
      → lookup id (miss other counts count).0 ≡ lookup id counts
  miss-other other id counts none h = lookup-remove_other other.id id counts h
  miss-other other id counts (some misses) h = lookup-insert_other other.id id misses counts h

  reconcile_trade-other :
      (tickets : List ℕ) (counts : List (String × ℕ)) (other : OpenTrade W) (id : String)
      → (other.id is id) ≡ false
      → lookup id (reconcile_trade tickets counts other).0 ≡ lookup id counts
  unfolding reconcile_trade
  reconcile_trade-other tickets counts other id h =
      either (λ (r : List (String × ℕ) × List (OpenTrade W)). lookup id r.0 ≡ lookup id counts)
        (is_reported tickets other) (lookup-remove_other other.id id counts h)
        (miss-other other id counts (counted_miss (lookup other.id counts)) h)

  pub reconcile_trades-others :
      (tickets : List ℕ) (counts : List (String × ℕ)) (trades : List (OpenTrade W)) (id : String)
      → All (λ (u : OpenTrade W). (u.id is id) ≡ false) trades
      → lookup id (reconcile_trades tickets counts trades).0 ≡ lookup id counts
  unfolding reconcile_trades
  reconcile_trades-others tickets counts [] id h = refl
  reconcile_trades-others tickets counts (t ∷ rest) id (h, hs) =
      reconcile_trades-others tickets (reconcile_trade tickets counts t).0 rest id hs
      ∙ reconcile_trade-other tickets counts t id h

  -- A pass moves the count of the trade by what it reports of its ticket alone.
  pub reconcile_trades-count :
      (tickets : List ℕ) (counts : List (String × ℕ)) (trades : List (OpenTrade W)) (id : String)
      (ticket : ℕ)
      → IsOnce id ticket trades
      → lookup id (reconcile_trades tickets counts trades).0
        ≡ next_count tickets ticket (lookup id counts)
  unfolding reconcile_trades
  reconcile_trades-count tickets counts [] id ticket h = absurd (ground arith)
  reconcile_trades-count tickets counts (t ∷ rest) id ticket (inl (same, held, others)) =
      let first = (reconcile_trade tickets counts t).0 in
      reconcile_trades-others tickets first rest id others
      ∙ subst (λ i. lookup i first ≡ next_count tickets ticket (lookup i counts)) same
          (subst (λ k. lookup t.id first ≡ next_count tickets k (lookup t.id counts)) held
            (reconcile_trade-own tickets counts t))
  reconcile_trades-count tickets counts (t ∷ rest) id ticket (inr (other, once)) =
      reconcile_trades-count tickets (reconcile_trade tickets counts t).0 rest id ticket once
      ∙ ap (next_count tickets ticket) (reconcile_trade-other tickets counts t id other)

  abbrev pub closes : String → List (OpenTrade W) → Bool
  closes id finalized = any (λ (t : OpenTrade W). t.id is id) finalized

  closes-append :
      (id : String) (xs ys : List (OpenTrade W))
      → closes id (xs ++ ys) ≡ (closes id xs || closes id ys)
  closes-append id [] ys = refl
  closes-append id (x ∷ xs) ys = ground (arith, closes-append id xs ys)

  miss-closes :
      (trade : OpenTrade W) (counts : List (String × ℕ)) (count : Option ℕ)
      → closes trade.id (miss trade counts count).1 ≡ not (is_some count)
  miss-closes trade counts none = ground (arith, eq_iff trade.id trade.id)
  miss-closes trade counts (some misses) = refl

  own-closes :
      (tickets : List ℕ) (counts : List (String × ℕ)) (trade : OpenTrade W)
      → closes trade.id (reconcile_trade tickets counts trade).1
        ≡ enough tickets trade.mt5_ticket (lookup trade.id counts)
  unfolding reconcile_trade
  own-closes tickets counts trade = elim (Bool-cases (is_reported tickets trade)) [
    | inl seen ↦ ground (arith, seen)
    | inr unseen ↦
        ground (arith, unseen, miss-closes trade counts (counted_miss (lookup trade.id counts)))
  ]

  miss-closes_other :
      (other : OpenTrade W) (id : String) (counts : List (String × ℕ)) (count : Option ℕ)
      → (other.id is id) ≡ false
      → closes id (miss other counts count).1 ≡ false
  miss-closes_other other id counts none h = ground (arith, h)
  miss-closes_other other id counts (some misses) h = refl

  other-closes :
      (tickets : List ℕ) (counts : List (String × ℕ)) (other : OpenTrade W) (id : String)
      → (other.id is id) ≡ false
      → closes id (reconcile_trade tickets counts other).1 ≡ false
  unfolding reconcile_trade
  other-closes tickets counts other id h =
      either (λ (r : List (String × ℕ) × List (OpenTrade W)). closes id r.1 ≡ false)
        (is_reported tickets other) refl
        (miss-closes_other other id counts (counted_miss (lookup other.id counts)) h)

  others-close :
      (tickets : List ℕ) (counts : List (String × ℕ)) (trades : List (OpenTrade W)) (id : String)
      → All (λ (u : OpenTrade W). (u.id is id) ≡ false) trades
      → closes id (reconcile_trades tickets counts trades).1 ≡ false
  unfolding reconcile_trades
  others-close tickets counts [] id h = refl
  others-close tickets counts (t ∷ rest) id (h, hs) =
      let one = reconcile_trade tickets counts t in
      let later = reconcile_trades tickets one.0 rest in
      let first = other-closes tickets counts t id h in
      let after = others-close tickets one.0 rest id hs in
      closes-append id one.1 later.1 ∙ ground (arith, first, after)

  pub reconcile_trades-closes :
      (tickets : List ℕ) (counts : List (String × ℕ)) (trades : List (OpenTrade W)) (id : String)
      (ticket : ℕ)
      → IsOnce id ticket trades
      → closes id (reconcile_trades tickets counts trades).1
        ≡ enough tickets ticket (lookup id counts)
  unfolding reconcile_trades
  reconcile_trades-closes tickets counts [] id ticket h = absurd (ground arith)
  reconcile_trades-closes tickets counts (t ∷ rest) id ticket (inl (same, held, others)) =
      let one = reconcile_trade tickets counts t in
      let later = reconcile_trades tickets one.0 rest in
      let first : closes id one.1 ≡ enough tickets ticket (lookup id counts) =
        subst (λ i. closes i one.1 ≡ enough tickets ticket (lookup i counts)) same
          (subst (λ k. closes t.id one.1 ≡ enough tickets k (lookup t.id counts)) held
            (own-closes tickets counts t)) in
      let after = others-close tickets one.0 rest id others in
      closes-append id one.1 later.1 ∙ or_false _ _ _ first after
  reconcile_trades-closes tickets counts (t ∷ rest) id ticket (inr (other, once)) =
      let one = reconcile_trade tickets counts t in
      let later = reconcile_trades tickets one.0 rest in
      let first = other-closes tickets counts t id other in
      let after = reconcile_trades-closes tickets one.0 rest id ticket once in
      let same = reconcile_trade-other tickets counts t id other in
      closes-append id one.1 later.1
      ∙ false_or _ _ _ first (after ∙ ap (enough tickets ticket) same)

  -- No trade with an absent id is among the open trades, and one that stands there is.
  pub absent-closes :
      (id : String) (trades : List (OpenTrade W)) → IsAbsent id trades → closes id trades ≡ false
  absent-closes id [] h = refl
  absent-closes id (t ∷ rest) (h, hs) = ground (arith, h, absent-closes id rest hs)

  pub once-closes :
      (id : String) (ticket : ℕ) (trades : List (OpenTrade W))
      → IsOnce id ticket trades
      → closes id trades ≡ true
  once-closes id ticket [] h = absurd (ground arith)
  once-closes id ticket (t ∷ rest) (inl (same, held, others)) =
      subst (λ i. (t.id is i || closes i rest) ≡ true) same (ground (arith, eq_iff t.id t.id))
  once-closes id ticket (t ∷ rest) (inr (other, once)) =
      ground (arith, other, once-closes id ticket rest once)
