-- ===== src/LiveTrade/Final.antt =====
-- What no run of the services changes.
use shamarx_app.Prelude.{
  ℕ, zero, suc, ◌≡◌, refl, ◌⊎◌, inl, inr, Bool, true, false, ◌&&◌, Option, some, List, [], ◌∷◌, map,
  arith, get_elem?, if◌then◌else◌,
}
use shamarx_app.Double.{Double}
use shamarx_app.LiveTrade.{
  Trade, closed, cancelled, OrderStatus, BrokerCloseInfo, is_estimate, is_parked_limit, is_live,
  sweep_pending, sweep_stale, is_estimated, reconcile,
}

unless {ℓ} : {A : Type ℓ} (b : Bool) (x y : A) → b ≡ false → (if b then x else y) ≡ y
unless true x y h = absurd (ground arith)
unless false x y h = refl

module _ {W : Type 0} ⦃d : Double W⦄ where
  -- A run of one of the services, with any answers of the broker and any choice of rows.
  pub data Step (rows rows' : List (Trade W)) : Type 0 where
    follows :
        (now : ℕ) (picked : Trade W → Bool) (status : Trade W → Option (OrderStatus W))
        → rows' ≡ sweep_pending now picked status rows
        → Step rows rows'
    retires :
        (now days : ℕ) (is_seen : Trade W → Bool)
        → rows' ≡ sweep_stale now days is_seen rows
        → Step rows rows'
    corrects :
        (now hours : ℕ) (picked : Trade W → Bool) (info : Trade W → Option (BrokerCloseInfo W))
        → rows' ≡ reconcile now hours picked info rows
        → Step rows rows'

  pub data Reach (rows : List (Trade W)) : List (Trade W) → Type 0 where
    here : Reach rows rows
    next : {q r : List (Trade W)} → Reach rows q → Step q r → Reach rows r

  -- A cancelled order, or a closed trade whose exit is not an estimate.
  abbrev pub IsFinal : Trade W → Type 0
  IsFinal t = (t.status ≡ cancelled) ⊎ ((t.status ≡ closed) × (is_estimate t.exit_reason ≡ false))

  map_same :
      (f : Trade W → Trade W) (rows : List (Trade W)) (i : ℕ) (t : Trade W)
      → f t ≡ t
      → get_elem? rows i ≡ some t
      → get_elem? (map f rows) i ≡ some t
  map_same f [] i t same h = absurd (ground arith)
  map_same f (x ∷ rows) zero t same h = ground arith
  map_same f (x ∷ rows) (suc i) t same h = map_same f rows i t same h

  not_parked :
      (picked : Trade W → Bool) (t : Trade W) → IsFinal t → (is_parked_limit t && picked t) ≡ false
  not_parked picked t (inl c) = ground arith
  not_parked picked t (inr c) = let at = c.0 in ground arith

  not_live : (a b : Bool) (t : Trade W) → IsFinal t → (is_live t.status && a && b) ≡ false
  not_live a b t (inl c) = rw c refl
  not_live a b t (inr c) = rw (c.0) refl

  not_estimated :
      (now hours : ℕ) (picked : Trade W → Bool) (t : Trade W)
      → IsFinal t
      → (is_estimated now hours t && picked t) ≡ false
  not_estimated now hours picked t (inl c) = rw c refl
  not_estimated now hours picked t (inr c) = rw (c.0, c.1) refl

  final_kept :
      (rows rows' : List (Trade W)) (i : ℕ) (t : Trade W)
      → IsFinal t
      → Step rows rows'
      → get_elem? rows i ≡ some t
      → get_elem? rows' i ≡ some t
  unfolding sweep_pending sweep_stale reconcile
  final_kept rows rows' i t f (follows now picked status same) h =
      rw same (map_same _ rows i t (unless _ _ t (not_parked picked t f)) h)
  final_kept rows rows' i t f (retires now days is_seen same) h =
      rw same (map_same _ rows i t (unless _ _ t (not_live _ _ t f)) h)
  final_kept rows rows' i t f (corrects now hours picked info same) h =
      rw same (map_same _ rows i t (unless _ _ t (not_estimated now hours picked t f)) h)

  -- A cancelled order, and a closed trade whose exit is not an estimate, stay as they are through any
  -- runs of the services, whatever the broker answers.
  pub final_stays :
      (rows rows' : List (Trade W)) (i : ℕ) (t : Trade W)
      → Reach rows rows'
      → IsFinal t
      → get_elem? rows i ≡ some t
      → get_elem? rows' i ≡ some t
  final_stays rows rows' i t here f h = h
  final_stays rows rows' i t (next {q} reach step) f h =
      final_kept q rows' i t f step (final_stays rows q i t reach f h)
