-- ===== src/News/Near.antt =====
-- The binary search for a near event agrees with a look at every event.
use shamarx_app.Prelude.{
  ℕ, zero, suc, ◌+◌, ◌-◌, ◌*◌, ◌/◌, ◌≤◌, ◌<◌, ◌≡◌, refl, inl, inr, Bool, true, false, some, List,
  [], ◌∷◌, arith, ltb, length, any, get_elem?, get_elem?-some, Bool-cases,
}
use shamarx_app.Smc.Index.Last.{IsSorted, get_elem?-lt}
use shamarx_app.News.{is_near, search_near, is_in_blackout}

module _ {ℓ} {A : Type ℓ} (test : A → Bool) where
  any-get_elem? :
      (xs : List A) (i : ℕ) (a : A) → get_elem? xs i ≡ some a → test a ≡ true → any test xs ≡ true
  any-get_elem? [] i a e h = absurd (ground arith)
  any-get_elem? (x ∷ xs) zero a e h = ground arith
  any-get_elem? (x ∷ xs) (suc i) a e h = let rest = any-get_elem? xs i a e h in ground arith

  any-false :
      (xs : List A)
      → ((i : ℕ) (a : A) → get_elem? xs i ≡ some a → test a ≡ false)
      → any test xs ≡ false
  any-false [] h = refl
  any-false (x ∷ xs) h =
      let here = h 0 x refl in let rest = any-false xs (λ i a e. h (suc i) a e) in ground arith

-- No time outside the range from `lo` and below `hi` is near, those before it because they are
-- earlier than `t`, those after it because they are later.
record Inv (times : List ℕ) (t window lo hi : ℕ) : Type 0 where
  ordered : lo ≤ hi
  inside : hi ≤ length times
  early : (i a : ℕ) → i < lo → get_elem? times i ≡ some a → is_near t window a ≡ false
  late : (i a : ℕ) → hi ≤ i → get_elem? times i ≡ some a → is_near t window a ≡ false

module _ (times : List ℕ) (t window : ℕ) (sorted : IsSorted times) where
  search_near_lem :
      (fuel lo hi : ℕ)
      → hi - lo < fuel
      → Inv times t window lo hi
      → search_near fuel times t window lo hi ≡ some (any (is_near t window) times)
  unfolding search_near
  search_near_lem zero lo hi h v = absurd (omega arith)
  search_near_lem (suc fuel) lo hi h v = elim (Bool-cases (ltb lo hi)) [
    | inr done ↦
        let nowhere : any (is_near t window) times ≡ false =
          any-false (is_near t window) times (λ i a e. elim (Bool-cases (ltb i lo)) [
            | inl before ↦ v.early i a (ground arith) e
            | inr after ↦ v.late i a (ground (arith, v.ordered)) e
          ]) in
        rw (done, nowhere) refl
    | inl more ↦
        let mid = (lo + hi - 1) / 2 in
        let (a, found) = get_elem?-some times mid (ground (arith, v.inside)) in
        elim (Bool-cases (is_near t window a)) [
          | inl near ↦
              let somewhere = any-get_elem? (is_near t window) times mid a found near in
              rw (more, found, near, somewhere) refl
          | inr far ↦ elim (Bool-cases (ltb a t)) [
            | inl earlier ↦
                let right : Inv times t window (suc mid) hi = record {
                  ordered = ground arith;
                  inside = v.inside;
                  early = λ i b below e. ground (arith, sorted i mid b a);
                  late = v.late;
                } in
                rw (more, found, far, earlier)
                  (search_near_lem fuel (suc mid) hi (ground arith) right)
            | inr later ↦
                let left : Inv times t window lo mid = record {
                  ordered = ground arith;
                  inside = ground (arith, v.inside);
                  early = v.early;
                  late = λ i b above e. ground (arith, sorted mid i a b);
                } in
                rw (more, found, far, later) (search_near_lem fuel lo mid (ground arith) left)
          ]
        ]
  ]

  -- On times that do not fall the search ends within its fuel, and says whether any of them is
  -- within the window.
  pub is_in_blackout-any :
      (minutes : ℕ)
      → minutes * 60 * 1000 ≡ window
      → is_in_blackout times t minutes ≡ any (is_near t window) times
  unfolding is_in_blackout
  is_in_blackout-any minutes same =
      let begun : Inv times t window 0 (length times) = record {
        ordered = omega arith;
        inside = omega arith;
        early = λ i a below e. absurd (omega arith);
        late = λ i a above e. absurd (omega (arith, get_elem?-lt times i a e));
      } in
      let found = search_near_lem (suc (length times)) 0 (length times) (omega arith) begun in
      rw (same, found) refl
