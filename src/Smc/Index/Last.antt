-- ===== src/Smc/Index/Last.antt =====
-- The binary search finds the last candle that is not after a time.
use shamarx_app.Prelude.{
  ℕ, zero, suc, ◌+◌, ◌-◌, ◌/◌, ◌≤◌, ◌<◌, ◌≡◌, refl, inl, inr, Option, none, some, List, [], ◌∷◌,
  arith, ltb, leb, length, get_elem?, get_elem?-some, Bool-cases,
}
use shamarx_app.Smc.Index.{not_after, search_last, last_index}

-- The times do not fall.
abbrev pub IsSorted : List ℕ → Type 0
IsSorted times =
    (i j a b : ℕ) → i ≤ j → get_elem? times i ≡ some a → get_elem? times j ≡ some b → a ≤ b

pub get_elem?-lt {ℓ} :
    {A : Type ℓ} (xs : List A) (i : ℕ) (a : A) → get_elem? xs i ≡ some a → i < length xs
get_elem?-lt [] i a e = absurd (ground arith)
get_elem?-lt (x ∷ xs) zero a e = omega arith
get_elem?-lt (x ∷ xs) (suc i) a e = omega (arith, get_elem?-lt xs i a e)

-- The index, or -1, before the first time that is after `t`, which is at `n`.
abbrev pub before : ℕ → Option ℕ
before zero = none
before (suc n) = some n

-- The times below the index `n` are not after `t`, and those from it on are.
pub record IsSplit (times : List ℕ) (t n : ℕ) : Type 0 where
  pub inside : n ≤ length times
  pub early : (i a : ℕ) → i < n → get_elem? times i ≡ some a → a ≤ t
  pub late : (i a : ℕ) → n ≤ i → get_elem? times i ≡ some a → t < a

record Inv (times : List ℕ) (t lo hi : ℕ) : Type 0 where
  ordered : lo ≤ hi
  inside : hi ≤ length times
  early : (i a : ℕ) → i < lo → get_elem? times i ≡ some a → a ≤ t
  late : (i a : ℕ) → hi ≤ i → get_elem? times i ≡ some a → t < a

module _ (times : List ℕ) (t : ℕ) (sorted : IsSorted times) where
  search_last_lem :
      (fuel lo hi : ℕ)
      → hi - lo < fuel
      → Inv times t lo hi
      → (n : ℕ) × (search_last fuel times t lo hi (before lo) ≡ some (before n)) × IsSplit times t n
  unfolding search_last not_after
  search_last_lem zero lo hi h v = absurd (omega arith)
  search_last_lem (suc fuel) lo hi h v = elim (Bool-cases (ltb lo hi)) [
    | inr done ↦ (
      lo,
      rw done refl,
      record {
        inside = omega (arith, v.ordered, v.inside);
        early = v.early;
        late = λ i a le e. v.late i a (ground (arith, v.ordered)) e;
      },
    )
    | inl more ↦
        let mid = (lo + hi - 1) / 2 in
        let (a, found) = get_elem?-some times mid (ground (arith, v.inside)) in
        elim (Bool-cases (leb a t)) [
          | inl le ↦
              let right : Inv times t (suc mid) hi = record {
                ordered = ground arith;
                inside = v.inside;
                early = λ i b below e. ground (arith, sorted i mid b a);
                late = v.late;
              } in
              let (n, e, s) = search_last_lem fuel (suc mid) hi (ground arith) right in
              (n, rw (more, found, le) e, s)
          | inr gt ↦
              let left : Inv times t lo mid = record {
                ordered = ground arith;
                inside = ground (arith, v.inside);
                early = v.early;
                late = λ i b above e. ground (arith, sorted mid i a b);
              } in
              let (n, e, s) = search_last_lem fuel lo mid (ground arith) left in
              (n, rw (more, found, gt) e, s)
        ]
  ]

  -- On times that do not fall the binary search ends within its fuel, and its result is the index
  -- before the first time that is after `t`: all times up to it are not after `t`, all others are.
  pub last_index-IsSplit :
      (n : ℕ) × (search_last (suc (length times)) times t 0 (length times) none ≡ some (before n))
      × (last_index times t ≡ before n)
      × IsSplit times t n
  unfolding last_index
  last_index-IsSplit =
      let start : Inv times t 0 (length times) = record {
        ordered = omega arith;
        inside = omega arith;
        early = λ i a below e. absurd (omega arith);
        late = λ i a above e. absurd (omega (arith, get_elem?-lt times i a e));
      } in
      let (n, e, s) = search_last_lem (suc (length times)) 0 (length times) (omega arith) start in
      (n, e, rw e refl, s)
