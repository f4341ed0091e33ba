-- ===== src/Orchestrator/Sets.antt =====
-- The sets of traded sweeps: what an addition keeps.
use mathlib.Core.List.{append_assoc, append-nil}
use shamarx_app.Prelude.{
  ℕ, ◌≡◌, sym, subst, ◌∙◌, inl, inr, Bool, true, false, List, [], ◌∷◌, ◌++◌, foldl, any, arith,
  Bool-cases, ◌==◌, ◌||◌,
}
use shamarx_app.Orchestrator.{has, add}

any-append : (p : ℕ → Bool) (xs ys : List ℕ) → any p xs ≡ true → any p (xs ++ ys) ≡ true
any-append p [] ys h = absurd (ground arith)
any-append p (x ∷ xs) ys h = ground (arith, any-append p xs ys)

has-append : (x : ℕ) (xs : List ℕ) → has (xs ++ x ∷ []) x ≡ true
has-append x [] = ground arith
has-append x (y ∷ xs) = ground (arith, has-append x xs)

pub add-has : (set : List ℕ) (x : ℕ) → has (add set x) x ≡ true
add-has set x = elim (Bool-cases (has set x)) [
  | inl within ↦ ground (arith, within)
  | inr new ↦ ground (arith, new, has-append x set)
]

pub add-keeps : (set : List ℕ) (x y : ℕ) → has set y ≡ true → has (add set x) y ≡ true
add-keeps set x y h = elim (Bool-cases (has set x)) [
  | inl within ↦ ground (arith, within, h)
  | inr new ↦ ground (arith, new, any-append (λ z. z == y) set (x ∷ []) h)
]

-- A list without repetitions is its own set.
abbrev pub IsSetList : List ℕ → List ℕ → Type 0
IsSetList set [] = Unit
IsSetList set (x ∷ xs) = (has set x ≡ false) × IsSetList (set ++ x ∷ []) xs

pub foldl-add : (set xs : List ℕ) → IsSetList set xs → foldl add set xs ≡ set ++ xs
foldl-add set [] h = sym (append-nil set)
foldl-add set (x ∷ xs) h =
    ground (arith, h, foldl-add (set ++ x ∷ []) xs h.1, append_assoc set (x ∷ []) xs)

append-IsSetList :
    (set xs : List ℕ) (x : ℕ)
    → IsSetList set xs
    → has (set ++ xs) x ≡ false
    → IsSetList set (xs ++ x ∷ [])
append-IsSetList set [] x h new = (subst (λ l. has l x ≡ false) (append-nil set) new, tt)
append-IsSetList set (y ∷ xs) x h new = (
  h.0,
  append-IsSetList (set ++ y ∷ []) xs x h.1
      (subst (λ l. has l x ≡ false) (sym (append_assoc set (y ∷ []) xs)) new),
)

pub add-IsSetList : (set : List ℕ) (x : ℕ) → IsSetList [] set → IsSetList [] (add set x)
add-IsSetList set x h = elim (Bool-cases (has set x)) [
  | inl within ↦ subst (λ l. IsSetList [] l) (ground (arith, within)) h
  | inr new ↦ subst (λ l. IsSetList [] l) (ground (arith, new)) (append-IsSetList [] set x h new)
]

add-either : (set : List ℕ) (x y : ℕ) → has (add set x) y ≡ (has set y || x == y)
add-either set x y = elim (Bool-cases (has set x)) [
  | inr new ↦ ground (arith, new, append-has x y set)
  | inl within ↦ elim (Bool-cases (x == y)) [
    | inl same ↦
        let e : has set y ≡ true =
          subst (λ z. has set z ≡ true) {x = x} {y = y} (ground arith) within in
        ground (arith, within, e)
    | inr other ↦ ground (arith, within, other)
  ]
]
  where
    append-has : (x y : ℕ) (set : List ℕ) → has (set ++ x ∷ []) y ≡ (has set y || x == y)
    append-has x y [] = ground arith
    append-has x y (z ∷ set) = ground (arith, append-has x y set)

or_assoc : (a b c : Bool) → ((a || b) || c) ≡ (a || (b || c))
or_assoc a b c = ground arith

-- What is in a set, or in the list that is added to it, is in the result, and nothing else.
pub foldl-has : (set xs : List ℕ) (y : ℕ) → has (foldl add set xs) y ≡ (has set y || has xs y)
foldl-has set [] y = ground arith
foldl-has set (x ∷ xs) y =
    let e = foldl-has (add set x) xs y in
    let f = add-either set x y in
    subst (λ b. has (foldl add (add set x) xs) y ≡ (b || has xs y)) f e
    ∙ or_assoc (has set y) (x == y) (has xs y)
