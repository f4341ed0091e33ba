-- ===== src/Prelude/Lists.antt =====
-- Lists measured by native numbers and tested by Boolean functions, under the library's names.
use Prim.Native.Nat.{ℕ, zero, suc, ◌+◌, ◌<◌}
use mathlib.Core.Path.{◌≡◌, refl, ap, subst}
use mathlib.Core.Logic.{inl, inr}
use mathlib.Core.Bool.{Bool, true, false, ◌||◌}
use mathlib.Core.Option.{Option, none, some}
use mathlib.Core.List.{List, [], ◌∷◌, ◌++◌, map}
use native.Mathlib.Omega.{arith}
use shamarx_app.Prelude.Tests.{if◌then◌else◌, Bool-cases}

module _ {ℓ} {A : Type ℓ} where
  abbrev pub length : List A → ℕ
  length [] = 0
  length (x ∷ xs) = suc (length xs)

  abbrev pub drop : ℕ → List A → List A
  drop zero xs = xs
  drop (suc n) [] = []
  drop (suc n) (x ∷ xs) = drop n xs

  -- `xs[i]`, which is `undefined` out of range.
  abbrev pub get_elem? : List A → ℕ → Option A
  get_elem? [] i = none
  get_elem? (x ∷ xs) zero = some x
  get_elem? (x ∷ xs) (suc i) = get_elem? xs i

  -- `xs.filter(p)`.
  abbrev pub filter : (A → Bool) → List A → List A
  filter p [] = []
  filter p (x ∷ xs) = if p x then x ∷ filter p xs else filter p xs

  abbrev pub any : (A → Bool) → List A → Bool
  any p [] = false
  any p (x ∷ xs) = p x || any p xs

  pub length-append : (xs ys : List A) → length (xs ++ ys) ≡ length xs + length ys
  length-append [] ys = omega arith
  length-append (x ∷ xs) ys = omega (arith, length-append xs ys)

  abbrev pub All {κ} : (A → Type κ) → List A → Type κ
  All P [] = Unit
  All P (x ∷ xs) = P x × All P xs

  pub All-append {κ} : (P : A → Type κ) (xs ys : List A) → All P xs → All P ys → All P (xs ++ ys)
  All-append P [] ys p q = q
  All-append P (x ∷ xs) ys p q = (p.0, All-append P xs ys p.1 q)

module _ {ℓ} {A : Type ℓ} where
  pub length-map {κ} : {B : Type κ} (f : A → B) (xs : List A) → length (map f xs) ≡ length xs
  length-map f [] = refl
  length-map f (x ∷ xs) = ap suc (length-map f xs)

-- An index in range has an entry.
pub get_elem?-some {ℓ} :
    {A : Type ℓ} (xs : List A) (i : ℕ) → i < length xs → (a : A) × (get_elem? xs i ≡ some a)
get_elem?-some [] i h = absurd (omega arith)
get_elem?-some (x ∷ xs) zero h = (x, refl)
get_elem?-some (x ∷ xs) (suc i) h = get_elem?-some xs i (omega arith)

-- The item is in the list.
pub data IsIn {ℓ} {A : Type ℓ} (x : A) : List A → Type ℓ where
  here : {y : A} {xs : List A} → y ≡ x → IsIn x (y ∷ xs)
  there : {y : A} {xs : List A} → IsIn x xs → IsIn x (y ∷ xs)

module _ {ℓ} {A : Type ℓ} where
  pub IsIn-left : {x : A} {xs : List A} (ys : List A) → IsIn x xs → IsIn x (xs ++ ys)
  IsIn-left ys (here e) = here e
  IsIn-left ys (there h) = there (IsIn-left ys h)

  pub IsIn-right : {x : A} (xs : List A) {ys : List A} → IsIn x ys → IsIn x (xs ++ ys)
  IsIn-right [] h = h
  IsIn-right (y ∷ xs) h = there (IsIn-right xs h)

  -- What a filter keeps satisfies its test.
  pub IsIn-filter : (p : A → Bool) (x : A) (xs : List A) → IsIn x (filter p xs) → p x ≡ true
  IsIn-filter p x [] h = elim h [ ]
  IsIn-filter p x (y ∷ xs) h = elim (Bool-cases (p y)) [
    | inl holds ↦
        kept (subst (λ b. IsIn x (if b then y ∷ filter p xs else filter p xs)) holds h) holds
          (IsIn-filter p x xs)
    | inr fails ↦
        IsIn-filter p x xs
          (subst (λ b. IsIn x (if b then y ∷ filter p xs else filter p xs)) fails h)
  ]
    where
      kept :
          IsIn x (y ∷ filter p xs) → p y ≡ true → (IsIn x (filter p xs) → p x ≡ true) → p x ≡ true
      kept (here same) e ih = subst (λ z. p z ≡ true) same e
      kept (there t) e ih = ih t
