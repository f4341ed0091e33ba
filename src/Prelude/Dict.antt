-- ===== src/Prelude/Dict.antt =====
-- A `Map` with text keys, as an association list in the order of insertion: `get`, `set` and
-- `delete`; for values that are lists, also what they do to the number of all items.
use Prim.Native.Nat.{ℕ, ◌+◌}
use Prim.Native.String.{String}
use mathlib.Core.Path.{◌≡◌, refl, sym, subst, ◌∙◌}
use mathlib.Core.Logic.{inl, inr}
use mathlib.Core.Bool.{false}
use mathlib.Core.Option.{Option, none, some}
use mathlib.Core.List.{List, [], ◌∷◌}
use native.Mathlib.Omega.{arith}
use text.Mathlib.Text.{◌==◌}
use text.Mathlib.TextEquality.{eq_iff}
use shamarx_app.Prelude.Tests.{if◌then◌else◌, Bool-cases}
use shamarx_app.Prelude.Lists.{length, All}

module _ {ℓ} {A : Type ℓ} where
  -- `map.get(key) ?? []`.
  unfoldable pub items : String → List (String × List A) → List A
  items key [] = []
  items key ((k, xs) ∷ rest) = if k == key then xs else items key rest

  unfoldable pub set_items : String → List A → List (String × List A) → List (String × List A)
  set_items key xs [] = (key, xs) ∷ []
  set_items key xs ((k, ys) ∷ rest) =
      if k == key then (k, xs) ∷ rest else (k, ys) ∷ set_items key xs rest

  unfoldable pub delete_items : String → List (String × List A) → List (String × List A)
  delete_items key [] = []
  delete_items key ((k, ys) ∷ rest) = if k == key then rest else (k, ys) ∷ delete_items key rest

  -- The number of items under all keys.
  unfoldable pub count_items : List (String × List A) → ℕ
  count_items [] = 0
  count_items ((k, xs) ∷ rest) = length xs + count_items rest

  pub count_items-set :
      (key : String) (xs : List A) (m : List (String × List A))
      → count_items (set_items key xs m) + length (items key m) ≡ count_items m + length xs
  unfolding count_items set_items items
  count_items-set key xs [] = omega arith
  count_items-set key xs ((k, ys) ∷ rest) = ground (arith, count_items-set key xs rest)

  pub count_items-delete :
      (key : String) (m : List (String × List A))
      → count_items (delete_items key m) + length (items key m) ≡ count_items m
  unfolding count_items delete_items items
  count_items-delete key [] = omega arith
  count_items-delete key ((k, ys) ∷ rest) = ground (arith, count_items-delete key rest)

module _ {ℓ} {A : Type ℓ} where
  unfoldable pub lookup : String → List (String × A) → Option A
  lookup key [] = none
  lookup key ((k, a) ∷ rest) = if k == key then some a else lookup key rest

  unfoldable pub insert : String → A → List (String × A) → List (String × A)
  insert key a [] = (key, a) ∷ []
  insert key a ((k, b) ∷ rest) = if k == key then (k, a) ∷ rest else (k, b) ∷ insert key a rest

  unfoldable pub remove : String → List (String × A) → List (String × A)
  remove key [] = []
  remove key ((k, b) ∷ rest) =
      let others = remove key rest in if k == key then others else (k, b) ∷ others

  pub lookup-remove : (key : String) (m : List (String × A)) → lookup key (remove key m) ≡ none
  unfolding lookup remove
  lookup-remove key [] = refl
  lookup-remove key ((k, b) ∷ rest) = ground (arith, lookup-remove key rest)

  pub lookup-remove_other :
      (key other : String) (m : List (String × A))
      → (key == other) ≡ false
      → lookup other (remove key m) ≡ lookup other m
  unfolding lookup remove
  lookup-remove_other key other [] h = refl
  lookup-remove_other key other ((k, b) ∷ rest) h =
      ground (
        arith,
        eq_iff k key,
        eq_iff k other,
        eq_iff key other,
        lookup-remove_other key other rest h,
      )

  pub lookup-insert :
      (key : String) (a : A) (m : List (String × A)) → lookup key (insert key a m) ≡ some a
  unfolding lookup insert
  lookup-insert key a [] = ground (arith, eq_iff key key)
  lookup-insert key a ((k, b) ∷ rest) = ground (arith, lookup-insert key a rest)

  pub lookup-insert_other :
      (key other : String) (a : A) (m : List (String × A))
      → (key == other) ≡ false
      → lookup other (insert key a m) ≡ lookup other m
  unfolding lookup insert
  lookup-insert_other key other a [] h = ground arith
  lookup-insert_other key other a ((k, b) ∷ rest) h = ground (
    arith,
    eq_iff k key,
    eq_iff k other,
    eq_iff key other,
    lookup-insert_other key other a rest h,
  )

  -- No key stands twice.
  abbrev pub IsDistinct : List (String × A) → Type ℓ
  IsDistinct [] = Unit
  IsDistinct ((k, a) ∷ rest) = (lookup k rest ≡ none) × IsDistinct rest

  pub insert-IsDistinct :
      (key : String) (a : A) (m : List (String × A)) → IsDistinct m → IsDistinct (insert key a m)
  unfolding insert lookup
  insert-IsDistinct key a [] h = (refl, tt)
  insert-IsDistinct key a ((k, b) ∷ rest) h = elim (Bool-cases (k == key)) [
    | inl same ↦
        subst (λ t. IsDistinct (if t then (k, a) ∷ rest else (k, b) ∷ insert key a rest)) (sym same)
          h
    | inr other ↦
        subst (λ t. IsDistinct (if t then (k, a) ∷ rest else (k, b) ∷ insert key a rest))
          (sym other)
          (
            lookup-insert_other key k a rest (ground (arith, other, eq_iff k key, eq_iff key k))
                ∙ h.0,
            insert-IsDistinct key a rest h.1,
          )
  ]

  -- A property of every entry.
  abbrev pub AllEntries {κ} : (String → A → Type κ) → List (String × A) → Type κ
  AllEntries P m = All (λ (e : String × A). P e.0 e.1) m

  pub lookup-AllEntries {κ} :
      (P : String → A → Type κ) (key : String) (a : A) (m : List (String × A))
      → AllEntries P m
      → lookup key m ≡ some a
      → P key a
  unfolding lookup
  lookup-AllEntries P key a [] h e = absurd (ground arith)
  lookup-AllEntries P key a ((k, b) ∷ rest) (h, hs) e = elim (Bool-cases (k == key)) [
    | inl same ↦
        let value : b ≡ a = ground (arith, same) in
        subst (λ x. P x a) ((eq_iff k key).0 same) (subst (λ x. P k x) value h)
    | inr other ↦ lookup-AllEntries P key a rest hs (ground (arith, other))
  ]

  pub insert-AllEntries {κ} :
      (P : String → A → Type κ) (key : String) (a : A) (m : List (String × A))
      → P key a
      → AllEntries P m
      → AllEntries P (insert key a m)
  unfolding insert
  insert-AllEntries P key a [] p h = (p, tt)
  insert-AllEntries P key a ((k, b) ∷ rest) p (h, hs) = elim (Bool-cases (k == key)) [
    | inl same ↦
        subst (λ t. AllEntries P (if t then (k, a) ∷ rest else (k, b) ∷ insert key a rest))
          (sym same) (subst (λ x. P x a) (sym ((eq_iff k key).0 same)) p, hs)
    | inr other ↦
        subst (λ t. AllEntries P (if t then (k, a) ∷ rest else (k, b) ∷ insert key a rest))
          (sym other) (h, insert-AllEntries P key a rest p hs)
  ]
