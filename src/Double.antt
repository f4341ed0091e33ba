-- ===== src/Double.antt =====
-- What the program does with a JavaScript `number` that is not a counter: IEEE 754 binary64. The
-- type and its operations are built into the language's run time, so they are an interface: the
-- operations that the code calls, and the laws of IEEE 754 that the proofs use. The laws on `<` are
-- stated as "is not less", the form that holds of NaN and of the infinities too.
pub mod Fixed
use shamarx_app.Prelude.{
  ℕ, ◌*◌, ◌^◌, ◌≤◌, ◌≡◌, Bool, true, false, not, ◌&&◌, Option, none, some, if◌then◌else◌,
}

pub record Double (W : Type 0) : Type 0 where
  -- `decimal m e` is the double nearest to m / 10^e: a numeral of the source.
  pub decimal : ℕ → ℕ → W
  pub infinity : W
  pub neg : W → W
  pub add : W → W → W
  pub sub : W → W → W
  pub mul : W → W → W
  pub div : W → W → W
  -- `Math.abs`, `Math.round`, `Math.min` and `Math.max`.
  pub abs : W → W
  pub round : W → W
  pub minimum : W → W → W
  pub maximum : W → W → W
  -- `<`, `<=` and `===`.
  pub lt : W → W → Bool
  pub le : W → W → Bool
  pub eq : W → W → Bool

module _ {W : Type 0} ⦃d : Double W⦄ where
  infixl 65 ◌⊕◌ ◌⊖◌
  infixl 70 ◌⊗◌ ◌⊘◌
  infix 50 ◌⊲◌ ◌⊴◌
  abbrev pub ◌⊕◌ : W → W → W
  ◌⊕◌ = d.add

  abbrev pub ◌⊖◌ : W → W → W
  ◌⊖◌ = d.sub

  abbrev pub ◌⊗◌ : W → W → W
  ◌⊗◌ = d.mul

  abbrev pub ◌⊘◌ : W → W → W
  ◌⊘◌ = d.div

  abbrev pub ◌⊲◌ : W → W → Bool
  ◌⊲◌ = d.lt

  abbrev pub ◌⊴◌ : W → W → Bool
  ◌⊴◌ = d.le

  -- A whole number and a decimal fraction of the source.
  abbrev pub num : ℕ → W
  num n = d.decimal n 0

  abbrev pub dec : ℕ → ℕ → W
  dec = d.decimal

  -- `a === b` where each may be `null`.
  abbrev pub same_level : Option W → Option W → Bool
  same_level none none = true
  same_level (some a) (some b) = d.eq a b
  same_level _ _ = false

  -- `isNaN(x)`: only NaN differs from itself.
  abbrev pub is_nan : W → Bool
  is_nan x = not (d.eq x x)

  -- An entry of a series of numbers where it is one: `isNaN(undefined)` holds too.
  abbrev pub number_of : Option W → Option W
  number_of none = none
  number_of (some x) = if is_nan x then none else some x

  -- The test of `if (x)`: not 0 and not NaN.
  abbrev pub truthy : W → Bool
  truthy x = not (d.eq x (num 0)) && d.eq x x

  -- `Math.round(x * 100) / 100`.
  abbrev pub cents : W → W
  cents x = d.round (x ⊗ num 100) ⊘ num 100

-- The laws of IEEE 754 arithmetic, rounding to nearest: rounding is monotone, so a sum with a
-- non-negative number is not below the other number. They hold for NaN because a comparison with
-- NaN is false.
pub record IsIeee (W : Type 0) ⦃d : Double W⦄ : Type 0 where
  pub lt_irrefl : (x : W) → (x ⊲ x) ≡ false
  pub lt_trans : (x y z : W) → (x ⊲ y) ≡ true → (y ⊲ z) ≡ true → (x ⊲ z) ≡ true
  pub lt_of_lt_le : (x y z : W) → (x ⊲ y) ≡ true → (y ⊴ z) ≡ true → (x ⊲ z) ≡ true
  pub lt_of_le_lt : (x y z : W) → (x ⊴ y) ≡ true → (y ⊲ z) ≡ true → (x ⊲ z) ≡ true
  pub add_nonneg : (x y : W) → (y ⊲ num 0) ≡ false → (x ⊕ y ⊲ x) ≡ false
  pub sub_nonneg : (x y : W) → (y ⊲ num 0) ≡ false → (x ⊲ x ⊖ y) ≡ false
  pub mul_nonneg : (x y : W) → (x ⊲ num 0) ≡ false → (y ⊲ num 0) ≡ false → (x ⊗ y ⊲ num 0) ≡ false
  pub abs_nonneg : (x : W) → (d.abs x ⊲ num 0) ≡ false
  pub decimal_mono :
      (m e m' e' : ℕ) → m' * 10 ^ e ≤ m * 10 ^ e' → (d.decimal m e ⊲ d.decimal m' e') ≡ false
  pub maximum_ge : (x y : W) → (d.maximum x y ⊲ x) ≡ false
  pub maximum_lub : (x y z : W) → (z ⊲ x) ≡ false → (z ⊲ y) ≡ false → (z ⊲ d.maximum x y) ≡ false
  pub minimum_le : (x y : W) → (x ⊲ d.minimum x y) ≡ false
