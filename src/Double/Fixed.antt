-- ===== src/Double/Fixed.antt =====
-- A concrete instance of the interface, on which witnesses and tests run: signed multiples of
-- 10^-6, with products and quotients rounded towards zero and a large number for infinity.
use native.Mathlib.Nat.{
  one-le-pow, le-div_iff_mul-le, le_of_mul-le-mul_right, div-mul-le_self, mul-le-mul_right,
  le_trans,
}
use shamarx_app.Prelude.{
  ℕ, suc, ◌+◌, ◌-◌, ◌*◌, ◌/◌, ◌^◌, ◌≤◌, ◌<◌, ◌≡◌, Bool, true, false, arith, ltb, leb, ◌==◌,
  if◌then◌else◌,
}
use shamarx_app.Double.{Double, IsIeee}

-- `negsuc n` is -(n + 1) millionths.
pub data Fixed : Type 0 where
  pos : ℕ → Fixed
  negsuc : ℕ → Fixed

abbrev plus : Fixed → ℕ
plus (pos n) = n
plus (negsuc n) = 0

abbrev minus : Fixed → ℕ
minus (pos n) = 0
minus (negsuc n) = suc n

abbrev difference : ℕ → ℕ → Fixed
difference a b = if leb b a then pos (a - b) else negsuc (b - a - 1)

abbrev magnitude : Fixed → ℕ
magnitude a = plus a + minus a

abbrev is_negative : Fixed → Bool
is_negative (pos n) = false
is_negative (negsuc n) = true

-- A magnitude with the sign of a product of `a` and `b`.
abbrev signed : Fixed → Fixed → ℕ → Fixed
signed (pos a) (pos b) n = pos n
signed (pos a) (negsuc b) n = difference 0 n
signed (negsuc a) (pos b) n = difference 0 n
signed (negsuc a) (negsuc b) n = pos n

abbrev lt_fixed : Fixed → Fixed → Bool
lt_fixed a b = ltb (plus a + minus b) (plus b + minus a)

abbrev le_fixed : Fixed → Fixed → Bool
le_fixed a b = leb (plus a + minus b) (plus b + minus a)

abbrev eq_fixed : Fixed → Fixed → Bool
eq_fixed a b = (plus a + minus b) == (plus b + minus a)

abbrev unit : ℕ
unit = 1000000

-- Half up, as `Math.round`.
abbrev round_fixed : Fixed → Fixed
round_fixed (pos n) = pos ((n + 500000) / unit * unit)
round_fixed (negsuc n) = difference 0 ((n + 500000) / unit * unit)

abbrev decimal_fixed : ℕ → ℕ → Fixed
decimal_fixed m e = pos (m * unit / 10 ^ e)

instance abbrev pub fixed_double : Double Fixed
fixed_double = record {
  decimal = decimal_fixed;
  infinity = pos (10 ^ 30);
  neg = λ a. difference (minus a) (plus a);
  add = λ a b. difference (plus a + plus b) (minus a + minus b);
  sub = λ a b. difference (plus a + minus b) (minus a + plus b);
  mul = λ a b. signed a b (magnitude a * magnitude b / unit);
  div = λ a b. signed a b (magnitude a * unit / magnitude b);
  abs = λ a. pos (magnitude a);
  round = round_fixed;
  minimum = λ a b. if le_fixed a b then a else b;
  maximum = λ a b. if le_fixed b a then a else b;
  lt = lt_fixed;
  le = le_fixed;
  eq = eq_fixed;
}

ten_pow_pos : (e : ℕ) → 0 < 10 ^ e
ten_pow_pos e = one-le-pow e 10 (omega arith)

-- The quotients of two fractions are in the order of the fractions.
div_mono : (a b c d : ℕ) → 0 < b → 0 < d → c * b ≤ a * d → c / d ≤ a / b
div_mono a b c d hb hd h = (le-div_iff_mul-le hb).1 (
    le_of_mul-le-mul_right {k = d}
      (le_trans (omega (arith, mul-le-mul_right b (div-mul-le_self c d))) h) hd)

decimal_mono_fixed :
    (m e m' e' : ℕ)
    → m' * 10 ^ e ≤ m * 10 ^ e'
    → lt_fixed (decimal_fixed m e) (decimal_fixed m' e') ≡ false
decimal_mono_fixed m e m' e' h =
    let k : m' * unit / 10 ^ e' ≤ m * unit / 10 ^ e =
      div_mono (m * unit) (10 ^ e) (m' * unit) (10 ^ e') (ten_pow_pos e) (ten_pow_pos e')
        (omega (arith, h)) in
    ground arith

pub Fixed-IsIeee : IsIeee Fixed
Fixed-IsIeee = record {
  lt_irrefl = λ x. ground arith;
  lt_trans = λ x y z. ground arith;
  lt_of_lt_le = λ x y z. ground arith;
  lt_of_le_lt = λ x y z. ground arith;
  add_nonneg = λ x y. ground arith;
  sub_nonneg = λ x y. ground arith;
  mul_nonneg = λ x y. ground arith;
  abs_nonneg = λ x. ground arith;
  decimal_mono = decimal_mono_fixed;
  maximum_ge = λ x y. ground arith;
  maximum_lub = λ x y z. ground arith;
  minimum_le = λ x y. ground arith;
}
