-- ===== src/Float/Fixed.antt =====
-- Fixed-point numbers with four decimals: an instance of `Floats` that meets `IsFloats`, at which
-- the tests and examples run.
use true_presence_ese.Base.{ap, ℕ, ◌+◌, ◌-◌, ◌*◌, ◌/◌, ◌≤◌, ◌≡◌, refl, arith, leb, leb→le, le→leb}
use native.Mathlib.Nat
use true_presence_ese.Float.{Floats, IsFloats}

abbrev pub fixed : Floats
fixed = record {
  F = ℕ;
  dec = λ n. n * 100;
  le = leb;
  add = λ a b. a + b;
  sub = λ a b. a - b;
  mul = λ a b. a * b / 10000;
  div = λ a b. a * 10000 / b;
  round4 = λ a. a;
  round3 = λ a. (a + 5) / 10 * 10;
}

scaled_mul_le : (x y : ℕ) → y ≤ 10000 → x * y / 10000 ≤ x
scaled_mul_le x y h = grind arith

mul_mono_fixed : (x x' y y' : ℕ) → x ≤ x' → y ≤ y' → x * y / 10000 ≤ x' * y' / 10000
mul_mono_fixed x x' y y' p q = grind arith

le_dec_fixed : (a b : ℕ) → leb (a * 100) (b * 100) ≡ leb a b
le_dec_fixed a b = ground arith

div_le_fixed : (x y : ℕ) → x ≤ y → x * 10000 / y ≤ 10000
div_le_fixed x y h = grind arith

pub fixed-IsFloats : IsFloats fixed
fixed-IsFloats = record {
  le_refl = λ x. ground arith;
  le_trans = λ x y z p q. ground arith;
  le_total = λ x y p. ground arith;
  le_dec = λ a b p q. le_dec_fixed a b;
  dec_nonneg = λ n. ground arith;
  mul_le_left = λ x y p q. le→leb _ _ (scaled_mul_le x y (leb→le y 10000 q.1));
  mul_nonneg = λ x y p q. ground arith;
  le-add = λ x y p. ground arith;
  div_InUnit = λ x y p q r. (ground arith, le→leb _ _ (div_le_fixed x y (leb→le x y q)));
  mul_mono = λ x x' y y' p p' q q' h k.
      le→leb _ _ (mul_mono_fixed x x' y y' (leb→le _ _ h) (leb→le _ _ k));
  sub_InUnit = λ x p. (ground arith, ground arith);
  sub_anti = λ x y p q h. ground arith;
  add_mono = λ x x' y y' p p' q q' h k. ground arith;
  div_nonneg = λ x y p q. ground arith;
  add_count = λ n x y p q r. ground arith;
  mul_comm = λ x y. ap (λ n. n / 10000) (Nat.mul_comm x y);
  add-le = λ x y p. ground arith;
  add_halves = refl;
  le-mul_one = λ x p. ground arith;
  sub_zero = refl;
  sub_self = refl;
  round4_mono = λ x y h. h;
  round4_unit = (refl, refl);
  round3_mono = λ x y h. ground arith;
  round3_unit = (refl, refl);
}
