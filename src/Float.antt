-- ===== src/Float.antt =====
-- Python's `float`, which antt has not: its type and operations are a parameter of the model.
-- `Floats` holds what the code calls, and `IsFloats` what it relies on: laws of the doubles
-- (never NaN, since the feature models bound their fields) that hold with rounding to nearest.
pub mod Laws
pub mod Fixed
use true_presence_ese.Base.{
  ℕ, ◌+◌, ◌*◌, ◌≤◌, ◌≡◌, Bool, true, false, not, List, [], ◌∷◌, ◌⊎◌, leb, if◌then◌else◌,
}

pub record Floats : Type 1 where
  pub F : Type 0
  -- The literal n / 100. A whole number k is the literal 100 * k / 100.
  pub dec : ℕ → F
  pub le : F → F → Bool
  pub add : F → F → F
  pub sub : F → F → F
  pub mul : F → F → F
  pub div : F → F → F
  -- `round(x, 4)` and `round(x, 3)`
  pub round4 : F → F
  pub round3 : F → F

module _ (o : Floats) where
  open o use {F, dec, le}

  -- a < b, a >= b and a > b
  abbrev pub lt : F → F → Bool
  lt a b = not (le b a)

  abbrev pub zero_f : F
  zero_f = dec 0

  abbrev pub one_f : F
  one_f = dec 100

  abbrev pub whole : ℕ → F
  whole n = dec (n * 100)

  -- The built-in `min(a, b)` and `max(a, b)`: the second only if it is strictly better.
  unfoldable pub min_f : F → F → F
  min_f a b = if lt b a then b else a

  unfoldable pub max_f : F → F → F
  max_f a b = if lt a b then b else a

  -- `max((... for x in xs), default=0.0)`
  unfoldable pub max_from : F → List F → F
  max_from best [] = best
  max_from best (x ∷ xs) = max_from (max_f best x) xs

  unfoldable pub max_of : List F → F
  unfolding max_from
  max_of [] = zero_f
  max_of (x ∷ xs) = max_from x xs

  -- `max(0.0, min(1.0, value))`, as `_clamp`, `_clamp01` and `_signal` have it.
  unfoldable pub clamp : F → F
  unfolding min_f max_f
  clamp value = max_f zero_f (min_f one_f value)

-- 0 <= x <= 1
abbrev pub InUnit : (o : Floats) → o.F → Type 0
InUnit o x = (o.le (o.dec 0) x ≡ true) × (o.le x (o.dec 100) ≡ true)

-- Literals up to a million are told apart.
abbrev pub dec_limit : ℕ
dec_limit = 100000000

pub record IsFloats (o : Floats) : Type 0 where
  pub le_refl : (x : o.F) → o.le x x ≡ true
  pub le_trans : (x y z : o.F) → o.le x y ≡ true → o.le y z ≡ true → o.le x z ≡ true
  pub le_total : (x y : o.F) → o.le x y ≡ false → o.le y x ≡ true
  pub le_dec : (a b : ℕ) → a ≤ dec_limit → b ≤ dec_limit → o.le (o.dec a) (o.dec b) ≡ leb a b
  pub dec_nonneg : (n : ℕ) → o.le (o.dec 0) (o.dec n) ≡ true
  pub mul_le_left : (x y : o.F) → InUnit o x → InUnit o y → o.le (o.mul x y) x ≡ true
  pub mul_nonneg :
      (x y : o.F)
      → o.le (o.dec 0) x ≡ true
      → o.le (o.dec 0) y ≡ true
      → o.le (o.dec 0) (o.mul x y) ≡ true
  pub le-add : (x y : o.F) → o.le (o.dec 0) y ≡ true → o.le x (o.add x y) ≡ true
  pub div_InUnit :
      (x y : o.F)
      → o.le (o.dec 0) x ≡ true
      → o.le x y ≡ true
      → o.le y (o.dec 0) ≡ false
      → InUnit o (o.div x y)
  pub mul_mono :
      (x x' y y' : o.F)
      → InUnit o x
      → InUnit o x'
      → InUnit o y
      → InUnit o y'
      → o.le x x' ≡ true
      → o.le y y' ≡ true
      → o.le (o.mul x y) (o.mul x' y') ≡ true
  -- 1 - x falls as x grows, and stays in the unit interval.
  pub sub_InUnit : (x : o.F) → InUnit o x → InUnit o (o.sub (o.dec 100) x)
  pub sub_anti :
      (x y : o.F)
      → InUnit o x
      → InUnit o y
      → o.le x y ≡ true
      → o.le (o.sub (o.dec 100) y) (o.sub (o.dec 100) x) ≡ true
  pub add_mono :
      (x x' y y' : o.F)
      → InUnit o x
      → InUnit o x'
      → InUnit o y
      → InUnit o y'
      → o.le x x' ≡ true
      → o.le y y' ≡ true
      → o.le (o.add x y) (o.add x' y') ≡ true
  pub div_nonneg :
      (x y : o.F)
      → o.le (o.dec 0) x ≡ true
      → o.le y (o.dec 0) ≡ false
      → o.le (o.dec 0) (o.div x y) ≡ true
  -- A sum of n numbers up to 1 is at most n.
  pub add_count :
      (n : ℕ) (x y : o.F)
      → n * 100 ≤ dec_limit
      → o.le x (o.dec (n * 100)) ≡ true
      → o.le y (o.dec 100) ≡ true
      → o.le (o.add x y) (o.dec (n * 100 + 100)) ≡ true
  pub mul_comm : (x y : o.F) → o.mul x y ≡ o.mul y x
  pub add-le : (x y : o.F) → o.le y (o.dec 0) ≡ true → o.le (o.add x y) x ≡ true
  pub add_halves : o.le (o.add (o.dec 50) (o.dec 50)) (o.dec 100) ≡ true
  pub le-mul_one : (x : o.F) → InUnit o x → o.le x (o.mul x (o.dec 100)) ≡ true
  pub sub_zero : o.le (o.dec 100) (o.sub (o.dec 100) (o.dec 0)) ≡ true
  pub sub_self : o.le (o.sub (o.dec 100) (o.dec 100)) (o.dec 0) ≡ true
  pub round4_mono : (x y : o.F) → o.le x y ≡ true → o.le (o.round4 x) (o.round4 y) ≡ true
  pub round4_unit : (o.round4 (o.dec 0) ≡ o.dec 0) × (o.round4 (o.dec 100) ≡ o.dec 100)
  pub round3_mono : (x y : o.F) → o.le x y ≡ true → o.le (o.round3 x) (o.round3 y) ≡ true
  pub round3_unit : (o.round3 (o.dec 0) ≡ o.dec 0) × (o.round3 (o.dec 100) ≡ o.dec 100)
