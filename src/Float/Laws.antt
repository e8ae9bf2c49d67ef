-- ===== src/Float/Laws.antt =====
-- Consequences of the laws of `IsFloats`, for the helpers that the code builds on floats.
use true_presence_ese.Base.{
  ℕ, zero, suc, ◌<◌, ◌≤◌, ◌≡◌, ◌∙◌, le→leb, true, List, [], ◌∷◌, arith, Bool-cases, inl, inr, All,
}
use true_presence_ese.Float.{Floats, IsFloats, InUnit, min_f, max_f, max_from, max_of, clamp}

module _ (o : Floats) (l : IsFloats o) where
  open o use {F, dec, le}
  open l use {le_refl, le_trans, le_total, le_dec}

  pub le-max_f_left : (a b : F) → le a (max_f o a b) ≡ true
  unfolding max_f
  le-max_f_left a b = ground (arith, le_refl a, le_total b a)

  pub le-max_f_right : (a b : F) → le b (max_f o a b) ≡ true
  unfolding max_f
  le-max_f_right a b = ground (arith, le_refl b)

  pub max_f-le : (a b c : F) → le a c ≡ true → le b c ≡ true → le (max_f o a b) c ≡ true
  unfolding max_f
  max_f-le a b c p q = ground arith

  pub min_f-le_left : (a b : F) → le (min_f o a b) a ≡ true
  unfolding min_f
  min_f-le_left a b = ground (arith, le_refl a, le_total a b)

  pub min_f-le_right : (a b : F) → le (min_f o a b) b ≡ true
  unfolding min_f
  min_f-le_right a b = ground (arith, le_refl b)

  pub le-min_f : (a b c : F) → le c a ≡ true → le c b ≡ true → le c (min_f o a b) ≡ true
  unfolding min_f
  le-min_f a b c p q = ground arith

  pub zero_le_one : le (dec 0) (dec 100) ≡ true
  zero_le_one = ground (arith, le_dec 0 100)

  pub clamp-InUnit : (x : F) → InUnit o (clamp o x)
  unfolding clamp
  clamp-InUnit x = (
    le-max_f_left (dec 0) (min_f o (dec 100) x),
    max_f-le (dec 0) (min_f o (dec 100) x) (dec 100) zero_le_one (min_f-le_left (dec 100) x),
  )

  pub max_f_mono :
      (a a' b b' : F) → le a a' ≡ true → le b b' ≡ true → le (max_f o a b) (max_f o a' b') ≡ true
  max_f_mono a a' b b' p q =
      max_f-le a b (max_f o a' b') (le_trans a a' _ p (le-max_f_left a' b'))
        (le_trans b b' _ q (le-max_f_right a' b'))

  pub min_f_mono :
      (a a' b b' : F) → le a a' ≡ true → le b b' ≡ true → le (min_f o a b) (min_f o a' b') ≡ true
  min_f_mono a a' b b' p q =
      le-min_f a' b' (min_f o a b) (le_trans _ a a' (min_f-le_left a b) p)
        (le_trans _ b b' (min_f-le_right a b) q)

  pub clamp_mono : (x y : F) → le x y ≡ true → le (clamp o x) (clamp o y) ≡ true
  unfolding clamp
  clamp_mono x y h =
      max_f_mono (dec 0) (dec 0) (min_f o (dec 100) x) (min_f o (dec 100) y) (le_refl (dec 0))
        (min_f_mono (dec 100) (dec 100) x y (le_refl (dec 100)) h)

  -- In the unit interval the clamp changes nothing that an order can tell.
  pub le-clamp : (x : F) → le x (dec 100) ≡ true → le x (clamp o x) ≡ true
  unfolding clamp
  le-clamp x h =
      le_trans x (min_f o (dec 100) x) _ (le-min_f (dec 100) x x h (le_refl x))
        (le-max_f_right (dec 0) (min_f o (dec 100) x))

  pub clamp-le : (x : F) → le (dec 0) x ≡ true → le (clamp o x) x ≡ true
  unfolding clamp
  clamp-le x h = max_f-le (dec 0) (min_f o (dec 100) x) x h (min_f-le_right (dec 100) x)

  pub dec-InUnit : (n : ℕ) → n ≤ 100 → InUnit o (dec n)
  dec-InUnit n h = (
    le_dec 0 n (omega arith) (omega arith) ∙ le→leb 0 n (omega arith),
    le_dec n 100 (omega arith) (omega arith) ∙ le→leb n 100 h,
  )

  max_from-bounds :
      (P : F → Type 0)
      → ((a b : F) → P a → P b → P (max_f o a b))
      → (best : F) (xs : List F) → P best
      → All P xs
      → P (max_from o best xs)
  unfolding max_from
  max_from-bounds P step best [] p h = p
  max_from-bounds P step best (x ∷ xs) p h =
      max_from-bounds P step (max_f o best x) xs (step best x p h.0) h.1

  -- What both arguments of a maximum share, the maximum has.
  pub max_f_ind : (P : F → Type 0) (a b : F) → P a → P b → P (max_f o a b)
  unfolding max_f
  max_f_ind P a b p q = elim (Bool-cases (le b a)) [ inl e ↦ rw e p | inr e ↦ rw e q ]

  pub min_f_ind : (P : F → Type 0) (a b : F) → P a → P b → P (min_f o a b)
  unfolding min_f
  min_f_ind P a b p q = elim (Bool-cases (le a b)) [ inl e ↦ rw e p | inr e ↦ rw e q ]

  pub max_of_ind : (P : F → Type 0) (xs : List F) → P (dec 0) → All P xs → P (max_of o xs)
  unfolding max_of
  max_of_ind P [] z h = z
  max_of_ind P (x ∷ xs) z h = max_from-bounds P (λ a b. max_f_ind P a b) x xs h.0 h.1

  -- A literal below one is not changed at all.
  pub clamp-dec : (n : ℕ) → n < 100 → clamp o (dec n) ≡ dec n
  unfolding clamp
  clamp-dec zero h = ground (arith, le_dec 100 0)
  clamp-dec (suc n) h = ground (arith, le_dec 100 (suc n), le_dec (suc n) 0)

  pub le-max_from : (best : F) (xs : List F) → le best (max_from o best xs) ≡ true
  unfolding max_from
  le-max_from best [] = le_refl best
  le-max_from best (x ∷ xs) =
      le_trans best (max_f o best x) (max_from o (max_f o best x) xs) (le-max_f_left best x)
        (le-max_from (max_f o best x) xs)
