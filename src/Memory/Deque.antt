-- ===== src/Memory/Deque.antt =====
-- The deques of truepresence/memory/session_timeline.py against the full history.
use true_presence_ese.Base.{
  ℕ, zero, suc, ◌+◌, ◌-◌, ◌≤◌, ◌<◌, ◌≡◌, refl, ap, sym, ◌∙◌, leb, leb→le, false, List, [], ◌∷◌,
  ◌++◌, length, length-append, arith, Bool-cases, inl, inr,
}
use true_presence_ese.Memory.Timeline.{drop, append_bounded}

leb-false : (a b : ℕ) → leb a b ≡ false → b < a
leb-false a b h = ground arith

module _ {ℓ} {A : Type ℓ} where
  pub length-drop : (n : ℕ) (xs : List A) → length (drop n xs) ≡ length xs - n
  unfolding drop
  length-drop zero xs = omega arith
  length-drop (suc n) [] = omega arith
  length-drop (suc n) (x ∷ xs) = omega (arith, length-drop n xs)

  drop-append : (n : ℕ) (xs ys : List A) → n ≤ length xs → drop n (xs ++ ys) ≡ drop n xs ++ ys
  unfolding drop
  drop-append zero xs ys h = refl
  drop-append (suc n) [] ys h = ground arith
  drop-append (suc n) (x ∷ xs) ys h = drop-append n xs ys (omega arith)

  drop-drop : (n : ℕ) (xs : List A) → drop 1 (drop n xs) ≡ drop (suc n) xs
  unfolding drop
  drop-drop zero xs = refl
  drop-drop (suc n) [] = refl
  drop-drop (suc n) (x ∷ xs) = drop-drop n xs

  -- The last n elements of a history.
  unfoldable pub last_n : ℕ → List A → List A
  last_n n xs = drop (length xs - n) xs

  pub length-last_n : (n : ℕ) (xs : List A) → length (last_n n xs) ≤ n
  unfolding last_n
  length-last_n n xs = omega (arith, length-drop (length xs - n) xs)

  drop_all : (n : ℕ) (xs : List A) → n ≡ 0 → drop n xs ≡ xs
  unfolding drop
  drop_all zero xs h = refl
  drop_all (suc n) xs h = ground arith

  fits :
      (n : ℕ) (xs : List A) (x : A)
      → length (last_n n xs ++ x ∷ []) ≡ length xs - (length xs - n) + 1
  unfolding last_n
  fits n xs x = omega (arith, length-append (last_n n xs) (x ∷ []), length-drop (length xs - n) xs)

  one_more :
      (n : ℕ) (xs : List A) (x : A)
      → n ≤ length xs
      → suc (length xs - n) ≡ length (xs ++ x ∷ []) - n
  one_more n xs x h = omega (arith, length-append xs (x ∷ []))

  -- Appending to a bounded deque keeps it the last part of the history.
  pub append_bounded-last_n :
      (n : ℕ) (xs : List A) (x : A) → append_bounded n (last_n n xs) x ≡ last_n n (xs ++ x ∷ [])
  unfolding append_bounded last_n
  append_bounded-last_n n xs x = elim (Bool-cases (leb (length (last_n n xs ++ x ∷ [])) n)) [
    | inl e ↦ rw e (
        ap (λ z. z ++ x ∷ [])
          (drop_all (length xs - n) xs (omega (arith, fits n xs x, leb→le _ _ e)))
        ∙ sym (
            drop_all (length (xs ++ x ∷ []) - n) (xs ++ x ∷ [])
              (omega (arith, fits n xs x, leb→le _ _ e, length-append xs (x ∷ [])))))
    | inr e ↦ rw e (
        ap (drop 1) (sym (drop-append (length xs - n) xs (x ∷ []) (omega arith)))
        ∙ drop-drop (length xs - n) (xs ++ x ∷ [])
        ∙ ap (λ k. drop k (xs ++ x ∷ []))
            (one_more n xs x (omega (arith, fits n xs x, leb-false _ _ e))))
  ]

  drop-nil : (n : ℕ) → drop {A = A} n [] ≡ []
  unfolding drop
  drop-nil zero = refl
  drop-nil (suc n) = refl

  pub last_n-nil : (n : ℕ) → last_n n [] ≡ []
  unfolding last_n
  last_n-nil n = drop-nil (0 - n)
