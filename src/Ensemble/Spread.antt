-- ===== src/Ensemble/Spread.antt =====
-- The greatest and the least of the probabilities that truepresence/ensemble/orchestrator.py compares.
use true_presence_ese.Base.{
  Has, All, Bool-cases, inl, inr, ◌⊎◌, ◌↔◌, subst, ◌≡◌, refl, Bool, true, List, [], ◌∷◌, any, arith,
  ◌∙◌,
}
use true_presence_ese.Float.{Floats, IsFloats, max_f, min_f, max_from}
use true_presence_ese.Float.Laws.{
  max_f_ind, min_f_ind, le-max_f_left, le-max_f_right, min_f-le_left, min_f-le_right,
}
use true_presence_ese.Ensemble.Review.{min_from, spread}

-- What a test finds in a list.
pub any-Has :
    {A : Type 0} (p : A → Bool) (xs : List A)
    → (any p xs ≡ true) ↔ ((x : A) × Has x xs × (p x ≡ true))
any-Has p [] = ((λ h. cc h), (λ h. elim h.1 [ ]))
any-Has p (x ∷ xs) = (to (any-Has p xs).0, from (any-Has p xs).1)
  where
    to :
        (any p xs ≡ true → (y : _) × Has y xs × (p y ≡ true))
        → any p (x ∷ xs) ≡ true
        → (y : _) × Has y (x ∷ xs) × (p y ≡ true)
    to rest h = elim (Bool-cases (p x)) [
      | inl e ↦ (x, inl refl, e)
      | inr e ↦ let (y, i, q) = rest (ground arith) in (y, inr i, q)
    ]

    from :
        ((y : _) × Has y xs × (p y ≡ true) → any p xs ≡ true)
        → (y : _) × Has y (x ∷ xs) × (p y ≡ true)
        → any p (x ∷ xs) ≡ true
    from rest (y, inl e, q) = let q' : p x ≡ true = subst (λ z. p z ≡ true) e q in ground arith
    from rest (y, inr i, q) = let r : any p xs ≡ true = rest (y, i, q) in ground arith

-- One of two elements put before a list.
Has-either :
    {A : Type 0} {y a b c : A} (xs : List A)
    → (c ≡ a) ⊎ (c ≡ b)
    → Has y (c ∷ xs)
    → Has y (a ∷ b ∷ xs)
Has-either xs (inl e) (inl q) = inl (q ∙ e)
Has-either xs (inr e) (inl q) = inr (inl (q ∙ e))
Has-either xs e (inr i) = inr (inr i)

module _ (o : Floats) where
  open o use {F, dec, le, sub}

  -- The difference of the greatest and the least of some numbers, 0 of none.
  abbrev pub IsSpread : List F → F → Type 0
  IsSpread [] score = score ≡ dec 0
  IsSpread (p ∷ ps) score =
      (high : F) × (low : F) × Has high (p ∷ ps)
      × All (λ x. le x high ≡ true) (p ∷ ps)
      × Has low (p ∷ ps)
      × All (λ x. le low x ≡ true) (p ∷ ps)
      × (score ≡ sub high low)

  module _ (l : IsFloats o) where
    max_from-Has : (best : F) (xs : List F) → Has (max_from o best xs) (best ∷ xs)
    unfolding max_from
    max_from-Has best [] = inl refl
    max_from-Has best (x ∷ xs) =
        Has-either xs (max_f_ind o l (λ z. (z ≡ best) ⊎ (z ≡ x)) best x (inl refl) (inr refl))
          (max_from-Has (max_f o best x) xs)

    min_from-Has : (best : F) (xs : List F) → Has (min_from o best xs) (best ∷ xs)
    unfolding min_from
    min_from-Has best [] = inl refl
    min_from-Has best (x ∷ xs) =
        Has-either xs (min_f_ind o l (λ z. (z ≡ best) ⊎ (z ≡ x)) best x (inl refl) (inr refl))
          (min_from-Has (min_f o best x) xs)

    max_from-above :
        (best : F) (xs : List F) → All (λ x. le x (max_from o best xs) ≡ true) (best ∷ xs)
    unfolding max_from
    max_from-above best [] = (l.le_refl best, tt)
    max_from-above best (x ∷ xs) =
        let (top, rest) = max_from-above (max_f o best x) xs in
        (
          l.le_trans _ _ _ (le-max_f_left o l best x) top,
          (l.le_trans _ _ _ (le-max_f_right o l best x) top, rest),
        )

    min_from-below :
        (best : F) (xs : List F) → All (λ x. le (min_from o best xs) x ≡ true) (best ∷ xs)
    unfolding min_from
    min_from-below best [] = (l.le_refl best, tt)
    min_from-below best (x ∷ xs) =
        let (bottom, rest) = min_from-below (min_f o best x) xs in
        (
          l.le_trans _ _ _ bottom (min_f-le_left o l best x),
          (l.le_trans _ _ _ bottom (min_f-le_right o l best x), rest),
        )

    pub spread-IsSpread : (ps : List F) → IsSpread ps (spread o ps)
    unfolding spread
    spread-IsSpread [] = refl
    spread-IsSpread (p ∷ ps) = (
      max_from o p ps,
      min_from o p ps,
      max_from-Has p ps,
      max_from-above p ps,
      min_from-Has p ps,
      min_from-below p ps,
      refl,
    )
