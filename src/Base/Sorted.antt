-- ===== src/Base/Sorted.antt =====
-- `sorted(set(...))` of texts: ascending by code points, each text once.
use true_presence_ese.Base.Tests.{◌==◌, ltb, if◌then◌else◌, Bool-cases}
use true_presence_ese.Base.Lists.{All, Has}
use true_presence_ese.Base.Text.{Text, text_eq, text_eq→eq}
use mathlib.Core.Path.{◌≡◌, refl}
use mathlib.Core.Logic.{◌↔◌, inl, inr}
use mathlib.Core.Bool.{Bool, true, false, ◌&&◌, ◌||◌}
use mathlib.Core.List.{List, [], ◌∷◌}
use native.Mathlib.Omega.{arith}

-- The order of `str`.
unfoldable pub text_lt : Text → Text → Bool
text_lt s [] = false
text_lt [] (d ∷ t) = true
text_lt (c ∷ s) (d ∷ t) = ltb c d || ((c == d) && text_lt s t)

unfoldable pub insert_once : Text → List Text → List Text
unfolding text_eq text_lt
insert_once t [] = t ∷ []
insert_once t (u ∷ us) =
    if text_eq t u then u ∷ us else if text_lt t u then t ∷ u ∷ us else u ∷ insert_once t us

unfoldable pub sorted_set : List Text → List Text
unfolding insert_once
sorted_set [] = []
sorted_set (t ∷ ts) = insert_once t (sorted_set ts)

-- Strictly ascending, so that no text stands twice.
abbrev pub IsAscending : List Text → Type 0
IsAscending [] = Unit
IsAscending (t ∷ ts) = All (λ u. text_lt t u ≡ true) ts × IsAscending ts

text_lt_trans : (s t u : Text) → text_lt s t ≡ true → text_lt t u ≡ true → text_lt s u ≡ true
unfolding text_lt
text_lt_trans s [] u p q = ground arith
text_lt_trans [] (d ∷ t) [] p q = ground arith
text_lt_trans [] (d ∷ t) (e ∷ u) p q = refl
text_lt_trans (c ∷ s) (d ∷ t) [] p q = ground arith
text_lt_trans (c ∷ s) (d ∷ t) (e ∷ u) p q = ground (arith, text_lt_trans s t u)

text_lt_total : (s t : Text) → text_eq s t ≡ false → text_lt s t ≡ false → text_lt t s ≡ true
unfolding text_lt text_eq
text_lt_total [] [] p q = ground arith
text_lt_total [] (d ∷ t) p q = ground arith
text_lt_total (c ∷ s) [] p q = refl
text_lt_total (c ∷ s) (d ∷ t) p q = ground (arith, text_lt_total s t)

All-text_lt :
    (s t : Text) (us : List Text)
    → text_lt s t ≡ true
    → All (λ u. text_lt t u ≡ true) us
    → All (λ u. text_lt s u ≡ true) us
All-text_lt s t [] p h = tt
All-text_lt s t (u ∷ us) p h = (text_lt_trans s t u p h.0, All-text_lt s t us p h.1)

All-insert_once :
    (P : Text → Type 0) (t : Text) (us : List Text) → P t → All P us → All P (insert_once t us)
unfolding insert_once
All-insert_once P t [] p h = (p, tt)
All-insert_once P t (u ∷ us) p h =
    let rest = All-insert_once P t us p h.1 in
    elim (Bool-cases (text_eq t u)) [
      | inl e ↦ rw e h
      | inr n ↦
          rw n (elim (Bool-cases (text_lt t u)) [ inl l ↦ rw l (p, h) | inr m ↦ rw m (h.0, rest) ])
    ]

insert_once-IsAscending :
    (t : Text) (us : List Text) → IsAscending us → IsAscending (insert_once t us)
unfolding insert_once
insert_once-IsAscending t [] h = (tt, tt)
insert_once-IsAscending t (u ∷ us) h =
    let rest = insert_once-IsAscending t us h.1 in
    elim (Bool-cases (text_eq t u)) [
      | inl e ↦ rw e h
      | inr n ↦ rw n (elim (Bool-cases (text_lt t u)) [
        | inl l ↦ rw l ((l, All-text_lt t u us l h.0), h)
        | inr m ↦
            rw m (All-insert_once (λ v. text_lt u v ≡ true) t us (text_lt_total t u n m) h.0, rest)
      ])
    ]

-- The result is strictly ascending.
pub sorted_set-IsAscending : (ts : List Text) → IsAscending (sorted_set ts)
unfolding sorted_set
sorted_set-IsAscending [] = tt
sorted_set-IsAscending (t ∷ ts) =
    insert_once-IsAscending t (sorted_set ts) (sorted_set-IsAscending ts)

Has-insert_once : (a t : Text) (us : List Text) → Has a (insert_once t us) ↔ Has a (t ∷ us)
unfolding insert_once
Has-insert_once a t [] = (λ h. h, λ h. h)
Has-insert_once a t (u ∷ us) =
    let (into, back) = Has-insert_once a t us in
    elim (Bool-cases (text_eq t u)) [
      | inl e ↦ rw e (λ h. inr h, λ h. ground (arith, text_eq→eq t u e))
      | inr n ↦ rw n (elim (Bool-cases (text_lt t u)) [
        | inl l ↦ rw l (λ h. h, λ h. h)
        | inr m ↦ rw m (
          (λ h. elim h [
            | inl e ↦ inr (inl e)
            | inr r ↦ elim (into r) [ inl e ↦ inl e | inr q ↦ inr (inr q) ]
          ]),
          (λ h. elim h [
            | inl e ↦ inr (back (inl e))
            | inr r ↦ elim r [ inl e ↦ inl e | inr q ↦ inr (back (inr q)) ]
          ]),
        )
      ])
    ]

-- The result holds the given texts and no other.
pub Has-sorted_set : (a : Text) (ts : List Text) → Has a (sorted_set ts) ↔ Has a ts
unfolding sorted_set
Has-sorted_set a [] = (λ h. h, λ h. h)
Has-sorted_set a (t ∷ ts) =
    let (into, back) = Has-insert_once a t (sorted_set ts) in
    let (deep, up) = Has-sorted_set a ts in
    (
      (λ h. elim (into h) [ inl e ↦ inl e | inr r ↦ inr (deep r) ]),
      (λ h. back (elim h [ inl e ↦ inl e | inr r ↦ inr (up r) ])),
    )
