-- ===== src/Base/Assoc.antt =====
-- A Python `dict` from texts, with its entries in insertion order.

use mathlib.Core.Path.{◌≡◌, refl, sym, ap, subst, ◌∙◌}
use mathlib.Core.Bool.{true, false}
use mathlib.Core.List.{List, [], ◌∷◌}
use mathlib.Core.Logic.{inl, inr}
use true_presence_ese.Base.Tests.{if◌then◌else◌, Bool-cases}
use true_presence_ese.Base.Lists.{All}
use true_presence_ese.Base.Text.{Text, text_eq, text_eq→eq, text_eq_refl}

text_eq_sym_false : (s t : Text) → text_eq s t ≡ false → text_eq t s ≡ false
text_eq_sym_false s t n = elim (Bool-cases (text_eq t s)) [
  | inl e ↦ cc (sym n ∙ subst (λ z. text_eq z t ≡ true) (text_eq→eq t s e) (text_eq_refl t))
  | inr e ↦ e
]

pub text_eq_sym : (s t : Text) → text_eq s t ≡ text_eq t s
text_eq_sym s t = elim (Bool-cases (text_eq s t)) [
  | inl e ↦ e ∙ sym (subst (λ z. text_eq t z ≡ true) (sym (text_eq→eq s t e)) (text_eq_refl t))
  | inr e ↦ e ∙ sym (text_eq_sym_false s t e)
]

module _ {V : Type 0} where
  -- `d[key]`, or the default that a missing key stands for.
  unfoldable pub find : Text → V → List (Text × V) → V
  find key default [] = default
  find key default ((k, v) ∷ d) = let rest = find key default d in if text_eq k key then v else rest

  -- `d[key] = f(d[key])` on a `defaultdict`.
  unfoldable pub update : Text → V → (V → V) → List (Text × V) → List (Text × V)
  update key default f [] = (key, f default) ∷ []
  update key default f ((k, v) ∷ d) =
      let rest = update key default f d in if text_eq k key then (k, f v) ∷ d else (k, v) ∷ rest

  -- `d.pop(key, None)`
  unfoldable pub remove : Text → List (Text × V) → List (Text × V)
  remove key [] = []
  remove key ((k, v) ∷ d) = let rest = remove key d in if text_eq k key then d else (k, v) ∷ rest

  abbrev pub IsFresh : Text → List (Text × V) → Type 0
  IsFresh key d = All (λ e. text_eq e.0 key ≡ false) d

  -- No key stands twice.
  abbrev pub IsDict : List (Text × V) → Type 0
  IsDict [] = Unit
  IsDict ((k, v) ∷ d) = IsFresh k d × IsDict d

  pub find-update_same :
      (key : Text) (default : V) (f : V → V) (d : List (Text × V))
      → find key default (update key default f d) ≡ f (find key default d)
  unfolding find update
  find-update_same key default f [] = rw (text_eq_refl key) refl
  find-update_same key default f ((k, v) ∷ d) = elim (Bool-cases (text_eq k key)) [
    | inl e ↦ rw e (rw e refl)
    | inr e ↦ rw e (rw e (find-update_same key default f d))
  ]

  pub find-update_other :
      (key other : Text) (default : V) (f : V → V) (d : List (Text × V))
      → text_eq key other ≡ false
      → find other default (update key default f d) ≡ find other default d
  unfolding find update
  find-update_other key other default f [] n = rw n refl
  find-update_other key other default f ((k, v) ∷ d) n = elim (Bool-cases (text_eq k key)) [
    | inl e ↦ rw e (rw (subst (λ z. text_eq z other ≡ false) (sym (text_eq→eq k key e)) n) refl)
    | inr e ↦
        rw e
          (ap (λ z. if text_eq k other then v else z) (find-update_other key other default f d n))
  ]

  find-IsFresh :
      (key : Text) (default : V) (d : List (Text × V))
      → IsFresh key d
      → find key default d ≡ default
  unfolding find
  find-IsFresh key default [] h = refl
  find-IsFresh key default ((k, v) ∷ d) h = rw h.0 (find-IsFresh key default d h.1)

  pub find-remove_same :
      (key : Text) (default : V) (d : List (Text × V))
      → IsDict d
      → find key default (remove key d) ≡ default
  unfolding find remove
  find-remove_same key default [] h = refl
  find-remove_same key default ((k, v) ∷ d) h = elim (Bool-cases (text_eq k key)) [
    | inl e ↦ rw e (
        subst (λ z. find z default d ≡ default) (text_eq→eq k key e) (find-IsFresh k default d h.0))
    | inr e ↦ rw e (rw e (find-remove_same key default d h.1))
  ]

  pub find-remove_other :
      (key other : Text) (default : V) (d : List (Text × V))
      → text_eq key other ≡ false
      → find other default (remove key d) ≡ find other default d
  unfolding find remove
  find-remove_other key other default [] n = refl
  find-remove_other key other default ((k, v) ∷ d) n = elim (Bool-cases (text_eq k key)) [
    | inl e ↦
        rw e (sym (rw (subst (λ z. text_eq z other ≡ false) (sym (text_eq→eq k key e)) n) refl))
    | inr e ↦
        rw e (ap (λ z. if text_eq k other then v else z) (find-remove_other key other default d n))
  ]

  update-IsFresh :
      (key other : Text) (default : V) (f : V → V) (d : List (Text × V))
      → text_eq key other ≡ false
      → IsFresh other d
      → IsFresh other (update key default f d)
  unfolding update
  update-IsFresh key other default f [] n h = (n, tt)
  update-IsFresh key other default f ((k, v) ∷ d) n h = elim (Bool-cases (text_eq k key)) [
    | inl e ↦ rw e h
    | inr e ↦ rw e (h.0, update-IsFresh key other default f d n h.1)
  ]

  pub update-IsDict :
      (key : Text) (default : V) (f : V → V) (d : List (Text × V))
      → IsDict d
      → IsDict (update key default f d)
  unfolding update
  update-IsDict key default f [] h = (tt, tt)
  update-IsDict key default f ((k, v) ∷ d) h = elim (Bool-cases (text_eq k key)) [
    | inl e ↦ rw e h
    | inr e ↦ rw e (
      update-IsFresh key k default f d (text_eq_sym_false k key e) h.0,
      update-IsDict key default f d h.1,
    )
  ]

  remove-IsFresh :
      (key other : Text) (d : List (Text × V)) → IsFresh other d → IsFresh other (remove key d)
  unfolding remove
  remove-IsFresh key other [] h = tt
  remove-IsFresh key other ((k, v) ∷ d) h = elim (Bool-cases (text_eq k key)) [
    | inl e ↦ rw e h.1
    | inr e ↦ rw e (h.0, remove-IsFresh key other d h.1)
  ]

  pub remove-IsDict : (key : Text) (d : List (Text × V)) → IsDict d → IsDict (remove key d)
  unfolding remove
  remove-IsDict key [] h = tt
  remove-IsDict key ((k, v) ∷ d) h = elim (Bool-cases (text_eq k key)) [
    | inl e ↦ rw e h.1
    | inr e ↦ rw e (remove-IsFresh key k d h.0, remove-IsDict key d h.1)
  ]

  -- The two maps in one equation each. The default of `find` may be another than that of `update`
  -- where the keys differ.
  pub find-update :
      (key k : Text) (default : V) (f : V → V) (d : List (Text × V))
      → find k default (update key default f d)
        ≡ (if text_eq key k then f (find key default d) else find k default d)
  find-update key k default f d = elim (Bool-cases (text_eq key k)) [
    | inl e ↦ rw e (
        subst (λ z. find z default (update key default f d) ≡ f (find key default d))
          (text_eq→eq key k e) (find-update_same key default f d))
    | inr e ↦ rw e (find-update_other key k default f d e)
  ]

  pub find-update_apart :
      (key other : Text) (default default' : V) (f : V → V) (d : List (Text × V))
      → text_eq key other ≡ false
      → find other default' (update key default f d) ≡ find other default' d
  unfolding find update
  find-update_apart key other default default' f [] n = rw n refl
  find-update_apart key other default default' f ((k, v) ∷ d) n =
      elim (Bool-cases (text_eq k key)) [
        | inl e ↦ rw e (rw (subst (λ z. text_eq z other ≡ false) (sym (text_eq→eq k key e)) n) refl)
        | inr e ↦ rw e (
            ap (λ z. if text_eq k other then v else z)
              (find-update_apart key other default default' f d n))
      ]

  pub find-remove :
      (key k : Text) (default : V) (d : List (Text × V))
      → IsDict d
      → find k default (remove key d) ≡ (if text_eq key k then default else find k default d)
  find-remove key k default d h = elim (Bool-cases (text_eq key k)) [
    | inl e ↦ rw e (
        subst (λ z. find z default (remove key d) ≡ default) (text_eq→eq key k e)
          (find-remove_same key default d h))
    | inr e ↦ rw e (find-remove_other key k default d e)
  ]
