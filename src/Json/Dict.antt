-- ===== src/Json/Dict.antt =====
-- What the program does with a `dict` beyond reading it.
use true_presence_ese.Base.{
  arith, ◌∙◌, ◌||◌, ◌≡◌, refl, ap, sym, Bool, true, false, List, [], ◌∷◌, subst, if◌then◌else◌,
  Bool-cases, inl, inr,
}
use true_presence_ese.Base.Text.{Text, text_eq, text_eq→eq, text_eq_refl}
use true_presence_ese.Json.{Value, Items, nil, cons, Fields, end, field, get_or, items_list}

module _ {N : Type 0} where
  -- `d[key] = value`: a new key comes last.
  unfoldable pub set_field : Text → Value N → Fields N → Fields N
  set_field key value end = field key value end
  set_field key value (field k v d) =
      let rest = set_field key value d in if text_eq k key then field k value d else field k v rest

  -- `key in d`
  unfoldable pub has_key : Text → Fields N → Bool
  has_key key end = false
  has_key key (field k v d) = if text_eq k key then true else has_key key d

  -- `d.setdefault(key, value)`
  unfoldable pub set_default : Text → Value N → Fields N → Fields N
  unfolding set_field has_key
  set_default key value d = if has_key key d then d else set_field key value d

  -- `d.update(other)`
  unfoldable pub merge : Fields N → Fields N → Fields N
  unfolding set_field
  merge d end = d
  merge d (field k v other) = merge (set_field k v d) other

  -- `xs.append(x)`, and a list of values as one.
  unfoldable pub append_item : Items N → Value N → Items N
  append_item nil x = cons x nil
  append_item (cons v items) x = cons v (append_item items x)

  abbrev pub items_of : List (Value N) → Items N
  items_of [] = nil
  items_of (v ∷ vs) = cons v (items_of vs)

  pub items_list-items_of : (vs : List (Value N)) → items_list (items_of vs) ≡ vs
  items_list-items_of [] = refl
  items_list-items_of (v ∷ vs) = ap (λ z. v ∷ z) (items_list-items_of vs)

  pub get_or-set_field_same :
      (key : Text) (value default : Value N) (d : Fields N)
      → get_or key default (set_field key value d) ≡ value
  unfolding get_or set_field
  get_or-set_field_same key value default end = rw (text_eq_refl key) refl
  get_or-set_field_same key value default (field k v d) = elim (Bool-cases (text_eq k key)) [
    | inl e ↦ rw e (rw e refl)
    | inr e ↦ rw e (rw e (get_or-set_field_same key value default d))
  ]

  pub get_or-set_field_other :
      (key other : Text) (value default : Value N) (d : Fields N)
      → text_eq key other ≡ false
      → get_or other default (set_field key value d) ≡ get_or other default d
  unfolding get_or set_field
  get_or-set_field_other key other value default end n = rw n refl
  get_or-set_field_other key other value default (field k v d) n =
      elim (Bool-cases (text_eq k key)) [
        | inl e ↦ rw e (
            let m : text_eq k other ≡ false =
              subst (λ z. text_eq z other ≡ false) (sym (text_eq→eq k key e)) n in
            rw m refl)
        | inr e ↦ rw e (
            ap (λ z. if text_eq k other then v else z)
              (get_or-set_field_other key other value default d n))
      ]

  pub get_or-set_field :
      (k key : Text) (value default : Value N) (d : Fields N)
      → get_or key default (set_field k value d)
        ≡ (if text_eq k key then value else get_or key default d)
  get_or-set_field k key value default d = elim (Bool-cases (text_eq k key)) [
    | inl e ↦ rw e (
        subst (λ z. get_or z default (set_field k value d) ≡ value) (text_eq→eq k key e)
          (get_or-set_field_same k value default d))
    | inr e ↦ rw e (get_or-set_field_other k key value default d e)
  ]

  pub has_key-set_field :
      (k key : Text) (value : Value N) (d : Fields N)
      → has_key key (set_field k value d) ≡ (text_eq k key || has_key key d)
  unfolding has_key set_field
  has_key-set_field k key value end = elim (Bool-cases (text_eq k key)) [
    | inl e ↦ rw e refl
    | inr e ↦ rw e refl
  ]
  has_key-set_field k key value (field j v d) = elim (Bool-cases (text_eq j k)) [
    | inl e ↦ rw e (ground (arith, ap (λ z. text_eq z key) (text_eq→eq j k e)))
    | inr e ↦ rw e (ground (arith, has_key-set_field k key value d))
  ]

  -- A key that is not there.
  abbrev pub Lacks : Text → Fields N → Type 0
  Lacks key d = has_key key d ≡ false

  pub get_or-Lacks :
      (key : Text) (default : Value N) (d : Fields N) → Lacks key d → get_or key default d ≡ default
  unfolding get_or has_key
  get_or-Lacks key default end h = refl
  get_or-Lacks key default (field k v d) h = elim (Bool-cases (text_eq k key)) [
    | inl e ↦ cc (rw e at h)
    | inr e ↦ rw e (get_or-Lacks key default d (rw e at h))
  ]

  pub set_field-Lacks :
      (k key : Text) (value : Value N) (d : Fields N)
      → text_eq k key ≡ false
      → Lacks key d
      → Lacks key (set_field k value d)
  set_field-Lacks k key value d n h = has_key-set_field k key value d ∙ ground arith

  pub set_default-Lacks :
      (k key : Text) (value : Value N) (d : Fields N)
      → text_eq k key ≡ false
      → Lacks key d
      → Lacks key (set_default k value d)
  unfolding set_default
  set_default-Lacks k key value d n h = elim (Bool-cases (has_key k d)) [
    | inl e ↦ rw e h
    | inr e ↦ rw e (set_field-Lacks k key value d n h)
  ]

  pub get_or-set_default_other :
      (k key : Text) (value default : Value N) (d : Fields N)
      → text_eq k key ≡ false
      → get_or key default (set_default k value d) ≡ get_or key default d
  unfolding set_default
  get_or-set_default_other k key value default d n = elim (Bool-cases (has_key k d)) [
    | inl e ↦ rw e refl
    | inr e ↦ rw e (get_or-set_field_other k key value default d n)
  ]

  pub get_or-set_default-Lacks :
      (key : Text) (value default : Value N) (d : Fields N)
      → Lacks key d
      → get_or key default (set_default key value d) ≡ value
  unfolding set_default
  get_or-set_default-Lacks key value default d h = rw h (get_or-set_field_same key value default d)
