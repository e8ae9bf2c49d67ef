-- ===== src/Json.antt =====
-- Values of a decoded JSON payload, which Python holds as `dict`, `list`, `str` and numbers.
pub mod Dict
use true_presence_ese.Base.{Bool, true, false, List, [], ◌∷◌, if◌then◌else◌}
use true_presence_ese.Base.Text.{Text, text_eq}

-- `N` is the type of the numbers. The entries of a `dict` stand in insertion order.
mutual
  pub data Value (N : Type 0) : Type 0 where
    null : Value N
    bool : Bool → Value N
    num : N → Value N
    str : Text → Value N
    arr : Items N → Value N
    obj : Fields N → Value N

  pub data Items (N : Type 0) : Type 0 where
    nil : Items N
    cons : Value N → Items N → Items N

  pub data Fields (N : Type 0) : Type 0 where
    end : Fields N
    field : Text → Value N → Fields N → Fields N

module _ {N : Type 0} where
  -- `d.get(key, default)`
  unfoldable pub get_or : Text → Value N → Fields N → Value N
  unfolding text_eq
  get_or key default end = default
  get_or key default (field k v fields) =
      let rest = get_or key default fields in if text_eq k key then v else rest

  -- `d.get(key)`, which is None when the key is missing.
  abbrev pub get : Text → Fields N → Value N
  get key fields = get_or key null fields

  -- `value is None`
  abbrev pub is_none : Value N → Bool
  is_none null = true
  is_none _ = false

  -- `value == "..."` for a literal.
  abbrev pub is_text : Text → Value N → Bool
  is_text t (str s) = text_eq s t
  is_text t _ = false

  abbrev pub items_list : Items N → List (Value N)
  items_list nil = []
  items_list (cons v items) = v ∷ items_list items
