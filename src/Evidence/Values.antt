-- ===== src/Evidence/Values.antt =====
-- How truepresence/evidence/packet_builder.py reads values of which it does not know the type.
-- `parse_float` stands for `float(text)`; none is an exception.
use true_presence_ese.Base.{
  Bool, true, false, Option, none, some, List, [], ◌∷◌, map, if◌then◌else◌,
}
use true_presence_ese.Base.Text.{Text, codes, mem_text}
use true_presence_ese.Json.{
  Value, null, bool, num, str, arr, nil, obj, Fields, end, field, items_list, get,
}
use true_presence_ese.Json.Dict.{merge}
use true_presence_ese.Float.{Floats, zero_f, one_f}
use true_presence_ese.Decision.Packet.{is_true}

module _ {F : Type 0} where
  -- `_to_dict`
  unfoldable pub to_dict : Value F → Fields F
  to_dict null = end
  to_dict (obj fields) = fields
  to_dict v = field (codes "value") v end

  -- `dict(value)`. A list of pairs, from which Python makes a dictionary too, is taken to raise.
  abbrev pub dict_of : Value F → Option (Fields F)
  dict_of (obj fields) = some fields
  dict_of (arr nil) = some end
  dict_of (str []) = some end
  dict_of _ = none

  abbrev pub dict_keys : Fields F → List (Value F)
  dict_keys end = []
  dict_keys (field k v fields) = str k ∷ dict_keys fields

  -- `list(value)`
  unfoldable pub list_of : Value F → Option (List (Value F))
  list_of (arr items) = some (items_list items)
  list_of (obj fields) = some (dict_keys fields)
  list_of (str s) = some (map (λ c. str (c ∷ [])) s)
  list_of _ = none

  -- `value in {"...", ...}` for a set of texts: a list or a dictionary cannot be looked up.
  unfoldable pub in_texts : List Text → Value F → Option Bool
  unfolding mem_text
  in_texts texts (str s) = some (mem_text s texts)
  in_texts texts (arr items) = none
  in_texts texts (obj fields) = none
  in_texts texts _ = some false

  -- `value is True` and `value is False`
  abbrev pub is_bool : Bool → Value F → Bool
  is_bool true (bool b) = b
  is_bool false (bool true) = false
  is_bool false (bool false) = true
  is_bool b _ = false

module _ (o : Floats) (parse_float : Text → Option o.F) where
  open o use {F}

  -- `float(value)`
  abbrev pub to_float : Value F → Option F
  to_float (num x) = some x
  to_float (bool b) = some (if b then one_f o else zero_f o)
  to_float (str s) = parse_float s
  to_float _ = none

module _ (o : Floats) where
  open o use {F}

  -- `a or b`
  abbrev pub or_else : Value F → Value F → Value F
  or_else a b = if is_true o a then a else b

  -- `_merge_feature_sources`
  unfoldable pub merge_feature_sources : Fields F → Fields F
  unfolding to_dict merge
  merge_feature_sources event =
      merge (merge end (to_dict (get (codes "features") event)))
        (to_dict (get (codes "signals") event))
