-- ===== src/Decision/Packet.antt =====
-- `EvidencePacket` of truepresence/evidence/packet.py, and Python's truth of a value.
use true_presence_ese.Base.{
  Bool, true, false, not, ◌&&◌, Option, none, some, List, [], ◌∷◌, map, all, if◌then◌else◌,
}
use true_presence_ese.Base.Text.{Text}
use true_presence_ese.Json.{
  Value, null, bool, num, str, arr, obj, nil, cons, Fields, end, field, items_list,
}
use true_presence_ese.Float.{Floats, zero_f}

-- The numbers of the dictionaries are floats; a dictionary is the list of its entries.
pub record EvidencePacket (F : Type 0) : Type 0 where
  pub packet_id : Text
  pub session_id : Text
  pub tenant_id : Value F
  pub surface : Text
  pub actor_id : Value F
  pub received_at : Text
  pub event_window_start : Value F
  pub event_window_end : Value F
  pub raw_events : List (Fields F)
  pub challenge_data : Fields F
  pub timing_features : Fields F
  pub behavioral_features : Fields F
  pub identity_refs : Fields F
  pub session_history : List (Value F)
  pub policy_context : Fields F
  pub risk_context : Fields F
  pub provenance : Fields F
  pub session_context : Fields F
  pub metadata : Fields F
  pub schema_version : Text

module _ (o : Floats) where
  open o use {F, le}

  -- `if value:`
  unfoldable pub is_true : Value F → Bool
  is_true null = false
  is_true (bool b) = b
  is_true (num x) = not (le x (zero_f o) && le (zero_f o) x)
  is_true (str []) = false
  is_true (str (c ∷ s)) = true
  is_true (arr nil) = false
  is_true (arr (cons v items)) = true
  is_true (obj end) = false
  is_true (obj (field k v fields)) = true

  -- A list or a dictionary cannot be an element of a set.
  abbrev is_hashable : Value F → Bool
  is_hashable (arr items) = false
  is_hashable (obj fields) = false
  is_hashable _ = true

  abbrev keys : Fields F → List (Value F)
  keys end = []
  keys (field k v fields) = str k ∷ keys fields

  -- `set(value)` as the list of its elements, or none where Python raises a TypeError.
  unfoldable pub as_set : Value F → Option (List (Value F))
  as_set (str s) = some (map (λ c. str (c ∷ [])) s)
  as_set (arr items) = if all is_hashable (items_list items) then some (items_list items) else none
  as_set (obj fields) = some (keys fields)
  as_set _ = none
