-- ===== src/Privacy/Guard.antt =====
-- The public functions of truepresence/sdk/privacy.py.
use true_presence_ese.Base.{ℕ, List, [], ◌∷◌, ◌++◌, if◌then◌else◌}
use true_presence_ese.Base.Text.{Text, codes}
use true_presence_ese.Base.Sorted.{sorted_set}
use true_presence_ese.Json.{
  Value, null, bool, num, str, arr, obj, Items, nil, cons, Fields, end, field,
}
use true_presence_ese.Privacy.Keys.{is_forbidden}
use true_presence_ese.Privacy.Scan.{scan_request, scan_feature_packet}

-- What a call of the guard does: it returns, or raises `RawContentRejected` with its message.
pub data Verdict : Type 0 where
  accepted : Verdict
  raw_content_rejected : Text → Verdict

-- ", ".join(paths)
unfoldable pub join_paths : List Text → Text
join_paths [] = []
join_paths (p ∷ []) = p
join_paths (p ∷ q ∷ ps) = p ++ codes ", " ++ join_paths (q ∷ ps)

abbrev pub rejection_message : Text
rejection_message = codes "Raw or disallowed fields are not accepted in TruePresence SDK payloads: "

unfoldable pub raise_if_violations : List Text → Verdict
raise_if_violations [] = accepted
raise_if_violations (v ∷ vs) =
    raw_content_rejected (rejection_message ++ join_paths (sorted_set (v ∷ vs)))

module _ (wide : ℕ → Text) {N : Type 0} where
  unfoldable pub ensure_privacy_safe_payload : Value N → Verdict
  ensure_privacy_safe_payload payload = raise_if_violations (scan_request wide payload [])

  unfoldable pub ensure_privacy_safe_feature_packet : Value N → Verdict
  ensure_privacy_safe_feature_packet packet =
      raise_if_violations (scan_feature_packet wide packet (codes "feature_packet") [])

  unfoldable mutual
    pub strip_raw_content : Value N → Value N
    strip_raw_content null = null
    strip_raw_content (bool b) = bool b
    strip_raw_content (num n) = num n
    strip_raw_content (str s) = str s
    strip_raw_content (arr items) = arr (strip_items items)
    strip_raw_content (obj fields) = obj (strip_fields fields)

    pub strip_items : Items N → Items N
    strip_items nil = nil
    strip_items (cons item items) = cons (strip_raw_content item) (strip_items items)

    pub strip_fields : Fields N → Fields N
    strip_fields end = end
    strip_fields (field key value fields) =
        if is_forbidden wide key value
        then strip_fields fields
        else field key (strip_raw_content value) (strip_fields fields)
