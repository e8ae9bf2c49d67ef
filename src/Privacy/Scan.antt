-- ===== src/Privacy/Scan.antt =====
-- The scans of truepresence/sdk/privacy.py. Each takes the list `violations` that the source
-- appends to, and returns it with the paths that it adds.
use true_presence_ese.Base.{ℕ, ◌+◌, List, [], ◌∷◌, ◌++◌, if◌then◌else◌}
use true_presence_ese.Base.Text.{Text, codes, text_eq, mem_text, show}
use true_presence_ese.Json.{
  Value, null, bool, num, str, arr, obj, Items, nil, cons, Fields, end, field,
}
use true_presence_ese.Privacy.Sets.{
  allowed_typing_fields, allowed_challenge_fields, allowed_pointer_fields,
  allowed_environment_fields, allowed_agentic_fields, allowed_session_continuity_fields,
  allowed_page_context_fields, allowed_typing_summary_fields, allowed_metadata_fields,
  allowed_external_risk_fields, allowed_packet_top_level, allowed_request_top_level,
}
use true_presence_ese.Privacy.Keys.{normalize_key, is_raw_content_key, is_forbidden}

-- f"{path}.{raw_key}"
abbrev pub child_path : Text → Text → Text
child_path path key = path ++ codes "." ++ key

-- f"{path}.{raw_key}" if path else str(raw_key)
abbrev pub child_or_root : Text → Text → Text
child_or_root [] key = key
child_or_root (c ∷ path) key = child_path (c ∷ path) key

-- f"{path}[{index}]"
abbrev pub item_path : Text → ℕ → Text
item_path path i = path ++ codes "[" ++ show i ++ codes "]"

abbrev pub append_path : List Text → Text → List Text
append_path violations path = violations ++ path ∷ []

-- The sections of a feature packet that have a field set of their own.
pub data Section : Type 0 where
  listed : List Text → Section
  metadata external_risk plain : Section

module _ {N : Type 0} where
  -- `for raw_key, raw_value in fields.items()` with the loop's body given.
  unfoldable pub each_field :
      (Text → Value N → Text → List Text → List Text) → Fields N → Text → List Text → List Text
  each_field body end path violations = violations
  each_field body (field key value fields) path violations =
      each_field body fields path (body key value (child_path path key) violations)

module _ (wide : ℕ → Text) {N : Type 0} where
  unfoldable mutual
    pub global_scan : Value N → Text → List Text → List Text
    global_scan null path violations = violations
    global_scan (bool b) path violations = violations
    global_scan (num n) path violations = violations
    global_scan (str s) path violations = violations
    global_scan (arr items) path violations = scan_items items 0 path violations
    global_scan (obj fields) path violations = scan_fields fields path violations

    pub scan_items : Items N → ℕ → Text → List Text → List Text
    scan_items nil i path violations = violations
    scan_items (cons item items) i path violations =
        scan_items items (i + 1) path (global_scan item (item_path path i) violations)

    pub scan_fields : Fields N → Text → List Text → List Text
    scan_fields end path violations = violations
    scan_fields (field key value fields) path violations =
        let child = child_or_root path key in
        scan_fields fields path (
          if is_forbidden wide key value
          then append_path violations child
          else global_scan value child violations)

  -- One field of a section with the field set `allowlist`.
  unfoldable pub scan_listed : List Text → Text → Value N → Text → List Text → List Text
  scan_listed allowlist key value child violations =
      if is_forbidden wide key value
      then append_path violations child
      else if mem_text (normalize_key wide key) allowlist
      then global_scan value child violations
      else global_scan value child (append_path violations child)

  unfoldable pub scan_section : List Text → Value N → Text → List Text → List Text
  unfolding each_field
  scan_section allowlist (obj fields) path violations =
      each_field (scan_listed allowlist) fields path violations
  scan_section allowlist _ path violations = violations

  unfoldable pub scan_external_field : Text → Value N → Text → List Text → List Text
  scan_external_field key value child violations =
      if is_raw_content_key wide key
      then append_path violations child
      else if mem_text (normalize_key wide key) allowed_external_risk_fields
      then global_scan value child violations
      else global_scan value child (append_path violations child)

  unfoldable pub scan_external_item : Value N → Text → List Text → List Text
  unfolding each_field
  scan_external_item (obj fields) path violations =
      each_field scan_external_field fields path violations
  scan_external_item _ path violations = violations

  unfoldable pub scan_external_items : Items N → ℕ → Text → List Text → List Text
  unfolding scan_external_item
  scan_external_items nil i path violations = violations
  scan_external_items (cons item items) i path violations =
      scan_external_items items (i + 1) path (scan_external_item item (item_path path i) violations)

  unfoldable pub scan_external_risk_list : Value N → Text → List Text → List Text
  unfolding scan_external_items
  scan_external_risk_list (arr items) path violations = scan_external_items items 0 path violations
  scan_external_risk_list _ path violations = violations

  unfoldable pub scan_metadata_field : Text → Value N → Text → List Text → List Text
  scan_metadata_field key value child violations =
      if is_forbidden wide key value
      then append_path violations child
      else if mem_text (normalize_key wide key) allowed_metadata_fields
      then (if text_eq (normalize_key wide key) (codes "typing_summary")
          then scan_section allowed_typing_summary_fields value child violations
          else global_scan value child violations)
      else global_scan value child (append_path violations child)

  unfoldable pub scan_metadata : Value N → Text → List Text → List Text
  unfolding each_field
  scan_metadata (obj fields) path violations = each_field scan_metadata_field fields path violations
  scan_metadata _ path violations = violations

-- The lookup in `_SECTION_ALLOWLISTS`, and the two sections that have a scan of their own.
unfoldable pub section_of : Text → Section
unfolding text_eq
section_of key =
    if text_eq key (codes "agentic")
    then listed allowed_agentic_fields
    else if text_eq key (codes "typing")
    then listed allowed_typing_fields
    else if text_eq key (codes "challenge")
    then listed allowed_challenge_fields
    else if text_eq key (codes "pointer")
    then listed allowed_pointer_fields
    else if text_eq key (codes "environment")
    then listed allowed_environment_fields
    else if text_eq key (codes "page_context")
    then listed allowed_page_context_fields
    else if text_eq key (codes "session_continuity")
    then listed allowed_session_continuity_fields
    else if text_eq key (codes "metadata")
    then metadata
    else if text_eq key (codes "external_risk_provider")
    then external_risk
    else plain

module _ (wide : ℕ → Text) {N : Type 0} where
  unfoldable pub scan_by_section : Section → Value N → Text → List Text → List Text
  scan_by_section (listed allowlist) = scan_section wide allowlist
  scan_by_section metadata = scan_metadata wide
  scan_by_section external_risk = scan_external_risk_list wide
  scan_by_section plain = global_scan wide

  unfoldable pub scan_packet_field : Text → Value N → Text → List Text → List Text
  scan_packet_field key value child violations =
      if is_raw_content_key wide key
      then append_path violations child
      else if mem_text (normalize_key wide key) allowed_packet_top_level
      then scan_by_section (section_of (normalize_key wide key)) value child violations
      else global_scan wide value child (append_path violations child)

  unfoldable pub scan_feature_packet : Value N → Text → List Text → List Text
  unfolding each_field
  scan_feature_packet (obj fields) path violations =
      each_field scan_packet_field fields path violations
  scan_feature_packet _ path violations = violations

  unfoldable pub scan_request_field : Text → Value N → List Text → List Text
  scan_request_field key value violations =
      if is_raw_content_key wide key
      then append_path violations key
      else if mem_text (normalize_key wide key) allowed_request_top_level
      then (if text_eq (normalize_key wide key) (codes "feature_packet")
          then scan_feature_packet value key violations
          else global_scan wide value key violations)
      else global_scan wide value key (append_path violations key)

  unfoldable pub scan_request_fields : Fields N → List Text → List Text
  scan_request_fields end violations = violations
  scan_request_fields (field key value fields) violations =
      scan_request_fields fields (scan_request_field key value violations)

  unfoldable pub scan_request : Value N → List Text → List Text
  unfolding scan_request_fields
  scan_request (obj fields) violations = scan_request_fields fields violations
  scan_request value violations = global_scan wide value [] violations
