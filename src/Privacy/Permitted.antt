-- ===== src/Privacy/Permitted.antt =====
-- The closed schema that truepresence/sdk/privacy.py promises, section by section, stated over the
-- payload alone, and that each scan decides its part of it.
use true_presence_ese.Base.{ℕ, ◌+◌, ◌≡◌, Bool, true, false, List, [], if◌then◌else◌}
use true_presence_ese.Base.Text.{Text, codes, text_eq, mem_text}
use true_presence_ese.Json.{Value, arr, obj, Items, nil, cons, Fields, end, field}
use true_presence_ese.Privacy.Sets.{
  allowed_agentic_fields, allowed_typing_fields, allowed_challenge_fields, allowed_pointer_fields,
  allowed_environment_fields, allowed_page_context_fields, allowed_session_continuity_fields,
  allowed_typing_summary_fields, allowed_metadata_fields, allowed_external_risk_fields,
  allowed_packet_top_level, allowed_request_top_level,
}
use true_presence_ese.Privacy.Keys.{normalize_key, is_raw_content_key, is_forbidden}
use true_presence_ese.Privacy.Scan.{
  Section, section_of, child_path, item_path, scan_listed, each_field, scan_section,
  scan_external_field, scan_external_item, scan_external_items, scan_external_risk_list,
  scan_metadata_field, scan_metadata, scan_by_section, scan_packet_field, scan_feature_packet,
  scan_request_field, scan_request_fields, scan_request,
}
use true_presence_ese.Privacy.Decides.{
  Decides, Decides-nothing, Decides-then, Decides-refuse, Decides-require, Decides-if,
}
use true_presence_ese.Privacy.Clean.{IsClean, global_scan-Decides}

module _ {N : Type 0} where
  abbrev pub AllFields : (Text → Value N → Type 0) → Fields N → Type 0
  AllFields P end = Unit
  AllFields P (field key value fields) = P key value × AllFields P fields

  abbrev pub AllItems : (Value N → Type 0) → Items N → Type 0
  AllItems P nil = Unit
  AllItems P (cons item items) = P item × AllItems P items

  each_field-Decides :
      (body : Text → Value N → Text → List Text → List Text) (P : Text → Value N → Type 0)
      → ((key : Text) (value : Value N) (child : Text)
          → Decides (body key value child) (P key value))
      → (fields : Fields N) (path : Text)
      → Decides (each_field body fields path) (AllFields P fields)
  unfolding each_field
  each_field-Decides body P d end path = Decides-nothing
  each_field-Decides body P d (field key value fields) path =
      Decides-then (d key value (child_path path key)) (each_field-Decides body P d fields path)

module _ (wide : ℕ → Text) {N : Type 0} where
  abbrev pub PermittedField : List Text → Text → Value N → Type 0
  PermittedField allowlist key value =
      (is_forbidden wide key value ≡ false)
      × ((mem_text (normalize_key wide key) allowlist ≡ true) × IsClean wide value)

  abbrev pub PermittedSection : List Text → Value N → Type 0
  PermittedSection allowlist (obj fields) = AllFields (PermittedField allowlist) fields
  PermittedSection allowlist _ = Unit

  abbrev pub PermittedExternalField : Text → Value N → Type 0
  PermittedExternalField key value =
      (is_raw_content_key wide key ≡ false)
      × ((mem_text (normalize_key wide key) allowed_external_risk_fields ≡ true)
          × IsClean wide value)

  abbrev pub PermittedExternalItem : Value N → Type 0
  PermittedExternalItem (obj fields) = AllFields PermittedExternalField fields
  PermittedExternalItem _ = Unit

  abbrev pub PermittedExternalRisk : Value N → Type 0
  PermittedExternalRisk (arr items) = AllItems PermittedExternalItem items
  PermittedExternalRisk _ = Unit

  abbrev pub PermittedMetadataField : Text → Value N → Type 0
  PermittedMetadataField key value =
      (is_forbidden wide key value ≡ false)
      × ((mem_text (normalize_key wide key) allowed_metadata_fields ≡ true)
          × (if text_eq (normalize_key wide key) (codes "typing_summary")
              then PermittedSection allowed_typing_summary_fields value
              else IsClean wide value))

  abbrev pub PermittedMetadata : Value N → Type 0
  PermittedMetadata (obj fields) = AllFields PermittedMetadataField fields
  PermittedMetadata _ = Unit

  -- What may stand under a key of the packet, by the name of its section.
  abbrev pub PermittedAs : Text → Value N → Type 0
  PermittedAs key value =
      if text_eq key (codes "agentic")
      then PermittedSection allowed_agentic_fields value
      else if text_eq key (codes "typing")
      then PermittedSection allowed_typing_fields value
      else if text_eq key (codes "challenge")
      then PermittedSection allowed_challenge_fields value
      else if text_eq key (codes "pointer")
      then PermittedSection allowed_pointer_fields value
      else if text_eq key (codes "environment")
      then PermittedSection allowed_environment_fields value
      else if text_eq key (codes "page_context")
      then PermittedSection allowed_page_context_fields value
      else if text_eq key (codes "session_continuity")
      then PermittedSection allowed_session_continuity_fields value
      else if text_eq key (codes "metadata")
      then PermittedMetadata value
      else if text_eq key (codes "external_risk_provider")
      then PermittedExternalRisk value
      else IsClean wide value

  abbrev pub PermittedPacketField : Text → Value N → Type 0
  PermittedPacketField key value =
      (is_raw_content_key wide key ≡ false)
      × ((mem_text (normalize_key wide key) allowed_packet_top_level ≡ true)
          × PermittedAs (normalize_key wide key) value)

  abbrev pub PermittedPacket : Value N → Type 0
  PermittedPacket (obj fields) = AllFields PermittedPacketField fields
  PermittedPacket _ = Unit

  abbrev pub PermittedRequestField : Text → Value N → Type 0
  PermittedRequestField key value =
      (is_raw_content_key wide key ≡ false)
      × ((mem_text (normalize_key wide key) allowed_request_top_level ≡ true)
          × (if text_eq (normalize_key wide key) (codes "feature_packet")
              then PermittedPacket value
              else IsClean wide value))

  abbrev pub PermittedRequest : Value N → Type 0
  PermittedRequest (obj fields) = AllFields PermittedRequestField fields
  PermittedRequest value = IsClean wide value

  -- `if not listed` after `if bad`, as four of the scans have it.
  scan_listed-Decides :
      (allowlist : List Text) (key : Text) (value : Value N) (child : Text)
      → Decides (scan_listed wide allowlist key value child) (PermittedField allowlist key value)
  unfolding scan_listed
  scan_listed-Decides allowlist key value child = Decides-refuse _ child (
      Decides-require _ child (global_scan-Decides wide value child)
        (global_scan-Decides wide value child))

  scan_section-Decides :
      (allowlist : List Text) (value : Value N) (path : Text)
      → Decides (scan_section wide allowlist value path) (PermittedSection allowlist value)
  unfolding scan_section
  scan_section-Decides allowlist (obj fields) path =
      each_field-Decides (scan_listed wide allowlist) (PermittedField allowlist)
        (scan_listed-Decides allowlist) fields path
  scan_section-Decides allowlist _ path = Decides-nothing

  scan_external_field-Decides :
      (key : Text) (value : Value N) (child : Text)
      → Decides (scan_external_field wide key value child) (PermittedExternalField key value)
  unfolding scan_external_field
  scan_external_field-Decides key value child = Decides-refuse _ child (
      Decides-require _ child (global_scan-Decides wide value child)
        (global_scan-Decides wide value child))

  scan_external_item-Decides :
      (value : Value N) (path : Text)
      → Decides (scan_external_item wide value path) (PermittedExternalItem value)
  unfolding scan_external_item
  scan_external_item-Decides (obj fields) path =
      each_field-Decides (scan_external_field wide) PermittedExternalField
        scan_external_field-Decides fields path
  scan_external_item-Decides _ path = Decides-nothing

  scan_external_items-Decides :
      (items : Items N) (i : ℕ) (path : Text)
      → Decides (scan_external_items wide items i path) (AllItems PermittedExternalItem items)
  unfolding scan_external_items
  scan_external_items-Decides nil i path = Decides-nothing
  scan_external_items-Decides (cons item items) i path =
      Decides-then (scan_external_item-Decides item (item_path path i))
        (scan_external_items-Decides items (i + 1) path)

  scan_external_risk_list-Decides :
      (value : Value N) (path : Text)
      → Decides (scan_external_risk_list wide value path) (PermittedExternalRisk value)
  unfolding scan_external_risk_list
  scan_external_risk_list-Decides (arr items) path = scan_external_items-Decides items 0 path
  scan_external_risk_list-Decides _ path = Decides-nothing

  scan_metadata_field-Decides :
      (key : Text) (value : Value N) (child : Text)
      → Decides (scan_metadata_field wide key value child) (PermittedMetadataField key value)
  unfolding scan_metadata_field
  scan_metadata_field-Decides key value child = Decides-refuse _ child (
      Decides-require _ child
        (Decides-if _ (scan_section-Decides allowed_typing_summary_fields value child)
          (global_scan-Decides wide value child))
        (global_scan-Decides wide value child))

  scan_metadata-Decides :
      (value : Value N) (path : Text)
      → Decides (scan_metadata wide value path) (PermittedMetadata value)
  unfolding scan_metadata
  scan_metadata-Decides (obj fields) path =
      each_field-Decides (scan_metadata_field wide) PermittedMetadataField
        scan_metadata_field-Decides fields path
  scan_metadata-Decides _ path = Decides-nothing

  module _ (value : Value N) (path : Text) where
    Decides-either :
        (b : Bool) (s t : Section) {P Q : Type 0}
        → Decides (scan_by_section wide s value path) P
        → Decides (scan_by_section wide t value path) Q
        → Decides (scan_by_section wide (if b then s else t) value path) (if b then P else Q)
    Decides-either true s t d e = d
    Decides-either false s t d e = e

    scan_by_section-Decides :
        (key : Text)
        → Decides (scan_by_section wide (section_of key) value path) (PermittedAs key value)
    unfolding scan_by_section section_of
    scan_by_section-Decides key =
        Decides-either _ _ _ (scan_section-Decides allowed_agentic_fields value path) (
          Decides-either _ _ _ (scan_section-Decides allowed_typing_fields value path) (
            Decides-either _ _ _ (scan_section-Decides allowed_challenge_fields value path) (
              Decides-either _ _ _ (scan_section-Decides allowed_pointer_fields value path) (
                Decides-either _ _ _ (scan_section-Decides allowed_environment_fields value path) (
                  Decides-either _ _ _ (scan_section-Decides allowed_page_context_fields value path)
                    (Decides-either _ _ _
                      (scan_section-Decides allowed_session_continuity_fields value path)
                      (Decides-either _ _ _ (scan_metadata-Decides value path) (
                        Decides-either _ _ _ (scan_external_risk_list-Decides value path)
                          (global_scan-Decides wide value path)))))))))

  scan_packet_field-Decides :
      (key : Text) (value : Value N) (child : Text)
      → Decides (scan_packet_field wide key value child) (PermittedPacketField key value)
  unfolding scan_packet_field
  scan_packet_field-Decides key value child = Decides-refuse _ child (
      Decides-require _ child (scan_by_section-Decides value child (normalize_key wide key))
        (global_scan-Decides wide value child))

  pub scan_feature_packet-Decides :
      (value : Value N) (path : Text)
      → Decides (scan_feature_packet wide value path) (PermittedPacket value)
  unfolding scan_feature_packet
  scan_feature_packet-Decides (obj fields) path =
      each_field-Decides (scan_packet_field wide) PermittedPacketField scan_packet_field-Decides
        fields path
  scan_feature_packet-Decides _ path = Decides-nothing

  scan_request_field-Decides :
      (key : Text) (value : Value N)
      → Decides (scan_request_field wide key value) (PermittedRequestField key value)
  unfolding scan_request_field
  scan_request_field-Decides key value = Decides-refuse _ key (
      Decides-require _ key
        (Decides-if _ (scan_feature_packet-Decides value key) (global_scan-Decides wide value key))
        (global_scan-Decides wide value key))

  scan_request_fields-Decides :
      (fields : Fields N)
      → Decides (scan_request_fields wide fields) (AllFields PermittedRequestField fields)
  unfolding scan_request_fields
  scan_request_fields-Decides end = Decides-nothing
  scan_request_fields-Decides (field key value fields) =
      Decides-then (scan_request_field-Decides key value) (scan_request_fields-Decides fields)

  pub scan_request-Decides :
      (payload : Value N) → Decides (scan_request wide payload) (PermittedRequest payload)
  unfolding scan_request
  scan_request-Decides (obj fields) = scan_request_fields-Decides fields
  scan_request-Decides payload = global_scan-Decides wide payload []
