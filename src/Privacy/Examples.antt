-- ===== src/Privacy/Examples.antt =====
-- The guard of truepresence/sdk/privacy.py on small payloads.
use true_presence_ese.Base.{inl, inr, ℕ, ◌≡◌, refl, ◌↔◌, false, List, [], ◌∷◌}
use true_presence_ese.Base.Text.{Text, codes}
use true_presence_ese.Json.{Value, num, str, arr, obj, Items, nil, cons, end, field}
use true_presence_ese.Privacy.Keys.{
  normalize_key, is_raw_content_key, is_sensitive_field_descriptor, is_forbidden,
}
use true_presence_ese.Privacy.Scan.{
  scan_request, scan_request_field, scan_feature_packet, scan_packet_field, scan_by_section,
  scan_section, scan_listed, global_scan, section_of,
}
use true_presence_ese.Base.Sorted.{sorted_set, IsAscending}
use true_presence_ese.Base.{Has, ◌++◌}
use true_presence_ese.Privacy.Guard.{
  accepted, raw_content_rejected, ensure_privacy_safe_payload, ensure_privacy_safe_feature_packet,
  strip_raw_content, rejection_message, join_paths, raise_if_violations,
}
use true_presence_ese.Privacy.Clean.{IsClean}
use true_presence_ese.Privacy.Permitted.{PermittedRequest}
use true_presence_ese.Privacy.Accepts.{
  ensure_privacy_safe_payload-eq-accepted, global_scan_exact, section_list_unscanned,
  raise_if_violations-lists, typing_summary_list_unscanned,
}
use true_presence_ese.Privacy.Strip.{global_scan-strip_raw_content}
use true_presence_ese.Privacy.Deep.{IsRegularRequest, accepted-IsClean}

-- No letter outside ASCII has a lower case.
abbrev ascii_only : ℕ → Text
ascii_only c = c ∷ []

abbrev typing_packet : Value ℕ → Value ℕ
typing_packet v = obj (field (codes "typing") v end)

abbrev request : Value ℕ → Value ℕ
request packet = obj (field (codes "feature_packet") packet end)

-- {"feature_packet": {"typing": {"paste_count": 1}}}
abbrev good_request : Value ℕ
good_request = request (typing_packet (obj (field (codes "paste_count") (num 1) end)))

-- {"feature_packet": {"typing": {"Typed-Text": "x"}}}
abbrev bad_request : Value ℕ
bad_request = request (typing_packet (obj (field (codes "Typed-Text") (str (codes "x")) end)))

-- [{"password": "x"}]
abbrev hidden_items : Items ℕ
hidden_items = cons (obj (field (codes "password") (str (codes "x")) end)) nil

program : Unit {0}
unfolding ensure_privacy_safe_payload ensure_privacy_safe_feature_packet raise_if_violations
    scan_request scan_request_field scan_feature_packet scan_packet_field scan_by_section
    scan_section scan_listed global_scan is_raw_content_key is_sensitive_field_descriptor section_of
    strip_raw_content sorted_set join_paths
program = tt

good_accepted : ensure_privacy_safe_payload ascii_only good_request ≡ accepted
unfolding program
good_accepted = refl

bad_rejected :
    ensure_privacy_safe_payload ascii_only bad_request
    ≡ raw_content_rejected (rejection_message ++ codes "feature_packet.typing.Typed-Text")
unfolding program
bad_rejected = refl

bad_stripped : strip_raw_content ascii_only bad_request ≡ request (typing_packet (obj end))
unfolding program
bad_stripped = refl

ensure_privacy_safe_payload-eq-accepted_example :
    (ensure_privacy_safe_payload ascii_only good_request ≡ accepted)
    ↔ PermittedRequest ascii_only good_request
ensure_privacy_safe_payload-eq-accepted_example =
    ensure_privacy_safe_payload-eq-accepted ascii_only good_request

global_scan_exact_example :
    (global_scan ascii_only bad_request [] [] ≡ []) ↔ IsClean ascii_only bad_request
global_scan_exact_example = global_scan_exact ascii_only bad_request [] []

abbrev no_sections : Value ℕ
no_sections = obj end

section_list_unscanned_example :
    (ensure_privacy_safe_feature_packet ascii_only (typing_packet (arr hidden_items)) ≡ accepted)
    ↔ (ensure_privacy_safe_feature_packet ascii_only no_sections ≡ accepted)
section_list_unscanned_example =
    section_list_unscanned ascii_only (codes "typing") (inr (inl refl)) hidden_items end

hidden_not-IsClean : ¬ IsClean ascii_only (typing_packet (arr hidden_items))
unfolding program
hidden_not-IsClean h = cc h.1.0.0

raise_if_violations-lists_example :
    (ps : List Text) × (raise_if_violations (codes "b" ∷ codes "a" ∷ [])
      ≡ raw_content_rejected (rejection_message ++ join_paths ps))
    × IsAscending ps
    × ((a : Text) → Has a ps ↔ Has a (codes "b" ∷ codes "a" ∷ []))
raise_if_violations-lists_example = raise_if_violations-lists (codes "b") (codes "a" ∷ [])

global_scan-strip_raw_content_example :
    (global_scan ascii_only (strip_raw_content ascii_only bad_request) [] [] ≡ [])
    × (strip_raw_content ascii_only (strip_raw_content ascii_only bad_request)
        ≡ strip_raw_content ascii_only bad_request)
global_scan-strip_raw_content_example = global_scan-strip_raw_content ascii_only bad_request [] []

good_regular : IsRegularRequest ascii_only good_request
unfolding program
good_regular = ((tt, tt), tt)

accepted-IsClean_example : IsClean ascii_only good_request
accepted-IsClean_example = accepted-IsClean ascii_only good_request good_regular good_accepted

metadata_not_raw : is_raw_content_key ascii_only (codes "metadata") ≡ false
unfolding program
metadata_not_raw = refl

packet_not_raw : is_raw_content_key ascii_only (codes "feature_packet") ≡ false
unfolding program
packet_not_raw = refl

summary_not_forbidden : is_forbidden ascii_only (codes "typing_summary") (arr hidden_items) ≡ false
unfolding program
summary_not_forbidden = refl

packet_normal : normalize_key ascii_only (codes "feature_packet") ≡ codes "feature_packet"
unfolding program
packet_normal = refl

metadata_normal : normalize_key ascii_only (codes "metadata") ≡ codes "metadata"
unfolding program
metadata_normal = refl

summary_normal : normalize_key ascii_only (codes "typing_summary") ≡ codes "typing_summary"
unfolding program
summary_normal = refl

typing_summary_list_passes :
    ensure_privacy_safe_payload ascii_only (
      obj (
        field
          (codes "feature_packet")
          (obj (
            field
              (codes "metadata")
              (obj (field (codes "typing_summary") (arr hidden_items) end))
              end))
          end))
    ≡ accepted
typing_summary_list_passes =
    typing_summary_list_unscanned ascii_only (codes "feature_packet") (codes "metadata")
      (codes "typing_summary") hidden_items packet_not_raw packet_normal metadata_not_raw
      metadata_normal summary_not_forbidden summary_normal
