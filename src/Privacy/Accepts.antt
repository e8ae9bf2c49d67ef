-- ===== src/Privacy/Accepts.antt =====
-- When the guard of truepresence/sdk/privacy.py returns, and what its error lists.
use true_presence_ese.Base.{
  ℕ, ◌≡◌, refl, ap, ◌↔◌, ◌≤◌, false, List, [], ◌∷◌, ◌++◌, length, Has, arith, inl, inr,
}
use true_presence_ese.Base.Text.{Text, codes, mem_text, text_eq}
use true_presence_ese.Base.Sorted.{sorted_set, IsAscending, sorted_set-IsAscending, Has-sorted_set}
use true_presence_ese.Json.{Value, arr, obj, Items, Fields, end, field}
use true_presence_ese.Privacy.Keys.{normalize_key, is_raw_content_key, is_forbidden}
use true_presence_ese.Privacy.Scan.{section_of, global_scan}
use true_presence_ese.Privacy.Guard.{
  accepted, raw_content_rejected, rejection_message, join_paths, raise_if_violations,
  ensure_privacy_safe_payload, ensure_privacy_safe_feature_packet,
}
use true_presence_ese.Privacy.Decides.{Decides}
use true_presence_ese.Privacy.Clean.{IsClean, global_scan-Decides}
use true_presence_ese.Privacy.Permitted.{
  PermittedRequest, PermittedPacket, PermittedPacketField, scan_request-Decides,
  scan_feature_packet-Decides,
}

raise-eq-accepted :
    {f : List Text → List Text} {P : Type 0}
    → Decides f P
    → (raise_if_violations (f []) ≡ accepted) ↔ P
unfolding raise_if_violations
raise-eq-accepted {f} d = ((λ h. d.sound [] (quiet_length (f []) h)), (λ p. rw (d.quiet p []) refl))
  where
    quiet_length : (vs : List Text) → raise_if_violations vs ≡ accepted → length vs ≤ 0
    quiet_length [] h = omega arith
    quiet_length (v ∷ vs) h = cc

abbrev pub object_sections : List Text
object_sections =
    codes "agentic"
    ∷ codes "typing"
    ∷ codes "challenge"
    ∷ codes "pointer"
    ∷ codes "environment"
    ∷ codes "page_context"
    ∷ codes "session_continuity"
    ∷ codes "metadata"
    ∷ []

module _ (wide : ℕ → Text) {N : Type 0} where
  unscanned :
      (name : Text)
      → Has name object_sections
      → (items : Items N) → PermittedPacketField wide name (arr items)
  unfolding normalize_key is_raw_content_key mem_text text_eq
  unscanned name (inl e) items = rw e (refl, (refl, tt))
  unscanned name (inr (inl e)) items = rw e (refl, (refl, tt))
  unscanned name (inr (inr (inl e))) items = rw e (refl, (refl, tt))
  unscanned name (inr (inr (inr (inl e)))) items = rw e (refl, (refl, tt))
  unscanned name (inr (inr (inr (inr (inl e))))) items = rw e (refl, (refl, tt))
  unscanned name (inr (inr (inr (inr (inr (inl e)))))) items = rw e (refl, (refl, tt))
  unscanned name (inr (inr (inr (inr (inr (inr (inl e))))))) items = rw e (refl, (refl, tt))
  unscanned name (inr (inr (inr (inr (inr (inr (inr (inl e)))))))) items = rw e (refl, (refl, tt))
  unscanned name (inr (inr (inr (inr (inr (inr (inr (inr e)))))))) items = elim e [ ]

  -- The guard returns for a request exactly when the request keeps to the closed schema: the keys
  -- of the request, of its packet and of every section are in their field sets and are no
  -- raw-content keys, and below a section's fields, and in what is no section, no key at any depth
  -- is forbidden. A packet or a section that is a list where the schema has an object, or an
  -- object where it has the list of risk providers, is not looked into.
  pub ensure_privacy_safe_payload-eq-accepted :
      (payload : Value N)
      → (ensure_privacy_safe_payload wide payload ≡ accepted) ↔ PermittedRequest wide payload
  unfolding ensure_privacy_safe_payload
  ensure_privacy_safe_payload-eq-accepted payload =
      raise-eq-accepted (scan_request-Decides wide payload)

  -- The same for a bare feature packet.
  pub ensure_privacy_safe_feature_packet-eq-accepted :
      (packet : Value N)
      → (ensure_privacy_safe_feature_packet wide packet ≡ accepted) ↔ PermittedPacket wide packet
  unfolding ensure_privacy_safe_feature_packet
  ensure_privacy_safe_feature_packet-eq-accepted packet =
      raise-eq-accepted (scan_feature_packet-Decides wide packet (codes "feature_packet"))

  -- The recursive scan of any value, from any path and violations, adds nothing exactly when no
  -- field at any depth of the value has a forbidden key.
  pub global_scan_exact :
      (value : Value N) (path : Text) (vs : List Text)
      → (global_scan wide value path vs ≡ vs) ↔ IsClean wide value
  global_scan_exact value path vs =
      let d = global_scan-Decides wide value path in
      ((λ h. d.sound vs (omega (arith, ap length h))), (λ p. d.quiet p vs))

  -- A list that stands under the name of one of the eight sections of a packet whose values
  -- should be objects is let through unscanned, whatever the objects inside it have: with it the
  -- packet is accepted exactly when without it.
  pub section_list_unscanned :
      (name : Text)
      → Has name object_sections
      → (items : Items N) (fields : Fields N)
      → (ensure_privacy_safe_feature_packet wide (obj (field name (arr items) fields)) ≡ accepted)
        ↔ (ensure_privacy_safe_feature_packet wide (obj fields) ≡ accepted)
  section_list_unscanned name i items fields =
      let with_list =
        ensure_privacy_safe_feature_packet-eq-accepted (obj (field name (arr items) fields)) in
      let without = ensure_privacy_safe_feature_packet-eq-accepted (obj fields) in
      (λ h. without.1 (with_list.0 h).1, λ h. with_list.1 (unscanned name i items, without.0 h))

  -- Nor is a list that stands under `typing_summary` in the metadata looked into, whose type in
  -- the packet's model is free, so that the request goes through with whatever the list holds.
  pub typing_summary_list_unscanned :
      (packet_key metadata_key summary_key : Text) (items : Items N)
      → is_raw_content_key wide packet_key ≡ false
      → normalize_key wide packet_key ≡ codes "feature_packet"
      → is_raw_content_key wide metadata_key ≡ false
      → normalize_key wide metadata_key ≡ codes "metadata"
      → is_forbidden wide summary_key (arr items) ≡ false
      → normalize_key wide summary_key ≡ codes "typing_summary"
      → ensure_privacy_safe_payload wide (
          obj (
            field packet_key
              (obj (field metadata_key (obj (field summary_key (arr items) end)) end))
              end))
        ≡ accepted
  unfolding mem_text section_of
  typing_summary_list_unscanned packet_key metadata_key summary_key items rp np rm nm rs ns =
      (ensure_privacy_safe_payload-eq-accepted _).1
        ((rp, rw np (refl, ((rm, rw nm (refl, ((rs, rw ns (refl, tt)), tt))), tt))), tt)

-- A rejection's message lists the paths of the violations in strictly ascending order, so each
-- once; a path stands in that list exactly when the scan reported it.
pub raise_if_violations-lists :
    (v : Text) (vs : List Text)
    → (ps : List Text) × (raise_if_violations (v ∷ vs)
        ≡ raw_content_rejected (rejection_message ++ join_paths ps))
      × IsAscending ps
      × ((a : Text) → Has a ps ↔ Has a (v ∷ vs))
unfolding raise_if_violations
raise_if_violations-lists v vs =
    (sorted_set (v ∷ vs), refl, sorted_set-IsAscending (v ∷ vs), λ a. Has-sorted_set a (v ∷ vs))
