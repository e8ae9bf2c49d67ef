-- ===== src/Privacy/Deep.antt =====
-- A request that the guard of truepresence/sdk/privacy.py accepts, with no list in the place of a
-- section, holds no raw content at any depth.
use true_presence_ese.Base.{
  ℕ, ◌≡◌, refl, Bool, true, false, not, List, [], ◌∷◌, all, arith, Bool-cases, inl, inr,
  if◌then◌else◌,
}
use true_presence_ese.Base.Text.{Text, codes, text_eq, text_eq→eq, mem_text}
use true_presence_ese.Json.{Value, arr, obj, Items, nil, cons, Fields, end, field}
use true_presence_ese.Privacy.Sets.{
  allowed_agentic_fields, allowed_typing_fields, allowed_challenge_fields, allowed_pointer_fields,
  allowed_environment_fields, allowed_page_context_fields, allowed_session_continuity_fields,
  allowed_external_risk_fields, allowed_packet_top_level, allowed_request_top_level,
  allowed_typing_summary_fields,
}
use true_presence_ese.Privacy.Keys.{
  normalize_key, is_raw_content_key, is_forbidden, descriptor_keys, not_descriptor-not-sensitive,
}
use true_presence_ese.Privacy.Scan.{Section, listed, metadata, external_risk, plain, section_of}
use true_presence_ese.Privacy.Clean.{IsClean, AreClean, HasCleanFields}
use true_presence_ese.Privacy.Guard.{accepted, ensure_privacy_safe_payload}
use true_presence_ese.Privacy.Accepts.{ensure_privacy_safe_payload-eq-accepted}
use true_presence_ese.Privacy.Permitted.{
  AllFields, AllItems, PermittedField, PermittedSection, PermittedExternalField,
  PermittedExternalItem, PermittedExternalRisk, PermittedMetadataField, PermittedMetadata,
  PermittedAs, PermittedPacketField, PermittedPacket, PermittedRequestField, PermittedRequest,
}

-- A key of a set that has no descriptor key is no descriptor key.
not_descriptor :
    (key : Text) (set : List Text)
    → all (λ a. not (mem_text a descriptor_keys)) set ≡ true
    → mem_text key set ≡ true
    → mem_text key descriptor_keys ≡ false
unfolding mem_text
not_descriptor key [] h m = cc
not_descriptor key (a ∷ set) h m = elim (Bool-cases (text_eq key a)) [
  | inl e ↦ rw (text_eq→eq key a e) (ground arith)
  | inr n ↦ not_descriptor key set (ground arith) (ground arith)
]

abbrev NoDescriptor : List Text → Type 0
NoDescriptor set = all (λ a. not (mem_text a descriptor_keys)) set ≡ true

external_risk-NoDescriptor : NoDescriptor allowed_external_risk_fields
unfolding mem_text
external_risk-NoDescriptor = refl

packet-NoDescriptor : NoDescriptor allowed_packet_top_level
unfolding mem_text
packet-NoDescriptor = refl

request-NoDescriptor : NoDescriptor allowed_request_top_level
unfolding mem_text
request-NoDescriptor = refl

module _ (wide : ℕ → Text) {N : Type 0} where
  -- What the scans skip is not there: a section is no list, a list of risk providers holds objects
  -- and scalars only.
  abbrev pub IsNoList : Value N → Type 0
  IsNoList (arr items) = ⊥
  IsNoList _ = Unit

  abbrev pub IsRiskList : Value N → Type 0
  IsRiskList (arr items) = AllItems IsNoList items
  IsRiskList (obj fields) = ⊥
  IsRiskList _ = Unit

  abbrev pub HasPlainSummary : Text → Value N → Type 0
  HasPlainSummary key value =
      if text_eq (normalize_key wide key) (codes "typing_summary") then IsNoList value else Unit

  abbrev pub IsRegularMetadata : Value N → Type 0
  IsRegularMetadata (arr items) = ⊥
  IsRegularMetadata (obj fields) = AllFields HasPlainSummary fields
  IsRegularMetadata _ = Unit

  abbrev pub IsRegularIn : Section → Value N → Type 0
  IsRegularIn (listed allowlist) value = IsNoList value
  IsRegularIn metadata value = IsRegularMetadata value
  IsRegularIn external_risk value = IsRiskList value
  IsRegularIn plain value = Unit

  abbrev pub IsRegularPacket : Value N → Type 0
  IsRegularPacket (arr items) = ⊥
  IsRegularPacket (obj fields) =
      AllFields (λ key value. IsRegularIn (section_of (normalize_key wide key)) value) fields
  IsRegularPacket _ = Unit

  abbrev pub IsRegularField : Text → Value N → Type 0
  IsRegularField key value =
      if text_eq (normalize_key wide key) (codes "feature_packet")
      then IsRegularPacket value
      else Unit

  abbrev pub IsRegularRequest : Value N → Type 0
  IsRegularRequest (obj fields) = AllFields IsRegularField fields
  IsRegularRequest _ = Unit

  -- Where the code leaves the descriptor test out, the field set makes up for it.
  allowed-not-forbidden :
      (key : Text) (value : Value N) (set : List Text)
      → all (λ a. not (mem_text a descriptor_keys)) set ≡ true
      → is_raw_content_key wide key ≡ false
      → mem_text (normalize_key wide key) set ≡ true
      → is_forbidden wide key value ≡ false
  allowed-not-forbidden key value set h r m = rw r (
      not_descriptor-not-sensitive wide key value (not_descriptor (normalize_key wide key) set h m))

  fields-clean :
      (R P : Text → Value N → Type 0)
      → ((key : Text) (value : Value N)
          → R key value
          → P key value
          → (is_forbidden wide key value ≡ false) × IsClean wide value)
      → (fields : Fields N) → AllFields R fields
      → AllFields P fields
      → HasCleanFields wide fields
  fields-clean R P step end r p = tt
  fields-clean R P step (field key value fields) r p =
      let (good, clean) = step key value r.0 p.0 in
      (good, clean, fields-clean R P step fields r.1 p.1)

  every_field : (fields : Fields N) → AllFields (λ key value. Unit {0}) fields
  every_field end = tt
  every_field (field key value fields) = (tt, every_field fields)

  PermittedSection→IsClean :
      (allowlist : List Text) (value : Value N)
      → IsNoList value
      → PermittedSection wide allowlist value
      → IsClean wide value
  PermittedSection→IsClean allowlist (arr items) r p = absurd r
  PermittedSection→IsClean allowlist (obj fields) r p =
      fields-clean (λ key value. Unit {0}) (PermittedField wide allowlist)
        (λ key value _ q. (q.0, q.1.1)) fields (every_field fields) p
  PermittedSection→IsClean allowlist _ r p = tt

  PermittedExternalItem→IsClean :
      (value : Value N) → IsNoList value → PermittedExternalItem wide value → IsClean wide value
  PermittedExternalItem→IsClean (arr items) r p = absurd r
  PermittedExternalItem→IsClean (obj fields) r p =
      fields-clean (λ key value. Unit {0}) (PermittedExternalField wide)
        (λ key value _ q. (
          allowed-not-forbidden key value allowed_external_risk_fields external_risk-NoDescriptor
              q.0 q.1.0,
          q.1.1,
        ))
        fields (every_field fields) p
  PermittedExternalItem→IsClean _ r p = tt

  PermittedExternalItems→AreClean :
      (items : Items N)
      → AllItems IsNoList items
      → AllItems (PermittedExternalItem wide) items
      → AreClean wide items
  PermittedExternalItems→AreClean nil r p = tt
  PermittedExternalItems→AreClean (cons item items) r p =
      (PermittedExternalItem→IsClean item r.0 p.0, PermittedExternalItems→AreClean items r.1 p.1)

  PermittedExternalRisk→IsClean :
      (value : Value N) → IsRiskList value → PermittedExternalRisk wide value → IsClean wide value
  PermittedExternalRisk→IsClean (arr items) r p = PermittedExternalItems→AreClean items r p
  PermittedExternalRisk→IsClean (obj fields) r p = absurd r
  PermittedExternalRisk→IsClean _ r p = tt

  -- The value of a metadata field, by whether its key names the typing summary.
  summary-IsClean :
      (b : Bool) (allowlist : List Text) (value : Value N)
      → (if b then IsNoList value else Unit {0})
      → (if b then PermittedSection wide allowlist value else IsClean wide value)
      → IsClean wide value
  summary-IsClean true allowlist value r p = PermittedSection→IsClean allowlist value r p
  summary-IsClean false allowlist value r p = p

  PermittedMetadata→IsClean :
      (value : Value N)
      → IsRegularMetadata value
      → PermittedMetadata wide value
      → IsClean wide value
  PermittedMetadata→IsClean (arr items) r p = absurd r
  PermittedMetadata→IsClean (obj fields) r p =
      fields-clean HasPlainSummary (PermittedMetadataField wide)
        (λ key value s q. (q.0, summary-IsClean _ allowed_typing_summary_fields value s q.1.1))
        fields r p
  PermittedMetadata→IsClean _ r p = tt

  module _ (value : Value N) where
    IsClean-either :
        (b : Bool) (s t : Section) {P Q : Type 0}
        → (IsRegularIn s value → P → IsClean wide value)
        → (IsRegularIn t value → Q → IsClean wide value)
        → IsRegularIn (if b then s else t) value
        → (if b then P else Q)
        → IsClean wide value
    IsClean-either true s t f g = f
    IsClean-either false s t f g = g

    PermittedAs→IsClean :
        (key : Text)
        → IsRegularIn (section_of key) value
        → PermittedAs wide key value
        → IsClean wide value
    unfolding section_of
    PermittedAs→IsClean key =
        IsClean-either _ _ _ (PermittedSection→IsClean allowed_agentic_fields value) (
          IsClean-either _ _ _ (PermittedSection→IsClean allowed_typing_fields value) (
            IsClean-either _ _ _ (PermittedSection→IsClean allowed_challenge_fields value) (
              IsClean-either _ _ _ (PermittedSection→IsClean allowed_pointer_fields value) (
                IsClean-either _ _ _ (PermittedSection→IsClean allowed_environment_fields value) (
                  IsClean-either _ _ _ (PermittedSection→IsClean allowed_page_context_fields value)
                    (IsClean-either _ _ _
                      (PermittedSection→IsClean allowed_session_continuity_fields value)
                      (IsClean-either _ _ _ (PermittedMetadata→IsClean value) (
                        IsClean-either _ _ _ (PermittedExternalRisk→IsClean value)
                          (λ r p. p)))))))))

  PermittedPacket→IsClean :
      (value : Value N) → IsRegularPacket value → PermittedPacket wide value → IsClean wide value
  PermittedPacket→IsClean (arr items) r p = absurd r
  PermittedPacket→IsClean (obj fields) r p =
      fields-clean (λ key value. IsRegularIn (section_of (normalize_key wide key)) value)
        (PermittedPacketField wide)
        (λ key value s q. (
          allowed-not-forbidden key value allowed_packet_top_level packet-NoDescriptor q.0 q.1.0,
          PermittedAs→IsClean value (normalize_key wide key) s q.1.1,
        ))
        fields r p
  PermittedPacket→IsClean _ r p = tt

  request_value-IsClean :
      (b : Bool) (value : Value N)
      → (if b then IsRegularPacket value else Unit {0})
      → (if b then PermittedPacket wide value else IsClean wide value)
      → IsClean wide value
  request_value-IsClean true value r p = PermittedPacket→IsClean value r p
  request_value-IsClean false value r p = p

  PermittedRequest→IsClean :
      (payload : Value N)
      → IsRegularRequest payload
      → PermittedRequest wide payload
      → IsClean wide payload
  PermittedRequest→IsClean (obj fields) r p =
      fields-clean IsRegularField (PermittedRequestField wide)
        (λ key value s q. (
          allowed-not-forbidden key value allowed_request_top_level request-NoDescriptor q.0 q.1.0,
          request_value-IsClean _ value s q.1.1,
        ))
        fields r p
  PermittedRequest→IsClean _ r p = p

  -- A request that the guard accepts, and in which no list stands where the code expects an
  -- object (nor an object where it expects the list of risk providers), has no forbidden key at
  -- any depth: neither a raw-content key nor the descriptor of a sensitive input.
  pub accepted-IsClean :
      (payload : Value N)
      → IsRegularRequest payload
      → ensure_privacy_safe_payload wide payload ≡ accepted
      → IsClean wide payload
  accepted-IsClean payload r h =
      PermittedRequest→IsClean payload r
        ((ensure_privacy_safe_payload-eq-accepted wide payload).0 h)
