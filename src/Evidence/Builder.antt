-- ===== src/Evidence/Builder.antt =====
-- `build_evidence_packet` and `EvidencePacketBuilder` of truepresence/evidence/packet_builder.py.
-- The identifier that `uuid4` draws and the time are arguments.
use true_presence_ese.Base.{true, false, ◌||◌, Option, some, List, [], ◌∷◌, if◌then◌else◌}
use true_presence_ese.Base.Text.{Text, codes}
use true_presence_ese.Base.Steps.{◌>>=◌}
use true_presence_ese.Json.{Value, bool, num, str, arr, nil, obj, Fields, end, field, get, get_or}
use true_presence_ese.Json.Dict.{set_field, set_default, has_key, items_of}
use true_presence_ese.Float.{Floats}
use true_presence_ese.Decision.Packet.{is_true, EvidencePacket}
use true_presence_ese.Evidence.Values.{to_dict, dict_of, list_of, is_bool, or_else}
use true_presence_ese.Evidence.Signals.{
  DefaultSignals, derive_timing_features, derive_behavioral_features, derive_challenge_data,
  derive_default_signals, derive_identity_refs, derive_policy_context, derive_risk_context,
}

module _ (o : Floats) where
  open o use {F}

  -- The last of the challenge results with the status that its verification gives.
  unfoldable pub latest_result : Fields F → Fields F
  unfolding get_or set_default
  latest_result latest =
      if is_bool true (get (codes "verified") latest)
      then set_default (codes "status") (str (codes "passed")) latest
      else if is_bool false (get (codes "verified") latest)
      then set_default (codes "status") (str (codes "failed")) latest
      else latest

  abbrev last_of : Fields F → List (Fields F) → Fields F
  last_of r [] = r
  last_of r (s ∷ rs) = last_of s rs

  unfoldable pub with_challenge : List (Fields F) → Fields F → Fields F
  unfolding latest_result has_key set_field
  with_challenge [] context = context
  with_challenge (r ∷ rs) context =
      if has_key (codes "challenge_data") context
      then context
      else set_field (codes "challenge_data") (obj (latest_result (last_of r rs))) context

  -- `tenant_id or session.get("tenant_id") or context.get("tenant_id") or "default"`
  abbrev pub tenant_of : Value F → Fields F → Fields F → Value F
  tenant_of tenant_id session context = or_else o tenant_id (
      or_else o (get (codes "tenant_id") session)
        (or_else o (get (codes "tenant_id") context) (str (codes "default"))))

module _ (o : Floats) (parse_float : Text → Option o.F) where
  open o use {F}

  -- The packet from its derived parts.
  unfoldable pub packet_of :
      Text
      → Text
      → Text
      → Text
      → Value F
      → Fields F
      → Fields F
      → Fields F
      → Fields F
      → DefaultSignals o parse_float
      → List (Value F)
      → Fields F
      → EvidencePacket F
  unfolding derive_challenge_data derive_identity_refs derive_policy_context set_default get_or
      is_true to_dict
  packet_of packet_id now surface session_id tenant_id event context timing behavioral signals
        history risk =
      record {
        packet_id = packet_id;
        session_id = session_id;
        tenant_id = tenant_id;
        surface = surface;
        actor_id = get (codes "actor_id") context;
        received_at = now;
        event_window_start = get (codes "event_window_start") context;
        event_window_end = get (codes "event_window_end") context;
        raw_events = event ∷ [];
        challenge_data = derive_challenge_data o event context;
        timing_features = set_default (codes "relay_risk") (num signals.relay_risk) timing;
        behavioral_features =
            set_default (codes "deterministic_policy_violation")
              (num signals.deterministic_policy_violation)
              (set_default (codes "ai_mediation") (num signals.ai_mediation)
                (set_default (codes "liveness") (num signals.liveness) behavioral));
        identity_refs = derive_identity_refs o session_id context;
        session_history = history;
        policy_context = derive_policy_context o event context;
        risk_context = risk;
        provenance = field (codes "normalizer_version") (str (codes "1.0")) (
            field (codes "source_surface") (str surface) (
              field (codes "invalid_attestation")
                (bool (
                  is_true o (get (codes "invalid_attestation") context)
                  || is_true o
                      (get (codes "invalid_attestation") (to_dict (get (codes "context") event)))))
                end));
        session_context = to_dict (get (codes "session") context);
        metadata =
            field (codes "event_type") (get (codes "event_type") event)
              (field (codes "context") (obj (to_dict (get (codes "context") event))) end);
        schema_version = codes "1.0";
      }

  -- None where the code raises.
  unfoldable pub build_evidence_packet :
      Text → Text → Text → Text → Value F → Fields F → Fields F → Option (EvidencePacket F)
  unfolding packet_of derive_timing_features derive_behavioral_features derive_challenge_data
      derive_default_signals derive_risk_context list_of get_or
  build_evidence_packet packet_id now surface session_id tenant_id event context = do
    timing ← derive_timing_features o parse_float event context
    behavioral ← derive_behavioral_features o event context
    signals ← derive_default_signals o parse_float event (derive_challenge_data o event context)
    history ← list_of (get_or (codes "session_history") (arr nil) context)
    risk ← derive_risk_context o event context
    some (
        packet_of packet_id now surface session_id tenant_id event context timing behavioral signals
          history risk)

  -- `EvidencePacketBuilder.build`, with None or a missing list as null.
  unfoldable pub build :
      Text
      → Text
      → Text
      → Text
      → Value F
      → Value F
      → Value F
      → List (Fields F)
      → Value F
      → Value F
      → Fields F
      → Option (EvidencePacket F)
  unfolding build_evidence_packet with_challenge to_dict list_of set_default get_or is_true
  build packet_id now session_id surface tenant_id event session challenge_results session_history
        identity_refs context =
      let session_dict = to_dict session in
      let c₁ =
        set_default (codes "actor_id")
          (or_else o (get (codes "actor_id") session_dict) (get (codes "user_id") session_dict))
          context in
      list_of (or_else o session_history (get_or (codes "session_history") (arr nil) c₁))
      >>= λ history.
          let c₂ = set_default (codes "session_history") (arr (items_of history)) c₁ in
          dict_of (or_else o identity_refs (get_or (codes "identity_refs") (obj end) c₂))
          >>= λ refs.
              let c₃ = set_default (codes "identity_refs") (obj refs) c₂ in
              dict_of (get_or (codes "policy_context") (obj end) c₃) >>= λ policy.
              let c₄ = set_default (codes "policy_context") (obj policy) c₃ in
              dict_of (get_or (codes "risk_context") (obj end) c₄) >>= λ risk.
              let c₅ =
                with_challenge o challenge_results
                  (set_default (codes "risk_context") (obj risk) c₄) in
              build_evidence_packet packet_id now surface session_id
                (tenant_of o tenant_id session_dict c₅) (to_dict event) c₅
