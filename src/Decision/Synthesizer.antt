-- ===== src/Decision/Synthesizer.antt =====
-- truepresence/decision/synthesizer.py, with the enumerations of decision_object.py and
-- reason_codes.py.
use Prim.Native.String.{String}
use true_presence_ese.Base.{◌&&◌, ◌||◌, Option, none, some, List, [], ◌∷◌, ◌++◌, if◌then◌else◌}
use true_presence_ese.Base.Text.{Text, codes}
use true_presence_ese.Json.{Value, Fields, end, get, is_text}
use true_presence_ese.Float.{Floats, lt, zero_f, one_f, max_f, clamp}
use true_presence_ese.Decision.Packet.{EvidencePacket, is_true}
use true_presence_ese.Decision.Tier.{Tier, tier0, is_tier2}
use true_presence_ese.Decision.Object.{
  DecisionState, allow, observe, elevated_observe, challenge, step_up_auth, restrict, block, eject,
  ReasonCode, invalid_attestation, known_automation_fingerprint, impossible_event_sequence,
  challenge_failure_deterministic, timing_automation_pattern, cross_session_cluster_match,
  excessive_role_disagreement, high_value_transaction_escalation, policy_requires_step_up,
  RiskLevel, low, medium, high, DecisionObject, add_code, unique_from, is_state, max_risk,
  explanation_for_state,
}
use true_presence_ese.Decision.Reports.{disagreement_from, human_probability_of, initial_confidence}

-- The variables that `synthesize_decision` assigns as it goes.
pub record Draft (F : Type 0) : Type 0 where
  pub reason_codes : List ReasonCode
  pub state : DecisionState
  pub enforcement : String
  pub confidence : F
  pub risk_level : RiskLevel

module _ (o : Floats) where
  open o use {F, dec, le, sub}

  unfoldable pub tier0_codes : EvidencePacket F → List ReasonCode
  tier0_codes packet =
      (if is_true o (get (codes "invalid_attestation") packet.provenance)
        then invalid_attestation ∷ []
        else [])
      ++ (if is_true o (get (codes "known_automation_fingerprint") packet.behavioral_features)
          then known_automation_fingerprint ∷ []
          else [])
      ++ (if is_true o (get (codes "impossible_event_sequence") packet.risk_context)
          then impossible_event_sequence ∷ []
          else [])
      ++ (if is_text (codes "deterministic_failure") (get (codes "status") packet.challenge_data)
          then challenge_failure_deterministic ∷ []
          else [])

  -- The steps of the other tiers, each an `if` of the code.
  unfoldable pub step_up : EvidencePacket F → Draft F → Draft F
  step_up packet d =
      if is_true o (get (codes "require_step_up") packet.policy_context)
      then record {
        reason_codes = d.reason_codes ++ policy_requires_step_up ∷ [];
        state = step_up_auth;
        enforcement = "step_up_auth";
        confidence = max_f o d.confidence (dec 75);
        risk_level = max_risk d.risk_level medium;
      }
      else d

  unfoldable pub cluster : Tier → EvidencePacket F → Draft F → Draft F
  cluster tier packet d =
      if is_text (codes "high") (get (codes "cluster_risk") packet.identity_refs)
      then (if is_tier2 tier
          then record {
            reason_codes = add_code cross_session_cluster_match d.reason_codes;
            state = challenge;
            enforcement = "challenge";
            confidence = max_f o d.confidence (dec 80);
            risk_level = max_risk d.risk_level high;
          }
          else record d { reason_codes = add_code cross_session_cluster_match d.reason_codes })
      else d

  unfoldable pub timing : EvidencePacket F → Draft F → Draft F
  timing packet d =
      if is_true o (get (codes "constant_latency_pattern") packet.timing_features)
      then (if is_state d.state allow
          then record {
            reason_codes = add_code timing_automation_pattern d.reason_codes;
            state = challenge;
            enforcement = "challenge";
            confidence = max_f o d.confidence (dec 70);
            risk_level = max_risk d.risk_level medium;
          }
          else record d { reason_codes = add_code timing_automation_pattern d.reason_codes })
      else d

  unfoldable pub high_value : Tier → EvidencePacket F → Draft F → Draft F
  high_value tier packet d =
      if is_tier2 tier && is_true o (get (codes "high_value_flow") packet.policy_context)
      then (if is_state d.state allow || is_state d.state observe
          then record {
            reason_codes = add_code high_value_transaction_escalation d.reason_codes;
            state = step_up_auth;
            enforcement = "step_up_auth";
            confidence = max_f o d.confidence (dec 80);
            risk_level = max_risk d.risk_level high;
          }
          else record d {
            reason_codes = add_code high_value_transaction_escalation d.reason_codes;
          })
      else d

  unfoldable pub disagreement_step : F → Draft F → Draft F
  disagreement_step disagreement d =
      if lt o (dec 80) disagreement
      then record {
        reason_codes = add_code excessive_role_disagreement d.reason_codes;
        state = restrict;
        enforcement = "restrict";
        confidence = max_f o d.confidence (dec 65);
        risk_level = max_risk d.risk_level medium;
      }
      else if lt o (dec 50) disagreement && is_state d.state allow
      then record d {
        state = elevated_observe;
        enforcement = "observe";
        confidence = max_f o d.confidence (dec 60);
        risk_level = max_risk d.risk_level medium;
      }
      else d

  unfoldable pub human_step : F → Draft F → Draft F
  human_step human_probability d =
      if le human_probability (dec 25) && le (dec 75) d.confidence
      then record d {
        state = block;
        enforcement = "block";
        risk_level = max_risk d.risk_level high;
      }
      else if le human_probability (dec 45) && is_state d.state allow
      then record d {
        state = observe;
        enforcement = "observe";
        risk_level = max_risk d.risk_level medium;
      }
      else d

  unfoldable pub start : F → Draft F
  start confidence = record {
    reason_codes = [];
    state = allow;
    enforcement = "allow";
    confidence = confidence;
    risk_level = low;
  }

  unfoldable pub policy_draft : Tier → EvidencePacket F → F → Draft F
  unfolding start step_up cluster timing high_value
  policy_draft tier packet confidence =
      high_value tier packet
        (timing packet (cluster tier packet (step_up packet (start confidence))))

  unfoldable pub reviewed_draft : Tier → EvidencePacket F → F → F → F → Draft F
  unfolding policy_draft disagreement_step human_step
  reviewed_draft tier packet human_probability confidence disagreement =
      human_step human_probability
        (disagreement_step disagreement (policy_draft tier packet confidence))

  unfoldable pub tier0_draft : EvidencePacket F → Draft F
  unfolding tier0_codes
  tier0_draft packet = record {
    reason_codes = tier0_codes packet;
    state = eject;
    enforcement = "eject";
    confidence = dec 99;
    risk_level = high;
  }

  -- `[r.get("report_id") for r in reports if r.get("report_id")]`
  unfoldable pub report_ids : List (Fields F) → List (Value F)
  report_ids [] = []
  report_ids (report ∷ reports) =
      let rest = report_ids reports in
      if is_true o (get (codes "report_id") report)
      then get (codes "report_id") report ∷ rest
      else rest

  unfoldable pub decision_object :
      Text → EvidencePacket F → List (Fields F) → Tier → F → F → Draft F → DecisionObject F
  decision_object fresh_id packet reports tier human bot d = record {
    decision_id = fresh_id;
    session_id = packet.session_id;
    tenant_id = packet.tenant_id;
    surface = packet.surface;
    state = d.state;
    recommended_enforcement = d.enforcement;
    confidence = d.confidence;
    risk_level = d.risk_level;
    reason_codes = unique_from [] d.reason_codes;
    challenge_required = is_state d.state challenge;
    step_up_required = is_state d.state step_up_auth;
    human_review_required = is_state d.state restrict && is_tier2 tier;
    evidence_packet_id = packet.packet_id;
    argument_graph_id = codes "graph:" ++ packet.packet_id;
    role_report_ids = report_ids reports;
    decision_trace_id = codes "trace:" ++ packet.packet_id;
    tier_path = tier;
    metadata = end;
    human_probability = human;
    bot_probability = bot;
    explanation = explanation_for_state d.state;
  }

  unfoldable pub reviewed_decision :
      (Text → Option F)
      → Text
      → EvidencePacket F
      → List (Fields F)
      → Tier
      → Option (DecisionObject F)
  unfolding disagreement_from human_probability_of initial_confidence reviewed_draft decision_object
  reviewed_decision parse_float fresh_id packet reports tier =
      let human = human_probability_of o parse_float reports in
      elim (disagreement_from o parse_float (zero_f o) reports) [
        | none ↦ none
        | some disagreement ↦ some (
            decision_object fresh_id packet reports tier human (clamp o (sub (one_f o) human)) (
              reviewed_draft tier packet human (initial_confidence o parse_float reports)
                disagreement))
      ]

  -- None where the code raises: the metadata of a report is no dictionary. `fresh_id` is the new
  -- UUID; the graph and the context, which the code takes and never reads, are left out.
  unfoldable pub synthesize_decision :
      (Text → Option F)
      → Text
      → EvidencePacket F
      → List (Fields F)
      → Tier
      → Option (DecisionObject F)
  unfolding reviewed_decision tier0_draft
  synthesize_decision parse_float fresh_id packet reports tier0 =
      some (decision_object fresh_id packet reports tier0 (dec 1) (dec 99) (tier0_draft packet))
  synthesize_decision parse_float fresh_id packet reports tier =
      reviewed_decision parse_float fresh_id packet reports tier
