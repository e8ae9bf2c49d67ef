-- ===== src/Decision/Allowed.antt =====
-- Which sessions truepresence/decision/engine.py lets through.
use true_presence_ese.Base.{◌≡◌, Bool, false, ◌&&◌, none, some, List, [], arith}
use true_presence_ese.Base.Text.{Text, codes}
use true_presence_ese.Json.{Value, arr, nil, get, get_or, is_text}
use true_presence_ese.Float.{Floats}
use true_presence_ese.Decision.Packet.{EvidencePacket, is_true, as_set}
use true_presence_ese.Decision.Tier.{Tier, is_hard_threat}
use true_presence_ese.Decision.Object.{DecisionObject}
use true_presence_ese.Decision.Engine.{allowed, legacy_decision_for_state}

module _ (o : Floats) where
  open o use {F, dec, le}

  -- The threats that the packet names.
  abbrev pub threats_of : EvidencePacket F → List (Value F)
  threats_of packet =
      elim (as_set o (get_or (codes "threats_detected") (arr nil) packet.risk_context)) [
        | none ↦ []
        | some threats ↦ threats
      ]

  -- What a session that is let through has none of.
  pub record IsHarmless (packet : EvidencePacket F) : Type 0 where
    pub attested : is_true o (get (codes "invalid_attestation") packet.provenance) ≡ false
    pub no_fingerprint :
        is_true o (get (codes "known_automation_fingerprint") packet.behavioral_features) ≡ false
    pub possible : is_true o (get (codes "impossible_event_sequence") packet.risk_context) ≡ false
    pub not_failed :
        is_text (codes "deterministic_failure") (get (codes "status") packet.challenge_data) ≡ false
    pub no_threat : is_hard_threat o (threats_of packet) ≡ false
    pub no_step_up : is_true o (get (codes "require_step_up") packet.policy_context) ≡ false
    pub no_pattern :
        is_true o (get (codes "constant_latency_pattern") packet.timing_features) ≡ false
    pub no_cluster :
        is_text (codes "high") (get (codes "cluster_risk") packet.identity_refs) ≡ false
    pub no_high_value : is_true o (get (codes "high_value_flow") packet.policy_context) ≡ false

  spread : (a b : Bool) → (a && b) ≡ false → (a ≡ false → b ≡ false) → b ≡ false
  spread a b h k = ground arith

  HasPassed : EvidencePacket F → DecisionObject F → Type 0
  HasPassed packet d = legacy_decision_for_state d.state ≡ allowed → IsHarmless packet
