-- ===== src/Decision/Tier.antt =====
-- truepresence/decision/tier_router.py and decision_router.py.
use true_presence_ese.Base.{Bool, true, false, ◌||◌, Option, none, some, List, any, if◌then◌else◌}
use true_presence_ese.Base.Text.{codes}
use true_presence_ese.Json.{Value, arr, nil, Fields, get, get_or, is_text}
use true_presence_ese.Float.{Floats}
use true_presence_ese.Decision.Packet.{EvidencePacket, is_true, as_set}

pub data Tier : Type 0 where
  tier0 : Tier
  tier1 : Tier
  tier2 : Tier

abbrev pub is_tier0 : Tier → Bool
is_tier0 tier0 = true
is_tier0 _ = false

abbrev pub is_tier2 : Tier → Bool
is_tier2 tier2 = true
is_tier2 _ = false

module _ (o : Floats) where
  open o use {F, dec}

  -- `threats_detected.intersection({...})`, as a truth value.
  unfoldable pub is_hard_threat : List (Value F) → Bool
  is_hard_threat threats =
      any (λ t. is_text (codes "illegal_content") t || is_text (codes "child_exploitation") t)
        threats

  unfoldable pub tier_from : List (Value F) → EvidencePacket F → Fields F → Tier
  unfolding is_true is_hard_threat
  tier_from threats_detected packet context =
      if is_true o (get (codes "invalid_attestation") packet.provenance)
      then tier0
      else if is_true o (get (codes "known_automation_fingerprint") packet.behavioral_features)
      then tier0
      else if is_true o (get (codes "impossible_event_sequence") packet.risk_context)
      then tier0
      else if is_text (codes "deterministic_failure") (get (codes "status") packet.challenge_data)
      then tier0
      else if is_hard_threat threats_detected
      then tier0
      else if is_true o (get (codes "high_value_flow") packet.policy_context)
      then tier2
      else if is_text (codes "high") (get (codes "cluster_risk") packet.identity_refs)
      then tier2
      else if is_true o (get (codes "force_tier2") context)
      then tier2
      else tier1

  -- The threats are read first, and a value that is no set of hashable elements raises. The graph,
  -- which the code takes and never reads, is left out.
  unfoldable pub choose_tier : EvidencePacket F → Fields F → Option Tier
  unfolding as_set tier_from
  choose_tier packet context =
      elim (as_set o (get_or (codes "threats_detected") (arr nil) packet.risk_context)) [
        | none ↦ none
        | some threats_detected ↦ some (tier_from threats_detected packet context)
      ]
