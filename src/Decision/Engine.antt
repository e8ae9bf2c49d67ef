-- ===== src/Decision/Engine.antt =====
-- The decision path of truepresence/decision/engine.py, from the evidence packet to the decision,
-- with `DecisionRouter` of decision_router.py and `DecisionSynthesizer` of synthesizer.py.

use true_presence_ese.Base.{Option, none, some, List, []}
use true_presence_ese.Base.Text.{Text}
use true_presence_ese.Json.{Fields}
use true_presence_ese.Float.{Floats}
use true_presence_ese.Decision.Packet.{EvidencePacket}
use true_presence_ese.Decision.Tier.{Tier, tier0, choose_tier}
use true_presence_ese.Decision.Object.{
  DecisionState, allow, observe, elevated_observe, challenge, step_up_auth, restrict, block, eject,
  DecisionObject,
}
use true_presence_ese.Decision.Synthesizer.{synthesize_decision}

-- The answers of the older interface.
pub data LegacyDecision : Type 0 where
  allowed : LegacyDecision
  review : LegacyDecision
  challenged : LegacyDecision
  blocked : LegacyDecision

abbrev pub legacy_decision_for_state : DecisionState → LegacyDecision
legacy_decision_for_state allow = allowed
legacy_decision_for_state observe = allowed
legacy_decision_for_state elevated_observe = review
legacy_decision_for_state challenge = challenged
legacy_decision_for_state step_up_auth = challenged
legacy_decision_for_state restrict = review
legacy_decision_for_state block = blocked
legacy_decision_for_state eject = blocked

module _ (o : Floats) (parse_float : Text → Option o.F) where
  open o use {F}

  -- `role_reports` stays empty at tier 0; `run` is the ensemble runtime, which the code calls.
  unfoldable pub role_reports_of : (Tier → List (Fields F)) → Tier → List (Fields F)
  role_reports_of run tier0 = []
  role_reports_of run tier = run tier

  -- The lines of `evaluate` from `choose_tier` to `synthesize_decision`; none where they raise.
  unfoldable pub evaluate :
      Text → EvidencePacket F → Fields F → (Tier → List (Fields F)) → Option (DecisionObject F)
  unfolding role_reports_of
  evaluate fresh_id packet context run = elim (choose_tier o packet context) [
    | none ↦ none
    | some tier ↦ synthesize_decision o parse_float fresh_id packet (role_reports_of run tier) tier
  ]
