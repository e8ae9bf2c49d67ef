-- ===== src/Decision/Object.antt =====
-- `DecisionObject` of truepresence/decision/decision_object.py, the enumerations of reason_codes.py,
-- and the small helpers of synthesizer.py on them.
use Prim.Native.String.{String}
use true_presence_ese.Base.{ℕ, ◌==◌, leb, Bool, List, [], ◌∷◌, ◌++◌, any, if◌then◌else◌}
use true_presence_ese.Base.Text.{Text}
use true_presence_ese.Json.{Value, Fields}
use true_presence_ese.Decision.Tier.{Tier}

pub data DecisionState : Type 0 where
  allow : DecisionState
  observe : DecisionState
  elevated_observe : DecisionState
  challenge : DecisionState
  step_up_auth : DecisionState
  restrict : DecisionState
  block : DecisionState
  eject : DecisionState

pub data ReasonCode : Type 0 where
  invalid_attestation : ReasonCode
  known_automation_fingerprint : ReasonCode
  impossible_event_sequence : ReasonCode
  challenge_failure_deterministic : ReasonCode
  timing_automation_pattern : ReasonCode
  cross_session_cluster_match : ReasonCode
  excessive_role_disagreement : ReasonCode
  high_value_transaction_escalation : ReasonCode
  policy_requires_step_up : ReasonCode

pub data RiskLevel : Type 0 where
  low : RiskLevel
  medium : RiskLevel
  high : RiskLevel

pub record DecisionObject (F : Type 0) : Type 0 where
  pub decision_id : Text
  pub session_id : Text
  pub tenant_id : Value F
  pub surface : Text
  pub state : DecisionState
  pub recommended_enforcement : String
  pub confidence : F
  pub risk_level : RiskLevel
  pub reason_codes : List ReasonCode
  pub challenge_required : Bool
  pub step_up_required : Bool
  pub human_review_required : Bool
  pub evidence_packet_id : Text
  pub argument_graph_id : Text
  pub role_report_ids : List (Value F)
  pub decision_trace_id : Text
  pub tier_path : Tier
  pub metadata : Fields F
  pub human_probability : F
  pub bot_probability : F
  pub explanation : String

abbrev code_index : ReasonCode → ℕ
code_index invalid_attestation = 0
code_index known_automation_fingerprint = 1
code_index impossible_event_sequence = 2
code_index challenge_failure_deterministic = 3
code_index timing_automation_pattern = 4
code_index cross_session_cluster_match = 5
code_index excessive_role_disagreement = 6
code_index high_value_transaction_escalation = 7
code_index policy_requires_step_up = 8

abbrev pub mem_code : ReasonCode → List ReasonCode → Bool
mem_code c cs = any (λ d. code_index c == code_index d) cs

-- `if code not in reason_codes: reason_codes.append(code)`
abbrev pub add_code : ReasonCode → List ReasonCode → List ReasonCode
add_code c cs = if mem_code c cs then cs else cs ++ c ∷ []

-- `list(dict.fromkeys(reason_codes))`, from the codes that were seen so far.
abbrev pub unique_from : List ReasonCode → List ReasonCode → List ReasonCode
unique_from seen [] = seen
unique_from seen (c ∷ cs) = unique_from (add_code c seen) cs

abbrev pub state_index : DecisionState → ℕ
state_index allow = 0
state_index observe = 1
state_index elevated_observe = 2
state_index challenge = 3
state_index step_up_auth = 4
state_index restrict = 5
state_index block = 6
state_index eject = 7

abbrev pub is_state : DecisionState → DecisionState → Bool
is_state s t = state_index s == state_index t

abbrev risk_rank : RiskLevel → ℕ
risk_rank low = 0
risk_rank medium = 1
risk_rank high = 2

unfoldable pub max_risk : RiskLevel → RiskLevel → RiskLevel
max_risk left right = if leb (risk_rank right) (risk_rank left) then left else right

abbrev pub explanation_for_state : DecisionState → String
explanation_for_state allow = "Signals are coherent enough to allow the session."
explanation_for_state observe = "Signals are mixed; keep the session under observation."
explanation_for_state elevated_observe =
    "Signals are mixed with elevated risk; continue with stronger observation."
explanation_for_state challenge =
    "The session should complete an active challenge before proceeding."
explanation_for_state step_up_auth = "The session should be stepped up for stronger verification."
explanation_for_state restrict = "Limit high-risk actions while the session is evaluated further."
explanation_for_state block = "The session should be blocked based on ensemble risk."
explanation_for_state eject = "Deterministic policy violations require immediate removal."
