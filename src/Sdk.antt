-- ===== src/Sdk.antt =====
-- truepresence/sdk/features.py and the packet and response of truepresence/sdk/contracts.py.
-- `F` is the type of floats. The bounds of the fields (`ge=0`, `le=1`) are hypotheses of the
-- theorems that need them; counts are natural numbers.
use true_presence_ese.Base.{ℕ, Bool, Option, List}
use true_presence_ese.Base.Text.{Text}
use true_presence_ese.Json.{Fields}
use Prim.Native.String.{String}

pub record TypingCadenceFeatures (F : Type 0) : Type 0 where
  pub mean_inter_key_interval_ms : Option F
  pub inter_key_interval_stddev_ms : Option F
  pub characters_per_minute : Option F
  pub correction_count : Option ℕ
  pub correction_rate : Option F
  pub paste_count : Option ℕ
  pub focus_to_first_input_ms : Option F
  pub prompt_render_to_first_input_ms : Option F
  pub typing_duration_ms : Option F
  pub last_input_to_submit_ms : Option F

pub record PointerBehaviorFeatures (F : Type 0) : Type 0 where
  pub pointer_entropy : Option F
  pub click_hesitation_ms : Option F
  pub scroll_cadence_score : Option F
  pub pointer_movement_count : Option ℕ
  pub click_count : Option ℕ

pub record ChallengeInteractionFeatures (F : Type 0) : Type 0 where
  pub challenge_type : Option String
  pub response_latency_ms : Option F
  pub expected_reading_time_ms : Option F
  pub prompt_render_to_first_input_ms : Option F
  pub correction_count : Option ℕ
  pub paste_count : Option ℕ
  pub typing_duration_ms : Option F
  pub submitted_exactly : Option Bool

pub record SessionContinuityFeatures (F : Type 0) : Type 0 where
  pub session_age_ms : Option F
  pub prior_interaction_count : Option ℕ
  pub focus_blur_count : Option ℕ
  pub navigation_count : Option ℕ
  pub same_device_session_count : Option ℕ

-- An offset from UTC in minutes, which may lie on either side.
pub data Offset : Type 0 where
  east west : ℕ → Offset

pub record EnvironmentFeatures : Type 0 where
  pub webdriver_detected : Option Bool
  pub automation_framework_hint : Option Bool
  pub headless_browser_hint : Option Bool
  pub reduced_motion_enabled : Option Bool
  pub timezone_offset_minutes : Option Offset
  pub viewport_width : Option ℕ
  pub viewport_height : Option ℕ

pub record AgenticBehaviorFeatures (F : Type 0) : Type 0 where
  pub action_burst_count : Option ℕ
  pub mean_burst_interval_ms : Option F
  pub burst_interval_stddev_ms : Option F
  pub idle_to_action_latency_ms : Option F
  pub exploratory_action_count : Option ℕ
  pub route_directness_score : Option F
  pub large_instant_delta_count : Option ℕ
  pub submit_after_instant_input_ms : Option F
  pub structured_retry_count : Option ℕ
  pub validation_repair_count : Option ℕ

pub record ExternalRiskProviderFeatures (F : Type 0) : Type 0 where
  pub provider_id : String
  pub risk_score : F
  pub confidence : Option F
  pub reason_codes : List String

pub data RecommendedAction : Type 0 where
  allow observe soft_challenge step_up_auth manual_review : RecommendedAction

pub data EnforcementMode : Type 0 where
  observe_only challenge_only review_required enforce : EnforcementMode

pub record InteractionFeaturePacket (F : Type 0) : Type 0 where
  pub surface : String
  pub site_id : Option String
  pub tenant_id : Option String
  pub session_id : Option String
  pub page_context : Fields F
  pub typing : Option (TypingCadenceFeatures F)
  pub pointer : Option (PointerBehaviorFeatures F)
  pub challenge : Option (ChallengeInteractionFeatures F)
  pub agentic : Option (AgenticBehaviorFeatures F)
  pub session_continuity : Option (SessionContinuityFeatures F)
  pub environment : Option EnvironmentFeatures
  pub external_risk_provider : List (ExternalRiskProviderFeatures F)
  pub metadata : Fields F

pub record TruePresenceEvaluationResponse (F : Type 0) : Type 0 where
  pub human_presence_likelihood : F
  pub automation_likelihood : F
  pub agentic_control_likelihood : F
  pub confidence : F
  -- texts, so that they can be sorted
  pub reason_codes : List Text
  pub evidence_packet_id : String
  pub recommended_action : RecommendedAction
  pub enforcement_mode : EnforcementMode
