-- ===== src/Privacy/Sets.antt =====
-- The field sets of truepresence/sdk/privacy.py.
use true_presence_ese.Base.{List, [], ◌∷◌}
use true_presence_ese.Base.Text.{Text, codes}

abbrev pub allowed_typing_fields : List Text
allowed_typing_fields =
    codes "characters_per_minute"
    ∷ codes "correction_count"
    ∷ codes "correction_rate"
    ∷ codes "focus_to_first_input_ms"
    ∷ codes "inter_key_interval_stddev_ms"
    ∷ codes "last_input_to_submit_ms"
    ∷ codes "mean_inter_key_interval_ms"
    ∷ codes "paste_count"
    ∷ codes "prompt_render_to_first_input_ms"
    ∷ codes "typing_duration_ms"
    ∷ []

abbrev pub allowed_challenge_fields : List Text
allowed_challenge_fields =
    codes "challenge_type"
    ∷ codes "correction_count"
    ∷ codes "expected_reading_time_ms"
    ∷ codes "paste_count"
    ∷ codes "prompt_render_to_first_input_ms"
    ∷ codes "response_latency_ms"
    ∷ codes "submitted_exactly"
    ∷ codes "typing_duration_ms"
    ∷ []

abbrev pub allowed_pointer_fields : List Text
allowed_pointer_fields =
    codes "click_count"
    ∷ codes "click_hesitation_ms"
    ∷ codes "pointer_entropy"
    ∷ codes "pointer_movement_count"
    ∷ codes "scroll_cadence_score"
    ∷ []

abbrev pub allowed_environment_fields : List Text
allowed_environment_fields =
    codes "automation_framework_hint"
    ∷ codes "headless_browser_hint"
    ∷ codes "reduced_motion_enabled"
    ∷ codes "timezone_offset_minutes"
    ∷ codes "viewport_height"
    ∷ codes "viewport_width"
    ∷ codes "webdriver_detected"
    ∷ []

abbrev pub allowed_agentic_fields : List Text
allowed_agentic_fields =
    codes "action_burst_count"
    ∷ codes "burst_interval_stddev_ms"
    ∷ codes "exploratory_action_count"
    ∷ codes "idle_to_action_latency_ms"
    ∷ codes "large_instant_delta_count"
    ∷ codes "mean_burst_interval_ms"
    ∷ codes "route_directness_score"
    ∷ codes "structured_retry_count"
    ∷ codes "submit_after_instant_input_ms"
    ∷ codes "validation_repair_count"
    ∷ []

abbrev pub allowed_session_continuity_fields : List Text
allowed_session_continuity_fields =
    codes "focus_blur_count"
    ∷ codes "navigation_count"
    ∷ codes "prior_interaction_count"
    ∷ codes "same_device_session_count"
    ∷ codes "session_age_ms"
    ∷ []

abbrev pub allowed_page_context_fields : List Text
allowed_page_context_fields =
    codes "hostname" ∷ codes "pathname" ∷ codes "referrer_present" ∷ codes "visibility_state" ∷ []

abbrev pub allowed_typing_summary_fields : List Text
allowed_typing_summary_fields =
    codes "delete_key_count"
    ∷ codes "input_event_count"
    ∷ codes "last_input_to_submit_ms"
    ∷ codes "max_inter_key_interval_ms"
    ∷ codes "min_inter_key_interval_ms"
    ∷ codes "tracked_field_count"
    ∷ []

abbrev pub allowed_metadata_fields : List Text
allowed_metadata_fields =
    codes "mode" ∷ codes "sdk_version" ∷ codes "tracked_field_count" ∷ codes "typing_summary" ∷ []

abbrev pub allowed_external_risk_fields : List Text
allowed_external_risk_fields =
    codes "confidence" ∷ codes "provider_id" ∷ codes "reason_codes" ∷ codes "risk_score" ∷ []

abbrev pub allowed_packet_top_level : List Text
allowed_packet_top_level =
    codes "agentic"
    ∷ codes "challenge"
    ∷ codes "environment"
    ∷ codes "external_risk_provider"
    ∷ codes "metadata"
    ∷ codes "page_context"
    ∷ codes "pointer"
    ∷ codes "session_continuity"
    ∷ codes "session_id"
    ∷ codes "site_id"
    ∷ codes "surface"
    ∷ codes "tenant_id"
    ∷ codes "typing"
    ∷ []

abbrev pub allowed_request_top_level : List Text
allowed_request_top_level =
    codes "enforcement_mode" ∷ codes "feature_packet" ∷ codes "session_id" ∷ codes "tenant_id" ∷ []

abbrev pub raw_content_exact : List Text
raw_content_exact =
    codes "card_number"
    ∷ codes "cardnumber"
    ∷ codes "freeform_content"
    ∷ codes "freeformcontent"
    ∷ codes "key"
    ∷ codes "key_values"
    ∷ codes "keyvalues"
    ∷ codes "keys"
    ∷ codes "message_body"
    ∷ codes "messagebody"
    ∷ codes "password"
    ∷ codes "raw_text"
    ∷ codes "rawtext"
    ∷ codes "ssn"
    ∷ codes "text"
    ∷ codes "typed_text"
    ∷ codes "typedtext"
    ∷ codes "value"
    ∷ codes "answer"
    ∷ codes "body"
    ∷ codes "caption"
    ∷ codes "comment"
    ∷ codes "content"
    ∷ codes "description"
    ∷ codes "field_value"
    ∷ codes "file_url"
    ∷ codes "fileurl"
    ∷ codes "input_value"
    ∷ codes "media_url"
    ∷ codes "mediaurl"
    ∷ codes "message"
    ∷ codes "prompt"
    ∷ codes "raw_input"
    ∷ codes "raw_value"
    ∷ codes "response"
    ∷ codes "transcript"
    ∷ codes "user_input"
    ∷ []

abbrev pub raw_content_fragments : List Text
raw_content_fragments =
    codes "card_number"
    ∷ codes "cardnumber"
    ∷ codes "credit"
    ∷ codes "creditcard"
    ∷ codes "cvc"
    ∷ codes "cvv"
    ∷ codes "freeform"
    ∷ codes "message_body"
    ∷ codes "password"
    ∷ codes "raw_"
    ∷ codes "social_security"
    ∷ codes "ssn"
    ∷ codes "typed_"
    ∷ []

abbrev pub sensitive_input_types : List Text
sensitive_input_types =
    codes "cc-csc"
    ∷ codes "cc-exp"
    ∷ codes "cc-number"
    ∷ codes "credit-card"
    ∷ codes "file"
    ∷ codes "hidden"
    ∷ codes "payment"
    ∷ codes "password"
    ∷ []
