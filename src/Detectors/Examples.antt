-- ===== src/Detectors/Examples.antt =====
-- The detectors on small inputs, over fixed-point numbers.
use true_presence_ese.Base.{ℕ, ◌*◌, ◌≡◌, refl, ◌≢◌, true, false, none, some, [], ◌∷◌, map}
use true_presence_ese.Json.{end}
use true_presence_ese.Float.{clamp}
use true_presence_ese.Float.Fixed.{fixed, fixed-IsFloats}
use true_presence_ese.Sdk.{
  TypingCadenceFeatures, ChallengeInteractionFeatures, AgenticBehaviorFeatures,
  InteractionFeaturePacket,
}
use true_presence_ese.Detectors.InOrder.{InOrder}
use true_presence_ese.Detectors.Typing.{
  implausible_read_response_time, read_response_at, plausible_floor, reading_signal,
  uniform_typing_cadence, uniform_cadence_at, paste_or_instant_input, zero_correction_pattern,
}
use true_presence_ese.Detectors.Agentic.{
  agentic_signal, run_human_plausibility_detectors, run_agentic_control_detectors,
  model_thinking_cadence, model_thinking_at, burst_pause_action_loop, large_instant_input_delta,
  low_exploratory_noise, low_exploratory_at, structured_retry_pattern, implausible_task_efficiency,
  task_efficiency_at,
}
use true_presence_ese.Detectors.Telegram.{
  TelegramCommunityFeatures, run_telegram_community_detectors, instant_post_after_join,
}
use true_presence_ese.Detectors.Graded.{
  IsGraded, telegram_codes, run_telegram_community_detectors-InOrder,
}
use true_presence_ese.Detectors.Strength.{IsRiskSignal}
use true_presence_ese.Detectors.Risk.{sdk_codes, run_human_plausibility_detectors-InOrder}

-- 1 ms in units of 1/10000
abbrev ms : ℕ → ℕ
ms n = n * 10000

abbrev pasted : TypingCadenceFeatures ℕ
pasted = record {
  mean_inter_key_interval_ms = none;
  inter_key_interval_stddev_ms = some (ms 5);
  characters_per_minute = some (ms 800);
  correction_count = some 0;
  correction_rate = none;
  paste_count = some 1;
  focus_to_first_input_ms = some (ms 20);
  prompt_render_to_first_input_ms = none;
  typing_duration_ms = none;
  last_input_to_submit_ms = none;
}

abbrev fast_answer : ChallengeInteractionFeatures ℕ
fast_answer = record {
  challenge_type = none;
  response_latency_ms = some (ms 200);
  expected_reading_time_ms = some (ms 2000);
  prompt_render_to_first_input_ms = none;
  correction_count = none;
  paste_count = none;
  typing_duration_ms = none;
  submitted_exactly = none;
}

abbrev bursts : AgenticBehaviorFeatures ℕ
bursts = record {
  action_burst_count = some 5;
  mean_burst_interval_ms = some (ms 2500);
  burst_interval_stddev_ms = some (ms 100);
  idle_to_action_latency_ms = none;
  exploratory_action_count = none;
  route_directness_score = none;
  large_instant_delta_count = none;
  submit_after_instant_input_ms = none;
  structured_retry_count = none;
  validation_repair_count = none;
}

abbrev pub suspect : InteractionFeaturePacket ℕ
suspect = record {
  surface = "web";
  site_id = none;
  tenant_id = none;
  session_id = none;
  page_context = end;
  typing = some pasted;
  pointer = none;
  challenge = some fast_answer;
  agentic = some bursts;
  session_continuity = none;
  environment = none;
  external_risk_provider = [];
  metadata = end;
}

unfoldable pub program : Unit {0}
unfolding run_human_plausibility_detectors run_agentic_control_detectors
    implausible_read_response_time read_response_at plausible_floor reading_signal
    uniform_typing_cadence uniform_cadence_at paste_or_instant_input zero_correction_pattern
    model_thinking_cadence model_thinking_at burst_pause_action_loop large_instant_input_delta
    low_exploratory_noise low_exploratory_at structured_retry_pattern implausible_task_efficiency
    task_efficiency_at agentic_signal clamp
program = tt

suspect_codes :
    map (λ s. s.reason_code) (run_human_plausibility_detectors fixed suspect)
    ≡ "implausible_read_response_time" ∷ "uniform_typing_cadence" ∷ "paste_or_instant_input"
      ∷ "zero_correction_pattern" ∷ "model_thinking_cadence" ∷ "burst_pause_action_loop" ∷ []
unfolding program
suspect_codes = refl

run_human_plausibility_detectors-InOrder_example :
    InOrder (IsRiskSignal fixed) sdk_codes (run_human_plausibility_detectors fixed suspect)
run_human_plausibility_detectors-InOrder_example =
    run_human_plausibility_detectors-InOrder fixed fixed-IsFloats suspect refl

abbrev joiner : TelegramCommunityFeatures ℕ
joiner = record {
  join_to_first_message_ms = some (ms 900);
  join_to_first_media_ms = none;
  join_to_first_link_ms = some (ms 6000);
  message_count_window = some 9;
  burst_count = some 4;
  mean_message_interval_ms = none;
  message_interval_stddev_ms = none;
  joined_within_cluster_count = none;
  synchronized_peer_count = none;
  group_hop_count = none;
  link_present = true;
  media_present = false;
}

run_telegram_community_detectors-InOrder_example :
    InOrder
      (IsGraded fixed fixed-IsFloats)
      telegram_codes
      (run_telegram_community_detectors fixed (some joiner))
run_telegram_community_detectors-InOrder_example =
    run_telegram_community_detectors-InOrder fixed fixed-IsFloats (some joiner)

joiner_posts : instant_post_after_join fixed (some joiner) ≢ []
unfolding instant_post_after_join
joiner_posts e = cc
