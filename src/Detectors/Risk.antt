-- ===== src/Detectors/Risk.antt =====
-- What run_human_plausibility_detectors of truepresence/detectors/human_plausibility.py emits.
use Prim.Native.String.{String}
use true_presence_ese.Base.{List, [], ◌∷◌}
use true_presence_ese.Float.{Floats, IsFloats}
use true_presence_ese.Sdk.{InteractionFeaturePacket}
use true_presence_ese.Detectors.InOrder.{InOrder, InOrder-append, InOrder-last}
use true_presence_ese.Detectors.Agentic.{
  run_agentic_control_detectors, run_human_plausibility_detectors,
}
use true_presence_ese.Detectors.Strength.{IsRiskSignal}
use true_presence_ese.Detectors.TypingRisk.{
  paste-Emits, zero_correction-Emits, uniform-Emits, HasLatency, reading-Emits,
}
use true_presence_ese.Detectors.AgenticRisk.{
  thinking-Emits, burst_pause-Emits, delta-Emits, noise-Emits, retry-Emits, efficiency-Emits,
}

abbrev pub sdk_codes : List String
sdk_codes =
    "implausible_read_response_time" ∷ "uniform_typing_cadence" ∷ "paste_or_instant_input"
    ∷ "zero_correction_pattern" ∷ "model_thinking_cadence" ∷ "burst_pause_action_loop"
    ∷ "large_instant_input_delta" ∷ "low_exploratory_noise" ∷ "structured_retry_pattern"
    ∷ "implausible_task_efficiency" ∷ []

module _ (o : Floats) (l : IsFloats o) where
  -- For a packet whose response latency, if there is one, is not negative: the ten SDK detectors
  -- emit at most one signal each, in the order in which they run. Every signal is evidence of
  -- automation or, in the category `agentic_behavior` and only there, of agentic control, and
  -- never of a human; its confidence lies between 0.35 and 0.92, and at a low severity it is at
  -- most 0.45.
  pub run_human_plausibility_detectors-InOrder :
      (packet : InteractionFeaturePacket o.F)
      → HasLatency o l packet.challenge
      → InOrder (IsRiskSignal o) sdk_codes (run_human_plausibility_detectors o packet)
  unfolding run_human_plausibility_detectors run_agentic_control_detectors
  run_human_plausibility_detectors-InOrder packet h =
      InOrder-append (reading-Emits o l packet.challenge h) (
        InOrder-append (uniform-Emits o l packet.typing) (
          InOrder-append (paste-Emits o l packet.typing) (
            InOrder-append (zero_correction-Emits o l packet.typing) (
              InOrder-append (thinking-Emits o l packet.agentic) (
                InOrder-append (burst_pause-Emits o l packet.agentic) (
                  InOrder-append (delta-Emits o l packet.agentic) (
                    InOrder-append (noise-Emits o l packet.agentic) (
                      InOrder-append (retry-Emits o l packet.agentic)
                        (InOrder-last (efficiency-Emits o l packet.agentic))))))))))
