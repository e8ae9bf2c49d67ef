-- ===== src/Detectors/Agentic.antt =====
-- truepresence/detectors/agentic_control.py, and the order in which all SDK detectors run.
use Prim.Native.String.{String}
use true_presence_ese.Base.{
  ℕ, ◌&&◌, ◌||◌, Option, none, some, List, [], ◌∷◌, ◌++◌, leb, ltb, ◌==◌, if◌then◌else◌,
}
use true_presence_ese.Float.{Floats, lt, whole, min_f}
use true_presence_ese.Sdk.{AgenticBehaviorFeatures, InteractionFeaturePacket}
use true_presence_ese.Detectors.Signal.{
  Severity, medium, high, agentic_control, agentic_behavior, DetectorSignal, signal, or_zero,
  is_at_most, is_at_least,
}
use true_presence_ese.Detectors.Typing.{
  paste_or_instant_input, zero_correction_pattern, uniform_typing_cadence,
  implausible_read_response_time,
}

abbrev pub thinking_text : String
thinking_text =
    "Action bursts are separated by regular pause intervals consistent with plan/act loops."

module _ (o : Floats) where
  open o use {F, dec, le, add, mul}

  unfoldable pub agentic_signal : String → Severity → F → String → DetectorSignal F
  unfolding signal
  agentic_signal reason_code severity confidence explanation =
      signal o reason_code severity confidence agentic_control explanation agentic_behavior

  -- `if idle_latency is not None and idle_latency >= 2000: confidence = min(0.9, confidence + 0.05)`
  abbrev pub idle_confidence : Option F → F → F
  idle_confidence idle_latency confidence =
      if is_at_least o idle_latency (whole o 2000)
      then min_f o (dec 90) (add confidence (dec 5))
      else confidence

  abbrev pub thinking_signal : Severity → F → List (DetectorSignal F)
  thinking_signal severity confidence =
      agentic_signal "model_thinking_cadence" severity confidence thinking_text ∷ []

  unfoldable pub model_thinking_at : ℕ → F → F → Option F → List (DetectorSignal F)
  model_thinking_at bursts mean_interval stddev idle_latency =
      if lt o mean_interval (whole o 1200) || lt o (whole o 8000) mean_interval
      then []
      else if lt o (whole o 450) stddev
      then []
      else if leb 4 bursts && le (whole o 2200) mean_interval && le stddev (whole o 180)
      then thinking_signal high (idle_confidence idle_latency (dec 82))
      else thinking_signal medium (idle_confidence idle_latency (dec 68))

  unfoldable pub model_thinking_cadence :
      Option (AgenticBehaviorFeatures F) → List (DetectorSignal F)
  model_thinking_cadence none = []
  model_thinking_cadence (some f) =
      let bursts = or_zero f.action_burst_count in
      if ltb bursts 3 then [] else elim f.mean_burst_interval_ms [
        | none ↦ []
        | some mean_interval ↦ elim f.burst_interval_stddev_ms [
          | none ↦ []
          | some stddev ↦ model_thinking_at bursts mean_interval stddev f.idle_to_action_latency_ms
        ]
      ]

  unfoldable pub burst_pause_action_loop :
      Option (AgenticBehaviorFeatures F) → List (DetectorSignal F)
  burst_pause_action_loop none = []
  burst_pause_action_loop (some f) =
      let bursts = or_zero f.action_burst_count in
      if ltb bursts 3 then [] else elim f.mean_burst_interval_ms [
        | none ↦ []
        | some mean_interval ↦
            if lt o mean_interval (whole o 900)
            then []
            else agentic_signal "burst_pause_action_loop" (if ltb bursts 5 then medium else high)
                (min_f o (dec 86) (add (dec 56) (mul (whole o bursts) (dec 6))))
                "The session alternates between compact action bursts and pauses."
              ∷ []
      ]

  abbrev pub delta_signal : Severity → F → List (DetectorSignal F)
  delta_signal severity confidence =
      agentic_signal "large_instant_input_delta" severity confidence
        "Input length changed by a large aggregate delta in one event without storing content."
      ∷ []

  unfoldable pub large_instant_input_delta :
      Option (AgenticBehaviorFeatures F) → List (DetectorSignal F)
  large_instant_input_delta none = []
  large_instant_input_delta (some f) =
      let delta_count = or_zero f.large_instant_delta_count in
      if delta_count == 0
      then []
      else if leb 2 delta_count || is_at_most o f.submit_after_instant_input_ms (whole o 250)
      then delta_signal high (dec 82)
      else delta_signal medium (dec 66)

  abbrev pub noise_signal : Severity → F → List (DetectorSignal F)
  noise_signal severity confidence =
      agentic_signal "low_exploratory_noise" severity confidence
        "The interaction path is unusually direct with little exploratory activity."
      ∷ []

  unfoldable pub low_exploratory_at : ℕ → F → List (DetectorSignal F)
  low_exploratory_at exploratory directness =
      if ltb 1 exploratory || lt o directness (dec 85)
      then []
      else if lt o directness (dec 95)
      then noise_signal medium (dec 62)
      else noise_signal high (dec 74)

  unfoldable pub low_exploratory_noise :
      Option (AgenticBehaviorFeatures F) → List (DetectorSignal F)
  low_exploratory_noise none = []
  low_exploratory_noise (some f) = elim f.exploratory_action_count [
    | none ↦ []
    | some exploratory ↦ elim f.route_directness_score [
      | none ↦ []
      | some directness ↦ low_exploratory_at exploratory directness
    ]
  ]

  abbrev pub retry_signal : Severity → F → List (DetectorSignal F)
  retry_signal severity confidence =
      agentic_signal "structured_retry_pattern" severity confidence
        "Retry and validation-repair counts follow a structured correction pattern."
      ∷ []

  unfoldable pub structured_retry_pattern :
      Option (AgenticBehaviorFeatures F) → List (DetectorSignal F)
  structured_retry_pattern none = []
  structured_retry_pattern (some f) =
      let retries = or_zero f.structured_retry_count in
      let repairs = or_zero f.validation_repair_count in
      if ltb retries 2 && ltb repairs 2
      then []
      else if leb 3 retries || leb 3 repairs
      then retry_signal high (dec 80)
      else retry_signal medium (dec 66)

  abbrev pub efficiency_signal : Severity → F → List (DetectorSignal F)
  efficiency_signal severity confidence =
      agentic_signal "implausible_task_efficiency" severity confidence
        "The task path is highly direct with very low idle-to-action and submit latency."
      ∷ []

  unfoldable pub task_efficiency_at : F → F → F → ℕ → List (DetectorSignal F)
  task_efficiency_at directness idle_latency submit_latency exploratory =
      if lt o directness (dec 90)
        || lt o (whole o 250) idle_latency
        || lt o (whole o 450) submit_latency
        || ltb 1 exploratory
      then []
      else if le (dec 96) directness
          && le idle_latency (whole o 120)
          && le submit_latency (whole o 300)
      then efficiency_signal high (dec 82)
      else efficiency_signal medium (dec 68)

  unfoldable pub implausible_task_efficiency :
      Option (AgenticBehaviorFeatures F) → List (DetectorSignal F)
  implausible_task_efficiency none = []
  implausible_task_efficiency (some f) = elim f.route_directness_score [
    | none ↦ []
    | some directness ↦ elim f.idle_to_action_latency_ms [
      | none ↦ []
      | some idle_latency ↦ elim f.submit_after_instant_input_ms [
        | none ↦ []
        | some submit_latency ↦ elim f.exploratory_action_count [
          | none ↦ []
          | some exploratory ↦ task_efficiency_at directness idle_latency submit_latency exploratory
        ]
      ]
    ]
  ]

  unfoldable pub run_agentic_control_detectors :
      Option (AgenticBehaviorFeatures F) → List (DetectorSignal F)
  run_agentic_control_detectors features =
      model_thinking_cadence features
      ++ (burst_pause_action_loop features
          ++ (large_instant_input_delta features
              ++ (low_exploratory_noise features
                  ++ (structured_retry_pattern features ++ implausible_task_efficiency features))))

  unfoldable pub run_human_plausibility_detectors :
      InteractionFeaturePacket F → List (DetectorSignal F)
  run_human_plausibility_detectors packet =
      implausible_read_response_time o packet.challenge
      ++ (uniform_typing_cadence o packet.typing
          ++ (paste_or_instant_input o packet.typing
              ++ (zero_correction_pattern o packet.typing
                  ++ run_agentic_control_detectors packet.agentic)))
