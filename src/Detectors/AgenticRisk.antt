-- ===== src/Detectors/AgenticRisk.antt =====
-- What the detectors of truepresence/detectors/agentic_control.py emit.

use true_presence_ese.Base.{
  ℕ, ◌||◌, ◌&&◌, ◌≤◌, ◌≢◌, Bool, true, false, Option, none, some, arith, leb, ltb, if◌then◌else◌,
  Bool-cases, inl, inr,
}
use true_presence_ese.Float.{Floats, IsFloats, lt, whole}
use true_presence_ese.Sdk.{AgenticBehaviorFeatures}
use true_presence_ese.Detectors.Signal.{Severity, low, medium, high, or_zero, is_at_least}
use true_presence_ese.Detectors.InOrder.{Emits, Emits-unless, Emits-if, Emits-option}
use true_presence_ese.Detectors.Agentic.{
  thinking_text, idle_confidence, model_thinking_at, model_thinking_cadence,
  burst_pause_action_loop, large_instant_input_delta, low_exploratory_at, low_exploratory_noise,
  structured_retry_pattern, task_efficiency_at, implausible_task_efficiency,
}
use true_presence_ese.Detectors.Strength.{
  medium≢low, high≢low, le_literals, IsStrong, IsStrong-literal, EmitsRisk, raised-IsStrong,
  agentic_strong, agentic_high, agentic_medium,
}

module _ (o : Floats) (l : IsFloats o) where
  open o use {F, dec, le, add, sub, mul, div}

  idle-IsStrong :
      (severity : Severity) (idle_latency : Option F) (n : ℕ)
      → severity ≢ low
      → 55 ≤ n
      → n ≤ 92
      → IsStrong o l severity (idle_confidence o idle_latency (dec n))
  idle-IsStrong severity idle_latency n s h k =
      elim (Bool-cases (is_at_least o idle_latency (whole o 2000))) [
        | inl e ↦ rw e (
            raised-IsStrong o l severity (dec n) (dec 5) 90 s (le_literals o l 55 n h (omega arith))
              (le_literals o l 0 5 (omega arith) (omega arith)) (omega arith) (omega arith))
        | inr e ↦ rw e (IsStrong-literal o l severity n s h k)
      ]

  pub thinking-Emits :
      (f : Option (AgenticBehaviorFeatures F))
      → EmitsRisk o l "model_thinking_cadence" (model_thinking_cadence o f)
  unfolding model_thinking_cadence model_thinking_at
  thinking-Emits none = Emits.silent
  thinking-Emits (some f) =
      let idle = f.idle_to_action_latency_ms in
      Emits-unless _ (
        Emits-option f.mean_burst_interval_ms _ λ mean_interval.
          Emits-option f.burst_interval_stddev_ms _ λ stddev.
            Emits-unless (lt o mean_interval (whole o 1200) || lt o (whole o 8000) mean_interval) (
              Emits-unless (lt o (whole o 450) stddev) (
                Emits-if
                  (leb 4 (or_zero f.action_burst_count)
                    && le (whole o 2200) mean_interval
                    && le stddev (whole o 180))
                  (agentic_strong o l high (idle_confidence o idle (dec 82)) _ thinking_text
                    (idle-IsStrong high idle 82 high≢low (omega arith) (omega arith)))
                  (agentic_strong o l medium (idle_confidence o idle (dec 68)) _ thinking_text
                    (idle-IsStrong medium idle 68 medium≢low (omega arith) (omega arith))))))

  burst_severity : (b : Bool) → (if b then medium else high) ≢ low
  burst_severity true = medium≢low
  burst_severity false = high≢low

  pub burst_pause-Emits :
      (f : Option (AgenticBehaviorFeatures F))
      → EmitsRisk o l "burst_pause_action_loop" (burst_pause_action_loop o f)
  unfolding burst_pause_action_loop
  burst_pause-Emits none = Emits.silent
  burst_pause-Emits (some f) = Emits-unless _ (
      Emits-option f.mean_burst_interval_ms _ λ mean_interval. Emits-unless _ (
        agentic_strong o l _ _ _ _ (
          raised-IsStrong o l _ (dec 56) (mul (whole o (or_zero f.action_burst_count)) (dec 6)) 86
            (burst_severity (ltb (or_zero f.action_burst_count) 5))
            (le_literals o l 55 56 (omega arith) (omega arith))
            (l.mul_nonneg _ (dec 6) (l.dec_nonneg _) (l.dec_nonneg 6)) (omega arith)
            (omega arith))))

  pub delta-Emits :
      (f : Option (AgenticBehaviorFeatures F))
      → EmitsRisk o l "large_instant_input_delta" (large_instant_input_delta o f)
  unfolding large_instant_input_delta
  delta-Emits none = Emits.silent
  delta-Emits (some f) = Emits-unless _ (
      Emits-if _ (agentic_high o l 82 _ _ (omega arith) (omega arith))
        (agentic_medium o l 66 _ _ (omega arith) (omega arith)))

  pub noise-Emits :
      (f : Option (AgenticBehaviorFeatures F))
      → EmitsRisk o l "low_exploratory_noise" (low_exploratory_noise o f)
  unfolding low_exploratory_noise low_exploratory_at
  noise-Emits none = Emits.silent
  noise-Emits (some f) = Emits-option f.exploratory_action_count _ λ exploratory.
      Emits-option f.route_directness_score _ λ directness. Emits-unless _ (
        Emits-if _ (agentic_medium o l 62 _ _ (omega arith) (omega arith))
          (agentic_high o l 74 _ _ (omega arith) (omega arith)))

  pub retry-Emits :
      (f : Option (AgenticBehaviorFeatures F))
      → EmitsRisk o l "structured_retry_pattern" (structured_retry_pattern o f)
  unfolding structured_retry_pattern
  retry-Emits none = Emits.silent
  retry-Emits (some f) = Emits-unless _ (
      Emits-if _ (agentic_high o l 80 _ _ (omega arith) (omega arith))
        (agentic_medium o l 66 _ _ (omega arith) (omega arith)))

  pub efficiency-Emits :
      (f : Option (AgenticBehaviorFeatures F))
      → EmitsRisk o l "implausible_task_efficiency" (implausible_task_efficiency o f)
  unfolding implausible_task_efficiency task_efficiency_at
  efficiency-Emits none = Emits.silent
  efficiency-Emits (some f) = Emits-option f.route_directness_score _ λ directness.
      Emits-option f.idle_to_action_latency_ms _ λ idle_latency.
        Emits-option f.submit_after_instant_input_ms _ λ submit_latency.
          Emits-option f.exploratory_action_count _ λ exploratory. Emits-unless _ (
            Emits-if _ (agentic_high o l 82 _ _ (omega arith) (omega arith))
              (agentic_medium o l 68 _ _ (omega arith) (omega arith)))
