-- ===== src/Detectors/TypingRisk.antt =====
-- What the detectors of truepresence/detectors/typing_cadence.py and reading_time.py emit.

use true_presence_ese.Base.{
  ◌||◌, ◌≡◌, ◌≢◌, Bool, true, false, Option, none, some, arith, if◌then◌else◌, Option-cases, inl,
  inr,
}
use true_presence_ese.Float.{Floats, IsFloats, InUnit, whole, max_f}
use true_presence_ese.Float.Laws.{le-max_f_left}
use true_presence_ese.Sdk.{TypingCadenceFeatures, ChallengeInteractionFeatures}
use true_presence_ese.Detectors.Signal.{
  low, medium, high, typing_cadence, input_method, agentic_behavior,
}
use true_presence_ese.Detectors.InOrder.{
  Emits, Emits-unless, Emits-unless_eq, Emits-if, Emits-option,
}
use true_presence_ese.Detectors.Typing.{
  paste_or_instant_input, zero_correction_pattern, uniform_cadence_at, uniform_typing_cadence,
  plausible_floor, reading_signal, read_response_at, implausible_read_response_time,
}
use true_presence_ese.Detectors.Strength.{
  medium≢low, high≢low, strong_signal, weak_signal, EmitsRisk, medium_literal, high_literal,
  raised-IsStrong,
}

module _ (o : Floats) (l : IsFloats o) where
  open o use {F, dec, le, add, sub, mul, div}

  pub paste-Emits :
      (f : Option (TypingCadenceFeatures F))
      → EmitsRisk o l "paste_or_instant_input" (paste_or_instant_input o f)
  unfolding paste_or_instant_input
  paste-Emits none = Emits.silent
  paste-Emits (some f) = Emits-unless _ (
      Emits-if _ (high_literal o l 82 _ _ input_method (omega arith) (omega arith)) (
        Emits-if _ (weak_signal o l 45 _ _ input_method (omega arith) (omega arith))
          (medium_literal o l 62 _ _ input_method (omega arith) (omega arith))))

  pub zero_correction-Emits :
      (f : Option (TypingCadenceFeatures F))
      → EmitsRisk o l "zero_correction_pattern" (zero_correction_pattern o f)
  unfolding zero_correction_pattern
  zero_correction-Emits none = Emits.silent
  zero_correction-Emits (some f) =
      Emits-if _
        (Emits-if _ (medium_literal o l 68 _ _ typing_cadence (omega arith) (omega arith))
          (weak_signal o l 35 _ _ typing_cadence (omega arith) (omega arith)))
        Emits.silent

  pub uniform-Emits :
      (f : Option (TypingCadenceFeatures F))
      → EmitsRisk o l "uniform_typing_cadence" (uniform_typing_cadence o f)
  unfolding uniform_typing_cadence uniform_cadence_at
  uniform-Emits none = Emits.silent
  uniform-Emits (some f) = Emits-option f.inter_key_interval_stddev_ms _ λ stddev.
      Emits-if _ (high_literal o l 90 _ _ typing_cadence (omega arith) (omega arith)) (
        Emits-if _ (medium_literal o l 76 _ _ typing_cadence (omega arith) (omega arith)) (
          Emits-if _ (medium_literal o l 66 _ _ typing_cadence (omega arith) (omega arith))
            Emits.silent))

  reading_severity : (b : Bool) → (if b then high else medium) ≢ low
  reading_severity true = high≢low
  reading_severity false = medium≢low

  reading_signal-Emits :
      (latency ratio : F)
      → InUnit o ratio
      → EmitsRisk o l "implausible_read_response_time" (reading_signal o latency ratio)
  unfolding reading_signal
  reading_signal-Emits latency ratio u = strong_signal o l _ _ _ _ agentic_behavior (
      raised-IsStrong o l _ (dec 55) (mul (sub (dec 100) ratio) (dec 45)) 92
        (reading_severity (le latency (whole o 300) || le ratio (dec 35))) (l.le_refl (dec 55))
        (l.mul_nonneg _ (dec 45) (l.sub_InUnit ratio u).0 (l.dec_nonneg 45)) (omega arith)
        (omega arith))

  floor_pos : (expected : F) → le (plausible_floor o expected) (dec 0) ≡ false
  unfolding plausible_floor
  floor_pos expected = ground (
    arith,
    le-max_f_left o l (dec 35000) (mul expected (dec 55)),
    l.le_trans (dec 35000) (max_f o (dec 35000) (mul expected (dec 55))) (dec 0),
    l.le_dec 35000 0,
  )

  -- The latency that the feature model bounds by `ge=0`.
  abbrev pub HasLatency : Option (ChallengeInteractionFeatures F) → Type 0
  HasLatency none = Unit
  HasLatency (some f) = elim f.response_latency_ms [
    | none ↦ Unit
    | some latency ↦ le (dec 0) latency ≡ true
  ]

  pub reading-Emits :
      (f : Option (ChallengeInteractionFeatures F))
      → HasLatency f
      → EmitsRisk o l "implausible_read_response_time" (implausible_read_response_time o f)
  unfolding implausible_read_response_time read_response_at
  reading-Emits none h = Emits.silent
  reading-Emits (some f) h = elim (Option-cases f.response_latency_ms) [
    | inl e ↦ rw e Emits.silent
    | inr (latency, e) ↦ rw e (
        Emits-option f.expected_reading_time_ms _ λ expected. Emits-unless _ (
          Emits-unless_eq _ λ slow.
            reading_signal-Emits latency (div latency (plausible_floor o expected)) (
              l.div_InUnit latency (plausible_floor o expected) (rw e at h)
                (l.le_total (plausible_floor o expected) latency slow) (floor_pos expected))))
  ]
