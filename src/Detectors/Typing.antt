-- ===== src/Detectors/Typing.antt =====
-- truepresence/detectors/human_plausibility.py, typing_cadence.py and reading_time.py.
use true_presence_ese.Base.{
  ℕ, ◌+◌, Bool, false, ◌&&◌, ◌||◌, Option, none, some, List, [], ◌∷◌, leb, ltb, ◌==◌, if◌then◌else◌,
}
use true_presence_ese.Float.{Floats, one_f, whole, min_f, max_f}
use true_presence_ese.Sdk.{TypingCadenceFeatures, ChallengeInteractionFeatures}
use true_presence_ese.Detectors.Signal.{
  Severity, low, medium, high, automation, agentic_control, typing_cadence, input_method,
  agentic_behavior, DetectorSignal, signal, or_zero, one_if, or_zero_f, is_at_most,
}

module _ (o : Floats) where
  open o use {F, dec, le, add, sub, mul, div}

  -- The number of triggers that `paste_or_instant_input` counts.
  abbrev pub paste_triggers : TypingCadenceFeatures F → ℕ
  paste_triggers f =
      one_if (ltb 0 (or_zero f.paste_count))
      + one_if (is_at_most o f.focus_to_first_input_ms (whole o 50))
      + one_if (is_at_most o f.prompt_render_to_first_input_ms (whole o 100))
      + one_if (is_at_most o f.typing_duration_ms (whole o 100))
      + one_if (le (whole o 700) (or_zero_f o f.characters_per_minute))

  abbrev paste_signal : Severity → F → List (DetectorSignal F)
  paste_signal severity confidence =
      signal o "paste_or_instant_input" severity confidence automation
        "Input timing suggests pasted, injected, or immediately populated content." input_method
      ∷ []

  unfoldable pub paste_or_instant_input : Option (TypingCadenceFeatures F) → List (DetectorSignal F)
  paste_or_instant_input none = []
  paste_or_instant_input (some f) =
      let triggers = paste_triggers f in
      if triggers == 0
      then []
      else if leb 3 triggers
      then paste_signal high (dec 82)
      else if (triggers == 1) && (or_zero f.paste_count == 0)
      then paste_signal low (dec 45)
      else paste_signal medium (dec 62)

  -- `x == 0` for an optional number: None equals no number.
  abbrev pub is_zero_count : Option ℕ → Bool
  is_zero_count none = false
  is_zero_count (some n) = n == 0

  abbrev pub is_zero_rate : Option F → Bool
  is_zero_rate none = false
  is_zero_rate (some x) = le x (dec 0) && le (dec 0) x

  abbrev pub no_corrections : TypingCadenceFeatures F → Bool
  no_corrections f = is_zero_count f.correction_count || is_zero_rate f.correction_rate

  unfoldable pub zero_correction_pattern :
      Option (TypingCadenceFeatures F) → List (DetectorSignal F)
  zero_correction_pattern none = []
  zero_correction_pattern (some f) =
      if no_corrections f
      then (if le (whole o 320) (or_zero_f o f.characters_per_minute)
            && is_at_most o f.inter_key_interval_stddev_ms (whole o 15)
          then signal o "zero_correction_pattern" medium (dec 68) automation
              "No corrections combined with fast, low-variance input increases automation consistency."
              typing_cadence
            ∷ []
          else signal o "zero_correction_pattern" low (dec 35) automation
              "No corrections were observed; this is only weak evidence by itself." typing_cadence
            ∷ [])
      else []

  unfoldable pub uniform_cadence_at : F → F → List (DetectorSignal F)
  uniform_cadence_at stddev cpm =
      if le stddev (whole o 1)
      then signal o "uniform_typing_cadence" high (dec 90) automation
          "Inter-key interval variance is effectively zero." typing_cadence
        ∷ []
      else if le stddev (whole o 8) && le (whole o 120) cpm
      then signal o "uniform_typing_cadence" medium (dec 76) automation
          "Typing cadence is unusually uniform for sustained human input." typing_cadence
        ∷ []
      else if le stddev (whole o 15) && le (whole o 260) cpm
      then signal o "uniform_typing_cadence" medium (dec 66) automation
          "Fast input with very low cadence variation is automation-consistent." typing_cadence
        ∷ []
      else []

  unfoldable pub uniform_typing_cadence : Option (TypingCadenceFeatures F) → List (DetectorSignal F)
  uniform_typing_cadence none = []
  uniform_typing_cadence (some f) = elim f.inter_key_interval_stddev_ms [
    | none ↦ []
    | some stddev ↦ uniform_cadence_at stddev (or_zero_f o f.characters_per_minute)
  ]

  -- `max(350.0, expected_reading_time_ms * 0.55)`
  unfoldable pub plausible_floor : F → F
  plausible_floor expected = max_f o (whole o 350) (mul expected (dec 55))

  unfoldable pub reading_signal : F → F → List (DetectorSignal F)
  reading_signal response_latency ratio =
      signal o "implausible_read_response_time"
        (if le response_latency (whole o 300) || le ratio (dec 35) then high else medium)
        (min_f o (dec 92) (add (dec 55) (mul (sub (one_f o) ratio) (dec 45)))) agentic_control
        "Response latency was faster than the expected human read-and-respond window."
        agentic_behavior
      ∷ []

  -- The floor is at least 350, so that its truth test in the source always passes.
  unfoldable pub read_response_at : F → F → List (DetectorSignal F)
  read_response_at response_latency expected =
      if le expected (dec 0)
      then []
      else if le (plausible_floor expected) response_latency
      then []
      else reading_signal response_latency (div response_latency (plausible_floor expected))

  unfoldable pub implausible_read_response_time :
      Option (ChallengeInteractionFeatures F) → List (DetectorSignal F)
  implausible_read_response_time none = []
  implausible_read_response_time (some f) = elim f.response_latency_ms [
    | none ↦ []
    | some latency ↦ elim f.expected_reading_time_ms [
      | none ↦ []
      | some expected ↦ read_response_at latency expected
    ]
  ]
