-- ===== src/Scoring/Model.antt =====
-- The functions of truepresence/scoring/model.py, in its order.
use Prim.Native.String.{String}
use true_presence_ese.Base.{
  ℕ, ◌+◌, ◌-◌, Bool, true, false, ◌&&◌, ◌||◌, Option, none, some, List, [], ◌∷◌, ◌++◌, map, length,
  ltb, ◌==◌, if◌then◌else◌,
}
use true_presence_ese.Base.Text.{codes}
use true_presence_ese.Base.Sorted.{sorted_set}
use true_presence_ese.Float.{Floats, lt, zero_f, one_f, whole, min_f, max_f, clamp}
use true_presence_ese.Sdk.{
  TypingCadenceFeatures, ChallengeInteractionFeatures, PointerBehaviorFeatures,
  InteractionFeaturePacket, TruePresenceEvaluationResponse, RecommendedAction, allow, observe,
  soft_challenge, step_up_auth, manual_review, EnforcementMode,
}
use true_presence_ese.Detectors.Signal.{
  Severity, low, medium, high, ContributionTarget, human_presence, automation, agentic_control,
  SignalCategory, timing_plausibility, typing_cadence, input_method, pointer_behavior,
  session_continuity, environment, agentic_behavior, external_provider, DetectorSignal, or_zero,
  or_zero_f, is_at_least,
}

abbrev category_index : SignalCategory → ℕ
category_index timing_plausibility = 0
category_index typing_cadence = 1
category_index input_method = 2
category_index pointer_behavior = 3
category_index session_continuity = 4
category_index environment = 5
category_index agentic_behavior = 6
category_index external_provider = 7

abbrev target_index : ContributionTarget → ℕ
target_index human_presence = 0
target_index automation = 1
target_index agentic_control = 2

abbrev pub same_category : SignalCategory → SignalCategory → Bool
same_category a b = category_index a == category_index b

abbrev pub same_target : ContributionTarget → ContributionTarget → Bool
same_target a b = target_index a == target_index b

abbrev pub is_risk_target : ContributionTarget → Bool
is_risk_target human_presence = false
is_risk_target automation = true
is_risk_target agentic_control = true

module _ (o : Floats) where
  open o use {F, dec, le, add, sub, mul, div, round4}

  -- SEVERITY_WEIGHTS, CATEGORY_WEIGHTS and BASE_HUMAN_PRESENCE of weights.py.
  abbrev pub severity_weights : Severity → F
  severity_weights low = dec 25
  severity_weights medium = dec 55
  severity_weights high = dec 85

  abbrev pub category_weights : SignalCategory → F
  category_weights timing_plausibility = dec 70
  category_weights typing_cadence = dec 65
  category_weights input_method = dec 60
  category_weights pointer_behavior = dec 55
  category_weights session_continuity = dec 50
  category_weights environment = dec 45
  category_weights agentic_behavior = dec 80
  category_weights external_provider = dec 50

  abbrev pub base_human_presence : F
  base_human_presence = dec 58

  -- `if test: support += n / 100`
  abbrev raise_if : Bool → ℕ → F → F
  raise_if test n support = if test then add support (dec n) else support

  abbrev is_within : Option F → F → F → Bool
  is_within none lo hi = false
  is_within (some x) lo hi = le lo x && le x hi

  typing_support : Option (TypingCadenceFeatures F) → F → F
  typing_support none support = support
  typing_support (some t) support =
      raise_if (is_at_least o t.focus_to_first_input_ms (whole o 150)) 3 (
        raise_if (or_zero t.paste_count == 0) 3 (
          raise_if
            (ltb 0 (or_zero t.correction_count) || lt o (dec 0) (or_zero_f o t.correction_rate)) 5
            (raise_if
              (is_within t.inter_key_interval_stddev_ms (whole o 25) (whole o 220)
                && is_within t.characters_per_minute (whole o 80) (whole o 420))
              9 support)))

  challenge_support : Option (ChallengeInteractionFeatures F) → F → F
  challenge_support none support = support
  challenge_support (some c) support = elim c.response_latency_ms [
    | none ↦ support
    | some latency ↦ elim c.expected_reading_time_ms [
      | none ↦ support
      | some expected ↦
          raise_if (le (max_f o (whole o 350) (mul expected (dec 75))) latency) 7 support
    ]
  ]

  pointer_support : Option (PointerBehaviorFeatures F) → F → F
  pointer_support none support = support
  pointer_support (some p) support = raise_if (is_at_least o p.scroll_cadence_score (dec 35)) 3 (
      raise_if (is_at_least o p.click_hesitation_ms (whole o 80)) 3
        (raise_if (is_at_least o p.pointer_entropy (dec 35)) 4 support))

  unfoldable pub human_feature_support : InteractionFeaturePacket F → F
  unfolding typing_support challenge_support pointer_support
  human_feature_support packet = min_f o (dec 30) (
      pointer_support packet.pointer
        (challenge_support packet.challenge (typing_support packet.typing (zero_f o))))

  -- The loop `result *= (1.0 - _clamp(s))`.
  unfoldable pub complements : F → List F → F
  complements result [] = result
  complements result (s ∷ strengths) =
      complements (mul result (sub (one_f o) (clamp o s))) strengths

  unfoldable pub product_of_complements : List F → F
  unfolding complements
  product_of_complements strengths = clamp o (sub (one_f o) (complements (one_f o) strengths))

  unfoldable pub signal_strength : DetectorSignal F → F
  signal_strength s = mul (severity_weights s.severity) s.confidence

  -- `by_cat[category].append(strength)` on a `defaultdict(list)`; categories in insertion order.
  unfoldable pub append_to :
      SignalCategory → F → List (SignalCategory × List F) → List (SignalCategory × List F)
  append_to category strength [] = (category, strength ∷ []) ∷ []
  append_to category strength ((c, strengths) ∷ by_cat) =
      if same_category c category
      then (c, strengths ++ strength ∷ []) ∷ by_cat
      else (c, strengths) ∷ append_to category strength by_cat

  unfoldable pub partition_from :
      List (SignalCategory × List F)
      → List (DetectorSignal F)
      → ContributionTarget
      → List (SignalCategory × List F)
  partition_from by_cat [] target = by_cat
  partition_from by_cat (s ∷ signals) target =
      partition_from
        (if same_target s.contribution_target target
          then append_to s.category (signal_strength s) by_cat
          else by_cat)
        signals target

  unfoldable pub partition_signals :
      List (DetectorSignal F) → ContributionTarget → List (SignalCategory × List F)
  partition_signals signals target = partition_from [] signals target

  unfoldable pub weighted_strengths : List (SignalCategory × List F) → List F
  weighted_strengths [] = []
  weighted_strengths ((category, strengths) ∷ by_cat) =
      mul (category_weights category) (product_of_complements strengths) ∷ weighted_strengths by_cat

  unfoldable pub aggregate_risk : List (SignalCategory × List F) → F × ℕ
  aggregate_risk [] = (zero_f o, 0)
  aggregate_risk (c ∷ by_cat) =
      (product_of_complements (weighted_strengths (c ∷ by_cat)), length (c ∷ by_cat))

  unfoldable pub evidence_sufficiency : ℕ → ℕ → F
  evidence_sufficiency n_categories n_signals =
      if n_signals == 0
      then dec 20
      else clamp o (
          add (dec 20) (
            mul (dec 80) (
              div
                (add (min_f o (one_f o) (div (whole o n_categories) (whole o 3)))
                  (min_f o (one_f o) (div (whole o n_signals) (whole o 4))))
                (whole o 2))))

  unfoldable pub recommended_action : F → F → RecommendedAction
  recommended_action risk confidence =
      if lt o risk (dec 30)
      then (if le (dec 50) confidence then allow else observe)
      else if lt o risk (dec 50)
      then (if lt o confidence (dec 45) then observe else soft_challenge)
      else if lt o risk (dec 70)
      then (if lt o confidence (dec 40) then soft_challenge else step_up_auth)
      else if lt o confidence (dec 45)
      then step_up_auth
      else manual_review

  -- The steps of `score_interaction`, each under the name of its variable.
  unfoldable pub target_risk : List (DetectorSignal F) → ContributionTarget → F × ℕ
  target_risk signals target = aggregate_risk (partition_signals signals target)

  unfoldable pub total_risk_cats : List (DetectorSignal F) → ℕ
  total_risk_cats signals =
      (target_risk signals automation).1 + (target_risk signals agentic_control).1

  -- `max(0, total_risk_cats - 1) * 0.05`, capped; subtraction on ℕ stops at 0 as `max` does.
  unfoldable pub corroboration_bonus : List (DetectorSignal F) → F
  corroboration_bonus signals =
      clamp o (min_f o (dec 15) (mul (whole o (total_risk_cats signals - 1)) (dec 5)))

  unfoldable pub combined_risk : List (DetectorSignal F) → F
  combined_risk signals = clamp o (
      add
        (product_of_complements
          ((target_risk signals automation).0 ∷ (target_risk signals agentic_control).0 ∷ []))
        (corroboration_bonus signals))

  unfoldable pub effective_human : InteractionFeaturePacket F → List (DetectorSignal F) → F
  effective_human packet signals =
      clamp o
        (add (human_feature_support packet) (mul (target_risk signals human_presence).0 (dec 50)))

  unfoldable pub reduced_risk : InteractionFeaturePacket F → List (DetectorSignal F) → F
  reduced_risk packet signals =
      clamp o (
        mul (combined_risk signals) (sub (one_f o) (mul (effective_human packet signals) (dec 60))))

  unfoldable pub is_contradicted : InteractionFeaturePacket F → List (DetectorSignal F) → Bool
  is_contradicted packet signals =
      lt o (dec 50) (effective_human packet signals) && lt o (dec 50) (reduced_risk packet signals)

  unfoldable pub contradiction_factor : InteractionFeaturePacket F → List (DetectorSignal F) → F
  contradiction_factor packet signals = if is_contradicted packet signals then dec 20 else zero_f o

  unfoldable pub adjusted_risk : InteractionFeaturePacket F → List (DetectorSignal F) → F
  adjusted_risk packet signals =
      if is_contradicted packet signals
      then clamp o (mul (reduced_risk packet signals) (sub (one_f o) (dec 20)))
      else reduced_risk packet signals

  unfoldable pub n_risk_signals : List (DetectorSignal F) → ℕ
  n_risk_signals [] = 0
  n_risk_signals (s ∷ signals) =
      (if is_risk_target s.contribution_target then 1 else 0) + n_risk_signals signals

  unfoldable pub sufficiency : List (DetectorSignal F) → F
  sufficiency signals = evidence_sufficiency (total_risk_cats signals) (n_risk_signals signals)

  unfoldable pub confidence_of : InteractionFeaturePacket F → List (DetectorSignal F) → F
  confidence_of packet signals = clamp o (
      mul (mul (sufficiency signals) (sub (one_f o) (contradiction_factor packet signals)))
        (add (dec 50) (mul (adjusted_risk packet signals) (dec 50))))

  -- `fresh_id` is the new `ep_<uuid>`, which the source draws at random.
  unfoldable pub score_interaction :
      String
      → List (DetectorSignal F)
      → InteractionFeaturePacket F
      → EnforcementMode
      → TruePresenceEvaluationResponse F
  score_interaction fresh_id signals packet mode =
      let human = effective_human packet signals in
      record {
        human_presence_likelihood = round4 (
            clamp o (
              add (mul base_human_presence (sub (one_f o) (adjusted_risk packet signals)))
                (mul human (dec 40))));
        automation_likelihood =
            round4 (
              clamp o
                (mul (target_risk signals automation).0 (sub (one_f o) (mul human (dec 60)))));
        agentic_control_likelihood = round4 (
            clamp o
              (mul (target_risk signals agentic_control).0 (sub (one_f o) (mul human (dec 30)))));
        confidence = round4 (confidence_of packet signals);
        reason_codes = sorted_set (map (λ s. codes s.reason_code) signals);
        evidence_packet_id = fresh_id;
        recommended_action =
            recommended_action (adjusted_risk packet signals) (confidence_of packet signals);
        enforcement_mode = mode;
      }
