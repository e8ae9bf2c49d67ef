-- ===== src/Scoring/Examples.antt =====
-- The scores of small sessions, over fixed-point numbers.
use true_presence_ese.Base.{ℕ, ◌≡◌, refl, ◌≤◌, true, List, [], ◌∷◌, ◌++◌}
use true_presence_ese.Float.{InUnit}
use true_presence_ese.Float.Fixed.{fixed, fixed-IsFloats}
use true_presence_ese.Sdk.{observe, manual_review, observe_only}
use true_presence_ese.Detectors.Signal.{
  DetectorSignal, high, automation, agentic_control, human_presence, environment,
}
use true_presence_ese.Detectors.Agentic.{run_human_plausibility_detectors}
use true_presence_ese.Detectors.Examples.{suspect, program as detectors}
use true_presence_ese.Scoring.Model.{
  score_interaction, recommended_action, adjusted_risk, reduced_risk, contradiction_factor,
  is_contradicted, confidence_of, sufficiency, combined_risk, corroboration_bonus, total_risk_cats,
  target_risk, effective_human, human_feature_support, aggregate_risk, partition_signals,
  partition_from, append_to, weighted_strengths, product_of_complements, signal_strength,
  n_risk_signals, evidence_sufficiency,
}
use true_presence_ese.Scoring.Action.{strength, recommended_action_mono}
use true_presence_ese.Scoring.Bounds.{score_interaction-InUnit, confidence_of-le_sufficiency}
use true_presence_ese.Scoring.Independence.{drop_target, likelihoods_independent}
use true_presence_ese.Scoring.Quiet.{contradiction_never}
use true_presence_ese.Scoring.NoRisk.{no_risk-observe}
use true_presence_ese.Scoring.Monotone.{likelihoods-snoc}

scoring : Unit {0}
unfolding detectors score_interaction recommended_action adjusted_risk reduced_risk
    contradiction_factor is_contradicted confidence_of sufficiency combined_risk corroboration_bonus
    total_risk_cats target_risk effective_human human_feature_support aggregate_risk
    partition_signals partition_from append_to weighted_strengths product_of_complements
    signal_strength n_risk_signals evidence_sufficiency
scoring = tt

abbrev evidence : List (DetectorSignal ℕ)
evidence = run_human_plausibility_detectors fixed suspect

-- The scripted session is sent to manual review.
suspect_reviewed :
    (score_interaction fixed "ep_1" evidence suspect observe_only).recommended_action
    ≡ manual_review
unfolding scoring
suspect_reviewed = refl

score_interaction-InUnit_example :
    InUnit fixed
      (score_interaction fixed "ep_1" evidence suspect observe_only).human_presence_likelihood
    × InUnit fixed
        (score_interaction fixed "ep_1" evidence suspect observe_only).automation_likelihood
    × InUnit fixed
        (score_interaction fixed "ep_1" evidence suspect observe_only).agentic_control_likelihood
    × InUnit fixed (score_interaction fixed "ep_1" evidence suspect observe_only).confidence
score_interaction-InUnit_example =
    score_interaction-InUnit fixed fixed-IsFloats "ep_1" evidence suspect observe_only

recommended_action_mono_example :
    strength (recommended_action fixed 4000 5000) ≤ strength (recommended_action fixed 8000 5000)
recommended_action_mono_example = recommended_action_mono fixed fixed-IsFloats 4000 8000 5000 refl

confidence_of-le_sufficiency_example :
    (fixed.le (confidence_of fixed suspect evidence) (sufficiency fixed evidence) ≡ true)
    × (fixed.le (fixed.dec 20) (sufficiency fixed evidence) ≡ true)
    × (fixed.le (sufficiency fixed evidence) (fixed.dec 100) ≡ true)
confidence_of-le_sufficiency_example =
    confidence_of-le_sufficiency fixed fixed-IsFloats suspect evidence

likelihoods_independent_example :
    ((score_interaction fixed "ep_1"
        (drop_target fixed automation evidence)
        suspect
        observe_only).agentic_control_likelihood
      ≡ (score_interaction fixed "ep_1" evidence suspect observe_only).agentic_control_likelihood)
    × ((score_interaction fixed "ep_1"
          (drop_target fixed agentic_control evidence)
          suspect
          observe_only).automation_likelihood
        ≡ (score_interaction fixed "ep_1" evidence suspect observe_only).automation_likelihood)
likelihoods_independent_example = likelihoods_independent fixed "ep_1" evidence suspect observe_only

contradiction_never_example :
    (contradiction_factor fixed suspect (run_human_plausibility_detectors fixed suspect)
      ≡ fixed.dec 0)
    × (adjusted_risk fixed suspect (run_human_plausibility_detectors fixed suspect)
        ≡ reduced_risk fixed suspect (run_human_plausibility_detectors fixed suspect))
contradiction_never_example = contradiction_never fixed fixed-IsFloats suspect refl

abbrev human_signal : DetectorSignal ℕ
human_signal = record {
  reason_code = "steady_pointer";
  severity = high;
  confidence = 9000;
  contribution_target = human_presence;
  category = environment;
  explanation = "";
}

no_risk-observe_example :
    (score_interaction fixed "ep_1" (human_signal ∷ []) suspect observe_only).recommended_action
    ≡ observe
no_risk-observe_example =
    no_risk-observe fixed fixed-IsFloats (human_signal ∷ []) (refl, tt) (refl, tt) "ep_1" suspect
      observe_only

abbrev headless : DetectorSignal ℕ
headless = record human_signal {
  reason_code = "headless_browser";
  contribution_target = automation;
}

likelihoods-snoc_example :
    (fixed.le
        (score_interaction fixed "ep_1" evidence suspect observe_only).automation_likelihood
        (score_interaction fixed "ep_1"
          (evidence ++ headless ∷ [])
          suspect
          observe_only).automation_likelihood
      ≡ true)
    × (fixed.le
          (score_interaction fixed "ep_1" evidence suspect observe_only).agentic_control_likelihood
          (score_interaction fixed "ep_1"
            (evidence ++ headless ∷ [])
            suspect
            observe_only).agentic_control_likelihood
        ≡ true)
likelihoods-snoc_example =
    likelihoods-snoc fixed fixed-IsFloats "ep_1" evidence headless suspect observe_only refl
