-- ===== src/Scoring/Independence.antt =====
-- Which signals the likelihoods of truepresence/scoring/model.py rest on.
use Prim.Native.String.{String}
use true_presence_ese.Base.{
  ◌≡◌, refl, ap, true, false, List, [], ◌∷◌, arith, Bool-cases, inl, inr, if◌then◌else◌,
}
use true_presence_ese.Float.{Floats}
use true_presence_ese.Sdk.{InteractionFeaturePacket, EnforcementMode}
use true_presence_ese.Detectors.Signal.{
  ContributionTarget, human_presence, automation, agentic_control, SignalCategory, DetectorSignal,
}
use true_presence_ese.Scoring.Model.{
  same_target, partition_from, partition_signals, aggregate_risk, target_risk, effective_human,
  score_interaction,
}

module _ (o : Floats) where
  open o use {F}

  -- The signals that do not have the target.
  abbrev pub drop_target : ContributionTarget → List (DetectorSignal F) → List (DetectorSignal F)
  drop_target t [] = []
  drop_target t (s ∷ signals) =
      if same_target s.contribution_target t
      then drop_target t signals
      else s ∷ drop_target t signals

  other_target :
      (s t u : ContributionTarget)
      → same_target s t ≡ true
      → same_target t u ≡ false
      → same_target s u ≡ false
  other_target s t u h k = ground arith

  partition_from-drop_target :
      (t u : ContributionTarget) (signals : List (DetectorSignal F))
      (by_cat : List (SignalCategory × List F))
      → same_target t u ≡ false
      → partition_from o by_cat (drop_target t signals) u ≡ partition_from o by_cat signals u
  unfolding partition_from
  partition_from-drop_target t u [] by_cat h = refl
  partition_from-drop_target t u (s ∷ signals) by_cat h =
      elim (Bool-cases (same_target s.contribution_target t)) [
        | inl e ↦
            rw (e, other_target s.contribution_target t u e h)
              (partition_from-drop_target t u signals by_cat h)
        | inr e ↦ rw e (partition_from-drop_target t u signals _ h)
      ]

  target_risk-drop_target :
      (t u : ContributionTarget) (signals : List (DetectorSignal F))
      → same_target t u ≡ false
      → target_risk o (drop_target t signals) u ≡ target_risk o signals u
  unfolding target_risk partition_signals
  target_risk-drop_target t u signals h =
      ap (aggregate_risk o) (partition_from-drop_target t u signals [] h)

  -- Automation signals have no bearing on the agentic-control likelihood, nor agentic-control
  -- signals on the automation likelihood: with all of them removed it is what it was.
  pub likelihoods_independent :
      (id : String) (signals : List (DetectorSignal F)) (packet : InteractionFeaturePacket F)
      (mode : EnforcementMode)
      → ((score_interaction o id
            (drop_target automation signals)
            packet
            mode).agentic_control_likelihood
          ≡ (score_interaction o id signals packet mode).agentic_control_likelihood)
        × ((score_interaction o id
              (drop_target agentic_control signals)
              packet
              mode).automation_likelihood
            ≡ (score_interaction o id signals packet mode).automation_likelihood)
  unfolding score_interaction effective_human
  likelihoods_independent id signals packet mode = (
    rw (
      target_risk-drop_target automation agentic_control signals refl,
      target_risk-drop_target automation human_presence signals refl,
    ),
    rw (
      target_risk-drop_target agentic_control automation signals refl,
      target_risk-drop_target agentic_control human_presence signals refl,
    ),
  )
