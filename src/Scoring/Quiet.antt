-- ===== src/Scoring/Quiet.antt =====
-- What truepresence/scoring/model.py does without signals for a human, and without risk signals.
use Prim.Native.String.{String}
use true_presence_ese.Base.{ℕ, ◌<◌, ◌≡◌, refl, true, false, List, [], ◌∷◌, All, arith, subst}
use true_presence_ese.Float.{Floats, IsFloats, InUnit, clamp}
use true_presence_ese.Float.Laws.{clamp_mono, clamp-dec, min_f-le_left, dec-InUnit}
use true_presence_ese.Sdk.{InteractionFeaturePacket}
use true_presence_ese.Detectors.Signal.{
  ContributionTarget, human_presence, SignalCategory, agentic_behavior, DetectorSignal,
}
use true_presence_ese.Detectors.InOrder.{InOrder, done, skip, emit}
use true_presence_ese.Detectors.Agentic.{run_human_plausibility_detectors}
use true_presence_ese.Detectors.Strength.{IsRiskSignal, target_of}
use true_presence_ese.Detectors.TypingRisk.{HasLatency}
use true_presence_ese.Detectors.Risk.{run_human_plausibility_detectors-InOrder}
use true_presence_ese.Scoring.Model.{
  same_target, partition_from, partition_signals, aggregate_risk, target_risk, effective_human,
  human_feature_support, is_contradicted, contradiction_factor, adjusted_risk, reduced_risk,
}

module _ (o : Floats) (l : IsFloats o) where
  open o use {F, dec, le, add, mul}

  abbrev pub HasNone : ContributionTarget → List (DetectorSignal F) → Type 0
  HasNone t signals =
      All (λ (s : DetectorSignal F). same_target s.contribution_target t ≡ false) signals

  partition_from-none :
      (t : ContributionTarget) (signals : List (DetectorSignal F))
      (by_cat : List (SignalCategory × List F))
      → HasNone t signals
      → partition_from o by_cat signals t ≡ by_cat
  unfolding partition_from
  partition_from-none t [] by_cat h = refl
  partition_from-none t (s ∷ signals) by_cat h = rw h.0 (partition_from-none t signals by_cat h.1)

  pub target_risk-none :
      (t : ContributionTarget) (signals : List (DetectorSignal F))
      → HasNone t signals
      → target_risk o signals t ≡ (dec 0, 0)
  unfolding target_risk partition_signals aggregate_risk
  target_risk-none t signals h = rw (partition_from-none t signals [] h)

  human_feature_support-le :
      (packet : InteractionFeaturePacket F) → le (human_feature_support o packet) (dec 30) ≡ true
  unfolding human_feature_support
  human_feature_support-le packet = min_f-le_left o l (dec 30) _

  pub zero_product : (y : F) → InUnit o y → le (mul (dec 0) y) (dec 0) ≡ true
  zero_product y u = l.mul_le_left (dec 0) y (dec-InUnit o l 0 (omega arith)) u

  pub clamp-le_literal :
      (x : F) (n : ℕ) → n < 100 → le x (dec n) ≡ true → le (clamp o x) (dec n) ≡ true
  clamp-le_literal x n h k =
      subst (λ z. le (clamp o x) z ≡ true) (clamp-dec o l n h) (clamp_mono o l x (dec n) k)

  -- Without signals for a human, the evidence for one is what the features give, 0.30 at most.
  effective_human-le :
      (packet : InteractionFeaturePacket F) (signals : List (DetectorSignal F))
      → HasNone human_presence signals
      → le (effective_human o packet signals) (dec 30) ≡ true
  unfolding effective_human
  effective_human-le packet signals h = rw (target_risk-none human_presence signals h) (
      clamp-le_literal _ 30 (omega arith) (
        l.le_trans _ (human_feature_support o packet) (dec 30)
          (l.add-le (human_feature_support o packet) (mul (dec 0) (dec 50))
            (zero_product (dec 50) (dec-InUnit o l 50 (omega arith))))
          (human_feature_support-le packet)))

  pub not_contradicted :
      (packet : InteractionFeaturePacket F) (signals : List (DetectorSignal F))
      → HasNone human_presence signals
      → is_contradicted o packet signals ≡ false
  unfolding is_contradicted
  not_contradicted packet signals h = ground (
    arith,
    effective_human-le packet signals h,
    l.le_trans (effective_human o packet signals) (dec 30) (dec 50),
    l.le_dec 30 50,
  )

  target_of-not-human : (c : SignalCategory) → same_target (target_of c) human_presence ≡ false
  target_of-not-human agentic_behavior = refl
  target_of-not-human _ = refl

  InOrder→HasNone :
      {codes : List String} {signals : List (DetectorSignal F)}
      → InOrder (IsRiskSignal o) codes signals
      → HasNone human_presence signals
  InOrder→HasNone done = tt
  InOrder→HasNone (skip rest) = InOrder→HasNone rest
  InOrder→HasNone (emit s e p rest) =
      (rw p.targeted (target_of-not-human s.category), InOrder→HasNone rest)

  -- On the signals that the program's own detectors emit, for a packet whose response latency is
  -- not negative, the contradiction penalty never applies: the factor is 0 and the adjusted risk
  -- is the risk after the reduction for human support.
  pub contradiction_never :
      (packet : InteractionFeaturePacket F)
      → HasLatency o l packet.challenge
      → (contradiction_factor o packet (run_human_plausibility_detectors o packet) ≡ dec 0)
        × (adjusted_risk o packet (run_human_plausibility_detectors o packet)
            ≡ reduced_risk o packet (run_human_plausibility_detectors o packet))
  unfolding contradiction_factor adjusted_risk
  contradiction_never packet h =
      let signals = run_human_plausibility_detectors o packet in
      let calm : is_contradicted o packet signals ≡ false =
        not_contradicted packet signals
          (InOrder→HasNone (run_human_plausibility_detectors-InOrder o l packet h)) in
      (rw calm, rw calm)
