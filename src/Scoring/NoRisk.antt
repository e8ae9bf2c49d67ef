-- ===== src/Scoring/NoRisk.antt =====
-- What truepresence/scoring/model.py recommends for a session without a risk signal.
use Prim.Native.String.{String}
use true_presence_ese.Base.{
  ℕ, ◌<◌, ◌≤◌, ◌≡◌, refl, ap, true, false, List, [], ◌∷◌, arith, subst, sym,
}
use true_presence_ese.Float.{Floats, IsFloats, InUnit}
use true_presence_ese.Float.Laws.{clamp-dec, clamp-InUnit, min_f-le_right, dec-InUnit}
use true_presence_ese.Sdk.{InteractionFeaturePacket, EnforcementMode, observe}
use true_presence_ese.Detectors.Signal.{
  ContributionTarget, human_presence, automation, agentic_control, DetectorSignal,
}
use true_presence_ese.Scoring.Model.{
  same_target, is_risk_target, complements, product_of_complements, total_risk_cats,
  corroboration_bonus, combined_risk, effective_human, reduced_risk, is_contradicted, adjusted_risk,
  n_risk_signals, evidence_sufficiency, sufficiency, confidence_of, recommended_action,
  score_interaction,
}
use true_presence_ese.Scoring.Bounds.{mul-InUnit, confidence_of-le_sufficiency}
use true_presence_ese.Scoring.Quiet.{HasNone, target_risk-none, clamp-le_literal, zero_product}

module _ (o : Floats) (l : IsFloats o) where
  open o use {F, dec, le, add, sub, mul}

  one_unit : InUnit o (dec 100)
  one_unit = dec-InUnit o l 100 (omega arith)

  zero_unit : InUnit o (dec 0)
  zero_unit = dec-InUnit o l 0 (omega arith)

  whole_kept : InUnit o (sub (dec 100) (dec 0))
  whole_kept = l.sub_InUnit (dec 0) zero_unit

  -- A factor 1 - 0 takes nothing away.
  le-mul_kept : (x : F) → InUnit o x → le x (mul x (sub (dec 100) (dec 0))) ≡ true
  le-mul_kept x u = l.le_trans x (mul x (dec 100)) _ (l.le-mul_one x u) (
      l.mul_mono x x (dec 100) (sub (dec 100) (dec 0)) u u one_unit whole_kept (l.le_refl x)
        l.sub_zero)

  complements-zeros :
      complements o (dec 100) (dec 0 ∷ dec 0 ∷ [])
      ≡ mul (mul (dec 100) (sub (dec 100) (dec 0))) (sub (dec 100) (dec 0))
  unfolding complements
  complements-zeros =
      ap (λ z. mul (mul (dec 100) (sub (dec 100) z)) (sub (dec 100) z))
        (clamp-dec o l 0 (omega arith))

  effective_human-InUnit :
      (packet : InteractionFeaturePacket F) (signals : List (DetectorSignal F))
      → InUnit o (effective_human o packet signals)
  unfolding effective_human
  effective_human-InUnit packet signals = clamp-InUnit o l _

  combined_risk-InUnit : (signals : List (DetectorSignal F)) → InUnit o (combined_risk o signals)
  unfolding combined_risk
  combined_risk-InUnit signals = clamp-InUnit o l _

  -- 1 - human * n / 100
  pub human_factor-InUnit :
      (packet : InteractionFeaturePacket F) (signals : List (DetectorSignal F)) (n : ℕ)
      → n ≤ 100
      → InUnit o (sub (dec 100) (mul (effective_human o packet signals) (dec n)))
  human_factor-InUnit packet signals n h =
      l.sub_InUnit _
        (mul-InUnit o l _ (dec n) (effective_human-InUnit packet signals) (dec-InUnit o l n h))

  no_strength : le (product_of_complements o (dec 0 ∷ dec 0 ∷ [])) (dec 0) ≡ true
  unfolding product_of_complements
  no_strength =
      let kept = sub (dec 100) (dec 0) in
      let once = mul (dec 100) kept in
      let once_unit = mul-InUnit o l (dec 100) kept one_unit whole_kept in
      let twice_unit = mul-InUnit o l once kept once_unit whole_kept in
      let enough : le (dec 100) (mul once kept) ≡ true =
        l.le_trans (dec 100) once (mul once kept) (le-mul_kept (dec 100) one_unit)
          (le-mul_kept once once_unit) in
      let all = complements o (dec 100) (dec 0 ∷ dec 0 ∷ []) in
      clamp-le_literal o l (sub (dec 100) all) 0 (omega arith) (
        l.le_trans (sub (dec 100) all) (sub (dec 100) (dec 100)) (dec 0)
          (l.sub_anti (dec 100) all one_unit (subst (InUnit o) (sym complements-zeros) twice_unit)
            (subst (λ z. le (dec 100) z ≡ true) (sym complements-zeros) enough))
          l.sub_self)

  no_risk_target :
      (t : ContributionTarget)
      → same_target t automation ≡ false
      → same_target t agentic_control ≡ false
      → is_risk_target t ≡ false
  no_risk_target human_presence h k = refl
  no_risk_target automation h k = cc
  no_risk_target agentic_control h k = cc

  count_none :
      (signals : List (DetectorSignal F))
      → HasNone o l automation signals
      → HasNone o l agentic_control signals
      → n_risk_signals o signals ≡ 0
  unfolding n_risk_signals
  count_none [] h k = refl
  count_none (s ∷ signals) h k =
      rw (no_risk_target s.contribution_target h.0 k.0, count_none signals h.1 k.1)

  sufficiency-none :
      (signals : List (DetectorSignal F))
      → n_risk_signals o signals ≡ 0
      → sufficiency o signals ≡ dec 20
  unfolding sufficiency evidence_sufficiency
  sufficiency-none signals h = rw h

  module _ (signals : List (DetectorSignal F)) (auto : HasNone o l automation signals)
      (agentic : HasNone o l agentic_control signals) where
    no_bonus : le (corroboration_bonus o signals) (dec 0) ≡ true
    unfolding corroboration_bonus total_risk_cats
    no_bonus =
        rw
          (
            target_risk-none o l automation signals auto,
            target_risk-none o l agentic_control signals agentic,
          )
          (clamp-le_literal o l _ 0 (omega arith) (
            l.le_trans _ (mul (dec 0) (dec 5)) (dec 0)
              (min_f-le_right o l (dec 15) (mul (dec 0) (dec 5)))
              (zero_product o l (dec 5) (dec-InUnit o l 5 (omega arith)))))

    no_combined : le (combined_risk o signals) (dec 0) ≡ true
    unfolding combined_risk
    no_combined =
        rw
          (
            target_risk-none o l automation signals auto,
            target_risk-none o l agentic_control signals agentic,
          )
          (clamp-le_literal o l _ 0 (omega arith) (
            l.le_trans _ (product_of_complements o (dec 0 ∷ dec 0 ∷ [])) (dec 0)
              (l.add-le _ (corroboration_bonus o signals) no_bonus) no_strength))

    no_reduced :
        (packet : InteractionFeaturePacket F) → le (reduced_risk o packet signals) (dec 0) ≡ true
    unfolding reduced_risk
    no_reduced packet = clamp-le_literal o l _ 0 (omega arith) (
        l.le_trans _ (combined_risk o signals) (dec 0)
          (l.mul_le_left (combined_risk o signals) _ (combined_risk-InUnit signals)
            (human_factor-InUnit packet signals 60 (omega arith)))
          no_combined)

    zero_below : (x : F) (n : ℕ) → 0 < n → n ≤ 100 → le x (dec 0) ≡ true → le (dec n) x ≡ false
    zero_below x n h k e = ground (arith, l.le_trans (dec n) x (dec 0), l.le_dec n 0)

    no_adjusted :
        (packet : InteractionFeaturePacket F) → le (adjusted_risk o packet signals) (dec 0) ≡ true
    unfolding adjusted_risk is_contradicted
    no_adjusted packet = ground (
      arith,
      no_reduced packet,
      l.le_trans (reduced_risk o packet signals) (dec 0) (dec 50),
      l.le_dec 0 50,
    )

    no_count : n_risk_signals o signals ≡ 0
    no_count = count_none signals auto agentic

    little_confidence :
        (packet : InteractionFeaturePacket F) → le (confidence_of o packet signals) (dec 20) ≡ true
    little_confidence packet =
        subst (λ z. le (confidence_of o packet signals) z ≡ true) floor
          (confidence_of-le_sufficiency o l packet signals).0
      where
        floor : sufficiency o signals ≡ dec 20
        floor = sufficiency-none signals no_count

    -- Without an automation or an agentic-control signal the recommended action is `observe`,
    -- whatever the features and the signals for a human: never `allow`.
    pub no_risk-observe :
        (id : String) (packet : InteractionFeaturePacket F) (mode : EnforcementMode)
        → (score_interaction o id signals packet mode).recommended_action ≡ observe
    unfolding score_interaction recommended_action
    no_risk-observe id packet mode = rw (
      zero_below (adjusted_risk o packet signals) 30 (omega arith) (omega arith)
          (no_adjusted packet),
      low_confidence packet,
    )
      where
        low_confidence :
            (packet : InteractionFeaturePacket F)
            → le (dec 50) (confidence_of o packet signals) ≡ false
        low_confidence packet = ground (
          arith,
          little_confidence packet,
          l.le_trans (dec 50) (confidence_of o packet signals) (dec 20),
          l.le_dec 50 20,
        )
