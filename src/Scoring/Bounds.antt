-- ===== src/Scoring/Bounds.antt =====
-- The ranges that the response model of truepresence/sdk/contracts.py demands, and how far the
-- confidence can go.
use Prim.Native.String.{String}
use true_presence_ese.Base.{
  ℕ, ◌≤◌, ◌<◌, ◌*◌, ◌==◌, ◌≡◌, true, false, List, arith, Bool-cases, inl, inr, subst,
}
use true_presence_ese.Float.{Floats, IsFloats, InUnit, clamp, whole, min_f}
use true_presence_ese.Float.Laws.{
  clamp-InUnit, clamp_mono, clamp-le, dec-InUnit, zero_le_one, le-min_f, clamp-dec,
}
use true_presence_ese.Sdk.{InteractionFeaturePacket, EnforcementMode}
use true_presence_ese.Detectors.Signal.{DetectorSignal}
use true_presence_ese.Scoring.Model.{
  evidence_sufficiency, reduced_risk, is_contradicted, adjusted_risk, contradiction_factor,
  total_risk_cats, n_risk_signals, sufficiency, confidence_of, score_interaction,
}

module _ (o : Floats) (l : IsFloats o) where
  open o use {F, dec, le, add, sub, mul, div, round4}

  round4-InUnit : (x : F) → InUnit o x → InUnit o (round4 x)
  round4-InUnit x u = (
    subst (λ z. le z (round4 x) ≡ true) l.round4_unit.0 (l.round4_mono (dec 0) x u.0),
    subst (λ z. le (round4 x) z ≡ true) l.round4_unit.1 (l.round4_mono x (dec 100) u.1),
  )

  -- Whatever the signals and the packet, the four scores of the response lie between 0 and 1, so
  -- that the response model, which checks this, never refuses them.
  pub score_interaction-InUnit :
      (id : String) (signals : List (DetectorSignal F)) (packet : InteractionFeaturePacket F)
      (mode : EnforcementMode)
      → InUnit o (score_interaction o id signals packet mode).human_presence_likelihood
        × InUnit o (score_interaction o id signals packet mode).automation_likelihood
        × InUnit o (score_interaction o id signals packet mode).agentic_control_likelihood
        × InUnit o (score_interaction o id signals packet mode).confidence
  unfolding score_interaction confidence_of
  score_interaction-InUnit id signals packet mode = (
    round4-InUnit _ (clamp-InUnit o l _),
    round4-InUnit _ (clamp-InUnit o l _),
    round4-InUnit _ (clamp-InUnit o l _),
    round4-InUnit _ (clamp-InUnit o l _),
  )

  pub mul-InUnit : (x y : F) → InUnit o x → InUnit o y → InUnit o (mul x y)
  mul-InUnit x y u v =
      (l.mul_nonneg x y u.0 v.0, l.le_trans (mul x y) x (dec 100) (l.mul_le_left x y u v) u.1)

  -- 0.5 + x * 0.5
  half_shift-InUnit : (x : F) → InUnit o x → InUnit o (add (dec 50) (mul x (dec 50)))
  half_shift-InUnit x u =
      let half : InUnit o (dec 50) = dec-InUnit o l 50 (omega arith) in
      let one : InUnit o (dec 100) = dec-InUnit o l 100 (omega arith) in
      let product : InUnit o (mul x (dec 50)) = mul-InUnit x (dec 50) u half in
      (
        l.le_trans (dec 0) (dec 50) _ half.0 (l.le-add (dec 50) (mul x (dec 50)) product.0),
        l.le_trans _ (add (dec 50) (dec 50)) (dec 100)
            (l.add_mono (dec 50) (dec 50) (mul x (dec 50)) (dec 50) half half product half
              (l.le_refl (dec 50)) (rw (l.mul_comm x (dec 50)) (l.mul_le_left (dec 50) x half u)))
            l.add_halves,
      )

  sufficiency-InUnit : (c n : ℕ) → InUnit o (evidence_sufficiency o c n)
  unfolding evidence_sufficiency
  sufficiency-InUnit c n = elim (Bool-cases (n == 0)) [
    | inl e ↦ rw e (dec-InUnit o l 20 (omega arith))
    | inr e ↦ rw e (clamp-InUnit o l _)
  ]

  whole_pos : (k : ℕ) → 0 < k → k ≤ 10 → le (whole o k) (dec 0) ≡ false
  whole_pos k h j = ground (arith, l.le_dec (k * 100) 0)

  capped_nonneg :
      (n k : ℕ)
      → 0 < k
      → k ≤ 10
      → le (dec 0) (min_f o (dec 100) (div (whole o n) (whole o k))) ≡ true
  capped_nonneg n k h j =
      le-min_f o l (dec 100) (div (whole o n) (whole o k)) (dec 0) (zero_le_one o l)
        (l.div_nonneg (whole o n) (whole o k) (l.dec_nonneg (n * 100)) (whole_pos k h j))

  evidence_sufficiency-floor : (c n : ℕ) → le (dec 20) (evidence_sufficiency o c n) ≡ true
  unfolding evidence_sufficiency
  evidence_sufficiency-floor c n =
      let a = min_f o (dec 100) (div (whole o c) (whole o 3)) in
      let b = min_f o (dec 100) (div (whole o n) (whole o 4)) in
      let a_pos : le (dec 0) a ≡ true = capped_nonneg c 3 (omega arith) (omega arith) in
      let b_pos : le (dec 0) b ≡ true = capped_nonneg n 4 (omega arith) (omega arith) in
      let sum_pos : le (dec 0) (add a b) ≡ true =
        l.le_trans (dec 0) a (add a b) a_pos (l.le-add a b b_pos) in
      let extra_pos : le (dec 0) (mul (dec 80) (div (add a b) (whole o 2))) ≡ true =
        l.mul_nonneg (dec 80) (div (add a b) (whole o 2)) (l.dec_nonneg 80)
          (l.div_nonneg (add a b) (whole o 2) sum_pos (whole_pos 2 (omega arith) (omega arith))) in
      elim (Bool-cases (n == 0)) [
        | inl e ↦ rw e (l.le_refl (dec 20))
        | inr e ↦ rw e (
            subst
              (λ z. le z (clamp o (add (dec 20) (mul (dec 80) (div (add a b) (whole o 2))))) ≡ true)
              (clamp-dec o l 20 (omega arith))
              (clamp_mono o l (dec 20) _ (l.le-add (dec 20) _ extra_pos)))
      ]

  contradiction-InUnit :
      (packet : InteractionFeaturePacket F) (signals : List (DetectorSignal F))
      → InUnit o (contradiction_factor o packet signals)
  unfolding contradiction_factor
  contradiction-InUnit packet signals = elim (Bool-cases (is_contradicted o packet signals)) [
    | inl e ↦ rw e (dec-InUnit o l 20 (omega arith))
    | inr e ↦ rw e (dec-InUnit o l 0 (omega arith))
  ]

  pub adjusted_risk-InUnit :
      (packet : InteractionFeaturePacket F) (signals : List (DetectorSignal F))
      → InUnit o (adjusted_risk o packet signals)
  unfolding adjusted_risk reduced_risk
  adjusted_risk-InUnit packet signals = elim (Bool-cases (is_contradicted o packet signals)) [
    | inl e ↦ rw e (clamp-InUnit o l _)
    | inr e ↦ rw e (clamp-InUnit o l _)
  ]

  -- The evidence sufficiency lies between 0.20 and 1, and the confidence never exceeds it.
  pub confidence_of-le_sufficiency :
      (packet : InteractionFeaturePacket F) (signals : List (DetectorSignal F))
      → (le (confidence_of o packet signals) (sufficiency o signals) ≡ true)
        × (le (dec 20) (sufficiency o signals) ≡ true)
        × (le (sufficiency o signals) (dec 100) ≡ true)
  unfolding confidence_of sufficiency
  confidence_of-le_sufficiency packet signals =
      let enough = evidence_sufficiency o (total_risk_cats o signals) (n_risk_signals o signals) in
      let enough_unit = sufficiency-InUnit (total_risk_cats o signals) (n_risk_signals o signals) in
      let kept = sub (dec 100) (contradiction_factor o packet signals) in
      let kept_unit = l.sub_InUnit _ (contradiction-InUnit packet signals) in
      let shift = add (dec 50) (mul (adjusted_risk o packet signals) (dec 50)) in
      let shift_unit = half_shift-InUnit _ (adjusted_risk-InUnit packet signals) in
      let product_unit = mul-InUnit enough kept enough_unit kept_unit in
      (
        l.le_trans _ (mul (mul enough kept) shift) enough
            (clamp-le o l _ (l.mul_nonneg (mul enough kept) shift product_unit.0 shift_unit.0))
            (l.le_trans _ (mul enough kept) enough
              (l.mul_le_left (mul enough kept) shift product_unit shift_unit)
              (l.mul_le_left enough kept enough_unit kept_unit)),
        evidence_sufficiency-floor (total_risk_cats o signals) (n_risk_signals o signals),
        enough_unit.1,
      )
