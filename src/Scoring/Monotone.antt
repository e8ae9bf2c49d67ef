-- ===== src/Scoring/Monotone.antt =====
-- More evidence of risk never lowers the likelihoods of truepresence/scoring/model.py.
use Prim.Native.String.{String}
use true_presence_ese.Base.{
  ◌≡◌, refl, true, false, List, [], ◌∷◌, ◌++◌, arith, Bool-cases, inl, inr, if◌then◌else◌, subst,
}
use true_presence_ese.Float.{Floats, IsFloats, InUnit, clamp}
use true_presence_ese.Float.Laws.{clamp-InUnit, clamp_mono, dec-InUnit}
use true_presence_ese.Sdk.{InteractionFeaturePacket, EnforcementMode}
use true_presence_ese.Detectors.Signal.{
  ContributionTarget, human_presence, automation, agentic_control, SignalCategory,
  timing_plausibility, typing_cadence, input_method, pointer_behavior, session_continuity,
  environment, agentic_behavior, external_provider, DetectorSignal,
}
use true_presence_ese.Scoring.Model.{
  same_category, same_target, category_weights, complements, product_of_complements,
  signal_strength, append_to, partition_from, partition_signals, weighted_strengths, aggregate_risk,
  target_risk, effective_human, score_interaction,
}
use true_presence_ese.Scoring.Bounds.{mul-InUnit}
use true_presence_ese.Scoring.NoRisk.{human_factor-InUnit}

module _ (o : Floats) (l : IsFloats o) where
  open o use {F, dec, le, sub, mul, round4}

  -- Each strength of the first list has one at least as large in its place, and more may follow.
  abbrev IsDominated : List F → List F → Type 0
  IsDominated [] ys = Unit
  IsDominated (x ∷ xs) [] = ⊥
  IsDominated (x ∷ xs) (y ∷ ys) = (le x y ≡ true) × IsDominated xs ys

  IsDominated-refl : (xs : List F) → IsDominated xs xs
  IsDominated-refl [] = tt
  IsDominated-refl (x ∷ xs) = (l.le_refl x, IsDominated-refl xs)

  IsDominated-append : (xs ys : List F) → IsDominated xs (xs ++ ys)
  IsDominated-append [] ys = tt
  IsDominated-append (x ∷ xs) ys = (l.le_refl x, IsDominated-append xs ys)

  kept-InUnit : (s : F) → InUnit o (sub (dec 100) (clamp o s))
  kept-InUnit s = l.sub_InUnit (clamp o s) (clamp-InUnit o l s)

  complements-InUnit : (xs : List F) (r : F) → InUnit o r → InUnit o (complements o r xs)
  unfolding complements
  complements-InUnit [] r u = u
  complements-InUnit (x ∷ xs) r u =
      complements-InUnit xs _ (mul-InUnit o l r (sub (dec 100) (clamp o x)) u (kept-InUnit x))

  complements-le : (xs : List F) (r : F) → InUnit o r → le (complements o r xs) r ≡ true
  unfolding complements
  complements-le [] r u = l.le_refl r
  complements-le (x ∷ xs) r u =
      let kept = sub (dec 100) (clamp o x) in
      l.le_trans _ (mul r kept) r
        (complements-le xs (mul r kept) (mul-InUnit o l r kept u (kept-InUnit x)))
        (l.mul_le_left r kept u (kept-InUnit x))

  complements_anti :
      (xs ys : List F) (r r' : F)
      → InUnit o r
      → InUnit o r'
      → le r' r ≡ true
      → IsDominated xs ys
      → le (complements o r' ys) (complements o r xs) ≡ true
  unfolding complements
  complements_anti [] ys r r' u u' h d = l.le_trans _ r' r (complements-le ys r' u') h
  complements_anti (x ∷ xs) [] r r' u u' h d = absurd d
  complements_anti (x ∷ xs) (y ∷ ys) r r' u u' h d =
      let kx = sub (dec 100) (clamp o x) in
      let ky = sub (dec 100) (clamp o y) in
      complements_anti xs ys (mul r kx) (mul r' ky) (mul-InUnit o l r kx u (kept-InUnit x))
        (mul-InUnit o l r' ky u' (kept-InUnit y))
        (l.mul_mono r' r ky kx u' u (kept-InUnit y) (kept-InUnit x) h (
          l.sub_anti (clamp o x) (clamp o y) (clamp-InUnit o l x) (clamp-InUnit o l y)
            (clamp_mono o l x y d.0)))
        d.1

  product_of_complements_mono :
      (xs ys : List F)
      → IsDominated xs ys
      → le (product_of_complements o xs) (product_of_complements o ys) ≡ true
  unfolding product_of_complements
  product_of_complements_mono xs ys d =
      let one : InUnit o (dec 100) = dec-InUnit o l 100 (omega arith) in
      clamp_mono o l _ _ (
        l.sub_anti (complements o (dec 100) ys) (complements o (dec 100) xs)
          (complements-InUnit ys (dec 100) one) (complements-InUnit xs (dec 100) one)
          (complements_anti xs ys (dec 100) (dec 100) one one (l.le_refl (dec 100)) d))

  product-InUnit : (xs : List F) → InUnit o (product_of_complements o xs)
  unfolding product_of_complements
  product-InUnit xs = clamp-InUnit o l _

  weight-InUnit : (c : SignalCategory) → InUnit o (category_weights o c)
  weight-InUnit timing_plausibility = dec-InUnit o l 70 (omega arith)
  weight-InUnit typing_cadence = dec-InUnit o l 65 (omega arith)
  weight-InUnit input_method = dec-InUnit o l 60 (omega arith)
  weight-InUnit pointer_behavior = dec-InUnit o l 55 (omega arith)
  weight-InUnit session_continuity = dec-InUnit o l 50 (omega arith)
  weight-InUnit environment = dec-InUnit o l 45 (omega arith)
  weight-InUnit agentic_behavior = dec-InUnit o l 80 (omega arith)
  weight-InUnit external_provider = dec-InUnit o l 50 (omega arith)

  append_to-dominates :
      (c : SignalCategory) (x : F) (by_cat : List (SignalCategory × List F))
      → IsDominated (weighted_strengths o by_cat) (weighted_strengths o (append_to o c x by_cat))
  unfolding weighted_strengths append_to
  append_to-dominates c x [] = tt
  append_to-dominates c x ((d, xs) ∷ by_cat) = elim (Bool-cases (same_category d c)) [
    | inl e ↦ rw e (
      l.mul_mono (category_weights o d) (category_weights o d) (product_of_complements o xs)
          (product_of_complements o (xs ++ x ∷ [])) (weight-InUnit d) (weight-InUnit d)
          (product-InUnit xs) (product-InUnit (xs ++ x ∷ [])) (l.le_refl (category_weights o d))
          (product_of_complements_mono xs (xs ++ x ∷ []) (IsDominated-append xs (x ∷ []))),
      IsDominated-refl (weighted_strengths o by_cat),
    )
    | inr e ↦ rw e (l.le_refl _, append_to-dominates c x by_cat)
  ]

  append_to-cons :
      (c : SignalCategory) (x : F) (by_cat : List (SignalCategory × List F))
      → (first : SignalCategory × List F) × (rest : List (SignalCategory × List F)) × (append_to o c
            x by_cat
          ≡ first ∷ rest)
  unfolding append_to
  append_to-cons c x [] = ((c, x ∷ []), [], refl)
  append_to-cons c x ((d, xs) ∷ by_cat) = elim (Bool-cases (same_category d c)) [
    | inl e ↦ ((d, xs ++ x ∷ []), by_cat, rw e)
    | inr e ↦ ((d, xs), append_to o c x by_cat, rw e)
  ]

  aggregate_risk-append_to :
      (c : SignalCategory) (x : F) (by_cat : List (SignalCategory × List F))
      → le (aggregate_risk o by_cat).0 (aggregate_risk o (append_to o c x by_cat)).0 ≡ true
  unfolding aggregate_risk
  aggregate_risk-append_to c x [] =
      let (first, rest, e) = append_to-cons c x [] in
      rw e (product-InUnit (weighted_strengths o (first ∷ rest))).0
  aggregate_risk-append_to c x ((d, xs) ∷ by_cat) =
      let (first, rest, e) = append_to-cons c x ((d, xs) ∷ by_cat) in
      let before = product_of_complements o (weighted_strengths o ((d, xs) ∷ by_cat)) in
      rw e (
        subst (λ b. le before (product_of_complements o (weighted_strengths o b)) ≡ true) e
          (product_of_complements_mono _ _ (append_to-dominates c x ((d, xs) ∷ by_cat))))

  partition_from-snoc :
      (t : ContributionTarget) (s : DetectorSignal F) (signals : List (DetectorSignal F))
      (by_cat : List (SignalCategory × List F))
      → partition_from o by_cat (signals ++ s ∷ []) t ≡ (
          if same_target s.contribution_target t
          then append_to o s.category (signal_strength o s) (partition_from o by_cat signals t)
          else partition_from o by_cat signals t)
  unfolding partition_from
  partition_from-snoc t s [] by_cat = refl
  partition_from-snoc t s (r ∷ signals) by_cat = partition_from-snoc t s signals _

  target_risk-snoc :
      (t : ContributionTarget) (s : DetectorSignal F) (signals : List (DetectorSignal F))
      → le (target_risk o signals t).0 (target_risk o (signals ++ s ∷ []) t).0 ≡ true
  unfolding target_risk partition_signals
  target_risk-snoc t s signals =
      rw (partition_from-snoc t s signals [])
        (elim (Bool-cases (same_target s.contribution_target t)) [
          | inl e ↦ rw e (
              aggregate_risk-append_to s.category (signal_strength o s)
                (partition_from o [] signals t))
          | inr e ↦ rw e (l.le_refl _)
        ])

  target_risk-snoc_other :
      (t : ContributionTarget) (s : DetectorSignal F) (signals : List (DetectorSignal F))
      → same_target s.contribution_target t ≡ false
      → target_risk o (signals ++ s ∷ []) t ≡ target_risk o signals t
  unfolding target_risk partition_signals
  target_risk-snoc_other t s signals h = rw (partition_from-snoc t s signals [], h)

  effective-snoc :
      (packet : InteractionFeaturePacket F) (s : DetectorSignal F)
      (signals : List (DetectorSignal F))
      → same_target s.contribution_target human_presence ≡ false
      → effective_human o packet (signals ++ s ∷ []) ≡ effective_human o packet signals
  unfolding effective_human
  effective-snoc packet s signals h = rw (target_risk-snoc_other human_presence s signals h)

  aggregate_risk-InUnit :
      (by_cat : List (SignalCategory × List F)) → InUnit o (aggregate_risk o by_cat).0
  unfolding aggregate_risk
  aggregate_risk-InUnit [] = dec-InUnit o l 0 (omega arith)
  aggregate_risk-InUnit (c ∷ by_cat) = product-InUnit (weighted_strengths o (c ∷ by_cat))

  target_risk-InUnit :
      (signals : List (DetectorSignal F)) (t : ContributionTarget)
      → InUnit o (target_risk o signals t).0
  unfolding target_risk
  target_risk-InUnit signals t = aggregate_risk-InUnit (partition_signals o signals t)

  likelihood_mono :
      (r r' k : F)
      → InUnit o r
      → InUnit o r'
      → InUnit o k
      → le r r' ≡ true
      → le (round4 (clamp o (mul r k))) (round4 (clamp o (mul r' k))) ≡ true
  likelihood_mono r r' k u u' v h =
      l.round4_mono _ _
        (clamp_mono o l (mul r k) (mul r' k) (l.mul_mono r r' k k u u' v v h (l.le_refl k)))

  -- One more signal, whatever its severity, confidence and category, never lowers the automation
  -- likelihood or the agentic-control likelihood, unless it is a signal for a human.
  pub likelihoods-snoc :
      (id : String) (signals : List (DetectorSignal F)) (s : DetectorSignal F)
      (packet : InteractionFeaturePacket F) (mode : EnforcementMode)
      → same_target s.contribution_target human_presence ≡ false
      → (le
            (score_interaction o id signals packet mode).automation_likelihood
            (score_interaction o id (signals ++ s ∷ []) packet mode).automation_likelihood
          ≡ true)
        × (le
              (score_interaction o id signals packet mode).agentic_control_likelihood
              (score_interaction o id (signals ++ s ∷ []) packet mode).agentic_control_likelihood
            ≡ true)
  unfolding score_interaction
  likelihoods-snoc id signals s packet mode h = rw (effective-snoc packet s signals h) (
    likelihood_mono _ _ _ (target_risk-InUnit signals automation)
        (target_risk-InUnit (signals ++ s ∷ []) automation)
        (human_factor-InUnit o l packet signals 60 (omega arith))
        (target_risk-snoc automation s signals),
    likelihood_mono _ _ _ (target_risk-InUnit signals agentic_control)
        (target_risk-InUnit (signals ++ s ∷ []) agentic_control)
        (human_factor-InUnit o l packet signals 30 (omega arith))
        (target_risk-snoc agentic_control s signals),
  )
