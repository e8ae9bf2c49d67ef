-- ===== src/Safety/Serious.antt =====
-- How serious an escalation of truepresence/safety/escalation.py is.
use true_presence_ese.Base.{
  ℕ, ◌≡◌, refl, ap, sym, subst, ◌∙◌, ◌↔◌, Bool, true, false, ◌||◌, Option, none, some, List, [],
  ◌∷◌, ◌++◌, any, map, All, length, arith, Bool-cases, inl, inr, Always, if◌then◌else◌,
}
use true_presence_ese.Base.Text.{Text}
use true_presence_ese.Float.{Floats, IsFloats, InUnit, max_f, max_from, max_of}
use true_presence_ese.Float.Laws.{le-max_f_left, le-max_f_right, le-max_from, clamp-InUnit}
use true_presence_ese.Safety.Policy.{
  SafetyCode, SafetySeverity, critical, TelegramSafetyFeatures, SafetySignal,
  evaluate_telegram_safety_policy,
}
use true_presence_ese.Safety.Escalation.{
  ProviderRiskSignal, SafetyEscalation, quarantine_message, mandatory_safety_escalation, high_risk,
  critical_risk, has_score, safety_action, risk_label_for_score, provider_signals, provider_score,
  escalation_score, all_signals, escalation, assessment_confidence, distinct, distinct_from,
  evaluate_telegram_safety_escalation,
}
use true_presence_ese.Safety.Graded.{IsGraded, evaluate_telegram_safety_policy-IsGraded}

abbrev pub is_critical : SafetySeverity → Bool
is_critical critical = true
is_critical _ = false

module _ (o : Floats) (l : IsFloats o) where
  open o use {F, dec, le}

  module _ (test : SafetySignal F → Bool) (t : F) where
    -- The signals that pass the test have a confidence of at least t.
    abbrev IsAbove : SafetySignal F → Type 0
    IsAbove s = test s ≡ true → le t s.confidence ≡ true

    max_from-above :
        (best : F) (signals : List (SafetySignal F))
        → All IsAbove signals
        → any test signals ≡ true
        → le t (max_from o best (map (λ s. s.confidence) signals)) ≡ true
    unfolding max_from
    max_from-above best [] h a = cc a
    max_from-above best (s ∷ signals) h a = elim (Bool-cases (test s)) [
      | inl e ↦ l.le_trans t s.confidence _ (h.0 e) (
          l.le_trans s.confidence (max_f o best s.confidence) _
            (le-max_f_right o l best s.confidence)
            (le-max_from o l (max_f o best s.confidence) (map (λ r. r.confidence) signals)))
      | inr e ↦ max_from-above (max_f o best s.confidence) signals h.1 (ground arith)
    ]

    max_of-above :
        (signals : List (SafetySignal F))
        → All IsAbove signals
        → any test signals ≡ true
        → le t (max_of o (map (λ s. s.confidence) signals)) ≡ true
    unfolding max_of
    max_of-above [] h a = cc a
    max_of-above (s ∷ signals) h a = elim (Bool-cases (test s)) [
      | inl e ↦
          l.le_trans t s.confidence _ (h.0 e)
            (le-max_from o l s.confidence (map (λ r. r.confidence) signals))
      | inr e ↦ max_from-above s.confidence signals h.1 (ground arith)
    ]

  any-append :
      (test : SafetySignal F → Bool) (xs ys : List (SafetySignal F))
      → any test (xs ++ ys) ≡ (any test xs || any test ys)
  any-append test [] ys = refl
  any-append test (x ∷ xs) ys = ground (arith, any-append test xs ys)

  graded-IsAbove_critical :
      (signals : List (SafetySignal F))
      → All (IsGraded o l) signals
      → All (IsAbove (λ s. is_critical s.severity) (dec 85)) signals
  graded-IsAbove_critical [] h = tt
  graded-IsAbove_critical (s ∷ signals) h =
      ((λ e. ground (arith, h.0)), graded-IsAbove_critical signals h.1)

  graded-IsAbove :
      (signals : List (SafetySignal F))
      → All (IsGraded o l) signals
      → All (IsAbove (λ s. true) (dec 65)) signals
  graded-IsAbove [] h = tt
  graded-IsAbove (s ∷ signals) h = (
    (λ e. l.le_trans (dec 65) (dec 72) s.confidence (ground (arith, l.le_dec 65 72)) h.0.1),
    graded-IsAbove signals h.1,
  )

  has_score-provider_score :
      (t : F) (q : Option (ProviderRiskSignal F))
      → has_score o t q ≡ true
      → le t (provider_score o q) ≡ true
  has_score-provider_score t none h = cc h
  has_score-provider_score t (some q) h = h

  module _ (f : TelegramSafetyFeatures F) (p : Option (ProviderRiskSignal F)) where
    provider-le_score : le (provider_score o p) (escalation_score o f p) ≡ true
    unfolding escalation_score
    provider-le_score = le-max_f_right o l _ (provider_score o p)

    has_score-le_score :
        (n : ℕ) → has_score o (dec n) p ≡ true → le (dec n) (escalation_score o f p) ≡ true
    has_score-le_score n h =
        l.le_trans (dec n) (provider_score o p) (escalation_score o f p)
          (has_score-provider_score (dec n) p h) provider-le_score

    policy-le_score :
        (test : SafetySignal F → Bool) (n : ℕ)
        → All (IsAbove test (dec n)) (evaluate_telegram_safety_policy o f)
        → any test (evaluate_telegram_safety_policy o f) ≡ true
        → le (dec n) (escalation_score o f p) ≡ true
    unfolding escalation_score
    policy-le_score test n h a =
        l.le_trans (dec n) _ (escalation_score o f p)
          (max_of-above test (dec n) (evaluate_telegram_safety_policy o f) h a)
          (le-max_f_left o l _ (provider_score o p))

    provider_signals-any :
        any (λ s. true) (provider_signals o p) ≡ true → has_score o (dec 65) p ≡ true
    unfolding provider_signals
    provider_signals-any h = ground arith

    provider_signals-critical :
        any (λ s. is_critical s.severity) (provider_signals o p) ≡ true
        → has_score o (dec 85) p ≡ true
    unfolding provider_signals
    provider_signals-critical h = ground arith

    signals-serious :
        any (λ s. true) (all_signals o f p) ≡ true → le (dec 65) (escalation_score o f p) ≡ true
    unfolding all_signals
    signals-serious h = elim (Bool-cases (any (λ s. true) (evaluate_telegram_safety_policy o f))) [
      | inl e ↦
          policy-le_score (λ s. true) 65
            (graded-IsAbove _ (evaluate_telegram_safety_policy-IsGraded o l f)) e
      | inr e ↦ has_score-le_score 65 (
          provider_signals-any (
            ap (λ b. b || any (λ s. true) (provider_signals o p)) (sym e)
            ∙ sym (
                any-append (λ s. true) (evaluate_telegram_safety_policy o f) (provider_signals o p))
            ∙ h))
    ]

    signals-critical :
        any (λ s. is_critical s.severity) (all_signals o f p) ≡ true
        → le (dec 85) (escalation_score o f p) ≡ true
    unfolding all_signals
    signals-critical h =
        elim (Bool-cases
          (any (λ s. is_critical s.severity) (evaluate_telegram_safety_policy o f))) [
            | inl e ↦
                policy-le_score (λ s. is_critical s.severity) 85
                  (graded-IsAbove_critical _ (evaluate_telegram_safety_policy-IsGraded o l f)) e
            | inr e ↦ has_score-le_score 85 (
                provider_signals-critical (
                  ap (λ b. b || any (λ s. is_critical s.severity) (provider_signals o p)) (sym e)
                  ∙ sym (
                      any-append (λ s. is_critical s.severity) (evaluate_telegram_safety_policy o f)
                        (provider_signals o p))
                  ∙ h))
          ]

    safety_action-mandatory :
        (n : ℕ)
        → le (dec 85) (escalation_score o f p) ≡ true
        → safety_action o (escalation_score o f p) n p ≡ mandatory_safety_escalation
    unfolding safety_action
    safety_action-mandatory n h = ground arith

    safety_action-quarantine :
        (n : ℕ)
        → le (dec 65) (escalation_score o f p) ≡ true
        → (safety_action o (escalation_score o f p) n p ≡ quarantine_message)
          ↔ (le (dec 75) (escalation_score o f p) ≡ false)
    unfolding safety_action
    safety_action-quarantine n h = ground (
      arith,
      has_score-le_score 85,
      l.le_trans (dec 75) (dec 85) (escalation_score o f p),
      l.le_trans (dec 75) (dec 80) (escalation_score o f p),
      l.le_dec 75 85,
      l.le_dec 75 80,
    )

    -- An escalation that is worth the name.
    pub record IsSerious (e : SafetyEscalation F) : Type 0 where
      pub scored : le (dec 65) e.risk_score ≡ true
      pub in_unit : InUnit o e.confidence
      pub labelled : e.risk_label ≡ (if le (dec 85) e.risk_score then critical_risk else high_risk)
      pub quarantined :
          (e.recommended_action ≡ quarantine_message) ↔ (le (dec 75) e.risk_score ≡ false)

    nonempty :
        (signals : List (SafetySignal F)) (c : SafetyCode) (cs : List SafetyCode)
        → distinct (map (λ s. s.reason_code) signals) ≡ c ∷ cs
        → any (λ s. true) signals ≡ true
    unfolding distinct distinct_from
    nonempty [] c cs h = cc h
    nonempty (s ∷ signals) c cs h = refl

    escalated : Text → List SafetyCode → Option (SafetyEscalation F)
    escalated id cs = elim cs [
      | [] ↦ none
      | c ∷ cs' ↦ some (escalation o id f p (all_signals o f p) (c ∷ cs'))
    ]

    escalated-IsSerious :
        (id : Text) (cs : List SafetyCode)
        → distinct (map (λ s. s.reason_code) (all_signals o f p)) ≡ cs
        → Always IsSerious (escalated id cs)
    unfolding escalated escalation assessment_confidence risk_label_for_score
    escalated-IsSerious id [] h = tt
    escalated-IsSerious id (c ∷ cs) h =
        let serious = signals-serious (nonempty (all_signals o f p) c cs h) in
        record {
          scored = serious;
          in_unit = clamp-InUnit o l _;
          labelled = ground arith;
          quarantined = safety_action-quarantine (length (c ∷ cs)) serious;
        }

    -- An escalation has a score of at least 0.65 and a confidence between 0 and 1; it is labelled
    -- critical at a score of 0.85 or more and high below, and the message is merely quarantined
    -- exactly below 0.75.
    pub evaluate_telegram_safety_escalation-IsSerious :
        (id : Text) → Always IsSerious (evaluate_telegram_safety_escalation o id f p)
    unfolding evaluate_telegram_safety_escalation escalated
    evaluate_telegram_safety_escalation-IsSerious id = escalated-IsSerious id _ refl

    escalated-critical :
        (id : Text) (cs : List SafetyCode)
        → Always
            (λ e.
              any (λ s. is_critical s.severity) e.detector_signals ≡ true
              → e.recommended_action ≡ mandatory_safety_escalation)
            (escalated id cs)
    unfolding escalated escalation
    escalated-critical id [] = tt
    escalated-critical id (c ∷ cs) =
        λ h. safety_action-mandatory (length (c ∷ cs)) (signals-critical h)

    -- When one of its signals is critical, an escalation is mandatory.
    pub evaluate_telegram_safety_escalation-mandatory :
        (id : Text) (e : SafetyEscalation F)
        → evaluate_telegram_safety_escalation o id f p ≡ some e
        → any (λ s. is_critical s.severity) e.detector_signals ≡ true
        → e.recommended_action ≡ mandatory_safety_escalation
    unfolding evaluate_telegram_safety_escalation escalated
    evaluate_telegram_safety_escalation-mandatory id e h =
        subst
          (Always (λ e.
            any (λ s. is_critical s.severity) e.detector_signals ≡ true
            → e.recommended_action ≡ mandatory_safety_escalation))
          h (escalated-critical id _)
