-- ===== src/Safety/Escalation.antt =====
-- truepresence/safety/escalation.py and evidence_minimization.py.
use true_presence_ese.Base.{
  ℕ, ◌+◌, ◌-◌, ◌==◌, leb, Bool, false, ◌&&◌, ◌||◌, Option, none, some, List, [], ◌∷◌, ◌++◌, any,
  map, length, if◌then◌else◌,
}
use true_presence_ese.Base.Text.{Text}
use true_presence_ese.Float.{Floats, whole, min_f, max_f, max_of, clamp}
use true_presence_ese.Safety.Policy.{
  Reference, SafetyCode, instant_media_post_after_join, media_burst_pattern,
  rapid_delete_repost_pattern, coordinated_media_distribution_cluster,
  new_account_high_risk_media_behavior, repeat_group_hopping_pattern, TelegramSafetyFeatures,
  SafetySignal, severity_at, evaluate_telegram_safety_policy,
}

pub data SafetyAction : Type 0 where
  quarantine_message : SafetyAction
  restrict_sender : SafetyAction
  admin_review : SafetyAction
  mandatory_safety_escalation : SafetyAction

pub data RiskLabel : Type 0 where
  low_risk : RiskLabel
  medium_risk : RiskLabel
  high_risk : RiskLabel
  critical_risk : RiskLabel

-- What pydantic has made of the provider's answer.
pub record ProviderRiskSignal (F : Type 0) : Type 0 where
  pub provider_id : Text
  pub provider_reference_id : Text
  pub outcome : Text
  pub risk_score : F
  pub confidence : Option F

-- `risk` is the pair of its entries `score` and `label`, `timestamps` its one entry.
pub record SafetyEvidenceCard (F : Type 0) : Type 0 where
  pub evidence_id : Text
  pub chat_id : Option (Reference F)
  pub message_id : Option (Reference F)
  pub sender_id : Option (Reference F)
  pub timestamps : Option F
  pub media_present : Bool
  pub event_type : Text
  pub reason_codes : List SafetyCode
  pub risk : F × RiskLabel
  pub confidence : F
  pub risk_label : RiskLabel
  pub recommended_action : SafetyAction
  pub provider_reference_id : Option Text
  pub provider_outcome : Option Text

pub record SafetyEscalation (F : Type 0) : Type 0 where
  pub reason_codes : List SafetyCode
  pub risk_score : F
  pub confidence : F
  pub risk_label : RiskLabel
  pub recommended_action : SafetyAction
  pub evidence_card : SafetyEvidenceCard F
  pub detector_signals : List (SafetySignal F)

abbrev safety_index : SafetyCode → ℕ
safety_index instant_media_post_after_join = 0
safety_index media_burst_pattern = 1
safety_index rapid_delete_repost_pattern = 2
safety_index coordinated_media_distribution_cluster = 3
safety_index new_account_high_risk_media_behavior = 4
safety_index repeat_group_hopping_pattern = 5

abbrev pub mem_safety : SafetyCode → List SafetyCode → Bool
mem_safety c cs = any (λ d. safety_index c == safety_index d) cs

-- `list(dict.fromkeys(codes))`, from the codes seen so far; its length is that of `set(codes)`.
unfoldable pub distinct_from : List SafetyCode → List SafetyCode → List SafetyCode
distinct_from seen [] = seen
distinct_from seen (c ∷ cs) = distinct_from (if mem_safety c seen then seen else seen ++ c ∷ []) cs

unfoldable pub distinct : List SafetyCode → List SafetyCode
unfolding distinct_from
distinct cs = distinct_from [] cs

abbrev pub one_present {ℓ} : {A : Type ℓ} → Option A → ℕ
one_present none = 0
one_present (some a) = 1

module _ (o : Floats) where
  open o use {F, dec, le, add, mul, round3}

  unfoldable pub risk_label_for_score : F → RiskLabel
  risk_label_for_score score =
      if le (dec 85) score
      then critical_risk
      else if le (dec 65) score
      then high_risk
      else if le (dec 40) score
      then medium_risk
      else low_risk

  -- `provider is not None and provider.risk_score >= score`
  abbrev pub has_score : F → Option (ProviderRiskSignal F) → Bool
  has_score score none = false
  has_score score (some provider) = le score provider.risk_score

  unfoldable pub safety_action : F → ℕ → Option (ProviderRiskSignal F) → SafetyAction
  safety_action score reason_count provider =
      if has_score (dec 85) provider
      then mandatory_safety_escalation
      else if le (dec 85) score || le (dec 80) score && leb 2 reason_count
      then mandatory_safety_escalation
      else if le (dec 80) score
      then restrict_sender
      else if le (dec 75) score
      then admin_review
      else if le (dec 65) score
      then quarantine_message
      else admin_review

  unfoldable pub provider_assessment_confidence : Option (ProviderRiskSignal F) → F
  provider_assessment_confidence none = dec 0
  provider_assessment_confidence (some provider) = elim provider.confidence [
    | none ↦ min_f o (dec 55) (clamp o provider.risk_score)
    | some confidence ↦ clamp o confidence
  ]

  -- The provider counts when its reference is not empty.
  abbrev pub reference_present : Option (ProviderRiskSignal F) → ℕ
  reference_present none = 0
  reference_present (some provider) = elim provider.provider_reference_id [ [] ↦ 0 | c ∷ cs ↦ 1 ]

  unfoldable pub has_sufficient_metadata :
      TelegramSafetyFeatures F → Option (ProviderRiskSignal F) → Bool
  has_sufficient_metadata f provider =
      f.media_present
      && leb 3 (
          one_present f.chat_id
          + one_present f.message_id
          + one_present f.sender_id
          + one_present f.event_timestamp
          + reference_present provider)

  -- `max(0, n - 1)`: subtraction on ℕ stops at 0.
  unfoldable pub reason_corroboration_bonus :
      List SafetyCode → TelegramSafetyFeatures F → Option (ProviderRiskSignal F) → F
  unfolding has_sufficient_metadata distinct
  reason_corroboration_bonus reason_codes f provider =
      if has_sufficient_metadata f provider
      then min_f o (dec 12) (mul (whole o (length (distinct reason_codes) - 1)) (dec 4))
      else dec 0

  unfoldable pub assessment_confidence :
      List (SafetySignal F)
      → Option (ProviderRiskSignal F)
      → List SafetyCode
      → TelegramSafetyFeatures F
      → F
  unfolding provider_assessment_confidence reason_corroboration_bonus
  assessment_confidence signals provider reason_codes f = clamp o (
      add
        (max_f o (max_of o (map (λ s. s.confidence) signals))
          (provider_assessment_confidence provider))
        (reason_corroboration_bonus reason_codes f provider))

  unfoldable pub build_safety_evidence_card :
      Text
      → TelegramSafetyFeatures F
      → List SafetyCode
      → F
      → F
      → SafetyAction
      → Option (ProviderRiskSignal F)
      → SafetyEvidenceCard F
  unfolding risk_label_for_score distinct
  build_safety_evidence_card fresh_id f reason_codes risk_score confidence action provider =
      let score = clamp o risk_score in
      record {
        evidence_id = fresh_id;
        chat_id = f.chat_id;
        message_id = f.message_id;
        sender_id = f.sender_id;
        timestamps = f.event_timestamp;
        media_present = f.media_present;
        event_type = f.event_type;
        reason_codes = distinct reason_codes;
        risk = (round3 score, risk_label_for_score score);
        confidence = round3 (clamp o confidence);
        risk_label = risk_label_for_score score;
        recommended_action = action;
        provider_reference_id = elim provider [
          | none ↦ none
          | some p ↦ some p.provider_reference_id
        ];
        provider_outcome = elim provider [ none ↦ none | some p ↦ some p.outcome ];
      }

  -- The signal that a risky answer of the provider adds.
  unfoldable pub provider_signals : Option (ProviderRiskSignal F) → List (SafetySignal F)
  unfolding provider_assessment_confidence
  provider_signals none = []
  provider_signals (some provider) =
      if le (dec 65) provider.risk_score
      then record {
        reason_code = new_account_high_risk_media_behavior;
        severity = severity_at o provider.risk_score;
        confidence = provider_assessment_confidence (some provider);
        explanation = "Lawful provider supplied a high-risk media reference outcome.";
      }
        ∷ []
      else []

  abbrev pub provider_score : Option (ProviderRiskSignal F) → F
  provider_score none = dec 0
  provider_score (some provider) = provider.risk_score

  unfoldable pub escalation_score : TelegramSafetyFeatures F → Option (ProviderRiskSignal F) → F
  unfolding evaluate_telegram_safety_policy
  escalation_score f provider =
      max_f o (max_of o (map (λ s. s.confidence) (evaluate_telegram_safety_policy o f)))
        (provider_score provider)

  unfoldable pub all_signals :
      TelegramSafetyFeatures F → Option (ProviderRiskSignal F) → List (SafetySignal F)
  unfolding evaluate_telegram_safety_policy provider_signals
  all_signals f provider = evaluate_telegram_safety_policy o f ++ provider_signals provider

  unfoldable pub escalation :
      Text
      → TelegramSafetyFeatures F
      → Option (ProviderRiskSignal F)
      → List (SafetySignal F)
      → List SafetyCode
      → SafetyEscalation F
  unfolding escalation_score assessment_confidence safety_action build_safety_evidence_card
      risk_label_for_score
  escalation fresh_id f provider signals reason_codes =
      let score = escalation_score f provider in
      let confidence = assessment_confidence signals provider reason_codes f in
      let action = safety_action score (length reason_codes) provider in
      record {
        reason_codes = reason_codes;
        risk_score = score;
        confidence = confidence;
        risk_label = risk_label_for_score score;
        recommended_action = action;
        evidence_card =
            build_safety_evidence_card fresh_id f reason_codes score confidence action provider;
        detector_signals = signals;
      }

  -- `fresh_id` is the new UUID of the evidence card.
  unfoldable pub evaluate_telegram_safety_escalation :
      Text → TelegramSafetyFeatures F → Option (ProviderRiskSignal F) → Option (SafetyEscalation F)
  unfolding all_signals escalation distinct
  evaluate_telegram_safety_escalation fresh_id f provider =
      let signals = all_signals f provider in
      let reason_codes = distinct (map (λ s. s.reason_code) signals) in
      elim reason_codes [
        | [] ↦ none
        | c ∷ cs ↦ some (escalation fresh_id f provider signals (c ∷ cs))
      ]
