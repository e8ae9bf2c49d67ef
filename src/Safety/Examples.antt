-- ===== src/Safety/Examples.antt =====
-- The escalations of truepresence/safety/ for a small burst of media, over fixed-point numbers.
use true_presence_ese.Base.{ℕ, ◌≡◌, refl, ◌↔◌, true, none, some, [], ◌∷◌, any, All, Always}
use true_presence_ese.Base.Text.{codes}
use true_presence_ese.Float.{max_f, min_f, max_of, max_from, clamp}
use true_presence_ese.Float.Fixed.{fixed, fixed-IsFloats}
use true_presence_ese.Safety.Policy.{
  number, TelegramSafetyFeatures, media_burst_pattern, instant_media, media_burst, delete_repost,
  coordinated_media, group_hopping, behavior_signals, new_account, safety_signal,
  evaluate_telegram_safety_policy,
}
use true_presence_ese.Safety.Escalation.{
  ProviderRiskSignal, SafetyEscalation, mandatory_safety_escalation, distinct, distinct_from,
  all_signals, provider_signals, escalation, evaluate_telegram_safety_escalation,
}
use true_presence_ese.Safety.Graded.{IsGraded, evaluate_telegram_safety_policy-IsGraded}
use true_presence_ese.Safety.Reasons.{
  reasons, codes_of, evaluate_telegram_safety_escalation-reasons,
}
use true_presence_ese.Safety.Serious.{
  is_critical, IsSerious, evaluate_telegram_safety_escalation-IsSerious,
  evaluate_telegram_safety_escalation-mandatory,
}

abbrev burst : TelegramSafetyFeatures ℕ
burst = record {
  chat_id = some (number 10000);
  message_id = some (number 20000);
  sender_id = some (number 30000);
  event_timestamp = none;
  event_type = codes "message";
  media_present = true;
  join_to_first_media_ms = none;
  media_count_window = 4;
  media_burst_count = 2;
  synchronized_media_peer_count = 0;
  group_hop_count = 0;
  account_age_days = some 40;
  rapid_delete_repost_count = 0;
}

abbrev provider : ProviderRiskSignal ℕ
provider = record {
  provider_id = codes "lab";
  provider_reference_id = codes "r1";
  outcome = codes "match";
  risk_score = 7000;
  confidence = none;
}

program : Unit {0}
unfolding evaluate_telegram_safety_policy evaluate_telegram_safety_escalation all_signals
    provider_signals escalation distinct distinct_from instant_media media_burst delete_repost
    coordinated_media group_hopping behavior_signals new_account safety_signal max_f min_f max_of
    max_from clamp
program = tt

burst-codes :
    codes_of fixed (evaluate_telegram_safety_escalation fixed (codes "e1") burst none)
    ≡ media_burst_pattern ∷ []
unfolding program
burst-codes = refl

abbrev burst_escalation : SafetyEscalation ℕ
burst_escalation =
    escalation fixed (codes "e1") burst none (all_signals fixed burst none)
      (media_burst_pattern ∷ [])

burst_escalated :
    evaluate_telegram_safety_escalation fixed (codes "e1") burst none ≡ some burst_escalation
unfolding program
burst_escalated = refl

burst_critical : any (λ s. is_critical s.severity) burst_escalation.detector_signals ≡ true
unfolding program
burst_critical = refl

evaluate_telegram_safety_escalation-mandatory_example :
    burst_escalation.recommended_action ≡ mandatory_safety_escalation
evaluate_telegram_safety_escalation-mandatory_example =
    evaluate_telegram_safety_escalation-mandatory fixed fixed-IsFloats burst none (codes "e1")
      burst_escalation burst_escalated burst_critical

evaluate_telegram_safety_policy-IsGraded_example :
    All (IsGraded fixed fixed-IsFloats) (evaluate_telegram_safety_policy fixed burst)
evaluate_telegram_safety_policy-IsGraded_example =
    evaluate_telegram_safety_policy-IsGraded fixed fixed-IsFloats burst

evaluate_telegram_safety_escalation-reasons_example :
    (codes_of fixed (evaluate_telegram_safety_escalation fixed (codes "e1") burst (some provider))
      ≡ reasons fixed burst (some provider))
    × ((evaluate_telegram_safety_escalation fixed (codes "e1") burst (some provider) ≡ none)
        ↔ (reasons fixed burst (some provider) ≡ []))
evaluate_telegram_safety_escalation-reasons_example =
    evaluate_telegram_safety_escalation-reasons fixed (codes "e1") burst (some provider)

evaluate_telegram_safety_escalation-IsSerious_example :
    Always
      (IsSerious fixed fixed-IsFloats burst (some provider))
      (evaluate_telegram_safety_escalation fixed (codes "e1") burst (some provider))
evaluate_telegram_safety_escalation-IsSerious_example =
    evaluate_telegram_safety_escalation-IsSerious fixed fixed-IsFloats burst (some provider)
      (codes "e1")
