-- ===== src/Safety/Reasons.antt =====
-- The reason codes of an escalation of truepresence/safety/escalation.py.
use true_presence_ese.Base.{
  ◌≡◌, refl, ap, ap₂, sym, ◌∙◌, ◌↔◌, Bool, true, false, ◌&&◌, ◌||◌, Option, none, some, List, [],
  ◌∷◌, ◌++◌, any, map, flagged, arith, leb, Bool-cases, inl, inr, if◌then◌else◌,
}
use true_presence_ese.Base.Text.{Text}
use true_presence_ese.Float.{Floats, whole}
use true_presence_ese.Safety.Policy.{
  SafetyCode, instant_media_post_after_join, media_burst_pattern, rapid_delete_repost_pattern,
  coordinated_media_distribution_cluster, new_account_high_risk_media_behavior,
  repeat_group_hopping_pattern, critical, TelegramSafetyFeatures, SafetySignal, is_high_risk,
  safety_signal, instant_media, media_burst, delete_repost, coordinated_media, group_hopping,
  behavior_signals, is_new_account, new_account, evaluate_telegram_safety_policy,
}
use true_presence_ese.Safety.Escalation.{
  ProviderRiskSignal, SafetyEscalation, distinct, distinct_from, has_score, provider_signals,
  all_signals, escalation, evaluate_telegram_safety_escalation,
}

abbrev when : Bool → SafetyCode → List SafetyCode
when b c = if b then c ∷ [] else []

abbrev code_list : Bool → Bool → Bool → Bool → Bool → List SafetyCode
code_list a b c d e =
    when a instant_media_post_after_join
    ++ (when b media_burst_pattern
        ++ (when c rapid_delete_repost_pattern
            ++ (when d coordinated_media_distribution_cluster
                ++ when e repeat_group_hopping_pattern)))

-- What the six conditions leave after the duplicates are dropped.
distinct-codes :
    (m a b c d e n p : Bool)
    → distinct (
        (if m
          then code_list a b c d e
            ++ when
                (n && any is_high_risk (code_list a b c d e))
                new_account_high_risk_media_behavior
          else [])
        ++ when p new_account_high_risk_media_behavior)
      ≡ flagged (
          (m && a, instant_media_post_after_join)
          ∷ (m && b, media_burst_pattern)
          ∷ (m && c, rapid_delete_repost_pattern)
          ∷ (m && d, coordinated_media_distribution_cluster)
          ∷ (m && e, repeat_group_hopping_pattern)
          ∷ (m && (n && (a || (b || d))) || p, new_account_high_risk_media_behavior)
          ∷ [])
unfolding distinct distinct_from
distinct-codes m a b c d e n p = ground arith

module _ (o : Floats) where
  open o use {F, dec, le}

  abbrev codes_in : List (SafetySignal F) → List SafetyCode
  codes_in signals = map (λ s. s.reason_code) signals

  -- Media within five seconds of joining.
  abbrev is_fast : Option F → Bool
  is_fast none = false
  is_fast (some latency) = le latency (whole o 5000)

  instant_media-codes :
      (f : TelegramSafetyFeatures F)
      → codes_in (instant_media o f)
        ≡ when (is_fast f.join_to_first_media_ms) instant_media_post_after_join
  unfolding instant_media safety_signal
  instant_media-codes f = ground arith

  media_burst-codes :
      (f : TelegramSafetyFeatures F)
      → codes_in (media_burst o f)
        ≡ when (leb 3 f.media_count_window && leb 2 f.media_burst_count) media_burst_pattern
  unfolding media_burst safety_signal
  media_burst-codes f = ground arith

  delete_repost-codes :
      (f : TelegramSafetyFeatures F)
      → codes_in (delete_repost o f)
        ≡ when (leb 2 f.rapid_delete_repost_count) rapid_delete_repost_pattern
  unfolding delete_repost safety_signal
  delete_repost-codes f = ground arith

  coordinated_media-codes :
      (f : TelegramSafetyFeatures F)
      → codes_in (coordinated_media o f)
        ≡ when (leb 2 f.synchronized_media_peer_count) coordinated_media_distribution_cluster
  unfolding coordinated_media safety_signal
  coordinated_media-codes f = ground arith

  group_hopping-codes :
      (f : TelegramSafetyFeatures F)
      → codes_in (group_hopping o f) ≡ when (leb 3 f.group_hop_count) repeat_group_hopping_pattern
  unfolding group_hopping safety_signal
  group_hopping-codes f = ground arith

  provider_signals-codes :
      (p : Option (ProviderRiskSignal F))
      → codes_in (provider_signals o p)
        ≡ when (has_score o (dec 65) p) new_account_high_risk_media_behavior
  unfolding provider_signals
  provider_signals-codes none = refl
  provider_signals-codes (some p) = ground arith

  any-codes_in :
      (signals : List (SafetySignal F))
      → any (λ s. is_high_risk s.reason_code) signals ≡ any is_high_risk (codes_in signals)
  any-codes_in [] = refl
  any-codes_in (s ∷ signals) = ap (λ b. is_high_risk s.reason_code || b) (any-codes_in signals)

  codes_in-append :
      (xs ys : List (SafetySignal F)) → codes_in (xs ++ ys) ≡ codes_in xs ++ codes_in ys
  codes_in-append [] ys = refl
  codes_in-append (x ∷ xs) ys = ap (λ cs. x.reason_code ∷ cs) (codes_in-append xs ys)

  abbrev behavior_codes : TelegramSafetyFeatures F → List SafetyCode
  behavior_codes f =
      code_list (is_fast f.join_to_first_media_ms)
        (leb 3 f.media_count_window && leb 2 f.media_burst_count)
        (leb 2 f.rapid_delete_repost_count) (leb 2 f.synchronized_media_peer_count)
        (leb 3 f.group_hop_count)

  behavior_signals-codes :
      (f : TelegramSafetyFeatures F) → codes_in (behavior_signals o f) ≡ behavior_codes f
  unfolding behavior_signals
  behavior_signals-codes f = simp (
    codes_in-append,
    instant_media-codes f,
    media_burst-codes f,
    delete_repost-codes f,
    coordinated_media-codes f,
    group_hopping-codes f,
  )

  when-codes :
      (b : Bool) (s : SafetySignal F) → codes_in (if b then s ∷ [] else []) ≡ when b s.reason_code
  when-codes true s = refl
  when-codes false s = refl

  new_account-codes :
      (f : TelegramSafetyFeatures F)
      → codes_in (new_account o f)
        ≡ when
            (is_new_account f.account_age_days && any is_high_risk (behavior_codes f))
            new_account_high_risk_media_behavior
  unfolding new_account safety_signal
  new_account-codes f =
      when-codes
        (is_new_account f.account_age_days
          && any (λ s. is_high_risk s.reason_code) (behavior_signals o f))
        (safety_signal o new_account_high_risk_media_behavior critical (dec 86)
          "A new account is associated with high-risk media distribution metadata.")
      ∙ ap (λ z. when (is_new_account f.account_age_days && z) new_account_high_risk_media_behavior)
          (any-codes_in (behavior_signals o f) ∙ ap (any is_high_risk) (behavior_signals-codes f))

  -- What each reason code stands for, in the order in which the codes are listed.
  abbrev pub reasons : TelegramSafetyFeatures F → Option (ProviderRiskSignal F) → List SafetyCode
  reasons f provider =
      let m = f.media_present in
      let a = is_fast f.join_to_first_media_ms in
      let b = leb 3 f.media_count_window && leb 2 f.media_burst_count in
      let d = leb 2 f.synchronized_media_peer_count in
      let n = is_new_account f.account_age_days in
      flagged (
        (m && a, instant_media_post_after_join)
        ∷ (m && b, media_burst_pattern)
        ∷ (m && leb 2 f.rapid_delete_repost_count, rapid_delete_repost_pattern)
        ∷ (m && d, coordinated_media_distribution_cluster)
        ∷ (m && leb 3 f.group_hop_count, repeat_group_hopping_pattern)
        ∷ (
          m && (n && (a || (b || d))) || has_score o (dec 65) provider,
          new_account_high_risk_media_behavior,
        )
        ∷ [])

  policy-codes :
      (f : TelegramSafetyFeatures F)
      → codes_in (evaluate_telegram_safety_policy o f) ≡ (
          if f.media_present
          then behavior_codes f
            ++ when
                (is_new_account f.account_age_days && any is_high_risk (behavior_codes f))
                new_account_high_risk_media_behavior
          else [])
  unfolding evaluate_telegram_safety_policy
  policy-codes f = elim (Bool-cases f.media_present) [
    | inl e ↦ rw e (
        codes_in-append (behavior_signals o f) (new_account o f)
        ∙ ap₂ ◌++◌ (behavior_signals-codes f) (new_account-codes f))
    | inr e ↦ rw e refl
  ]

  -- The codes of an escalation, none if there is none.
  abbrev pub codes_of : Option (SafetyEscalation F) → List SafetyCode
  codes_of none = []
  codes_of (some e) = e.reason_codes

  distinct_codes-reasons :
      (f : TelegramSafetyFeatures F) (provider : Option (ProviderRiskSignal F))
      → distinct (codes_in (all_signals o f provider)) ≡ reasons f provider
  unfolding all_signals
  distinct_codes-reasons f provider =
      ap distinct (
        codes_in-append (evaluate_telegram_safety_policy o f) (provider_signals o provider)
        ∙ ap₂ ◌++◌ (policy-codes f) (provider_signals-codes provider))
      ∙ distinct-codes f.media_present (is_fast f.join_to_first_media_ms)
          (leb 3 f.media_count_window && leb 2 f.media_burst_count)
          (leb 2 f.rapid_delete_repost_count) (leb 2 f.synchronized_media_peer_count)
          (leb 3 f.group_hop_count) (is_new_account f.account_age_days)
          (has_score o (dec 65) provider)

  module _ (id : Text) (f : TelegramSafetyFeatures F)
      (provider : Option (ProviderRiskSignal F)) where
    escalated : List SafetyCode → Option (SafetyEscalation F)
    escalated cs = elim cs [
      | [] ↦ none
      | c ∷ cs' ↦ some (escalation o id f provider (all_signals o f provider) (c ∷ cs'))
    ]

    escalated-codes : (cs : List SafetyCode) → codes_of (escalated cs) ≡ cs
    unfolding escalated escalation
    escalated-codes [] = refl
    escalated-codes (c ∷ cs) = refl

    escalated-none : (cs : List SafetyCode) → (escalated cs ≡ none) ↔ (cs ≡ [])
    unfolding escalated
    escalated-none [] = ((λ h. refl), (λ h. refl))
    escalated-none (c ∷ cs) = ((λ h. cc h), (λ h. cc h))

    evaluated : evaluate_telegram_safety_escalation o id f provider ≡ escalated (reasons f provider)
    unfolding evaluate_telegram_safety_escalation escalated
    evaluated = ap escalated (distinct_codes-reasons f provider)

    -- The reason codes of an escalation are exactly those whose metadata pattern holds, or whose
    -- provider answer does, each once and in a fixed order; without any there is no escalation.
    pub evaluate_telegram_safety_escalation-reasons :
        (codes_of (evaluate_telegram_safety_escalation o id f provider) ≡ reasons f provider)
        × ((evaluate_telegram_safety_escalation o id f provider ≡ none) ↔ (reasons f provider ≡ []))
    evaluate_telegram_safety_escalation-reasons = (
      ap codes_of evaluated ∙ escalated-codes (reasons f provider),
      (
        (λ h. (escalated-none (reasons f provider)).0 (sym evaluated ∙ h)),
        (λ h. evaluated ∙ (escalated-none (reasons f provider)).1 h),
      ),
    )
