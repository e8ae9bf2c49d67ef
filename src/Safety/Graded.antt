-- ===== src/Safety/Graded.antt =====
-- What the signals of truepresence/safety/policy.py are like.
use Prim.Native.String.{String}
use true_presence_ese.Base.{
  ℕ, ◌≤◌, ◌≡◌, ◌↔◌, Bool, true, false, ◌&&◌, [], ◌∷◌, any, if◌then◌else◌, All, All-append, arith,
  leb, ltb, le→leb, Bool-cases, Option-cases, inl, inr,
}
use true_presence_ese.Float.{Floats, IsFloats, whole}
use true_presence_ese.Float.Laws.{clamp-dec}
use true_presence_ese.Safety.Policy.{
  SafetyCode, media_burst_pattern, instant_media_post_after_join, rapid_delete_repost_pattern,
  coordinated_media_distribution_cluster, new_account_high_risk_media_behavior,
  repeat_group_hopping_pattern, SafetySeverity, high, critical, TelegramSafetyFeatures,
  SafetySignal, is_high_risk, safety_signal, severity_at, instant_media, media_burst, delete_repost,
  coordinated_media, group_hopping, behavior_signals, is_new_account, new_account,
  evaluate_telegram_safety_policy,
}

module _ (o : Floats) (l : IsFloats o) where
  open o use {F, dec, le}

  abbrev pub IsGraded : SafetySignal F → Type 0
  IsGraded s =
      ((s.severity ≡ critical) ↔ (le (dec 85) s.confidence ≡ true))
      × (le (dec 72) s.confidence ≡ true)
      × (le s.confidence (dec 90) ≡ true)

  -- A literal confidence between 0.72 and 0.90 with the severity that goes with it.
  literal-IsGraded :
      (code : SafetyCode) (severity : SafetySeverity) (n : ℕ) (text : String)
      → 72 ≤ n
      → n ≤ 90
      → (severity ≡ critical) ↔ (leb 85 n ≡ true)
      → IsGraded (safety_signal o code severity (dec n) text)
  unfolding safety_signal
  literal-IsGraded code severity n text a b s = rw (clamp-dec o l n (omega arith)) (
    rw (l.le_dec 85 n (omega arith) (omega arith)) s,
    rw (l.le_dec 72 n (omega arith) (omega arith)) (le→leb 72 n a),
    rw (l.le_dec n 90 (omega arith) (omega arith)) (le→leb n 90 b),
  )

  -- The severity at 0.85 or more is critical, and high below.
  severity_at-literal : (n : ℕ) → n ≤ 90 → (severity_at o (dec n) ≡ critical) ↔ (leb 85 n ≡ true)
  severity_at-literal n b = ground (arith, l.le_dec 85 n)

  at_literal-IsGraded :
      (code : SafetyCode) (n : ℕ) (text : String)
      → 72 ≤ n
      → n ≤ 90
      → IsGraded (safety_signal o code (severity_at o (dec n)) (dec n) text)
  at_literal-IsGraded code n text a b =
      literal-IsGraded code (severity_at o (dec n)) n text a b (severity_at-literal n b)

  -- A clause of the policy: a gate, and a test between two literal confidences.
  gated-IsGraded :
      (gate test : Bool) (code : SafetyCode) (a b : ℕ) (text : String)
      → (72 ≤ a) × (a ≤ 90) × (72 ≤ b) × (b ≤ 90)
      → All IsGraded (
          if gate
          then safety_signal o code
              (severity_at o (if test then dec a else dec b))
              (if test then dec a else dec b)
              text
            ∷ []
          else [])
  gated-IsGraded false test code a b text h = tt
  gated-IsGraded true true code a b text h = (at_literal-IsGraded code a text h.0 h.1, tt)
  gated-IsGraded true false code a b text h = (at_literal-IsGraded code b text h.2 h.3, tt)

  instant_media-IsGraded : (f : TelegramSafetyFeatures F) → All IsGraded (instant_media o f)
  unfolding instant_media
  instant_media-IsGraded f = elim (Option-cases f.join_to_first_media_ms) [
    | inl e ↦ rw e tt
    | inr e ↦ rw e.1 (
        gated-IsGraded (le e.0 (whole o 5000)) (le e.0 (whole o 1500)) instant_media_post_after_join
          86 74 "Media was posted shortly after the account joined the group."
          (omega arith, omega arith, omega arith, omega arith))
  ]

  media_burst-IsGraded : (f : TelegramSafetyFeatures F) → All IsGraded (media_burst o f)
  unfolding media_burst
  media_burst-IsGraded f =
      gated-IsGraded (leb 3 f.media_count_window && leb 2 f.media_burst_count)
        (leb 4 f.media_count_window) media_burst_pattern 88 80
        "Multiple media messages appeared in a compact rolling window."
        (omega arith, omega arith, omega arith, omega arith)

  delete_repost-IsGraded : (f : TelegramSafetyFeatures F) → All IsGraded (delete_repost o f)
  unfolding delete_repost
  delete_repost-IsGraded f =
      gated-IsGraded (leb 2 f.rapid_delete_repost_count) (ltb f.rapid_delete_repost_count 4)
        rapid_delete_repost_pattern 84 90
        "Delete/repost metadata indicates repeated media redistribution behavior."
        (omega arith, omega arith, omega arith, omega arith)

  coordinated_media-IsGraded : (f : TelegramSafetyFeatures F) → All IsGraded (coordinated_media o f)
  unfolding coordinated_media
  coordinated_media-IsGraded f =
      gated-IsGraded (leb 2 f.synchronized_media_peer_count) (ltb f.synchronized_media_peer_count 4)
        coordinated_media_distribution_cluster 82 90
        "Several distinct peers distributed media within a tight time cluster."
        (omega arith, omega arith, omega arith, omega arith)

  hopping-IsGraded :
      (gate test : Bool) (text : String)
      → All IsGraded (
          if gate
          then safety_signal o repeat_group_hopping_pattern high
              (if test then dec 72 else dec 82)
              text
            ∷ []
          else [])
  hopping-IsGraded false test text = tt
  hopping-IsGraded true true text = (
    literal-IsGraded repeat_group_hopping_pattern high 72 text (omega arith) (omega arith)
        (ground arith),
    tt,
  )
  hopping-IsGraded true false text = (
    literal-IsGraded repeat_group_hopping_pattern high 82 text (omega arith) (omega arith)
        (ground arith),
    tt,
  )

  group_hopping-IsGraded : (f : TelegramSafetyFeatures F) → All IsGraded (group_hopping o f)
  unfolding group_hopping
  group_hopping-IsGraded f =
      hopping-IsGraded (leb 3 f.group_hop_count) (ltb f.group_hop_count 5)
        "The account appears across several groups in recent metadata."

  new_account-IsGraded : (f : TelegramSafetyFeatures F) → All IsGraded (new_account o f)
  unfolding new_account
  new_account-IsGraded f =
      elim (Bool-cases (
        is_new_account f.account_age_days
        && any (λ s. is_high_risk s.reason_code) (behavior_signals o f))) [
          | inl e ↦ rw e (
            literal-IsGraded new_account_high_risk_media_behavior critical 86
                "A new account is associated with high-risk media distribution metadata."
                (omega arith) (omega arith) (ground arith),
            tt,
          )
          | inr e ↦ rw e tt
        ]

  behavior_signals-IsGraded : (f : TelegramSafetyFeatures F) → All IsGraded (behavior_signals o f)
  unfolding behavior_signals
  behavior_signals-IsGraded f = All-append IsGraded _ _ (instant_media-IsGraded f) (
      All-append IsGraded _ _ (media_burst-IsGraded f) (
        All-append IsGraded _ _ (delete_repost-IsGraded f)
          (All-append IsGraded _ _ (coordinated_media-IsGraded f) (group_hopping-IsGraded f))))

  -- Every signal of the media policy has a confidence between 0.72 and 0.90, and is critical
  -- exactly when its confidence is at least 0.85.
  pub evaluate_telegram_safety_policy-IsGraded :
      (f : TelegramSafetyFeatures F) → All IsGraded (evaluate_telegram_safety_policy o f)
  unfolding evaluate_telegram_safety_policy
  evaluate_telegram_safety_policy-IsGraded f = elim (Bool-cases f.media_present) [
    | inl e ↦ rw e (
        All-append IsGraded (behavior_signals o f) (new_account o f) (behavior_signals-IsGraded f)
          (new_account-IsGraded f))
    | inr e ↦ rw e tt
  ]
