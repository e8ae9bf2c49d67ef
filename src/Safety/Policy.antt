-- ===== src/Safety/Policy.antt =====
-- truepresence/safety/policy.py.
use Prim.Native.String.{String}
use true_presence_ese.Base.{
  ℕ, leb, ltb, Bool, true, false, ◌&&◌, Option, none, some, List, [], ◌∷◌, ◌++◌, any, if◌then◌else◌,
}
use true_presence_ese.Base.Text.{Text}
use true_presence_ese.Float.{Floats, whole, clamp}

-- `int | str`
pub data Reference (F : Type 0) : Type 0 where
  number : F → Reference F
  text : Text → Reference F

-- `SAFETY_REASON_CODES`
pub data SafetyCode : Type 0 where
  instant_media_post_after_join : SafetyCode
  media_burst_pattern : SafetyCode
  rapid_delete_repost_pattern : SafetyCode
  coordinated_media_distribution_cluster : SafetyCode
  new_account_high_risk_media_behavior : SafetyCode
  repeat_group_hopping_pattern : SafetyCode

pub data SafetySeverity : Type 0 where
  medium : SafetySeverity
  high : SafetySeverity
  critical : SafetySeverity

pub record TelegramSafetyFeatures (F : Type 0) : Type 0 where
  pub chat_id : Option (Reference F)
  pub message_id : Option (Reference F)
  pub sender_id : Option (Reference F)
  pub event_timestamp : Option F
  pub event_type : Text
  pub media_present : Bool
  pub join_to_first_media_ms : Option F
  pub media_count_window : ℕ
  pub media_burst_count : ℕ
  pub synchronized_media_peer_count : ℕ
  pub group_hop_count : ℕ
  pub account_age_days : Option ℕ
  pub rapid_delete_repost_count : ℕ

pub record SafetySignal (F : Type 0) : Type 0 where
  pub reason_code : SafetyCode
  pub severity : SafetySeverity
  pub confidence : F
  pub explanation : String

-- The codes that make a new account's behaviour high-risk.
abbrev pub is_high_risk : SafetyCode → Bool
is_high_risk instant_media_post_after_join = true
is_high_risk media_burst_pattern = true
is_high_risk coordinated_media_distribution_cluster = true
is_high_risk _ = false

-- account_age is not None and account_age <= 30
abbrev pub is_new_account : Option ℕ → Bool
is_new_account none = false
is_new_account (some days) = leb days 30

module _ (o : Floats) where
  open o use {F, dec, le}

  unfoldable pub safety_signal : SafetyCode → SafetySeverity → F → String → SafetySignal F
  safety_signal reason_code severity confidence explanation = record {
    reason_code = reason_code;
    severity = severity;
    confidence = clamp o confidence;
    explanation = explanation;
  }

  -- "critical" if confidence >= 0.85 else "high"
  abbrev pub severity_at : F → SafetySeverity
  severity_at confidence = if le (dec 85) confidence then critical else high

  -- The clauses of the policy, each the signals that its `if` appends.
  unfoldable pub instant_media : TelegramSafetyFeatures F → List (SafetySignal F)
  unfolding safety_signal
  instant_media f = elim f.join_to_first_media_ms [
    | none ↦ []
    | some latency ↦
        let confidence = if le latency (whole o 1500) then dec 86 else dec 74 in
        if le latency (whole o 5000)
        then safety_signal instant_media_post_after_join (severity_at confidence) confidence
            "Media was posted shortly after the account joined the group."
          ∷ []
        else []
  ]

  unfoldable pub media_burst : TelegramSafetyFeatures F → List (SafetySignal F)
  unfolding safety_signal
  media_burst f =
      let confidence = if leb 4 f.media_count_window then dec 88 else dec 80 in
      if leb 3 f.media_count_window && leb 2 f.media_burst_count
      then safety_signal media_burst_pattern (severity_at confidence) confidence
          "Multiple media messages appeared in a compact rolling window."
        ∷ []
      else []

  unfoldable pub delete_repost : TelegramSafetyFeatures F → List (SafetySignal F)
  unfolding safety_signal
  delete_repost f =
      let confidence = if ltb f.rapid_delete_repost_count 4 then dec 84 else dec 90 in
      if leb 2 f.rapid_delete_repost_count
      then safety_signal rapid_delete_repost_pattern (severity_at confidence) confidence
          "Delete/repost metadata indicates repeated media redistribution behavior."
        ∷ []
      else []

  unfoldable pub coordinated_media : TelegramSafetyFeatures F → List (SafetySignal F)
  unfolding safety_signal
  coordinated_media f =
      let confidence = if ltb f.synchronized_media_peer_count 4 then dec 82 else dec 90 in
      if leb 2 f.synchronized_media_peer_count
      then safety_signal coordinated_media_distribution_cluster (severity_at confidence) confidence
          "Several distinct peers distributed media within a tight time cluster."
        ∷ []
      else []

  unfoldable pub group_hopping : TelegramSafetyFeatures F → List (SafetySignal F)
  unfolding safety_signal
  group_hopping f =
      let confidence = if ltb f.group_hop_count 5 then dec 72 else dec 82 in
      if leb 3 f.group_hop_count
      then safety_signal repeat_group_hopping_pattern high confidence
          "The account appears across several groups in recent metadata."
        ∷ []
      else []

  unfoldable pub behavior_signals : TelegramSafetyFeatures F → List (SafetySignal F)
  unfolding instant_media media_burst delete_repost coordinated_media group_hopping
  behavior_signals f =
      instant_media f
      ++ (media_burst f ++ (delete_repost f ++ (coordinated_media f ++ group_hopping f)))

  unfoldable pub new_account : TelegramSafetyFeatures F → List (SafetySignal F)
  unfolding safety_signal behavior_signals
  new_account f =
      if is_new_account f.account_age_days
        && any (λ s. is_high_risk s.reason_code) (behavior_signals f)
      then safety_signal new_account_high_risk_media_behavior critical (dec 86)
          "A new account is associated with high-risk media distribution metadata."
        ∷ []
      else []

  unfoldable pub evaluate_telegram_safety_policy : TelegramSafetyFeatures F → List (SafetySignal F)
  unfolding behavior_signals new_account
  evaluate_telegram_safety_policy f =
      if f.media_present then behavior_signals f ++ new_account f else []
