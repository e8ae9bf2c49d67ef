-- ===== src/Detectors/Telegram.antt =====
-- truepresence/detectors/telegram_community.py, over the features of
-- truepresence/surfaces/telegram/community.py.
use Prim.Native.String.{String}
use true_presence_ese.Base.{
  ℕ, Bool, ◌&&◌, ◌||◌, Option, none, some, List, [], ◌∷◌, ◌++◌, leb, ltb, if◌then◌else◌,
}
use true_presence_ese.Float.{Floats, lt, whole}
use true_presence_ese.Detectors.Signal.{
  Severity, medium, high, ContributionTarget, automation, agentic_control, SignalCategory,
  session_continuity, environment, agentic_behavior, DetectorSignal, signal, or_zero,
}

pub record TelegramCommunityFeatures (F : Type 0) : Type 0 where
  pub join_to_first_message_ms : Option F
  pub join_to_first_media_ms : Option F
  pub join_to_first_link_ms : Option F
  pub message_count_window : Option ℕ
  pub burst_count : Option ℕ
  pub mean_message_interval_ms : Option F
  pub message_interval_stddev_ms : Option F
  pub joined_within_cluster_count : Option ℕ
  pub synchronized_peer_count : Option ℕ
  pub group_hop_count : Option ℕ
  pub link_present : Bool
  pub media_present : Bool

module _ (o : Floats) where
  open o use {F, dec, le}

  unfoldable pub telegram_signal :
      String → Severity → F → ContributionTarget → SignalCategory → String → DetectorSignal F
  unfolding signal
  telegram_signal reason_code severity confidence target category explanation =
      signal o reason_code severity confidence target explanation category

  unfoldable pub join_to_action_plausibility :
      Option (TelegramCommunityFeatures F) → List (DetectorSignal F)
  join_to_action_plausibility none = []
  join_to_action_plausibility (some f) = elim f.join_to_first_message_ms [
    | none ↦ []
    | some latency ↦
        if lt o (whole o 10000) latency
        then []
        else telegram_signal "join_to_action_plausibility"
            (if le latency (whole o 1500) then high else medium)
            (if le latency (whole o 1500) then dec 78 else dec 62) automation session_continuity
            "First observed action followed the join event unusually quickly."
          ∷ []
  ]

  unfoldable pub instant_post_after_join :
      Option (TelegramCommunityFeatures F) → List (DetectorSignal F)
  instant_post_after_join none = []
  instant_post_after_join (some f) = elim f.join_to_first_message_ms [
    | none ↦ []
    | some latency ↦
        if lt o (whole o 3000) latency
        then []
        else telegram_signal "instant_post_after_join"
            (if le latency (whole o 1000) then high else medium)
            (if le latency (whole o 1000) then dec 84 else dec 70) automation session_continuity
            "A message was posted almost immediately after joining."
          ∷ []
  ]

  unfoldable pub link_drop_after_join :
      Option (TelegramCommunityFeatures F) → List (DetectorSignal F)
  link_drop_after_join none = []
  link_drop_after_join (some f) =
      if f.link_present
      then elim f.join_to_first_link_ms [
        | none ↦ []
        | some latency ↦
            if lt o (whole o 30000) latency
            then []
            else telegram_signal "link_drop_after_join"
                (if le latency (whole o 5000) then high else medium)
                (if le latency (whole o 5000) then dec 82 else dec 68) automation environment
                "A link entity appeared shortly after joining, using Telegram metadata only."
              ∷ []
      ]
      else []

  unfoldable pub message_burst_pattern :
      Option (TelegramCommunityFeatures F) → List (DetectorSignal F)
  message_burst_pattern none = []
  message_burst_pattern (some f) =
      if ltb (or_zero f.message_count_window) 5 || ltb (or_zero f.burst_count) 4
      then []
      else telegram_signal "message_burst_pattern"
          (if leb 8 (or_zero f.message_count_window) || leb 6 (or_zero f.burst_count)
            then high
            else medium)
          (if leb 8 (or_zero f.message_count_window) || leb 6 (or_zero f.burst_count)
            then dec 82
            else dec 70)
          automation session_continuity "Multiple messages landed in a compact timing window."
        ∷ []

  unfoldable pub cadence_anomaly_at : ℕ → F → F → List (DetectorSignal F)
  cadence_anomaly_at message_count mean_interval stddev =
      if lt o (whole o 3000) mean_interval || lt o (whole o 500) stddev
      then []
      else telegram_signal "conversation_cadence_anomaly"
          (if leb 6 message_count && le stddev (whole o 150) then high else medium)
          (if leb 6 message_count && le stddev (whole o 150) then dec 76 else dec 64) automation
          session_continuity "Message intervals are unusually regular over the rolling window."
        ∷ []

  unfoldable pub conversation_cadence_anomaly :
      Option (TelegramCommunityFeatures F) → List (DetectorSignal F)
  conversation_cadence_anomaly none = []
  conversation_cadence_anomaly (some f) =
      let message_count = or_zero f.message_count_window in
      if ltb message_count 4 then [] else elim f.mean_message_interval_ms [
        | none ↦ []
        | some mean_interval ↦ elim f.message_interval_stddev_ms [
          | none ↦ []
          | some stddev ↦ cadence_anomaly_at message_count mean_interval stddev
        ]
      ]

  unfoldable pub synchronized_posting_cluster :
      Option (TelegramCommunityFeatures F) → List (DetectorSignal F)
  synchronized_posting_cluster none = []
  synchronized_posting_cluster (some f) =
      if ltb (or_zero f.synchronized_peer_count) 2
      then []
      else telegram_signal "synchronized_posting_cluster"
          (if leb 4 (or_zero f.synchronized_peer_count) then high else medium)
          (if leb 4 (or_zero f.synchronized_peer_count) then dec 82 else dec 68) agentic_control
          agentic_behavior "Several distinct peers posted in a tight time cluster."
        ∷ []

  unfoldable pub coordinated_join_pattern :
      Option (TelegramCommunityFeatures F) → List (DetectorSignal F)
  coordinated_join_pattern none = []
  coordinated_join_pattern (some f) =
      if ltb (or_zero f.joined_within_cluster_count) 5
      then []
      else telegram_signal "coordinated_join_pattern"
          (if leb 10 (or_zero f.joined_within_cluster_count) then high else medium)
          (if leb 10 (or_zero f.joined_within_cluster_count) then dec 82 else dec 66) automation
          session_continuity "Several users joined the same group in a compact time cluster."
        ∷ []

  unfoldable pub repeat_group_hopping_pattern :
      Option (TelegramCommunityFeatures F) → List (DetectorSignal F)
  repeat_group_hopping_pattern none = []
  repeat_group_hopping_pattern (some f) =
      if ltb (or_zero f.group_hop_count) 3
      then []
      else telegram_signal "repeat_group_hopping_pattern"
          (if leb 5 (or_zero f.group_hop_count) then high else medium)
          (if leb 5 (or_zero f.group_hop_count) then dec 78 else dec 64) automation environment
          "The account appears across several groups in recent metadata."
        ∷ []

  unfoldable pub run_telegram_community_detectors :
      Option (TelegramCommunityFeatures F) → List (DetectorSignal F)
  run_telegram_community_detectors features =
      join_to_action_plausibility features
      ++ (instant_post_after_join features
          ++ (link_drop_after_join features
              ++ (message_burst_pattern features
                  ++ (conversation_cadence_anomaly features
                      ++ (synchronized_posting_cluster features
                          ++ (coordinated_join_pattern features
                              ++ (repeat_group_hopping_pattern features)))))))
