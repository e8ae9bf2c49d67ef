-- ===== src/Detectors/Graded.antt =====
-- What the detectors of truepresence/detectors/telegram_community.py emit.
use Prim.Native.String.{String}
use true_presence_ese.Base.{
  ℕ, ◌<◌, ◌≡◌, refl, ◌≢◌, Bool, true, false, Option, none, some, List, [], ◌∷◌, arith, leb,
  Option-cases, inl, inr, if◌then◌else◌,
}
use true_presence_ese.Float.{Floats, IsFloats, whole}
use true_presence_ese.Float.Laws.{clamp-dec}
use true_presence_ese.Detectors.Signal.{
  medium, high, ContributionTarget, SignalCategory, DetectorSignal,
}
use true_presence_ese.Detectors.InOrder.{
  Emits, InOrder, InOrder-append, InOrder-last, Emits-unless, Emits-if, Emits-option,
}
use true_presence_ese.Detectors.Telegram.{
  TelegramCommunityFeatures, telegram_signal, join_to_action_plausibility, instant_post_after_join,
  link_drop_after_join, message_burst_pattern, cadence_anomaly_at, conversation_cadence_anomaly,
  synchronized_posting_cluster, coordinated_join_pattern, repeat_group_hopping_pattern,
  run_telegram_community_detectors,
}

abbrev pub telegram_codes : List String
telegram_codes =
    "join_to_action_plausibility" ∷ "instant_post_after_join" ∷ "link_drop_after_join"
    ∷ "message_burst_pattern" ∷ "conversation_cadence_anomaly" ∷ "synchronized_posting_cluster"
    ∷ "coordinated_join_pattern" ∷ "repeat_group_hopping_pattern" ∷ []

module _ (o : Floats) (l : IsFloats o) where
  open o use {F, dec, le}

  -- The severity is high where the confidence is at least 0.76, and medium otherwise.
  abbrev pub IsGraded : DetectorSignal F → Type 0
  IsGraded s = s.severity ≡ (if le (dec 76) s.confidence then high else medium)

  IsGraded-signal-Emits :
      (strict : Bool) (hi lo : ℕ) (code : String) (target : ContributionTarget)
      (category : SignalCategory) (text : String)
      → leb 76 hi ≡ true
      → leb 76 lo ≡ false
      → hi < 100
      → Emits IsGraded code (
          telegram_signal o code
            (if strict then high else medium)
            (if strict then dec hi else dec lo)
            target
            category
            text
          ∷ [])
  unfolding telegram_signal
  IsGraded-signal-Emits true hi lo code target category text p q h =
      Emits.fires _ refl (rw (clamp-dec o l hi h, l.le_dec 76 hi (omega arith) (omega arith), p))
  IsGraded-signal-Emits false hi lo code target category text p q h =
      let lo_small : lo < 76 = ground arith in
      Emits.fires _ refl
        (rw (clamp-dec o l lo (omega arith), l.le_dec 76 lo (omega arith) (omega arith), q))

  abbrev EmitsGraded : String → List (DetectorSignal F) → Type 0
  EmitsGraded code signals = Emits IsGraded code signals

  join_to_action-Emits :
      (f : Option (TelegramCommunityFeatures F))
      → EmitsGraded "join_to_action_plausibility" (join_to_action_plausibility o f)
  unfolding join_to_action_plausibility
  join_to_action-Emits none = Emits.silent
  join_to_action-Emits (some f) =
      Emits-option f.join_to_first_message_ms _
        λ latency. Emits-unless _ (IsGraded-signal-Emits _ 78 62 _ _ _ _ refl refl (omega arith))

  instant_post-Emits :
      (f : Option (TelegramCommunityFeatures F))
      → EmitsGraded "instant_post_after_join" (instant_post_after_join o f)
  unfolding instant_post_after_join
  instant_post-Emits none = Emits.silent
  instant_post-Emits (some f) =
      Emits-option f.join_to_first_message_ms _
        λ latency. Emits-unless _ (IsGraded-signal-Emits _ 84 70 _ _ _ _ refl refl (omega arith))

  link_drop-Emits :
      (f : Option (TelegramCommunityFeatures F))
      → EmitsGraded "link_drop_after_join" (link_drop_after_join o f)
  unfolding link_drop_after_join
  link_drop-Emits none = Emits.silent
  link_drop-Emits (some f) =
      Emits-if f.link_present
        (Emits-option f.join_to_first_link_ms _
          λ latency. Emits-unless _ (IsGraded-signal-Emits _ 82 68 _ _ _ _ refl refl (omega arith)))
        Emits.silent

  message_burst-Emits :
      (f : Option (TelegramCommunityFeatures F))
      → EmitsGraded "message_burst_pattern" (message_burst_pattern o f)
  unfolding message_burst_pattern
  message_burst-Emits none = Emits.silent
  message_burst-Emits (some f) =
      Emits-unless _ (IsGraded-signal-Emits _ 82 70 _ _ _ _ refl refl (omega arith))

  cadence_anomaly-Emits :
      (f : Option (TelegramCommunityFeatures F))
      → EmitsGraded "conversation_cadence_anomaly" (conversation_cadence_anomaly o f)
  unfolding conversation_cadence_anomaly cadence_anomaly_at
  cadence_anomaly-Emits none = Emits.silent
  cadence_anomaly-Emits (some f) = Emits-unless _ (
      Emits-option f.mean_message_interval_ms _ λ mean_interval.
        Emits-option f.message_interval_stddev_ms _
          λ stddev. Emits-unless _ (IsGraded-signal-Emits _ 76 64 _ _ _ _ refl refl (omega arith)))

  synchronized-Emits :
      (f : Option (TelegramCommunityFeatures F))
      → EmitsGraded "synchronized_posting_cluster" (synchronized_posting_cluster o f)
  unfolding synchronized_posting_cluster
  synchronized-Emits none = Emits.silent
  synchronized-Emits (some f) =
      Emits-unless _ (IsGraded-signal-Emits _ 82 68 _ _ _ _ refl refl (omega arith))

  coordinated_join-Emits :
      (f : Option (TelegramCommunityFeatures F))
      → EmitsGraded "coordinated_join_pattern" (coordinated_join_pattern o f)
  unfolding coordinated_join_pattern
  coordinated_join-Emits none = Emits.silent
  coordinated_join-Emits (some f) =
      Emits-unless _ (IsGraded-signal-Emits _ 82 66 _ _ _ _ refl refl (omega arith))

  group_hopping-Emits :
      (f : Option (TelegramCommunityFeatures F))
      → EmitsGraded "repeat_group_hopping_pattern" (repeat_group_hopping_pattern o f)
  unfolding repeat_group_hopping_pattern
  group_hopping-Emits none = Emits.silent
  group_hopping-Emits (some f) =
      Emits-unless _ (IsGraded-signal-Emits _ 78 64 _ _ _ _ refl refl (omega arith))

  -- The Telegram detectors emit at most one signal each, under their own reason codes and in the
  -- order in which they are run, and each signal's severity is high exactly when its confidence is
  -- at least 0.76, and medium otherwise.
  pub run_telegram_community_detectors-InOrder :
      (f : Option (TelegramCommunityFeatures F))
      → InOrder IsGraded telegram_codes (run_telegram_community_detectors o f)
  unfolding run_telegram_community_detectors
  run_telegram_community_detectors-InOrder f = InOrder-append (join_to_action-Emits f) (
      InOrder-append (instant_post-Emits f) (
        InOrder-append (link_drop-Emits f) (
          InOrder-append (message_burst-Emits f) (
            InOrder-append (cadence_anomaly-Emits f) (
              InOrder-append (synchronized-Emits f) (
                InOrder-append (coordinated_join-Emits f)
                  (InOrder-last (group_hopping-Emits f))))))))

  -- Whenever a post right after joining is reported, the quick first action is reported too.
  pub instant_post-join_to_action :
      (f : Option (TelegramCommunityFeatures F))
      → instant_post_after_join o f ≢ []
      → join_to_action_plausibility o f ≢ []
  unfolding instant_post_after_join join_to_action_plausibility
  instant_post-join_to_action none h = λ e. h refl
  instant_post-join_to_action (some f) h = elim (Option-cases f.join_to_first_message_ms) [
    | inl e ↦ ground arith
    | inr (latency, e) ↦
        ground (arith, l.le_trans latency (whole o 3000) (whole o 10000), l.le_dec 300000 1000000)
  ]
