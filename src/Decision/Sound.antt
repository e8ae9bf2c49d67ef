-- ===== src/Decision/Sound.antt =====
-- What holds of every decision of truepresence/decision/synthesizer.py: the enforcement goes with
-- the state, and the numbers keep their bounds.
use Prim.Native.String.{String}
use true_presence_ese.Base.{
  ◌≡◌, refl, sym, ◌∙◌, true, false, ◌&&◌, ◌||◌, Option, List, arith, Bool-cases, inl, inr, Always,
  Always-map,
}
use true_presence_ese.Base.Text.{Text, codes}
use true_presence_ese.Json.{Fields, get, is_text}
use true_presence_ese.Float.{Floats, IsFloats, InUnit, lt, max_f, zero_f}
use true_presence_ese.Float.Laws.{le-max_f_left, clamp-InUnit, dec-InUnit}
use true_presence_ese.Decision.Packet.{EvidencePacket, is_true}
use true_presence_ese.Decision.Tier.{Tier, tier0, tier1, tier2, is_tier0, is_tier2}
use true_presence_ese.Decision.Object.{
  DecisionState, allow, observe, elevated_observe, challenge, step_up_auth, restrict, block, eject,
  is_state, DecisionObject, ReasonCode,
}
use true_presence_ese.Decision.Reports.{human_probability_of, initial_confidence, disagreement_from}
use true_presence_ese.Decision.Synthesizer.{
  Draft, step_up, cluster, timing, high_value, disagreement_step, human_step, start, reviewed_draft,
  tier0_draft, decision_object, reviewed_decision, synthesize_decision,
}

-- The enforcement that each state calls for.
abbrev pub enforcement_of : DecisionState → String
enforcement_of allow = "allow"
enforcement_of observe = "observe"
enforcement_of elevated_observe = "observe"
enforcement_of challenge = "challenge"
enforcement_of step_up_auth = "step_up_auth"
enforcement_of restrict = "restrict"
enforcement_of block = "block"
enforcement_of eject = "eject"

module _ (o : Floats) (l : IsFloats o) where
  open o use {F, dec, le}

  record IsSound (d : Draft F) : Type 0 where
    enforced : d.enforcement ≡ enforcement_of d.state
    not_eject : is_state d.state eject ≡ false
    bounded : le (dec 50) d.confidence ≡ true

  raised : (d : Draft F) (y : F) → IsSound d → le (dec 50) (max_f o d.confidence y) ≡ true
  raised d y h =
      l.le_trans (dec 50) d.confidence (max_f o d.confidence y) h.bounded
        (le-max_f_left o l d.confidence y)

  step_up-IsSound :
      (packet : EvidencePacket F) (d : Draft F) → IsSound d → IsSound (step_up o packet d)
  unfolding step_up
  step_up-IsSound packet d h =
      elim (Bool-cases (is_true o (get (codes "require_step_up") packet.policy_context))) [
        | inl e ↦ rw e (record { enforced = refl; not_eject = refl; bounded = raised d (dec 75) h })
        | inr e ↦ rw e h
      ]

  kept :
      (d : Draft F) → IsSound d → (cs : List ReasonCode) → IsSound (record d { reason_codes = cs })
  kept d h cs = record { enforced = h.enforced; not_eject = h.not_eject; bounded = h.bounded }

  cluster-IsSound :
      (tier : Tier) (packet : EvidencePacket F) (d : Draft F)
      → IsSound d
      → IsSound (cluster o tier packet d)
  unfolding cluster
  cluster-IsSound tier packet d h =
      elim (Bool-cases (is_text (codes "high") (get (codes "cluster_risk") packet.identity_refs))) [
        | inl e ↦ elim (Bool-cases (is_tier2 tier)) [
          | inl f ↦
              rw e
                (rw f (record { enforced = refl; not_eject = refl; bounded = raised d (dec 80) h }))
          | inr f ↦ rw e (rw f (kept d h _))
        ]
        | inr e ↦ rw e h
      ]

  timing-IsSound :
      (packet : EvidencePacket F) (d : Draft F) → IsSound d → IsSound (timing o packet d)
  unfolding timing
  timing-IsSound packet d h =
      elim (Bool-cases
        (is_true o (get (codes "constant_latency_pattern") packet.timing_features))) [
          | inl e ↦ elim (Bool-cases (is_state d.state allow)) [
            | inl f ↦
                rw e (
                  rw f
                    (record { enforced = refl; not_eject = refl; bounded = raised d (dec 70) h }))
            | inr f ↦ rw e (rw f (kept d h _))
          ]
          | inr e ↦ rw e h
        ]

  high_value-IsSound :
      (tier : Tier) (packet : EvidencePacket F) (d : Draft F)
      → IsSound d
      → IsSound (high_value o tier packet d)
  unfolding high_value
  high_value-IsSound tier packet d h =
      elim (Bool-cases
        (is_tier2 tier && is_true o (get (codes "high_value_flow") packet.policy_context))) [
          | inl e ↦ elim (Bool-cases (is_state d.state allow || is_state d.state observe)) [
            | inl f ↦
                rw e (
                  rw f
                    (record { enforced = refl; not_eject = refl; bounded = raised d (dec 80) h }))
            | inr f ↦ rw e (rw f (kept d h _))
          ]
          | inr e ↦ rw e h
        ]

  disagreement_step-IsSound : (x : F) (d : Draft F) → IsSound d → IsSound (disagreement_step o x d)
  unfolding disagreement_step
  disagreement_step-IsSound x d h = elim (Bool-cases (lt o (dec 80) x)) [
    | inl e ↦ rw e (record { enforced = refl; not_eject = refl; bounded = raised d (dec 65) h })
    | inr e ↦ elim (Bool-cases (lt o (dec 50) x && is_state d.state allow)) [
      | inl f ↦
          rw e (rw f (record { enforced = refl; not_eject = refl; bounded = raised d (dec 60) h }))
      | inr f ↦ rw e (rw f h)
    ]
  ]

  human_step-IsSound : (x : F) (d : Draft F) → IsSound d → IsSound (human_step o x d)
  unfolding human_step
  human_step-IsSound x d h = elim (Bool-cases (le x (dec 25) && le (dec 75) d.confidence)) [
    | inl e ↦ rw e (record { enforced = refl; not_eject = refl; bounded = h.bounded })
    | inr e ↦ elim (Bool-cases (le x (dec 45) && is_state d.state allow)) [
      | inl f ↦ rw e (rw f (record { enforced = refl; not_eject = refl; bounded = h.bounded }))
      | inr f ↦ rw e (rw f h)
    ]
  ]

  reviewed_draft-IsSound :
      (tier : Tier) (packet : EvidencePacket F) (human confidence disagreement : F)
      → le (dec 50) confidence ≡ true
      → IsSound (reviewed_draft o tier packet human confidence disagreement)
  unfolding reviewed_draft
  reviewed_draft-IsSound tier packet human confidence disagreement h = human_step-IsSound human _ (
      disagreement_step-IsSound disagreement _ (
        high_value-IsSound tier packet _ (
          timing-IsSound packet _ (
            cluster-IsSound tier packet _ (
              step_up-IsSound packet (start o confidence)
                (record { enforced = refl; not_eject = refl; bounded = h }))))))

  initial_confidence-bounded :
      (parse : Text → Option F) (reports : List (Fields F))
      → le (dec 50) (initial_confidence o parse reports) ≡ true
  unfolding initial_confidence
  initial_confidence-bounded parse reports = le-max_f_left o l (dec 50) _

  pub record IsDecided (tier : Tier) (d : DecisionObject F) : Type 0 where
    pub enforced : d.recommended_enforcement ≡ enforcement_of d.state
    pub ejected_at_tier0 : is_state d.state eject ≡ is_tier0 tier
    pub bounded : le (dec 50) d.confidence ≡ true
    pub in_unit : InUnit o d.bot_probability

  reviewed_decision-IsDecided :
      (parse : Text → Option F) (id : Text) (packet : EvidencePacket F) (reports : List (Fields F))
      (tier : Tier)
      → is_tier0 tier ≡ false
      → Always (IsDecided tier) (reviewed_decision o parse id packet reports tier)
  unfolding reviewed_decision decision_object
  reviewed_decision-IsDecided parse id packet reports tier t =
      Always-map (IsDecided tier) _ (disagreement_from o parse (zero_f o) reports) (λ x e.
        let sound =
          reviewed_draft-IsSound tier packet (human_probability_of o parse reports)
            (initial_confidence o parse reports) x (initial_confidence-bounded parse reports) in
        record {
          enforced = sound.enforced;
          ejected_at_tier0 = sound.not_eject ∙ sym t;
          bounded = sound.bounded;
          in_unit = clamp-InUnit o l _;
        })

  -- Every decision names the enforcement of its state, ejects exactly at tier 0, has a confidence
  -- of at least 0.5 and a bot probability between 0 and 1.
  pub synthesize_decision-IsDecided :
      (parse : Text → Option F) (id : Text) (packet : EvidencePacket F) (reports : List (Fields F))
      (tier : Tier)
      → Always (IsDecided tier) (synthesize_decision o parse id packet reports tier)
  unfolding synthesize_decision decision_object tier0_draft
  synthesize_decision-IsDecided parse id packet reports tier0 = record {
    enforced = refl;
    ejected_at_tier0 = refl;
    bounded = ground (arith, l.le_dec 50 99);
    in_unit = dec-InUnit o l 99 (omega arith);
  }
  synthesize_decision-IsDecided parse id packet reports tier1 =
      reviewed_decision-IsDecided parse id packet reports tier1 refl
  synthesize_decision-IsDecided parse id packet reports tier2 =
      reviewed_decision-IsDecided parse id packet reports tier2 refl
