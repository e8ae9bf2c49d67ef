-- ===== src/Decision/Firm.antt =====
-- The steps of truepresence/decision/synthesizer.py never take a strong state back.
use true_presence_ese.Base.{
  ◌≡◌, sym, ◌∙◌, leb, Bool, true, false, ◌&&◌, arith, Bool-cases, inl, inr,
}
use true_presence_ese.Base.Text.{codes}
use true_presence_ese.Json.{get, is_text}
use true_presence_ese.Float.{Floats, lt}
use true_presence_ese.Decision.Packet.{EvidencePacket, is_true}
use true_presence_ese.Decision.Tier.{Tier, is_tier2}
use true_presence_ese.Decision.Object.{DecisionState, observe, state_index, is_state}
use true_presence_ese.Decision.Synthesizer.{
  Draft, step_up, cluster, timing, high_value, disagreement_step, human_step, start, reviewed_draft,
}

-- A state that lets the session through unchecked is `allow` or `observe`.
abbrev pub is_firm : DecisionState → Bool
is_firm s = leb 2 (state_index s)

module _ (o : Floats) where
  open o use {F, dec, le}

  -- No step takes a firm state back.
  cluster-firm :
      (tier : Tier) (packet : EvidencePacket F) (d : Draft F)
      → is_firm d.state ≡ true
      → is_firm (cluster o tier packet d).state ≡ true
  unfolding cluster
  cluster-firm tier packet d h = ground arith

  timing-firm :
      (packet : EvidencePacket F) (d : Draft F)
      → is_firm d.state ≡ true
      → is_firm (timing o packet d).state ≡ true
  unfolding timing
  timing-firm packet d h = ground arith

  high_value-firm :
      (tier : Tier) (packet : EvidencePacket F) (d : Draft F)
      → is_firm d.state ≡ true
      → is_firm (high_value o tier packet d).state ≡ true
  unfolding high_value
  high_value-firm tier packet d h = ground arith

  disagreement_step-firm :
      (x : F) (d : Draft F)
      → is_firm d.state ≡ true
      → is_firm (disagreement_step o x d).state ≡ true
  unfolding disagreement_step
  disagreement_step-firm x d h = ground arith

  human_step-firm :
      (x : F) (d : Draft F) → is_firm d.state ≡ true → is_firm (human_step o x d).state ≡ true
  unfolding human_step
  human_step-firm x d h = ground arith

  -- Each kind of evidence makes the state firm.
  step_up-makes_firm :
      (packet : EvidencePacket F) (d : Draft F)
      → is_true o (get (codes "require_step_up") packet.policy_context) ≡ true
      → is_firm (step_up o packet d).state ≡ true
  unfolding step_up
  step_up-makes_firm packet d h = ground arith

  cluster-makes_firm :
      (tier : Tier) (packet : EvidencePacket F) (d : Draft F)
      → (is_tier2 tier && is_text (codes "high") (get (codes "cluster_risk") packet.identity_refs))
        ≡ true
      → is_firm (cluster o tier packet d).state ≡ true
  unfolding cluster
  cluster-makes_firm tier packet d h = ground arith

  timing-makes_firm :
      (packet : EvidencePacket F) (d : Draft F)
      → is_state d.state observe ≡ false
      → is_true o (get (codes "constant_latency_pattern") packet.timing_features) ≡ true
      → is_firm (timing o packet d).state ≡ true
  unfolding timing
  timing-makes_firm packet d n h = ground arith

  high_value-makes_firm :
      (tier : Tier) (packet : EvidencePacket F) (d : Draft F)
      → (is_tier2 tier && is_true o (get (codes "high_value_flow") packet.policy_context)) ≡ true
      → is_firm (high_value o tier packet d).state ≡ true
  unfolding high_value
  high_value-makes_firm tier packet d h = ground arith

  disagreement_step-makes_firm :
      (x : F) (d : Draft F)
      → lt o (dec 80) x ≡ true
      → is_firm (disagreement_step o x d).state ≡ true
  unfolding disagreement_step
  disagreement_step-makes_firm x d h = ground arith

  not_observe :
      (tier : Tier) (packet : EvidencePacket F) (x : F)
      → is_state (cluster o tier packet (step_up o packet (start o x))).state observe ≡ false
  unfolding cluster step_up start
  not_observe tier packet x = ground arith

  -- What a session that is let through has none of, apart from tier 0.
  abbrev pub IsCalm : Tier → EvidencePacket F → Type 0
  IsCalm tier packet =
      (is_true o (get (codes "require_step_up") packet.policy_context) ≡ false)
      × (is_true o (get (codes "constant_latency_pattern") packet.timing_features) ≡ false)
      × ((is_tier2 tier && is_text (codes "high") (get (codes "cluster_risk") packet.identity_refs))
          ≡ false)
      × ((is_tier2 tier && is_true o (get (codes "high_value_flow") packet.policy_context)) ≡ false)

  module _ (tier : Tier) (packet : EvidencePacket F) (human confidence x : F) where
    d1 : Draft F
    d1 = step_up o packet (start o confidence)

    d2 : Draft F
    d2 = cluster o tier packet d1

    d3 : Draft F
    d3 = timing o packet d2

    d4 : Draft F
    d4 = high_value o tier packet d3

    after_high_value :
        is_firm d4.state ≡ true
        → is_firm (reviewed_draft o tier packet human confidence x).state ≡ true
    unfolding reviewed_draft d4 d3 d2 d1
    after_high_value h =
        human_step-firm human (disagreement_step o x d4) (disagreement_step-firm x d4 h)

    after_timing :
        is_firm d3.state ≡ true
        → is_firm (reviewed_draft o tier packet human confidence x).state ≡ true
    unfolding d4
    after_timing h = after_high_value (high_value-firm tier packet d3 h)

    after_cluster :
        is_firm d2.state ≡ true
        → is_firm (reviewed_draft o tier packet human confidence x).state ≡ true
    unfolding d3
    after_cluster h = after_timing (timing-firm packet d2 h)

    absurd_firm :
        {A : Type 0}
        → is_firm (reviewed_draft o tier packet human confidence x).state ≡ false
        → is_firm (reviewed_draft o tier packet human confidence x).state ≡ true
        → A
    absurd_firm n h = cc (sym n ∙ h)

    pub reviewed_draft-IsCalm :
        is_firm (reviewed_draft o tier packet human confidence x).state ≡ false → IsCalm tier packet
    unfolding d4 d3 d2 d1
    reviewed_draft-IsCalm n = (
      elim (Bool-cases (is_true o (get (codes "require_step_up") packet.policy_context))) [
        | inl e ↦ absurd_firm n (
            after_cluster
              (cluster-firm tier packet d1 (step_up-makes_firm packet (start o confidence) e)))
        | inr e ↦ e
      ],
      elim (Bool-cases
          (is_true o (get (codes "constant_latency_pattern") packet.timing_features))) [
            | inl e ↦
                absurd_firm n (
                  after_timing (timing-makes_firm packet d2 (not_observe tier packet confidence) e))
            | inr e ↦ e
          ],
      elim (Bool-cases (
          is_tier2 tier
          && is_text (codes "high") (get (codes "cluster_risk") packet.identity_refs))) [
            | inl e ↦ absurd_firm n (after_cluster (cluster-makes_firm tier packet d1 e))
            | inr e ↦ e
          ],
      elim (Bool-cases
          (is_tier2 tier && is_true o (get (codes "high_value_flow") packet.policy_context))) [
            | inl e ↦ absurd_firm n (after_high_value (high_value-makes_firm tier packet d3 e))
            | inr e ↦ e
          ],
    )
