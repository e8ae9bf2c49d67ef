-- ===== src/Decision/Reasons.antt =====
-- The reason codes of a decision of truepresence/decision/synthesizer.py.
use true_presence_ese.Base.{
  flagged, ◌≡◌, refl, ap, ◌∙◌, Bool, ◌&&◌, Option, none, some, List, [], ◌∷◌, ◌++◌, arith, Always,
  Always-map, if◌then◌else◌,
}
use true_presence_ese.Base.Text.{Text, codes}
use true_presence_ese.Json.{Fields, get, is_text}
use true_presence_ese.Float.{Floats, lt, zero_f}
use true_presence_ese.Decision.Packet.{EvidencePacket, is_true}
use true_presence_ese.Decision.Tier.{Tier, tier0, tier1, tier2, is_tier2}
use true_presence_ese.Decision.Object.{
  ReasonCode, invalid_attestation, known_automation_fingerprint, impossible_event_sequence,
  challenge_failure_deterministic, timing_automation_pattern, cross_session_cluster_match,
  excessive_role_disagreement, high_value_transaction_escalation, policy_requires_step_up, add_code,
  unique_from, DecisionObject,
}
use true_presence_ese.Decision.Reports.{human_probability_of, initial_confidence, disagreement_from}
use true_presence_ese.Decision.Synthesizer.{
  Draft, step_up, cluster, timing, high_value, disagreement_step, human_step, start, reviewed_draft,
  tier0_codes, tier0_draft, decision_object, reviewed_decision, synthesize_decision,
}

four :
    (a b c d : Bool)
    → unique_from [] (
        (if a then invalid_attestation ∷ [] else [])
        ++ (if b then known_automation_fingerprint ∷ [] else [])
        ++ (if c then impossible_event_sequence ∷ [] else [])
        ++ (if d then challenge_failure_deterministic ∷ [] else []))
      ≡ flagged (
          (a, invalid_attestation)
          ∷ (b, known_automation_fingerprint)
          ∷ (c, impossible_event_sequence)
          ∷ (d, challenge_failure_deterministic)
          ∷ [])
four a b c d = ground arith

abbrev add_if : Bool → ReasonCode → List ReasonCode → List ReasonCode
add_if b c cs = if b then add_code c cs else cs

five :
    (a b c d e : Bool)
    → unique_from [] (
        add_if e excessive_role_disagreement (
          add_if d high_value_transaction_escalation (
            add_if c timing_automation_pattern
              (add_if b cross_session_cluster_match (add_if a policy_requires_step_up [])))))
      ≡ flagged (
          (a, policy_requires_step_up)
          ∷ (b, cross_session_cluster_match)
          ∷ (c, timing_automation_pattern)
          ∷ (d, high_value_transaction_escalation)
          ∷ (e, excessive_role_disagreement)
          ∷ [])
five a b c d e = ground arith

module _ (o : Floats) where
  open o use {F, dec, le}

  -- What each reason code stands for, in the order in which the codes are listed.
  abbrev pub evidence : Tier → EvidencePacket F → F → List (Bool × ReasonCode)
  evidence tier0 packet disagreement =
      (is_true o (get (codes "invalid_attestation") packet.provenance), invalid_attestation)
      ∷ (
        is_true o (get (codes "known_automation_fingerprint") packet.behavioral_features),
        known_automation_fingerprint,
      )
      ∷ (
        is_true o (get (codes "impossible_event_sequence") packet.risk_context),
        impossible_event_sequence,
      )
      ∷ (
        is_text (codes "deterministic_failure") (get (codes "status") packet.challenge_data),
        challenge_failure_deterministic,
      )
      ∷ []
  evidence tier packet disagreement =
      (is_true o (get (codes "require_step_up") packet.policy_context), policy_requires_step_up)
      ∷ (
        is_text (codes "high") (get (codes "cluster_risk") packet.identity_refs),
        cross_session_cluster_match,
      )
      ∷ (
        is_true o (get (codes "constant_latency_pattern") packet.timing_features),
        timing_automation_pattern,
      )
      ∷ (
        is_tier2 tier && is_true o (get (codes "high_value_flow") packet.policy_context),
        high_value_transaction_escalation,
      )
      ∷ (lt o (dec 80) disagreement, excessive_role_disagreement)
      ∷ []

  cluster-codes :
      (tier : Tier) (packet : EvidencePacket F) (d : Draft F)
      → (cluster o tier packet d).reason_codes
        ≡ add_if
            (is_text (codes "high") (get (codes "cluster_risk") packet.identity_refs))
            cross_session_cluster_match
            d.reason_codes
  unfolding cluster
  cluster-codes tier packet d = ground arith

  timing-codes :
      (packet : EvidencePacket F) (d : Draft F)
      → (timing o packet d).reason_codes
        ≡ add_if
            (is_true o (get (codes "constant_latency_pattern") packet.timing_features))
            timing_automation_pattern
            d.reason_codes
  unfolding timing
  timing-codes packet d = ground arith

  human_step-codes : (x : F) (d : Draft F) → (human_step o x d).reason_codes ≡ d.reason_codes
  unfolding human_step
  human_step-codes x d = ground arith

  step_up-codes :
      (packet : EvidencePacket F) (x : F)
      → (step_up o packet (start o x)).reason_codes
        ≡ add_if
            (is_true o (get (codes "require_step_up") packet.policy_context))
            policy_requires_step_up
            []
  unfolding step_up start
  step_up-codes packet x = ground arith

  high_value-codes :
      (tier : Tier) (packet : EvidencePacket F) (d : Draft F)
      → (high_value o tier packet d).reason_codes
        ≡ add_if
            (is_tier2 tier && is_true o (get (codes "high_value_flow") packet.policy_context))
            high_value_transaction_escalation
            d.reason_codes
  unfolding high_value
  high_value-codes tier packet d = ground arith

  disagreement_step-codes :
      (x : F) (d : Draft F)
      → (disagreement_step o x d).reason_codes
        ≡ add_if (lt o (dec 80) x) excessive_role_disagreement d.reason_codes
  unfolding disagreement_step
  disagreement_step-codes x d = ground arith

  -- The greatest disagreement that a report states.
  unfoldable pub disagreement_of : (Text → Option F) → List (Fields F) → F
  disagreement_of parse reports = elim (disagreement_from o parse (zero_f o) reports) [
    | none ↦ dec 0
    | some x ↦ x
  ]

  disagreement_of-some :
      (parse : Text → Option F) (reports : List (Fields F)) (x : F)
      → disagreement_from o parse (zero_f o) reports ≡ some x
      → disagreement_of parse reports ≡ x
  unfolding disagreement_of
  disagreement_of-some parse reports x e = rw (e, disagreement_of) refl

  abbrev IsExplained : Tier → EvidencePacket F → F → DecisionObject F → Type 0
  IsExplained tier packet x d = d.reason_codes ≡ flagged (evidence tier packet x)

  reviewed_draft-codes :
      (packet : EvidencePacket F) (tier : Tier) (human confidence x : F)
      → (reviewed_draft o tier packet human confidence x).reason_codes
        ≡ add_if (lt o (dec 80) x) excessive_role_disagreement (
            add_if
              (is_tier2 tier && is_true o (get (codes "high_value_flow") packet.policy_context))
              high_value_transaction_escalation
              (add_if
                (is_true o (get (codes "constant_latency_pattern") packet.timing_features))
                timing_automation_pattern
                (add_if
                  (is_text (codes "high") (get (codes "cluster_risk") packet.identity_refs))
                  cross_session_cluster_match
                  (add_if
                    (is_true o (get (codes "require_step_up") packet.policy_context))
                    policy_requires_step_up
                    []))))
  unfolding reviewed_draft
  reviewed_draft-codes packet tier human confidence x =
      let d1 = step_up o packet (start o confidence) in
      let d2 = cluster o tier packet d1 in
      let d3 = timing o packet d2 in
      let d4 = high_value o tier packet d3 in
      rw (human_step-codes human (disagreement_step o x d4)) (
        rw (disagreement_step-codes x d4) (
          rw (high_value-codes tier packet d3) (
            rw (timing-codes packet d2)
              (rw (cluster-codes tier packet d1) (rw (step_up-codes packet confidence) refl)))))

  reviewed_decision-IsExplained :
      (parse : Text → Option F) (id : Text) (packet : EvidencePacket F) (reports : List (Fields F))
      (tier : Tier)
      → Always
          (λ d.
            d.reason_codes
            ≡ flagged (
                (
                  is_true o (get (codes "require_step_up") packet.policy_context),
                  policy_requires_step_up,
                )
                ∷ (
                  is_text (codes "high") (get (codes "cluster_risk") packet.identity_refs),
                  cross_session_cluster_match,
                )
                ∷ (
                  is_true o (get (codes "constant_latency_pattern") packet.timing_features),
                  timing_automation_pattern,
                )
                ∷ (
                  is_tier2 tier && is_true o (get (codes "high_value_flow") packet.policy_context),
                  high_value_transaction_escalation,
                )
                ∷ (lt o (dec 80) (disagreement_of parse reports), excessive_role_disagreement)
                ∷ []))
          (reviewed_decision o parse id packet reports tier)
  unfolding reviewed_decision decision_object
  reviewed_decision-IsExplained parse id packet reports tier =
      Always-map _ _ (disagreement_from o parse (zero_f o) reports) (λ x e.
        rw (disagreement_of-some parse reports x e) (
          ap (unique_from []) (
            reviewed_draft-codes packet tier (human_probability_of o parse reports)
              (initial_confidence o parse reports) x)
          ∙ five _ _ _ _ _))

  -- The reason codes of a decision are exactly those whose evidence the packet and the role reports
  -- hold at its tier, each once and in a fixed order.
  pub synthesize_decision-IsExplained :
      (parse : Text → Option F) (id : Text) (packet : EvidencePacket F) (reports : List (Fields F))
      (tier : Tier)
      → Always
          (IsExplained tier packet (disagreement_of parse reports))
          (synthesize_decision o parse id packet reports tier)
  unfolding synthesize_decision decision_object tier0_draft tier0_codes
  synthesize_decision-IsExplained parse id packet reports tier0 = four _ _ _ _
  synthesize_decision-IsExplained parse id packet reports tier1 =
      reviewed_decision-IsExplained parse id packet reports tier1
  synthesize_decision-IsExplained parse id packet reports tier2 =
      reviewed_decision-IsExplained parse id packet reports tier2
