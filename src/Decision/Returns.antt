-- ===== src/Decision/Returns.antt =====
-- When truepresence/decision/ returns a decision, and a decision that gives no reason.
use true_presence_ese.Base.{
  ◌≡◌, refl, sym, ap, ◌∙◌, ◌↔◌, Bool, true, false, not, Option, none, some, List, [], ◌∷◌, any,
  arith, Option-cases, inl, inr,
}
use true_presence_ese.Base.Text.{Text, codes}
use true_presence_ese.Json.{Value, obj, arr, nil, Fields, end, get, get_or, is_text}
use true_presence_ese.Float.{Floats, max_f, zero_f}
use true_presence_ese.Decision.Packet.{EvidencePacket, is_true, as_set}
use true_presence_ese.Decision.Tier.{
  Tier, tier0, tier1, tier2, is_tier0, is_hard_threat, tier_from, choose_tier,
}
use true_presence_ese.Decision.Object.{eject, DecisionObject}
use true_presence_ese.Decision.Reports.{metadata_score, disagreement_from}
use true_presence_ese.Decision.Synthesizer.{
  tier0_codes, tier0_draft, decision_object, reviewed_decision, synthesize_decision,
}
use true_presence_ese.Decision.Engine.{role_reports_of, evaluate}
use true_presence_ese.Decision.Allowed.{threats_of}

module _ (o : Floats) (parse : Text → Option o.F) where
  open o use {F}

  -- A report whose metadata is there and no dictionary.
  abbrev is_object : Value F → Bool
  is_object (obj fields) = true
  is_object _ = false

  abbrev pub is_malformed : Fields F → Bool
  is_malformed report = not (is_object (get_or (codes "metadata") (obj end) report))

  metadata_score-none : (v : Value F) → (metadata_score o parse v ≡ none) ↔ (is_object v ≡ false)
  unfolding metadata_score
  metadata_score-none v = ground arith

  disagreement_from-none :
      (x : F) (reports : List (Fields F))
      → (disagreement_from o parse x reports ≡ none) ↔ (any is_malformed reports ≡ true)
  unfolding disagreement_from
  disagreement_from-none x [] = ground arith
  disagreement_from-none x (r ∷ reports) =
      elim (Option-cases (metadata_score o parse (get_or (codes "metadata") (obj end) r))) [
        | inl e ↦
            ground (arith, e, (metadata_score-none (get_or (codes "metadata") (obj end) r)).0 e)
        | inr e ↦ ground (
          arith,
          e.1,
          metadata_score-none (get_or (codes "metadata") (obj end) r),
          disagreement_from-none (max_f o x e.0) reports,
        )
      ]

  module _ (id : Text) (packet : EvidencePacket F) where
    reviewed_decision-none :
        (reports : List (Fields F)) (tier : Tier)
        → (reviewed_decision o parse id packet reports tier ≡ none)
          ↔ (any is_malformed reports ≡ true)
    unfolding reviewed_decision
    reviewed_decision-none reports tier = ground (arith, disagreement_from-none (zero_f o) reports)

    -- The synthesis raises exactly when, beyond tier 0, a role report has metadata that is no
    -- dictionary; otherwise it returns a decision.
    pub synthesize_decision-none :
        (reports : List (Fields F)) (tier : Tier)
        → (synthesize_decision o parse id packet reports tier ≡ none)
          ↔ ((is_tier0 tier ≡ false) × (any is_malformed reports ≡ true))
    unfolding synthesize_decision
    synthesize_decision-none reports tier0 = ((λ h. cc h), (λ h. cc h.0))
    synthesize_decision-none reports tier1 = ground (arith, reviewed_decision-none reports tier1)
    synthesize_decision-none reports tier2 = ground (arith, reviewed_decision-none reports tier2)

    no_threats :
        as_set o (get_or (codes "threats_detected") (arr nil) packet.risk_context) ≡ none
        → is_hard_threat o (threats_of o packet) ≡ false
    unfolding is_hard_threat
    no_threats e = rw (e, threats_of) refl

    the_threats :
        (threats : List (Value F))
        → as_set o (get_or (codes "threats_detected") (arr nil) packet.risk_context) ≡ some threats
        → is_hard_threat o (threats_of o packet) ≡ is_hard_threat o threats
    the_threats threats e = rw (e, threats_of) refl

    tier_from-hard :
        (threats : List (Value F)) (context : Fields F)
        → is_hard_threat o threats ≡ true
        → tier_from o threats packet context ≡ tier0
    unfolding tier_from
    tier_from-hard threats context t = ground arith

    evaluate-tier0 :
        (context : Fields F) (run : Tier → List (Fields F)) (threats : List (Value F))
        → as_set o (get_or (codes "threats_detected") (arr nil) packet.risk_context) ≡ some threats
        → is_hard_threat o threats ≡ true
        → evaluate o parse id packet context run
          ≡ some (decision_object o id packet [] tier0 (o.dec 1) (o.dec 99) (tier0_draft o packet))
    unfolding evaluate choose_tier synthesize_decision role_reports_of
    evaluate-tier0 context run threats e t =
        rw (e, evaluate)
          (ap
            (λ tier. synthesize_decision o parse id packet (role_reports_of o parse run tier) tier)
            (tier_from-hard threats context t))

    -- A session with a hard threat and none of the other grounds for tier 0 is ejected, and the
    -- decision names no reason code.
    pub evaluate-hard_threat :
        (context : Fields F) (run : Tier → List (Fields F))
        → is_true o (get (codes "invalid_attestation") packet.provenance) ≡ false
        → is_true o (get (codes "known_automation_fingerprint") packet.behavioral_features) ≡ false
        → is_true o (get (codes "impossible_event_sequence") packet.risk_context) ≡ false
        → is_text (codes "deterministic_failure") (get (codes "status") packet.challenge_data)
          ≡ false
        → is_hard_threat o (threats_of o packet) ≡ true
        → (d : DecisionObject F) × (evaluate o parse id packet context run ≡ some d)
          × (d.state ≡ eject)
          × (d.reason_codes ≡ [])
    unfolding decision_object tier0_draft tier0_codes
    evaluate-hard_threat context run a f i c t =
        elim (Option-cases
          (as_set o (get_or (codes "threats_detected") (arr nil) packet.risk_context))) [
            | inl e ↦ cc (sym (no_threats e) ∙ t)
            | inr e ↦ (
              decision_object o id packet [] tier0 (o.dec 1) (o.dec 99) (tier0_draft o packet),
              evaluate-tier0 context run e.0 e.1 (sym (the_threats e.0 e.1) ∙ t),
              refl,
              ground arith,
            )
          ]
