-- ===== src/Decision/Examples.antt =====
-- The decisions of truepresence/decision/ on small packets, over fixed-point numbers.
use true_presence_ese.Base.{
  ℕ, ◌≡◌, refl, ◌↔◌, true, false, Option, none, some, List, [], ◌∷◌, any, flagged, Always,
}
use true_presence_ese.Base.Text.{Text, codes}
use true_presence_ese.Json.{
  null, bool, num, str, arr, cons, nil, Fields, end, field, get, get_or, is_text,
}
use true_presence_ese.Float.{clamp, one_f, max_f}
use true_presence_ese.Float.Fixed.{fixed, fixed-IsFloats}
use true_presence_ese.Decision.Packet.{EvidencePacket, is_true, as_set}
use true_presence_ese.Decision.Tier.{Tier, tier1, tier2, is_tier0, is_hard_threat, choose_tier}
use true_presence_ese.Decision.Object.{DecisionObject, eject}
use true_presence_ese.Decision.Reports.{human_probability_of, initial_confidence, disagreement_from}
use true_presence_ese.Decision.Synthesizer.{
  reviewed_draft, tier0_draft, decision_object, reviewed_decision, synthesize_decision,
}
use true_presence_ese.Decision.Engine.{evaluate}
use true_presence_ese.Decision.Sound.{IsDecided, synthesize_decision-IsDecided}
use true_presence_ese.Decision.Reasons.{evidence, disagreement_of, synthesize_decision-IsExplained}
use true_presence_ese.Decision.Allowed.{threats_of}
use true_presence_ese.Decision.Returns.{
  is_malformed, synthesize_decision-none, evaluate-hard_threat,
}

-- No text is read as a number.
abbrev no_numbers : Text → Option ℕ
no_numbers t = none

abbrev packet_with : Fields ℕ → Fields ℕ → EvidencePacket ℕ
packet_with timing risk = record {
  packet_id = codes "p1";
  session_id = codes "s1";
  tenant_id = str (codes "default");
  surface = codes "web";
  actor_id = null;
  received_at = codes "2025-01-01T00:00:00+00:00";
  event_window_start = null;
  event_window_end = null;
  raw_events = [];
  challenge_data = end;
  timing_features = timing;
  behavioral_features = end;
  identity_refs = end;
  session_history = [];
  policy_context = end;
  risk_context = risk;
  provenance = end;
  session_context = end;
  metadata = end;
  schema_version = codes "1.0";
}

abbrev calm : EvidencePacket ℕ
calm = packet_with end end

abbrev hurried : EvidencePacket ℕ
hurried = packet_with (field (codes "constant_latency_pattern") (bool true) end) end

abbrev threatening : EvidencePacket ℕ
threatening =
    packet_with end
      (field (codes "threats_detected") (arr (cons (str (codes "illegal_content")) nil)) end)

-- {"human_probability": 0.9}
abbrev reports : List (Fields ℕ)
reports = field (codes "human_probability") (num 9000) end ∷ []

-- {"metadata": "x"}
abbrev malformed : List (Fields ℕ)
malformed = field (codes "metadata") (str (codes "x")) end ∷ []

abbrev run_reports : Tier → List (Fields ℕ)
run_reports tier = reports

program : Unit {0}
unfolding evaluate choose_tier as_set is_true is_hard_threat synthesize_decision reviewed_decision
    human_probability_of initial_confidence disagreement_from reviewed_draft tier0_draft
    decision_object get_or max_f
program = tt

abbrev calm_decision : DecisionObject ℕ
calm_decision =
    decision_object fixed (codes "d1") calm reports tier1
      (human_probability_of fixed no_numbers reports)
      (clamp fixed (fixed.sub (one_f fixed) (human_probability_of fixed no_numbers reports)))
      (reviewed_draft fixed tier1 calm (human_probability_of fixed no_numbers reports)
        (initial_confidence fixed no_numbers reports) 0)

calm_human : human_probability_of fixed no_numbers reports ≡ 9000
unfolding program
calm_human = refl

synthesize_decision-IsDecided_example :
    Always
      (IsDecided fixed fixed-IsFloats tier1)
      (synthesize_decision fixed no_numbers (codes "d1") hurried reports tier1)
synthesize_decision-IsDecided_example =
    synthesize_decision-IsDecided fixed fixed-IsFloats no_numbers (codes "d1") hurried reports tier1

synthesize_decision-IsExplained_example :
    Always
      (λ d.
        d.reason_codes
        ≡ flagged (evidence fixed tier1 hurried (disagreement_of fixed no_numbers reports)))
      (synthesize_decision fixed no_numbers (codes "d1") hurried reports tier1)
synthesize_decision-IsExplained_example =
    synthesize_decision-IsExplained fixed no_numbers (codes "d1") hurried reports tier1

synthesize_decision-none_example :
    (synthesize_decision fixed no_numbers (codes "d1") calm malformed tier2 ≡ none)
    ↔ ((is_tier0 tier2 ≡ false) × (any (is_malformed fixed no_numbers) malformed ≡ true))
synthesize_decision-none_example =
    synthesize_decision-none fixed no_numbers (codes "d1") calm malformed tier2

not_attested_badly :
    is_true fixed (get (codes "invalid_attestation") threatening.provenance) ≡ false
unfolding program
not_attested_badly = refl

no_fingerprint :
    is_true fixed (get (codes "known_automation_fingerprint") threatening.behavioral_features)
    ≡ false
unfolding program
no_fingerprint = refl

possible : is_true fixed (get (codes "impossible_event_sequence") threatening.risk_context) ≡ false
unfolding program
possible = refl

not_failed :
    is_text (codes "deterministic_failure") (get (codes "status") threatening.challenge_data)
    ≡ false
unfolding program
not_failed = refl

hard : is_hard_threat fixed (threats_of fixed threatening) ≡ true
unfolding program
hard = refl

evaluate-hard_threat_example :
    (d : DecisionObject ℕ) × (evaluate fixed no_numbers (codes "d1") threatening end run_reports
      ≡ some d)
    × (d.state ≡ eject)
    × (d.reason_codes ≡ [])
evaluate-hard_threat_example =
    evaluate-hard_threat fixed no_numbers (codes "d1") threatening end run_reports
      not_attested_badly no_fingerprint possible not_failed hard
