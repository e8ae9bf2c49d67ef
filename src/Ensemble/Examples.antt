-- ===== src/Ensemble/Examples.antt =====
-- Reports and their review of truepresence/ensemble/orchestrator.py, over fixed-point numbers.
use true_presence_ese.Base.{ℕ, ◌≡◌, refl, true, Option, none, some, List, [], ◌∷◌, length, Always}
use true_presence_ese.Base.Text.{Text, codes}
use true_presence_ese.Base.Steps.{Returns, IsSome}
use true_presence_ese.Json.{Value, bool, num, str, null, obj, end, field}
use true_presence_ese.Float.Fixed.{fixed, fixed-IsFloats}
use true_presence_ese.Decision.Packet.{EvidencePacket}
use true_presence_ese.Decision.Tier.{Tier}
use true_presence_ese.Decision.Synthesizer.{synthesize_decision}
use true_presence_ese.Roles.Simple.{Opinion}
use true_presence_ese.Evidence.Builder.{packet_of}
use true_presence_ese.Ensemble.Report.{Report}
use true_presence_ese.Ensemble.Review.{
  reasoning_integrity_review, normalize_role_reports, unsupported_claims,
}
use true_presence_ese.Ensemble.Decided.{
  Output, gave_opinion, gave_review, result_of, outputs_decided,
}
use true_presence_ese.Roles.Adversarial.{
  AdversarialReview, low_interaction_entropy, copyright_content_detected, dmca_violations,
}
use true_presence_ese.Ensemble.Supported.{IsReviewed, reasoning_integrity_review-IsReviewed}

abbrev no_floats : Text → Option ℕ
no_floats t = none

abbrev no_text : Value ℕ → Text
no_text v = []

abbrev same_fresh : ℕ → Text
same_fresh n = codes "u"

-- A packet with a passed challenge.
abbrev passed : EvidencePacket ℕ
passed =
    packet_of fixed no_floats (codes "p1") (codes "2025-01-01T00:00:00+00:00") (codes "web")
      (codes "s1") null end
      (field (codes "challenge_data") (obj (field (codes "verified") (bool true) end)) end) end end
      (record {
        liveness = 2000;
        ai_mediation = 1000;
        relay_risk = 1000;
        deterministic_policy_violation = 0;
      })
      [] end

abbrev liveness_says : Opinion ℕ
liveness_says = record {
  role = "liveness";
  human_probability = 9000;
  confidence = 9500;
  finding = "presence_confirmed";
  impact = "positive";
}

abbrev relay_says : Opinion ℕ
relay_says = record {
  role = "relay";
  human_probability = 1000;
  confidence = 9500;
  finding = "automated_tool";
  impact = "negative";
}

abbrev adversarial_says : AdversarialReview ℕ
adversarial_says = record {
  human_probability = 1500;
  bot_probability = 8500;
  confidence = 9250;
  findings = low_interaction_entropy ∷ copyright_content_detected ∷ [];
  threat_categories = dmca_violations ∷ [];
  severity = 8500;
  block_reason = "Copyright violation detected - DMCA";
  impact = "negative";
}

abbrev three_outputs : List (Text × Output ℕ)
three_outputs =
    (codes "liveness", gave_opinion liveness_says)
    ∷ (codes "relay", gave_opinion relay_says)
    ∷ (codes "adversarial", gave_review adversarial_says)
    ∷ []

outputs_decided_example :
    Returns
      (λ reports.
        (length reports ≡ 4)
        × ((tier : Tier)
            → IsSome (synthesize_decision fixed no_floats (codes "u") passed reports tier)))
      (normalize_role_reports fixed no_text no_floats same_fresh
        (result_of fixed no_text no_floats three_outputs)
        (some passed))
outputs_decided_example = outputs_decided fixed no_text no_floats same_fresh passed three_outputs

-- A report of little hope for a human, sure of itself and without a finding.
abbrev doubting : Report fixed no_text
doubting = record {
  report_id = str (codes "r1");
  role = str (codes "relay");
  summary = str (codes "doubts");
  confidence = 9500;
  human_probability = num 1000;
  findings = [];
  metadata = end;
}

two_claims :
    unsupported_claims fixed no_text no_floats true (doubting ∷ [])
    ≡ codes "relay:high_confidence_without_findings"
      ∷ codes "relay:contradicts_passed_challenge"
      ∷ []
unfolding unsupported_claims
two_claims = refl

reasoning_integrity_review-IsReviewed_example :
    Always
      (IsReviewed fixed no_text no_floats passed (doubting ∷ []))
      (reasoning_integrity_review fixed no_text no_floats passed (doubting ∷ []))
reasoning_integrity_review-IsReviewed_example =
    reasoning_integrity_review-IsReviewed fixed no_text no_floats fixed-IsFloats passed
      (doubting ∷ [])
