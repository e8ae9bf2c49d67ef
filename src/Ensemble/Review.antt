-- ===== src/Ensemble/Review.antt =====
-- `_reasoning_integrity_review` of truepresence/ensemble/orchestrator.py, and the reports with it.

use true_presence_ese.Base.{
  ℕ, Bool, true, false, not, ◌&&◌, Option, none, some, List, [], ◌∷◌, ◌++◌, map, length,
  if◌then◌else◌, flagged,
}
use true_presence_ese.Base.Text.{Text, codes}
use true_presence_ese.Base.Steps.{◌>>=◌}
use true_presence_ese.Json.{Value, num, str, obj, Fields, end, field, get, is_none, is_text}
use true_presence_ese.Float.{Floats, lt, whole, min_f, max_f, max_from}
use true_presence_ese.Decision.Packet.{EvidencePacket}
use true_presence_ese.Memory.Risk.{as_number}
use true_presence_ese.Ensemble.Report.{Report, texts, str_of, role_reports}

abbrev pub is_silent : List Text → Bool
is_silent [] = true
is_silent _ = false

module _ (o : Floats) where
  open o use {F, dec, add, sub, div}

  unfoldable pub min_from : F → List F → F
  unfolding min_f
  min_from best [] = best
  min_from best (x ∷ xs) = min_from (min_f o best x) xs

  -- `max(probabilities) - min(probabilities)`
  unfoldable pub spread : List F → F
  unfolding min_from max_from
  spread [] = dec 0
  spread (p ∷ ps) = sub (max_from o p ps) (min_from p ps)

module _ (o : Floats) (text_of : Value o.F → Text) (parse_float : Text → Option o.F) where
  open o use {F, dec, add, sub, div}

  -- The probabilities that are not None. One that is no number cannot be subtracted.
  unfoldable pub given_probabilities : List (Report o text_of) → Option (List F)
  given_probabilities [] = some []
  given_probabilities (report ∷ reports) =
      let rest = given_probabilities reports in
      if is_none report.human_probability
      then rest
      else (as_number o report.human_probability >>= λ p. rest >>= λ ps. some (p ∷ ps))

  abbrev pub is_overconfident : Report o text_of → Bool
  is_overconfident report = lt o (dec 90) report.confidence && is_silent report.findings

  -- `report["human_probability"] < 0.2`, for a probability that is a number.
  abbrev pub is_doubtful : Value F → Bool
  is_doubtful v = elim (as_number o v) [ none ↦ false | some p ↦ lt o p (dec 20) ]

  abbrev pub claims_of : Bool → Report o text_of → List Text
  claims_of passed report = flagged (
      (
        is_overconfident report,
        str_of o text_of report.role ++ codes ":high_confidence_without_findings",
      )
      ∷ (
        passed && is_doubtful report.human_probability,
        str_of o text_of report.role ++ codes ":contradicts_passed_challenge",
      )
      ∷ [])

  unfoldable pub unsupported_claims : Bool → List (Report o text_of) → List Text
  unsupported_claims passed [] = []
  unsupported_claims passed (report ∷ reports) =
      claims_of passed report ++ unsupported_claims passed reports

  pub record Review : Type 0 where
    pub disagreement_score : F
    pub unsupported : List Text
    pub confidence : F
    pub findings : List Text

  unfoldable pub review_of : Bool → F → List (Report o text_of) → Review
  unfolding unsupported_claims min_f max_f
  review_of passed disagreement_score reports = record {
    disagreement_score = disagreement_score;
    unsupported = unsupported_claims passed reports;
    confidence =
        max_f o (dec 40) (min_f o (dec 95) (add (dec 55) (div disagreement_score (whole o 2))));
    findings = flagged (
        (
          not (is_silent (unsupported_claims passed reports)),
          codes "unsupported_inference_detected",
        )
        ∷ (lt o (dec 50) disagreement_score, codes "material_role_disagreement")
        ∷ []);
  }

  unfoldable pub reasoning_integrity_review :
      EvidencePacket F → List (Report o text_of) → Option Review
  unfolding given_probabilities review_of spread
  reasoning_integrity_review packet reports = given_probabilities reports >>= λ probabilities.
      some (
        review_of (is_text (codes "passed") (get (codes "status") packet.challenge_data))
          (spread o probabilities) reports)

  -- The dictionaries that the code returns.
  abbrev pub report_fields : Report o text_of → Fields F
  report_fields report = field (codes "report_id") report.report_id (
      field (codes "role") report.role (
        field (codes "summary") report.summary (
          field (codes "confidence") (num report.confidence) (
            field (codes "human_probability") report.human_probability (
              field (codes "findings") (texts report.findings)
                (field (codes "metadata") (obj report.metadata) end))))))

  abbrev pub review_fields : Text → Review → Fields F
  review_fields fresh review =
      field (codes "report_id") (str (codes "report:reasoning_integrity_reviewer:" ++ fresh)) (
        field (codes "role") (str (codes "reasoning_integrity_reviewer")) (
          field (codes "summary")
            (str (
              codes
                "Reviewed whether role conclusions are supported by the current evidence packet and argument graph."))
            (field (codes "confidence") (num review.confidence) (
              field (codes "findings") (texts review.findings) (
                field (codes "metadata")
                  (obj (
                    field (codes "disagreement_score") (num review.disagreement_score)
                      (field (codes "unsupported_claims") (texts review.unsupported) end)))
                  end)))))

  -- The reports, with the review of them last where a packet is given.
  unfoldable pub normalize_role_reports :
      (ℕ → Text) → Value F → Option (EvidencePacket F) → Option (List (Fields F))
  unfolding role_reports reasoning_integrity_review
  normalize_role_reports fresh result none =
      role_reports o text_of parse_float fresh result >>= λ reports.
      some (map report_fields reports)
  normalize_role_reports fresh result (some packet) =
      role_reports o text_of parse_float fresh result >>= λ reports.
      reasoning_integrity_review packet reports >>= λ review.
      some (map report_fields reports ++ review_fields (fresh (length reports)) review ∷ [])
