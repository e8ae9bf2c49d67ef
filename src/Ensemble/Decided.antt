-- ===== src/Ensemble/Decided.antt =====
-- The reports of truepresence/ensemble/orchestrator.py in the synthesis of decision/synthesizer.py.

use true_presence_ese.Base.{
  ℕ, suc, ◌≡◌, refl, ap, ◌∙◌, false, Option, none, some, List, [], ◌∷◌, ◌++◌, map, length, any, All,
  Bool, true, Bool-cases, inl, inr, if◌then◌else◌,
}
use true_presence_ese.Base.Text.{Text, codes, text_eq}
use true_presence_ese.Base.Steps.{◌>>=◌, Returns, >>=-Returns, IsSome, >>=-IsSome}
use true_presence_ese.Json.{Value, arr, nil, num, str, obj, Fields, end, field, get_or, is_none}
use true_presence_ese.Float.{Floats}
use true_presence_ese.Decision.Packet.{EvidencePacket, is_true}
use true_presence_ese.Decision.Tier.{Tier}
use true_presence_ese.Decision.Synthesizer.{synthesize_decision}
use true_presence_ese.Decision.Returns.{is_malformed, synthesize_decision-none}
use true_presence_ese.Memory.Risk.{as_number}
use true_presence_ese.Roles.Simple.{Opinion, Verdict}
use true_presence_ese.Roles.Adversarial.{AdversarialReview, finding_text, threat_text}
use true_presence_ese.Evidence.Values.{list_of}
use true_presence_ese.Ensemble.Report.{
  texts, listed, str_of, Report, normalize_single_report, flatten_findings, reports_of_roles,
  role_reports,
}
use true_presence_ese.Ensemble.Review.{
  Review, given_probabilities, reasoning_integrity_review, report_fields, review_fields,
  normalize_role_reports,
}

-- What a role returns.
pub data Output (F : Type 0) : Type 0 where
  gave_opinion : Opinion F → Output F
  gave_review : AdversarialReview F → Output F
  gave_verdict : Verdict F → Output F

abbrev pub output_fields : {F : Type 0} → Output F → Fields F
output_fields (gave_opinion opinion) = field (codes "role") (str (codes opinion.role)) (
    field (codes "human_probability") (num opinion.human_probability) (
      field (codes "confidence") (num opinion.confidence) (
        field (codes "finding") (str (codes opinion.finding))
          (field (codes "impact") (str (codes opinion.impact)) end))))
output_fields (gave_review review) = field (codes "role") (str (codes "adversarial")) (
    field (codes "human_probability") (num review.human_probability) (
      field (codes "bot_probability") (num review.bot_probability) (
        field (codes "confidence") (num review.confidence) (
          field (codes "findings") (texts (map (λ f. codes (finding_text f)) review.findings)) (
            field (codes "threat_categories")
              (texts (map (λ t. codes (threat_text t)) review.threat_categories))
              (field (codes "severity") (num review.severity) (
                field (codes "block_reason") (str (codes review.block_reason))
                  (field (codes "impact") (str (codes review.impact)) end))))))))
output_fields (gave_verdict verdict) = field (codes "role") (str (codes "synthesizer")) (
    field (codes "human_probability") (num verdict.human_probability) (
      field (codes "confidence") (num verdict.confidence)
        (field (codes "decision") (str (codes verdict.decision)) end)))

abbrev pub outputs_of : {F : Type 0} → List (Text × Output F) → Fields F
outputs_of [] = end
outputs_of ((name, output) ∷ outputs) = field name (obj (output_fields output)) (outputs_of outputs)

module _ (o : Floats) (text_of : Value o.F → Text) (parse : Text → Option o.F) where
  open o use {F, dec, le}

  any_malformed :
      (reports : List (Report o text_of)) (fresh : Text) (review : Review o text_of parse)
      → any (is_malformed o parse) (
          map (report_fields o text_of parse) reports
          ++ review_fields o text_of parse fresh review ∷ [])
        ≡ false
  unfolding get_or text_eq
  any_malformed [] fresh review = refl
  any_malformed (r ∷ reports) fresh review = any_malformed reports fresh review

  -- An opinion gives a report with a probability that is a number.
  abbrev HasNumber : Report o text_of → Type 0
  HasNumber report = IsSome (as_number o report.human_probability)

  -- A list of texts is gone through.
  listed-IsSome :
      (key : Text) (ts : List Text) (raw : Fields F)
      → get_or key (arr nil) raw ≡ texts ts
      → IsSome (listed o text_of key raw)
  unfolding list_of
  listed-IsSome key ts raw e = rw e (either_way (is_true o (texts ts)))
    where
      either_way :
          (b : Bool)
          → IsSome (
              if b
              then (list_of (texts {N = F} ts) >>= λ vs. some (map (str_of o text_of) vs))
              else some [])
      either_way true = tt
      either_way false = tt

  flatten_findings-IsSome :
      (output : Output F) → IsSome (flatten_findings o text_of (output_fields output))
  unfolding flatten_findings get_or text_eq is_true
  flatten_findings-IsSome (gave_opinion opinion) = tt
  flatten_findings-IsSome (gave_verdict verdict) = tt
  flatten_findings-IsSome (gave_review review) =
      >>=-IsSome (listed o text_of (codes "findings") (output_fields (gave_review review))) _
        (listed-IsSome (codes "findings") (map (λ f. codes (finding_text f)) review.findings)
          (output_fields (gave_review review)) refl)
        (λ found.
          >>=-IsSome
            (listed o text_of (codes "threat_categories") (output_fields (gave_review review))) _
            (listed-IsSome (codes "threat_categories")
              (map (λ t. codes (threat_text t)) review.threat_categories)
              (output_fields (gave_review review)) refl)
            (λ threats. tt))

  review-HasNumber :
      (fresh : Text) (name : Text) (review : AdversarialReview F)
      → Returns HasNumber (
          normalize_single_report o text_of parse fresh
            (str name)
            (output_fields (gave_review review)))
  unfolding normalize_single_report get_or text_eq
  review-HasNumber fresh name review =
      >>=-Returns (λ found. Unit {0}) HasNumber
        (flatten_findings o text_of (output_fields (gave_review review))) _
        (flatten_findings-IsSome (gave_review review)) (λ found u. tt)

  output-HasNumber :
      (fresh : Text) (name : Text) (output : Output F)
      → Returns HasNumber
          (normalize_single_report o text_of parse fresh (str name) (output_fields output))
  unfolding normalize_single_report flatten_findings get_or text_eq is_true
  output-HasNumber fresh name (gave_opinion opinion) = tt
  output-HasNumber fresh name (gave_review review) = review-HasNumber fresh name review
  output-HasNumber fresh name (gave_verdict verdict) = tt

  abbrev AreReported : ℕ → List (Report o text_of) → Type 0
  AreReported n reports = (length reports ≡ n) × All HasNumber reports

  reports_of_roles-AreReported :
      (fresh : ℕ → Text) (index : ℕ) (outputs : List (Text × Output F))
      → Returns
          (AreReported (length outputs))
          (reports_of_roles o text_of parse fresh index (outputs_of outputs))
  unfolding reports_of_roles
  reports_of_roles-AreReported fresh index [] = (refl, tt)
  reports_of_roles-AreReported fresh index ((name, output) ∷ outputs) =
      >>=-Returns HasNumber (AreReported (suc (length outputs)))
        (normalize_single_report o text_of parse (fresh index) (str name) (output_fields output)) _
        (output-HasNumber (fresh index) name output)
        (λ report n.
          >>=-Returns (AreReported (length outputs)) (AreReported (suc (length outputs)))
            (reports_of_roles o text_of parse fresh (suc index) (outputs_of outputs))
            (λ reports. some (report ∷ reports))
            (reports_of_roles-AreReported fresh (suc index) outputs)
            (λ reports h. (ap suc h.0, (n, h.1))))

  given_probabilities-IsSome :
      (reports : List (Report o text_of))
      → All HasNumber reports
      → IsSome (given_probabilities o text_of parse reports)
  unfolding given_probabilities
  given_probabilities-IsSome [] h = tt
  given_probabilities-IsSome (r ∷ reports) h = elim (Bool-cases (is_none r.human_probability)) [
    | inl e ↦ rw e (given_probabilities-IsSome reports h.1)
    | inr e ↦ rw e (
        >>=-IsSome (as_number o r.human_probability) _ h.0 (λ p.
          >>=-IsSome (given_probabilities o text_of parse reports) _
            (given_probabilities-IsSome reports h.1) (λ ps. tt)))
  ]

  length-reported :
      (reports : List (Report o text_of)) (last : Fields F)
      → length (map (report_fields o text_of parse) reports ++ last ∷ []) ≡ suc (length reports)
  length-reported [] last = refl
  length-reported (r ∷ reports) last = ap suc (length-reported reports last)

  -- The synthesis does not raise on what the ensemble reports.
  synthesize_decision-IsSome :
      (id : Text) (packet : EvidencePacket F) (reports : List (Report o text_of)) (fresh : Text)
      (review : Review o text_of parse) (tier : Tier)
      → IsSome (
          synthesize_decision o parse id packet
            (map (report_fields o text_of parse) reports
              ++ review_fields o text_of parse fresh review ∷ [])
            tier)
  synthesize_decision-IsSome id packet reports fresh review tier = not_none _ (λ e.
      let bad =
        ((synthesize_decision-none o parse id packet
            (map (report_fields o text_of parse) reports
              ++ review_fields o text_of parse fresh review ∷ [])
            tier).0
          e).1 in
      cc (any_malformed reports fresh review, bad))
    where
      not_none : {A : Type 0} (m : Option A) → (m ≡ none → ⊥) → IsSome m
      not_none none h = h refl
      not_none (some a) h = tt

  abbrev pub result_of : List (Text × Output F) → Value F
  result_of outputs = obj (field (codes "roles") (obj (outputs_of outputs)) end)

  -- Whatever the roles return, opinions, adversarial reviews with their findings and threat
  -- categories, and verdicts, in any number and order, the reports of them are made, one for each
  -- and one for the review, and the synthesis makes a decision of the reports at every tier. The
  -- signal that the mediation and the relay role repeat in their opinions is left out.
  pub outputs_decided :
      (fresh : ℕ → Text) (packet : EvidencePacket F) (outputs : List (Text × Output F))
      → Returns
          (λ reports.
            (length reports ≡ suc (length outputs))
            × ((tier : Tier) → IsSome (synthesize_decision o parse (fresh 0) packet reports tier)))
          (normalize_role_reports o text_of parse fresh (result_of outputs) (some packet))
  unfolding normalize_role_reports role_reports reasoning_integrity_review get_or text_eq
  outputs_decided fresh packet outputs =
      >>=-Returns (AreReported (length outputs)) _
        (reports_of_roles o text_of parse fresh 0 (outputs_of outputs)) _
        (reports_of_roles-AreReported fresh 0 outputs)
        (λ reports h.
          >>=-Returns (λ review. Unit {0}) _
            (reasoning_integrity_review o text_of parse packet reports)
            (λ review. some (
              map (report_fields o text_of parse) reports
              ++ review_fields o text_of parse (fresh (length reports)) review ∷ []))
            (>>=-IsSome (given_probabilities o text_of parse reports) _
              (given_probabilities-IsSome reports h.1) (λ ps. tt))
            (λ review u. (
              length-reported reports _ ∙ ap suc h.0,
              λ tier. synthesize_decision-IsSome (fresh 0) packet reports _ review tier,
            )))
