-- ===== src/Ensemble/Supported.antt =====
-- What the reasoning integrity review of truepresence/ensemble/orchestrator.py finds.
use true_presence_ese.Base.{
  Has, ap, Bool-cases, inl, inr, ◌⊎◌, ◌↔◌, subst, ◌≡◌, refl, Bool, true, false, not, ◌&&◌, ◌||◌,
  Option, none, some, List, [], ◌∷◌, any, arith, flagged, Always, ◌++◌,
}
use true_presence_ese.Base.Text.{Text, codes, text_eq, text_eq→eq, text_eq_refl, mem_text}
use true_presence_ese.Base.Steps.{◌>>=◌, >>=-eq-some}
use true_presence_ese.Json.{Value, null, bool, num, str, arr, obj, get, is_none, is_text}
use true_presence_ese.Float.{Floats, IsFloats, lt}
use true_presence_ese.Float.Laws.{le-max_f_left, max_f-le, min_f-le_left}
use true_presence_ese.Decision.Packet.{EvidencePacket}
use true_presence_ese.Memory.Risk.{as_number}
use true_presence_ese.Ensemble.Report.{Report}
use true_presence_ese.Ensemble.Review.{
  Review, is_silent, is_overconfident, is_doubtful, claims_of, unsupported_claims, review_of,
  spread, given_probabilities, reasoning_integrity_review,
}
use true_presence_ese.Ensemble.Spread.{any-Has, IsSpread, spread-IsSpread}

module _ (o : Floats) (text_of : Value o.F → Text) where
  open o use {F, dec, le}

  -- The probabilities of some reports, in their order, without those that are None.
  abbrev pub AreProbabilities : List (Report o text_of) → List F → Type 0
  AreProbabilities [] ps = ps ≡ []
  AreProbabilities (r ∷ rs) ps =
      ((r.human_probability ≡ null) × AreProbabilities rs ps)
      ⊎ ((p : F) × (qs : List F) × (as_number o r.human_probability ≡ some p)
          × (ps ≡ p ∷ qs)
          × AreProbabilities rs qs)

  -- A report whose conclusion the evidence does not carry.
  abbrev pub IsUnsupported : EvidencePacket F → Report o text_of → Type 0
  IsUnsupported packet report =
      ((le report.confidence (dec 90) ≡ false) × (report.findings ≡ []))
      ⊎ ((get (codes "status") packet.challenge_data ≡ str (codes "passed"))
          × (p : F) × (as_number o report.human_probability ≡ some p)
          × (le (dec 20) p ≡ false))

module _ (o : Floats) (text_of : Value o.F → Text) (parse : Text → Option o.F) where
  open o use {F, dec, le}

  abbrev is_unsupported : Bool → Report o text_of → Bool
  is_unsupported passed report =
      is_overconfident o text_of parse report
      || passed && is_doubtful o text_of parse report.human_probability

  pub record IsReviewed (packet : EvidencePacket F) (reports : List (Report o text_of))
      (review : Review o text_of parse) : Type 0 where
    pub at_least : le (dec 40) review.confidence ≡ true
    pub at_most : le review.confidence (dec 95) ≡ true
    pub flags_unsupported :
        (mem_text (codes "unsupported_inference_detected") review.findings ≡ true)
        ↔ ((r : Report o text_of) × Has r reports × IsUnsupported o text_of packet r)
    pub flags_disagreement :
        (mem_text (codes "material_role_disagreement") review.findings ≡ true)
        ↔ (le review.disagreement_score (dec 50) ≡ false)
    pub measured :
        (ps : List F) × AreProbabilities o text_of reports ps
        × IsSpread o ps review.disagreement_score

  silent-nil : (ts : List Text) → is_silent ts ≡ true → ts ≡ []
  silent-nil [] h = refl
  silent-nil (t ∷ ts) h = cc h

  is_text-str : (v : Value F) → is_text (codes "passed") v ≡ true → v ≡ str (codes "passed")
  is_text-str null h = cc h
  is_text-str (bool b) h = cc h
  is_text-str (num x) h = cc h
  is_text-str (str s) h = ap (λ t. str t) (text_eq→eq s (codes "passed") h)
  is_text-str (arr items) h = cc h
  is_text-str (obj fields) h = cc h

  number_below :
      (m : Option F)
      → elim m [ none ↦ false | some p ↦ lt o p (dec 20) ] ≡ true
      → (p : F) × (m ≡ some p) × (le (dec 20) p ≡ false)
  number_below none h = cc h
  number_below (some p) h = (p, refl, ground arith)

  is_none-null : (v : Value F) → is_none v ≡ true → v ≡ null
  is_none-null null h = refl
  is_none-null (bool b) h = cc h
  is_none-null (num x) h = cc h
  is_none-null (str s) h = cc h
  is_none-null (arr items) h = cc h
  is_none-null (obj fields) h = cc h

  given_probabilities-AreProbabilities :
      (reports : List (Report o text_of)) (ps : List F)
      → given_probabilities o text_of parse reports ≡ some ps
      → AreProbabilities o text_of reports ps
  unfolding given_probabilities
  given_probabilities-AreProbabilities [] ps h = subst (Always (λ qs. qs ≡ [])) h refl
  given_probabilities-AreProbabilities (r ∷ reports) ps h =
      elim (Bool-cases (is_none r.human_probability)) [
        | inl e ↦ inl (
          is_none-null r.human_probability e,
          given_probabilities-AreProbabilities reports ps (rw e at h),
        )
        | inr e ↦
            let (p, n, rest) = >>=-eq-some (as_number o r.human_probability) _ (rw e at h) in
            let (qs, given, same) =
              >>=-eq-some (given_probabilities o text_of parse reports) (λ qs. some (p ∷ qs))
                rest in
            inr (
              p,
              qs,
              n,
              subst (Always (λ z. z ≡ p ∷ qs)) same refl,
              given_probabilities-AreProbabilities reports qs given,
            )
      ]

  module _ (packet : EvidencePacket F) (r : Report o text_of) where
    abbrev status : Value F
    status = get (codes "status") packet.challenge_data

    unsupported→ :
        is_unsupported (is_text (codes "passed") status) r ≡ true → IsUnsupported o text_of packet r
    unsupported→ h = elim (Bool-cases (is_overconfident o text_of parse r)) [
      | inl e ↦ inl (ground arith, silent-nil r.findings (ground arith))
      | inr e ↦
          let (p, n, c) = number_below (as_number o r.human_probability) (ground arith) in
          inr (is_text-str status (ground arith), p, n, c)
    ]

    →unsupported :
        IsUnsupported o text_of packet r → is_unsupported (is_text (codes "passed") status) r ≡ true
    →unsupported (inl (c, f)) = let s : is_silent r.findings ≡ true = rw f refl in ground arith
    →unsupported (inr (e, p, n, c)) =
        let t : is_text (codes "passed") status ≡ true = rw e (text_eq_refl (codes "passed")) in
        let d : is_doubtful o text_of parse r.human_probability ≡ true =
          rw (n, is_doubtful) (ground arith) in
        ground arith

  silent_claims :
      (passed : Bool) (report : Report o text_of) (rest : List Text)
      → is_silent (claims_of o text_of parse passed report ++ rest)
        ≡ (not (is_unsupported passed report) && is_silent rest)
  silent_claims passed report rest = ground arith

  unsupported_claims-any :
      (passed : Bool) (reports : List (Report o text_of))
      → is_silent (unsupported_claims o text_of parse passed reports)
        ≡ not (any (is_unsupported passed) reports)
  unfolding unsupported_claims
  unsupported_claims-any passed [] = refl
  unsupported_claims-any passed (r ∷ reports) = ground (
    arith,
    silent_claims passed r (unsupported_claims o text_of parse passed reports),
    unsupported_claims-any passed reports,
  )

  two_flags :
      (b c : Bool)
      → (mem_text (codes "unsupported_inference_detected") (
            flagged (
              (b, codes "unsupported_inference_detected")
              ∷ (c, codes "material_role_disagreement")
              ∷ []))
          ≡ b)
        × (mem_text (codes "material_role_disagreement") (
              flagged (
                (b, codes "unsupported_inference_detected")
                ∷ (c, codes "material_role_disagreement")
                ∷ []))
            ≡ c)
  unfolding mem_text text_eq
  two_flags true true = (refl, refl)
  two_flags true false = (refl, refl)
  two_flags false true = (refl, refl)
  two_flags false false = (refl, refl)

  module _ (l : IsFloats o) where
    review_of-IsReviewed :
        (packet : EvidencePacket F) (ps : List F) (reports : List (Report o text_of))
        → given_probabilities o text_of parse reports ≡ some ps
        → IsReviewed packet reports (
            review_of o text_of parse
              (is_text (codes "passed") (get (codes "status") packet.challenge_data))
              (spread o ps)
              reports)
    unfolding review_of
    review_of-IsReviewed packet ps reports given =
        let passed = is_text (codes "passed") (get (codes "status") packet.challenge_data) in
        let flags =
          two_flags (not (is_silent (unsupported_claims o text_of parse passed reports)))
            (lt o (dec 50) (spread o ps)) in
        let found = any-Has (is_unsupported passed) reports in
        record {
          at_least = le-max_f_left o l _ _;
          at_most =
              max_f-le o l _ _ _ (l.le_dec 40 95 (omega arith) (omega arith))
                (min_f-le_left o l _ _);
          flags_unsupported = (
            λ h.
                let (r, i, u) =
                  found.0 (ground (arith, flags.0, unsupported_claims-any passed reports, h)) in
                (r, i, unsupported→ packet r u),
            λ h.
                let a = found.1 (h.0, h.1, →unsupported packet h.0 h.2) in
                ground (arith, flags.0, unsupported_claims-any passed reports, a),
          );
          flags_disagreement = (λ h. ground (arith, flags.1, h), λ h. ground (arith, flags.1, h));
          measured =
              (ps, given_probabilities-AreProbabilities reports ps given, spread-IsSpread o l ps);
        }

    review-IsReviewed :
        (packet : EvidencePacket F) (reports : List (Report o text_of)) (m : Option (List F))
        → given_probabilities o text_of parse reports ≡ m
        → Always (IsReviewed packet reports) (
            m >>= λ ps. some (
              review_of o text_of parse
                (is_text (codes "passed") (get (codes "status") packet.challenge_data))
                (spread o ps)
                reports))
    review-IsReviewed packet reports none e = tt
    review-IsReviewed packet reports (some ps) e = review_of-IsReviewed packet ps reports e

    -- A review of reports has a confidence between 0.40 and 0.95; it flags an unsupported
    -- inference exactly when some report is above 0.90 confident without a finding or, after a
    -- passed challenge, gives a human less than 0.20; and it flags a disagreement exactly when the
    -- difference of the greatest and the least of the given probabilities is above 0.50.
    pub reasoning_integrity_review-IsReviewed :
        (packet : EvidencePacket F) (reports : List (Report o text_of))
        → Always
            (IsReviewed packet reports)
            (reasoning_integrity_review o text_of parse packet reports)
    unfolding reasoning_integrity_review
    reasoning_integrity_review-IsReviewed packet reports = review-IsReviewed packet reports _ refl
