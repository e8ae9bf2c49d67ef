-- ===== src/Roles/Reviewed.antt =====
-- The review of the adversarial role of truepresence/core/roles/base.py, from the evidence.
use Prim.Native.String.{String}
use true_presence_ese.Base.{
  ℕ, ◌≡◌, refl, ap, ◌∙◌, Bool, true, false, ◌&&◌, ◌||◌, Option, some, List, arith, length,
  Bool-cases, inl, inr,
}
use true_presence_ese.Json.{Fields}
use true_presence_ese.Float.{Floats, IsFloats, InUnit, lt, whole, one_f, min_f}
use true_presence_ese.Float.Laws.{le-min_f, min_f-le_left, dec-InUnit}
use true_presence_ese.Decision.Packet.{is_true}
use true_presence_ese.Roles.Role.{◌>>=◌, Returns, above, below, both_hold, either_holds, number_of}
use true_presence_ese.Roles.Simple.{raised_confidence}
use true_presence_ese.Roles.Adversarial.{
  Finding, unnaturally_consistent_timing, contradictory_presence_signals, low_interaction_entropy,
  mirrored_content_detected, high_resource_usage_pattern, copyright_content_detected,
  torrent_activity_detected, remote_access_detected, illegal_content_detected, ThreatCategory,
  mirrors_userbots, crypto_miners, dmca_violations, torrent_aggregators, vnc_virtual_desktops,
  illegal_content, names, is_empty, severity_of, get_block_reason, review, found_in,
  adversarial_result,
}
use true_presence_ese.Roles.Judged.{
  Signals, Reads, is_due, is_quiet, IsJudged, mentions, finding_of,
}
use true_presence_ese.Roles.Threats.{
  findings_from, threats_from, outcome_of, mentions-findings_from, names-threats_from,
  is_empty-findings_from, first_reason,
}

both_hold-some :
    (a b : Bool) {m n : Option Bool} → m ≡ some a → n ≡ some b → both_hold m n ≡ some (a && b)
both_hold-some true b e f = rw e f
both_hold-some false b e f = rw e refl

either_holds-some :
    (a b : Bool) {m n : Option Bool} → m ≡ some a → n ≡ some b → either_holds m n ≡ some (a || b)
either_holds-some true b e f = rw e refl
either_holds-some false b e f = rw e f

module _ (o : Floats) (l : IsFloats o) where
  open o use {F, dec, le, add, sub, mul}

  capped-InUnit : (x : F) → le (dec 0) x ≡ true → InUnit o (min_f o (one_f o) x)
  capped-InUnit x h =
      (le-min_f o l (dec 100) x (dec 0) (l.dec_nonneg 100) h, min_f-le_left o l (dec 100) x)

  raised_confidence_lem :
      (risk : F)
      → le (dec 0) risk ≡ true
      → InUnit o (raised_confidence o risk) × (le (dec 50) (raised_confidence o risk) ≡ true)
  raised_confidence_lem risk h =
      let more =
        l.le-add (dec 50) (mul risk (dec 50)) (l.mul_nonneg risk (dec 50) h (l.dec_nonneg 50)) in
      (
        capped-InUnit _ (l.le_trans (dec 0) (dec 50) _ (l.dec_nonneg 50) more),
        le-min_f o l (dec 100) _ (dec 50)
            (l.le_dec 50 100 (omega arith) (omega arith) ∙ ground arith) more,
      )

  severity_of-InUnit :
      (findings : List Finding) (threats : List ThreatCategory)
      → InUnit o (severity_of o findings threats)
  unfolding severity_of
  severity_of-InUnit findings threats = elim (Bool-cases (names illegal_content threats)) [
    | inl e ↦ rw e (dec-InUnit o l 100 (omega arith))
    | inr e ↦ rw e (
        capped-InUnit _ (
          l.le_trans (dec 0) _ _
            (l.mul_nonneg (whole o (length findings)) (dec 15) (l.dec_nonneg _) (l.dec_nonneg 15))
            (l.le-add _ _ (
              l.mul_nonneg (whole o (length threats)) (dec 20) (l.dec_nonneg _)
                (l.dec_nonneg 20)))))
  ]

  module _ (evidence : Fields F) (x : Signals F) (h : Reads o evidence x) where
    abbrev due : Finding → Bool
    due f = is_due o x f

    abbrev findings : List Finding
    findings =
        findings_from (due unnaturally_consistent_timing) (due contradictory_presence_signals)
          (due low_interaction_entropy) (due mirrored_content_detected)
          (due high_resource_usage_pattern) (due copyright_content_detected)
          (due torrent_activity_detected) (due remote_access_detected)
          (due illegal_content_detected)

    abbrev threats : List ThreatCategory
    threats =
        threats_from (due mirrored_content_detected) (due high_resource_usage_pattern)
          (due copyright_content_detected) (due torrent_activity_detected)
          (due remote_access_detected) (due illegal_content_detected)

    exceeds :
        (key : String) (n : ℕ) {v : F}
        → number_of o key 0 h.signals ≡ some v
        → above o key 0 n h.signals ≡ some (lt o (dec n) v)
    exceeds key n e = ap (λ m. m >>= λ x. some (lt o (dec n) x)) e

    falls_short :
        (key : String) (default n : ℕ) {v : F}
        → number_of o key default h.signals ≡ some v
        → below o key default n h.signals ≡ some (lt o v (dec n))
    falls_short key default n e = ap (λ m. m >>= λ x. some (lt o x (dec n))) e

    found_in-Reads : found_in o evidence ≡ some (findings, threats)
    unfolding found_in
    found_in-Reads =
        rw
          (
            h.has_signals,
            exceeds "optimization_risk" 70 h.optimization_risk,
            both_hold-some _ _ (exceeds "liveness" 80 h.liveness)
                (exceeds "ai_mediation" 50 h.ai_mediation),
            falls_short "mouse_entropy" 0 10 h.mouse_entropy,
            both_hold-some _ _ (exceeds "message_velocity" 5000 h.message_velocity)
                (exceeds "content_similarity" 90 h.content_similarity),
            both_hold-some _ _ (exceeds "cpu_usage" 8000 h.cpu_usage)
                (falls_short "network_entropy" 50 30 h.network_entropy),
            either_holds-some _ _ (exceeds "torrent_indicators" 50 h.torrent_indicators)
                (exceeds "p2p_pattern" 70 h.p2p_pattern),
            either_holds-some _ _ (exceeds "vnc_indicators" 30 h.vnc_indicators)
                (exceeds "remote_access_pattern" 60 h.remote_access_pattern),
            h.copyright_indicators,
            h.illegal_indicators,
            either_holds-some (is_true o x.illegal_indicators) _ refl
                (exceeds "fraud_pattern" 80 h.fraud_pattern),
          )
          refl

    outcome-due :
        (f : Finding)
        → outcome_of
            (due unnaturally_consistent_timing)
            (due contradictory_presence_signals)
            (due low_interaction_entropy)
            (due mirrored_content_detected)
            (due high_resource_usage_pattern)
            (due copyright_content_detected)
            (due torrent_activity_detected)
            (due remote_access_detected)
            (due illegal_content_detected)
            f
          ≡ due f
    outcome-due unnaturally_consistent_timing = refl
    outcome-due contradictory_presence_signals = refl
    outcome-due low_interaction_entropy = refl
    outcome-due mirrored_content_detected = refl
    outcome-due high_resource_usage_pattern = refl
    outcome-due copyright_content_detected = refl
    outcome-due torrent_activity_detected = refl
    outcome-due remote_access_detected = refl
    outcome-due illegal_content_detected = refl

    finds-due : (f : Finding) → mentions f findings ≡ due f
    finds-due f =
        mentions-findings_from (due unnaturally_consistent_timing)
          (due contradictory_presence_signals) (due low_interaction_entropy)
          (due mirrored_content_detected) (due high_resource_usage_pattern)
          (due copyright_content_detected) (due torrent_activity_detected)
          (due remote_access_detected) (due illegal_content_detected) f
        ∙ outcome-due f

    threatens-due : (t : ThreatCategory) → names t threats ≡ due (finding_of t)
    threatens-due t =
        names-threats_from (due unnaturally_consistent_timing) (due contradictory_presence_signals)
          (due low_interaction_entropy) (due mirrored_content_detected)
          (due high_resource_usage_pattern) (due copyright_content_detected)
          (due torrent_activity_detected) (due remote_access_detected)
          (due illegal_content_detected) t
        ∙ outcome-due (finding_of t)

    quiet-due : is_empty findings ≡ is_quiet o x
    quiet-due = ground (
      arith,
      is_empty-findings_from (due unnaturally_consistent_timing)
          (due contradictory_presence_signals) (due low_interaction_entropy)
          (due mirrored_content_detected) (due high_resource_usage_pattern)
          (due copyright_content_detected) (due torrent_activity_detected)
          (due remote_access_detected) (due illegal_content_detected),
    )

    review-IsJudged : IsJudged o x (review o findings threats)
    unfolding review get_block_reason
    review-IsJudged =
        let u = severity_of-InUnit findings threats in
        let c = raised_confidence_lem (severity_of o findings threats) u.0 in
        record {
          finds = finds-due;
          threatened = threatens-due;
          worst = λ i. rw (threatens-due illegal_content ∙ i, severity_of) refl;
          blocked =
              rw
                (
                  threatens-due mirrors_userbots,
                  threatens-due crypto_miners,
                  threatens-due dmca_violations,
                  threatens-due torrent_aggregators,
                  threatens-due vnc_virtual_desktops,
                  threatens-due illegal_content,
                  quiet-due,
                )
                (first_reason (due illegal_content_detected) (due high_resource_usage_pattern)
                  (due copyright_content_detected) (due torrent_activity_detected)
                  (due remote_access_detected) (due mirrored_content_detected) (is_quiet o x));
          neutral = rw quiet-due refl;
          severe = u;
          human = l.sub_InUnit _ u;
          bot = refl;
          confident = c.0;
          certain = c.1;
        }

    -- On evidence whose signals are numbers where the role computes with them, the adversarial role
    -- returns a review. It mentions each finding exactly when its test on the signals holds, and a
    -- threat category exactly when the test of its finding does; illegal content has severity 1; the
    -- block reason is that of the first category of the fixed order of gravity whose test holds;
    -- the impact is neutral exactly when no test holds. Whatever the signals, the severity, which
    -- is the bot probability, and the human probability lie between 0 and 1, and the confidence
    -- between 0.50 and 1.
    pub adversarial_result-IsJudged : Returns (IsJudged o x) (adversarial_result o evidence)
    unfolding adversarial_result
    adversarial_result-IsJudged = rw found_in-Reads review-IsJudged
