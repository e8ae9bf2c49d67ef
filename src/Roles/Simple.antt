-- ===== src/Roles/Simple.antt =====
-- The liveness, mediation, relay and synthesizer roles of truepresence/core/roles/base.py.
use Prim.Native.String.{String}
use true_presence_ese.Base.{Option, none, some, List, [], ◌∷◌, length, if◌then◌else◌}
use true_presence_ese.Base.Text.{codes}
use true_presence_ese.Json.{obj, Fields, end, field, get_or}
use true_presence_ese.Float.{Floats, lt, whole, zero_f, one_f, min_f}
use true_presence_ese.Decision.Packet.{is_true}
use true_presence_ese.Memory.IdentityGraph.{as_dict}
use true_presence_ese.Roles.Role.{◌>>=◌, signals_of, number_of, Role, remember}

-- The result of the liveness, the mediation and the relay role, without the signal that the last two
-- repeat.
pub record Opinion (F : Type 0) : Type 0 where
  pub role : String
  pub human_probability : F
  pub confidence : F
  pub finding : String
  pub impact : String

pub record Verdict (F : Type 0) : Type 0 where
  pub human_probability : F
  pub confidence : F
  pub decision : String

module _ (o : Floats) where
  open o use {F, dec, add, sub, mul, div}

  abbrev confidence_of_opinion : Option (Opinion F) → Option F
  confidence_of_opinion none = none
  confidence_of_opinion (some opinion) = some opinion.confidence

  -- A result with the role after it.
  abbrev pub concluded : Option (Opinion F) → Role o → Option (Opinion F) × Role o
  concluded result role = (result, remember o (confidence_of_opinion result) role)

  unfoldable pub liveness_opinion : F → F → Opinion F
  unfolding min_f
  liveness_opinion liveness_score temporal_drift = record {
    role = "liveness";
    human_probability = liveness_score;
    confidence =
        min_f o (one_f o)
          (add liveness_score (if lt o temporal_drift (dec 10) then dec 20 else zero_f o));
    finding = if lt o (dec 60) liveness_score then "presence_confirmed" else "presence_uncertain";
    impact = if lt o (dec 60) liveness_score then "positive" else "neutral";
  }

  unfoldable pub liveness_result : Fields F → Option (Opinion F)
  unfolding liveness_opinion
  liveness_result evidence = do
    signals ← signals_of o evidence
    liveness_score ← number_of o "liveness" 0 signals
    temporal_drift ← number_of o "temporal_drift" 0 evidence
    some (liveness_opinion liveness_score temporal_drift)

  -- `0.5 + risk * 0.5`, at most 1.
  abbrev pub raised_confidence : F → F
  raised_confidence risk = min_f o (one_f o) (add (dec 50) (mul risk (dec 50)))

  unfoldable pub mediation_opinion : F → Opinion F
  unfolding min_f
  mediation_opinion ai_mediation = record {
    role = "mediation";
    human_probability = sub (one_f o) ai_mediation;
    confidence = raised_confidence ai_mediation;
    finding = if lt o (dec 50) ai_mediation then "ai_assisted" else "human_origin";
    impact = if lt o (dec 50) ai_mediation then "negative" else "neutral";
  }

  unfoldable pub mediation_result : Fields F → Option (Opinion F)
  unfolding mediation_opinion
  mediation_result evidence = do
    signals ← signals_of o evidence
    ai_mediation ← number_of o "ai_mediation" 0 signals
    some (mediation_opinion ai_mediation)

  unfoldable pub relay_opinion : F → Opinion F
  unfolding min_f
  relay_opinion relay_risk = record {
    role = "relay";
    human_probability = sub (one_f o) relay_risk;
    confidence = raised_confidence relay_risk;
    finding = if lt o (dec 60) relay_risk then "automated_tool" else "direct_interaction";
    impact = if lt o (dec 60) relay_risk then "negative" else "neutral";
  }

  unfoldable pub relay_result : Fields F → Option (Opinion F)
  unfolding relay_opinion
  relay_result evidence = do
    signals ← signals_of o evidence
    relay_risk ← number_of o "relay_risk" 0 signals
    some (relay_opinion relay_risk)

  -- `[v.get("human_probability", 0.5) for v in role_outputs.values()]`
  unfoldable pub probabilities : Fields F → Option (List F)
  unfolding get_or
  probabilities end = some []
  probabilities (field name v outputs) =
      let rest = probabilities outputs in
      as_dict o v >>= λ output.
      number_of o "human_probability" 50 output >>= λ p. rest >>= λ ps. some (p ∷ ps)

  abbrev pub sum_from : F → List F → F
  sum_from total [] = total
  sum_from total (p ∷ ps) = sum_from (add total p) ps

  abbrev average : List F → F
  average [] = dec 50
  average (p ∷ ps) = div (sum_from (zero_f o) (p ∷ ps)) (whole o (length (p ∷ ps)))

  -- The fallback on the signals, where the evidence holds no outputs.
  unfoldable pub weighted_signals : Fields F → Option F
  weighted_signals evidence = do
    signals ← signals_of o evidence
    liveness ← number_of o "liveness" 50 signals
    ai_mediation ← number_of o "ai_mediation" 0 signals
    relay_risk ← number_of o "relay_risk" 30 signals
    some (
        add (add (mul liveness (dec 40)) (mul (sub (one_f o) ai_mediation) (dec 30)))
          (mul (sub (one_f o) relay_risk) (dec 30)))

  abbrev decision_at : F → String
  decision_at p =
      if lt o (dec 65) p then "allow" else if lt o (dec 35) p then "challenge" else "block"

  unfoldable pub synthesizer_result : Fields F → Option (Verdict F)
  unfolding is_true weighted_signals probabilities
  synthesizer_result evidence =
      let outputs = get_or (codes "role_outputs") (obj end) evidence in
      let p : Option F =
        if is_true o outputs
        then (as_dict o outputs >>= λ d. probabilities d >>= λ ps. some (average ps))
        else weighted_signals evidence in
      p >>= λ human_probability. some (record {
        human_probability = human_probability;
        confidence = dec 70;
        decision = decision_at human_probability;
      })

  abbrev confidence_of_verdict : Option (Verdict F) → Option F
  confidence_of_verdict none = none
  confidence_of_verdict (some verdict) = some verdict.confidence

  -- `evaluate` of each role: its result, none where it raises, and the role after it.
  unfoldable pub evaluate_liveness : Fields F → Role o → Option (Opinion F) × Role o
  unfolding liveness_result remember
  evaluate_liveness evidence role = concluded (liveness_result evidence) role

  unfoldable pub evaluate_mediation : Fields F → Role o → Option (Opinion F) × Role o
  unfolding mediation_result remember
  evaluate_mediation evidence role = concluded (mediation_result evidence) role

  unfoldable pub evaluate_relay : Fields F → Role o → Option (Opinion F) × Role o
  unfolding relay_result remember
  evaluate_relay evidence role = concluded (relay_result evidence) role

  unfoldable pub evaluate_synthesizer : Fields F → Role o → Option (Verdict F) × Role o
  unfolding synthesizer_result remember
  evaluate_synthesizer evidence role =
      let result = synthesizer_result evidence in
      (result, remember o (confidence_of_verdict result) role)
