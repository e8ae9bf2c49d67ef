-- ===== src/Roles/Examples.antt =====
-- The roles on the signals of a session that shares pirated content.
use true_presence_ese.Base.{ℕ, ◌≡◌, refl, some, [], ◌∷◌}
use true_presence_ese.Base.Text.{codes, text_eq}
use true_presence_ese.Json.{num, str, arr, cons, nil, obj, Fields, end, field, get_or}
use true_presence_ese.Float.Fixed.{fixed, fixed-IsFloats}
use true_presence_ese.Roles.Role.{Returns, new_role, get_confidence}
use true_presence_ese.Roles.Simple.{evaluate_liveness}
use true_presence_ese.Roles.Adversarial.{
  dmca_violations, torrent_aggregators, low_interaction_entropy, copyright_content_detected,
  torrent_activity_detected, adversarial_result,
}
use true_presence_ese.Roles.Judged.{Signals, Reads, IsJudged}
use true_presence_ese.Roles.Reviewed.{adversarial_result-IsJudged}

abbrev pirate_signals : Fields ℕ
pirate_signals = field (codes "liveness") (num 7000) (
    field (codes "copyright_indicators") (arr (cons (str (codes "movie")) nil))
      (field (codes "p2p_pattern") (num 8000) (field (codes "relay_risk") (num 2000) end)))

abbrev pirate : Fields ℕ
pirate = field (codes "signals") (obj pirate_signals) end

adversarial_pirate :
    adversarial_result fixed pirate
    ≡ some (record {
      human_probability = 1500;
      bot_probability = 8500;
      confidence = 9250;
      findings =
          low_interaction_entropy ∷ copyright_content_detected ∷ torrent_activity_detected ∷ [];
      threat_categories = dmca_violations ∷ torrent_aggregators ∷ [];
      severity = 8500;
      block_reason = "Copyright violation detected - DMCA";
      impact = "negative";
    })
unfolding adversarial_result get_or text_eq
adversarial_pirate = refl

abbrev pirate_values : Signals ℕ
pirate_values = record {
  optimization_risk = 0;
  liveness = 7000;
  ai_mediation = 0;
  mouse_entropy = 0;
  message_velocity = 0;
  content_similarity = 0;
  cpu_usage = 0;
  network_entropy = 5000;
  torrent_indicators = 0;
  p2p_pattern = 8000;
  vnc_indicators = 0;
  remote_access_pattern = 0;
  fraud_pattern = 0;
  copyright_indicators = arr (cons (str (codes "movie")) nil);
  illegal_indicators = arr nil;
}

pirate-Reads : Reads fixed pirate pirate_values
unfolding get_or text_eq
pirate-Reads = record {
  signals = pirate_signals;
  has_signals = refl;
  optimization_risk = refl;
  liveness = refl;
  ai_mediation = refl;
  mouse_entropy = refl;
  message_velocity = refl;
  content_similarity = refl;
  cpu_usage = refl;
  network_entropy = refl;
  torrent_indicators = refl;
  p2p_pattern = refl;
  vnc_indicators = refl;
  remote_access_pattern = refl;
  fraud_pattern = refl;
  copyright_indicators = refl;
  illegal_indicators = refl;
}

adversarial_result-IsJudged_example :
    Returns (IsJudged fixed pirate_values) (adversarial_result fixed pirate)
adversarial_result-IsJudged_example =
    adversarial_result-IsJudged fixed fixed-IsFloats pirate pirate_values pirate-Reads

-- Signals that are no dictionary make the role fail, and its confidence is 0.
failed_liveness :
    get_confidence fixed
      (evaluate_liveness fixed (field (codes "signals") (num 1) end) (new_role fixed)).1
    ≡ 0
unfolding get_confidence evaluate_liveness new_role get_or text_eq
failed_liveness = refl
