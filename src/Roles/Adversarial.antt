-- ===== src/Roles/Adversarial.antt =====
-- `AdversarialRole` of truepresence/core/roles/base.py.
use Prim.Native.String.{String}
use true_presence_ese.Base.{
  Bool, true, false, Option, none, some, List, [], ◌∷◌, any, flagged, length, if◌then◌else◌,
}
use true_presence_ese.Base.Text.{codes}
use true_presence_ese.Json.{arr, nil, Fields, get_or}
use true_presence_ese.Float.{Floats, whole, one_f, min_f}
use true_presence_ese.Decision.Packet.{is_true}
use true_presence_ese.Roles.Role.{
  ◌>>=◌, both_hold, either_holds, signals_of, above, below, Role, remember,
}
use true_presence_ese.Roles.Simple.{raised_confidence}

pub data Finding : Type 0 where
  unnaturally_consistent_timing contradictory_presence_signals low_interaction_entropy : Finding
  mirrored_content_detected high_resource_usage_pattern copyright_content_detected : Finding
  torrent_activity_detected remote_access_detected illegal_content_detected : Finding

pub data ThreatCategory : Type 0 where
  mirrors_userbots crypto_miners dmca_violations : ThreatCategory
  torrent_aggregators vnc_virtual_desktops illegal_content : ThreatCategory

-- The texts of the code.
abbrev pub finding_text : Finding → String
finding_text unnaturally_consistent_timing = "unnaturally_consistent_timing"
finding_text contradictory_presence_signals = "contradictory_presence_signals"
finding_text low_interaction_entropy = "low_interaction_entropy"
finding_text mirrored_content_detected = "mirrored_content_detected"
finding_text high_resource_usage_pattern = "high_resource_usage_pattern"
finding_text copyright_content_detected = "copyright_content_detected"
finding_text torrent_activity_detected = "torrent_activity_detected"
finding_text remote_access_detected = "remote_access_detected"
finding_text illegal_content_detected = "illegal_content_detected"

abbrev pub threat_text : ThreatCategory → String
threat_text mirrors_userbots = "mirrors_userbots"
threat_text crypto_miners = "crypto_miners"
threat_text dmca_violations = "dmca_violations"
threat_text torrent_aggregators = "torrent_aggregators"
threat_text vnc_virtual_desktops = "vnc_virtual_desktops"
threat_text illegal_content = "illegal_content"

abbrev pub same_category : ThreatCategory → ThreatCategory → Bool
same_category mirrors_userbots mirrors_userbots = true
same_category crypto_miners crypto_miners = true
same_category dmca_violations dmca_violations = true
same_category torrent_aggregators torrent_aggregators = true
same_category vnc_virtual_desktops vnc_virtual_desktops = true
same_category illegal_content illegal_content = true
same_category _ _ = false

-- `category in threat_categories`
abbrev pub names : ThreatCategory → List ThreatCategory → Bool
names category threats = any (same_category category) threats

abbrev pub is_empty : List Finding → Bool
is_empty [] = true
is_empty (f ∷ fs) = false

unfoldable pub get_block_reason : List ThreatCategory → List Finding → String
get_block_reason threats findings =
    if names illegal_content threats
    then "Illegal content detected - permanent ban"
    else if names crypto_miners threats
    then "Crypto mining detected - resource abuse"
    else if names dmca_violations threats
    then "Copyright violation detected - DMCA"
    else if names torrent_aggregators threats
    then "Torrent activity detected - piracy"
    else if names vnc_virtual_desktops threats
    then "Unauthorized remote access detected"
    else if names mirrors_userbots threats
    then "Spam mirror/userbot detected"
    else if is_empty findings
    then "Unknown threat"
    else "Bot-like behavior detected"

pub record AdversarialReview (F : Type 0) : Type 0 where
  pub human_probability : F
  pub bot_probability : F
  pub confidence : F
  pub findings : List Finding
  pub threat_categories : List ThreatCategory
  pub severity : F
  pub block_reason : String
  pub impact : String

module _ (o : Floats) where
  open o use {F, dec, add, sub, mul}

  -- The findings and the threat categories, each appended when its test holds.
  unfoldable pub found_in : Fields F → Option (List Finding × List ThreatCategory)
  unfolding is_true
  found_in evidence = do
    signals ← signals_of o evidence
    consistent ← above o "optimization_risk" 0 70 signals
    contradictory ←
        both_hold (above o "liveness" 0 80 signals) (above o "ai_mediation" 0 50 signals)
    low_entropy ← below o "mouse_entropy" 0 10 signals
    mirrored ←
        both_hold (above o "message_velocity" 0 5000 signals)
          (above o "content_similarity" 0 90 signals)
    mining ←
        both_hold (above o "cpu_usage" 0 8000 signals) (below o "network_entropy" 50 30 signals)
    let copyrighted = is_true o (get_or (codes "copyright_indicators") (arr nil) signals)
    torrent ←
        either_holds (above o "torrent_indicators" 0 50 signals)
          (above o "p2p_pattern" 0 70 signals)
    remote ←
        either_holds (above o "vnc_indicators" 0 30 signals)
          (above o "remote_access_pattern" 0 60 signals)
    illegal ←
        either_holds (some (is_true o (get_or (codes "illegal_indicators") (arr nil) signals)))
          (above o "fraud_pattern" 0 80 signals)
    some (
      flagged (
          (consistent, unnaturally_consistent_timing)
          ∷ (contradictory, contradictory_presence_signals)
          ∷ (low_entropy, low_interaction_entropy)
          ∷ (mirrored, mirrored_content_detected)
          ∷ (mining, high_resource_usage_pattern)
          ∷ (copyrighted, copyright_content_detected)
          ∷ (torrent, torrent_activity_detected)
          ∷ (remote, remote_access_detected)
          ∷ (illegal, illegal_content_detected)
          ∷ []),
      flagged (
          (mirrored, mirrors_userbots)
          ∷ (mining, crypto_miners)
          ∷ (copyrighted, dmca_violations)
          ∷ (torrent, torrent_aggregators)
          ∷ (remote, vnc_virtual_desktops)
          ∷ (illegal, illegal_content)
          ∷ []),
    )

  unfoldable pub severity_of : List Finding → List ThreatCategory → F
  unfolding min_f
  severity_of findings threats =
      if names illegal_content threats
      then one_f o
      else min_f o (one_f o)
          (add (mul (whole o (length findings)) (dec 15)) (mul (whole o (length threats)) (dec 20)))

  unfoldable pub review : List Finding → List ThreatCategory → AdversarialReview F
  unfolding severity_of get_block_reason
  review findings threats =
      let severity = severity_of findings threats in
      record {
        human_probability = sub (one_f o) severity;
        bot_probability = severity;
        confidence = raised_confidence o severity;
        findings = findings;
        threat_categories = threats;
        severity = severity;
        block_reason = get_block_reason threats findings;
        impact = if is_empty findings then "neutral" else "negative";
      }

  unfoldable pub adversarial_result : Fields F → Option (AdversarialReview F)
  unfolding found_in review
  adversarial_result evidence = found_in evidence >>= λ found. some (review found.0 found.1)

  abbrev confidence_of_review : Option (AdversarialReview F) → Option F
  confidence_of_review none = none
  confidence_of_review (some review) = some review.confidence

  unfoldable pub evaluate_adversarial : Fields F → Role o → Option (AdversarialReview F) × Role o
  unfolding adversarial_result remember
  evaluate_adversarial evidence role =
      let result = adversarial_result evidence in
      (result, remember o (confidence_of_review result) role)
