-- ===== src/Roles/Judged.antt =====
-- What the adversarial role of truepresence/core/roles/base.py has to find in the signals.
use Prim.Native.String.{String}
use true_presence_ese.Base.{
  ℕ, ◌≡◌, Bool, true, false, not, ◌&&◌, ◌||◌, some, List, [], ◌∷◌, any, ◌==◌, Option, none,
  if◌then◌else◌,
}
use true_presence_ese.Base.Text.{codes}
use true_presence_ese.Json.{Value, arr, nil, Fields, get_or}
use true_presence_ese.Float.{Floats, InUnit, lt, one_f}
use true_presence_ese.Decision.Packet.{is_true}
use true_presence_ese.Roles.Role.{signals_of, number_of}
use true_presence_ese.Roles.Adversarial.{
  Finding, unnaturally_consistent_timing, contradictory_presence_signals, low_interaction_entropy,
  mirrored_content_detected, high_resource_usage_pattern, copyright_content_detected,
  torrent_activity_detected, remote_access_detected, illegal_content_detected, ThreatCategory,
  mirrors_userbots, crypto_miners, dmca_violations, torrent_aggregators, vnc_virtual_desktops,
  illegal_content, names, AdversarialReview,
}

-- The signals that the role reads.
pub record Signals (F : Type 0) : Type 0 where
  pub optimization_risk : F
  pub liveness : F
  pub ai_mediation : F
  pub mouse_entropy : F
  pub message_velocity : F
  pub content_similarity : F
  pub cpu_usage : F
  pub network_entropy : F
  pub torrent_indicators : F
  pub p2p_pattern : F
  pub vnc_indicators : F
  pub remote_access_pattern : F
  pub fraud_pattern : F
  pub copyright_indicators : Value F
  pub illegal_indicators : Value F

abbrev all_findings : List Finding
all_findings =
    unnaturally_consistent_timing ∷ contradictory_presence_signals ∷ low_interaction_entropy
    ∷ mirrored_content_detected ∷ high_resource_usage_pattern ∷ copyright_content_detected
    ∷ torrent_activity_detected ∷ remote_access_detected ∷ illegal_content_detected ∷ []

abbrev pub finding_index : Finding → ℕ
finding_index unnaturally_consistent_timing = 0
finding_index contradictory_presence_signals = 1
finding_index low_interaction_entropy = 2
finding_index mirrored_content_detected = 3
finding_index high_resource_usage_pattern = 4
finding_index copyright_content_detected = 5
finding_index torrent_activity_detected = 6
finding_index remote_access_detected = 7
finding_index illegal_content_detected = 8

abbrev pub mentions : Finding → List Finding → Bool
mentions f findings = any (λ g. finding_index f == finding_index g) findings

-- The finding that comes with a category.
abbrev pub finding_of : ThreatCategory → Finding
finding_of mirrors_userbots = mirrored_content_detected
finding_of crypto_miners = high_resource_usage_pattern
finding_of dmca_violations = copyright_content_detected
finding_of torrent_aggregators = torrent_activity_detected
finding_of vnc_virtual_desktops = remote_access_detected
finding_of illegal_content = illegal_content_detected

-- The threat that a block reason is about, in the order in which the code asks.
abbrev pub threat_order : List ThreatCategory
threat_order =
    illegal_content ∷ crypto_miners ∷ dmca_violations ∷ torrent_aggregators ∷ vnc_virtual_desktops
    ∷ mirrors_userbots ∷ []

abbrev pub reason_for : ThreatCategory → String
reason_for illegal_content = "Illegal content detected - permanent ban"
reason_for crypto_miners = "Crypto mining detected - resource abuse"
reason_for dmca_violations = "Copyright violation detected - DMCA"
reason_for torrent_aggregators = "Torrent activity detected - piracy"
reason_for vnc_virtual_desktops = "Unauthorized remote access detected"
reason_for mirrors_userbots = "Spam mirror/userbot detected"

-- The first of some threats for which a test holds.
abbrev pub first_of : (ThreatCategory → Bool) → List ThreatCategory → Option ThreatCategory
first_of test [] = none
first_of test (t ∷ ts) = if test t then some t else first_of test ts

abbrev pub reason_of : Option ThreatCategory → Bool → String
reason_of (some t) none_holds = reason_for t
reason_of none true = "Unknown threat"
reason_of none false = "Bot-like behavior detected"

module _ (o : Floats) where
  open o use {F, dec, le}

  -- Evidence whose signals have these values, a default where one is missing.
  pub record Reads (evidence : Fields F) (x : Signals F) : Type 0 where
    pub signals : Fields F
    pub has_signals : signals_of o evidence ≡ some signals
    pub optimization_risk : number_of o "optimization_risk" 0 signals ≡ some x.optimization_risk
    pub liveness : number_of o "liveness" 0 signals ≡ some x.liveness
    pub ai_mediation : number_of o "ai_mediation" 0 signals ≡ some x.ai_mediation
    pub mouse_entropy : number_of o "mouse_entropy" 0 signals ≡ some x.mouse_entropy
    pub message_velocity : number_of o "message_velocity" 0 signals ≡ some x.message_velocity
    pub content_similarity : number_of o "content_similarity" 0 signals ≡ some x.content_similarity
    pub cpu_usage : number_of o "cpu_usage" 0 signals ≡ some x.cpu_usage
    pub network_entropy : number_of o "network_entropy" 50 signals ≡ some x.network_entropy
    pub torrent_indicators : number_of o "torrent_indicators" 0 signals ≡ some x.torrent_indicators
    pub p2p_pattern : number_of o "p2p_pattern" 0 signals ≡ some x.p2p_pattern
    pub vnc_indicators : number_of o "vnc_indicators" 0 signals ≡ some x.vnc_indicators
    pub remote_access_pattern :
        number_of o "remote_access_pattern" 0 signals ≡ some x.remote_access_pattern
    pub fraud_pattern : number_of o "fraud_pattern" 0 signals ≡ some x.fraud_pattern
    pub copyright_indicators :
        get_or (codes "copyright_indicators") (arr nil) signals ≡ x.copyright_indicators
    pub illegal_indicators :
        get_or (codes "illegal_indicators") (arr nil) signals ≡ x.illegal_indicators

  -- When a finding is due.
  abbrev pub is_due : Signals F → Finding → Bool
  is_due x unnaturally_consistent_timing = lt o (dec 70) x.optimization_risk
  is_due x contradictory_presence_signals = lt o (dec 80) x.liveness && lt o (dec 50) x.ai_mediation
  is_due x low_interaction_entropy = lt o x.mouse_entropy (dec 10)
  is_due x mirrored_content_detected =
      lt o (dec 5000) x.message_velocity && lt o (dec 90) x.content_similarity
  is_due x high_resource_usage_pattern =
      lt o (dec 8000) x.cpu_usage && lt o x.network_entropy (dec 30)
  is_due x copyright_content_detected = is_true o x.copyright_indicators
  is_due x torrent_activity_detected =
      lt o (dec 50) x.torrent_indicators || lt o (dec 70) x.p2p_pattern
  is_due x remote_access_detected =
      lt o (dec 30) x.vnc_indicators || lt o (dec 60) x.remote_access_pattern
  is_due x illegal_content_detected =
      is_true o x.illegal_indicators || lt o (dec 80) x.fraud_pattern

  -- Whether no finding is due.
  abbrev pub is_quiet : Signals F → Bool
  is_quiet x = not (any (is_due x) all_findings)

  pub record IsJudged (x : Signals F) (r : AdversarialReview F) : Type 0 where
    pub finds : (f : Finding) → mentions f r.findings ≡ is_due x f
    pub threatened : (t : ThreatCategory) → names t r.threat_categories ≡ is_due x (finding_of t)
    pub worst : is_due x illegal_content_detected ≡ true → r.severity ≡ one_f o
    pub blocked :
        r.block_reason
        ≡ reason_of (first_of (λ t. is_due x (finding_of t)) threat_order) (is_quiet x)
    pub neutral : r.impact ≡ (if is_quiet x then "neutral" else "negative")
    pub severe : InUnit o r.severity
    pub human : InUnit o r.human_probability
    pub bot : r.bot_probability ≡ r.severity
    pub confident : InUnit o r.confidence
    pub certain : le (dec 50) r.confidence ≡ true
