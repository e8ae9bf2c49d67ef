-- ===== src/Roles/Threats.antt =====
-- That the adversarial role of truepresence/core/roles/base.py finds what is in the signals.

use true_presence_ese.Base.{
  ◌≡◌, refl, Bool, true, false, not, ◌||◌, Option, none, some, List, [], ◌∷◌, arith, flagged,
  if◌then◌else◌,
}
use true_presence_ese.Float.{Floats, zero_f}
use true_presence_ese.Roles.Role.{Role, remember, get_confidence}
use true_presence_ese.Roles.Adversarial.{
  Finding, unnaturally_consistent_timing, contradictory_presence_signals, low_interaction_entropy,
  mirrored_content_detected, high_resource_usage_pattern, copyright_content_detected,
  torrent_activity_detected, remote_access_detected, illegal_content_detected, ThreatCategory,
  mirrors_userbots, crypto_miners, dmca_violations, torrent_aggregators, vnc_virtual_desktops,
  illegal_content, names, is_empty,
}
use true_presence_ese.Roles.Judged.{mentions, finding_of, reason_for, reason_of}

-- The lists of the code, from the outcomes of its tests.
abbrev pub findings_from :
    (consistent contradictory low_entropy mirrored mining copyrighted torrent remote illegal : Bool)
    → List Finding
findings_from consistent contradictory low_entropy mirrored mining copyrighted torrent remote
      illegal =
    flagged (
      (consistent, unnaturally_consistent_timing)
      ∷ (contradictory, contradictory_presence_signals)
      ∷ (low_entropy, low_interaction_entropy)
      ∷ (mirrored, mirrored_content_detected)
      ∷ (mining, high_resource_usage_pattern)
      ∷ (copyrighted, copyright_content_detected)
      ∷ (torrent, torrent_activity_detected)
      ∷ (remote, remote_access_detected)
      ∷ (illegal, illegal_content_detected)
      ∷ [])

abbrev pub threats_from :
    (mirrored mining copyrighted torrent remote illegal : Bool) → List ThreatCategory
threats_from mirrored mining copyrighted torrent remote illegal = flagged (
    (mirrored, mirrors_userbots)
    ∷ (mining, crypto_miners)
    ∷ (copyrighted, dmca_violations)
    ∷ (torrent, torrent_aggregators)
    ∷ (remote, vnc_virtual_desktops)
    ∷ (illegal, illegal_content)
    ∷ [])

-- The chain of the code's tests, on their outcomes.
pub first_reason :
    (a b c d e f z : Bool)
    → (if a
        then reason_for illegal_content
        else if b
        then reason_for crypto_miners
        else if c
        then reason_for dmca_violations
        else if d
        then reason_for torrent_aggregators
        else if e
        then reason_for vnc_virtual_desktops
        else if f
        then reason_for mirrors_userbots
        else if z
        then "Unknown threat"
        else "Bot-like behavior detected")
      ≡ reason_of
          (if a
            then some illegal_content
            else if b
            then some crypto_miners
            else if c
            then some dmca_violations
            else if d
            then some torrent_aggregators
            else if e
            then some vnc_virtual_desktops
            else if f
            then some mirrors_userbots
            else none)
          z
first_reason true b c d e f z = refl
first_reason false true c d e f z = refl
first_reason false false true d e f z = refl
first_reason false false false true e f z = refl
first_reason false false false false true f z = refl
first_reason false false false false false true z = refl
first_reason false false false false false false true = refl
first_reason false false false false false false false = refl

module _
    (consistent contradictory low_entropy mirrored mining copyrighted torrent remote
      illegal : Bool) where
  abbrev pub outcome_of : Finding → Bool
  outcome_of unnaturally_consistent_timing = consistent
  outcome_of contradictory_presence_signals = contradictory
  outcome_of low_interaction_entropy = low_entropy
  outcome_of mirrored_content_detected = mirrored
  outcome_of high_resource_usage_pattern = mining
  outcome_of copyright_content_detected = copyrighted
  outcome_of torrent_activity_detected = torrent
  outcome_of remote_access_detected = remote
  outcome_of illegal_content_detected = illegal

  pub mentions-findings_from :
      (f : Finding)
      → mentions f (
          findings_from consistent contradictory low_entropy mirrored mining copyrighted torrent
            remote illegal)
        ≡ outcome_of f
  mentions-findings_from unnaturally_consistent_timing = ground arith
  mentions-findings_from contradictory_presence_signals = ground arith
  mentions-findings_from low_interaction_entropy = ground arith
  mentions-findings_from mirrored_content_detected = ground arith
  mentions-findings_from high_resource_usage_pattern = ground arith
  mentions-findings_from copyright_content_detected = ground arith
  mentions-findings_from torrent_activity_detected = ground arith
  mentions-findings_from remote_access_detected = ground arith
  mentions-findings_from illegal_content_detected = ground arith

  pub names-threats_from :
      (t : ThreatCategory)
      → names t (threats_from mirrored mining copyrighted torrent remote illegal)
        ≡ outcome_of (finding_of t)
  names-threats_from mirrors_userbots = ground arith
  names-threats_from crypto_miners = ground arith
  names-threats_from dmca_violations = ground arith
  names-threats_from torrent_aggregators = ground arith
  names-threats_from vnc_virtual_desktops = ground arith
  names-threats_from illegal_content = ground arith

  pub is_empty-findings_from :
      is_empty (
        findings_from consistent contradictory low_entropy mirrored mining copyrighted torrent
          remote illegal)
      ≡ not (
          consistent || contradictory || low_entropy || mirrored || mining || copyrighted || torrent
          || remote || illegal)
  is_empty-findings_from = ground arith

-- What a role says of its confidence: 0 after a failure, and that of its last result otherwise.
pub get_confidence-remember :
    (o : Floats) (confidence : Option o.F) (role : Role o)
    → get_confidence o (remember o confidence role)
      ≡ elim confidence [ none ↦ zero_f o | some c ↦ c ]
unfolding get_confidence remember
get_confidence-remember o none role = refl
get_confidence-remember o (some c) role = refl
