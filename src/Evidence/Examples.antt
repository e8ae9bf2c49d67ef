-- ===== src/Evidence/Examples.antt =====
-- Packets and graphs of truepresence/evidence/ on small events, over fixed-point numbers.
use true_presence_ese.Base.{◌||◌, ℕ, ◌≡◌, refl, true, false, Option, none, []}
use true_presence_ese.Base.Text.{Text, codes, text_eq}
use true_presence_ese.Base.Steps.{Returns}
use true_presence_ese.Json.{bool, num, obj, null, end, field, get_or, is_text}
use true_presence_ese.Json.Dict.{has_key}
use true_presence_ese.Float.Fixed.{fixed}
use true_presence_ese.Decision.Packet.{EvidencePacket, is_true}
use true_presence_ese.Evidence.Signals.{DefaultSignals, derive_timing_features}
use true_presence_ese.Evidence.Builder.{packet_of}
use true_presence_ese.Evidence.Graph.{build_argument_graph}
use true_presence_ese.Evidence.Marked.{IsMarked, build_argument_graph-IsMarked}
use true_presence_ese.Json.{get}

abbrev no_floats : Text → Option ℕ
no_floats t = none

abbrev signals : DefaultSignals fixed no_floats
signals = record {
  liveness = 2000;
  ai_mediation = 1000;
  relay_risk = 1000;
  deterministic_policy_violation = 0;
}

-- A failed challenge of a session with a constant latency.
abbrev hasty : EvidencePacket ℕ
hasty =
    packet_of fixed no_floats (codes "p1") (codes "2025-01-01T00:00:00+00:00") (codes "web")
      (codes "s1") null end
      (field (codes "challenge_data") (obj (field (codes "verified") (bool false) end)) end)
      (field (codes "constant_latency_pattern") (bool true) end) end signals [] end

build_argument_graph-IsMarked_example :
    IsMarked
      (build_argument_graph fixed hasty)
      (is_true fixed (get (codes "constant_latency_pattern") hasty.timing_features))
      (is_true fixed (get (codes "automation_pattern") hasty.behavioral_features))
      (is_text (codes "passed") (get (codes "status") hasty.challenge_data))
      (is_text (codes "failed") (get (codes "status") hasty.challenge_data)
        || is_text (codes "deterministic_failure") (get (codes "status") hasty.challenge_data))
      (is_true fixed (get (codes "cluster_risk") hasty.identity_refs))
      (is_true fixed (get (codes "require_step_up") hasty.policy_context))
build_argument_graph-IsMarked_example = build_argument_graph-IsMarked fixed hasty

-- A response time of 12 seconds is read as 12 milliseconds.
slow_is_constant :
    Returns
      (λ timing. is_true fixed (get (codes "constant_latency_pattern") timing) ≡ true)
      (derive_timing_features fixed no_floats
        (field (codes "payload") (obj (field (codes "response_time") (num 120000) end)) end)
        end)
unfolding derive_timing_features get_or is_true text_eq has_key
slow_is_constant = refl

-- A response time of 0 is taken for none.
instant_is_missing :
    Returns
      (λ timing. has_key (codes "constant_latency_pattern") timing ≡ false)
      (derive_timing_features fixed no_floats
        (field (codes "payload") (obj (field (codes "response_time_ms") (num 0) end)) end)
        end)
unfolding derive_timing_features get_or is_true text_eq has_key
instant_is_missing = refl
