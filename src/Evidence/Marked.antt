-- ===== src/Evidence/Marked.antt =====
-- The evidence of the graph that truepresence/evidence/argument_graph.py builds.
use Prim.Native.String.{String}
use true_presence_ese.Base.{
  arith, flagged, ◌++◌, ◌||◌, ◌≡◌, Bool, List, [], ◌∷◌, map, if◌then◌else◌,
}
use true_presence_ese.Base.Text.{codes, text_eq}
use true_presence_ese.Base.Assoc.{update, find}
use true_presence_ese.Json.{get, is_text}
use true_presence_ese.Float.{Floats}
use true_presence_ese.Decision.Packet.{is_true, EvidencePacket}
use true_presence_ese.Evidence.Graph.{
  ArgumentGraph, new_graph, add_claim, supports, attacks, base_graph, refer, refer_if,
  refer_challenge, build_argument_graph, evidence_for, automation_pattern_supported,
  challenge_success_supported, challenge_failure_supported, identity_cluster_risk_supported,
  policy_step_up_required,
}

abbrev only_if : Bool → String → List String
only_if b ref = if b then ref ∷ [] else []

-- A graph with these claims and edges, in which the claims have this evidence, and no other.
pub record IsMarked (g : ArgumentGraph)
    (constant_latency automated passed failed clustered step_up : Bool) : Type 0 where
  pub claimed :
      map (λ c. c.0) g.claims
      ≡ codes "human_presence_supported"
        ∷ codes "automation_pattern_supported"
        ∷ codes "challenge_success_supported"
        ∷ codes "challenge_failure_supported"
        ∷ codes "identity_cluster_risk_supported"
        ∷ codes "policy_step_up_required"
        ∷ []
  pub presence_evidence : evidence_for (codes "human_presence_supported") g ≡ []
  pub automation_evidence :
      evidence_for (codes "automation_pattern_supported") g
      ≡ only_if constant_latency "timing_features" ++ only_if automated "behavioral_features"
  pub success_evidence :
      evidence_for (codes "challenge_success_supported") g ≡ only_if passed "challenge_data"
  pub failure_evidence :
      evidence_for (codes "challenge_failure_supported") g
      ≡ (if passed then [] else only_if failed "challenge_data")
  pub identity_evidence :
      evidence_for (codes "identity_cluster_risk_supported") g ≡ only_if clustered "identity_refs"
  pub policy_evidence :
      evidence_for (codes "policy_step_up_required") g ≡ only_if step_up "policy_context"
  pub support :
      g.support_edges
      ≡ (codes "challenge_success_supported", codes "human_presence_supported")
        ∷ (codes "identity_cluster_risk_supported", codes "automation_pattern_supported")
        ∷ []
  pub attack :
      g.attack_edges
      ≡ (codes "challenge_failure_supported", codes "human_presence_supported")
        ∷ (codes "automation_pattern_supported", codes "human_presence_supported")
        ∷ (codes "policy_step_up_required", codes "human_presence_supported")
        ∷ []

abbrev marked : List String → Bool → Bool → Bool → Bool → ArgumentGraph
marked automation passed failed clustered step_up = refer automation_pattern_supported automation (
    refer_if step_up policy_step_up_required ("policy_context" ∷ []) (
      refer_if clustered identity_cluster_risk_supported ("identity_refs" ∷ []) (
        if passed
        then refer challenge_success_supported ("challenge_data" ∷ []) base_graph
        else if failed
        then refer challenge_failure_supported ("challenge_data" ∷ []) base_graph
        else base_graph)))

marked-IsMarked :
    (constant_latency automated passed failed clustered step_up : Bool)
    → IsMarked
        (marked
          (flagged
            ((constant_latency, "timing_features") ∷ (automated, "behavioral_features") ∷ []))
          passed
          failed
          clustered
          step_up)
        constant_latency
        automated
        passed
        failed
        clustered
        step_up
unfolding base_graph refer update find text_eq add_claim supports attacks new_graph
marked-IsMarked constant_latency automated passed failed clustered step_up = record {
  claimed = ground arith;
  presence_evidence = ground arith;
  automation_evidence = ground arith;
  success_evidence = ground arith;
  failure_evidence = ground arith;
  identity_evidence = ground arith;
  policy_evidence = ground arith;
  support = ground arith;
  attack = ground arith;
}

module _ (o : Floats) where
  open o use {F}

  -- The graph of a packet has the six claims. A success of the challenge supports the human
  -- presence, and a cluster risk supports the automation pattern; a failure of the challenge, an
  -- automation pattern and a required step-up attack the human presence. The automation claim has
  -- the timing features as evidence for a constant latency, then the behavioral features for an
  -- automation pattern; the success claim has the challenge data for a passed challenge and the
  -- failure claim for one that failed, deterministically or not; the identity and the policy claim
  -- have theirs when a cluster risk and a step-up are set; and the presence claim has none.
  pub build_argument_graph-IsMarked :
      (packet : EvidencePacket F)
      → IsMarked
          (build_argument_graph o packet)
          (is_true o (get (codes "constant_latency_pattern") packet.timing_features))
          (is_true o (get (codes "automation_pattern") packet.behavioral_features))
          (is_text (codes "passed") (get (codes "status") packet.challenge_data))
          (is_text (codes "failed") (get (codes "status") packet.challenge_data)
            || is_text (codes "deterministic_failure") (get (codes "status") packet.challenge_data))
          (is_true o (get (codes "cluster_risk") packet.identity_refs))
          (is_true o (get (codes "require_step_up") packet.policy_context))
  unfolding build_argument_graph refer_challenge
  build_argument_graph-IsMarked packet = marked-IsMarked _ _ _ _ _ _
