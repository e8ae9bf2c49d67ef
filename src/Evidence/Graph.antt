-- ===== src/Evidence/Graph.antt =====
-- truepresence/evidence/argument_graph.py with the claims of claims.py. The fields of a claim that
-- the code never sets (the hint, the times and the metadata) are left out.
use Prim.Native.String.{String}
use true_presence_ese.Base.{Bool, true, false, ◌||◌, List, [], ◌∷◌, ◌++◌, flagged, if◌then◌else◌}
use true_presence_ese.Base.Text.{Text, codes}
use true_presence_ese.Base.Assoc.{update, find}
use true_presence_ese.Json.{Value, get, is_text}
use true_presence_ese.Float.{Floats}
use true_presence_ese.Decision.Packet.{is_true, EvidencePacket}

pub data ClaimType : Type 0 where
  presence risk challenge identity policy : ClaimType

pub record Claim : Type 0 where
  pub claim_id : Text
  pub claim_type : ClaimType
  pub label : String
  pub evidence_refs : List String

pub record ArgumentGraph : Type 0 where
  pub claims : List (Text × Claim)
  pub support_edges : List (Text × Text)
  pub attack_edges : List (Text × Text)

unfoldable pub new_graph : ArgumentGraph
new_graph = record { claims = []; support_edges = []; attack_edges = [] }

-- `add_claim`, `supports` and `attacks`.
unfoldable pub add_claim : Text → ClaimType → String → ArgumentGraph → ArgumentGraph
unfolding update
add_claim id type label g =
    let claim : Claim = record {
      claim_id = id;
      claim_type = type;
      label = label;
      evidence_refs = [];
    } in
    record g { claims = update id claim (λ old. claim) g.claims }

unfoldable pub supports : Text → Text → ArgumentGraph → ArgumentGraph
supports source target g = record g { support_edges = g.support_edges ++ (source, target) ∷ [] }

unfoldable pub attacks : Text → Text → ArgumentGraph → ArgumentGraph
attacks source target g = record g { attack_edges = g.attack_edges ++ (source, target) ∷ [] }

abbrev pub human_presence_supported : Text
human_presence_supported = codes "human_presence_supported"

abbrev pub automation_pattern_supported : Text
automation_pattern_supported = codes "automation_pattern_supported"

abbrev pub challenge_success_supported : Text
challenge_success_supported = codes "challenge_success_supported"

abbrev pub challenge_failure_supported : Text
challenge_failure_supported = codes "challenge_failure_supported"

abbrev pub identity_cluster_risk_supported : Text
identity_cluster_risk_supported = codes "identity_cluster_risk_supported"

abbrev pub policy_step_up_required : Text
policy_step_up_required = codes "policy_step_up_required"

-- The claims and the edges that every graph has.
unfoldable pub base_graph : ArgumentGraph
unfolding new_graph add_claim supports attacks
base_graph =
    let g =
      add_claim policy_step_up_required policy "Tenant or flow policy requires step-up verification"
        (add_claim identity_cluster_risk_supported identity
          "Cross-session identity graph indicates elevated cluster risk"
          (add_claim challenge_failure_supported challenge
            "Challenge result undermines human continuity"
            (add_claim challenge_success_supported challenge
              "Challenge result supports human continuity"
              (add_claim automation_pattern_supported risk
                "Observed patterns support automation or non-human behavior"
                (add_claim human_presence_supported presence
                  "Actor appears to be a legitimate human participant" new_graph))))) in
    attacks policy_step_up_required human_presence_supported (
      supports identity_cluster_risk_supported automation_pattern_supported (
        attacks automation_pattern_supported human_presence_supported (
          attacks challenge_failure_supported human_presence_supported
            (supports challenge_success_supported human_presence_supported g))))

-- `graph.claims[id].evidence_refs.extend(refs)`; the claim is one of the base graph.
unfoldable pub refer : Text → List String → ArgumentGraph → ArgumentGraph
unfolding update
refer id refs g =
    let missing : Claim = record {
      claim_id = id;
      claim_type = risk;
      label = "";
      evidence_refs = [];
    } in
    record g {
      claims =
          update id missing (λ claim. record claim { evidence_refs = claim.evidence_refs ++ refs })
            g.claims;
    }

abbrev pub refer_if : Bool → Text → List String → ArgumentGraph → ArgumentGraph
refer_if true id refs g = refer id refs g
refer_if false id refs g = g

module _ (o : Floats) where
  open o use {F}

  abbrev pub is_failed : Value F → Bool
  is_failed status =
      is_text (codes "failed") status || is_text (codes "deterministic_failure") status

  unfoldable pub refer_challenge : EvidencePacket F → ArgumentGraph → ArgumentGraph
  unfolding refer
  refer_challenge packet g =
      let status = get (codes "status") packet.challenge_data in
      if is_text (codes "passed") status
      then refer challenge_success_supported ("challenge_data" ∷ []) g
      else if is_failed status
      then refer challenge_failure_supported ("challenge_data" ∷ []) g
      else g

  abbrev pub automation_refs : EvidencePacket F → List String
  automation_refs packet = flagged (
      (is_true o (get (codes "constant_latency_pattern") packet.timing_features), "timing_features")
      ∷ (
        is_true o (get (codes "automation_pattern") packet.behavioral_features),
        "behavioral_features",
      )
      ∷ [])

  unfoldable pub build_argument_graph : EvidencePacket F → ArgumentGraph
  unfolding base_graph refer refer_challenge is_true
  build_argument_graph packet = refer automation_pattern_supported (automation_refs packet) (
      refer_if (is_true o (get (codes "require_step_up") packet.policy_context))
        policy_step_up_required ("policy_context" ∷ [])
        (refer_if (is_true o (get (codes "cluster_risk") packet.identity_refs))
          identity_cluster_risk_supported ("identity_refs" ∷ [])
          (refer_challenge packet base_graph)))

-- The evidence of a claim.
abbrev pub evidence_for : Text → ArgumentGraph → List String
evidence_for id g =
    (find id (record { claim_id = id; claim_type = risk; label = ""; evidence_refs = [] })
      g.claims).evidence_refs
