-- ===== src/Decision/Through.antt =====
-- The packet that `evaluate` of truepresence/decision/engine.py builds, and the cluster of its session.
use true_presence_ese.Base.{
  ◌≡◌, refl, ap, sym, subst, ◌∙◌, inl, inr, Bool, true, false, not, ◌&&◌, Option, none, some, List,
  [], ◌∷◌, Bool-cases, Option-cases, Always,
}
use true_presence_ese.Base.Text.{Text, codes, text_eq}
use true_presence_ese.Base.Steps.{>>=-eq-some}
use true_presence_ese.Json.{Value, null, str, arr, nil, Fields, get, get_or, is_text}
use true_presence_ese.Json.Dict.{Lacks, get_or-set_default_other}
use true_presence_ese.Float.{Floats}
use true_presence_ese.Decision.Packet.{as_set, EvidencePacket}
use true_presence_ese.Decision.Tier.{choose_tier}
use true_presence_ese.Decision.Object.{DecisionObject}
use true_presence_ese.Decision.Engine.{evaluate}
use true_presence_ese.Decision.Allowed.{threats_of}
use true_presence_ese.Decision.Path.{graded_risk, refs_from, with_identity}
use true_presence_ese.Decision.Completed.{with_identity_refs}
use true_presence_ese.Memory.IdentityGraph.{IdentityGraph, get_connected_sessions}
use true_presence_ese.Memory.Risk.{get_session_risk}
use true_presence_ese.Evidence.Values.{to_dict, list_of}
use true_presence_ese.Evidence.Signals.{
  DefaultSignals, derive_timing_features, derive_behavioral_features, derive_challenge_data,
  derive_default_signals, derive_identity_refs, derive_risk_context,
}
use true_presence_ese.Evidence.Builder.{packet_of, build_evidence_packet}

abbrev is_empty : List Text → Bool
is_empty [] = true
is_empty _ = false

module _ (o : Floats) where
  open o use {F, dec, le}

  module _ (hash : Text → Text) (id : Text) where
    -- A session with a cluster whose risk is high.
    abbrev pub is_clustered : IdentityGraph F → F → Bool
    is_clustered g risk =
        not (is_empty (get_connected_sessions hash id g.graph)) && le (dec 75) risk

    refs_from-calm :
        (connected : List Text) (risk : Option F) (refs : Fields F)
        → refs_from o connected risk ≡ some refs
        → is_text (codes "high") (get (codes "cluster_risk") refs) ≡ false
        → Always (λ r. (not (is_empty connected) && le (dec 75) r) ≡ false) risk
    unfolding get_or text_eq
    refs_from-calm [] none refs h c = tt
    refs_from-calm [] (some r) refs h c = refl
    refs_from-calm (x ∷ xs) none refs h c = tt
    refs_from-calm (x ∷ xs) (some r) refs h c = elim (Bool-cases (le (dec 75) r)) [
      | inr e ↦ e
      | inl e ↦
          let high : is_text (codes "high") (graded_risk o r) ≡ false =
            subst
              (λ z. Always (λ d. is_text (codes "high") (get (codes "cluster_risk") d) ≡ false) z)
              (sym h) c in
          cc (rw e at high)
    ]

    pub unclustered_session :
        (graph : Option (IdentityGraph F)) (context ctx : Fields F)
        → Lacks (codes "identity_refs") context
        → with_identity o hash graph id context ≡ some ctx
        → is_text (codes "high") (get (codes "cluster_risk") (derive_identity_refs o id ctx))
          ≡ false
        → Always
            (λ g. Always (λ risk. is_clustered g risk ≡ false) (get_session_risk o hash id g))
            graph
    unfolding derive_identity_refs text_eq to_dict
    unclustered_session none context ctx h made c = tt
    unclustered_session (some g) context ctx h made c =
        let (refs, found, same) = with_identity_refs o hash g id context h ctx made in
        refs_from-calm (get_connected_sessions hash id g.graph) (get_session_risk o hash id g) refs
          found
          (subst (λ v. is_text (codes "high") v ≡ false)
            (get_or-set_default_other (codes "session_id") (codes "cluster_risk") (str id) null
                (to_dict (get (codes "identity_refs") ctx)) refl
              ∙ ap (λ v. get (codes "cluster_risk") (to_dict v)) same)
            c)

  module _ (parse : Text → Option F) where
    -- A packet that is built, by its derived parts.
    pub built_parts :
        (packet_id now surface session_id : Text) (tenant_id : Value F) (event context : Fields F)
        (packet : EvidencePacket F)
        → build_evidence_packet o parse packet_id now surface session_id tenant_id event context
          ≡ some packet
        → (timing : Fields F) × (derive_timing_features o parse event context ≡ some timing)
          × (risk : Fields F) × (derive_risk_context o event context ≡ some risk)
          × (behavioral : Fields F) × (signals : DefaultSignals o parse) × (history : List
              (Value F))
          × (some (
                packet_of o parse packet_id now surface session_id tenant_id event context timing
                  behavioral signals history risk)
              ≡ some packet)
    unfolding build_evidence_packet
    built_parts packet_id now surface session_id tenant_id event context packet made =
        let (timing, is_timing, rest) =
          >>=-eq-some (derive_timing_features o parse event context) _ made in
        let (behavioral, is_behavioral, rest) =
          >>=-eq-some (derive_behavioral_features o event context) _ rest in
        let (signals, is_signals, rest) =
          >>=-eq-some (derive_default_signals o parse event (derive_challenge_data o event context))
            _ rest in
        let (history, is_history, rest) =
          >>=-eq-some (list_of (get_or (codes "session_history") (arr nil) context)) _ rest in
        let (risk, is_risk, rest) = >>=-eq-some (derive_risk_context o event context) _ rest in
        (timing, is_timing, risk, is_risk, behavioral, signals, history, rest)

    pub choose_tier-as_set :
        (packet : EvidencePacket F) (context : Fields F) (run : _) (fresh : Text)
        (d : DecisionObject F)
        → evaluate o parse fresh packet context run ≡ some d
        → as_set o (get_or (codes "threats_detected") (arr nil) packet.risk_context)
          ≡ some (threats_of o packet)
    unfolding evaluate choose_tier
    choose_tier-as_set packet context run fresh d h =
        elim (Option-cases
          (as_set o (get_or (codes "threats_detected") (arr nil) packet.risk_context))) [
            | inl e ↦ cc (rw (e, evaluate) at h)
            | inr (ts, e) ↦ rw (e, threats_of) refl
          ]
