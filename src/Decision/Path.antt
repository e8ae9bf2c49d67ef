-- ===== src/Decision/Path.antt =====
-- `evaluate` of truepresence/decision/engine.py from the event: the context that it completes, the
-- packet, and the decision. The ensemble's `run` is a parameter; the artifacts are stored after the
-- decision is made, and the entry that `window` may add to the timeline is left out.
use true_presence_ese.Base.{Option, none, some, List, [], ◌∷◌, map, length, if◌then◌else◌}
use true_presence_ese.Base.Text.{Text, codes}
use true_presence_ese.Base.Steps.{◌>>=◌}
use true_presence_ese.Json.{Value, num, str, arr, obj, Fields, end, field, get}
use true_presence_ese.Json.Dict.{set_field, set_default, has_key, items_of}
use true_presence_ese.Float.{Floats, whole}
use true_presence_ese.Decision.Packet.{is_true, EvidencePacket}
use true_presence_ese.Decision.Tier.{Tier}
use true_presence_ese.Decision.Object.{DecisionObject}
use true_presence_ese.Decision.Engine.{evaluate}
use true_presence_ese.Memory.Timeline.{SessionTimeline, of_session, window, pos}
use true_presence_ese.Memory.IdentityGraph.{IdentityGraph, get_connected_sessions}
use true_presence_ese.Memory.Risk.{get_session_risk}
use true_presence_ese.Evidence.Values.{or_else}
use true_presence_ese.Evidence.Builder.{build_evidence_packet, with_challenge, tenant_of}
use true_presence_ese.Evidence.Graph.{ArgumentGraph, build_argument_graph}

module _ (o : Floats) where
  open o use {F, dec, le}

  -- The ensemble runtime, by what the engine calls of it. A runtime may have no memory and no graph.
  pub record Ensemble : Type 0 where
    pub memory : Option (SessionTimeline F)
    pub identity_graph : Option (IdentityGraph F)
    pub run : EvidencePacket F → ArgumentGraph → Fields F → Tier → List (Fields F)

  unfoldable pub with_session : Fields F → Fields F → Fields F
  unfolding set_default
  with_session session context =
      if is_true o (obj session)
      then set_default (codes "actor_id")
          (or_else o (get (codes "actor_id") session) (get (codes "user_id") session))
          (set_default (codes "session") (obj session) context)
      else context

  abbrev dicts : List (Fields F) → List (Value F)
  dicts events = map (λ e. obj e) events

  abbrev pub history_from : Option (SessionTimeline F) → Text → Fields F → Fields F
  history_from none session_id context = context
  history_from (some t) session_id context =
      set_field (codes "session_history")
        (arr (items_of (dicts (window (of_session session_id) (some (pos 50)) t).0))) context

  unfoldable pub with_history : Option (SessionTimeline F) → Text → Fields F → Fields F
  unfolding has_key
  with_history memory session_id context =
      if has_key (codes "session_history") context
      then context
      else history_from memory session_id context

  -- `"high" if cluster_risk >= 0.75 else cluster_risk`
  abbrev pub graded_risk : F → Value F
  graded_risk risk = if le (dec 75) risk then str (codes "high") else num risk

  abbrev pub refs_with : List Text → Value F → Fields F
  refs_with connected risk =
      field (codes "connected_sessions") (num (whole o (length connected)))
        (field (codes "cluster_risk") risk end)

  -- The references of a session, from the identity graph.
  abbrev pub refs_from : List Text → Option F → Option (Fields F)
  refs_from [] risk = some (field (codes "connected_sessions") (num (dec 0)) end)
  refs_from (c ∷ cs) none = none
  refs_from (c ∷ cs) (some risk) = some (refs_with (c ∷ cs) (graded_risk risk))

  unfoldable pub with_identity :
      (Text → Text) → Option (IdentityGraph F) → Text → Fields F → Option (Fields F)
  unfolding has_key
  with_identity hash none session_id context = some context
  with_identity hash (some g) session_id context =
      if has_key (codes "identity_refs") context
      then some context
      else (refs_from (get_connected_sessions hash session_id g.graph)
            (get_session_risk o hash session_id g)
          >>= λ refs. some (set_field (codes "identity_refs") (obj refs) context))

  -- The context that `evaluate` completes.
  unfoldable pub prepare :
      (Text → Text) → Ensemble → Text → Fields F → List (Fields F) → Fields F → Option (Fields F)
  unfolding with_session with_history with_identity
  prepare hash ensemble session_id session challenge_results context =
      with_identity hash ensemble.identity_graph session_id (
        with_history ensemble.memory session_id
          (with_challenge o challenge_results (with_session session context)))

  module _ (parse_float : Text → Option F) where
    -- None where the code raises. `fresh` are the identifiers that are drawn, and `now` the time.
    unfoldable pub evaluate_event :
        (Text → Text)
        → Ensemble
        → Text × Text
        → Text
        → Text
        → Text
        → Value F
        → Fields F
        → Fields F
        → List (Fields F)
        → Fields F
        → Option (DecisionObject F)
    unfolding prepare
    evaluate_event hash ensemble fresh now surface session_id tenant_id event session
          challenge_results context =
        prepare hash ensemble session_id session challenge_results context >>= λ ctx.
        build_evidence_packet o parse_float fresh.0 now surface session_id
          (tenant_of o tenant_id session (with_session session context)) event ctx
        >>= λ packet.
            evaluate o parse_float fresh.1 packet ctx
              (ensemble.run packet (build_argument_graph o packet) ctx)
