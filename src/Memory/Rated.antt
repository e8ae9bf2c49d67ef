-- ===== src/Memory/Rated.antt =====
-- The risk of a session in a graph that `add_session` of truepresence/memory/identity_graph.py
-- built.
use true_presence_ese.Base.{
  ◌≤◌, ◌≡◌, refl, true, some, List, [], ◌∷◌, arith, Bool-cases, Option-cases, inl, inr, length, any,
}
use true_presence_ese.Base.Text.{Text, text_eq}
use true_presence_ese.Base.Assoc.{update}
use true_presence_ese.Json.{Fields}
use true_presence_ese.Float.{Floats, IsFloats, InUnit}
use true_presence_ese.Float.Laws.{dec-InUnit}
use true_presence_ese.Memory.IdentityGraph.{
  IdentityGraph, add_session, extract_features, new_identity_graph, build_connections,
  get_session_cluster,
}
use true_presence_ese.Memory.Symmetric.{add_sessions}
use true_presence_ese.Memory.Cluster.{Reaches, here, onward, get_session_cluster-Reaches}
use true_presence_ese.Memory.Known.{IsRegistered, add_sessions-IsRegistered}
use true_presence_ese.Memory.Risk.{has_entry, get_session_risk}
use true_presence_ese.Memory.Scored.{IsScored, AllScored, cluster_risk-InUnit}

module _ (o : Floats) (dot : List o.F → List o.F → o.F) (norm : List o.F → o.F) where
  open o use {F, dec}

  update-AllScored :
      (id : Text) (session : Fields F) (d : List (Text × Fields F))
      → IsScored o session
      → AllScored o d
      → AllScored o (update id session (λ old. session) d)
  unfolding update
  update-AllScored id session [] s h = (s, tt)
  update-AllScored id session ((k, v) ∷ d) s h = elim (Bool-cases (text_eq k id)) [
    | inl e ↦ rw e (s, h.1)
    | inr e ↦ rw e (h.0, update-AllScored id session d s h.1)
  ]

  build_connections-sessions :
      (id : Text) (s : IdentityGraph F)
      → AllScored o s.sessions
      → AllScored o (build_connections o dot norm id s).sessions
  unfolding build_connections
  build_connections-sessions id s h =
      elim (Bool-cases (any (λ e. text_eq id e.0) s.session_features)) [
        | inl e ↦ rw e h
        | inr e ↦ rw e h
      ]

  new-AllScored : (threshold : F) → AllScored o (new_identity_graph o threshold).sessions
  unfolding new_identity_graph
  new-AllScored threshold = tt

  add_session-AllScored :
      (hash : Text → Text) (id : Text) (session : Fields F) (s : IdentityGraph F)
      → IsScored o session
      → AllScored o s.sessions
      → AllScored o (add_session o dot norm hash id session s).sessions
  unfolding add_session
  add_session-AllScored hash id session s c h = elim (Option-cases (extract_features o session)) [
    | inl e ↦ rw (e, add_session) (update-AllScored (hash id) session s.sessions c h)
    | inr (features, e) ↦
        rw (e, add_session)
          (build_connections-sessions (hash id) _
            (update-AllScored (hash id) session s.sessions c h))
  ]

  kept-AllScored :
      (hash : Text → Text) (sessions : List (Text × Fields F)) (s : IdentityGraph F)
      → AllScored o sessions
      → AllScored o s.sessions
      → AllScored o (add_sessions o dot norm hash sessions s).sessions
  unfolding add_sessions
  kept-AllScored hash [] s c h = h
  kept-AllScored hash ((id, session) ∷ rest) s c h =
      kept-AllScored hash rest (add_session o dot norm hash id session s) c.1
        (add_session-AllScored hash id session s c.0 h)

  reached-has_entry :
      (s : IdentityGraph F) (start : Text) {x : Text}
      → IsRegistered s
      → has_entry start s.sessions ≡ true
      → Reaches s.graph start x
      → has_entry x s.sessions ≡ true
  reached-has_entry s start h k here = k
  reached-has_entry s start {x} h k (onward {b} r m) = h.targets b x m

  module _ (l : IsFloats o) where
    -- In a graph to which any sessions were added whose scores, or the defaults for them, lie
    -- between 0 and 1, the risk of any session, added or not, is a number between 0 and 1: no
    -- session of its cluster is missing and no score is unreadable. The cluster has at most a
    -- million sessions.
    pub get_session_risk-InUnit :
        (hash : Text → Text) (threshold : F) (sessions : List (Text × Fields F)) (id : Text)
        → AllScored o sessions
        → ((cluster : List Text)
            → get_session_cluster hash id
                (add_sessions o dot norm hash sessions (new_identity_graph o threshold)).graph
              ≡ some cluster
            → length cluster ≤ 1000000)
        → (risk : F) × (get_session_risk o hash id
              (add_sessions o dot norm hash sessions (new_identity_graph o threshold))
            ≡ some risk)
          × InUnit o risk
    unfolding get_session_risk
    get_session_risk-InUnit hash threshold sessions id c b =
        let s = add_sessions o dot norm hash sessions (new_identity_graph o threshold) in
        let (cluster, found, reached) = get_session_cluster-Reaches hash id s.graph in
        elim (Bool-cases (has_entry (hash id) s.sessions)) [
          | inl e ↦ rw e (
              rw found (
                cluster_risk-InUnit o l s.sessions cluster
                  (kept-AllScored hash sessions (new_identity_graph o threshold) c
                    (new-AllScored threshold))
                  (λ x m.
                    reached-has_entry s (hash id)
                      (add_sessions-IsRegistered o dot norm hash threshold sessions) e
                      ((reached x).0 m))
                  (let k = b cluster found in omega arith)))
          | inr e ↦ rw e (dec 50, refl, dec-InUnit o l 50 (omega arith))
        ]
