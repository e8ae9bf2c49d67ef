-- ===== src/Memory/Known.antt =====
-- The graph of truepresence/memory/identity_graph.py connects only sessions that are stored.
use true_presence_ese.Base.{
  ◌≡◌, refl, ap, sym, subst, ◌∙◌, true, ◌||◌, List, [], ◌∷◌, arith, Bool-cases, Option-cases, inl,
  inr, any, All,
}
use true_presence_ese.Base.Text.{Text, text_eq, text_eq→eq, text_eq_refl, mem_text}
use true_presence_ese.Base.Assoc.{find, update}
use true_presence_ese.Json.{Fields}
use true_presence_ese.Float.{Floats}
use true_presence_ese.Memory.IdentityGraph.{
  Graph, IdentityGraph, add_edge, connect, neighbors, connect_similar, build_connections,
  extract_features, add_session, new_identity_graph, cosine_similarity,
}
use true_presence_ese.Memory.Symmetric.{mem_text-add_edge, add_sessions}
use true_presence_ese.Memory.Risk.{has_entry}

module _ {V : Type 0} where
  has_entry-update :
      (x key : Text) (default : V) (f : V → V) (d : List (Text × V))
      → has_entry x (update key default f d) ≡ (text_eq x key || has_entry x d)
  unfolding update
  has_entry-update x key default f [] = refl
  has_entry-update x key default f ((k, v) ∷ d) = elim (Bool-cases (text_eq k key)) [
    | inl e ↦ rw e (ground (arith, ap (text_eq x) (text_eq→eq k key e)))
    | inr e ↦ rw e (ground (arith, has_entry-update x key default f d))
  ]

-- Each session that another is connected to is stored.
abbrev pub Targets : (Text → Type 0) → Graph → Type 0
Targets P g = (a b : Text) → mem_text b (neighbors a g) ≡ true → P b

module _ (P : Text → Type 0) where
  add_edge-Targets : (a b : Text) (g : Graph) → P b → Targets P g → Targets P (add_edge a b g)
  add_edge-Targets a b g p h x c m = elim (Bool-cases (text_eq c b)) [
    | inl e ↦ subst P (sym (text_eq→eq c b e)) p
    | inr e ↦ h x c (ground (arith, mem_text-add_edge a b c x g))
  ]

  connect-Targets : (a b : Text) (g : Graph) → P a → P b → Targets P g → Targets P (connect a b g)
  unfolding connect
  connect-Targets a b g p q h = add_edge-Targets b a _ p (add_edge-Targets a b g q h)

  module _ (o : Floats) (dot : List o.F → List o.F → o.F) (norm : List o.F → o.F) where
    open o use {F, le}

    connect_similar-Targets :
        (threshold : F) (id : Text) (target : List F) (rest : List (Text × List F)) (g : Graph)
        → P id
        → All (λ e. P e.0) rest
        → Targets P g
        → Targets P (connect_similar o dot norm threshold id target rest g)
    unfolding connect_similar
    connect_similar-Targets threshold id target [] g p ps h = h
    connect_similar-Targets threshold id target ((existing, features) ∷ rest) g p ps h =
        elim (Bool-cases (text_eq existing id)) [
          | inl e ↦ rw e (connect_similar-Targets threshold id target rest g p ps.1 h)
          | inr e ↦
              rw e
                (elim (Bool-cases (le threshold (cosine_similarity o dot norm target features))) [
                  | inl f ↦ rw f (
                      connect_similar-Targets threshold id target rest (connect id existing g) p
                        ps.1 (connect-Targets id existing g p ps.0 h))
                  | inr f ↦ rw f (connect_similar-Targets threshold id target rest g p ps.1 h)
                ])
        ]

-- `sessions` holds every session of the graph, and those whose features are kept.
pub record IsRegistered {F : Type 0} (s : IdentityGraph F) : Type 0 where
  pub targets : Targets (λ x. has_entry x s.sessions ≡ true) s.graph
  pub featured : All (λ e. has_entry e.0 s.sessions ≡ true) s.session_features

module _ (o : Floats) (dot : List o.F → List o.F → o.F) (norm : List o.F → o.F) where
  open o use {F}

  build_connections-IsRegistered :
      (id : Text) (s : IdentityGraph F)
      → has_entry id s.sessions ≡ true
      → IsRegistered s
      → IsRegistered (build_connections o dot norm id s)
  unfolding build_connections
  build_connections-IsRegistered id s k h =
      elim (Bool-cases (any (λ e. text_eq id e.0) s.session_features)) [
        | inl e ↦ rw e (record {
          targets =
              connect_similar-Targets (λ x. has_entry x s.sessions ≡ true) o dot norm
                s.similarity_threshold id (find id [] s.session_features) s.session_features s.graph
                k h.featured h.targets;
          featured = h.featured;
        })
        | inr e ↦ rw e h
      ]

  module _ (id : Text) (session : Fields F) (s : IdentityGraph F) (h : IsRegistered s) where
    abbrev stored : List (Text × Fields F)
    stored = update id session (λ old. session) s.sessions

    added : has_entry id stored ≡ true
    added = has_entry-update id id session _ s.sessions ∙ ground (arith, text_eq_refl id)

    still : (x : Text) → has_entry x s.sessions ≡ true → has_entry x stored ≡ true
    still x k = has_entry-update x id session _ s.sessions ∙ ground arith

    still-All :
        (d : List (Text × List F))
        → All (λ e. has_entry e.0 s.sessions ≡ true) d
        → All (λ e. has_entry e.0 stored ≡ true) d
    still-All [] k = tt
    still-All ((x, v) ∷ d) k = (still x k.0, still-All d k.1)

    featured-All :
        (features : List F) (d : List (Text × List F))
        → All (λ e. has_entry e.0 s.sessions ≡ true) d
        → All (λ e. has_entry e.0 stored ≡ true) (update id features (λ old. features) d)
    unfolding update
    featured-All features [] k = (added, tt)
    featured-All features ((x, v) ∷ d) k = elim (Bool-cases (text_eq x id)) [
      | inl e ↦ rw e (still x k.0, still-All d k.1)
      | inr e ↦ rw e (still x k.0, featured-All features d k.1)
    ]

  add_session-IsRegistered :
      (hash : Text → Text) (id : Text) (session : Fields F) (s : IdentityGraph F)
      → IsRegistered s
      → IsRegistered (add_session o dot norm hash id session s)
  unfolding add_session
  add_session-IsRegistered hash id session s h = elim (Option-cases (extract_features o session)) [
    | inl e ↦
        rw (e, add_session)
          (record {
            targets = λ a b m. still (hash id) session s h b (h.targets a b m);
            featured = still-All (hash id) session s h s.session_features h.featured;
          })
    | inr (features, e) ↦
        rw (e, add_session)
          (build_connections-IsRegistered (hash id) _ (added (hash id) session s h) (record {
            targets = λ a b m. still (hash id) session s h b (h.targets a b m);
            featured = featured-All (hash id) session s h features s.session_features h.featured;
          }))
  ]

  kept-IsRegistered :
      (hash : Text → Text) (rest : List (Text × Fields F)) (s : IdentityGraph F)
      → IsRegistered s
      → IsRegistered (add_sessions o dot norm hash rest s)
  unfolding add_sessions
  kept-IsRegistered hash [] s h = h
  kept-IsRegistered hash ((id, session) ∷ rest) s h =
      kept-IsRegistered hash rest (add_session o dot norm hash id session s)
        (add_session-IsRegistered hash id session s h)

  pub add_sessions-IsRegistered :
      (hash : Text → Text) (threshold : F) (sessions : List (Text × Fields F))
      → IsRegistered (add_sessions o dot norm hash sessions (new_identity_graph o threshold))
  unfolding new_identity_graph neighbors find mem_text
  add_sessions-IsRegistered hash threshold sessions =
      kept-IsRegistered hash sessions (new_identity_graph o threshold)
        (record { targets = λ a b m. cc m; featured = tt })
