-- ===== src/Memory/Symmetric.antt =====
-- The graph of truepresence/memory/identity_graph.py is symmetric.
use true_presence_ese.Base.{
  ◌≡◌, refl, ap, sym, subst, ◌∙◌, true, ◌&&◌, ◌||◌, List, [], ◌∷◌, arith, Bool-cases, Option-cases,
  inl, inr, if◌then◌else◌, any,
}
use true_presence_ese.Base.Text.{Text, text_eq, text_eq→eq, mem_text}
use true_presence_ese.Base.Assoc.{find, update, find-update_same, find-update_other, text_eq_sym}
use true_presence_ese.Json.{Fields}
use true_presence_ese.Float.{Floats}
use true_presence_ese.Memory.IdentityGraph.{
  Graph, IdentityGraph, add_edge, connect, neighbors, connect_similar, build_connections,
  extract_features, add_session, new_identity_graph, cosine_similarity,
}

mem_text-insert :
    (b c : Text) (ns : List Text)
    → mem_text c (if mem_text b ns then ns else b ∷ ns) ≡ (text_eq c b || mem_text c ns)
unfolding mem_text
mem_text-insert b c ns = elim (Bool-cases (mem_text b ns)) [
  | inl e ↦ rw e (elim (Bool-cases (text_eq c b)) [
    | inl f ↦ rw f (subst (λ z. mem_text z ns ≡ true) (sym (text_eq→eq c b f)) e)
    | inr f ↦ rw f refl
  ])
  | inr e ↦ rw e refl
]

pub mem_text-add_edge :
    (a b c x : Text) (g : Graph)
    → mem_text c (neighbors x (add_edge a b g))
      ≡ (text_eq a x && text_eq c b || mem_text c (neighbors x g))
unfolding add_edge neighbors
mem_text-add_edge a b c x g = elim (Bool-cases (text_eq a x)) [
  | inl e ↦ rw e (
      subst
        (λ z.
          mem_text c (find z [] (update a [] (λ ns. if mem_text b ns then ns else b ∷ ns) g))
          ≡ (text_eq c b || mem_text c (find z [] g)))
        (text_eq→eq a x e)
        (ap (mem_text c) (find-update_same a [] (λ ns. if mem_text b ns then ns else b ∷ ns) g)
          ∙ mem_text-insert b c (find a [] g)))
  | inr e ↦
      rw e (
        ap (mem_text c) (find-update_other a x [] (λ ns. if mem_text b ns then ns else b ∷ ns) g e))
]

abbrev pub IsSymmetric : Graph → Type 0
IsSymmetric g = (a b : Text) → mem_text b (neighbors a g) ≡ mem_text a (neighbors b g)

connect-IsSymmetric : (a b : Text) (g : Graph) → IsSymmetric g → IsSymmetric (connect a b g)
unfolding connect
connect-IsSymmetric a b g h x c = ground (
  arith,
  mem_text-add_edge b a c x (add_edge a b g),
  mem_text-add_edge a b c x g,
  mem_text-add_edge b a x c (add_edge a b g),
  mem_text-add_edge a b x c g,
  h x c,
  text_eq_sym b x,
  text_eq_sym c a,
  text_eq_sym a x,
  text_eq_sym c b,
)

module _ (o : Floats) (dot : List o.F → List o.F → o.F) (norm : List o.F → o.F) where
  open o use {F, le}

  connect_similar-IsSymmetric :
      (threshold : F) (id : Text) (target : List F) (rest : List (Text × List F)) (g : Graph)
      → IsSymmetric g
      → IsSymmetric (connect_similar o dot norm threshold id target rest g)
  unfolding connect_similar
  connect_similar-IsSymmetric threshold id target [] g h = h
  connect_similar-IsSymmetric threshold id target ((existing, features) ∷ rest) g h =
      elim (Bool-cases (text_eq existing id)) [
        | inl e ↦ rw e (connect_similar-IsSymmetric threshold id target rest g h)
        | inr e ↦
            rw e (elim (Bool-cases (le threshold (cosine_similarity o dot norm target features))) [
              | inl f ↦ rw f (
                  connect_similar-IsSymmetric threshold id target rest (connect id existing g)
                    (connect-IsSymmetric id existing g h))
              | inr f ↦ rw f (connect_similar-IsSymmetric threshold id target rest g h)
            ])
      ]

  build_connections-IsSymmetric :
      (id : Text) (s : IdentityGraph F)
      → IsSymmetric s.graph
      → IsSymmetric (build_connections o dot norm id s).graph
  unfolding build_connections
  build_connections-IsSymmetric id s h =
      elim (Bool-cases (any (λ e. text_eq id e.0) s.session_features)) [
        | inl e ↦ rw e (
            connect_similar-IsSymmetric s.similarity_threshold id (find id [] s.session_features)
              s.session_features s.graph h)
        | inr e ↦ rw e h
      ]

  add_session-IsSymmetric :
      (hash : Text → Text) (id : Text) (session : Fields F) (s : IdentityGraph F)
      → IsSymmetric s.graph
      → IsSymmetric (add_session o dot norm hash id session s).graph
  unfolding add_session
  add_session-IsSymmetric hash id session s h = elim (Option-cases (extract_features o session)) [
    | inl e ↦ rw (e, add_session) h
    | inr e ↦ rw (e.1, add_session) (build_connections-IsSymmetric (hash id) _ h)
  ]

  -- A run of `add_session` calls.
  unfoldable pub add_sessions :
      (Text → Text) → List (Text × Fields F) → IdentityGraph F → IdentityGraph F
  unfolding add_session
  add_sessions hash [] s = s
  add_sessions hash ((id, session) ∷ rest) s =
      add_sessions hash rest (add_session o dot norm hash id session s)

  kept-IsSymmetric :
      (hash : Text → Text) (rest : List (Text × Fields F)) (s : IdentityGraph F)
      → IsSymmetric s.graph
      → IsSymmetric (add_sessions hash rest s).graph
  unfolding add_sessions
  kept-IsSymmetric hash [] s h = h
  kept-IsSymmetric hash ((id, session) ∷ rest) s h =
      kept-IsSymmetric hash rest (add_session o dot norm hash id session s)
        (add_session-IsSymmetric hash id session s h)

  -- Whatever sessions are added, with readable features or not, a session is connected to another
  -- exactly when the other is connected to it.
  pub add_sessions-IsSymmetric :
      (hash : Text → Text) (threshold : F) (sessions : List (Text × Fields F))
      → IsSymmetric (add_sessions hash sessions (new_identity_graph o threshold)).graph
  unfolding new_identity_graph neighbors find mem_text
  add_sessions-IsSymmetric hash threshold sessions =
      kept-IsSymmetric hash sessions (new_identity_graph o threshold) (λ a b. refl)
