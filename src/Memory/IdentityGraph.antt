-- ===== src/Memory/IdentityGraph.antt =====
-- truepresence/memory/identity_graph.py. `hash_session_id` stands for the keyed hash of the
-- standard library, `dot` and `norm` for numpy's.
use true_presence_ese.Base.{
  ℕ, zero, suc, ◌+◌, Bool, true, false, ◌||◌, ◌&&◌, Option, none, some, List, [], ◌∷◌, any, length,
  if◌then◌else◌,
}
use true_presence_ese.Base.Text.{Text, codes, text_eq, mem_text}
use true_presence_ese.Base.Assoc.{find, update}
use true_presence_ese.Json.{Value, bool, num, obj, Fields, end, get_or}
use true_presence_ese.Float.{Floats, lt, whole, zero_f, one_f, min_f, max_f}

-- A `defaultdict(set)`: the members of a set stand in the order in which they came.
abbrev pub Graph : Type 0
Graph = List (Text × List Text)

pub record IdentityGraph (F : Type 0) : Type 0 where
  pub similarity_threshold : F
  pub sessions : List (Text × Fields F)
  pub graph : Graph
  pub session_features : List (Text × List F)

-- `self.graph[a].add(b)`
unfoldable pub add_edge : Text → Text → Graph → Graph
unfolding update
add_edge a b g = update a [] (λ ns. if mem_text b ns then ns else b ∷ ns) g

unfoldable pub connect : Text → Text → Graph → Graph
unfolding add_edge
connect a b g = add_edge b a (add_edge a b g)

unfoldable pub neighbors : Text → Graph → List Text
unfolding find
neighbors a g = find a [] g

module _ (o : Floats) where
  open o use {F, dec, le, div, mul}

  unfoldable pub normalize_feature : Value F → F
  normalize_feature (num x) =
      if lt o (whole o 1000) x
      then min_f o (div x (whole o 10000)) (one_f o)
      else min_f o (max_f o x (zero_f o)) (one_f o)
  normalize_feature (bool b) = if b then one_f o else zero_f o
  normalize_feature _ = dec 50

  -- The sub-dictionary of a session, where the code raises if the value is no dictionary.
  abbrev pub as_dict : Value F → Option (Fields F)
  as_dict (obj fields) = some fields
  as_dict _ = none

  unfoldable pub features_of : Fields F → Fields F → Fields F → List F
  unfolding normalize_feature
  features_of session behavior detection =
      normalize_feature (get_or (codes "duration") (num (dec 0)) session)
      ∷ normalize_feature (get_or (codes "event_count") (num (dec 0)) session)
      ∷ normalize_feature (get_or (codes "avg_interval") (num (dec 100)) session)
      ∷ normalize_feature (get_or (codes "mouse_variance") (num (dec 50)) behavior)
      ∷ normalize_feature (get_or (codes "typing_speed") (num (dec 50)) behavior)
      ∷ normalize_feature (get_or (codes "timing_consistency") (num (dec 50)) behavior)
      ∷ normalize_feature (get_or (codes "human_probability") (num (dec 50)) detection)
      ∷ normalize_feature (get_or (codes "confidence") (num (dec 50)) detection)
      ∷ []

  unfoldable pub extract_features : Fields F → Option (List F)
  unfolding features_of
  extract_features session = elim (as_dict (get_or (codes "behavior") (obj end) session)) [
    | none ↦ none
    | some behavior ↦ elim (as_dict (get_or (codes "detection") (obj end) session)) [
      | none ↦ none
      | some detection ↦ some (features_of session behavior detection)
    ]
  ]

  abbrev is_zero : F → Bool
  is_zero x = le x (dec 0) && le (dec 0) x

  unfoldable pub new_identity_graph : F → IdentityGraph F
  new_identity_graph threshold = record {
    similarity_threshold = threshold;
    sessions = [];
    graph = [];
    session_features = [];
  }

  module _ (dot : List F → List F → F) (norm : List F → F) where
    unfoldable pub cosine_similarity : List F → List F → F
    cosine_similarity [] ys = dec 0
    cosine_similarity (x ∷ xs) [] = dec 0
    cosine_similarity (x ∷ xs) (y ∷ ys) =
        if is_zero (norm (x ∷ xs)) || is_zero (norm (y ∷ ys))
        then dec 0
        else div (dot (x ∷ xs) (y ∷ ys)) (mul (norm (x ∷ xs)) (norm (y ∷ ys)))

    -- The loop over the other sessions' features.
    unfoldable pub connect_similar : F → Text → List F → List (Text × List F) → Graph → Graph
    unfolding cosine_similarity connect
    connect_similar threshold id target [] g = g
    connect_similar threshold id target ((existing, features) ∷ rest) g =
        connect_similar threshold id target rest (
          if text_eq existing id
          then g
          else if le threshold (cosine_similarity target features)
          then connect id existing g
          else g)

    unfoldable pub build_connections : Text → IdentityGraph F → IdentityGraph F
    unfolding connect_similar find
    build_connections id s =
        if any (λ e. text_eq id e.0) s.session_features
        then record s {
          graph =
              connect_similar s.similarity_threshold id (find id [] s.session_features)
                s.session_features s.graph;
        }
        else s

    -- Where the features cannot be read, the code raises after it has stored the session.
    unfoldable pub add_session : (Text → Text) → Text → Fields F → IdentityGraph F → IdentityGraph F
    unfolding extract_features build_connections update
    add_session hash_session_id session_id session s =
        let id = hash_session_id session_id in
        let stored = record s { sessions = update id session (λ old. session) s.sessions } in
        elim (extract_features session) [
          | none ↦ stored
          | some features ↦ build_connections id (record stored {
            session_features = update id features (λ old. features) s.session_features;
          })
        ]

-- The stack has its top at the head.
unfoldable pub push_unvisited : List Text → List Text → List Text → List Text
push_unvisited [] visited stack = stack
push_unvisited (n ∷ ns) visited stack =
    push_unvisited ns visited (if mem_text n visited then stack else n ∷ stack)

-- The loop of `get_session_cluster`, none when the fuel runs out. `cluster` holds what `visited`
-- does.
unfoldable pub explore : ℕ → Graph → List Text → List Text → Option (List Text)
unfolding push_unvisited neighbors
explore fuel g [] visited = some visited
explore zero g (current ∷ stack) visited = none
explore (suc fuel) g (current ∷ stack) visited = elim (mem_text current visited) [
  | true ↦ explore fuel g stack visited
  | false ↦
      explore fuel g (push_unvisited (neighbors current g) (current ∷ visited) stack)
        (current ∷ visited)
]

-- The edges of a graph, which bound the pushes.
unfoldable pub edges : Graph → ℕ
edges [] = 0
edges ((k, ns) ∷ g) = length ns + edges g

unfoldable pub get_session_cluster : (Text → Text) → Text → Graph → Option (List Text)
unfolding explore edges
get_session_cluster hash_session_id session_id g =
    explore (suc (edges g)) g (hash_session_id session_id ∷ []) []

unfoldable pub get_connected_sessions : (Text → Text) → Text → Graph → List Text
unfolding neighbors
get_connected_sessions hash_session_id session_id g = neighbors (hash_session_id session_id) g
