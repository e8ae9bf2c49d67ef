-- ===== src/Memory/Examples.antt =====
-- Timelines of two events on a short run of calls.
use true_presence_ese.Base.{
  ℕ, ◌≤◌, ◌≡◌, refl, ap, arith, Bool, true, Option, none, some, List, [], ◌∷◌, length,
}
use true_presence_ese.Base.{◌↔◌}
use true_presence_ese.Base.Text.{Text, codes, text_eq, mem_text}
use true_presence_ese.Float.{InUnit, min_f, max_f}
use true_presence_ese.Float.Fixed.{fixed, fixed-IsFloats}
use true_presence_ese.Memory.IdentityGraph.{
  Graph, new_identity_graph, add_session, extract_features, features_of, normalize_feature,
  build_connections, connect_similar, cosine_similarity, connect, add_edge, neighbors, explore,
  push_unvisited, edges, get_session_cluster,
}
use true_presence_ese.Memory.Symmetric.{IsSymmetric, add_sessions, add_sessions-IsSymmetric}
use true_presence_ese.Memory.Cluster.{Reaches, get_session_cluster-Reaches}
use true_presence_ese.Memory.Risk.{get_session_risk, scores}
use true_presence_ese.Memory.Scored.{IsScored}
use true_presence_ese.Memory.Rated.{get_session_risk-InUnit}
use true_presence_ese.Base.Assoc.{find, update}
use true_presence_ese.Json.{Value, num, obj, Fields, end, field, get_or}
use true_presence_ese.Memory.Timeline.{
  pos, drop, append_bounded, slice_from, by_session, of_session, of_count,
  resolve_session_and_event, stamp, push, touch, events_of, window, new_timeline, add_event,
}
use true_presence_ese.Memory.Deque.{last_n}
use true_presence_ese.Memory.History.{
  Call, adding, windowing, call, run, history, run-last_n, window-last_n,
}

abbrev every_true : Value ℕ → Bool
every_true v = true

abbrev no_text : Value ℕ → Text
no_text v = []

-- Three events of session a, one of session b, and a look at a.
abbrev calls : List (Call ℕ)
calls =
    adding 1 (by_session (codes "a")) (some end)
    ∷ adding 2 (by_session (codes "a")) (some end)
    ∷ adding 3 (by_session (codes "b")) (some end)
    ∷ adding 4 (by_session (codes "a")) (some end)
    ∷ windowing (of_session (codes "a")) none
    ∷ adding 5 (by_session (codes "a")) none
    ∷ []

abbrev at : ℕ → Fields ℕ
at now = field (codes "ts") (num now) end

program : Unit {0}
unfolding run call new_timeline add_event resolve_session_and_event stamp push touch events_of
    window find update append_bounded slice_from drop text_eq
program = tt

two_kept : events_of (codes "a") (run every_true no_text calls (new_timeline 2)) ≡ at 2 ∷ at 4 ∷ []
unfolding program
two_kept = refl

run-last_n_example :
    events_of (codes "a") (run every_true no_text calls (new_timeline 2))
    ≡ last_n 2 (history every_true no_text calls (λ id. []) (codes "a"))
run-last_n_example = run-last_n every_true no_text 2 calls (codes "a")

window-last_n_example :
    ((window
        (of_session (codes "a"))
        (some (pos 1))
        (run every_true no_text calls (new_timeline 2))).0
      ≡ last_n 1 (last_n 2 (history every_true no_text calls (λ id. []) (codes "a"))))
    × ((window (of_session (codes "a")) none (run every_true no_text calls (new_timeline 2))).0
        ≡ last_n 50 (last_n 2 (history every_true no_text calls (λ id. []) (codes "a"))))
    × ((window (of_count (pos 1)) none (run every_true no_text calls (new_timeline 2))).0
        ≡ last_n 1 (last_n 2 (history every_true no_text calls (λ id. []) (codes "default"))))
    × ((window
          (of_session (codes "a"))
          (some (pos 0))
          (run every_true no_text calls (new_timeline 2))).0
        ≡ last_n 2 (history every_true no_text calls (λ id. []) (codes "a")))
window-last_n_example = window-last_n every_true no_text 2 0 calls (codes "a")

-- A similarity that is always 1, under a hash that changes nothing.
abbrev all_alike : List ℕ → List ℕ → ℕ
all_alike xs ys = 10000

abbrev unit_norm : List ℕ → ℕ
unit_norm xs = 10000

abbrev plain_hash : Text → Text
plain_hash id = id

abbrev two_sessions : List (Text × Fields ℕ)
two_sessions = (codes "a", end) ∷ (codes "b", end) ∷ []

add_sessions-IsSymmetric_example :
    IsSymmetric
      (add_sessions fixed all_alike unit_norm plain_hash two_sessions
        (new_identity_graph fixed 7500)).graph
add_sessions-IsSymmetric_example =
    add_sessions-IsSymmetric fixed all_alike unit_norm plain_hash 7500 two_sessions

graph_program : Unit {0}
unfolding add_sessions new_identity_graph add_session extract_features features_of normalize_feature
    build_connections connect_similar cosine_similarity connect add_edge neighbors explore
    push_unvisited edges get_session_cluster mem_text text_eq find update get_or max_f min_f
graph_program = tt

abbrev pair : Graph
pair =
    (add_sessions fixed all_alike unit_norm plain_hash two_sessions
      (new_identity_graph fixed 7500)).graph

pair_connected : pair ≡ (codes "b", codes "a" ∷ []) ∷ (codes "a", codes "b" ∷ []) ∷ []
unfolding graph_program
pair_connected = refl

get_session_cluster-Reaches_example :
    (cluster : List Text) × (get_session_cluster plain_hash (codes "a") pair ≡ some cluster)
    × ((y : Text) → (mem_text y cluster ≡ true) ↔ Reaches pair (plain_hash (codes "a")) y)
get_session_cluster-Reaches_example = get_session_cluster-Reaches plain_hash (codes "a") pair

-- {"duration": 5000, "behavior": {"typing_speed": 0.3}}
abbrev session : Fields ℕ
session =
    field (codes "duration") (num 50000000)
      (field (codes "behavior") (obj (field (codes "typing_speed") (num 3000) end)) end)

-- Two sessions that the similarity connects, the second found to be a bot.
abbrev seen : ℕ → ℕ → Fields ℕ
seen p c =
    field (codes "detection")
      (obj (field (codes "bot_probability") (num p) (field (codes "confidence") (num c) end))) end

abbrev seen_sessions : List (Text × Fields ℕ)
seen_sessions = (codes "a", seen 2000 5000) ∷ (codes "b", seen 9000 10000) ∷ []

scored : (p c : ℕ) → InUnit fixed p → InUnit fixed c → IsScored fixed (seen p c)
unfolding scores get_or text_eq
scored p c hp hc = record {
  bot_probability = p;
  confidence = c;
  scored = refl;
  bot_InUnit = hp;
  confidence_InUnit = hc;
}

risk_of_b :
    get_session_risk fixed plain_hash (codes "b") (
      add_sessions fixed all_alike unit_norm plain_hash seen_sessions
        (new_identity_graph fixed 7500))
    ≡ some 5000
unfolding get_session_risk get_session_cluster add_sessions new_identity_graph get_or mem_text
risk_of_b = refl

abbrev size_of : Option (List Text) → ℕ
size_of none = 0
size_of (some ids) = length ids

two_in_cluster :
    (cluster : List Text)
    → get_session_cluster plain_hash
        (codes "b")
        (add_sessions fixed all_alike unit_norm plain_hash seen_sessions
          (new_identity_graph fixed 7500)).graph
      ≡ some cluster
    → length cluster ≤ 1000000
unfolding get_session_cluster add_sessions new_identity_graph get_or mem_text
two_in_cluster cluster e = let two : 2 ≡ length cluster = ap size_of e in omega (arith, two)

get_session_risk-InUnit_example :
    (risk : ℕ) × (get_session_risk fixed plain_hash (codes "b") (
        add_sessions fixed all_alike unit_norm plain_hash seen_sessions
          (new_identity_graph fixed 7500))
      ≡ some risk)
    × InUnit fixed risk
get_session_risk-InUnit_example =
    get_session_risk-InUnit fixed all_alike unit_norm fixed-IsFloats plain_hash 7500 seen_sessions
      (codes "b")
      (
        scored 2000 5000 (refl, refl) (refl, refl),
        (scored 9000 10000 (refl, refl) (refl, refl), tt),
      )
      two_in_cluster
