-- ===== src/Decision/EventExamples.antt =====
-- An event that truepresence/decision/engine.py lets through, over fixed-point numbers.
use true_presence_ese.Base.{ℕ, Option, none, some, [], ◌∷◌}
use true_presence_ese.Base.Text.{Text, codes}
use true_presence_ese.Json.{num, str, arr, cons, nil, obj, Fields, end, field}
use true_presence_ese.Float.Fixed.{fixed}
use true_presence_ese.Decision.Path.{Ensemble}
use true_presence_ese.Memory.IdentityGraph.{IdentityGraph, new_identity_graph}
use true_presence_ese.Memory.Symmetric.{add_sessions}

abbrev no_floats : Text → Option ℕ
no_floats t = none

abbrev same_id : Text → Text
same_id id = id

abbrev score_of : ℕ → Fields ℕ
score_of p =
    field (codes "detection")
      (obj (field (codes "bot_probability") (num p) (field (codes "confidence") (num 5000) end)))
      end

-- Two connected sessions of a low risk.
abbrev two_connected : IdentityGraph ℕ
two_connected =
    add_sessions fixed (λ x y. 10000) (λ x. 10000) same_id
      ((codes "a", score_of 1000) ∷ (codes "b", score_of 2000) ∷ []) (new_identity_graph fixed 7500)

-- {"human_probability": 0.9}
abbrev runtime : Ensemble fixed
runtime = record {
  memory = none;
  identity_graph = some two_connected;
  run = λ packet graph context tier. field (codes "human_probability") (num 9000) end ∷ [];
}

-- A message after 2500 ms, in which spam is found.
abbrev message : Fields ℕ
message = field (codes "event_type") (str (codes "message")) (
    field (codes "payload") (obj (field (codes "response_time_ms") (num 25000000) end)) (
      field (codes "threat_analysis")
        (obj (field (codes "threats_detected") (arr (cons (str (codes "spam")) nil)) end)) end))
