-- ===== src/Memory/Risk.antt =====
-- `get_session_risk` and `get_session_info` of truepresence/memory/identity_graph.py. Python goes
-- through the set of a cluster in an order of its own; here it is the order of the list.
use true_presence_ese.Base.{
  ℕ, ◌+◌, Bool, Option, none, some, List, [], ◌∷◌, any, length, ltb, if◌then◌else◌,
}
use true_presence_ese.Base.Text.{Text, codes, text_eq}
use true_presence_ese.Base.Assoc.{find}
use true_presence_ese.Json.{Value, bool, num, obj, Fields, end, get_or}
use true_presence_ese.Float.{Floats, lt, whole, zero_f, one_f, min_f}
use true_presence_ese.Memory.IdentityGraph.{IdentityGraph, as_dict, get_session_cluster}

-- `id in d`
abbrev pub has_entry : {V : Type 0} → Text → List (Text × V) → Bool
has_entry id d = any (λ e. text_eq id e.0) d

module _ (o : Floats) where
  open o use {F, dec, add, mul, div}

  -- A value that Python can multiply, none where it raises.
  abbrev pub as_number : Value F → Option F
  as_number (num x) = some x
  as_number (bool b) = some (if b then one_f o else zero_f o)
  as_number _ = none

  abbrev pub both : Option F → Option F → Option (F × F)
  both (some p) (some c) = some (p, c)
  both _ _ = none

  abbrev pub detection_scores : Option (Fields F) → Option (F × F)
  detection_scores none = none
  detection_scores (some detection) =
      both (as_number (get_or (codes "bot_probability") (num (dec 50)) detection))
        (as_number (get_or (codes "confidence") (num (dec 50)) detection))

  -- The probability of a bot and its confidence.
  unfoldable pub scores : Fields F → Option (F × F)
  scores session = detection_scores (as_dict o (get_or (codes "detection") (obj end) session))

  -- `self.sessions[id]`, none where the key is missing and the code raises.
  unfoldable pub session_at : Text → List (Text × Fields F) → Option (Fields F)
  unfolding find text_eq
  session_at id sessions = if has_entry id sessions then some (find id end sessions) else none

  abbrev pub scores_at : Option (Fields F) → Option (F × F)
  scores_at none = none
  scores_at (some session) = scores session

  -- The loop over the cluster, with `total_risk` and `bot_count`.
  unfoldable pub sum_risk : List (Text × Fields F) → List Text → F → ℕ → Option (F × ℕ)
  unfolding scores session_at
  sum_risk sessions [] total_risk bot_count = some (total_risk, bot_count)
  sum_risk sessions (id ∷ ids) total_risk bot_count = elim (scores_at (session_at id sessions)) [
    | none ↦ none
    | some (p, c) ↦
        sum_risk sessions ids (add total_risk (mul p c))
          (if lt o (dec 70) p then bot_count + 1 else bot_count)
  ]

  unfoldable pub final_risk : ℕ → F × ℕ → F
  unfolding min_f
  final_risk cluster_size (total_risk, bot_count) =
      let avg_risk = div total_risk (whole o cluster_size) in
      if ltb 1 bot_count
      then min_f o
          (add avg_risk (min_f o (div (whole o bot_count) (whole o cluster_size)) (dec 80)))
          (one_f o)
      else avg_risk

  abbrev pub risk_of_sum : ℕ → Option (F × ℕ) → Option F
  risk_of_sum cluster_size none = none
  risk_of_sum cluster_size (some sum) = some (final_risk cluster_size sum)

  abbrev pub cluster_risk : List (Text × Fields F) → Option (List Text) → Option F
  cluster_risk sessions none = none
  cluster_risk sessions (some []) = some (dec 50)
  cluster_risk sessions (some (id ∷ ids)) =
      risk_of_sum (length (id ∷ ids)) (sum_risk sessions (id ∷ ids) (zero_f o) 0)

  -- None where the code raises.
  unfoldable pub get_session_risk : (Text → Text) → Text → IdentityGraph F → Option F
  unfolding get_session_cluster sum_risk final_risk
  get_session_risk hash_session_id session_id s =
      if has_entry (hash_session_id session_id) s.sessions
      then cluster_risk s.sessions (get_session_cluster hash_session_id session_id s.graph)
      else some (dec 50)

  unfoldable pub get_session_info : (Text → Text) → Text → IdentityGraph F → Option (Fields F)
  unfolding session_at
  get_session_info hash_session_id session_id s = session_at (hash_session_id session_id) s.sessions
