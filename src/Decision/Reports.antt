-- ===== src/Decision/Reports.antt =====
-- What truepresence/decision/synthesizer.py reads from the role reports.

use true_presence_ese.Base.{Option, none, some, List, [], ◌∷◌, length, if◌then◌else◌}
use true_presence_ese.Base.Text.{Text, codes}
use true_presence_ese.Json.{Value, bool, num, str, obj, Fields, end, get, get_or, is_none}
use true_presence_ese.Float.{Floats, whole, zero_f, one_f, max_f}

-- `parse_float` is `float(text)`, none where it raises a ValueError.
module _ (o : Floats) (parse_float : Text → Option o.F) where
  open o use {F, dec, le, add, sub, div}

  unfoldable pub coerce_float : Value F → F → F
  coerce_float (num x) default = x
  coerce_float (bool b) default = if b then one_f o else zero_f o
  coerce_float (str s) default = elim (parse_float s) [ none ↦ default | some x ↦ x ]
  coerce_float _ default = default

  unfoldable pub sum_from : F → List F → F
  sum_from total [] = total
  sum_from total (x ∷ values) = sum_from (add total x) values

  unfoldable pub average : List F → F → F
  unfolding sum_from
  average [] default = default
  average (x ∷ values) default =
      div (sum_from (zero_f o) (x ∷ values)) (whole o (length (x ∷ values)))

  -- `[_coerce_float(report.get(key)) for report in reports if report.get(key) is not None]`
  unfoldable pub reported : Text → List (Fields F) → List F
  unfolding coerce_float
  reported key [] = []
  reported key (report ∷ reports) =
      let rest = reported key reports in
      if is_none (get key report) then rest else coerce_float (get key report) (zero_f o) ∷ rest

  -- `metadata.get("disagreement_score")` as a float; none for a value without `get`.
  unfoldable pub metadata_score : Value F → Option F
  unfolding coerce_float
  metadata_score (obj metadata) =
      some (coerce_float (get (codes "disagreement_score") metadata) (zero_f o))
  metadata_score _ = none

  unfoldable pub disagreement_from : F → List (Fields F) → Option F
  unfolding metadata_score
  disagreement_from disagreement [] = some disagreement
  disagreement_from disagreement (report ∷ reports) =
      elim (metadata_score (get_or (codes "metadata") (obj end) report)) [
        | none ↦ none
        | some score ↦ disagreement_from (max_f o disagreement score) reports
      ]

  unfoldable pub human_probability_of : List (Fields F) → F
  unfolding average reported
  human_probability_of reports = average (reported (codes "human_probability") reports) (dec 50)

  unfoldable pub initial_confidence : List (Fields F) → F
  unfolding average reported
  initial_confidence reports =
      max_f o (dec 50) (average (reported (codes "confidence") reports) (dec 50))
