-- ===== src/Ensemble/Report.antt =====
-- `normalize_role_reports` of truepresence/ensemble/orchestrator.py with what it calls.
-- `text_of` is `str(value)` of a value that is no text, `parse_float` is `float(text)`, and
-- `fresh n` is the identifier that `uuid4` draws for the n-th report; none is an exception.

use true_presence_ese.Base.{ℕ, suc, Option, some, List, [], ◌∷◌, ◌++◌, map, if◌then◌else◌}
use true_presence_ese.Base.Text.{Text, codes, mem_text, show}
use true_presence_ese.Base.Steps.{◌>>=◌}
use true_presence_ese.Json.{
  Value, num, str, arr, nil, obj, Fields, end, field, get, get_or, items_list,
}
use true_presence_ese.Json.Dict.{set_field, items_of}
use true_presence_ese.Float.{Floats}
use true_presence_ese.Decision.Packet.{is_true}
use true_presence_ese.Privacy.Guard.{join_paths}
use true_presence_ese.Evidence.Values.{dict_of, list_of, to_float, or_else}

-- `list(dict.fromkeys(texts))`, from the texts that were seen so far.
unfoldable pub distinct_texts : List Text → List Text → List Text
unfolding mem_text
distinct_texts seen [] = seen
distinct_texts seen (t ∷ ts) = distinct_texts (if mem_text t seen then seen else seen ++ t ∷ []) ts

abbrev pub texts : {N : Type 0} → List Text → Value N
texts ts = arr (items_of (map (λ t. str t) ts))

module _ (o : Floats) (text_of : Value o.F → Text) where
  open o use {F, dec}

  -- `str(value)`
  abbrev pub str_of : Value F → Text
  str_of (str s) = s
  str_of v = text_of v

  -- `raw.get(key, []) or []`, gone through.
  abbrev pub listed : Text → Fields F → Option (List Text)
  listed key raw =
      if is_true o (get_or key (arr nil) raw)
      then (list_of (get_or key (arr nil) raw) >>= λ vs. some (map str_of vs))
      else some []

  unfoldable pub flatten_findings : Fields F → Option (List Text)
  unfolding distinct_texts is_true list_of get_or
  flatten_findings raw =
      let first =
        if is_true o (get (codes "finding") raw)
        then str_of (get (codes "finding") raw) ∷ []
        else [] in
      listed (codes "findings") raw >>= λ findings.
      listed (codes "threat_categories") raw >>= λ threats.
      some (distinct_texts [] (first ++ findings ++ threats))

  pub record Report : Type 0 where
    pub report_id : Value F
    pub role : Value F
    pub summary : Value F
    pub confidence : F
    pub human_probability : Value F
    pub findings : List Text
    pub metadata : Fields F

  abbrev pub summary_of : Value F → Fields F → List Text → Value F
  summary_of role raw findings = or_else o (get (codes "summary") raw) (
      or_else o (get (codes "finding") raw) (
        or_else o (str (join_paths findings))
          (str (str_of role ++ codes " completed without a structured summary."))))

module _ (o : Floats) (text_of : Value o.F → Text) (parse_float : Text → Option o.F) where
  open o use {F, dec}

  unfoldable pub normalize_single_report : Text → Value F → Fields F → Option (Report o text_of)
  unfolding flatten_findings set_field is_true get_or join_paths
  normalize_single_report fresh role raw = flatten_findings o text_of raw >>= λ findings.
      to_float o parse_float (get_or (codes "confidence") (num (dec 50)) raw) >>= λ confidence.
      dict_of (get_or (codes "metadata") (obj end) raw) >>= λ metadata. some (record {
        report_id =
            or_else o (get (codes "report_id") raw)
              (str (codes "report:" ++ str_of o text_of role ++ codes ":" ++ fresh));
        role = role;
        summary = summary_of o text_of role raw findings;
        confidence = confidence;
        human_probability = get (codes "human_probability") raw;
        findings = findings;
        metadata = set_field (codes "raw_role_output") (obj raw) metadata;
      })

  -- `dict(item) if isinstance(item, dict) else {"value": item}`
  abbrev raw_of : Value F → Fields F
  raw_of (obj fields) = fields
  raw_of v = field (codes "value") v end

  unfoldable pub reports_of_list :
      (ℕ → Text) → ℕ → List (Value F) → Option (List (Report o text_of))
  unfolding normalize_single_report show get_or is_true
  reports_of_list fresh index [] = some []
  reports_of_list fresh index (item ∷ items) =
      let rest = reports_of_list fresh (suc index) items in
      let role = or_else o (get (codes "role") (raw_of item)) (str (codes "role_" ++ show index)) in
      normalize_single_report (fresh index) role (raw_of item) >>= λ report.
      rest >>= λ reports. some (report ∷ reports)

  unfoldable pub reports_of_roles : (ℕ → Text) → ℕ → Fields F → Option (List (Report o text_of))
  unfolding normalize_single_report
  reports_of_roles fresh index end = some []
  reports_of_roles fresh index (field role raw roles) =
      let rest = reports_of_roles fresh (suc index) roles in
      dict_of raw >>= λ raw_output.
      normalize_single_report (fresh index) (str role) raw_output >>= λ report.
      rest >>= λ reports. some (report ∷ reports)

  -- A dictionary without a dictionary of roles is the output of one role.
  abbrev pub reports_of_dict : (ℕ → Text) → Fields F → Value F → Option (List (Report o text_of))
  reports_of_dict fresh result (obj roles) = reports_of_roles fresh 0 roles
  reports_of_dict fresh result v =
      if is_true o (obj result)
      then (normalize_single_report (fresh 0)
            (get_or (codes "role") (str (codes "ensemble")) result) result
          >>= λ report. some (report ∷ []))
      else some []

  unfoldable pub role_reports : (ℕ → Text) → Value F → Option (List (Report o text_of))
  unfolding reports_of_list reports_of_roles normalize_single_report is_true get_or
  role_reports fresh (arr items) = reports_of_list fresh 0 (items_list items)
  role_reports fresh (obj result) = reports_of_dict fresh result (get (codes "roles") result)
  role_reports fresh _ = some []
