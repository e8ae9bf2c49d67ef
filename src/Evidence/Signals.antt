-- ===== src/Evidence/Signals.antt =====
-- The `_derive_...` functions of truepresence/evidence/packet_builder.py. The set TIMING_KEYS is
-- gone through in the order of the source.

use true_presence_ese.Base.{
  ℕ, Bool, true, false, not, ◌&&◌, ◌||◌, Option, some, List, [], ◌∷◌, if◌then◌else◌,
}
use true_presence_ese.Base.Text.{Text, codes}
use true_presence_ese.Base.Steps.{◌>>=◌}
use true_presence_ese.Json.{
  Value, bool, num, str, arr, obj, Fields, end, field, get, get_or, is_none, is_text,
}
use true_presence_ese.Json.Dict.{merge, set_field, set_default, has_key, items_of}
use true_presence_ese.Float.{Floats, lt, whole, zero_f, one_f, min_f, max_f}
use true_presence_ese.Decision.Packet.{is_true}
use true_presence_ese.Memory.Risk.{as_number}
use true_presence_ese.Roles.Role.{either_holds}
use true_presence_ese.Evidence.Values.{
  to_dict, list_of, in_texts, is_bool, to_float, or_else, merge_feature_sources,
}

abbrev pub timing_keys : List Text
timing_keys =
    codes "response_time_ms"
    ∷ codes "response_time"
    ∷ codes "relay_risk"
    ∷ codes "constant_latency_pattern"
    ∷ codes "temporal_drift"
    ∷ codes "message_velocity"
    ∷ codes "avg_interval"
    ∷ codes "timing_consistency"
    ∷ []

module _ {F : Type 0} where
  -- The loop over TIMING_KEYS.
  unfoldable pub copy_missing : List Text → Fields F → Fields F → Fields F
  unfolding has_key set_field get_or
  copy_missing [] merged d = d
  copy_missing (key ∷ keys) merged d =
      copy_missing keys merged
        (if has_key key merged && not (has_key key d) then set_field key (get key merged) d else d)

  -- `for key, value in merged.items(): d.setdefault(key, value)`
  unfoldable pub default_all : Fields F → Fields F → Fields F
  unfolding set_default
  default_all end d = d
  default_all (field key value merged) d = default_all merged (set_default key value d)

module _ (o : Floats) where
  open o use {F, dec, le}

  -- `value >= n`, which raises for a value that is no number.
  abbrev pub at_least : ℕ → Value F → Option Bool
  at_least n v = as_number o v >>= λ x. some (le (dec n) x)

  unfoldable pub derive_behavioral_features : Fields F → Fields F → Option (Fields F)
  unfolding to_dict merge_feature_sources default_all has_key get_or set_field is_true
  derive_behavioral_features event context =
      let merged = merge_feature_sources o event in
      let d = default_all merged (to_dict (get (codes "behavioral_features") context)) in
      let pattern =
        either_holds (at_least 70 (get_or (codes "ai_mediation") (num (dec 0)) merged)) (
          either_holds (at_least 5000 (get_or (codes "message_velocity") (num (dec 0)) merged))
            (at_least 90 (get_or (codes "content_similarity") (num (dec 0)) merged))) in
      let fingerprint =
        is_true o (get_or (codes "known_automation_fingerprint") (bool false) context) in
      (if has_key (codes "automation_pattern") d
        then some d
        else (pattern >>= λ b. some (set_field (codes "automation_pattern") (bool b) d)))
      >>= λ e. some (
          if has_key (codes "known_automation_fingerprint") e
          then e
          else set_field (codes "known_automation_fingerprint") (bool fingerprint) e)

  unfoldable pub derive_challenge_data : Fields F → Fields F → Fields F
  unfolding to_dict merge has_key get_or set_field is_true
  derive_challenge_data event context =
      let raw =
        or_else o (get (codes "challenge_result") event) (get (codes "challenge_response") event) in
      let given = to_dict (get (codes "challenge_data") context) in
      let d = if is_true o raw then merge given (to_dict raw) else given in
      if has_key (codes "status") d
      then d
      else if is_bool true (get (codes "verified") d)
      then set_field (codes "status") (str (codes "passed")) d
      else if is_bool false (get (codes "verified") d)
      then set_field (codes "status") (str (codes "failed")) d
      else if is_true o (obj d)
      then set_field (codes "status") (str (codes "submitted")) d
      else d

  unfoldable pub derive_identity_refs : Text → Fields F → Fields F
  unfolding to_dict set_default get_or
  derive_identity_refs session_id context =
      set_default (codes "session_id") (str session_id)
        (to_dict (get (codes "identity_refs") context))

  unfoldable pub derive_policy_context : Fields F → Fields F → Fields F
  unfolding to_dict set_default get_or
  derive_policy_context event context =
      let d = to_dict (get (codes "policy_context") context) in
      if is_text (codes "high_value_transaction") (get (codes "event_type") event)
      then set_default (codes "high_value_flow") (bool true) d
      else d

  unfoldable pub derive_risk_context : Fields F → Fields F → Option (Fields F)
  unfolding to_dict set_default set_field has_key get_or list_of is_true
  derive_risk_context event context =
      let given = to_dict (get (codes "risk_context") context) in
      let d =
        if has_key (codes "event_type") event && not (has_key (codes "event_type") given)
        then set_field (codes "event_type") (get (codes "event_type") event) given
        else given in
      let threats =
        get (codes "threats_detected") (to_dict (get (codes "threat_analysis") event)) in
      if is_true o threats
      then (list_of threats >>= λ vs.
          some (set_default (codes "threats_detected") (arr (items_of vs)) d))
      else some d

module _ (o : Floats) (parse_float : Text → Option o.F) where
  open o use {F, dec, le, add, mul, div}

  -- The response time in seconds: above 10 it is read as milliseconds.
  abbrev pub seconds_of : F → F
  seconds_of t = if lt o (whole o 10) t then div t (whole o 1000) else t

  -- `payload.get("response_time_ms") or payload.get("response_time")`
  abbrev pub response_time : Fields F → Value F
  response_time event =
      let payload = to_dict (get (codes "payload") event) in
      or_else o (get (codes "response_time_ms") payload) (get (codes "response_time") payload)

  unfoldable pub derive_timing_features : Fields F → Fields F → Option (Fields F)
  unfolding to_dict merge_feature_sources copy_missing has_key get_or set_field is_true
  derive_timing_features event context =
      let merged = merge_feature_sources o event in
      let d = copy_missing timing_keys merged (to_dict (get (codes "timing_features") context)) in
      let t = response_time event in
      let similarity = get (codes "content_similarity") merged in
      (if is_none t || has_key (codes "constant_latency_pattern") d
        then some d
        else (to_float o parse_float t >>= λ x.
            some (
              set_field (codes "constant_latency_pattern") (bool (lt o (seconds_of x) (dec 30)))
                d)))
      >>= λ e.
          if has_key (codes "relay_risk") e || is_none similarity
          then some e
          else (to_float o parse_float similarity >>= λ x.
              some (set_field (codes "relay_risk") (num x) e))

  -- The relay risk of a response time.
  abbrev pub response_risk : Value F → Option F
  response_risk t =
      if is_none t
      then some (dec 10)
      else (to_float o parse_float t >>= λ x. some (
          if lt o (seconds_of x) (dec 30)
          then dec 90
          else if lt o (whole o 8) (seconds_of x)
          then dec 70
          else dec 30))

  -- How direct an interaction of this type is.
  abbrev pub directness_of : Value F → Option F
  directness_of event_type =
      in_texts (codes "cursor_move" ∷ codes "key_timing" ∷ codes "click" ∷ []) event_type
      >>= λ direct.
          if direct
          then some (dec 80)
          else (in_texts (codes "message" ∷ codes "member_join" ∷ codes "member_update" ∷ [])
                event_type
              >>= λ chat. some (if chat then dec 45 else dec 20))

  pub record DefaultSignals : Type 0 where
    pub liveness : F
    pub ai_mediation : F
    pub relay_risk : F
    pub deterministic_policy_violation : F

  unfoldable pub derive_default_signals : Fields F → Fields F → Option DefaultSignals
  unfolding to_dict merge_feature_sources in_texts get_or min_f max_f is_true
  derive_default_signals event challenge_data =
      let context = to_dict (get (codes "context") event) in
      let payload = to_dict (get (codes "payload") event) in
      let analysis = to_dict (get (codes "threat_analysis") event) in
      let event_type = get (codes "event_type") event in
      let verified =
        if is_text (codes "passed") (get (codes "status") challenge_data)
        then one_f o
        else zero_f o in
      let pasted =
        is_true o (get (codes "pasted") payload)
        || is_true o (get (codes "paste") payload)
        || is_true o (get (codes "is_paste") payload) in
      let mediation = if pasted then dec 75 else dec 10 in
      directness_of event_type >>= λ interaction. response_risk (response_time event) >>= λ risk.
      to_float o parse_float (
        or_else o
          (get_or (codes "content_similarity") (num (dec 0)) (merge_feature_sources o event))
          (num (dec 0)))
      >>= λ similarity. some (record {
        liveness = min_f o (one_f o) (
            add (if is_true o (get (codes "is_bot") context) then dec 5 else interaction)
              (mul (dec 20) verified));
        ai_mediation =
            if is_text (codes "clipboard") event_type
            then max_f o mediation (dec 60)
            else mediation;
        relay_risk = max_f o risk similarity;
        deterministic_policy_violation =
            if is_true o (get (codes "threats_detected") analysis) then one_f o else zero_f o;
      })
