-- ===== src/Decision/Innocent.antt =====
-- An event that `evaluate` of truepresence/decision/engine.py lets through.
use true_presence_ese.Base.{◌≡◌, ◌⊎◌, true, false, Option, some, List, Always}
use true_presence_ese.Base.Text.{Text, codes}
use true_presence_ese.Json.{Value, Fields, get, is_text}
use true_presence_ese.Json.Dict.{has_key, Lacks}
use true_presence_ese.Float.{Floats}
use true_presence_ese.Decision.Packet.{is_true}
use true_presence_ese.Decision.Tier.{is_hard_threat}
use true_presence_ese.Decision.Path.{Ensemble}
use true_presence_ese.Decision.Passed.{constant, IsUnhurried}
use true_presence_ese.Memory.Risk.{get_session_risk}
use true_presence_ese.Evidence.Values.{to_dict, list_of, merge_feature_sources}
use true_presence_ese.Evidence.Signals.{response_time}
use true_presence_ese.Decision.Lawful.{threats_in}
use true_presence_ese.Decision.Through.{is_clustered}

module _ (o : Floats) where
  open o use {F, dec, le}

  module _ (parse : Text → Option F) where
    -- A context that says nothing of what the event and the memory tell.
    pub record IsBare (context : Fields F) : Type 0 where
      pub no_timing : Lacks (codes "timing_features") context
      pub no_policy : Lacks (codes "policy_context") context
      pub no_risk : Lacks (codes "risk_context") context
      pub no_refs : Lacks (codes "identity_refs") context

    -- An event that nothing speaks against.
    pub record IsInnocent (hash : Text → Text) (ensemble : Ensemble o) (session_id : Text)
        (event : Fields F) : Type 0 where
      pub attested :
          is_true o (get (codes "invalid_attestation") (to_dict (get (codes "context") event)))
          ≡ false
      pub ordinary :
          is_text (codes "high_value_transaction") (get (codes "event_type") event) ≡ false
      pub timely :
          (has_key constant (merge_feature_sources o event) ≡ true)
          ⊎ IsUnhurried o parse (response_time o parse event)
      pub lawful :
          (vs : List (Value F))
          → list_of (threats_in o event) ≡ some vs
          → is_hard_threat o vs ≡ false
      pub unclustered :
          Always
            (λ g.
              Always
                (λ risk. is_clustered o hash session_id g risk ≡ false)
                (get_session_risk o hash session_id g))
            ensemble.identity_graph
