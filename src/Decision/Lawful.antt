-- ===== src/Decision/Lawful.antt =====
-- The threats of an event that truepresence/decision/engine.py lets through.
use true_presence_ese.Base.{
  ◌≡◌, refl, sym, subst, inl, inr, Bool, true, false, not, ◌&&◌, none, some, List, [], ◌∷◌,
  Bool-cases, if◌then◌else◌, Always,
}
use true_presence_ese.Base.Text.{codes, text_eq}
use true_presence_ese.Json.{
  Value, null, bool, num, str, arr, nil, cons, obj, Fields, end, field, get, get_or,
}
use true_presence_ese.Json.Dict.{
  set_field, set_default, has_key, Lacks, set_field-Lacks, get_or-set_default-Lacks, items_of,
  items_list-items_of,
}
use true_presence_ese.Float.{Floats}
use true_presence_ese.Decision.Packet.{is_true, as_set}
use true_presence_ese.Decision.Tier.{is_hard_threat}
use true_presence_ese.Decision.Passed.{not_given}
use true_presence_ese.Evidence.Values.{to_dict, list_of}
use true_presence_ese.Evidence.Signals.{derive_risk_context}

module _ (o : Floats) where
  open o use {F, dec, le}

  -- The threats that an event's analysis has found.
  abbrev pub threats_in : Fields F → Value F
  threats_in event = get (codes "threats_detected") (to_dict (get (codes "threat_analysis") event))

  falsy-lawful :
      (v : Value F) (vs : List (Value F))
      → is_true o v ≡ false
      → list_of v ≡ some vs
      → is_hard_threat o vs ≡ false
  unfolding is_true list_of is_hard_threat
  falsy-lawful null vs t h = cc
  falsy-lawful (bool b) vs t h = cc
  falsy-lawful (num x) vs t h = cc
  falsy-lawful (str []) vs t h = subst (Always (λ vs. is_hard_threat o vs ≡ false)) h refl
  falsy-lawful (str (c ∷ s)) vs t h = cc
  falsy-lawful (arr nil) vs t h = subst (Always (λ vs. is_hard_threat o vs ≡ false)) h refl
  falsy-lawful (arr (cons v items)) vs t h = cc
  falsy-lawful (obj end) vs t h = subst (Always (λ vs. is_hard_threat o vs ≡ false)) h refl
  falsy-lawful (obj (field k v fields)) vs t h = cc

  as_set-arr : (vs ts : List (Value F)) → as_set o (arr (items_of vs)) ≡ some ts → vs ≡ ts
  unfolding as_set
  as_set-arr vs ts h = chosen _ (rw (items_list-items_of vs) at h)
    where
      chosen : (b : Bool) → (if b then some vs else none) ≡ some ts → vs ≡ ts
      chosen true h = cc
      chosen false h = cc

  module _ (event context : Fields F) where
    found_threats :
        (vs ts : List (Value F)) (given risk : Fields F)
        → Lacks (codes "threats_detected") given
        → set_default (codes "threats_detected") (arr (items_of vs)) given ≡ risk
        → as_set o (get_or (codes "threats_detected") (arr nil) risk) ≡ some ts
        → vs ≡ ts
    found_threats vs ts given risk n made s = as_set-arr vs ts (
        rw
          (
            sym made,
            get_or-set_default-Lacks (codes "threats_detected") (arr (items_of vs)) (arr nil) given
                n,
          )
          at s)

    -- What the context gives of the risk before the threats.
    abbrev given_risk : Fields F → Fields F
    given_risk given =
        if has_key (codes "event_type") event && not (has_key (codes "event_type") given)
        then set_field (codes "event_type") (get (codes "event_type") event) given
        else given

    given_risk-Lacks :
        (given : Fields F)
        → Lacks (codes "threats_detected") given
        → Lacks (codes "threats_detected") (given_risk given)
    unfolding text_eq
    given_risk-Lacks given n =
        elim (Bool-cases
          (has_key (codes "event_type") event && not (has_key (codes "event_type") given))) [
            | inl b ↦
                rw b
                  (set_field-Lacks (codes "event_type") (codes "threats_detected") _ given refl n)
            | inr b ↦ rw b n
          ]

    derived_risk :
        (risk : Fields F) (vs : List (Value F))
        → derive_risk_context o event context ≡ some risk
        → is_true o (threats_in event) ≡ true
        → list_of (threats_in event) ≡ some vs
        → set_default
            (codes "threats_detected")
            (arr (items_of vs))
            (given_risk (to_dict (get (codes "risk_context") context)))
          ≡ risk
    unfolding derive_risk_context
    derived_risk risk vs made t listed =
        subst
          (Always (λ r.
            set_default (codes "threats_detected") (arr (items_of vs))
              (given_risk (to_dict (get (codes "risk_context") context)))
            ≡ r))
          (rw (t, listed) at made) refl

    pub lawful_event :
        Lacks (codes "risk_context") context
        → (risk : Fields F) → derive_risk_context o event context ≡ some risk
        → (ts : List (Value F))
        → as_set o (get_or (codes "threats_detected") (arr nil) risk) ≡ some ts
        → is_hard_threat o ts ≡ false
        → (vs : List (Value F)) → list_of (threats_in event) ≡ some vs
        → is_hard_threat o vs ≡ false
    unfolding derive_risk_context has_key
    lawful_event h risk made ts s hard vs listed =
        elim (Bool-cases (is_true o (threats_in event))) [
          | inr t ↦ falsy-lawful (threats_in event) vs t listed
          | inl t ↦
              let given = given_risk (to_dict (get (codes "risk_context") context)) in
              let vs_is_ts : vs ≡ ts =
                found_threats vs ts given risk
                  (given_risk-Lacks (to_dict (get (codes "risk_context") context))
                    (rw (not_given o (codes "risk_context") context h) refl))
                  (derived_risk risk vs made t listed) s in
              subst (λ z. is_hard_threat o z ≡ false) (sym vs_is_ts) hard
        ]
