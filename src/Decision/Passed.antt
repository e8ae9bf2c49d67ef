-- ===== src/Decision/Passed.antt =====
-- What is true of an event that truepresence/decision/engine.py lets through.
use true_presence_ese.Base.{
  ◌≡◌, refl, ap, sym, subst, ◌⊎◌, inl, inr, Bool, true, false, not, ◌&&◌, ◌||◌, Option, some, List,
  [], ◌∷◌, arith, Bool-cases, if◌then◌else◌, Always,
}
use true_presence_ese.Base.Text.{Text, codes, text_eq, text_eq→eq}
use true_presence_ese.Base.Steps.{◌>>=◌, >>=-eq-some}
use true_presence_ese.Json.{Value, null, bool, num, Fields, end, get, get_or, is_text, is_none}
use true_presence_ese.Json.Dict.{
  set_field, set_default, has_key, Lacks, get_or-Lacks, get_or-set_field_same,
  get_or-set_field_other, has_key-set_field,
}
use true_presence_ese.Float.{Floats, lt}
use true_presence_ese.Decision.Packet.{is_true}
use true_presence_ese.Evidence.Values.{to_dict, to_float, merge_feature_sources}
use true_presence_ese.Evidence.Signals.{
  timing_keys, copy_missing, derive_timing_features, derive_policy_context, response_time,
  seconds_of,
}

abbrev pub constant : Text
constant = codes "constant_latency_pattern"

module _ (o : Floats) where
  open o use {F, dec, le}

  pub not_given : (key : Text) (d : Fields F) → Lacks key d → to_dict (get key d) ≡ end
  unfolding to_dict
  not_given key d h = ap to_dict (get_or-Lacks key null d h)

  module _ (event context : Fields F) where
    not_high :
        (b : Bool)
        → is_true o (
            get
              (codes "high_value_flow")
              (if b then set_default (codes "high_value_flow") (bool true) end else end))
          ≡ false
        → b ≡ false
    unfolding is_true get_or set_default set_field has_key
    not_high true h = cc
    not_high false h = refl

    -- A context without a policy makes a high-value transaction a high-value flow.
    pub ordinary_event :
        Lacks (codes "policy_context") context
        → is_true o (get (codes "high_value_flow") (derive_policy_context o event context)) ≡ false
        → is_text (codes "high_value_transaction") (get (codes "event_type") event) ≡ false
    unfolding derive_policy_context to_dict
    ordinary_event h c = not_high _ (
        subst
          (λ v.
            is_true o (
              get (codes "high_value_flow") (
                if is_text (codes "high_value_transaction") (get (codes "event_type") event)
                then set_default (codes "high_value_flow") (bool true) (to_dict v)
                else to_dict v))
            ≡ false)
          (get_or-Lacks (codes "policy_context") null context h) c)

  has_key-copied :
      (key k : Text) (merged d : Fields F)
      → has_key key
          (if has_key k merged && not (has_key k d) then set_field k (get k merged) d else d)
        ≡ true
      → (has_key key d ≡ true) ⊎ (has_key key merged ≡ true)
  has_key-copied key k merged d h = elim (Bool-cases (has_key k merged && not (has_key k d))) [
    | inr e ↦ inl (rw e at h)
    | inl e ↦ elim (Bool-cases (text_eq k key)) [
      | inl m ↦ inr (subst (λ z. has_key z merged ≡ true) (text_eq→eq k key m) (ground arith))
      | inr m ↦ inl (
          let g : has_key key (set_field k (get k merged) d) ≡ true = rw e at h in
          ground (arith, has_key-set_field k key (get k merged) d))
    ]
  ]

  has_key-copy_missing :
      (key : Text) (keys : List Text) (merged d : Fields F)
      → has_key key (copy_missing keys merged d) ≡ true
      → (has_key key d ≡ true) ⊎ (has_key key merged ≡ true)
  unfolding copy_missing
  has_key-copy_missing key [] merged d h = inl h
  has_key-copy_missing key (k ∷ keys) merged d h = elim (has_key-copy_missing key keys merged _ h) [
    | inl e ↦ has_key-copied key k merged d e
    | inr e ↦ inr e
  ]

  module _ (parse_float : Text → Option F) where
    -- The two steps of the timing features.
    abbrev pattern_step : Value F → Fields F → Option (Fields F)
    pattern_step t d =
        if is_none t || has_key constant d
        then some d
        else (to_float o parse_float t >>= λ x.
            some (set_field constant (bool (lt o (seconds_of o parse_float x) (dec 30))) d))

    abbrev relay_step : Value F → Fields F → Option (Fields F)
    relay_step similarity e =
        if has_key (codes "relay_risk") e || is_none similarity
        then some e
        else (to_float o parse_float similarity >>= λ x.
            some (set_field (codes "relay_risk") (num x) e))

    relay_step-constant :
        (similarity : Value F) (e timing : Fields F)
        → relay_step similarity e ≡ some timing
        → get constant timing ≡ get constant e
    unfolding text_eq
    relay_step-constant similarity e timing h =
        elim (Bool-cases (has_key (codes "relay_risk") e || is_none similarity)) [
          | inl b ↦ subst (λ z. Always (λ t. get constant t ≡ get constant e) z) (rw b at h) refl
          | inr b ↦
              let (x, read, same) =
                >>=-eq-some (to_float o parse_float similarity)
                  (λ x. some (set_field (codes "relay_risk") (num x) e)) (rw b at h) in
              subst (λ z. Always (λ t. get constant t ≡ get constant e) z) same
                (get_or-set_field_other (codes "relay_risk") constant (num x) null e refl)
        ]

    -- A response time that is no sign of a constant latency.
    abbrev pub IsUnhurried : Value F → Type 0
    IsUnhurried t =
        (is_none t ≡ true)
        ⊎ ((x : F) × (to_float o parse_float t ≡ some x)
            × (lt o (seconds_of o parse_float x) (dec 30) ≡ false))

    pattern_step-IsUnhurried :
        (t : Value F) (d e : Fields F)
        → pattern_step t d ≡ some e
        → is_true o (get constant e) ≡ false
        → (has_key constant d ≡ true) ⊎ IsUnhurried t
    unfolding is_true
    pattern_step-IsUnhurried t d e h c = elim (Bool-cases (is_none t || has_key constant d)) [
      | inl b ↦ elim (Bool-cases (is_none t)) [ inl n ↦ inr (inl n) | inr n ↦ inl (ground arith) ]
      | inr b ↦
          let (x, read, same) =
            >>=-eq-some (to_float o parse_float t)
              (λ x. some (set_field constant (bool (lt o (seconds_of o parse_float x) (dec 30))) d))
              (rw b at h) in
          inr (
            inr (
              x,
              read,
              subst (λ v. is_true o v ≡ false)
                  (get_or-set_field_same constant
                    (bool (lt o (seconds_of o parse_float x) (dec 30))) null d)
                  (subst (λ z. Always (λ d. is_true o (get constant d) ≡ false) z) (sym same) c),
            ))
    ]

    module _ (event context : Fields F) where
      -- A response time under 30 is found, unless the event itself says whether it is constant.
      pub timely_event :
          Lacks (codes "timing_features") context
          → (timing : Fields F) → derive_timing_features o parse_float event context ≡ some timing
          → is_true o (get constant timing) ≡ false
          → (has_key constant (merge_feature_sources o event) ≡ true)
            ⊎ IsUnhurried (response_time o parse_float event)
      unfolding derive_timing_features has_key
      timely_event h timing made c =
          let merged = merge_feature_sources o event in
          let given = to_dict (get (codes "timing_features") context) in
          let t = response_time o parse_float event in
          let (e, first, second) =
            >>=-eq-some (pattern_step t (copy_missing timing_keys merged given))
              (relay_step (get (codes "content_similarity") merged)) made in
          elim (pattern_step-IsUnhurried t (copy_missing timing_keys merged given) e first (
            subst (λ v. is_true o v ≡ false)
              (relay_step-constant (get (codes "content_similarity") merged) e timing second) c)) [
                | inr u ↦ inr u
                | inl k ↦ elim (has_key-copy_missing constant timing_keys merged given k) [
                  | inr m ↦ inl m
                  | inl m ↦ cc (rw (not_given (codes "timing_features") context h) at m)
                ]
              ]
