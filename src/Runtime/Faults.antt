-- ===== src/Runtime/Faults.antt =====
-- `DistributedRuntime` of truepresence/runtime/distributed.py on a server that refuses, and the
-- count of the sessions in the memory.
use true_presence_ese.Base.{
  ℕ, ◌+◌, ◌&&◌, not, true, List, ◌∷◌, length, arith, ap, sym, subst, ◌≡◌, refl, ◌∙◌, Bool, false,
  none, some, [], if◌then◌else◌, Bool-cases, inl, inr,
}
use true_presence_ese.Base.Text.{
  Text, codes, starts_with, contains, text_eq, text_eq→eq, text_eq_refl,
}
use true_presence_ese.Base.Assoc.{update}
use true_presence_ese.Json.{Value, null, num, obj, arr, nil, Fields, end}
use true_presence_ese.Json.Dict.{set_field}
use true_presence_ese.Float.{Floats}
use true_presence_ese.Memory.Risk.{has_entry}
use true_presence_ese.Memory.Timeline.{ℤ}
use true_presence_ese.Runtime.Redis.{Redis}
use true_presence_ese.Runtime.Store.{
  events_key, DistributedRuntime, append_event, get_session_count, store_session, load_session,
  get_events, delete_session, update_session_field, health_check, unhealthy, keys_with, push_value,
}
use true_presence_ese.Runtime.Sessions.{
  Call, storing, loading, appending, listing, deleting, setting, Answer, did, found, listed,
  run_call, setting-storing,
}

contains-events_key :
    (id : Text) → contains (events_key id) (codes "session:") ≡ contains id (codes "session:")
unfolding contains starts_with
contains-events_key id = refl

text_eq_sym : (s t : Text) → text_eq s t ≡ text_eq t s
text_eq_sym s t = elim (Bool-cases (text_eq s t)) [
  | inl e ↦ e ∙ sym (rw (text_eq→eq s t e) (text_eq_refl t))
  | inr e ↦ elim (Bool-cases (text_eq t s)) [
    | inl f ↦ cc (subst (λ z. text_eq z t ≡ true) (text_eq→eq t s f) (text_eq_refl t))
    | inr f ↦ e ∙ sym f
  ]
]

-- Every command raises.
pub record Refuses {N : Type 0} (r : Redis N) (s : r.Server) : Type 0 where
  pub setex : (k : Text) (ttl : ℕ) (w : r.Written) → r.setex k ttl w s ≡ none
  pub get : (k : Text) → r.get k s ≡ none
  pub rpush : (k : Text) (w : r.Written) → r.rpush k w s ≡ none
  pub lrange : (k : Text) (limit : ℤ) → r.lrange k limit s ≡ none
  pub delete : (k j : Text) → r.delete k j s ≡ none
  pub scan_iter : (prefix : Text) → r.scan_iter prefix s ≡ none
  pub redis_version : r.redis_version s ≡ none

-- What a call answers then.
abbrev pub refusal : {F : Type 0} → Call F → Answer F
refusal (storing now id d) = did false
refusal (loading id) = found null
refusal (appending now id d) = did false
refusal (listing id limit) = listed []
refusal (deleting id) = did false
refusal (setting now id key value) = did false

module _ (o : Floats) (r : Redis o.F) where
  open o use {F}

  counted_keys :
      (test : Text → Bool) (key : Text) (value : Value F) (f : Value F → Value F)
      (d : List (Text × Value F))
      → length (keys_with test (update key value f d))
        ≡ (length (keys_with test d) + (if not (has_entry key d) && test key then 1 else 0))
  unfolding update
  counted_keys test key value f [] = elim (Bool-cases (test key)) [
    | inl e ↦ rw e refl
    | inr e ↦ rw e refl
  ]
  counted_keys test key value f ((k, v) ∷ d) = elim (Bool-cases (text_eq k key)) [
    | inl e ↦ let e' : text_eq key k ≡ true = text_eq_sym key k ∙ e in rw e (rw e' (omega arith))
    | inr e ↦
        let e' : text_eq key k ≡ false = text_eq_sym key k ∙ e in
        let more = counted_keys test key value f d in
        rw e (
          rw e'
            (elim (Bool-cases (test k)) [ inl t ↦ rw t (omega (arith, more)) | inr t ↦ rw t more ]))
  ]

  -- In the memory, whatever it holds, an event raises the count of the sessions by one when it is
  -- the first of its session and the session's identifier contains "session:", and leaves it
  -- otherwise.
  pub get_session_count-append_event :
      (rt : DistributedRuntime o r) (now : F) (id : Text) (event : Fields F)
      → (n : ℕ) × (get_session_count o r (record rt { redis_client = none }) ≡ some n)
        × (get_session_count o r
              (append_event o r now id event (record rt { redis_client = none })).0
            ≡ some (
                n
                + (if not (has_entry (events_key id) rt.memory_store)
                      && contains id (codes "session:")
                    then 1
                    else 0)))
  unfolding get_session_count append_event
  get_session_count-append_event rt now id event = (
    length (keys_with (λ k. contains k (codes "session:")) rt.memory_store),
    refl,
    ap (λ n. some n)
        (counted_keys (λ k. contains k (codes "session:")) (events_key id) (arr nil)
            (push_value (obj (set_field (codes "timestamp") (num now) event))) rt.memory_store
          ∙ ap
              (λ b.
                length (keys_with (λ k. contains k (codes "session:")) rt.memory_store)
                + (if not (has_entry (events_key id) rt.memory_store) && b then 1 else 0))
              (contains-events_key id)),
  )

  module _ (rt : DistributedRuntime o r) (s : r.Server) (h : Refuses r s) where
    abbrev refused_by : DistributedRuntime o r
    refused_by = record rt { redis_client = some s }

    load_session-refused : (id : Text) → load_session o r id refused_by ≡ null
    unfolding load_session
    load_session-refused id = rw (h.get _) refl

    storing-refused :
        (now : F) (id : Text) (d : Fields F)
        → run_call o r (storing now id d) refused_by ≡ (refused_by, did false)
    unfolding run_call store_session
    storing-refused now id d = rw (h.setex _ _ _) refl

    -- On a server of which every command raises, a call that writes answers False, a load None, a
    -- list of events is empty, and none of them raises or changes the store; nor does an update with
    -- a lifetime of its own, which answers False. The health check answers that the store is
    -- unhealthy. The count of the sessions is the only call that raises.
    pub run_call-refusal :
        ((c : Call F)
          → run_call o r c (record rt { redis_client = some s })
            ≡ (record rt { redis_client = some s }, refusal c))
        × ((now : F) (id key : Text) (value : Value F) (ttl : ℕ)
            → update_session_field o r now id key value
                (some ttl)
                (record rt { redis_client = some s })
              ≡ some (record rt { redis_client = some s }, false))
        × (health_check o r (record rt { redis_client = some s }) ≡ unhealthy)
        × (get_session_count o r (record rt { redis_client = some s }) ≡ none)
    unfolding run_call append_event get_events delete_session update_session_field health_check
        get_session_count
    run_call-refusal = (
      call_refused,
      λ now id key value ttl. rw (load_session-refused id) (rw (h.setex _ _ _) refl),
      rw h.redis_version refl,
      rw (h.scan_iter _) refl,
    )
      where
        call_refused :
            (c : Call F)
            → run_call o r c (record rt { redis_client = some s })
              ≡ (record rt { redis_client = some s }, refusal c)
        call_refused (storing now id d) = storing-refused now id d
        call_refused (loading id) = rw (load_session-refused id) refl
        call_refused (appending now id d) = rw (h.rpush _ _) refl
        call_refused (listing id limit) = rw (h.lrange _ _) refl
        call_refused (deleting id) = rw (h.delete _ _) refl
        call_refused (setting now id key value) =
            setting-storing o r now id key value none refused_by (load_session-refused id)
            ∙ storing-refused now id (set_field key value end)
