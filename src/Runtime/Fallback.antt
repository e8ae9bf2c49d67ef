-- ===== src/Runtime/Fallback.antt =====
-- The calls of `DistributedRuntime` without a connection keep the contract.
use true_presence_ese.Base.{
  ℕ, ◌≡◌, ◌∙◌, refl, ap, subst, none, List, [], ◌∷◌, Option-cases, inl, inr, Always,
}
use true_presence_ese.Base.Text.{Text}
use true_presence_ese.Base.Assoc.{find, update, remove}
use true_presence_ese.Json.{Value, null, num, arr, obj, nil, Fields}
use true_presence_ese.Json.Dict.{set_field, items_list-items_of}
use true_presence_ese.Float.{Floats}
use true_presence_ese.Runtime.Redis.{Redis}
use true_presence_ese.Runtime.Store.{
  session_key, events_key, DistributedRuntime, store_session, load_session, append_event,
  push_value, get_events, delete_session,
}
use true_presence_ese.Runtime.Sessions.{
  Call, storing, loading, appending, listing, deleting, setting, Sessions, no_sessions, value_of,
  fields_of, dated, promise, promises, run_call, run_calls, setting-storing,
}
use true_presence_ese.Runtime.InMemory.{
  IsFull, set_field-IsFull, Holds, put-Holds, append-Holds, delete-Holds,
}

module _ (o : Floats) (r : Redis o.F) (ttl : ℕ) where
  open o use {F}

  abbrev in_memory : List (Text × Value F) → DistributedRuntime o r
  in_memory m = record { ttl_seconds = ttl; redis_client = none; memory_store = m }

  load_session-Holds :
      (a : Sessions F) (m : List (Text × Value F)) (id : Text)
      → Holds o a m
      → load_session o r id (in_memory m) ≡ value_of (a.session_map id)
  unfolding load_session
  load_session-Holds a m id h = rw (h.sessions id) (elim (Option-cases (a.session_map id)) [
    | inl e ↦ rw e refl
    | inr (d, e) ↦ let f : IsFull o d = subst (Always (IsFull o)) e (h.full id) in rw e (rw f refl)
  ])

  -- What a call leaves and answers.
  Keeps : Call F → Sessions F → List (Text × Value F) → Type 0
  Keeps c a m =
      (m' : List (Text × Value F)) × (run_call o r c (in_memory m)
        ≡ (in_memory m', (promise c a).1))
      × Holds o (promise c a).0 m'

  storing-Keeps :
      (now : F) (id : Text) (d : Fields F) (a : Sessions F) (m : List (Text × Value F))
      → Holds o a m
      → Keeps (storing now id d) a m
  unfolding Keeps run_call promise store_session
  storing-Keeps now id d a m h = (
    update (session_key id) null (λ old. obj (dated "updated_at" now d)) m,
    refl,
    put-Holds o a m h id (dated "updated_at" now d) (set_field-IsFull o _ (num now) d),
  )

  run_call-Keeps :
      (c : Call F) (a : Sessions F) (m : List (Text × Value F)) → Holds o a m → Keeps c a m
  unfolding run_call promise append_event get_events delete_session Keeps
  run_call-Keeps (storing now id d) a m h = storing-Keeps now id d a m h
  run_call-Keeps (loading id) a m h = (m, rw (load_session-Holds a m id h) refl, h)
  run_call-Keeps (appending now id d) a m h = (
    update (events_key id) (arr nil) (push_value (obj (dated "timestamp" now d))) m,
    rw (h.events id) refl,
    append-Holds o a m h id (obj (dated "timestamp" now d)),
  )
  run_call-Keeps (listing id limit) a m h =
      (m, rw (h.events id) (rw (items_list-items_of (a.event_map id)) refl), h)
  run_call-Keeps (deleting id) a m h =
      (remove (events_key id) (remove (session_key id) m), refl, delete-Holds o a m h id)
  run_call-Keeps (setting now id key value) a m h =
      let stored =
        storing-Keeps now id (set_field key value (fields_of (a.session_map id))) a m h in
      (
        stored.0,
        setting-storing o r now id key value (a.session_map id) (in_memory m)
              (load_session-Holds a m id h)
            ∙ stored.1,
        stored.2,
      )

  run_calls-Holds :
      (cs : List (Call F)) (a : Sessions F) (m : List (Text × Value F))
      → Holds o a m
      → run_calls o r cs (in_memory m) ≡ promises cs a
  unfolding run_calls promises Keeps
  run_calls-Holds [] a m h = refl
  run_calls-Holds (c ∷ cs) a m h =
      let (m', e, h') = run_call-Keeps c a m h in
      rw e (ap (λ z. (promise c a).1 ∷ z) (run_calls-Holds cs (promise c a).0 m' h'))

  pub run_calls-no_sessions :
      (cs : List (Call F)) → run_calls o r cs (in_memory []) ≡ promises cs no_sessions
  unfolding find
  run_calls-no_sessions cs =
      run_calls-Holds cs no_sessions []
        (record { dict = tt; sessions = λ id. refl; full = λ id. tt; events = λ id. refl })
