-- ===== src/Runtime/Connected.antt =====
-- The calls of `DistributedRuntime` on a Redis server that answers keep the contract, as those
-- on the memory do.
use true_presence_ese.Base.{ℕ, suc, ◌≡◌, ◌∙◌, refl, ap, Option, none, some, List, [], ◌∷◌, map}
use true_presence_ese.Base.Text.{Text}
use true_presence_ese.Json.{Value, obj, Fields}
use true_presence_ese.Json.Dict.{set_field}
use true_presence_ese.Float.{Floats}
use true_presence_ese.Memory.Timeline.{ℤ, slice_from}
use true_presence_ese.Runtime.Redis.{Redis, IsRedis, nothing, elements}
use true_presence_ese.Runtime.Store.{
  session_key, events_key, DistributedRuntime, new_runtime, store_session, load_session,
  append_event, loads_all, or_no_events, get_events, delete_session,
}
use true_presence_ese.Runtime.Sessions.{
  Call, storing, loading, appending, listing, deleting, setting, Sessions, no_sessions, value_of,
  fields_of, dated, promise, promises, run_call, run_calls, setting-storing,
}
use true_presence_ese.Runtime.OnRedis.{
  slice_from-map, loads_all-dumps, loaded-written, Mirrors, put-Mirrors, append-Mirrors,
  delete-Mirrors,
}
use true_presence_ese.Runtime.Fallback.{run_calls-no_sessions}

module _ (o : Floats) (r : Redis o.F) (l : IsRedis r) (ttl : ℕ) (m : List (Text × Value o.F)) where
  open o use {F}
  open r use {Server, Written, dumps}

  abbrev on_server : Server → DistributedRuntime o r
  on_server s = record { ttl_seconds = suc ttl; redis_client = some s; memory_store = m }

  module _ (a : Sessions F) (s : Server) (h : Mirrors o r l a s) where
    load_session-Mirrors :
        (id : Text) → load_session o r id (on_server s) ≡ value_of (a.session_map id)
    unfolding load_session
    load_session-Mirrors id =
        rw (l.get_lem (session_key id) s)
          (rw (h.sessions id) (loaded-written o r l (a.session_map id)))

    get_events-Mirrors :
        (id : Text) (limit : ℤ)
        → get_events o r id limit (on_server s) ≡ slice_from limit (a.event_map id)
    unfolding get_events
    get_events-Mirrors id limit =
        rw (l.lrange_lem (events_key id) limit s (map dumps (a.event_map id)) (h.events id)) (
          ap (λ z. or_no_events o r (loads_all o r z)) (slice_from-map dumps limit (a.event_map id))
          ∙ ap (or_no_events o r) (loads_all-dumps o r l (slice_from limit (a.event_map id))))

    -- What a call leaves and answers.
    Keeps : Call F → Type 0
    Keeps c =
        (s' : Server) × (run_call o r c (on_server s) ≡ (on_server s', (promise c a).1))
        × Mirrors o r l (promise c a).0 s'

    storing-Keeps : (now : F) (id : Text) (d : Fields F) → Keeps (storing now id d)
    unfolding Keeps run_call promise store_session
    storing-Keeps now id d =
        let (s', e, held) =
          l.setex_lem (session_key id) ttl (dumps (obj (dated "updated_at" now d))) s in
        (s', rw e refl, put-Mirrors o r l a s h id (dated "updated_at" now d) s' held)

    appending-Keeps : (now : F) (id : Text) (d : Fields F) → Keeps (appending now id d)
    unfolding Keeps run_call promise append_event
    appending-Keeps now id d =
        let event : Value F = obj (dated "timestamp" now d) in
        let (s₁, e, held) =
          l.rpush_lem (events_key id) (dumps event) s (map dumps (a.event_map id)) (h.events id) in
        let (s₂, e', same) = l.expire_lem (events_key id) ttl s₁ in
        (s₂, rw e (rw e' refl), append-Mirrors o r l a s h id event s₂ (λ k. same k ∙ held k))

    deleting-Keeps : (id : Text) → Keeps (deleting id)
    unfolding Keeps run_call promise delete_session
    deleting-Keeps id =
        let (s', e, held) = l.delete_lem (session_key id) (events_key id) s in
        (s', rw e refl, delete-Mirrors o r l a s h id s' held)

    run_call-Keeps : (c : Call F) → Keeps c
    unfolding run_call promise Keeps
    run_call-Keeps (storing now id d) = storing-Keeps now id d
    run_call-Keeps (loading id) = (s, rw (load_session-Mirrors id) refl, h)
    run_call-Keeps (appending now id d) = appending-Keeps now id d
    run_call-Keeps (listing id limit) = (s, rw (get_events-Mirrors id limit) refl, h)
    run_call-Keeps (deleting id) = deleting-Keeps id
    run_call-Keeps (setting now id key value) =
        let stored = storing-Keeps now id (set_field key value (fields_of (a.session_map id))) in
        (
          stored.0,
          setting-storing o r now id key value (a.session_map id) (on_server s)
                (load_session-Mirrors id)
              ∙ stored.1,
          stored.2,
        )

  run_calls-Mirrors :
      (cs : List (Call F)) (a : Sessions F) (s : Server)
      → Mirrors o r l a s
      → run_calls o r cs (on_server s) ≡ promises cs a
  unfolding run_calls promises Keeps
  run_calls-Mirrors [] a s h = refl
  run_calls-Mirrors (c ∷ cs) a s h =
      let (s', e, h') = run_call-Keeps a s h c in
      rw e (ap (λ z. (promise c a).1 ∷ z) (run_calls-Mirrors cs (promise c a).0 s' h'))

-- A server that was just connected, and holds none of the store's keys.
abbrev pub IsNew : (o : Floats) (r : Redis o.F) → IsRedis r → Option r.Server → Type 0
IsNew o r l none = Unit
IsNew o r l (some s) =
    (id : Text) → (l.held (session_key id) s ≡ nothing) × (l.held (events_key id) s ≡ nothing)

module _ (o : Floats) (r : Redis o.F) (l : IsRedis r) where
  -- The store keeps its contract, whether or not it is connected to Redis: for a server that holds
  -- none of the store's keys at first, answers every command, and drops no key in the meantime,
  -- every sequence of calls that store, load, append, list, delete, and set a field without a
  -- lifetime of its own is answered as a map from identifiers to sessions and lists of events
  -- answers it. In particular no call raises, and the store without Redis gives the same answers.
  -- The store's lifetime is not 0, and no caller keeps a dictionary that it has handed over.
  pub run_calls-promises :
      (ttl : ℕ) (connected : Option r.Server) (cs : List (Call o.F))
      → IsNew o r l connected
      → run_calls o r cs (new_runtime o r (suc ttl) connected) ≡ promises cs no_sessions
  unfolding new_runtime
  run_calls-promises ttl none cs h = run_calls-no_sessions o r (suc ttl) cs
  run_calls-promises ttl (some s) cs h =
      run_calls-Mirrors o r l ttl [] cs no_sessions s
        (record { sessions = λ id. (h id).0; events = λ id. ap elements (h id).1 })
