-- ===== src/Runtime/Store.antt =====
-- `DistributedRuntime` of truepresence/runtime/distributed.py. `now` is the time that
-- `time.time()` reads. A dictionary that is handed over belongs to the store.
use true_presence_ese.Base.{
  ℕ, Bool, true, false, Option, none, some, List, [], ◌∷◌, ◌++◌, length, if◌then◌else◌,
}
use true_presence_ese.Base.Text.{Text, codes, contains}
use true_presence_ese.Base.Assoc.{find, update, remove}
use true_presence_ese.Json.{Value, null, num, arr, obj, nil, Fields, end, items_list}
use true_presence_ese.Json.Dict.{set_field, append_item}
use true_presence_ese.Float.{Floats}
use true_presence_ese.Decision.Packet.{is_true}
use true_presence_ese.Memory.Timeline.{ℤ, slice_from}
use true_presence_ese.Runtime.Redis.{Redis}

abbrev pub session_key : Text → Text
session_key session_id = codes "truepresence:session:" ++ session_id

abbrev pub events_key : Text → Text
events_key session_id = codes "truepresence:events:" ++ session_id

-- The keys of a `dict` that a test accepts.
abbrev pub keys_with : {V : Type 0} → (Text → Bool) → List (Text × V) → List Text
keys_with test [] = []
keys_with test ((k, v) ∷ d) = if test k then k ∷ keys_with test d else keys_with test d

pub data HealthStatus : Type 0 where
  healthy : Text → ℕ → HealthStatus
  unhealthy : HealthStatus
  using_fallback : ℕ → HealthStatus

module _ {F : Type 0} where
  abbrev pub stamped : F → Fields F → Value F
  stamped now session_data = obj (set_field (codes "updated_at") (num now) session_data)

  abbrev is_list : Value F → Bool
  is_list (arr items) = true
  is_list _ = false

  abbrev pub push_value : Value F → Value F → Value F
  push_value event (arr items) = arr (append_item items event)
  push_value event v = v

  abbrev pub slice_value : ℤ → Value F → List (Value F)
  slice_value limit (arr items) = slice_from limit (items_list items)
  slice_value limit _ = []

  -- `session[field] = value` on what was loaded, none where it is no dictionary and the code raises.
  abbrev pub field_set : Text → Value F → Value F → Option (Fields F)
  field_set key value null = some (set_field key value end)
  field_set key value (obj session) = some (set_field key value session)
  field_set key value _ = none

module _ (o : Floats) (r : Redis o.F) where
  open o use {F}
  open r use {Server, Written}

  -- `redis_client` is the connected server, none where `available` is false.
  pub record DistributedRuntime : Type 0 where
    pub ttl_seconds : ℕ
    pub redis_client : Option Server
    pub memory_store : List (Text × Value F)

  -- `connected` is the outcome of the connection with its first ping.
  unfoldable pub new_runtime : ℕ → Option Server → DistributedRuntime
  new_runtime ttl connected = record {
    ttl_seconds = ttl;
    redis_client = connected;
    memory_store = [];
  }

  -- The outcome of a command that changes the server: on an exception the code answers False.
  abbrev wrote : DistributedRuntime → Option Server → DistributedRuntime × Bool
  wrote rt none = (rt, false)
  wrote rt (some server) = (record rt { redis_client = some server }, true)

  unfoldable pub store_session :
      F → Text → Fields F → DistributedRuntime → DistributedRuntime × Bool
  unfolding set_field update
  store_session now session_id session_data rt = elim rt.redis_client [
    | some server ↦ wrote rt (
        r.setex (session_key session_id) rt.ttl_seconds (r.dumps (stamped now session_data)) server)
    | none ↦ (
      record rt {
        memory_store =
            update (session_key session_id) null (λ old. stamped now session_data) rt.memory_store;
      },
      true,
    )
  ]

  -- The data that `get` answers, read; None for a missing key or an exception.
  abbrev pub loaded : Option (Option Written) → Value F
  loaded none = null
  loaded (some none) = null
  loaded (some (some written)) = elim (r.loads written) [ none ↦ null | some v ↦ v ]

  unfoldable pub load_session : Text → DistributedRuntime → Value F
  unfolding find is_true
  load_session session_id rt = elim rt.redis_client [
    | some server ↦ loaded (r.get (session_key session_id) server)
    | none ↦
        let v = find (session_key session_id) null rt.memory_store in
        if is_true o v then v else null
  ]

  -- Where the event is pushed and the expiry then fails, the event stays and the answer is False.
  abbrev pub expiring : DistributedRuntime → Server → Option Server → DistributedRuntime × Bool
  expiring rt server none = (record rt { redis_client = some server }, false)
  expiring rt server (some later) = (record rt { redis_client = some later }, true)

  abbrev pub pushed : Text → DistributedRuntime → Option Server → DistributedRuntime × Bool
  pushed key rt none = (rt, false)
  pushed key rt (some server) = expiring rt server (r.expire key rt.ttl_seconds server)

  unfoldable pub append_event : F → Text → Fields F → DistributedRuntime → DistributedRuntime × Bool
  unfolding set_field append_item update find
  append_event now session_id event rt =
      let key = events_key session_id in
      let dated = obj (set_field (codes "timestamp") (num now) event) in
      elim rt.redis_client [
        | some server ↦ pushed key rt (r.rpush key (r.dumps dated) server)
        | none ↦ (
          record rt { memory_store = update key (arr nil) (push_value dated) rt.memory_store },
          is_list (find key (arr nil) rt.memory_store),
        )
      ]

  -- `[json.loads(e) for e in events_data]`, none where one of them raises.
  abbrev pub loads_all : List Written → Option (List (Value F))
  loads_all [] = some []
  loads_all (w ∷ ws) = elim (r.loads w) [
    | none ↦ none
    | some v ↦ elim (loads_all ws) [ none ↦ none | some vs ↦ some (v ∷ vs) ]
  ]

  abbrev pub or_no_events : Option (List (Value F)) → List (Value F)
  or_no_events none = []
  or_no_events (some vs) = vs

  abbrev pub read_events : Option (List Written) → List (Value F)
  read_events none = []
  read_events (some ws) = or_no_events (loads_all ws)

  unfoldable pub get_events : Text → ℤ → DistributedRuntime → List (Value F)
  unfolding find slice_from
  get_events session_id limit rt = elim rt.redis_client [
    | some server ↦ read_events (r.lrange (events_key session_id) limit server)
    | none ↦ slice_value limit (find (events_key session_id) (arr nil) rt.memory_store)
  ]

  unfoldable pub delete_session : Text → DistributedRuntime → DistributedRuntime × Bool
  unfolding remove
  delete_session session_id rt = elim rt.redis_client [
    | some server ↦ wrote rt (r.delete (session_key session_id) (events_key session_id) server)
    | none ↦ (
      record rt {
        memory_store =
            remove (events_key session_id) (remove (session_key session_id) rt.memory_store);
      },
      true,
    )
  ]

  -- With a lifetime of its own the memory store takes the session without a new `updated_at`.
  abbrev pub store_for :
      F → Text → Option ℕ → DistributedRuntime → Fields F → DistributedRuntime × Bool
  store_for now session_id none rt session = store_session now session_id session rt
  store_for now session_id (some ttl) rt session = elim rt.redis_client [
    | some server ↦
        wrote rt (r.setex (session_key session_id) ttl (r.dumps (stamped now session)) server)
    | none ↦ (
      record rt {
        memory_store = update (session_key session_id) null (λ old. obj session) rt.memory_store;
      },
      true,
    )
  ]

  abbrev pub stored_or_raised :
      F
      → Text
      → Option ℕ
      → DistributedRuntime
      → Option (Fields F)
      → Option (DistributedRuntime × Bool)
  stored_or_raised now session_id ttl rt none = none
  stored_or_raised now session_id ttl rt (some session) =
      some (store_for now session_id ttl rt session)

  unfoldable pub update_session_field :
      F → Text → Text → Value F → Option ℕ → DistributedRuntime → Option (DistributedRuntime × Bool)
  update_session_field now session_id key value ttl rt =
      stored_or_raised now session_id ttl rt (field_set key value (load_session session_id rt))

  abbrev counted : Option (List Text) → Option ℕ
  counted none = none
  counted (some ks) = some (length ks)

  -- None where redis raises.
  unfoldable pub get_session_count : DistributedRuntime → Option ℕ
  unfolding contains
  get_session_count rt = elim rt.redis_client [
    | some server ↦ counted (r.scan_iter (codes "truepresence:session:") server)
    | none ↦ some (length (keys_with (λ k. contains k (codes "session:")) rt.memory_store))
  ]

  abbrev health_of : Option Text → Option ℕ → HealthStatus
  health_of none n = unhealthy
  health_of (some version) none = unhealthy
  health_of (some version) (some n) = healthy version n

  unfoldable pub health_check : DistributedRuntime → HealthStatus
  unfolding get_session_count
  health_check rt = elim rt.redis_client [
    | some server ↦ health_of (r.redis_version server) (get_session_count rt)
    | none ↦
        using_fallback (length (keys_with (λ k. contains k (codes "session:")) rt.memory_store))
  ]
