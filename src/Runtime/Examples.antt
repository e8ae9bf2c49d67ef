-- ===== src/Runtime/Examples.antt =====
-- A Redis server as a dictionary, and the session store on it and on the memory.
use true_presence_ese.Base.{
  ℕ, ◌+◌, ◌≡◌, refl, ◌∙◌, ap, true, false, Option, none, some, List, [], ◌∷◌, ◌++◌, if◌then◌else◌,
  arith,
}
use true_presence_ese.Base.Text.{Text, codes, text_eq, starts_with, contains}
use true_presence_ese.Base.Assoc.{find, update, find-update}
use true_presence_ese.Json.{Value, null, num, str, obj, Fields, end, field}
use true_presence_ese.Float.Fixed.{fixed}
use true_presence_ese.Memory.Timeline.{ℤ, pos, slice_from}
use true_presence_ese.Runtime.Redis.{Redis, IsRedis, Held, nothing, string, list, elements, read}
use true_presence_ese.Runtime.Store.{
  new_runtime, append_event, get_session_count, update_session_field, health_check, unhealthy,
}
use true_presence_ese.Runtime.Sessions.{
  Call, storing, loading, appending, listing, deleting, setting, did, found, listed, no_sessions,
  promises, run_calls, run_call,
}
use true_presence_ese.Runtime.Connected.{run_calls-promises}
use true_presence_ese.Runtime.Faults.{
  get_session_count-append_event, run_call-refusal, Refuses, refusal,
}

abbrev Shelf : Type 0
Shelf = List (Text × Held (Value ℕ))

abbrev pushing : Value ℕ → Held (Value ℕ) → Held (Value ℕ)
pushing w nothing = list (w ∷ [])
pushing w (string v) = string v
pushing w (list ws) = list (ws ++ w ∷ [])

abbrev sliced : ℤ → Option (List (Value ℕ)) → Option (List (Value ℕ))
sliced limit none = none
sliced limit (some ws) = some (slice_from limit ws)

abbrev scanned : Text → Shelf → List Text
scanned prefix [] = []
scanned prefix ((k, nothing) ∷ d) = scanned prefix d
scanned prefix ((k, held) ∷ d) =
    if starts_with k prefix then k ∷ scanned prefix d else scanned prefix d

abbrev shelf : Redis ℕ
shelf = record {
  Server = Shelf;
  Written = Value ℕ;
  dumps = λ v. v;
  loads = some;
  setex = λ key ttl w s. some (update key nothing (λ old. string w) s);
  get = λ key s. read (find key nothing s);
  rpush = λ key w s. some (update key nothing (pushing w) s);
  expire = λ key ttl s. some s;
  lrange = λ key limit s. sliced limit (elements (find key nothing s));
  delete = λ key other s.
      some (update key nothing (λ old. nothing) (update other nothing (λ old. nothing) s));
  scan_iter = λ prefix s. some (scanned prefix s);
  redis_version = λ s. some (codes "7.2");
}

pushing-elements :
    (w : Value ℕ) (h : Held (Value ℕ)) (ws : List (Value ℕ))
    → elements h ≡ some ws
    → pushing w h ≡ list (ws ++ w ∷ [])
pushing-elements w nothing ws e = ground arith
pushing-elements w (string v) ws e = cc
pushing-elements w (list vs) ws e = ground arith

shelf-IsRedis : IsRedis shelf
shelf-IsRedis = record {
  held = λ key s. find key nothing s;
  loads-dumps = λ v. refl;
  setex_lem = λ key ttl w s. (
    update key nothing (λ old. string w) s,
    refl,
    λ k. find-update key k nothing (λ old. string w) s,
  );
  get_lem = λ key s. refl;
  rpush_lem = λ key w s ws e. (
    update key nothing (pushing w) s,
    refl,
    λ k.
        find-update key k nothing (pushing w) s
        ∙ ap (λ z. if text_eq key k then z else find k nothing s)
            (pushing-elements w (find key nothing s) ws e),
  );
  expire_lem = λ key ttl s. (s, refl, λ k. refl);
  lrange_lem = λ key limit s ws e. ap (sliced limit) e;
  delete_lem = λ key other s. (
    update key nothing (λ old. nothing) (update other nothing (λ old. nothing) s),
    refl,
    λ k.
        find-update key k nothing (λ old. nothing) (update other nothing (λ old. nothing) s)
        ∙ ap (λ z. if text_eq key k then nothing else z)
            (find-update other k nothing (λ old. nothing) s),
  );
}

abbrev ada : Text
ada = codes "ada"

abbrev visit : Fields ℕ
visit = field (codes "page") (str (codes "home")) end

abbrev calls : List (Call ℕ)
calls =
    storing 10 ada visit
    ∷ appending 20 ada visit
    ∷ appending 30 ada end
    ∷ setting 40 ada (codes "risk") (num 7)
    ∷ loading ada
    ∷ listing ada (pos 1)
    ∷ deleting ada
    ∷ loading ada
    ∷ []

-- What is answered after the fourth call.
answered_last :
    promises calls no_sessions
    ≡ did true
      ∷ did true
      ∷ did true
      ∷ did true
      ∷ found (
          obj (
            field
              (codes "page")
              (str (codes "home"))
              (field (codes "updated_at") (num 40) (field (codes "risk") (num 7) end))))
      ∷ listed (obj (field (codes "timestamp") (num 30) end) ∷ [])
      ∷ did true
      ∷ found null
      ∷ []
unfolding promises text_eq
answered_last = refl

run_calls-promises_example :
    run_calls fixed shelf calls (new_runtime fixed shelf 3600 (some []))
    ≡ promises calls no_sessions
unfolding find shelf-IsRedis
run_calls-promises_example =
    run_calls-promises fixed shelf shelf-IsRedis 3599 (some []) calls (λ id. (refl, refl))

get_session_count-append_event_example :
    (n : ℕ) × (get_session_count fixed shelf (new_runtime fixed shelf 3600 none) ≡ some n)
    × (get_session_count fixed shelf
          (append_event fixed shelf 20
            (codes "session:1")
            visit
            (new_runtime fixed shelf 3600 none)).0
        ≡ some (n + 1))
unfolding contains starts_with new_runtime
get_session_count-append_event_example =
    get_session_count-append_event fixed shelf (new_runtime fixed shelf 3600 none) 20
      (codes "session:1") visit

-- The same server out of reach.
abbrev broken : Redis ℕ
broken = record shelf {
  setex = λ key ttl w s. none;
  get = λ key s. none;
  rpush = λ key w s. none;
  lrange = λ key limit s. none;
  delete = λ key other s. none;
  scan_iter = λ prefix s. none;
  redis_version = λ s. none;
}

broken-Refuses : Refuses broken []
broken-Refuses = record {
  setex = λ k ttl w. refl;
  get = λ k. refl;
  rpush = λ k w. refl;
  lrange = λ k limit. refl;
  delete = λ k j. refl;
  scan_iter = λ prefix. refl;
  redis_version = refl;
}

run_call-refusal_example :
    ((c : Call ℕ)
      → run_call fixed broken c (new_runtime fixed broken 3600 (some []))
        ≡ (new_runtime fixed broken 3600 (some []), refusal c))
    × ((now : ℕ) (id key : Text) (value : Value ℕ) (ttl : ℕ)
        → update_session_field fixed broken now id key value
            (some ttl)
            (new_runtime fixed broken 3600 (some []))
          ≡ some (new_runtime fixed broken 3600 (some []), false))
    × (health_check fixed broken (new_runtime fixed broken 3600 (some [])) ≡ unhealthy)
    × (get_session_count fixed broken (new_runtime fixed broken 3600 (some [])) ≡ none)
unfolding new_runtime
run_call-refusal_example =
    run_call-refusal fixed broken (new_runtime fixed broken 3600 none) [] broken-Refuses
