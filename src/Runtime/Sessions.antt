-- ===== src/Runtime/Sessions.antt =====
-- What the session store of truepresence/runtime/distributed.py promises: a session for an
-- identifier, and the list of its events. `run_calls` is the store under a sequence of calls.
use Prim.Native.String.{String}
use true_presence_ese.Base.{
  ◌≡◌, refl, ap, ◌∙◌, Bool, true, Option, none, some, List, [], ◌∷◌, ◌++◌, if◌then◌else◌,
}
use true_presence_ese.Base.Text.{Text, codes, text_eq}
use true_presence_ese.Json.{Value, null, num, obj, Fields, end}
use true_presence_ese.Json.Dict.{set_field}
use true_presence_ese.Float.{Floats}
use true_presence_ese.Memory.Timeline.{ℤ, slice_from}
use true_presence_ese.Runtime.Redis.{Redis}
use true_presence_ese.Runtime.Store.{
  DistributedRuntime, store_session, load_session, append_event, get_events, delete_session,
  update_session_field, field_set, stored_or_raised,
}

-- A call of the store, the time first where it reads the clock.
pub data Call (F : Type 0) : Type 0 where
  storing : F → Text → Fields F → Call F
  loading : Text → Call F
  appending : F → Text → Fields F → Call F
  listing : Text → ℤ → Call F
  deleting : Text → Call F
  setting : F → Text → Text → Value F → Call F

pub data Answer (F : Type 0) : Type 0 where
  did : Bool → Answer F
  found : Value F → Answer F
  listed : List (Value F) → Answer F
  raised : Answer F

-- The contract: no key, no server, no lifetime.
pub record Sessions (F : Type 0) : Type 0 where
  pub session_map : Text → Option (Fields F)
  pub event_map : Text → List (Value F)

module _ {F : Type 0} where
  abbrev pub no_sessions : Sessions F
  no_sessions = record { session_map = λ id. none; event_map = λ id. [] }

  abbrev pub value_of : Option (Fields F) → Value F
  value_of none = null
  value_of (some session) = obj session

  abbrev pub fields_of : Option (Fields F) → Fields F
  fields_of none = end
  fields_of (some session) = session

  abbrev put : Text → Fields F → Sessions F → Sessions F
  put id session a = record a {
    session_map = λ k. if text_eq id k then some session else a.session_map k;
  }

  abbrev pub dated : String → F → Fields F → Fields F
  dated key now d = set_field (codes key) (num now) d

  unfoldable pub promise : Call F → Sessions F → Sessions F × Answer F
  unfolding slice_from set_field
  promise (storing now id d) a = (put id (dated "updated_at" now d) a, did true)
  promise (loading id) a = (a, found (value_of (a.session_map id)))
  promise (appending now id d) a = (
    record a {
      event_map = λ k.
          if text_eq id k
          then a.event_map k ++ obj (dated "timestamp" now d) ∷ []
          else a.event_map k;
    },
    did true,
  )
  promise (listing id limit) a = (a, listed (slice_from limit (a.event_map id)))
  promise (deleting id) a = (
    record a {
      session_map = λ k. if text_eq id k then none else a.session_map k;
      event_map = λ k. if text_eq id k then [] else a.event_map k;
    },
    did true,
  )
  promise (setting now id key value) a = (
    put id (dated "updated_at" now (set_field key value (fields_of (a.session_map id)))) a,
    did true,
  )

  unfoldable pub promises : List (Call F) → Sessions F → List (Answer F)
  unfolding promise
  promises [] a = []
  promises (c ∷ cs) a = (promise c a).1 ∷ promises cs (promise c a).0

module _ (o : Floats) (r : Redis o.F) where
  open o use {F}

  abbrev succeeded : DistributedRuntime o r × Bool → DistributedRuntime o r × Answer F
  succeeded (rt, b) = (rt, did b)

  abbrev answered :
      DistributedRuntime o r
      → Option (DistributedRuntime o r × Bool)
      → DistributedRuntime o r × Answer F
  answered rt none = (rt, raised)
  answered rt (some result) = succeeded result

  unfoldable pub run_call : Call F → DistributedRuntime o r → DistributedRuntime o r × Answer F
  run_call (storing now id d) rt = succeeded (store_session o r now id d rt)
  run_call (loading id) rt = (rt, found (load_session o r id rt))
  run_call (appending now id d) rt = succeeded (append_event o r now id d rt)
  run_call (listing id limit) rt = (rt, listed (get_events o r id limit rt))
  run_call (deleting id) rt = succeeded (delete_session o r id rt)
  run_call (setting now id key value) rt =
      answered rt (update_session_field o r now id key value none rt)

  unfoldable pub run_calls : List (Call F) → DistributedRuntime o r → List (Answer F)
  unfolding run_call
  run_calls [] rt = []
  run_calls (c ∷ cs) rt = (run_call c rt).1 ∷ run_calls cs (run_call c rt).0

  field_set-value :
      (key : Text) (value : Value F) (s : Option (Fields F))
      → field_set key value (value_of s) ≡ some (set_field key value (fields_of s))
  field_set-value key value none = refl
  field_set-value key value (some d) = refl

  -- Setting a field is storing the session that is loaded with the field in it.
  pub setting-storing :
      (now : F) (id key : Text) (value : Value F) (s : Option (Fields F))
      (rt : DistributedRuntime o r)
      → load_session o r id rt ≡ value_of s
      → run_call (setting now id key value) rt
        ≡ run_call (storing now id (set_field key value (fields_of s))) rt
  unfolding run_call update_session_field
  setting-storing now id key value s rt h =
      ap (λ z. answered rt (stored_or_raised o r now id none rt z))
        (ap (field_set key value) h ∙ field_set-value key value s)
