-- ===== src/Memory/Timeline.antt =====
-- truepresence/memory/session_timeline.py. `F` is the type of the numbers in an event, and
-- `to_text` stands for `str(value)`.
use true_presence_ese.Base.{
  ℕ, zero, suc, ◌+◌, ◌-◌, leb, Bool, Option, none, some, List, [], ◌∷◌, ◌++◌, length, if◌then◌else◌,
}
use true_presence_ese.Base.Text.{Text, codes}
use true_presence_ese.Base.Assoc.{find, update, remove}
use true_presence_ese.Json.{Value, num, obj, Fields, get}
use true_presence_ese.Json.Dict.{set_default}

-- The integers, of which `window` takes one.
pub data ℤ : Type 0 where
  pos : ℕ → ℤ
  negsuc : ℕ → ℤ

module _ {ℓ} {A : Type ℓ} where
  -- `xs[n:]`
  unfoldable pub drop : ℕ → List A → List A
  drop zero xs = xs
  drop (suc n) [] = []
  drop (suc n) (x ∷ xs) = drop n xs

  -- `deque(maxlen=n).append(x)`: a deque over its length loses its oldest element.
  unfoldable pub append_bounded : ℕ → List A → A → List A
  unfolding drop
  append_bounded maxlen xs x =
      if leb (length (xs ++ x ∷ [])) maxlen then xs ++ x ∷ [] else drop 1 (xs ++ x ∷ [])

  -- `xs[-limit:]`, where -0 is 0 and a start before the list is its beginning.
  unfoldable pub slice_from : ℤ → List A → List A
  unfolding drop
  slice_from (pos zero) xs = xs
  slice_from (pos (suc n)) xs = drop (length xs - suc n) xs
  slice_from (negsuc n) xs = drop (suc n) xs

pub record SessionTimeline (F : Type 0) : Type 0 where
  pub maxlen : ℕ
  pub events : List (Text × List (Fields F))

-- `str | dict`
pub data SessionOrEvent (F : Type 0) : Type 0 where
  by_session : Text → SessionOrEvent F
  by_event : Fields F → SessionOrEvent F

-- `str | int`
pub data SessionOrCount : Type 0 where
  of_session : Text → SessionOrCount
  of_count : ℤ → SessionOrCount

module _ {F : Type 0} (is_true : Value F → Bool) (to_text : Value F → Text) where
  -- `str(event.get("session_id") or "default")`
  unfoldable pub session_of : Fields F → Text
  session_of event =
      if is_true (get (codes "session_id") event)
      then to_text (get (codes "session_id") event)
      else codes "default"

  -- None where the code raises a ValueError.
  unfoldable pub resolve_session_and_event :
      SessionOrEvent F → Option (Fields F) → Option (Text × Fields F)
  unfolding session_of
  resolve_session_and_event (by_event event) none = some (session_of event, event)
  resolve_session_and_event (by_session id) none = none
  resolve_session_and_event (by_session id) (some event) = some (id, event)
  resolve_session_and_event (by_event e) (some event) = some (to_text (obj e), event)

module _ {F : Type 0} where
  -- `event_copy.setdefault("ts", time.time())`, where `now` is the time read.
  unfoldable pub stamp : F → Fields F → Fields F
  unfolding set_default
  stamp now event = set_default (codes "ts") (num now) event

  unfoldable pub push : Text → Fields F → SessionTimeline F → SessionTimeline F
  unfolding update append_bounded
  push id event t = record t {
    events = update id [] (λ q. append_bounded t.maxlen q event) t.events;
  }

  -- The events of a session; a `defaultdict` makes an entry for a session that has none.
  unfoldable pub touch : Text → SessionTimeline F → SessionTimeline F
  unfolding update
  touch id t = record t { events = update id [] (λ q. q) t.events }

  unfoldable pub events_of : Text → SessionTimeline F → List (Fields F)
  unfolding find
  events_of id t = find id [] t.events

  unfoldable pub window :
      SessionOrCount → Option ℤ → SessionTimeline F → List (Fields F) × SessionTimeline F
  unfolding events_of touch slice_from
  window (of_session id) none t = (slice_from (pos 50) (events_of id t), touch id t)
  window (of_session id) (some count) t = (slice_from count (events_of id t), touch id t)
  window (of_count limit) count t =
      (slice_from limit (events_of (codes "default") t), touch (codes "default") t)

  unfoldable pub clear : Text → SessionTimeline F → SessionTimeline F
  unfolding remove
  clear id t = record t { events = remove id t.events }

  unfoldable pub clear_all : SessionTimeline F → SessionTimeline F
  clear_all t = record t { events = [] }

  abbrev lengths : List (Text × List (Fields F)) → ℕ
  lengths [] = 0
  lengths ((id, q) ∷ d) = length q + lengths d

  -- `len(timeline)`
  unfoldable pub size : SessionTimeline F → ℕ
  size t = lengths t.events

  unfoldable pub new_timeline : ℕ → SessionTimeline F
  new_timeline maxlen = record { maxlen = maxlen; events = [] }

module _ {F : Type 0} (is_true : Value F → Bool) (to_text : Value F → Text) where
  -- The new timeline, or none where the code raises and leaves it as it was.
  unfoldable pub add_event :
      F → SessionOrEvent F → Option (Fields F) → SessionTimeline F → Option (SessionTimeline F)
  unfolding resolve_session_and_event stamp push
  add_event now target event t = elim (resolve_session_and_event is_true to_text target event) [
    | none ↦ none
    | some (id, e) ↦ some (push id (stamp now e) t)
  ]
