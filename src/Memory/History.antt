-- ===== src/Memory/History.antt =====
-- What a timeline of truepresence/memory/session_timeline.py remembers after any run of calls.
use true_presence_ese.Base.{
  ℕ, suc, ◌≡◌, refl, ap, sym, subst, ◌∙◌, Bool, Option, none, some, List, [], ◌∷◌, ◌++◌,
  if◌then◌else◌, Bool-cases, inl, inr,
}
use true_presence_ese.Base.Text.{Text, codes, text_eq, text_eq→eq}
use true_presence_ese.Base.Assoc.{
  find, update, remove, IsDict, find-update_same, find-update_other, find-remove_same,
  find-remove_other, update-IsDict, remove-IsDict,
}
use true_presence_ese.Json.{Value, Fields}
use true_presence_ese.Memory.Timeline.{
  ℤ, pos, slice_from, append_bounded, SessionTimeline, SessionOrEvent, SessionOrCount, of_session,
  of_count, resolve_session_and_event, stamp, push, touch, events_of, window, clear, clear_all,
  new_timeline, add_event,
}
use true_presence_ese.Memory.Deque.{last_n, last_n-nil, append_bounded-last_n}

-- The calls that a client can make, with the time that each reads.
pub data Call (F : Type 0) : Type 0 where
  adding : F → SessionOrEvent F → Option (Fields F) → Call F
  windowing : SessionOrCount → Option ℤ → Call F
  clearing : Text → Call F
  clearing_all : Call F

module _ {F : Type 0} (is_true : Value F → Bool) (to_text : Value F → Text) where
  -- A call that raises leaves the timeline as it was.
  unfoldable pub call : Call F → SessionTimeline F → SessionTimeline F
  unfolding add_event window clear clear_all
  call (adding now target event) t = elim (add_event is_true to_text now target event t) [
    | none ↦ t
    | some t' ↦ t'
  ]
  call (windowing target count) t = (window target count t).1
  call (clearing id) t = clear id t
  call clearing_all t = clear_all t

  unfoldable pub run : List (Call F) → SessionTimeline F → SessionTimeline F
  run [] t = t
  run (c ∷ cs) t = run cs (call c t)

  -- The full history of each session, which a clear empties.
  unfoldable pub record_call : Call F → (Text → List (Fields F)) → Text → List (Fields F)
  record_call (adding now target event) h =
      elim (resolve_session_and_event is_true to_text target event) [
        | none ↦ h
        | some (id, e) ↦ λ s. if text_eq id s then h s ++ stamp now e ∷ [] else h s
      ]
  record_call (windowing target count) h = h
  record_call (clearing id) h = λ s. if text_eq id s then [] else h s
  record_call clearing_all h = λ s. []

  unfoldable pub history : List (Call F) → (Text → List (Fields F)) → Text → List (Fields F)
  history [] h = h
  history (c ∷ cs) h = history cs (record_call c h)

  -- The timeline holds the last `maxlen` events of each history.
  record Refines (maxlen : ℕ) (t : SessionTimeline F) (h : Text → List (Fields F)) : Type 0 where
    capacity : t.maxlen ≡ maxlen
    dict : IsDict t.events
    kept : (s : Text) → find s [] t.events ≡ last_n maxlen (h s)

  push-Refines :
      (maxlen : ℕ) (t : SessionTimeline F) (h : Text → List (Fields F)) (id : Text) (e : Fields F)
      → Refines maxlen t h
      → Refines maxlen (push id e t) (λ s. if text_eq id s then h s ++ e ∷ [] else h s)
  unfolding push
  push-Refines maxlen t h id e r = record {
    capacity = r.capacity;
    dict = update-IsDict id [] (λ q. append_bounded t.maxlen q e) t.events r.dict;
    kept = λ s. elim (Bool-cases (text_eq id s)) [
      | inl g ↦ rw g (
          subst
            (λ z.
              find z [] (update id [] (λ q. append_bounded t.maxlen q e) t.events)
              ≡ last_n maxlen (h z ++ e ∷ []))
            (text_eq→eq id s g)
            (find-update_same id [] (λ q. append_bounded t.maxlen q e) t.events
              ∙ ap (λ q. append_bounded t.maxlen q e) (r.kept id)
              ∙ ap (λ m. append_bounded m (last_n maxlen (h id)) e) r.capacity
              ∙ append_bounded-last_n maxlen (h id) e))
      | inr g ↦
          rw g (find-update_other id s [] (λ q. append_bounded t.maxlen q e) t.events g ∙ r.kept s)
    ];
  }

  touch-Refines :
      (maxlen : ℕ) (t : SessionTimeline F) (h : Text → List (Fields F)) (id : Text)
      → Refines maxlen t h
      → Refines maxlen (touch id t) h
  unfolding touch
  touch-Refines maxlen t h id r = record {
    capacity = r.capacity;
    dict = update-IsDict id [] (λ q. q) t.events r.dict;
    kept = λ s. elim (Bool-cases (text_eq id s)) [
      | inl g ↦
          subst (λ z. find z [] (update id [] (λ q. q) t.events) ≡ last_n maxlen (h z))
            (text_eq→eq id s g) (find-update_same id [] (λ q. q) t.events ∙ r.kept id)
      | inr g ↦ find-update_other id s [] (λ q. q) t.events g ∙ r.kept s
    ];
  }

  clear-Refines :
      (maxlen : ℕ) (t : SessionTimeline F) (h : Text → List (Fields F)) (id : Text)
      → Refines maxlen t h
      → Refines maxlen (clear id t) (λ s. if text_eq id s then [] else h s)
  unfolding clear
  clear-Refines maxlen t h id r = record {
    capacity = r.capacity;
    dict = remove-IsDict id t.events r.dict;
    kept = λ s. elim (Bool-cases (text_eq id s)) [
      | inl g ↦ rw g (
          subst (λ z. find z [] (remove id t.events) ≡ last_n maxlen []) (text_eq→eq id s g)
            (find-remove_same id [] t.events r.dict ∙ sym (last_n-nil maxlen)))
      | inr g ↦ rw g (find-remove_other id s [] t.events g ∙ r.kept s)
    ];
  }

  clear_all-Refines :
      (maxlen : ℕ) (t : SessionTimeline F)
      → t.maxlen ≡ maxlen
      → Refines maxlen (clear_all t) (λ s. [])
  unfolding clear_all find
  clear_all-Refines maxlen t c = record {
    capacity = c;
    dict = tt;
    kept = λ s. sym (last_n-nil maxlen);
  }

  window-Refines :
      (maxlen : ℕ) (t : SessionTimeline F) (h : Text → List (Fields F)) (target : SessionOrCount)
      (count : Option ℤ)
      → Refines maxlen t h
      → Refines maxlen (window target count t).1 h
  unfolding window
  window-Refines maxlen t h (of_session id) none r = touch-Refines maxlen t h id r
  window-Refines maxlen t h (of_session id) (some count) r = touch-Refines maxlen t h id r
  window-Refines maxlen t h (of_count limit) count r = touch-Refines maxlen t h (codes "default") r

  added-Refines :
      (maxlen : ℕ) (t : SessionTimeline F) (h : Text → List (Fields F)) (now : F)
      (target : SessionOrEvent F) (event : Option (Fields F)) (resolved : Option (Text × Fields F))
      → resolve_session_and_event is_true to_text target event ≡ resolved
      → Refines maxlen t h
      → Refines maxlen (call (adding now target event) t) (record_call (adding now target event) h)
  unfolding call record_call add_event
  added-Refines maxlen t h now target event none e r = rw (e, call, record_call) r
  added-Refines maxlen t h now target event (some (id, v)) e r =
      rw (e, call, record_call) (push-Refines maxlen t h id (stamp now v) r)

  call-Refines :
      (maxlen : ℕ) (c : Call F) (t : SessionTimeline F) (h : Text → List (Fields F))
      → Refines maxlen t h
      → Refines maxlen (call c t) (record_call c h)
  unfolding call record_call
  call-Refines maxlen (adding now target event) t h r =
      added-Refines maxlen t h now target event _ refl r
  call-Refines maxlen (windowing target count) t h r = window-Refines maxlen t h target count r
  call-Refines maxlen (clearing id) t h r = clear-Refines maxlen t h id r
  call-Refines maxlen clearing_all t h r = clear_all-Refines maxlen t r.capacity

  run-Refines :
      (maxlen : ℕ) (cs : List (Call F)) (t : SessionTimeline F) (h : Text → List (Fields F))
      → Refines maxlen t h
      → Refines maxlen (run cs t) (history cs h)
  unfolding run history
  run-Refines maxlen [] t h r = r
  run-Refines maxlen (c ∷ cs) t h r =
      run-Refines maxlen cs (call c t) (record_call c h) (call-Refines maxlen c t h r)

  -- After any run of calls from a new timeline, each session's events are the last `maxlen` of
  -- those that were added to it since its last clear.
  pub run-last_n :
      (maxlen : ℕ) (cs : List (Call F)) (s : Text)
      → events_of s (run cs (new_timeline maxlen)) ≡ last_n maxlen (history cs (λ id. []) s)
  unfolding new_timeline events_of find
  run-last_n maxlen cs s =
      (run-Refines maxlen cs (new_timeline maxlen) (λ id. [])
          (record { capacity = refl; dict = tt; kept = λ id. sym (last_n-nil maxlen) })).kept
        s

  -- After any run of calls from a new timeline, a window of a session is read from the last
  -- `maxlen` events that were added to it since its last clear: a window of a positive count gives
  -- the last of them, that many; a window without a count the last 50; a window by a count alone
  -- those of the session "default"; and a window of zero gives them all.
  pub window-last_n :
      (maxlen n : ℕ) (cs : List (Call F)) (s : Text)
      → ((window (of_session s) (some (pos (suc n))) (run cs (new_timeline maxlen))).0
          ≡ last_n (suc n) (last_n maxlen (history cs (λ id. []) s)))
        × ((window (of_session s) none (run cs (new_timeline maxlen))).0
            ≡ last_n 50 (last_n maxlen (history cs (λ id. []) s)))
        × ((window (of_count (pos (suc n))) none (run cs (new_timeline maxlen))).0
            ≡ last_n (suc n) (last_n maxlen (history cs (λ id. []) (codes "default"))))
        × ((window (of_session s) (some (pos 0)) (run cs (new_timeline maxlen))).0
            ≡ last_n maxlen (history cs (λ id. []) s))
  unfolding window slice_from last_n
  window-last_n maxlen n cs s = (
    ap (last_n (suc n)) (run-last_n maxlen cs s),
    ap (last_n 50) (run-last_n maxlen cs s),
    ap (last_n (suc n)) (run-last_n maxlen cs (codes "default")),
    run-last_n maxlen cs s,
  )
