-- ===== src/Runtime/OnRedis.antt =====
-- The calls of `DistributedRuntime` on a Redis server that answers keep the contract.
use mathlib.Core.List.{map-append}
use true_presence_ese.Base.{
  ℕ, zero, suc, ◌-◌, ◌≡◌, refl, ap, sym, subst, Option, none, some, List, [], ◌∷◌, ◌++◌, map,
  length, Bool-cases, if◌then◌else◌, inl, inr,
}
use true_presence_ese.Base.Text.{Text, text_eq, text_eq→eq}
use true_presence_ese.Json.{Value, obj, Fields}
use true_presence_ese.Float.{Floats}
use true_presence_ese.Memory.Timeline.{ℤ, pos, negsuc, drop, slice_from}
use true_presence_ese.Runtime.Redis.{Redis, IsRedis, Held, nothing, string, list, elements, read}
use true_presence_ese.Runtime.Store.{session_key, events_key, loaded, loads_all}
use true_presence_ese.Runtime.Sessions.{Sessions, value_of}
use true_presence_ese.Runtime.InMemory.{session_key_eq, events_key_eq, session_apart, events_apart}

module _ {A B : Type 0} (f : A → B) where
  length-map : (xs : List A) → length (map f xs) ≡ length xs
  length-map [] = refl
  length-map (x ∷ xs) = ap suc (length-map xs)

  drop-map : (n : ℕ) (xs : List A) → drop n (map f xs) ≡ map f (drop n xs)
  unfolding drop
  drop-map zero xs = refl
  drop-map (suc n) [] = refl
  drop-map (suc n) (x ∷ xs) = drop-map n xs

  pub slice_from-map :
      (limit : ℤ) (xs : List A) → slice_from limit (map f xs) ≡ map f (slice_from limit xs)
  unfolding slice_from
  slice_from-map (pos zero) xs = refl
  slice_from-map (pos (suc n)) xs = rw (length-map xs) (drop-map (length xs - suc n) xs)
  slice_from-map (negsuc n) xs = drop-map (suc n) xs

module _ (o : Floats) (r : Redis o.F) (l : IsRedis r) where
  open o use {F}
  open r use {Server, Written, dumps}

  pub loads_all-dumps : (vs : List (Value F)) → loads_all o r (map dumps vs) ≡ some vs
  loads_all-dumps [] = refl
  loads_all-dumps (v ∷ vs) = rw (l.loads-dumps v) (rw (loads_all-dumps vs) refl)

  abbrev pub written_of : Option (Fields F) → Held Written
  written_of none = nothing
  written_of (some d) = string (dumps (obj d))

  pub loaded-written : (s : Option (Fields F)) → loaded o r (read (written_of s)) ≡ value_of s
  loaded-written none = refl
  loaded-written (some d) = rw (l.loads-dumps (obj d)) refl

  -- The server holds what the contract says.
  pub record Mirrors (a : Sessions F) (s : Server) : Type 0 where
    pub sessions : (id : Text) → l.held (session_key id) s ≡ written_of (a.session_map id)
    pub events :
        (id : Text) → elements (l.held (events_key id) s) ≡ some (map dumps (a.event_map id))

  module _ (a : Sessions F) (s : Server) (h : Mirrors a s) where
    pub put-Mirrors :
        (id : Text) (d : Fields F) (s' : Server)
        → ((k : Text)
            → l.held k s'
              ≡ (if text_eq (session_key id) k then string (dumps (obj d)) else l.held k s))
        → Mirrors
            (record a { session_map = λ k. if text_eq id k then some d else a.session_map k })
            s'
    put-Mirrors id d s' e = record {
      sessions = λ k.
          rw (e (session_key k), session_key_eq id k)
            (elim (Bool-cases (text_eq id k)) [ inl t ↦ rw t refl | inr t ↦ rw t (h.sessions k) ]);
      events = λ k. rw (e (events_key k), session_apart id k) (h.events k);
    }

    pub append-Mirrors :
        (id : Text) (event : Value F) (s' : Server)
        → ((k : Text)
            → l.held k s' ≡ (
                if text_eq (events_key id) k
                then list (map dumps (a.event_map id) ++ dumps event ∷ [])
                else l.held k s))
        → Mirrors
            (record a {
              event_map = λ k. if text_eq id k then a.event_map k ++ event ∷ [] else a.event_map k;
            })
            s'
    append-Mirrors id event s' e = record {
      sessions = λ k. rw (e (session_key k), events_apart id k) (h.sessions k);
      events = λ k.
          rw (e (events_key k), events_key_eq id k)
            (elim (Bool-cases (text_eq id k)) [
              | inl t ↦ rw t (
                  ap some (
                    subst
                      (λ z.
                        map dumps (a.event_map id) ++ dumps event ∷ []
                        ≡ map dumps (a.event_map z ++ event ∷ []))
                      (text_eq→eq id k t) (sym (map-append dumps (a.event_map id) (event ∷ [])))))
              | inr t ↦ rw t (h.events k)
            ]);
    }

    pub delete-Mirrors :
        (id : Text) (s' : Server)
        → ((k : Text)
            → l.held k s' ≡ (
                if text_eq (session_key id) k
                then nothing
                else if text_eq (events_key id) k
                then nothing
                else l.held k s))
        → Mirrors
            (record a {
              session_map = λ k. if text_eq id k then none else a.session_map k;
              event_map = λ k. if text_eq id k then [] else a.event_map k;
            })
            s'
    delete-Mirrors id s' e = record {
      sessions = λ k.
          rw (e (session_key k), session_key_eq id k, events_apart id k)
            (elim (Bool-cases (text_eq id k)) [ inl t ↦ rw t refl | inr t ↦ rw t (h.sessions k) ]);
      events = λ k.
          rw (e (events_key k), session_apart id k, events_key_eq id k)
            (elim (Bool-cases (text_eq id k)) [ inl t ↦ rw t refl | inr t ↦ rw t (h.events k) ]);
    }
