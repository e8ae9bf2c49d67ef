-- ===== src/Runtime/InMemory.antt =====
-- `DistributedRuntime` without a connection, on the dictionary `_memory_store`.
use true_presence_ese.Base.{
  ◌≡◌, refl, ap, ◌∙◌, true, false, none, some, List, [], ◌∷◌, ◌++◌, subst, if◌then◌else◌,
  Bool-cases, inl, inr, Always,
}
use true_presence_ese.Base.Text.{Text, text_eq, text_eq→eq}
use true_presence_ese.Base.Assoc.{
  find, update, remove, IsDict, find-update, find-update_apart, find-remove, find-remove_other,
  update-IsDict, remove-IsDict,
}
use true_presence_ese.Json.{Value, null, arr, obj, nil, cons, Fields, end, field}
use true_presence_ese.Json.Dict.{set_field, append_item, items_of}
use true_presence_ese.Float.{Floats}
use true_presence_ese.Decision.Packet.{is_true}
use true_presence_ese.Runtime.Store.{session_key, events_key, push_value}
use true_presence_ese.Runtime.Sessions.{Sessions, value_of}

pub session_key_eq : (id k : Text) → text_eq (session_key id) (session_key k) ≡ text_eq id k
unfolding text_eq
session_key_eq id k = refl

pub events_key_eq : (id k : Text) → text_eq (events_key id) (events_key k) ≡ text_eq id k
unfolding text_eq
events_key_eq id k = refl

pub session_apart : (id k : Text) → text_eq (session_key id) (events_key k) ≡ false
unfolding text_eq
session_apart id k = refl

pub events_apart : (id k : Text) → text_eq (events_key id) (session_key k) ≡ false
unfolding text_eq
events_apart id k = refl

module _ {N : Type 0} where
  items_of-append :
      (vs : List (Value N)) (v : Value N) → append_item (items_of vs) v ≡ items_of (vs ++ v ∷ [])
  unfolding append_item
  items_of-append [] v = refl
  items_of-append (x ∷ vs) v = ap (cons x) (items_of-append vs v)

module _ (o : Floats) where
  open o use {F}

  abbrev pub IsFull : Fields F → Type 0
  IsFull d = is_true o (obj d) ≡ true

  pub set_field-IsFull : (key : Text) (v : Value F) (d : Fields F) → IsFull (set_field key v d)
  unfolding set_field is_true
  set_field-IsFull key v end = refl
  set_field-IsFull key v (field k w d) = elim (Bool-cases (text_eq k key)) [
    | inl e ↦ rw e refl
    | inr e ↦ rw e refl
  ]

  -- The dictionary holds what the contract says.
  pub record Holds (a : Sessions F) (m : List (Text × Value F)) : Type 0 where
    pub dict : IsDict m
    pub sessions : (id : Text) → find (session_key id) null m ≡ value_of (a.session_map id)
    pub full : (id : Text) → Always IsFull (a.session_map id)
    pub events : (id : Text) → find (events_key id) (arr nil) m ≡ arr (items_of (a.event_map id))

  module _ (a : Sessions F) (m : List (Text × Value F)) (h : Holds a m) where
    pub put-Holds :
        (id : Text) (d : Fields F)
        → IsFull d
        → Holds
            (record a { session_map = λ k. if text_eq id k then some d else a.session_map k })
            (update (session_key id) null (λ old. obj d) m)
    put-Holds id d f = record {
      dict = update-IsDict (session_key id) null (λ old. obj d) m h.dict;
      sessions = λ k.
          rw
            (
              find-update (session_key id) (session_key k) null (λ old. obj d) m,
              session_key_eq id k,
            )
            (elim (Bool-cases (text_eq id k)) [ inl e ↦ rw e refl | inr e ↦ rw e (h.sessions k) ]);
      full = λ k. elim (Bool-cases (text_eq id k)) [ inl e ↦ rw e f | inr e ↦ rw e (h.full k) ];
      events = λ k.
          find-update_apart (session_key id) (events_key k) null (arr nil) (λ old. obj d) m
            (session_apart id k)
          ∙ h.events k;
    }

    pub append-Holds :
        (id : Text) (event : Value F)
        → Holds
            (record a {
              event_map = λ k. if text_eq id k then a.event_map k ++ event ∷ [] else a.event_map k;
            })
            (update (events_key id) (arr nil) (push_value event) m)
    append-Holds id event = record {
      dict = update-IsDict (events_key id) (arr nil) _ m h.dict;
      sessions = λ k.
          find-update_apart (events_key id) (session_key k) (arr nil) null _ m (events_apart id k)
          ∙ h.sessions k;
      full = h.full;
      events = λ k.
          rw
            (
              find-update (events_key id) (events_key k) (arr nil) (push_value event) m,
              events_key_eq id k,
            )
            (elim (Bool-cases (text_eq id k)) [
              | inl e ↦ rw e (
                  rw (h.events id) (
                    ap arr (
                      subst
                        (λ z.
                          append_item (items_of (a.event_map id)) event
                          ≡ items_of (a.event_map z ++ event ∷ []))
                        (text_eq→eq id k e) (items_of-append (a.event_map id) event))))
              | inr e ↦ rw e (h.events k)
            ]);
    }

    pub delete-Holds :
        (id : Text)
        → Holds
            (record a {
              session_map = λ k. if text_eq id k then none else a.session_map k;
              event_map = λ k. if text_eq id k then [] else a.event_map k;
            })
            (remove (events_key id) (remove (session_key id) m))
    delete-Holds id = record {
      dict = remove-IsDict (events_key id) _ (remove-IsDict (session_key id) m h.dict);
      sessions = λ k.
          rw
            (find-remove_other (events_key id) (session_key k) null (remove (session_key id) m)
              (events_apart id k))
            (rw (find-remove (session_key id) (session_key k) null m h.dict, session_key_eq id k)
              (elim (Bool-cases (text_eq id k)) [
                | inl e ↦ rw e refl
                | inr e ↦ rw e (h.sessions k)
              ]));
      full = λ k. elim (Bool-cases (text_eq id k)) [ inl e ↦ rw e tt | inr e ↦ rw e (h.full k) ];
      events = λ k.
          rw
            (
              find-remove (events_key id) (events_key k) (arr nil) (remove (session_key id) m)
                  (remove-IsDict (session_key id) m h.dict),
              events_key_eq id k,
            )
            (elim (Bool-cases (text_eq id k)) [
              | inl e ↦ rw e refl
              | inr e ↦ rw e (
                  find-remove_other (session_key id) (events_key k) (arr nil) m (session_apart id k)
                  ∙ h.events k)
            ]);
    }
