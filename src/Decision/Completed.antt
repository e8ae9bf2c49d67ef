-- ===== src/Decision/Completed.antt =====
-- The keys that truepresence/decision/engine.py does not add to the context that it completes.
use true_presence_ese.Base.{
  ◌≡◌, subst, inl, inr, false, Option, none, some, List, [], ◌∷◌, Bool-cases, Always,
}
use true_presence_ese.Base.Text.{Text, codes, text_eq}
use true_presence_ese.Base.Steps.{>>=-eq-some, >>=-Always_any}
use true_presence_ese.Json.{null, obj, Fields, get}
use true_presence_ese.Json.Dict.{
  set_field, has_key, Lacks, set_field-Lacks, set_default-Lacks, get_or-set_field_same,
}
use true_presence_ese.Float.{Floats}
use true_presence_ese.Decision.Packet.{is_true}
use true_presence_ese.Decision.Path.{
  Ensemble, with_session, with_history, with_identity, refs_from, prepare, history_from,
}
use true_presence_ese.Memory.Timeline.{SessionTimeline}
use true_presence_ese.Memory.IdentityGraph.{IdentityGraph, get_connected_sessions}
use true_presence_ese.Memory.Risk.{get_session_risk}
use true_presence_ese.Evidence.Builder.{with_challenge}

module _ (o : Floats) where
  open o use {F, dec, le}

  -- A key that the engine does not add to a context.
  pub record IsForeign (key : Text) : Type 0 where
    pub not_session : text_eq (codes "session") key ≡ false
    pub not_actor : text_eq (codes "actor_id") key ≡ false
    pub not_challenge : text_eq (codes "challenge_data") key ≡ false
    pub not_history : text_eq (codes "session_history") key ≡ false

  module _ (key : Text) (n : IsForeign key) where
    with_session-Lacks :
        (session context : Fields F)
        → Lacks key context
        → Lacks key (with_session o session context)
    unfolding with_session
    with_session-Lacks session context h = elim (Bool-cases (is_true o (obj session))) [
      | inl e ↦ rw e (
          set_default-Lacks (codes "actor_id") key _ _ n.not_actor
            (set_default-Lacks (codes "session") key _ context n.not_session h))
      | inr e ↦ rw e h
    ]

    with_challenge-Lacks :
        (rs : List (Fields F)) (context : Fields F)
        → Lacks key context
        → Lacks key (with_challenge o rs context)
    unfolding with_challenge
    with_challenge-Lacks [] context h = h
    with_challenge-Lacks (r ∷ rs) context h =
        elim (Bool-cases (has_key (codes "challenge_data") context)) [
          | inl e ↦ rw e h
          | inr e ↦ rw e (set_field-Lacks (codes "challenge_data") key _ context n.not_challenge h)
        ]

    with_history-Lacks :
        (memory : Option (SessionTimeline F)) (id : Text) (context : Fields F)
        → Lacks key context
        → Lacks key (with_history o memory id context)
    unfolding with_history
    with_history-Lacks memory id context h =
        elim (Bool-cases (has_key (codes "session_history") context)) [
          | inl e ↦ rw e h
          | inr e ↦ rw e (go memory)
        ]
      where
        go : (memory : Option (SessionTimeline F)) → Lacks key (history_from o memory id context)
        go none = h
        go (some t) = set_field-Lacks (codes "session_history") key _ context n.not_history h

    with_identity-Lacks :
        (hash : Text → Text) (graph : Option (IdentityGraph F)) (id : Text) (context : Fields F)
        → text_eq (codes "identity_refs") key ≡ false
        → Lacks key context
        → (ctx : Fields F) → with_identity o hash graph id context ≡ some ctx
        → Lacks key ctx
    unfolding with_identity
    with_identity-Lacks hash none id context i h ctx e = subst (λ z. Always (Lacks key) z) e h
    with_identity-Lacks hash (some g) id context i h ctx e =
        subst (λ z. Always (Lacks key) z) e
          (elim (Bool-cases (has_key (codes "identity_refs") context)) [
            | inl f ↦ rw f h
            | inr f ↦ rw f (
                >>=-Always_any (Lacks {N = F} key)
                  (refs_from o (get_connected_sessions hash id g.graph)
                    (get_session_risk o hash id g))
                  (λ refs. some (set_field (codes "identity_refs") (obj refs) context))
                  (λ refs. set_field-Lacks (codes "identity_refs") key (obj refs) context i h))
          ])

    pub known-Lacks :
        (memory : Option (SessionTimeline F)) (id : Text) (session : Fields F)
        (rs : List (Fields F)) (context : Fields F)
        → Lacks key context
        → Lacks key
            (with_history o memory id (with_challenge o rs (with_session o session context)))
    known-Lacks memory id session rs context h =
        with_history-Lacks memory id _
          (with_challenge-Lacks rs _ (with_session-Lacks session context h))

    pub prepare-Lacks :
        (hash : Text → Text) (ensemble : Ensemble o) (id : Text) (session : Fields F)
        (rs : List (Fields F)) (context : Fields F)
        → text_eq (codes "identity_refs") key ≡ false
        → Lacks key context
        → (ctx : Fields F) → prepare o hash ensemble id session rs context ≡ some ctx
        → Lacks key ctx
    unfolding prepare
    prepare-Lacks hash ensemble id session rs context i h ctx e =
        with_identity-Lacks hash ensemble.identity_graph id _ i
          (known-Lacks ensemble.memory id session rs context h) ctx e

  -- The key `identity_refs`, which only the last step adds.
  module _ (hash : Text → Text) (g : IdentityGraph F) (id : Text) where
    pub with_identity_refs :
        (context : Fields F)
        → Lacks (codes "identity_refs") context
        → (ctx : Fields F) → with_identity o hash (some g) id context ≡ some ctx
        → (refs : Fields F) × (refs_from o
              (get_connected_sessions hash id g.graph)
              (get_session_risk o hash id g)
            ≡ some refs)
          × (get (codes "identity_refs") ctx ≡ obj refs)
    unfolding with_identity
    with_identity_refs context h ctx e =
        let (refs, found, same) =
          >>=-eq-some
            (refs_from o (get_connected_sessions hash id g.graph) (get_session_risk o hash id g))
            (λ refs. some (set_field (codes "identity_refs") (obj refs) context)) (rw h at e) in
        (
          refs,
          found,
          subst (λ z. Always (λ d. get (codes "identity_refs") d ≡ obj refs) z) same
              (get_or-set_field_same (codes "identity_refs") (obj refs) null context),
        )
