-- ===== src/Challenges/Replay.antt =====
-- A challenge of truepresence/challenges/validator.py is answered at most once.
use true_presence_ese.Base.{
  ℕ, ◌+◌, ◌≤◌, ◌≡◌, refl, subst, ◌↔◌, Bool, true, false, ◌&&◌, Option, none, some, List, [], ◌∷◌,
  arith, Bool-cases, Option-cases, inl, inr, if◌then◌else◌,
}
use true_presence_ese.Base.Text.{Text, text_eq, text_eq→eq}
use true_presence_ese.Float.{Floats}
use true_presence_ese.Challenges.Validator.{
  ActiveChallenge, Active, issue_challenge, is_timing_valid, is_correct, validate_response,
}

-- The calls of a client, with the time that each reads.
pub data Call (F : Type 0) : Type 0 where
  issuing : F → Text → Text → Text → Call F
  answering : F → Text → Text → Call F

abbrev one : Bool → ℕ
one b = if b then 1 else 0

abbrev is_active : {F : Type 0} → Option (ActiveChallenge F) → ℕ
is_active none = 0
is_active (some c) = 1

both_true : (a b : Bool) → (a && b) ≡ true → (a ≡ true) × (b ≡ true)
both_true a b h = ground arith

one_bounded : (b : Bool) → one b + 0 ≤ 1
one_bounded true = omega arith
one_bounded false = omega arith

module _ (o : Floats) where
  open o use {F, sub}

  -- The answers for a session that a run accepts, and the challenges that it issues.
  unfoldable pub accepted_answers : Text → List (Call F) → Active F → ℕ
  unfolding issue_challenge validate_response
  accepted_answers s [] active = 0
  accepted_answers s (issuing now id session prompt ∷ calls) active =
      accepted_answers s calls (issue_challenge o now id session prompt active).1
  accepted_answers s (answering now session response ∷ calls) active =
      one (text_eq session s && (validate_response o now session response active).0.valid)
      + accepted_answers s calls (validate_response o now session response active).1

  unfoldable pub issued : Text → List (Call F) → ℕ
  issued s [] = 0
  issued s (issuing now id session prompt ∷ calls) = one (text_eq session s) + issued s calls
  issued s (answering now session response ∷ calls) = issued s calls

  issue-active :
      (s : Text) (now : F) (id session prompt : Text) (active : Active F)
      → is_active ((issue_challenge o now id session prompt active).1 s)
        ≤ one (text_eq session s) + is_active (active s)
  unfolding issue_challenge
  issue-active s now id session prompt active = elim (Bool-cases (text_eq session s)) [
    | inl e ↦ rw e (omega arith)
    | inr e ↦ rw e (omega arith)
  ]

  -- Accepting an answer uses the challenge up.
  answer-active :
      (s : Text) (now : F) (session response : Text) (active : Active F)
      → one (text_eq session s && (validate_response o now session response active).0.valid)
          + is_active ((validate_response o now session response active).1 s)
        ≤ is_active (active s)
  unfolding validate_response
  answer-active s now session response active = elim (Option-cases (active session)) [
    | inl e ↦ rw (e, validate_response) (ground arith)
    | inr e ↦ elim (Bool-cases (text_eq session s)) [
      | inl f ↦
          rw (e.1, validate_response)
            (rw f (
              rw (subst (λ z. active z ≡ some e.0) (text_eq→eq session s f) e.1) (
                one_bounded (is_correct o response && is_timing_valid o (sub now e.0.created_at)))))
      | inr f ↦ rw (e.1, validate_response) (rw f (omega arith))
    ]
  ]

  accepted-bounded :
      (s : Text) (calls : List (Call F)) (active : Active F)
      → accepted_answers s calls active ≤ issued s calls + is_active (active s)
  unfolding accepted_answers issued
  accepted-bounded s [] active = omega arith
  accepted-bounded s (issuing now id session prompt ∷ calls) active = omega (
    arith,
    accepted-bounded s calls (issue_challenge o now id session prompt active).1,
    issue-active s now id session prompt active,
  )
  accepted-bounded s (answering now session response ∷ calls) active = omega (
    arith,
    accepted-bounded s calls (validate_response o now session response active).1,
    answer-active s now session response active,
  )

  -- In any run from a validator without challenges, a session has at most as many answers accepted
  -- as challenges issued to it.
  pub accepted_answers-le_issued :
      (s : Text) (calls : List (Call F)) → accepted_answers s calls (λ t. none) ≤ issued s calls
  accepted_answers-le_issued s calls = omega (arith, accepted-bounded s calls (λ t. none))

  -- An answer is valid exactly when the session has an active challenge, the answer is not blank
  -- and it comes more than 1 and less than 30 seconds after the challenge.
  pub validate_response-valid :
      (now : F) (session response : Text) (active : Active F)
      → ((validate_response o now session response active).0.valid ≡ true) ↔ (
          (c : ActiveChallenge F) × (active session ≡ some c)
          × (is_correct o response ≡ true)
          × (is_timing_valid o (sub now c.created_at) ≡ true))
  unfolding validate_response
  validate_response-valid now session response active = elim (Option-cases (active session)) [
    | inl e ↦ rw (e, validate_response) ((λ h. cc h), (λ h. cc h.1))
    | inr e ↦
        rw (e.1, validate_response)
          (
            (λ h.
                let b =
                  both_true (is_correct o response) (is_timing_valid o (sub now e.0.created_at))
                    h in
                (e.0, refl, b.0, b.1)),
            (λ h. ground (arith, h.1, h.2, h.3)),
          )
  ]
