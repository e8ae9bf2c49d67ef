-- ===== src/Challenges/Asked.antt =====
-- Which questions truepresence/challenges/profile.py asks.
use true_presence_ese.Base.{
  ℕ, zero, suc, ◌%◌, ◌<◌, ◌≡◌, refl, true, some, List, [], ◌∷◌, length, Has, arith, inl, inr,
}
use true_presence_ese.Base.Text.{Text}
use true_presence_ese.Challenges.Profile.{
  ProfileChallenge, get_elem?, stable_index, question_index, question_at, get_challenge,
}

get_elem?-Has :
    (xs : List Text) (i : ℕ) → i < length xs → (x : Text) × (get_elem? xs i ≡ some x) × Has x xs
unfolding get_elem?
get_elem?-Has [] i h = ground arith
get_elem?-Has (x ∷ xs) zero h = (x, refl, inl refl)
get_elem?-Has (x ∷ xs) (suc i) h =
    let rest = get_elem?-Has xs i (omega arith) in (rest.0, rest.1, inr rest.2)

module _ (digest : Text → ℕ) (hexdigest : Text → Text) (randint : ℕ → ℕ) where
  index_bounded :
      (session_id : Text) (q : Text) (qs : List Text)
      → ((n : ℕ) → 0 < n → randint n < n)
      → (i : ℕ) × (question_index digest hexdigest randint session_id (length (q ∷ qs)) ≡ some i)
        × (i < length (q ∷ qs))
  unfolding question_index stable_index
  index_bounded [] q qs r = (randint (length (q ∷ qs)), refl, r (length (q ∷ qs)) (omega arith))
  index_bounded (c ∷ s) q qs r = (digest (c ∷ s) % length (q ∷ qs), refl, omega arith)

  -- An enabled profile with questions always gives a challenge, whatever the session, and its
  -- prompt is one of the questions.
  pub get_challenge-Has :
      {F : Type 0} (session_id q : Text) (qs : List Text) (threshold : F)
      → ((n : ℕ) → 0 < n → randint n < n)
      → (c : ProfileChallenge) × (get_challenge digest hexdigest randint session_id
            (record { enabled = true; risk_threshold = threshold; questions = q ∷ qs })
          ≡ some c)
        × Has c.prompt (q ∷ qs)
  unfolding get_challenge question_at
  get_challenge-Has session_id q qs threshold r =
      let i = index_bounded session_id q qs r in
      let x = get_elem?-Has (q ∷ qs) i.0 i.2 in
      rw (i.1, get_challenge) (rw (x.1, question_at) (_, refl, x.2))
