-- ===== src/Scoring/Action.antt =====
-- `_recommended_action` of truepresence/scoring/model.py.
use true_presence_ese.Base.{ℕ, ◌≤◌, ◌≡◌, ◌↔◌, true, false, arith}
use true_presence_ese.Float.{Floats, IsFloats}
use true_presence_ese.Sdk.{
  RecommendedAction, allow, observe, soft_challenge, step_up_auth, manual_review,
}
use true_presence_ese.Scoring.Model.{recommended_action}

-- How strongly an action steps in.
abbrev pub strength : RecommendedAction → ℕ
strength allow = 0
strength observe = 1
strength soft_challenge = 2
strength step_up_auth = 3
strength manual_review = 4

module _ (o : Floats) (l : IsFloats o) where
  open o use {F, dec, le}

  -- At a given confidence, a higher risk never brings a milder action.
  pub recommended_action_mono :
      (r s c : F)
      → le r s ≡ true
      → strength (recommended_action o r c) ≤ strength (recommended_action o s c)
  unfolding recommended_action
  recommended_action_mono r s c h = ground (
    arith,
    l.le_trans (dec 30) r s,
    l.le_trans (dec 50) r s,
    l.le_trans (dec 70) r s,
    l.le_trans (dec 30) (dec 50) s,
    l.le_trans (dec 50) (dec 70) s,
    l.le_dec 30 50,
    l.le_dec 50 70,
    l.le_trans (dec 45) (dec 50) c,
    l.le_trans (dec 40) (dec 45) c,
    l.le_dec 45 50,
    l.le_dec 40 45,
  )

  -- A manual review is recommended exactly at a risk of 0.70 or more with a confidence of 0.45 or
  -- more, and the session is allowed exactly at a risk below 0.30 with a confidence of 0.50 or more.
  pub recommended_action_ends :
      (r c : F)
      → ((recommended_action o r c ≡ manual_review)
          ↔ ((le (dec 70) r ≡ true) × (le (dec 45) c ≡ true)))
        × ((recommended_action o r c ≡ allow) ↔ ((le (dec 30) r ≡ false) × (le (dec 50) c ≡ true)))
  unfolding recommended_action
  recommended_action_ends r c = (
    (
      (λ h. ground arith),
      (λ h. ground (
        arith,
        l.le_trans (dec 30) (dec 70) r,
        l.le_trans (dec 50) (dec 70) r,
        l.le_dec 30 70,
        l.le_dec 50 70,
      )),
    ),
    ((λ h. ground arith), (λ h. ground arith)),
  )
