-- ===== src/Challenges/Examples.antt =====
-- A challenge that is issued, answered in time and answered again; and a profile of two questions.
use true_presence_ese.Base.{ℕ, ◌≤◌, ◌<◌, ◌≡◌, refl, true, false, none, some, List, [], ◌∷◌}
use true_presence_ese.Base.Text.{codes, text_eq, strip, drop_spaces, is_space}
use true_presence_ese.Float.Fixed.{fixed}
use true_presence_ese.Challenges.Validator.{
  ActiveChallenge, Active, issue_challenge, validate_response, is_timing_valid, is_correct,
}
use true_presence_ese.Challenges.Replay.{
  Call, issuing, answering, accepted_answers, issued, accepted_answers-le_issued,
}
use true_presence_ese.Challenges.Profile.{ChallengeProfile}

-- Issued at 0 s, answered at 5 s and once more at 6 s.
abbrev calls : List (Call ℕ)
calls =
    issuing 0 (codes "c1") (codes "s") (codes "say a word")
    ∷ answering 50000 (codes "s") (codes "word")
    ∷ answering 60000 (codes "s") (codes "word")
    ∷ []

program : Unit {0}
unfolding accepted_answers issued issue_challenge validate_response text_eq strip drop_spaces
    is_space
program = tt

one_accepted : accepted_answers fixed (codes "s") calls (λ t. none) ≡ 1
unfolding program
one_accepted = refl

accepted_answers-le_issued_example :
    accepted_answers fixed (codes "s") calls (λ t. none) ≤ issued fixed (codes "s") calls
accepted_answers-le_issued_example = accepted_answers-le_issued fixed (codes "s") calls

abbrev asked : ActiveChallenge ℕ
asked = record { id = codes "c1"; prompt = codes "say a word"; created_at = 0 }

abbrev all_asked : Active ℕ
all_asked s = some asked

blank : is_correct fixed (codes " ") ≡ false
unfolding program
blank = refl

in_time : is_timing_valid fixed (fixed.sub 50000 asked.created_at) ≡ true
in_time = refl

abbrev two_questions : ChallengeProfile ℕ
two_questions = record {
  enabled = true;
  risk_threshold = 7000;
  questions = codes "colour" ∷ codes "day" ∷ [];
}

zero_below : (n : ℕ) → 0 < n → 0 < n
zero_below n h = h
