-- ===== src/Challenges/Profile.antt =====
-- truepresence/challenges/profile.py and deterministic.py. `digest` stands for the first four bytes
-- of a SHA-256 digest as a number, `hexdigest` for the whole in hexadecimal, and `randint` for the
-- draw of a number below its argument.
use true_presence_ese.Base.{
  ℕ, zero, suc, ◌%◌, Bool, true, false, not, ◌||◌, Option, none, some, List, [], ◌∷◌, ◌++◌, length,
  if◌then◌else◌,
}
use true_presence_ese.Base.Text.{Text, codes, mem_text, text_eq, show}
use true_presence_ese.Float.{Floats, clamp}

pub record ChallengeProfile (F : Type 0) : Type 0 where
  pub enabled : Bool
  pub risk_threshold : F
  pub questions : List Text

pub record ProfileChallenge : Type 0 where
  pub id : Text
  pub prompt : Text
  pub type : Text

-- `xs[index]`, none where it raises an IndexError.
unfoldable pub get_elem? {ℓ} : {A : Type ℓ} → List A → ℕ → Option A
get_elem? [] index = none
get_elem? (x ∷ xs) zero = some x
get_elem? (x ∷ xs) (suc index) = get_elem? xs index

-- `text[:n]`
unfoldable pub take {ℓ} : {A : Type ℓ} → ℕ → List A → List A
take zero xs = []
take (suc n) [] = []
take (suc n) (x ∷ xs) = x ∷ take n xs

-- `session_id or "anonymous"`
abbrev session_or_anonymous : Text → Text
session_or_anonymous [] = codes "anonymous"
session_or_anonymous (c ∷ session_id) = c ∷ session_id

abbrev is_empty : List Text → Bool
is_empty [] = true
is_empty (q ∷ qs) = false

module _ (digest : Text → ℕ) (hexdigest : Text → Text) where
  -- A count that is not positive raises a ValueError.
  unfoldable pub stable_index : Text → ℕ → Option ℕ
  stable_index session_id zero = none
  stable_index session_id (suc n) = some (digest session_id % suc n)

  unfoldable pub stable_challenge_id : Text → ℕ → Text
  unfolding take show
  stable_challenge_id session_id index =
      codes "challenge_" ++ take 12 (hexdigest (session_id ++ codes ":" ++ show index))

  module _ (randint : ℕ → ℕ) where
    -- `if session_id:`; the other branch draws a number from 0 to count - 1.
    unfoldable pub question_index : Text → ℕ → Option ℕ
    unfolding stable_index
    question_index [] count = some (randint count)
    question_index (c ∷ session_id) count = stable_index (c ∷ session_id) count

    unfoldable pub question_at : Text → Option ℕ → List Text → Option ProfileChallenge
    unfolding get_elem? stable_challenge_id
    question_at session_id none questions = none
    question_at session_id (some index) questions = elim (get_elem? questions index) [
      | none ↦ none
      | some question ↦ some (record {
        id = stable_challenge_id (session_or_anonymous session_id) index;
        prompt = question;
        type = codes "memory_verification";
      })
    ]

    -- None without a challenge; an exception is none as well. No session id is the empty one.
    unfoldable pub get_challenge :
        {F : Type 0} → Text → ChallengeProfile F → Option ProfileChallenge
    unfolding question_index question_at
    get_challenge session_id p =
        if not p.enabled || is_empty p.questions
        then none
        else question_at session_id (question_index session_id (length p.questions)) p.questions

-- `if question not in questions: questions.append(question)`
unfoldable pub add_question : {F : Type 0} → Text → ChallengeProfile F → ChallengeProfile F
unfolding mem_text
add_question question p =
    if mem_text question p.questions
    then p
    else record p { questions = p.questions ++ question ∷ [] }

-- `questions.remove(question)` takes the first one out.
unfoldable pub remove_first : Text → List Text → List Text
unfolding text_eq
remove_first question [] = []
remove_first question (q ∷ qs) =
    let rest = remove_first question qs in if text_eq q question then qs else q ∷ rest

unfoldable pub remove_question : {F : Type 0} → Text → ChallengeProfile F → ChallengeProfile F
unfolding remove_first mem_text
remove_question question p =
    if mem_text question p.questions
    then record p { questions = remove_first question p.questions }
    else p

module _ (o : Floats) where
  open o use {F, le}

  unfoldable pub should_challenge : F → ChallengeProfile F → Bool
  should_challenge risk_score p = if p.enabled then le p.risk_threshold risk_score else false

  unfoldable pub set_threshold : F → ChallengeProfile F → ChallengeProfile F
  set_threshold threshold p = record p { risk_threshold = clamp o threshold }

unfoldable pub set_enabled : {F : Type 0} → Bool → ChallengeProfile F → ChallengeProfile F
set_enabled enabled p = record p { enabled = enabled }
