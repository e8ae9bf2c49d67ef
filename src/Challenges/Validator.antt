-- ===== src/Challenges/Validator.antt =====
-- truepresence/challenges/validator.py.
use true_presence_ese.Base.{ltb, Bool, false, ◌&&◌, Option, none, some, length, if◌then◌else◌}
use true_presence_ese.Base.Text.{Text, strip, text_eq}
use true_presence_ese.Float.{Floats, lt, whole}

pub record ActiveChallenge (F : Type 0) : Type 0 where
  pub id : Text
  pub prompt : Text
  pub created_at : F

-- `active_challenges`, by session.
abbrev pub Active : Type 0 → Type 0
Active F = Text → Option (ActiveChallenge F)

abbrev pub set_active : {F : Type 0} → Text → Option (ActiveChallenge F) → Active F → Active F
set_active session c active = λ s. if text_eq session s then c else active s

pub data ValidationReason : Type 0 where
  no_active_challenge : ValidationReason
  timing_anomaly : ValidationReason
  correct : ValidationReason

-- `ttr` is missing without an active challenge.
pub record Validation (F : Type 0) : Type 0 where
  pub valid : Bool
  pub ttr : Option F
  pub reason : ValidationReason

module _ (o : Floats) where
  open o use {F, dec, sub}

  -- `now` is the time that the call reads, and `fresh_id` the new UUID.
  unfoldable pub issue_challenge : F → Text → Text → Text → Active F → ActiveChallenge F × Active F
  issue_challenge now fresh_id session prompt active =
      let c : ActiveChallenge F = record { id = fresh_id; prompt = prompt; created_at = now } in
      (c, set_active session (some c) active)

  abbrev pub is_timing_valid : F → Bool
  is_timing_valid ttr = lt o (dec 100) ttr && lt o ttr (whole o 30)

  abbrev pub is_correct : Text → Bool
  is_correct response = ltb 0 (length (strip response))

  unfoldable pub validate_response : F → Text → Text → Active F → Validation F × Active F
  validate_response now session response active = elim (active session) [
    | none ↦ (record { valid = false; ttr = none; reason = no_active_challenge }, active)
    | some c ↦ (
      record {
        valid = is_correct response && is_timing_valid (sub now c.created_at);
        ttr = some (sub now c.created_at);
        reason = if is_timing_valid (sub now c.created_at) then correct else timing_anomaly;
      },
      set_active session none active,
    )
  ]
