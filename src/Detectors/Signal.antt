-- ===== src/Detectors/Signal.antt =====
-- `DetectorSignal` of truepresence/detectors/human_plausibility.py, and the tests on optional
-- fields that all detectors share.
use Prim.Native.String.{String}
use true_presence_ese.Base.{ℕ, Bool, true, false, Option, none, some}
use true_presence_ese.Float.{Floats, zero_f, clamp}

pub data Severity : Type 0 where
  low medium high : Severity

pub data ContributionTarget : Type 0 where
  human_presence automation agentic_control : ContributionTarget

pub data SignalCategory : Type 0 where
  timing_plausibility typing_cadence input_method pointer_behavior : SignalCategory
  session_continuity environment agentic_behavior external_provider : SignalCategory

pub record DetectorSignal (F : Type 0) : Type 0 where
  pub reason_code : String
  pub severity : Severity
  pub confidence : F
  pub contribution_target : ContributionTarget
  pub category : SignalCategory
  pub explanation : String

-- `x or 0` for a count, and 1 for a test that holds.
abbrev pub or_zero : Option ℕ → ℕ
or_zero none = 0
or_zero (some n) = n

abbrev pub one_if : Bool → ℕ
one_if true = 1
one_if false = 0

module _ (o : Floats) where
  open o use {F, dec, le}

  unfoldable pub signal :
      String → Severity → F → ContributionTarget → String → SignalCategory → DetectorSignal F
  signal reason_code severity confidence target explanation category = record {
    reason_code = reason_code;
    severity = severity;
    confidence = clamp o confidence;
    contribution_target = target;
    category = category;
    explanation = explanation;
  }

  -- `x or 0` for a float.
  abbrev pub or_zero_f : Option F → F
  or_zero_f none = zero_f o
  or_zero_f (some x) = x

  -- `x is not None and x <= bound`, and the same with `>=`.
  abbrev pub is_at_most : Option F → F → Bool
  is_at_most none bound = false
  is_at_most (some x) bound = le x bound

  abbrev pub is_at_least : Option F → F → Bool
  is_at_least none bound = false
  is_at_least (some x) bound = le bound x
