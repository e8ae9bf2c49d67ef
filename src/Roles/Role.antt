-- ===== src/Roles/Role.antt =====
-- `Role` of truepresence/core/roles/base.py, and the tests that the roles put to a value.
use Prim.Native.String.{String}
use true_presence_ese.Base.{ℕ, Bool, true, false, Option, none, some, if◌then◌else◌}
use true_presence_ese.Base.Text.{codes}
use true_presence_ese.Json.{obj, Fields, end, get_or, num}
use true_presence_ese.Float.{Floats, lt, zero_f}
use true_presence_ese.Memory.IdentityGraph.{as_dict}
use true_presence_ese.Memory.Risk.{as_number}
pub use true_presence_ese.Base.Steps.{◌>>=◌, Returns}

-- `a and b` and `a or b`, where a test that is reached may raise.
abbrev pub both_hold : Option Bool → Option Bool → Option Bool
both_hold none b = none
both_hold (some false) b = some false
both_hold (some true) b = b

abbrev pub either_holds : Option Bool → Option Bool → Option Bool
either_holds none b = none
either_holds (some true) b = some true
either_holds (some false) b = b

module _ (o : Floats) where
  open o use {F, dec}

  -- `evidence.get("signals", {})`
  abbrev pub signals_of : Fields F → Option (Fields F)
  signals_of evidence = as_dict o (get_or (codes "signals") (obj end) evidence)

  -- `d.get(key, default)` where it is computed with.
  abbrev pub number_of : String → ℕ → Fields F → Option F
  number_of key default d = as_number o (get_or (codes key) (num (dec default)) d)

  -- `d.get(key, default) > n`
  abbrev pub above : String → ℕ → ℕ → Fields F → Option Bool
  above key default n d = number_of key default d >>= λ x. some (lt o (dec n) x)

  -- `d.get(key, default) < n`
  abbrev pub below : String → ℕ → ℕ → Fields F → Option Bool
  below key default n d = number_of key default d >>= λ x. some (lt o x (dec n))

  -- `_last_confidence`, and whether `_last_error` is set.
  pub record Role : Type 0 where
    pub last_confidence : F
    pub last_error : Bool

  unfoldable pub new_role : Role
  new_role = record { last_confidence = dec 50; last_error = false }

  -- What `evaluate` leaves in the role, from the confidence of its result; none where it raises.
  unfoldable pub remember : Option F → Role → Role
  remember none role = record role { last_error = true }
  remember (some confidence) role = record role { last_confidence = confidence; last_error = false }

  unfoldable pub get_confidence : Role → F
  get_confidence role = if role.last_error then zero_f o else role.last_confidence
