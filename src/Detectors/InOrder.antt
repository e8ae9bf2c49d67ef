-- ===== src/Detectors/InOrder.antt =====
-- What a row of detectors emits: each at most one signal, under its own reason code, in the order
-- in which the row runs them.
use Prim.Native.String.{String}
use true_presence_ese.Base.{
  ◌≡◌, refl, Bool, true, false, Option, none, some, List, [], ◌∷◌, ◌++◌, if◌then◌else◌,
}
use true_presence_ese.Detectors.Signal.{DetectorSignal}

module _ {F : Type 0} (P : DetectorSignal F → Type 0) where
  pub data Emits (code : String) : List (DetectorSignal F) → Type 0 where
    silent : Emits code []
    fires : (s : DetectorSignal F) → s.reason_code ≡ code → P s → Emits code (s ∷ [])

  pub data InOrder : List String → List (DetectorSignal F) → Type 0 where
    done : InOrder [] []
    skip :
        {code : String} {codes : List String} {signals : List (DetectorSignal F)}
        → InOrder codes signals
        → InOrder (code ∷ codes) signals
    emit :
        {code : String} {codes : List String} {signals : List (DetectorSignal F)}
        (s : DetectorSignal F)
        → s.reason_code ≡ code
        → P s
        → InOrder codes signals
        → InOrder (code ∷ codes) (s ∷ signals)

module _ {F : Type 0} {P : DetectorSignal F → Type 0} where
  pub InOrder-append :
      {code : String} {codes : List String} {xs ys : List (DetectorSignal F)}
      → Emits P code xs
      → InOrder P codes ys
      → InOrder P (code ∷ codes) (xs ++ ys)
  InOrder-append silent rest = InOrder.skip rest
  InOrder-append (fires s e p) rest = InOrder.emit s e p rest

  pub InOrder-last :
      {code : String} {xs : List (DetectorSignal F)} → Emits P code xs → InOrder P (code ∷ []) xs
  InOrder-last silent = InOrder.skip InOrder.done
  InOrder-last (fires s e p) = InOrder.emit s e p InOrder.done

  -- The shapes in which detectors return.
  pub Emits-unless :
      {code : String} (skip : Bool) {xs : List (DetectorSignal F)}
      → Emits P code xs
      → Emits P code (if skip then [] else xs)
  Emits-unless true h = Emits.silent
  Emits-unless false h = h

  -- The same where the signal rests on the test's outcome.
  pub Emits-unless_eq :
      {code : String} (skip : Bool) {xs : List (DetectorSignal F)}
      → (skip ≡ false → Emits P code xs)
      → Emits P code (if skip then [] else xs)
  Emits-unless_eq true h = Emits.silent
  Emits-unless_eq false h = h refl

  pub Emits-if :
      {code : String} (b : Bool) {xs ys : List (DetectorSignal F)}
      → Emits P code xs
      → Emits P code ys
      → Emits P code (if b then xs else ys)
  Emits-if true h k = h
  Emits-if false h k = k

  pub Emits-option :
      {A : Type 0} {code : String} (x : Option A) (f : A → List (DetectorSignal F))
      → ((a : A) → Emits P code (f a))
      → Emits P code (elim x [ none ↦ [] | some a ↦ f a ])
  Emits-option none f h = Emits.silent
  Emits-option (some a) f h = h a
