-- ===== src/Detectors/Strength.antt =====
-- The signals of risk that the SDK detectors of truepresence/detectors/ build from a literal or
-- a raised confidence.
use Prim.Native.String.{String}
use true_presence_ese.Base.{ℕ, ◌≤◌, ◌≡◌, refl, ◌≢◌, true, List, [], ◌∷◌, arith, le→leb, ◌∙◌}
use true_presence_ese.Float.{Floats, IsFloats, min_f}
use true_presence_ese.Float.Laws.{clamp-dec, clamp-le, le-clamp, le-min_f, min_f-le_left}
use true_presence_ese.Detectors.Signal.{
  Severity, low, medium, high, ContributionTarget, automation, agentic_control, SignalCategory,
  agentic_behavior, DetectorSignal, signal,
}
use true_presence_ese.Detectors.InOrder.{Emits}
use true_presence_ese.Detectors.Agentic.{agentic_signal}

-- The target that goes with a category.
abbrev pub target_of : SignalCategory → ContributionTarget
target_of agentic_behavior = agentic_control
target_of _ = automation

module _ (o : Floats) where
  open o use {F, dec, le}

  -- Evidence of risk, never of a human; agentic evidence in the agentic category alone; never
  -- certain, and weak where the severity is low.
  pub record IsRiskSignal (s : DetectorSignal F) : Type 0 where
    pub targeted : s.contribution_target ≡ target_of s.category
    pub at_least : le (dec 35) s.confidence ≡ true
    pub at_most : le s.confidence (dec 92) ≡ true
    pub weak : s.severity ≡ low → le s.confidence (dec 45) ≡ true

pub medium≢low : medium ≢ low
medium≢low e = cc

pub high≢low : high ≢ low
high≢low e = cc

module _ (o : Floats) (l : IsFloats o) where
  open o use {F, dec, le, add, sub, mul, div}

  pub le_literals : (a b : ℕ) → a ≤ b → b ≤ 100 → le (dec a) (dec b) ≡ true
  le_literals a b h k = l.le_dec a b (omega arith) (omega arith) ∙ le→leb a b h

  abbrev pub IsStrong : Severity → F → Type 0
  IsStrong severity c = (severity ≢ low) × (le (dec 55) c ≡ true) × (le c (dec 92) ≡ true)

  -- A signal whose confidence lies between 0.55 and 0.92.
  pub strong_signal :
      (severity : Severity) (c : F) (code text : String) (category : SignalCategory)
      → IsStrong severity c
      → Emits
          (IsRiskSignal o)
          code
          (signal o code severity c (target_of category) text category ∷ [])
  unfolding signal
  strong_signal severity c code text category h =
      let above : le c (dec 100) ≡ true =
        l.le_trans c (dec 92) (dec 100) h.2 (le_literals 92 100 (omega arith) (omega arith)) in
      let below : le (dec 0) c ≡ true =
        l.le_trans (dec 0) (dec 55) c (le_literals 0 55 (omega arith) (omega arith)) h.1 in
      Emits.fires _ refl (record {
        targeted = refl;
        at_least =
            l.le_trans (dec 35) (dec 55) _ (le_literals 35 55 (omega arith) (omega arith))
              (l.le_trans (dec 55) c _ h.1 (le-clamp o l c above));
        at_most = l.le_trans _ c (dec 92) (clamp-le o l c below) h.2;
        weak = λ e. absurd (h.0 e);
      })

  pub IsStrong-literal :
      (severity : Severity) (n : ℕ) → severity ≢ low → 55 ≤ n → n ≤ 92 → IsStrong severity (dec n)
  IsStrong-literal severity n s h k =
      (s, le_literals 55 n h (omega arith), le_literals n 92 k (omega arith))

  pub weak_signal :
      (n : ℕ) (code text : String) (category : SignalCategory)
      → 35 ≤ n
      → n ≤ 45
      → Emits
          (IsRiskSignal o)
          code
          (signal o code low (dec n) (target_of category) text category ∷ [])
  unfolding signal
  weak_signal n code text category h k = Emits.fires _ refl (record {
    targeted = refl;
    at_least = rw (clamp-dec o l n (omega arith)) (le_literals 35 n h (omega arith));
    at_most = rw (clamp-dec o l n (omega arith)) (le_literals n 92 (omega arith) (omega arith));
    weak = λ e. rw (clamp-dec o l n (omega arith)) (le_literals n 45 k (omega arith));
  })

  abbrev pub EmitsRisk : String → List (DetectorSignal F) → Type 0
  EmitsRisk code signals = Emits (IsRiskSignal o) code signals

  pub literal_signal :
      (severity : Severity) (n : ℕ) (code text : String) (category : SignalCategory)
      → severity ≢ low
      → 55 ≤ n
      → n ≤ 92
      → EmitsRisk code (signal o code severity (dec n) (target_of category) text category ∷ [])
  literal_signal severity n code text category s h k =
      strong_signal severity (dec n) code text category (IsStrong-literal severity n s h k)

  pub medium_literal :
      (n : ℕ) (code text : String) (category : SignalCategory)
      → 55 ≤ n
      → n ≤ 92
      → EmitsRisk code (signal o code medium (dec n) (target_of category) text category ∷ [])
  medium_literal n code text category h k =
      literal_signal medium n code text category medium≢low h k

  pub high_literal :
      (n : ℕ) (code text : String) (category : SignalCategory)
      → 55 ≤ n
      → n ≤ 92
      → EmitsRisk code (signal o code high (dec n) (target_of category) text category ∷ [])
  high_literal n code text category h k = literal_signal high n code text category high≢low h k

  pub raised-IsStrong :
      (severity : Severity) (c bonus : F) (cap : ℕ)
      → severity ≢ low
      → le (dec 55) c ≡ true
      → le (dec 0) bonus ≡ true
      → 55 ≤ cap
      → cap ≤ 92
      → IsStrong severity (min_f o (dec cap) (add c bonus))
  raised-IsStrong severity c bonus cap s h b j k = (
    s,
    le-min_f o l (dec cap) (add c bonus) (dec 55) (le_literals 55 cap j (omega arith))
        (l.le_trans (dec 55) c (add c bonus) h (l.le-add c bonus b)),
    l.le_trans (min_f o (dec cap) (add c bonus)) (dec cap) (dec 92)
        (min_f-le_left o l (dec cap) (add c bonus)) (le_literals cap 92 k (omega arith)),
  )

  pub agentic_strong :
      (severity : Severity) (c : F) (code text : String)
      → IsStrong severity c
      → EmitsRisk code (agentic_signal o code severity c text ∷ [])
  unfolding agentic_signal
  agentic_strong severity c code text h = strong_signal severity c code text agentic_behavior h

  pub agentic_high :
      (n : ℕ) (code text : String)
      → 55 ≤ n
      → n ≤ 92
      → EmitsRisk code (agentic_signal o code high (dec n) text ∷ [])
  agentic_high n code text h k =
      agentic_strong high (dec n) code text (IsStrong-literal high n high≢low h k)

  pub agentic_medium :
      (n : ℕ) (code text : String)
      → 55 ≤ n
      → n ≤ 92
      → EmitsRisk code (agentic_signal o code medium (dec n) text ∷ [])
  agentic_medium n code text h k =
      agentic_strong medium (dec n) code text (IsStrong-literal medium n medium≢low h k)
