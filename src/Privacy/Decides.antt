-- ===== src/Privacy/Decides.antt =====
-- A scan as a function on the list of violations: when it adds nothing, and how scans compose.
-- Each rule serves one way in which truepresence/sdk/privacy.py builds its scans.
use true_presence_ese.Base.{
  ◌≤◌, ◌≡◌, refl, ap, ◌∙◌, Bool, true, false, List, [], ◌∷◌, length, length-append, arith,
  if◌then◌else◌,
}
use true_presence_ese.Base.Text.{Text}
use true_presence_ese.Privacy.Scan.{append_path}

-- `scan` leaves the violations as they are exactly when `P` holds, and never removes one.
pub record Decides (scan : List Text → List Text) (P : Type 0) : Type 0 where
  pub grows : (vs : List Text) → length vs ≤ length (scan vs)
  pub quiet : P → (vs : List Text) → scan vs ≡ vs
  pub sound : (vs : List Text) → length (scan vs) ≤ length vs → P

pub Decides-nothing : Decides (λ vs. vs) Unit
Decides-nothing = record { grows = λ vs. omega arith; quiet = λ p vs. refl; sound = λ vs h. tt }

pub Decides-append_path : (path : Text) → Decides (λ vs. append_path vs path) ⊥
Decides-append_path path = record {
  grows = λ vs. omega (arith, length-append vs (path ∷ []));
  quiet = λ p vs. absurd p;
  sound = λ vs h. omega (arith, length-append vs (path ∷ []));
}

pub Decides-then :
    {f g : List Text → List Text} {P Q : Type 0}
    → Decides f P
    → Decides g Q
    → Decides (λ vs. g (f vs)) (P × Q)
Decides-then {f} {g} df dg = record {
  grows = λ vs. omega (arith, df.grows vs, dg.grows (f vs));
  quiet = λ p vs. ap g (df.quiet p.0 vs) ∙ dg.quiet p.1 vs;
  sound = λ vs h.
      (df.sound vs (omega (arith, dg.grows (f vs))), dg.sound (f vs) (omega (arith, df.grows vs)));
}

pub Decides-iff :
    {f : List Text → List Text} {P Q : Type 0} → (P → Q) → (Q → P) → Decides f P → Decides f Q
Decides-iff to from d = record {
  grows = d.grows;
  quiet = λ q. d.quiet (from q);
  sound = λ vs h. to (d.sound vs h);
}

-- `if bad: violations.append(path); continue`, and a scan of the value otherwise.
pub Decides-refuse :
    (bad : Bool) (path : Text) {g : List Text → List Text} {Q : Type 0}
    → Decides g Q
    → Decides (λ vs. if bad then append_path vs path else g vs) ((bad ≡ false) × Q)
Decides-refuse true path d = Decides-iff (λ b. absurd b) (λ p. cc p.0) (Decides-append_path path)
Decides-refuse false path d = Decides-iff (λ q. (refl, q)) (λ p. p.1) d

-- `if not listed: violations.append(path)`, and a scan of the value in either case.
pub Decides-require :
    (listed : Bool) (path : Text) {f g : List Text → List Text} {P Q : Type 0}
    → Decides f P
    → Decides g Q
    → Decides (λ vs. if listed then f vs else g (append_path vs path)) ((listed ≡ true) × P)
Decides-require true path df dg = Decides-iff (λ q. (refl, q)) (λ p. p.1) df
Decides-require false path df dg =
    Decides-iff (λ b. absurd b.0) (λ p. cc p.0) (Decides-then (Decides-append_path path) dg)

pub Decides-if :
    (b : Bool) {f g : List Text → List Text} {P Q : Type 0}
    → Decides f P
    → Decides g Q
    → Decides (λ vs. if b then f vs else g vs) (if b then P else Q)
Decides-if true df dg = df
Decides-if false df dg = dg
