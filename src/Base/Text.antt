-- ===== src/Base/Text.antt =====
-- Text as its code points: Python's `str`, with the operations that the program uses.
use Prim.Native.Char.{code}
use Prim.Native.String.{String}
use Prim.Native.Nat.{ℕ, zero, suc, ◌+◌, ◌/◌, ◌%◌}
use mathlib.Core.Path.{◌≡◌, refl}
use mathlib.Core.Bool.{Bool, true, false, ◌&&◌, ◌||◌}
use mathlib.Core.List.{List, [], ◌∷◌, ◌++◌, map, reverse}
use native.Mathlib.Omega.{arith}
use true_presence_ese.Base.Tests.{leb, ltb, ◌==◌, if◌then◌else◌}
use true_presence_ese.Base.Lists.{any}

abbrev pub Text : Type 0
Text = List ℕ

-- A literal of the source.
abbrev pub codes : String → Text
codes String.[] = []
codes (String.◌∷◌ c s) = code c ∷ codes s

unfoldable pub text_eq : Text → Text → Bool
text_eq [] [] = true
text_eq [] (d ∷ t) = false
text_eq (c ∷ s) [] = false
text_eq (c ∷ s) (d ∷ t) = (c == d) && text_eq s t

pub text_eq→eq : (s t : Text) → text_eq s t ≡ true → s ≡ t
unfolding text_eq
text_eq→eq [] [] h = refl
text_eq→eq [] (d ∷ t) h = ground arith
text_eq→eq (c ∷ s) [] h = ground arith
text_eq→eq (c ∷ s) (d ∷ t) h = ground (arith, text_eq→eq s t)

pub text_eq_refl : (s : Text) → text_eq s s ≡ true
unfolding text_eq
text_eq_refl [] = refl
text_eq_refl (c ∷ s) = ground (arith, text_eq_refl s)

-- `s in {...}` for a set of texts.
unfoldable pub mem_text : Text → List Text → Bool
unfolding text_eq
mem_text s set = any (text_eq s) set

-- `s.startswith(p)` and `p in s`.
unfoldable pub starts_with : Text → Text → Bool
starts_with s [] = true
starts_with [] (d ∷ p) = false
starts_with (c ∷ s) (d ∷ p) = (c == d) && starts_with s p

unfoldable pub contains : Text → Text → Bool
unfolding starts_with
contains [] p = starts_with [] p
contains (c ∷ s) p = starts_with (c ∷ s) p || contains s p

-- The code points for which `str.isspace` holds.
unfoldable pub is_space : ℕ → Bool
is_space c =
    (leb 9 c && leb c 13)
    || (leb 28 c && leb c 32)
    || (c == 133)
    || (c == 160)
    || (c == 5760)
    || (leb 8192 c && leb c 8202)
    || (c == 8232)
    || (c == 8233)
    || (c == 8239)
    || (c == 8287)
    || (c == 12288)

unfoldable pub drop_spaces : Text → Text
unfolding is_space
drop_spaces [] = []
drop_spaces (c ∷ s) = if is_space c then drop_spaces s else c ∷ s

-- `s.strip()`
unfoldable pub strip : Text → Text
unfolding drop_spaces
strip s = reverse (drop_spaces (reverse (drop_spaces s)))

-- `s.lower()`: ASCII letters here, other characters by the Unicode table `wide`.
unfoldable pub lower : (ℕ → Text) → Text → Text
lower wide [] = []
lower wide (c ∷ s) =
    (if leb 128 c then wide c else (if leb 65 c && leb c 90 then c + 32 else c) ∷ [])
    ++ lower wide s

-- `s.replace("-", "_")`
unfoldable pub dash_to_underscore : Text → Text
dash_to_underscore s = map (λ c. if c == 45 then 95 else c) s

digits_from : ℕ → ℕ → Text → Text
digits_from zero n rest = rest
digits_from (suc f) n rest =
    let more = digits_from f (n / 10) ((48 + n % 10) ∷ rest) in
    if ltb n 10 then (48 + n) ∷ rest else more

-- `str(n)`; a number has at most `n + 1` digits.
unfoldable pub show : ℕ → Text
unfolding digits_from
show n = digits_from (suc n) n []

show_example : show 2026 ≡ codes "2026"
unfolding show
show_example = refl

lower_example : lower (λ c. c ∷ []) (codes "Ab-C1") ≡ codes "ab-c1"
unfolding lower
lower_example = refl

strip_example : strip (codes "  a b ") ≡ codes "a b"
unfolding strip
strip_example = refl
