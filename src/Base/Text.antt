-- ===== src/Base/Text.antt =====
-- A `std::string` as the list of its bytes, and its comparison.
use av_hil_validation_platfo.Base.Tests.{◌==◌, ==_self, if◌then◌else◌}
use Prim.Native.Nat.{ℕ}
use Prim.Native.Char.{code}
use Prim.Native.String.{String}
use mathlib.Core.Path.{◌≡◌, refl, ap₂}
use mathlib.Core.Bool.{Bool, true, false, ◌||◌}
use mathlib.Core.List.{List, [], ◌∷◌}
use native.Mathlib.Omega.{arith}

abbrev pub Text : Type 0
Text = List ℕ

-- The bytes of a literal, all of them ASCII.
abbrev pub codes : String → Text
codes String.[] = []
codes (String.◌∷◌ c s) = code c ∷ codes s

-- `s == t`
abbrev pub same : Text → Text → Bool
same [] [] = true
same (x ∷ s) (y ∷ t) = if x == y then same s t else false
same _ _ = false

abbrev pub is_empty : Text → Bool
is_empty [] = true
is_empty (x ∷ s) = false

-- `std::find(v.begin(), v.end(), s) != v.end()`
abbrev pub contains : Text → List Text → Bool
contains s [] = false
contains s (t ∷ v) = same t s || contains s v

pub same_self : (s : Text) → same s s ≡ true
same_self [] = refl
same_self (x ∷ s) = rw (==_self x) (same_self s)

pub eq_of_same : (s t : Text) → same s t ≡ true → s ≡ t
eq_of_same [] [] h = refl
eq_of_same (x ∷ s) (y ∷ t) h =
    ap₂ (λ a b. a ∷ b) (ground (arith, h)) (eq_of_same s t (ground (arith, h)))
eq_of_same [] (y ∷ t) h = absurd (ground (arith, h))
eq_of_same (x ∷ s) [] h = absurd (ground (arith, h))
