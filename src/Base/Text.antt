-- ===== src/Base/Text.antt =====
-- Tests on whole texts.
use Prim.Native.Char.{code}
use Prim.Native.Nat.{ℕ}
use Prim.Native.String.{String}
use mathlib.Core.Path.{◌≡◌}
use mathlib.Core.Logic.{◌↔◌}
use mathlib.Core.Bool.{Bool, true, false, ◌||◌}
use mathlib.Core.List.{List, [], ◌∷◌}
use text.Mathlib.Text.{◌==◌}
use text.Mathlib.TextEquality.{eq_iff}

-- Go's `==` on strings. Shut, so that a proof splits on the test and not on the texts.
unfoldable pub str_eq : String → String → Bool
str_eq s t = s == t

-- `s == ""`
unfoldable pub blank : String → Bool
blank s = s == ""

pub str_eq_iff : (s t : String) → (str_eq s t ≡ true) ↔ (s ≡ t)
unfolding str_eq
str_eq_iff s t = eq_iff s t

pub blank_iff : (s : String) → (blank s ≡ true) ↔ (s ≡ "")
unfolding blank
blank_iff s = eq_iff s ""

-- The code points of a text: its bytes, if it is ASCII.
abbrev pub codes : String → List ℕ
codes String.[] = []
codes (String.◌∷◌ c s) = code c ∷ codes s

-- slices.Contains on a list of strings.
abbrev pub contains : List String → String → Bool
contains [] s = false
contains (t ∷ ts) s = str_eq t s || contains ts s
