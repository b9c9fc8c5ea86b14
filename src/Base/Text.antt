-- ===== src/Base/Text.antt =====
-- Texts: compared whole as `String`, and walked as the list of their code points.
use Prim.Native.Nat.{ℕ}
use Prim.Native.Char.{code}
use Prim.Native.String.{String}
use mathlib.Core.Bool.{Bool, true, false}
use huntarr.Base.Tests
use mathlib.Core.List.{List, [], ◌∷◌}
use mathlib.Core.Path.{◌≡◌, refl}
use text.Mathlib.Text.{◌==◌}
use text.Mathlib.TextEquality.{eq_iff}

abbrev pub codes : String → List ℕ
codes String.[] = []
codes (String.◌∷◌ c s) = code c ∷ codes s

-- The test of two texts, `===` on strings.
abbrev pub str_eq : String → String → Bool
str_eq s t = s == t

-- JavaScript's `s || t` for two strings: an empty `s` is falsy.
abbrev pub or_text : String → String → String
or_text String.[] t = t
or_text (String.◌∷◌ c s) t = String.◌∷◌ c s

-- `<` on texts, by code points, which is the order of their bytes in UTF-8.
unfoldable pub text_lt : List ℕ → List ℕ → Bool
text_lt [] [] = false
text_lt [] (d ∷ ds) = true
text_lt (c ∷ cs) [] = false
text_lt (c ∷ cs) (d ∷ ds) =
    let rest = text_lt cs ds in Tests.if◌then◌else◌ (Tests.◌==◌ c d) rest (Tests.ltb c d)

pub str_eq→eq : (s t : String) → str_eq s t ≡ true → s ≡ t
str_eq→eq s t h = (eq_iff s t).0 h

pub str_eq_self : (s : String) → str_eq s s ≡ true
str_eq_self s = (eq_iff s s).1 refl
