-- ===== src/Base/Trim.antt =====
-- `strings.TrimSpace` of Go's standard library.
use Prim.Native.Nat.{ℕ}
use Prim.Native.Char.{Char, code}
use Prim.Native.String.{String}
use mathlib.Core.Bool.{Bool, false, ◌||◌, ◌&&◌}
use mathlib.Core.Path.{◌≡◌, refl, ap, ◌∙◌}
use mathlib.Core.Logic.{inl, inr}
use huntarr.Base.Tests.{if◌then◌else◌, leb, ◌==◌, Bool-cases, if_rule}

-- `unicode.IsSpace`
unfoldable pub is_space : ℕ → Bool
is_space c =
    (leb 9 c && leb c 13)
    || c == 32
    || c == 133
    || c == 160
    || c == 5760
    || (leb 8192 c && leb c 8202)
    || c == 8232
    || c == 8233
    || c == 8239
    || c == 8287
    || c == 12288

unfoldable pub trim_left : String → String
trim_left String.[] = String.[]
trim_left (String.◌∷◌ c s) =
    let rest = trim_left s in if is_space (code c) then rest else String.◌∷◌ c s

-- A character before a text that is trimmed at its end.
unfoldable pub before_trimmed : Char → String → String
before_trimmed c String.[] = if is_space (code c) then String.[] else String.◌∷◌ c String.[]
before_trimmed c (String.◌∷◌ d s) = String.◌∷◌ c (String.◌∷◌ d s)

unfoldable pub trim_right : String → String
unfolding before_trimmed
trim_right String.[] = String.[]
trim_right (String.◌∷◌ c s) = before_trimmed c (trim_right s)

unfoldable pub trim_space : String → String
unfolding trim_left trim_right
trim_space s = trim_right (trim_left s)

trim_right-before_trimmed :
    (c : Char) (t : String)
    → trim_right t ≡ t
    → trim_right (before_trimmed c t) ≡ before_trimmed c t
unfolding trim_right before_trimmed
trim_right-before_trimmed c String.[] h = elim (Bool-cases (is_space (code c))) [
  | inl e ↦ rw e refl
  | inr e ↦ rw e (rw e refl)
]
trim_right-before_trimmed c (String.◌∷◌ d s) h = ap (before_trimmed c) h

trim_right-idempotent : (s : String) → trim_right (trim_right s) ≡ trim_right s
unfolding trim_right
trim_right-idempotent String.[] = refl
trim_right-idempotent (String.◌∷◌ c s) =
    trim_right-before_trimmed c (trim_right s) (trim_right-idempotent s)

-- A text that starts with no space.
abbrev Starts : String → Type 0
Starts String.[] = Unit
Starts (String.◌∷◌ c s) = is_space (code c) ≡ false

trim_left-Starts : (s : String) → Starts (trim_left s)
unfolding trim_left
trim_left-Starts String.[] = tt
trim_left-Starts (String.◌∷◌ c s) =
    if_rule Starts (is_space (code c)) (trim_left s) (String.◌∷◌ c s) (λ _. trim_left-Starts s)
      (λ e. e)

before_trimmed-Starts :
    (c : Char) (t : String) → is_space (code c) ≡ false → Starts (before_trimmed c t)
unfolding before_trimmed
before_trimmed-Starts c String.[] e = rw e e
before_trimmed-Starts c (String.◌∷◌ d t) e = e

trim_right-Starts : (s : String) → Starts s → Starts (trim_right s)
unfolding trim_right
trim_right-Starts String.[] h = tt
trim_right-Starts (String.◌∷◌ c s) h = before_trimmed-Starts c (trim_right s) h

Starts-trim_left : (s : String) → Starts s → trim_left s ≡ s
unfolding trim_left
Starts-trim_left String.[] h = refl
Starts-trim_left (String.◌∷◌ c s) h = rw h refl

pub trim_space-idempotent : (s : String) → trim_space (trim_space s) ≡ trim_space s
unfolding trim_space
trim_space-idempotent s =
    ap trim_right (
      Starts-trim_left (trim_right (trim_left s))
        (trim_right-Starts (trim_left s) (trim_left-Starts s)))
    ∙ trim_right-idempotent (trim_left s)
