-- ===== src/Regex.antt =====
-- The regular expressions of JavaScript that web/static/js/settings.js uses: character classes,
-- concatenation, alternatives and repetition. `regex_test` is `/^r$/.test(s)`, computed by
-- derivatives; `Matches` is the textbook meaning of an anchored expression.
pub mod Correct
use huntarr.Base.{
  ℕ, Bool, true, false, ◌&&◌, ◌||◌, List, [], ◌∷◌, ◌++◌, ◌==◌, if◌then◌else◌, leb, ◌≡◌, ◌⊎◌,
}

pub data Regex : Type 0 where
  empty eps : Regex
  cls : (ℕ → Bool) → Regex
  seq alt : Regex → Regex → Regex
  star : Regex → Regex

abbrev pub lit : ℕ → Regex
lit n = cls (λ c. c == n)

-- `[lo-hi]`; `\d` is `range b'0' b'9'`.
abbrev pub in_range : ℕ → ℕ → ℕ → Bool
in_range lo hi c = leb lo c && leb c hi

abbrev pub range : ℕ → ℕ → Regex
range lo hi = cls (in_range lo hi)

abbrev pub digit : Regex
digit = range b'0' b'9'

abbrev pub plus : Regex → Regex
plus r = seq r (star r)

abbrev pub opt : Regex → Regex
opt r = alt r eps

unfoldable pub nullable : Regex → Bool
nullable empty = false
nullable eps = true
nullable (cls p) = false
nullable (seq r t) = nullable r && nullable t
nullable (alt r t) = nullable r || nullable t
nullable (star r) = true

-- What is left to match after the character `c`.
unfoldable pub deriv : ℕ → Regex → Regex
unfolding nullable
deriv c empty = empty
deriv c eps = empty
deriv c (cls p) = if p c then eps else empty
deriv c (seq r t) =
    let first = seq (deriv c r) t in
    let skipped = deriv c t in if nullable r then alt first skipped else first
deriv c (alt r t) = alt (deriv c r) (deriv c t)
deriv c (star r) = seq (deriv c r) (star r)

unfoldable pub regex_test : Regex → List ℕ → Bool
unfolding nullable deriv
regex_test r [] = nullable r
regex_test r (c ∷ s) = regex_test (deriv c r) s

-- A sequence of non-empty words of `P`.
pub data Star (P : List ℕ → Type 0) : List ℕ → Type 0 where
  done : {s : List ℕ} → s ≡ [] → Star P s
  more : {s : List ℕ} (c : ℕ) (u v : List ℕ) → s ≡ c ∷ (u ++ v) → P (c ∷ u) → Star P v → Star P s

abbrev pub Matches : Regex → List ℕ → Type 0
Matches empty s = ⊥
Matches eps s = s ≡ []
Matches (cls p) s = (c : ℕ) × (p c ≡ true) × (s ≡ c ∷ [])
Matches (seq r t) s = (u v : List ℕ) × (s ≡ u ++ v) × Matches r u × Matches t v
Matches (alt r t) s = Matches r s ⊎ Matches t s
Matches (star r) s = Star (Matches r) s
