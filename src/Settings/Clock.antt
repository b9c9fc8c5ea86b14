-- ===== src/Settings/Clock.antt =====
-- internal/settings/settings.go: `ParseHHMM`, over the bytes of a text.
pub mod Agreement
pub mod Bounds
use huntarr.Base.{
  ℕ, ◌+◌, ◌*◌, List, [], ◌∷◌, Option, none, some, if◌then◌else◌, leb, ◌==◌, ◌&&◌, length, take,
  drop, get_or, ℤ, pos, negsuc,
}
use huntarr.Settings.Number.{atoi}

-- The number read, if it is no error, not negative and at most `top`.
abbrev pub at_most : ℕ → Option ℤ → Option ℕ
at_most top none = none
at_most top (some (negsuc n)) = none
at_most top (some (pos n)) = if leb n top then some n else none

abbrev pub minutes_of : Option ℕ → Option ℕ → Option ℕ
minutes_of none m = none
minutes_of (some h) none = none
minutes_of (some h) (some m) = some (h * 60 + m)

unfoldable pub parse_hhmm : List ℕ → Option ℕ
unfolding atoi
parse_hhmm v =
    if length v == 5 && get_or v 2 0 == b':'
    then minutes_of (at_most 23 (atoi (take 2 v))) (at_most 59 (atoi (drop 3 v)))
    else none
