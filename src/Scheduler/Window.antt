-- ===== src/Scheduler/Window.antt =====
-- internal/scheduler/scheduler.go: `inSearchWindow` and `parseHHMM`. A time of day is given by its
-- hour and minute, as `now.Hour()` and `now.Minute()` return them.
pub mod Cyclic
use huntarr.Base.{
  ℕ, ◌+◌, ◌*◌, Bool, true, false, ◌&&◌, ◌||◌, List, [], ◌∷◌, Option, none, some, if◌then◌else◌, leb,
  ltb,
}
use huntarr.Settings.Clock.{parse_hhmm}

unfoldable pub parse_bound : List ℕ → Option ℕ
parse_bound [] = none
parse_bound (c ∷ v) = parse_hhmm (c ∷ v)

abbrev pub is_blank : List ℕ → Bool
is_blank [] = true
is_blank (c ∷ v) = false

-- The comparison once both bounds are read; a bound in error allows the search.
unfoldable pub in_bounds : Option ℕ → Option ℕ → ℕ → Bool
in_bounds none e now = true
in_bounds (some s) none now = true
in_bounds (some s) (some e) now = if leb s e then leb s now && ltb now e else leb s now || ltb now e

unfoldable pub in_search_window : List ℕ → List ℕ → ℕ → ℕ → Bool
unfolding in_bounds
in_search_window start end hour minute =
    let now = hour * 60 + minute in
    if is_blank start && is_blank end
    then true
    else in_bounds (parse_bound start) (parse_bound end) now
