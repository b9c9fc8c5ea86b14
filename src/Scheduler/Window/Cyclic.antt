-- ===== src/Scheduler/Window/Cyclic.antt =====
-- What a search window means on the clock face.
use huntarr.Base.{
  if◌then◌else◌, ◌==◌, false, ℕ, ◌+◌, ◌-◌, ◌*◌, ◌%◌, ◌<◌, ltb, not, List, [], ◌∷◌, some, ◌≡◌, arith,
  refl,
}
use huntarr.Settings.Clock.Bounds.{parse_hhmm-lt}
use huntarr.Scheduler.Window.{parse_bound, in_bounds, in_search_window}

-- Minutes from `a` forward to `b` around the clock.
abbrev pub minutes_until : ℕ → ℕ → ℕ
minutes_until a b = (b + 1440 - a) % 1440

in_bounds-minutes_until :
    (s e now : ℕ)
    → s < 1440
    → e < 1440
    → now < 1440
    → in_bounds (some s) (some e) now ≡ ltb (minutes_until s now) (minutes_until s e)
unfolding in_bounds
in_bounds-minutes_until s e now hs he hn = ground arith

in_bounds_complement :
    (s e now : ℕ)
    → in_bounds (some e) (some s) now
      ≡ (if s == e then false else not (in_bounds (some s) (some e) now))
unfolding in_bounds
in_bounds_complement s e now = ground arith

parse_bound-lt : (v : List ℕ) (n : ℕ) → parse_bound v ≡ some n → n < 1440
unfolding parse_bound
parse_bound-lt [] n e = cc
parse_bound-lt (c ∷ v) n e = parse_hhmm-lt (c ∷ v) n e

in_search_window-in_bounds :
    (start end : List ℕ) (hour minute : ℕ)
    → in_search_window start end hour minute
      ≡ in_bounds (parse_bound start) (parse_bound end) (hour * 60 + minute)
unfolding in_search_window parse_bound
in_search_window-in_bounds [] [] hour minute = refl
in_search_window-in_bounds [] (c ∷ end) hour minute = refl
in_search_window-in_bounds (c ∷ start) end hour minute = refl

module _ (start end : List ℕ) (hour minute s e : ℕ) (start_read : parse_bound start ≡ some s)
    (end_read : parse_bound end ≡ some e) where
  in_search_window_complement :
      in_search_window end start hour minute
      ≡ (if s == e then false else not (in_search_window start end hour minute))
  in_search_window_complement =
      rw
        (
          in_search_window-in_bounds start end hour minute,
          in_search_window-in_bounds end start hour minute,
          start_read,
          end_read,
        )
        (in_bounds_complement s e (hour * 60 + minute))

  -- With both bounds read and a time of day, searching is allowed exactly when the time is reached
  -- from the start, going forward around the clock, before the end is; so a window may pass
  -- midnight, and one whose bounds are equal allows no search. Two different bounds cut the day in
  -- two: a time is in the window with the bounds exchanged exactly when it is not in this one.
  pub in_search_window-minutes_until :
      hour < 24
      → minute < 60
      → (in_search_window start end hour minute
          ≡ ltb (minutes_until s (hour * 60 + minute)) (minutes_until s e))
        × (in_search_window end start hour minute
            ≡ (if s == e then false else not (in_search_window start end hour minute)))
  in_search_window-minutes_until hh hm = (
    rw (in_search_window-in_bounds, start_read, end_read)
        (in_bounds-minutes_until s e (hour * 60 + minute) (parse_bound-lt start s start_read)
          (parse_bound-lt end e end_read) (omega arith)),
    in_search_window_complement,
  )
