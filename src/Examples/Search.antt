-- ===== src/Examples/Search.antt =====
-- Examples for the search loop: internal/arr/quality.go and internal/scheduler/scheduler.go.
use huntarr.Base.{
  if◌then◌else◌, ◌==◌, ℕ, ◌+◌, ◌*◌, Bool, true, false, not, List, [], ◌∷◌, some, ◌≡◌, refl, arith,
  ltb, codes,
}
use huntarr.Settings.Clock.{parse_hhmm}
use huntarr.Settings.Number.{atoi, digits_from}
use huntarr.Arr.Quality.{QualityProfile, LibraryItem, filter_upgradeable}
use huntarr.Arr.Quality.Selection.{filter_upgradeable-picked, picked, is_selected}
use huntarr.Scheduler.Interval.{compute_next_interval}
use huntarr.Scheduler.Interval.Adaptive.{
  InRange, InBand, next_interval, compute_next_interval-next_interval,
}
use huntarr.Scheduler.Window.{in_search_window, parse_bound}
use huntarr.Scheduler.Window.Cyclic.{minutes_until, in_search_window-minutes_until}

-- A profile with two qualities, the second of which is the cutoff, and four items.
abbrev a_profile : QualityProfile
a_profile = record {
  upgrade_allowed = true;
  cutoff = 9;
  items =
      (record { id = 0; quality = some 4; items = []; allowed = true })
      ∷ (record { id = 0; quality = some 9; items = []; allowed = true })
      ∷ [];
}

abbrev an_item : ℕ → List ℕ → Bool → LibraryItem
an_item id qualities has_file = record {
  id = id;
  label = "A film";
  detail_path = "/movie/1";
  quality_profile_id = 1;
  current_quality_ids = qualities;
  has_file = has_file;
  monitored = true;
}

abbrev a_library : List LibraryItem
a_library =
    an_item 11 (4 ∷ []) true
    ∷ an_item 12 (9 ∷ []) true
    ∷ an_item 13 [] false
    ∷ an_item 14 (7 ∷ []) true
    ∷ []

abbrev profiles : List (ℕ × QualityProfile)
profiles = (1, a_profile) ∷ []

filter_upgradeable-picked_example :
    (filter_upgradeable a_library profiles).0 ≡ picked (is_selected profiles) a_library
filter_upgradeable-picked_example = filter_upgradeable-picked a_library profiles

abbrev half_hour : ℕ
half_hour = 1800000000000

half_hour-InRange : InRange half_hour half_hour 0 4
half_hour-InRange = record {
  base_bound = omega arith;
  previous_bound = omega arith;
  total_bound = omega arith;
  batch_bound = omega arith;
}

half_hour-InBand : InBand half_hour half_hour
half_hour-InBand = record { lower = omega arith; upper = omega arith }

compute_next_interval-next_interval_example :
    compute_next_interval half_hour half_hour 0 4 ≡ next_interval half_hour half_hour 0 4
compute_next_interval-next_interval_example =
    compute_next_interval-next_interval half_hour half_hour 0 4 half_hour-InRange

ten_pm : parse_bound (codes "22:00") ≡ some 1320
unfolding parse_bound parse_hhmm atoi digits_from
ten_pm = refl

six_am : parse_bound (codes "06:00") ≡ some 360
unfolding parse_bound parse_hhmm atoi digits_from
six_am = refl

in_search_window-minutes_until_example :
    (in_search_window (codes "22:00") (codes "06:00") 23 30
      ≡ ltb (minutes_until 1320 (23 * 60 + 30)) (minutes_until 1320 360))
    × (in_search_window (codes "06:00") (codes "22:00") 23 30 ≡ (
        if 1320 == 360
        then false
        else not (in_search_window (codes "22:00") (codes "06:00") 23 30)))
in_search_window-minutes_until_example =
    in_search_window-minutes_until (codes "22:00") (codes "06:00") 23 30 1320 360 ten_pm six_am
      (omega arith) (omega arith)
