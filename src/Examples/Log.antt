-- ===== src/Examples/Log.antt =====
-- Examples for the activity log, its API and the Logs page: internal/activity,
-- internal/api/activity.go and web/static/js/logs.js.
use huntarr.Base.{
  ℕ, ◌-◌, String, true, not, ◌&&◌, ◌||◌, [], ◌∷◌, Option, none, some, lookup, insert, ltb, ◌==◌,
  str_eq, ◌≡◌, ◌⊎◌, refl, arith, pos,
}
use huntarr.Json.{Json}
use huntarr.Scheduler.Cycle.{World, Entry, exclude_ids, run_instance_cycle}
use huntarr.Scheduler.Cycle.Batch.{IsUnsent, IsSent}
use huntarr.Scheduler.Cycle.Accepted.{AreAccepted}
use huntarr.Scheduler.Window.{in_search_window}
use huntarr.Scheduler.Interval.{compute_next_interval}
use huntarr.Scheduler.Cooldown.{filter_cooling_down, record_searches}
use huntarr.Scheduler.Tick.{Scheduler}
use huntarr.Scheduler.Upkeep.{Upkeep, whole_tick}
use huntarr.Scheduler.Upkeep.Entries.{whole_tick-AreAccepted}
use huntarr.LogViewer.{Viewer, initial_viewer, query}
use huntarr.LogViewer.Details.Logged.{IsShown, cycle-IsShown}
use huntarr.Activity.{Stamp, Row, ListParams, utc, not_before, before, prune, east, local_clock}
use huntarr.Activity.Stamps.{before-not_before, kept_after, prune-kept_after}
use huntarr.Api.Activity.{handle_list_activity, read_level, read_action}
use huntarr.Api.Activity.Pages.{IsListed, handle_list_activity-query}
use huntarr.Examples.Cycles.{films, pairs, replies_at, empty_world}
use huntarr.Examples.History.{no_replies, new_upkeep}
use huntarr.Examples.Ticks.{at_noon, with_stale}

abbrev no_text : Json → String
no_text v = ""

cycle-IsShown_example :
    (q : (ℕ × ℕ) × World) × (run_instance_cycle films pairs (replies_at 1000) empty_world ≡ some q)
    × (IsUnsent empty_world q
        ⊎ ((sent : IsSent films pairs (replies_at 1000) 2 empty_world q) × IsShown no_text no_text
              films pairs
              (replies_at 1000)
              2
              empty_world
              q
              sent))
cycle-IsShown_example =
    cycle-IsShown no_text no_text films pairs (replies_at 1000) 2 refl empty_world

abbrev ended_whole : Option (Scheduler × Upkeep × World) → Scheduler × Upkeep × World
ended_whole none = (with_stale, new_upkeep, empty_world)
ended_whole (some q) = q

-- A tick that searches, and that then finds the two imports.
abbrev after_whole : Scheduler × Upkeep × World
after_whole = ended_whole (
    whole_tick 1000000000 (some pairs) (some (at_noon ∷ [])) no_replies with_stale new_upkeep
      empty_world)

after_whole-whole_tick :
    whole_tick 1000000000
      (some pairs)
      (some (at_noon ∷ []))
      no_replies
      with_stale
      new_upkeep
      empty_world
    ≡ some after_whole
after_whole-whole_tick =
    unfold whole_tick in_search_window lookup insert run_instance_cycle filter_cooling_down
      exclude_ids record_searches compute_next_interval in
    refl

whole_tick-AreAccepted_example : AreAccepted after_whole.2
whole_tick-AreAccepted_example =
    whole_tick-AreAccepted 1000000000 (some pairs) (some (at_noon ∷ [])) no_replies with_stale
      new_upkeep empty_world after_whole tt after_whole-whole_tick

-- Half a second after the bound.
abbrev half_past : Stamp
half_past = record { clock = 100; nanos = 500000000; zone = utc }

before-not_before_example :
    (not_before (some (record { clock = 100; nanos = 0; zone = utc })) half_past
      ≡ (ltb 100 100 || (100 == 100 && 500000000 == 0)))
    × (before (some (record { clock = 100; nanos = 0; zone = utc })) half_past
        ≡ (ltb 100 100 || (100 == 100 && not (500000000 == 0))))
before-not_before_example = before-not_before 100 100 half_past refl

abbrev an_entry : Entry
an_entry = record {
  instance_id = none;
  level = "info";
  action = "rate_limit";
  message = "hourly search limit reached (100)";
  details = [];
}

abbrev a_row : Row
a_row = record { content = an_entry; created_at = half_past }

-- Ten hours ahead of UTC, an entry of a minute ago is pruned although it is kept for an hour.
prune-kept_after_example :
    prune (east 36000) 3760 0 3600 (a_row ∷ [])
    ≡ kept_after (local_clock (east 36000) (3760 - 3600)) (a_row ∷ [])
prune-kept_after_example =
    prune-kept_after (east 36000) 3760 0 3600 (a_row ∷ []) ((λ e. omega (arith, e)), tt)

abbrev no_filter : ListParams
no_filter = record {
  level = "";
  instance_id = none;
  action = "";
  search = "";
  since = none;
  until = none;
  limit = pos 50;
  offset = 0;
}

abbrev third_page : Viewer
third_page = record initial_viewer { total = 120; page = 3 }

handle_list_activity-query_example :
    IsListed
      (λ s. some s)
      (λ s. none)
      str_eq
      (λ s. s)
      no_filter
      (a_row ∷ [])
      100
      (handle_list_activity
        (λ s. some s)
        (λ s. none)
        str_eq
        true
        true
        (query (λ s. s) third_page)
        (a_row ∷ []))
handle_list_activity-query_example =
    handle_list_activity-query (λ s. some s) (λ s. none) str_eq (λ s. s) third_page no_filter
      (a_row ∷ [])
      (record {
        level = unfold read_level in refl;
        instance_id = refl;
        action = unfold read_action in refl;
        search = refl;
        since = refl;
        until = refl;
      })
      refl (omega arith)
