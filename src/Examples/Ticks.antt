-- ===== src/Examples/Ticks.antt =====
-- A tick over one instance: internal/scheduler/scheduler.go.
use huntarr.Base.{
  List, ◌+◌, ◌-◌, ◌≤◌, max, true, false, [], ◌∷◌, Option, none, some, ◌≡◌, refl, arith, pos, lookup,
  insert,
}
use huntarr.Scheduler.Window.{in_search_window}
use huntarr.Scheduler.Interval.{compute_next_interval}
use huntarr.Scheduler.Cooldown.{filter_cooling_down, record_searches}
use huntarr.Scheduler.Cycle.{World, exclude_ids, run_instance_cycle}
use huntarr.Scheduler.Tick.{Scheduler, Visit, Exit, going, visit, new_instance_schedule, tick}
use huntarr.Scheduler.Tick.Guards.{IsAllowed, visit-IsAllowed}
use huntarr.Scheduler.Tick.Hours.{Moment, ticks, ticks_limited}
use huntarr.Settings.Store.Valid.{put, empty_store}
use huntarr.Scheduler.Upkeep.Served.{State, Step, requested, ticked, run, run_returns}
use huntarr.Scheduler.Tick.CleanUp.{tick_cleaned}
use huntarr.Examples.History.{no_replies, new_upkeep}
use huntarr.Examples.Cycles.{films, pairs, replies_at, empty_world}

abbrev pub at_noon : Visit
at_noon = record {
  instance = films;
  cancelled = false;
  resolved = some pairs;
  hour = 12;
  minute = 0;
  replies = replies_at 1000;
  cycle_end = 1010000000;
}

-- The schedule is that of an instance that was deleted.
abbrev pub with_stale : Scheduler
with_stale = record {
  schedules = ("z", new_instance_schedule (record films { id = "z" }) 0 true 1800000000000) ∷ [];
  search_count = 99;
  hourly_limit = pos 100;
  hour_reset_at = 3600000000000;
}

abbrev outcome : Option (Exit × Scheduler × World) → Exit × Scheduler × World
outcome none = (going, with_stale, empty_world)
outcome (some q) = q

visit-IsAllowed_example : IsAllowed (pos 100) 1000000000 at_noon with_stale
visit-IsAllowed_example =
    visit-IsAllowed (pos 100) 1000000000 at_noon with_stale empty_world
      (outcome (visit (pos 100) 1000000000 at_noon with_stale empty_world))
      (unfold visit in_search_window lookup run_instance_cycle filter_cooling_down exclude_ids
          record_searches in
        λ e. cc)
      (unfold visit in_search_window lookup run_instance_cycle filter_cooling_down in refl)

abbrev twice : List Moment
twice =
    (record { now = 1000000000; global = pairs; visits = at_noon ∷ [] })
    ∷ (record { now = 61000000000; global = pairs; visits = at_noon ∷ [] })
    ∷ []

ticks_limited_example :
    (q : Scheduler × World) × (ticks twice with_stale empty_world ≡ some q)
    × (q.0.search_count ≤ max 99 (100 + 2 - 1))
ticks_limited_example = ticks_limited 100 2 twice with_stale empty_world (
  record { early = omega arith; limit = omega arith; batches = ((2, refl, omega arith), tt) },
  (record { early = omega arith; limit = omega arith; batches = ((2, refl, omega arith), tt) }, tt),
)

abbrev ended : Option (Scheduler × World) → Scheduler × World
ended none = (with_stale, empty_world)
ended (some q) = q

abbrev after_tick : Scheduler × World
after_tick = ended (tick 1000000000 (some pairs) (some (at_noon ∷ [])) with_stale empty_world)

after_tick-tick :
    tick 1000000000 (some pairs) (some (at_noon ∷ [])) with_stale empty_world ≡ some after_tick
after_tick-tick =
    unfold tick in_search_window lookup insert run_instance_cycle filter_cooling_down exclude_ids
      record_searches compute_next_interval in
    refl

tick_cleaned_example : lookup "z" after_tick.0.schedules ≡ none
tick_cleaned_example =
    tick_cleaned 1000000000 pairs (at_noon ∷ []) with_stale empty_world after_tick "z" (refl, tt)
      refl after_tick-tick

-- The batch size is stored, an invalid one is refused, and a tick runs with it.
abbrev served : List Step
served =
    requested (put true none (("batch_size", "2") ∷ []))
    ∷ requested (put true (some "a") (("batch_size", "-2") ∷ []))
    ∷ ticked 1000000000 (at_noon ∷ []) no_replies
    ∷ []

run_returns_example :
    (q : State) × (run
        (λ v. some (pos 3600000000000))
        served
        (empty_store, with_stale, new_upkeep, empty_world)
      ≡ some q)
run_returns_example =
    run_returns (λ v. some (pos 3600000000000)) served with_stale new_upkeep empty_world
