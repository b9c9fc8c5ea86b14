-- ===== src/Scheduler/Tick.antt =====
-- internal/scheduler/scheduler.go: `tick` up to its last two calls, of `pollUpgradeHistory` and
-- `pruneActivityLog`, which `Upkeep` adds. Times are nanoseconds since a
-- full hour of the past, and 0 is the zero time. The count of searches stays far below 2^63.
pub mod Guards
pub mod Limit
pub mod Hours
pub mod CleanUp
pub mod Accepted
use Prim.Native.String
use huntarr.Base.{
  ℕ, suc, ◌+◌, ◌-◌, ◌*◌, ◌/◌, ◌^◌, String, Bool, true, false, not, ◌||◌, List, [], ◌∷◌, Option,
  none, some, if◌then◌else◌, ltb, leb, str_eq, codes, decimal, lookup, insert, ℤ, pos, negsuc,
}
use huntarr.Json.{text, signed_text}
use huntarr.Settings.Values.{Resolved}
use huntarr.Scheduler.Interval.{compute_next_interval}
use huntarr.Scheduler.Window.{in_search_window}
use huntarr.Scheduler.Cycle.{
  Instance, World, Entry, Replies, log_activity, entry, run_instance_cycle,
}

pub record InstanceSchedule : Type 0 where
  pub instance_id : String
  pub instance_name : String
  pub next_search_at : ℕ
  pub interval : ℕ
  pub enabled : Bool

pub record Scheduler : Type 0 where
  pub schedules : List (String × InstanceSchedule)
  pub search_count : ℕ
  pub hourly_limit : ℤ
  pub hour_reset_at : ℕ

-- An instance of the list and what its round of the loop is told: whether the context is cancelled,
-- the resolved settings or `none` for an error, the time of day at the test of the window, the
-- replies of the search cycle and the time when it ends.
pub record Visit : Type 0 where
  pub instance : Instance
  pub cancelled : Bool
  pub resolved : Option Resolved
  pub hour : ℕ
  pub minute : ℕ
  pub replies : Replies
  pub cycle_end : ℕ

-- How the loop goes on after a round: to the next one, out of the loop, or out of `tick`.
pub data Exit : Type 0 where
  going broken returned : Exit

abbrev pub new_instance_schedule : Instance → ℕ → Bool → ℕ → InstanceSchedule
new_instance_schedule inst next_at enabled interval = record {
  instance_id = inst.id;
  instance_name = inst.name;
  next_search_at = next_at;
  interval = interval;
  enabled = enabled;
}

abbrev pub set_schedule : InstanceSchedule → Scheduler → Scheduler
set_schedule sched s = record s { schedules = insert sched.instance_id sched s.schedules }

abbrev pub limit_reached : ℕ → ℤ → Bool
limit_reached count (pos n) = leb n count
limit_reached count (negsuc n) = true

abbrev pub limit_entry : ℤ → Entry
limit_entry limit = record {
  instance_id = none;
  level = "info";
  action = "rate_limit";
  message = String.◌++◌ "hourly search limit reached (" (String.◌++◌ (signed_text limit) ")");
  details = [];
}

-- `exists && now.Before(sched.NextSearchAt)`
abbrev pub is_early : ℕ → Option InstanceSchedule → Bool
is_early now none = false
is_early now (some sched) = ltb now sched.next_search_at

-- `prevInterval`
abbrev pub previous_interval : ℕ → Option InstanceSchedule → ℕ
previous_interval base none = base
previous_interval base (some sched) = if ltb 0 sched.interval then sched.interval else base

-- The pattern of an int.
abbrev pub int_pattern : ℤ → ℕ
int_pattern (pos n) = n
int_pattern (negsuc n) = 2 ^ 64 - suc n

-- From the end of the search cycle on.
unfoldable pub finish_visit :
    Visit
    → Resolved
    → Option InstanceSchedule
    → Scheduler
    → Option ((ℕ × ℕ) × World)
    → Option (Exit × Scheduler × World)
finish_visit v r sched s none = none
finish_visit v r sched s (some ((searched, total), w)) =
    let next =
      compute_next_interval r.search_interval (previous_interval r.search_interval sched) total
        (int_pattern r.batch_size) in
    let planned =
      set_schedule (new_instance_schedule v.instance (v.cycle_end + next) true next) s in
    some (going, record planned { search_count = planned.search_count + searched }, w)

-- From the resolved settings on.
unfoldable pub visit_resolved :
    ℕ → Visit → Option Resolved → Scheduler → World → Option (Exit × Scheduler × World)
unfolding finish_visit
visit_resolved now v none s w = some (going, s, w)
visit_resolved now v (some r) s w =
    let sched = lookup v.instance.id s.schedules in
    if not r.enabled
    then some (going, set_schedule (new_instance_schedule v.instance 0 false 0) s, w)
    else if is_early now sched
    then some (going, s, w)
    else if not
        (in_search_window (codes r.search_window_start) (codes r.search_window_end) v.hour v.minute)
    then some (
      going,
      s,
      log_activity
          (entry v.instance.id "debug" "search_skip" "outside search window" (
            ("instanceName", text v.instance.name)
            ∷ ("windowStart", text r.search_window_start)
            ∷ ("windowEnd", text r.search_window_end)
            ∷ []))
          w,
    )
    else finish_visit v r sched s (run_instance_cycle v.instance r v.replies w)

-- One round of the loop over the instances.
unfoldable pub visit : ℤ → ℕ → Visit → Scheduler → World → Option (Exit × Scheduler × World)
unfolding visit_resolved
visit limit now v s w =
    if v.cancelled
    then some (returned, s, w)
    else if limit_reached s.search_count limit
    then some (broken, s, log_activity (limit_entry limit) w)
    else visit_resolved now v v.resolved s w

unfoldable pub visit_all :
    ℤ → ℕ → List Visit → Scheduler → World → Option (Exit × Scheduler × World)
unfolding visit
visit_all limit now [] s w = some (going, s, w)
visit_all limit now (v ∷ vs) s w = elim (visit limit now v s w) [
  | none ↦ none
  | some (going, s', w') ↦ visit_all limit now vs s' w'
  | some (broken, s', w') ↦ some (broken, s', w')
  | some (returned, s', w') ↦ some (returned, s', w')
]

-- `seen`
abbrev pub is_listed : String → List Visit → Bool
is_listed id [] = false
is_listed id (v ∷ vs) = str_eq v.instance.id id || is_listed id vs

unfoldable pub remove_stale :
    List Visit → List (String × InstanceSchedule) → List (String × InstanceSchedule)
remove_stale vs [] = []
remove_stale vs ((id, sched) ∷ schedules) =
    let rest = remove_stale vs schedules in if is_listed id vs then (id, sched) ∷ rest else rest

abbrev pub hour_length : ℕ
hour_length = 3600 * 1000000000

-- `nextHourBoundary`
abbrev pub next_hour_boundary : ℕ → ℕ
next_hour_boundary t = t / hour_length * hour_length + hour_length

abbrev pub reset_hour : ℕ → Scheduler → Scheduler
reset_hour now s =
    if ltb s.hour_reset_at now
    then record s { search_count = 0; hour_reset_at = next_hour_boundary now }
    else s

-- The clean-up after the loop.
unfoldable pub clean_up :
    List Visit → Option (Exit × Scheduler × World) → Option (Scheduler × World)
unfolding remove_stale
clean_up vs none = none
clean_up vs (some (returned, s, w)) = some (s, w)
clean_up vs (some (going, s, w)) = some (record s { schedules = remove_stale vs s.schedules }, w)
clean_up vs (some (broken, s, w)) = some (record s { schedules = remove_stale vs s.schedules }, w)

-- With the global settings and the instances, each `none` for an error; `none` is a panic.
unfoldable pub tick :
    ℕ → Option Resolved → Option (List Visit) → Scheduler → World → Option (Scheduler × World)
unfolding clean_up visit_all
tick now none vs s w = some (reset_hour now s, w)
tick now (some g) none s w = some (record (reset_hour now s) { hourly_limit = g.search_limit }, w)
tick now (some g) (some vs) s w =
    let ready = record (reset_hour now s) { hourly_limit = g.search_limit } in
    clean_up vs (visit_all g.search_limit now vs ready w)
