-- ===== src/Scheduler/Upkeep.antt =====
-- internal/scheduler/scheduler.go: the end of `tick`, `pollUpgradeHistory` and `pruneActivityLog`, and
-- with it all of `tick`.
pub mod Cooldowns
pub mod Entries
pub mod Served
use huntarr.Base.{
  ℕ, ◌+◌, ◌*◌, String, Bool, true, false, List, [], Option, none, some, if◌then◌else◌, ltb, map,
}
use huntarr.Settings.Values.{Resolved, max_cooldown_period}
use huntarr.Scheduler.Cooldown.{delete_expired}
use huntarr.Scheduler.Cycle.{Instance, World}
use huntarr.Scheduler.Tick.{
  Scheduler, Visit, Exit, going, broken, returned, visit_all, reset_hour, hour_length, tick,
}
use huntarr.Scheduler.Polls.{PollReplies, history_poll_interval, poll_instances}
use huntarr.Activity.{Row, Zone, prune}

-- The part of the scheduler's state that the end of a tick uses, the table of polls, and the rows that
-- the activity log had before the tick.
pub record Upkeep : Type 0 where
  pub last_history_poll : ℕ
  pub last_pruned_at : ℕ
  pub polled : List (String × ℕ)
  pub rows : List Row

-- What the end of a tick is told: its own time for the polls, the replies to them, whether the
-- database carries out the two deletions, and the times for these: for the log the seconds and the
-- nanoseconds of UTC, with the zone of the server, and for the searches milliseconds.
pub record UpkeepReplies : Type 0 where
  pub poll_time : ℕ
  pub polls : String → PollReplies
  pub prune_ok : Bool
  pub zone : Zone
  pub seconds : ℕ
  pub nanos : ℕ
  pub expire_ok : Bool
  pub milliseconds : ℕ

abbrev pub activity_retention : ℕ
activity_retention = 30 * 24 * 3600

abbrev pub prune_interval : ℕ
prune_interval = 24 * hour_length

abbrev pub visited : Visit → Instance
visited v = v.instance

-- `pollUpgradeHistory`
unfoldable pub poll_upgrade_history : List Visit → UpkeepReplies → Upkeep → World → Upkeep × World
unfolding poll_instances
poll_upgrade_history vs c u w =
    let (polled, w') = poll_instances c.polls (map visited vs) u.polled w in
    if ltb (u.last_history_poll + history_poll_interval) c.poll_time
    then (record u { last_history_poll = c.poll_time; polled = polled }, w')
    else (u, w)

-- `pruneActivityLog`, at the time of the tick.
unfoldable pub prune_activity_log : ℕ → UpkeepReplies → Upkeep → World → Upkeep × World
unfolding prune delete_expired
prune_activity_log now c u w =
    let kept = prune c.zone c.seconds c.nanos activity_retention u.rows in
    let cooldowns =
      if c.expire_ok
      then delete_expired max_cooldown_period c.milliseconds w.cooldowns
      else w.cooldowns in
    if ltb (u.last_pruned_at + prune_interval) now
    then if c.prune_ok
      then (record u { last_pruned_at = now; rows = kept }, record w { cooldowns = cooldowns })
      else (u, w)
    else (u, w)

-- Whether the loop of `tick` leads to what follows it.
abbrev pub is_over : Option (Exit × Scheduler × World) → Bool
is_over none = false
is_over (some (going, s, w)) = true
is_over (some (broken, s, w)) = true
is_over (some (returned, s, w)) = false

unfoldable pub is_finished : ℕ → Option Resolved → Option (List Visit) → Scheduler → World → Bool
unfolding visit_all
is_finished now none vs s w = false
is_finished now (some g) none s w = false
is_finished now (some g) (some vs) s w = is_over (
    visit_all g.search_limit now vs (record (reset_hour now s) { hourly_limit = g.search_limit }) w)

abbrev pub listed_visits : Option (List Visit) → List Visit
listed_visits none = []
listed_visits (some vs) = vs

abbrev pub finish_tick :
    ℕ
    → Bool
    → List Visit
    → UpkeepReplies
    → Upkeep
    → Option (Scheduler × World)
    → Option (Scheduler × Upkeep × World)
finish_tick now finished vs c u none = none
finish_tick now false vs c u (some (s, w)) = some (s, u, w)
finish_tick now true vs c u (some (s, w)) =
    let (polled, w') = poll_upgrade_history vs c u w in
    let (pruned, w'') = prune_activity_log now c polled w' in some (s, pruned, w'')

-- `tick` as a whole.
unfoldable pub whole_tick :
    ℕ
    → Option Resolved
    → Option (List Visit)
    → UpkeepReplies
    → Scheduler
    → Upkeep
    → World
    → Option (Scheduler × Upkeep × World)
unfolding tick is_finished poll_upgrade_history prune_activity_log
whole_tick now g vs c s u w =
    finish_tick now (is_finished now g vs s w) (listed_visits vs) c u (tick now g vs s w)
