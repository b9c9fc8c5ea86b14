-- ===== src/Config/Server.antt =====
-- internal/server/server.go: what `New` makes of a configuration, with the checks of
-- internal/instance/sqlite.go on the key and of internal/scheduler/scheduler.go on the interval.
pub mod Ready
use huntarr.Base.{ℕ, List, ◌-◌, ◌^◌, Bool, if◌then◌else◌, ◌==◌, length, mul64, lt64, ℤ, pos, negsuc}
use huntarr.Config.{Config}
use huntarr.Scheduler.Tick.{int_pattern}

abbrev pub nanoseconds : ℕ
nanoseconds = 1000000000

-- `time.Duration(cfg.SchedulerTickSecs)*time.Second`
unfoldable pub tick_interval : Config → ℕ
unfolding mul64
tick_interval cfg = mul64 (int_pattern cfg.scheduler_tick_secs) nanoseconds

-- How the start ends: a panic of the instances' repository, an error of the scheduler, or the
-- interval of its ticks.
pub data StartUp : Type 0 where
  panics no_interval : StartUp
  ticking : ℕ → StartUp

-- `NewSQLiteRepository` of the instances, which panics on a key of another length.
abbrev pub takes_key : List ℕ → Bool
takes_key key = length key == 32

-- `scheduler.New`
unfoldable pub new_scheduler : ℕ → StartUp
unfolding lt64
new_scheduler interval = if lt64 0 interval then ticking interval else no_interval

unfoldable pub start_up : Config → StartUp
unfolding tick_interval new_scheduler
start_up cfg = if takes_key cfg.encryption_key then new_scheduler (tick_interval cfg) else panics
