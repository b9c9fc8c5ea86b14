-- ===== src/Scheduler.antt =====
-- internal/scheduler/scheduler.go: the adaptive search loop.
pub mod Interval
pub mod Window
pub mod Cooldown
pub mod Cycle
pub mod Tick
pub mod Polls
pub mod Upkeep
