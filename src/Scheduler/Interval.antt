-- ===== src/Scheduler/Interval.antt =====
-- internal/scheduler/scheduler.go: `computeNextInterval`, on int64 nanoseconds.
pub mod Adaptive
use huntarr.Base.{ℕ, ◌*◌, ◌/◌, ◌+◌, if◌then◌else◌, ltb, ◌==◌, mul64, lt64, div64}

unfoldable pub compute_next_interval : ℕ → ℕ → ℕ → ℕ → ℕ
compute_next_interval base previous total_items batch_size =
    let ceiling = mul64 base 4 in
    let doubled = mul64 previous 2 in
    let floor = div64 base 4 in
    let halved = div64 previous 2 in
    if total_items == 0
    then if lt64 ceiling doubled then ceiling else doubled
    else if lt64 (mul64 batch_size 2) total_items
    then if lt64 halved floor then floor else halved
    else base

-- internal/settings/settings.go: seven days, in nanoseconds.
abbrev pub max_search_interval : ℕ
max_search_interval = 7 * 24 * 3600 * 1000000000
