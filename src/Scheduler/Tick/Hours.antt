-- ===== src/Scheduler/Tick/Hours.antt =====
-- The ticks of an hour.
use huntarr.Base.{
  ℕ, ◌+◌, ◌-◌, ◌≤◌, max, false, List, [], ◌∷◌, Option, none, some, ltb, ◌≡◌, refl, sym, ◌∙◌, subst,
  arith, All,
}
use huntarr.Settings.Values.{Resolved}
use huntarr.Scheduler.Cycle.{World}
use huntarr.Scheduler.Tick.{Scheduler, Visit, tick, reset_hour}
use huntarr.Scheduler.Tick.Limit.{limit_of, HasBatches, tick-count}

-- A tick: its time, the global settings and the instances as they are then.
pub record Moment : Type 0 where
  pub now : ℕ
  pub global : Resolved
  pub visits : List Visit

pub ticks : List Moment → Scheduler → World → Option (Scheduler × World)
ticks [] s w = some (s, w)
ticks (m ∷ ms) s w = elim (tick m.now (some m.global) (some m.visits) s w) [
  | none ↦ none
  | some (s', w') ↦ ticks ms s' w'
]

-- A tick in the hour that ends at `e`, with a limit and batch sizes that are not above `l` and `b`.
pub record IsIn (e l b : ℕ) (m : Moment) : Type 0 where
  pub early : m.now ≤ e
  pub limit : limit_of m.global.search_limit ≤ l
  pub batches : HasBatches b m.visits

-- Any number of ticks before the hour is reset return, and leave the count of the hour's searches at
-- no more than `l + b - 1`, or where it was if that is more: the hourly limit of every tick is at
-- most `l`, and every batch size is one of the numbers up to `b`.
pub ticks_limited :
    (l b : ℕ) (ms : List Moment) (s : Scheduler) (w : World)
    → All (IsIn s.hour_reset_at l b) ms
    → (q : Scheduler × World) × (ticks ms s w ≡ some q)
      × (q.0.search_count ≤ max s.search_count (l + b - 1))
unfolding ticks
ticks_limited l b [] s w h = ((s, w), refl, omega arith)
ticks_limited l b (m ∷ ms) s w h =
    let (p, ran, count, hour) = tick-count m.now b m.global m.visits s w h.0.batches in
    let late : ltb s.hour_reset_at m.now ≡ false = ground (arith, h.0.early) in
    let kept : (reset_hour m.now s).hour_reset_at ≡ s.hour_reset_at = rw late in
    let counted : (reset_hour m.now s).search_count ≡ s.search_count = rw late in
    let (q, rest, bound) =
      ticks_limited l b ms p.0 p.1 (subst (λ e. All (IsIn e l b) ms) (sym (hour ∙ kept)) h.1) in
    (q, rw (ran, ticks) rest, omega (arith, count, counted, bound, h.0.limit))
