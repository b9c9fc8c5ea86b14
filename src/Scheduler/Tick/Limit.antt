-- ===== src/Scheduler/Tick/Limit.antt =====
-- What a tick does to the count of the hour's searches.
use huntarr.Base.{
  ℕ, ◌+◌, ◌-◌, ◌<◌, ◌≤◌, max, true, false, not, List, [], ◌∷◌, Option, none, some, lookup, ℤ, pos,
  negsuc, ◌≡◌, refl, sym, ap, ◌∙◌, arith, inl, inr, if_rule, subst, All, codes,
}
use huntarr.Settings.Values.{Resolved}
use huntarr.Scheduler.Window.{in_search_window}
use huntarr.Scheduler.Cycle.{World, run_instance_cycle}
use huntarr.Scheduler.Cycle.Batch.{run_instance_cycle_ends}
use huntarr.Scheduler.Tick.{
  Scheduler, Visit, Exit, InstanceSchedule, going, broken, returned, is_early, limit_reached,
  visit_resolved, visit, finish_visit, visit_all, clean_up, tick, reset_hour,
}

-- The batch size, if the settings were read, is not negative and at most `b`.
abbrev pub HasBatch : ℕ → Option Resolved → Type 0
HasBatch b none = Unit
HasBatch b (some r) = (n : ℕ) × (r.batch_size ≡ pos n) × (n ≤ b)

abbrev pub limit_of : ℤ → ℕ
limit_of (pos n) = n
limit_of (negsuc n) = 0

-- A cycle searches at most a batch.
searched-le :
    (v : Visit) (r : Resolved) (n : ℕ) (w : World)
    → r.batch_size ≡ pos n
    → (q : (ℕ × ℕ) × World) × (run_instance_cycle v.instance r v.replies w ≡ some q) × (q.0.0 ≤ n)
searched-le v r n w e =
    let (q, ran, ends) = run_instance_cycle_ends v.instance r v.replies n e w in
    elim ends [
      | inl h ↦ (q, ran, ground (arith, h.searched))
      | inr h ↦ (q, ran, ground (arith, h.counted, h.chosen.size))
    ]

-- A round ends, and adds at most a batch to the count, nothing if the limit is reached.
record Counts (limit b : ℕ) (s : Scheduler) (o : Option (Exit × Scheduler × World)) : Type 0 where
  outcome : Exit × Scheduler × World
  ended : o ≡ some outcome
  bound : outcome.1.search_count ≤ max s.search_count (limit + b - 1)
  same_hour : outcome.1.hour_reset_at ≡ s.hour_reset_at

limit_reached-lt :
    (count : ℕ) (limit : ℤ) → limit_reached count limit ≡ false → count < limit_of limit
limit_reached-lt count (pos n) h = ground arith
limit_reached-lt count (negsuc n) h = absurd (let bad : true ≡ false = h in cc)

module _ (limit : ℤ) (now b : ℕ) (v : Visit) (s : Scheduler) (w : World) where
  Bounded : Option (Exit × Scheduler × World) → Type 0
  Bounded = Counts (limit_of limit) b s

  unchanged :
      (r : Exit × Scheduler × World)
      → r.1.search_count ≡ s.search_count
      → r.1.hour_reset_at ≡ s.hour_reset_at
      → Bounded (some r)
  unfolding Bounded
  unchanged r e f = record { outcome = r; ended = refl; bound = omega (arith, e); same_hour = f }

  finish_visit-Bounded :
      (r : Resolved) (n : ℕ) (sched : Option InstanceSchedule)
      → limit_reached s.search_count limit ≡ false
      → r.batch_size ≡ pos n
      → n ≤ b
      → Bounded (finish_visit v r sched s (run_instance_cycle v.instance r v.replies w))
  unfolding finish_visit Bounded
  finish_visit-Bounded r n sched below size le =
      let (q, ran, few) = searched-le v r n w size in
      let room = limit_reached-lt s.search_count limit below in
      subst (λ o. Bounded (finish_visit v r sched s o)) (sym ran)
        (record {
          outcome = _;
          ended = refl;
          bound = omega (arith, few, room, le);
          same_hour = refl;
        })

  visit_resolved-Bounded :
      limit_reached s.search_count limit ≡ false
      → (o : Option Resolved) → HasBatch b o
      → Bounded (visit_resolved now v o s w)
  unfolding visit_resolved Bounded
  visit_resolved-Bounded below none h = unchanged _ refl refl
  visit_resolved-Bounded below (some r) (n, size, le) =
      if_rule Bounded (not r.enabled) _ _ (λ _. unchanged _ refl refl)
        (λ _.
          if_rule Bounded (is_early now (lookup v.instance.id s.schedules)) _ _
            (λ _. unchanged _ refl refl)
            (λ _.
              if_rule Bounded
                (not (
                  in_search_window (codes r.search_window_start) (codes r.search_window_end) v.hour
                    v.minute))
                _ _ (λ _. unchanged _ refl refl)
                (λ _. finish_visit-Bounded r n (lookup v.instance.id s.schedules) below size le)))

  visit-Bounded : HasBatch b v.resolved → Bounded (visit limit now v s w)
  unfolding visit Bounded
  visit-Bounded h =
      if_rule Bounded v.cancelled _ _ (λ _. unchanged _ refl refl)
        (λ _.
          if_rule Bounded (limit_reached s.search_count limit) _ _ (λ _. unchanged _ refl refl)
            (λ below. visit_resolved-Bounded below v.resolved h))

abbrev pub HasBatches : ℕ → List Visit → Type 0
HasBatches b vs = All (λ v. HasBatch b v.resolved) vs

-- The loop after a round, given what the rest of it does.
visit_all-cons :
    (limit : ℤ) (now b : ℕ) (v : Visit) (vs : List Visit) (s : Scheduler) (w : World)
    → ((s' : Scheduler) (w' : World) → Counts (limit_of limit) b s' (visit_all limit now vs s' w'))
    → (o : Exit × Scheduler × World) → visit limit now v s w ≡ some o
    → o.1.search_count ≤ max s.search_count (limit_of limit + b - 1)
    → o.1.hour_reset_at ≡ s.hour_reset_at
    → Counts (limit_of limit) b s (visit_all limit now (v ∷ vs) s w)
unfolding visit_all
visit_all-cons limit now b v vs s w rest (going, s', w') e le f =
    let q = rest s' w' in
    rw (e, visit_all)
      (record {
        outcome = q.outcome;
        ended = q.ended;
        bound = omega (arith, q.bound, le);
        same_hour = q.same_hour ∙ f;
      })
visit_all-cons limit now b v vs s w rest (broken, s', w') e le f =
    rw (e, visit_all) (record { outcome = _; ended = refl; bound = le; same_hour = f })
visit_all-cons limit now b v vs s w rest (returned, s', w') e le f =
    rw (e, visit_all) (record { outcome = _; ended = refl; bound = le; same_hour = f })

visit_all-Counts :
    (limit : ℤ) (now b : ℕ) (vs : List Visit)
    → HasBatches b vs
    → (s : Scheduler) (w : World) → Counts (limit_of limit) b s (visit_all limit now vs s w)
unfolding visit_all
visit_all-Counts limit now b [] h s w = record {
  outcome = (going, s, w);
  ended = refl;
  bound = omega arith;
  same_hour = refl;
}
visit_all-Counts limit now b (v ∷ vs) h s w =
    let first : Counts (limit_of limit) b s (visit limit now v s w) =
      unfold Bounded in visit-Bounded limit now b v s w h.0 in
    visit_all-cons limit now b v vs s w (visit_all-Counts limit now b vs h.1) first.outcome
      first.ended first.bound first.same_hour

clean_up-count :
    (vs : List Visit) (q : Exit × Scheduler × World)
    → (p : Scheduler × World) × (clean_up vs (some q) ≡ some p)
      × (p.0.search_count ≡ q.1.search_count)
      × (p.0.hour_reset_at ≡ q.1.hour_reset_at)
unfolding clean_up
clean_up-count vs (going, s, w) = (_, refl, refl, refl)
clean_up-count vs (broken, s, w) = (_, refl, refl, refl)
clean_up-count vs (returned, s, w) = (_, refl, refl, refl)

pub tick-count :
    (now b : ℕ) (g : Resolved) (vs : List Visit) (s : Scheduler) (w : World)
    → HasBatches b vs
    → (q : Scheduler × World) × (tick now (some g) (some vs) s w ≡ some q)
      × (q.0.search_count ≤ max (reset_hour now s).search_count (limit_of g.search_limit + b - 1))
      × (q.0.hour_reset_at ≡ (reset_hour now s).hour_reset_at)
unfolding tick
tick-count now b g vs s w h =
    let ready = record (reset_hour now s) { hourly_limit = g.search_limit } in
    let c = visit_all-Counts g.search_limit now b vs h ready w in
    let (p, ended, same, hour) = clean_up-count vs c.outcome in
    (p, ap (clean_up vs) c.ended ∙ ended, omega (arith, same, c.bound), hour ∙ c.same_hour)
