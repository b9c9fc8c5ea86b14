-- ===== src/Scheduler/Tick/Accepted.antt =====
-- The entries that a tick logs, for internal/activity/service.go.
use huntarr.Base.{
  ℕ, not, List, [], ◌∷◌, Option, none, some, lookup, codes, ℤ, ◌≡◌, refl, subst, if_rule,
}
use huntarr.Settings.Values.{Resolved}
use huntarr.Scheduler.Window.{in_search_window}
use huntarr.Scheduler.Cycle.{World, run_instance_cycle}
use huntarr.Scheduler.Cycle.Accepted.{AreAccepted, logged-All, Leaves, run_instance_cycle-Leaves}
use huntarr.Scheduler.Tick.{
  Scheduler, Visit, Exit, InstanceSchedule, going, broken, returned, is_early, limit_reached,
  finish_visit, visit_resolved, visit, visit_all, clean_up, tick, reset_hour,
}

abbrev Passes : Option (Exit × Scheduler × World) → Type 0
Passes none = Unit
Passes (some q) = AreAccepted q.2

finish_visit-Passes :
    (v : Visit) (r : Resolved) (sched : Option InstanceSchedule) (s : Scheduler)
    (o : Option ((ℕ × ℕ) × World))
    → Leaves o
    → Passes (finish_visit v r sched s o)
unfolding finish_visit
finish_visit-Passes v r sched s none h = tt
finish_visit-Passes v r sched s (some q) h = h

visit_resolved-Passes :
    (now : ℕ) (v : Visit) (o : Option Resolved) (s : Scheduler) (w : World)
    → AreAccepted w
    → Passes (visit_resolved now v o s w)
unfolding visit_resolved
visit_resolved-Passes now v none s w h = h
visit_resolved-Passes now v (some r) s w h =
    if_rule Passes (not r.enabled) _ _ (λ _. h)
      (λ _.
        if_rule Passes (is_early now (lookup v.instance.id s.schedules)) _ _ (λ _. h)
          (λ _.
            if_rule Passes
              (not (
                in_search_window (codes r.search_window_start) (codes r.search_window_end) v.hour
                  v.minute))
              _ _ (λ _. logged-All _ w.log refl h)
              (λ _.
                finish_visit-Passes v r (lookup v.instance.id s.schedules) s
                  (run_instance_cycle v.instance r v.replies w)
                  (run_instance_cycle-Leaves v.instance r v.replies w h))))

visit-Passes :
    (limit : ℤ) (now : ℕ) (v : Visit) (s : Scheduler) (w : World)
    → AreAccepted w
    → Passes (visit limit now v s w)
unfolding visit
visit-Passes limit now v s w h =
    if_rule Passes v.cancelled _ _ (λ _. h)
      (λ _.
        if_rule Passes (limit_reached s.search_count limit) _ _ (λ _. logged-All _ w.log refl h)
          (λ _. visit_resolved-Passes now v v.resolved s w h))

visit_all-cons :
    (limit : ℤ) (now : ℕ) (v : Visit) (vs : List Visit) (s : Scheduler) (w : World)
    → ((s' : Scheduler) (w' : World) → AreAccepted w' → Passes (visit_all limit now vs s' w'))
    → (o : Option (Exit × Scheduler × World)) → visit limit now v s w ≡ o
    → Passes o
    → Passes (visit_all limit now (v ∷ vs) s w)
unfolding visit_all
visit_all-cons limit now v vs s w rest none e h = rw (e, visit_all) tt
visit_all-cons limit now v vs s w rest (some (going, s', w')) e h = rw (e, visit_all) (rest s' w' h)
visit_all-cons limit now v vs s w rest (some (broken, s', w')) e h = rw (e, visit_all) h
visit_all-cons limit now v vs s w rest (some (returned, s', w')) e h = rw (e, visit_all) h

visit_all-Passes :
    (limit : ℤ) (now : ℕ) (vs : List Visit) (s : Scheduler) (w : World)
    → AreAccepted w
    → Passes (visit_all limit now vs s w)
unfolding visit_all
visit_all-Passes limit now [] s w h = h
visit_all-Passes limit now (v ∷ vs) s w h =
    visit_all-cons limit now v vs s w (visit_all-Passes limit now vs) (visit limit now v s w) refl
      (visit-Passes limit now v s w h)

clean_up-AreAccepted :
    (vs : List Visit) (o : Option (Exit × Scheduler × World)) (q : Scheduler × World)
    → Passes o
    → clean_up vs o ≡ some q
    → AreAccepted q.1
unfolding clean_up
clean_up-AreAccepted vs none q h e = cc
clean_up-AreAccepted vs (some (returned, s, w)) q h e =
    let same : w ≡ q.1 = cc in subst AreAccepted same h
clean_up-AreAccepted vs (some (going, s, w)) q h e =
    let same : w ≡ q.1 = cc in subst AreAccepted same h
clean_up-AreAccepted vs (some (broken, s, w)) q h e =
    let same : w ≡ q.1 = cc in subst AreAccepted same h

-- Every entry that a tick logs has a level and an action that the activity log accepts, whether the
-- settings or the instances can be read or not, if those of the entries before it have.
pub tick-AreAccepted :
    (now : ℕ) (g : Option Resolved) (vs : Option (List Visit)) (s : Scheduler) (w : World)
    (q : Scheduler × World)
    → AreAccepted w
    → tick now g vs s w ≡ some q
    → AreAccepted q.1
unfolding tick
tick-AreAccepted now none vs s w q h e = let same : w ≡ q.1 = cc in subst AreAccepted same h
tick-AreAccepted now (some g) none s w q h e = let same : w ≡ q.1 = cc in subst AreAccepted same h
tick-AreAccepted now (some g) (some vs) s w q h e =
    clean_up-AreAccepted vs _ q
      (visit_all-Passes g.search_limit now vs
        (record (reset_hour now s) { hourly_limit = g.search_limit }) w h)
      e
