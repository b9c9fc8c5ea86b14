-- ===== src/Scheduler/Tick/CleanUp.antt =====
-- Which schedules a tick leaves.
use huntarr.Base.{
  ℕ, String, true, false, not, List, [], ◌∷◌, Option, none, some, lookup, ℤ, codes, ◌≡◌, refl, sym,
  ◌∙◌, Bool-cases, inl, inr, if_rule, str_eq, str_eq→eq, subst, All,
}
use huntarr.Settings.Values.{Resolved}
use huntarr.Scheduler.Window.{in_search_window}
use huntarr.Scheduler.Cycle.{World, run_instance_cycle}
use huntarr.Scheduler.Tick.{
  Scheduler, Visit, Exit, InstanceSchedule, going, broken, returned, is_early, limit_reached,
  visit_resolved, visit, finish_visit, visit_all, is_listed, remove_stale, clean_up, tick,
  reset_hour,
}

lookup-remove_stale :
    (id : String) (vs : List Visit) (schedules : List (String × InstanceSchedule))
    → is_listed id vs ≡ false
    → lookup id (remove_stale vs schedules) ≡ none
unfolding remove_stale lookup
lookup-remove_stale id vs [] h = refl
lookup-remove_stale id vs ((j, sched) ∷ schedules) h =
    if_rule (λ t. lookup id t ≡ none) (is_listed j vs) ((j, sched) ∷ remove_stale vs schedules)
      (remove_stale vs schedules)
      (λ listed. elim (Bool-cases (str_eq j id)) [
        | inl same ↦
            let here : is_listed id vs ≡ true =
              subst (λ k. is_listed k vs ≡ true) (str_eq→eq j id same) listed in
            let bad : true ≡ false = sym here ∙ h in cc
        | inr other ↦ rw other (lookup-remove_stale id vs schedules h)
      ])
      (λ _. lookup-remove_stale id vs schedules h)

-- A round of the loop that does not leave `tick`.
abbrev Stays : Option (Exit × Scheduler × World) → Type 0
Stays none = Unit
Stays (some (going, s, w)) = Unit
Stays (some (broken, s, w)) = Unit
Stays (some (returned, s, w)) = ⊥

finish_visit-Stays :
    (v : Visit) (r : Resolved) (sched : Option InstanceSchedule) (s : Scheduler)
    (o : Option ((ℕ × ℕ) × World))
    → Stays (finish_visit v r sched s o)
unfolding finish_visit
finish_visit-Stays v r sched s none = tt
finish_visit-Stays v r sched s (some q) = tt

visit_resolved-Stays :
    (now : ℕ) (v : Visit) (o : Option Resolved) (s : Scheduler) (w : World)
    → Stays (visit_resolved now v o s w)
unfolding visit_resolved
visit_resolved-Stays now v none s w = tt
visit_resolved-Stays now v (some r) s w =
    if_rule Stays (not r.enabled) _ _ (λ _. tt)
      (λ _.
        if_rule Stays (is_early now (lookup v.instance.id s.schedules)) _ _ (λ _. tt)
          (λ _.
            if_rule Stays
              (not (
                in_search_window (codes r.search_window_start) (codes r.search_window_end) v.hour
                  v.minute))
              _ _ (λ _. tt)
              (λ _.
                finish_visit-Stays v r (lookup v.instance.id s.schedules) s
                  (run_instance_cycle v.instance r v.replies w))))

visit-Stays :
    (limit : ℤ) (now : ℕ) (v : Visit) (s : Scheduler) (w : World)
    → v.cancelled ≡ false
    → Stays (visit limit now v s w)
unfolding visit
visit-Stays limit now v s w live = rw live (
    if_rule Stays (limit_reached s.search_count limit) _ _ (λ _. tt)
      (λ _. visit_resolved-Stays now v v.resolved s w))

visit_all-cons :
    (limit : ℤ) (now : ℕ) (v : Visit) (vs : List Visit) (s : Scheduler) (w : World)
    → ((s' : Scheduler) (w' : World) → Stays (visit_all limit now vs s' w'))
    → (o : Option (Exit × Scheduler × World)) → visit limit now v s w ≡ o
    → Stays o
    → Stays (visit_all limit now (v ∷ vs) s w)
unfolding visit_all
visit_all-cons limit now v vs s w rest none e h = rw (e, visit_all) tt
visit_all-cons limit now v vs s w rest (some (going, s', w')) e h = rw (e, visit_all) (rest s' w')
visit_all-cons limit now v vs s w rest (some (broken, s', w')) e h = rw (e, visit_all) tt
visit_all-cons limit now v vs s w rest (some (returned, s', w')) e h = absurd h

visit_all-Stays :
    (limit : ℤ) (now : ℕ) (vs : List Visit)
    → All (λ v. v.cancelled ≡ false) vs
    → (s : Scheduler) (w : World) → Stays (visit_all limit now vs s w)
unfolding visit_all
visit_all-Stays limit now [] live s w = tt
visit_all-Stays limit now (v ∷ vs) live s w =
    visit_all-cons limit now v vs s w (visit_all-Stays limit now vs live.1) (visit limit now v s w)
      refl (visit-Stays limit now v s w live.0)

clean_up-lookup :
    (id : String) (vs : List Visit) (o : Option (Exit × Scheduler × World)) (q : Scheduler × World)
    → is_listed id vs ≡ false
    → Stays o
    → clean_up vs o ≡ some q
    → lookup id q.0.schedules ≡ none
unfolding clean_up
clean_up-lookup id vs none q h stays e = cc
clean_up-lookup id vs (some (returned, s, w)) q h stays e = absurd stays
clean_up-lookup id vs (some (going, s, w)) q h stays e =
    let left : remove_stale vs s.schedules ≡ q.0.schedules = cc in
    subst (λ t. lookup id t ≡ none) left (lookup-remove_stale id vs s.schedules h)
clean_up-lookup id vs (some (broken, s, w)) q h stays e =
    let left : remove_stale vs s.schedules ≡ q.0.schedules = cc in
    subst (λ t. lookup id t ≡ none) left (lookup-remove_stale id vs s.schedules h)

-- A tick whose context is not cancelled leaves no schedule of an instance that is not in the list,
-- also if the hourly limit ends its loop early.
pub tick_cleaned :
    (now : ℕ) (g : Resolved) (vs : List Visit) (s : Scheduler) (w : World) (q : Scheduler × World)
    (id : String)
    → All (λ v. v.cancelled ≡ false) vs
    → is_listed id vs ≡ false
    → tick now (some g) (some vs) s w ≡ some q
    → lookup id q.0.schedules ≡ none
unfolding tick
tick_cleaned now g vs s w q id live h e =
    clean_up-lookup id vs _ q h
      (visit_all-Stays g.search_limit now vs live
        (record (reset_hour now s) { hourly_limit = g.search_limit }) w)
      e
