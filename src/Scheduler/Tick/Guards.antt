-- ===== src/Scheduler/Tick/Guards.antt =====
-- When a round of the loop sends a search command.
use huntarr.Base.{
  ℕ, true, false, not, Option, none, some, lookup, codes, ℤ, ◌≡◌, ◌≢◌, refl, sym, ap, ◌∙◌, arith,
  if_rule,
}
use huntarr.Settings.Values.{Resolved}
use huntarr.Scheduler.Window.{in_search_window}
use huntarr.Scheduler.Cycle.{World}
use huntarr.Scheduler.Tick.{Scheduler, Visit, Exit, limit_reached, is_early, visit_resolved, visit}

-- The search of an instance is allowed: the context is live, the hourly limit is not reached, and
-- the instance is enabled, due and inside its window.
pub record IsAllowed (limit : ℤ) (now : ℕ) (v : Visit) (s : Scheduler) : Type 0 where
  pub settings : Resolved
  pub read : v.resolved ≡ some settings
  pub live : v.cancelled ≡ false
  pub below_limit : limit_reached s.search_count limit ≡ false
  pub is_enabled : settings.enabled ≡ true
  pub due : is_early now (lookup v.instance.id s.schedules) ≡ false
  pub in_window :
      in_search_window
        (codes settings.search_window_start)
        (codes settings.search_window_end)
        v.hour
        v.minute
      ≡ true

module _ (limit : ℤ) (now : ℕ) (v : Visit) (s : Scheduler) (w : World)
    (q : Exit × Scheduler × World) (changed : q.2.commands ≢ w.commands) where
  -- A round that ends with the commands that there were.
  unchanged : (r : Exit × Scheduler × World) → some r ≡ some q → r.2.commands ≡ w.commands → ⊥
  unchanged r e same =
      let equal : r ≡ q = cc in
      absurd (changed (ap (λ (p : Exit × Scheduler × World). p.2.commands) (sym equal) ∙ same))

  Allows : Option (Exit × Scheduler × World) → Type 0
  Allows r = r ≡ some q → IsAllowed limit now v s

  visit_resolved-Allows :
      v.cancelled ≡ false
      → limit_reached s.search_count limit ≡ false
      → (o : Option Resolved) → v.resolved ≡ o
      → Allows (visit_resolved now v o s w)
  unfolding visit_resolved Allows
  visit_resolved-Allows live below none read = λ e. absurd (unchanged _ e refl)
  visit_resolved-Allows live below (some r) read =
      if_rule Allows (not r.enabled) _ _ (λ _ e. absurd (unchanged _ e refl))
        (λ on.
          if_rule Allows (is_early now (lookup v.instance.id s.schedules)) _ _
            (λ _ e. absurd (unchanged _ e refl))
            (λ due.
              if_rule Allows
                (not (
                  in_search_window (codes r.search_window_start) (codes r.search_window_end) v.hour
                    v.minute))
                _ _ (λ _ e. absurd (unchanged _ e refl))
                (λ inside e. record {
                  settings = r;
                  read = read;
                  live = live;
                  below_limit = below;
                  is_enabled = ground (arith, on);
                  due = due;
                  in_window = ground (arith, inside);
                })))

  -- A round of the loop that sends a command found its context live, the hourly limit not reached,
  -- its settings readable, and its instance enabled, due and inside its search window.
  pub visit-IsAllowed : visit limit now v s w ≡ some q → IsAllowed limit now v s
  unfolding visit Allows
  visit-IsAllowed ran =
      if_rule Allows v.cancelled _ _ (λ _ e. absurd (unchanged _ e refl))
        (λ live.
          if_rule Allows (limit_reached s.search_count limit) _ _
            (λ _ e. absurd (unchanged _ e refl))
            (λ below. visit_resolved-Allows live below v.resolved refl))
        ran
