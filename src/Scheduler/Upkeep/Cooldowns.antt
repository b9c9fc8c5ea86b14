-- ===== src/Scheduler/Upkeep/Cooldowns.antt =====
-- The searches that `pruneActivityLog` deletes.
use huntarr.Base.{
  ℕ, ℤ, ◌≤◌, ◌+◌, String, List, [], ◌∷◌, Option, some, ltb, if_rule, ◌≡◌, refl, arith,
}
use huntarr.Settings.Values.{Resolved, max_cooldown_period, resolve}
use huntarr.Settings.Values.Limits.{resolve-IsBounded}
use huntarr.Scheduler.Cycle.{World}
use huntarr.Scheduler.Upkeep.{Upkeep, UpkeepReplies, prune_interval, prune_activity_log}
use huntarr.Scheduler.Cooldown.{Row, rows_cooling, filter_cooling_down, delete_expired}

rows_cooling-delete_expired :
    (instance : String) (items : List ℕ) (period now pruned_at : ℕ) (rows : List Row)
    → period ≤ max_cooldown_period
    → pruned_at ≤ now
    → rows_cooling instance items period now (delete_expired max_cooldown_period pruned_at rows)
      ≡ rows_cooling instance items period now rows
unfolding rows_cooling delete_expired
rows_cooling-delete_expired instance items period now pruned_at [] short le = refl
rows_cooling-delete_expired instance items period now pruned_at (r ∷ rows) short le =
    let rest = rows_cooling-delete_expired instance items period now pruned_at rows short le in
    ground (arith, rest, short, le)

filter_cooling_down-delete_expired :
    (instance : String) (items : List ℕ) (period now pruned_at : ℕ) (rows : List Row)
    → period ≤ max_cooldown_period
    → pruned_at ≤ now
    → filter_cooling_down instance items period now
        (delete_expired max_cooldown_period pruned_at rows)
      ≡ filter_cooling_down instance items period now rows
unfolding filter_cooling_down
filter_cooling_down-delete_expired instance [] period now pruned_at rows short le = refl
filter_cooling_down-delete_expired instance (i ∷ items) period now pruned_at rows short le =
    rows_cooling-delete_expired instance (i ∷ items) period now pruned_at rows short le

-- Pruning ends no cooldown: for the settings of an instance, whatever is stored, a query at the time
-- of the pruning or later finds the same items cooling down as it would without the pruning.
pub prune_activity_log-cooling :
    (parse_duration : String → Option ℤ) (global per_instance : Option (List (String × String)))
    (r : Resolved) (now : ℕ) (c : UpkeepReplies) (u : Upkeep) (w : World) (instance : String)
    (items : List ℕ) (later : ℕ)
    → resolve parse_duration global per_instance ≡ some r
    → c.milliseconds ≤ later
    → filter_cooling_down instance items r.cooldown_period later
        (prune_activity_log now c u w).1.cooldowns
      ≡ filter_cooling_down instance items r.cooldown_period later w.cooldowns
unfolding prune_activity_log
prune_activity_log-cooling parse_duration global per_instance r now c u w instance items later read
      le =
    let cooling = filter_cooling_down instance items r.cooldown_period later in
    let bounded = resolve-IsBounded parse_duration global per_instance read in
    if_rule (λ (q : Upkeep × World). cooling q.1.cooldowns ≡ cooling w.cooldowns)
      (ltb (u.last_pruned_at + prune_interval) now) _ _
      (λ _.
        if_rule (λ (q : Upkeep × World). cooling q.1.cooldowns ≡ cooling w.cooldowns) c.prune_ok _ _
          (λ _.
            if_rule (λ rows. cooling rows ≡ cooling w.cooldowns) c.expire_ok _ _
              (λ _.
                filter_cooling_down-delete_expired instance items r.cooldown_period later
                  c.milliseconds w.cooldowns bounded.cooldown_bound le)
              (λ _. refl))
          (λ _. refl))
      (λ _. refl)
