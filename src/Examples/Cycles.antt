-- ===== src/Examples/Cycles.antt =====
-- Two search cycles of an instance: internal/scheduler/scheduler.go.
use huntarr.Base.{
  All, ◌<◌, ℕ, ◌+◌, true, false, [], ◌∷◌, Option, none, some, ◌≡◌, ◌⊎◌, refl, arith, contains, pos,
}
use huntarr.Settings.Values.{Resolved, defaults}
use huntarr.Arr.Quality.{UpgradeItem, no_stats}
use huntarr.Scheduler.Cooldown.{filter_cooling_down, record_searches}
use huntarr.Scheduler.Cycle.{
  Instance, UpgradeResult, World, Replies, exclude_ids, run_instance_cycle,
}
use huntarr.Scheduler.Cycle.Batch.{IsUnsent, IsSent, candidate_ids, run_instance_cycle_ends}
use huntarr.Scheduler.Cycle.Progress.{Works, cycles, cycles_cover}
use huntarr.Scheduler.Cooldown.Fresh.{fresh}
use huntarr.Scheduler.Cycle.Cooling.{run_instance_cycle_again}

abbrev pub films : Instance
films = record { id = "a"; name = "Films"; base_url = "http://radarr:7878" }

abbrev film : ℕ → UpgradeItem
film id = record { id = id; label = "A film"; detail_path = "/movie/1" }

-- Two items at a time.
abbrev pub pairs : Resolved
pairs = record defaults { batch_size = pos 2 }

abbrev pub replies_at : ℕ → Replies
replies_at time = record {
  cancelled = false;
  upgrades = some (record {
    items = film 1 ∷ film 2 ∷ film 3 ∷ [];
    missing_items = film 4 ∷ [];
    stats = no_stats 9;
  });
  query_ok = true;
  query_time = time;
  search_ok = true;
  record_ok = true;
  record_time = time + 5;
  error = "";
}

abbrev pub empty_world : World
empty_world = record { cooldowns = []; commands = []; log = [] }

run_instance_cycle_ends_example :
    (q : (ℕ × ℕ) × World) × (run_instance_cycle films pairs (replies_at 1000) empty_world ≡ some q)
    × (IsUnsent empty_world q ⊎ IsSent films pairs (replies_at 1000) 2 empty_world q)
run_instance_cycle_ends_example =
    run_instance_cycle_ends films pairs (replies_at 1000) 2 refl empty_world

abbrev ended : Option ((ℕ × ℕ) × World) → (ℕ × ℕ) × World
ended none = ((0, 0), empty_world)
ended (some q) = q

abbrev first_end : (ℕ × ℕ) × World
first_end = ended (run_instance_cycle films pairs (replies_at 1000) empty_world)

abbrev second_end : (ℕ × ℕ) × World
second_end = ended (run_instance_cycle films pairs (replies_at 60000) first_end.1)

run_instance_cycle_again_example : contains (3 ∷ 4 ∷ []) 2 ≡ false
run_instance_cycle_again_example =
    run_instance_cycle_again films pairs pairs (replies_at 1000) (replies_at 60000) 2 2 empty_world
      first_end second_end (1 ∷ 2 ∷ []) (3 ∷ 4 ∷ []) refl refl
      (unfold run_instance_cycle filter_cooling_down exclude_ids record_searches in refl)
      (unfold run_instance_cycle filter_cooling_down exclude_ids record_searches in refl) refl refl
      (unfold run_instance_cycle filter_cooling_down exclude_ids record_searches in refl)
      (unfold run_instance_cycle filter_cooling_down exclude_ids record_searches in refl)
      (omega arith) 2 refl

abbrev film_result : UpgradeResult
film_result = record {
  items = film 1 ∷ film 2 ∷ film 3 ∷ [];
  missing_items = film 4 ∷ [];
  stats = no_stats 9;
}

working : (time : ℕ) → time < 86000000 → Works films pairs film_result 2 refl 0 (replies_at time)
working time early = record {
  live = refl;
  fetched = refl;
  queried = refl;
  searched = refl;
  kept = refl;
  after = omega arith;
  early = omega (arith, early);
  recorded = omega arith;
}

cycles_cover_example :
    (w : World) × (cycles films pairs film_result 2 refl
        (replies_at 1000 ∷ replies_at 60000 ∷ [])
        empty_world
      ≡ some w)
    × All (λ j. fresh "a" 0 w.cooldowns j ≡ true) (candidate_ids pairs film_result)
cycles_cover_example =
    cycles_cover films pairs film_result 2 refl 0 (replies_at 1000 ∷ replies_at 60000 ∷ [])
      empty_world (working 1000 (omega arith), (working 60000 (omega arith), tt)) tt (omega arith)
