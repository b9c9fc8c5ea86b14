-- ===== src/Scheduler/Cycle/Accepted.antt =====
-- The entries that a cycle logs, for internal/activity/service.go.
use huntarr.Base.{
  ℕ, true, ◌&&◌, List, [], ◌∷◌, ◌++◌, Option, none, some, pos, negsuc, ℤ, All, All-append, ◌≡◌,
  refl, if_rule,
}
use huntarr.Settings.Values.{Resolved}
use huntarr.Arr.Quality.{UpgradeItem}
use huntarr.Scheduler.Cycle.{
  Instance, UpgradeResult, World, Entry, Replies, candidates, searched_entry, send_batch,
  choose_batch, search_available, search_candidates, search_upgrades, run_instance_cycle,
}
use huntarr.Activity.{valid_level, valid_action}

abbrev pub IsAccepted : Entry → Type 0
IsAccepted e = (valid_level e.level && valid_action e.action) ≡ true

-- The entries that are logged so far.
abbrev pub AreAccepted : World → Type 0
AreAccepted w = All IsAccepted w.log

pub logged-All :
    (e : Entry) (l : List Entry) → IsAccepted e → All IsAccepted l → All IsAccepted (l ++ e ∷ [])
logged-All e l a h = All-append IsAccepted l (e ∷ []) h (a, tt)

abbrev pub Leaves : Option ((ℕ × ℕ) × World) → Type 0
Leaves none = Unit
Leaves (some q) = AreAccepted q.1

module _ (inst : Instance) (resolved : Resolved) (a : Replies) where
  send_batch-AreAccepted :
      (u : UpgradeResult) (items : List UpgradeItem) (cooling : List ℕ) (n : ℕ) (ids : List ℕ)
      (w : World)
      → AreAccepted w
      → AreAccepted (send_batch inst resolved a u items cooling n ids w).1
  unfolding send_batch
  send_batch-AreAccepted u items cooling n ids w h =
      if_rule (λ (q : (ℕ × ℕ) × World). AreAccepted q.1) a.search_ok _ _
        (λ _.
          let e = searched_entry inst resolved a u items cooling n ids in
          if_rule (λ (v : World). All IsAccepted (v.log ++ e ∷ [])) a.record_ok _ _
            (λ _. logged-All e w.log refl h) (λ _. logged-All e w.log refl h))
        (λ _. logged-All _ w.log refl h)

  choose_batch-Leaves :
      (u : UpgradeResult) (items : List UpgradeItem) (cooling : List ℕ) (size : ℤ) (ids : List ℕ)
      (w : World)
      → AreAccepted w
      → Leaves (choose_batch inst resolved a u items cooling size ids w)
  unfolding choose_batch
  choose_batch-Leaves u items cooling (pos n) ids w h =
      send_batch-AreAccepted u items cooling n _ w h
  choose_batch-Leaves u items cooling (negsuc n) ids w h = tt

  search_available-Leaves :
      (u : UpgradeResult) (items : List UpgradeItem) (cooling ids : List ℕ) (w : World)
      → AreAccepted w
      → Leaves (search_available inst resolved a u items cooling ids w)
  unfolding search_available
  search_available-Leaves u items cooling [] w h = logged-All _ w.log refl h
  search_available-Leaves u items cooling (i ∷ ids) w h =
      choose_batch-Leaves u items cooling resolved.batch_size (i ∷ ids) w h

  search_candidates-Leaves :
      (u : UpgradeResult) (items : List UpgradeItem) (w : World)
      → AreAccepted w
      → Leaves (search_candidates inst resolved a u items w)
  unfolding search_candidates
  search_candidates-Leaves u [] w h = logged-All _ w.log refl h
  search_candidates-Leaves u (c ∷ cs) w h =
      if_rule Leaves a.query_ok _ _ (λ _. search_available-Leaves u (c ∷ cs) _ _ w h) (λ _. h)

  search_upgrades-Leaves :
      (o : Option UpgradeResult) (w : World)
      → AreAccepted w
      → Leaves (search_upgrades inst resolved a o w)
  unfolding search_upgrades
  search_upgrades-Leaves none w h = logged-All _ w.log refl h
  search_upgrades-Leaves (some u) w h = search_candidates-Leaves u (candidates resolved u) w h

  pub run_instance_cycle-Leaves :
      (w : World) → AreAccepted w → Leaves (run_instance_cycle inst resolved a w)
  unfolding run_instance_cycle
  run_instance_cycle-Leaves w h =
      if_rule Leaves a.cancelled _ _ (λ _. h) (λ _. search_upgrades-Leaves a.upgrades w h)
