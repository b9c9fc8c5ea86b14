-- ===== src/Scheduler/Cycle/Progress.antt =====
-- How the cycles of an instance get through its candidates.
use huntarr.Base.{
  ℕ, ◌+◌, ◌-◌, ◌*◌, ◌≤◌, ◌<◌, true, false, List, [], ◌∷◌, Option, none, some, contains, length,
  take, map, pos, All, ◌≡◌, refl, sym, ap, ◌∙◌, subst, arith,
}
use huntarr.Settings.Values.{Resolved}
use huntarr.Arr.Quality.{UpgradeItem}
use huntarr.Scheduler.Cooldown.{milliseconds, filter_cooling_down, record_searches}
use huntarr.Scheduler.Cooldown.Fresh.{
  fresh, IsSettled, record_searches-fresh, record_searches-keeps_fresh, record_searches-IsSettled,
  filter_cooling_down-fresh,
}
use huntarr.Scheduler.Cycle.{
  Instance, UpgradeResult, World, Replies, exclude_ids, item_id, candidates, send_batch,
  choose_batch, search_available, search_candidates, search_upgrades, run_instance_cycle,
}
use huntarr.Scheduler.Cycle.Remaining.{
  remaining, remaining-take, take-nil, take-all, All-members, remaining-length, remaining-zero,
  fewer_still,
}
use huntarr.Scheduler.Cycle.Batch.{candidate_ids, cooling_ids}

module _ (inst : Instance) (resolved : Resolved) (u : UpgradeResult) (n : ℕ)
    (size : resolved.batch_size ≡ pos n) where
  -- A cycle in which everything works, while the searches since `since` are in their cooldown.
  pub record Works (since : ℕ) (a : Replies) : Type 0 where
    pub live : a.cancelled ≡ false
    pub fetched : a.upgrades ≡ some u
    pub queried : a.query_ok ≡ true
    pub searched : a.search_ok ≡ true
    pub kept : a.record_ok ≡ true
    pub after : since ≤ a.query_time
    pub early : a.query_time < since + milliseconds resolved.cooldown_period
    pub recorded : since ≤ a.record_time

  -- The searches that a cycle records.
  abbrev Records : Replies → List ℕ → World → Option ((ℕ × ℕ) × World) → Type 0
  Records a available w r =
      (q : (ℕ × ℕ) × World) × (r ≡ some q)
      × (q.1.cooldowns ≡ record_searches inst.id (take n available) a.record_time w.cooldowns)

  send_batch-cooldowns :
      (since : ℕ) (a : Replies)
      → Works since a
      → (items : List UpgradeItem) (cooling batch : List ℕ) (w : World)
      → (send_batch inst resolved a u items cooling n batch w).1.cooldowns
        ≡ record_searches inst.id batch a.record_time w.cooldowns
  unfolding send_batch
  send_batch-cooldowns since a h items cooling batch w = rw (h.searched, h.kept) refl

  search_available-Records :
      (since : ℕ) (a : Replies)
      → Works since a
      → (items : List UpgradeItem) (cooling available : List ℕ) (w : World)
      → Records a available w (search_available inst resolved a u items cooling available w)
  unfolding search_available choose_batch
  search_available-Records since a h items cooling [] w = (
    _,
    refl,
    unfold record_searches in
        ap (λ l. record_searches inst.id l a.record_time w.cooldowns) (sym (take-nil n)),
  )
  search_available-Records since a h items cooling (i ∷ ids) w =
      subst
        (λ b. Records a (i ∷ ids) w (choose_batch inst resolved a u items cooling b (i ∷ ids) w))
        (sym size)
        (
          _,
          refl,
          send_batch-cooldowns since a h items cooling _ w
              ∙ ap (λ l. record_searches inst.id l a.record_time w.cooldowns)
                  (take-all n (i ∷ ids)),
        )

  search_candidates-Records :
      (since : ℕ) (a : Replies)
      → Works since a
      → (items : List UpgradeItem) (w : World)
      → let ids = map item_id items in
        let cooling =
          filter_cooling_down inst.id ids resolved.cooldown_period a.query_time w.cooldowns in
        Records a (exclude_ids ids cooling) w (search_candidates inst resolved a u items w)
  unfolding search_candidates
  search_candidates-Records since a h [] w = (
    _,
    refl,
    unfold record_searches exclude_ids in
        ap (λ l. record_searches inst.id l a.record_time w.cooldowns) (sym (take-nil n)),
  )
  search_candidates-Records since a h (c ∷ cs) w =
      rw h.queried (search_available-Records since a h (c ∷ cs) _ _ w)

  run_instance_cycle-Records :
      (since : ℕ) (a : Replies)
      → Works since a
      → (w : World)
      → Records a
          (exclude_ids (candidate_ids resolved u) (cooling_ids inst resolved a u w))
          w
          (run_instance_cycle inst resolved a w)
  unfolding run_instance_cycle search_upgrades
  run_instance_cycle-Records since a h w =
      rw (h.live, h.fetched) (search_candidates-Records since a h (candidates resolved u) w)

  -- Cycles one after the other.
  pub cycles : List Replies → World → Option World
  cycles [] w = some w
  cycles (a ∷ replies) w = elim (run_instance_cycle inst resolved a w) [
    | none ↦ none
    | some (counts, w') ↦ cycles replies w'
  ]

  abbrev ids : List ℕ
  ids = candidate_ids resolved u

  abbrev left : ℕ → World → ℕ
  left since w = remaining ids (fresh inst.id since w.cooldowns)

  abbrev Settled : ℕ → World → Type 0
  Settled since w = All (IsSettled inst.id since resolved.cooldown_period) w.cooldowns

  cycle_step :
      (since : ℕ) (a : Replies)
      → Works since a
      → (w : World) → Settled since w
      → (q : (ℕ × ℕ) × World) × (run_instance_cycle inst resolved a w ≡ some q)
        × Settled since q.1
        × (left since q.1 ≤ left since w - n)
  cycle_step since a h w settled =
      let period = resolved.cooldown_period in
      let cooling = cooling_ids inst resolved a u w in
      let batch = take n (exclude_ids ids cooling) in
      let (q, ran, rows) = run_instance_cycle-Records since a h w in
      let same : All (λ i. contains cooling i ≡ fresh inst.id since w.cooldowns i) ids =
        All-members ids (λ j m.
          filter_cooling_down-fresh inst.id since period ids a.query_time j w.cooldowns h.after
            h.early m settled) in
      let after = record_searches inst.id batch a.record_time w.cooldowns in
      let fewer : remaining ids (fresh inst.id since after) ≤ left since w - n =
        remaining-take ids cooling (fresh inst.id since w.cooldowns) (fresh inst.id since after)
          same
          (λ j.
            record_searches-keeps_fresh inst.id since batch j a.record_time w.cooldowns h.recorded)
          n
          (λ j. record_searches-fresh inst.id since batch j a.record_time w.cooldowns h.recorded) in
      (
        q,
        ran,
        subst (All (IsSettled inst.id since period)) (sym rows) (
            record_searches-IsSettled inst.id since period batch a.record_time w.cooldowns
              h.recorded settled),
        subst (λ r. remaining ids (fresh inst.id since r) ≤ left since w - n) (sym rows) fewer,
      )

  cycles-left :
      (since : ℕ) (replies : List Replies) (w : World)
      → All (Works since) replies
      → Settled since w
      → (w' : World) × (cycles replies w ≡ some w')
        × (left since w' ≤ left since w - length replies * n)
  unfolding cycles
  cycles-left since [] w h settled = (w, refl, omega arith)
  cycles-left since (a ∷ replies) w h settled =
      let (q, ran, next, fewer) = cycle_step since a h.0 w settled in
      let (w', rest, few) = cycles-left since replies q.1 h.1 next in
      (w', rw (ran, cycles) rest, fewer_still _ _ _ n (length replies) few fewer)

  -- While everything works, the candidates stay the same and no search made since the start leaves
  -- its cooldown, cycles with a batch size `n` have searched every candidate since the start as soon
  -- as `n` times their number reaches that of the candidates. At the start, every search in the
  -- table is out of its cooldown.
  pub cycles_cover :
      (since : ℕ) (replies : List Replies) (w : World)
      → All (Works since) replies
      → All (IsSettled inst.id since resolved.cooldown_period) w.cooldowns
      → length (candidate_ids resolved u) ≤ length replies * n
      → (w' : World) × (cycles replies w ≡ some w')
        × All (λ j. fresh inst.id since w'.cooldowns j ≡ true) (candidate_ids resolved u)
  cycles_cover since replies w h settled enough =
      let (w', ran, few) = cycles-left since replies w h settled in
      (
        w',
        ran,
        remaining-zero ids (fresh inst.id since w'.cooldowns)
            (omega (arith, few, enough, remaining-length ids (fresh inst.id since w.cooldowns))),
      )
