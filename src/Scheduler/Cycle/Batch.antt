-- ===== src/Scheduler/Cycle/Batch.antt =====
-- Which items a cycle searches.
use huntarr.Base.{
  ℕ, min, true, false, ◌&&◌, List, [], ◌∷◌, ◌++◌, Option, none, some, if◌then◌else◌, ltb, contains,
  length, take, map, pos, All, All-take, ◌≡◌, ◌⊎◌, inl, inr, refl, sym, subst, arith, if_rule,
  length-take, ◌∙◌, ap, suc, All-map,
}
use huntarr.Settings.Values.{Resolved}
use huntarr.Arr.Quality.{UpgradeItem}
use huntarr.Scheduler.Cooldown.{filter_cooling_down, record_searches}
use huntarr.Scheduler.Cycle.{
  Instance, UpgradeResult, World, Replies, exclude_ids, item_id, candidates, send_batch,
  searched_entry, failed_entry, choose_batch, search_available, search_candidates, search_upgrades,
  run_instance_cycle,
}

-- A member that is drawn from the ids and is not excluded.
abbrev IsDrawn : List ℕ → List ℕ → ℕ → Type 0
IsDrawn ids excluded j = (contains ids j ≡ true) × (contains excluded j ≡ false)

IsDrawn-cons :
    (i : ℕ) (ids excluded : List ℕ) (j : ℕ) → IsDrawn ids excluded j → IsDrawn (i ∷ ids) excluded j
IsDrawn-cons i ids excluded j h = ground (arith, h)

exclude_ids-IsDrawn :
    (ids excluded : List ℕ) → All (IsDrawn ids excluded) (exclude_ids ids excluded)
unfolding exclude_ids
exclude_ids-IsDrawn [] excluded = tt
exclude_ids-IsDrawn (i ∷ ids) excluded =
    let rest =
      All-map (IsDrawn-cons i ids excluded) (exclude_ids ids excluded)
        (exclude_ids-IsDrawn ids excluded) in
    if_rule (All (IsDrawn (i ∷ ids) excluded)) (contains excluded i) (exclude_ids ids excluded)
      (i ∷ exclude_ids ids excluded) (λ _. rest) (λ allowed. ((ground arith, allowed), rest))

abbrev pub candidate_ids : Resolved → UpgradeResult → List ℕ
candidate_ids resolved u = map item_id (candidates resolved u)

abbrev pub cooling_ids : Instance → Resolved → Replies → UpgradeResult → World → List ℕ
cooling_ids inst resolved a u w =
    filter_cooling_down inst.id (candidate_ids resolved u) resolved.cooldown_period a.query_time
      w.cooldowns

-- How many of the ids are not in the list `cooling`.
abbrev pub allowed : List ℕ → List ℕ → ℕ
allowed [] cooling = 0
allowed (i ∷ ids) cooling =
    let rest = allowed ids cooling in if contains cooling i then rest else suc rest

exclude_ids-length : (ids cooling : List ℕ) → length (exclude_ids ids cooling) ≡ allowed ids cooling
unfolding exclude_ids
exclude_ids-length [] cooling = refl
exclude_ids-length (i ∷ ids) cooling = ground (arith, exclude_ids-length ids cooling)

-- A batch of at most `n` candidates that are not cooling down, and of no fewer than there are.
pub record IsBatch (ids cooling : List ℕ) (n : ℕ) (batch : List ℕ) : Type 0 where
  pub drawn : All (λ j. (contains ids j ≡ true) × (contains cooling j ≡ false)) batch
  pub size : length batch ≡ min n (allowed ids cooling)

chosen-IsBatch :
    (ids cooling : List ℕ) (n : ℕ)
    → let available = exclude_ids ids cooling in
      IsBatch ids cooling n (if ltb n (length available) then take n available else available)
chosen-IsBatch ids cooling n =
    let available = exclude_ids ids cooling in
    let drawn = exclude_ids-IsDrawn ids cooling in
    if_rule (IsBatch ids cooling n) (ltb n (length available)) (take n available) available
      (λ more. record {
        drawn = All-take (IsDrawn ids cooling) n available drawn;
        size = length-take n available ∙ ap (λ k. min n k) (exclude_ids-length ids cooling);
      })
      (λ all. record { drawn = drawn; size = ground (arith, exclude_ids-length ids cooling) })

-- A cycle that sends no command and changes no search.
pub record IsUnsent (w : World) (q : (ℕ × ℕ) × World) : Type 0 where
  pub searched : q.0.0 ≡ 0
  pub commands : q.1.commands ≡ w.commands
  pub cooldowns : q.1.cooldowns ≡ w.cooldowns

-- A cycle that sends one command, for `batch`. The searches are recorded if the command succeeded
-- and the database answered.
pub record IsSent (inst : Instance) (resolved : Resolved) (a : Replies) (n : ℕ) (w : World)
    (q : (ℕ × ℕ) × World) : Type 0 where
  pub result : UpgradeResult
  pub fetched : a.upgrades ≡ some result
  pub batch : List ℕ
  pub chosen :
      IsBatch (candidate_ids resolved result) (cooling_ids inst resolved a result w) n batch
  pub commands : q.1.commands ≡ w.commands ++ (inst.id, batch) ∷ []
  pub counted :
      q.0 ≡ ((if a.search_ok then length batch else 0), length (candidates resolved result))
  pub cooldowns : q.1.cooldowns ≡ (
      if a.search_ok && a.record_ok
      then record_searches inst.id batch a.record_time w.cooldowns
      else w.cooldowns)
  pub logged :
      let items = candidates resolved result in
      let cooling = cooling_ids inst resolved a result w in
      q.1.log
      ≡ w.log
        ++ (if a.search_ok
            then searched_entry inst resolved a result items cooling n batch
            else failed_entry inst resolved a result items cooling batch)
          ∷ []

module _ (inst : Instance) (resolved : Resolved) (a : Replies) (n : ℕ)
    (size : resolved.batch_size ≡ pos n) where
  abbrev Ends : Option ((ℕ × ℕ) × World) → World → Type 0
  Ends r w = (q : (ℕ × ℕ) × World) × (r ≡ some q) × (IsUnsent w q ⊎ IsSent inst resolved a n w q)

  send_batch-IsSent :
      (u : UpgradeResult) (batch : List ℕ) (w : World)
      → a.upgrades ≡ some u
      → let cooling = cooling_ids inst resolved a u w in
        IsBatch (candidate_ids resolved u) cooling n batch
        → IsSent inst resolved a n w
            (send_batch inst resolved a u (candidates resolved u) cooling n batch w)
  unfolding send_batch
  send_batch-IsSent u batch w e chosen = record {
    result = u;
    fetched = e;
    batch = batch;
    chosen = chosen;
    commands = ground arith;
    counted = ground arith;
    cooldowns = ground arith;
    logged = ground arith;
  }

  choose_batch-Ends :
      (u : UpgradeResult) (available : List ℕ) (w : World)
      → a.upgrades ≡ some u
      → available ≡ exclude_ids (candidate_ids resolved u) (cooling_ids inst resolved a u w)
      → Ends
          (choose_batch inst resolved a u
            (candidates resolved u)
            (cooling_ids inst resolved a u w)
            resolved.batch_size
            available
            w)
          w
  unfolding choose_batch
  choose_batch-Ends u available w e av =
      let cooling = cooling_ids inst resolved a u w in
      let chosen =
        subst
          (λ ids.
            IsBatch (candidate_ids resolved u) cooling n
              (if ltb n (length ids) then take n ids else ids))
          (sym av) (chosen-IsBatch (candidate_ids resolved u) cooling n) in
      subst
        (λ b. Ends (choose_batch inst resolved a u (candidates resolved u) cooling b available w) w)
        (sym size) (_, refl, inr (send_batch-IsSent u _ w e chosen))

  search_available-Ends :
      (u : UpgradeResult) (w : World)
      → a.upgrades ≡ some u
      → (available : List ℕ)
      → available ≡ exclude_ids (candidate_ids resolved u) (cooling_ids inst resolved a u w)
      → Ends
          (search_available inst resolved a u
            (candidates resolved u)
            (cooling_ids inst resolved a u w)
            available
            w)
          w
  unfolding search_available
  search_available-Ends u w e [] av =
      (_, refl, inl (record { searched = refl; commands = refl; cooldowns = refl }))
  search_available-Ends u w e (i ∷ ids) av = choose_batch-Ends u (i ∷ ids) w e av

  search_candidates-Ends :
      (u : UpgradeResult) (w : World)
      → a.upgrades ≡ some u
      → (items : List UpgradeItem) → items ≡ candidates resolved u
      → Ends (search_candidates inst resolved a u items w) w
  unfolding search_candidates
  search_candidates-Ends u w e [] same =
      (_, refl, inl (record { searched = refl; commands = refl; cooldowns = refl }))
  search_candidates-Ends u w e (c ∷ cs) same =
      if_rule (λ r. Ends r w) a.query_ok _ _
        (λ _.
          subst
            (λ its.
              let ids = map item_id its in
              let cooling =
                filter_cooling_down inst.id ids resolved.cooldown_period a.query_time w.cooldowns in
              Ends (search_available inst resolved a u its cooling (exclude_ids ids cooling) w) w)
            (sym same) (search_available-Ends u w e _ refl))
        (λ _. (_, refl, inl (record { searched = refl; commands = refl; cooldowns = refl })))

  search_upgrades-Ends :
      (upgrades : Option UpgradeResult) (w : World)
      → a.upgrades ≡ upgrades
      → Ends (search_upgrades inst resolved a upgrades w) w
  unfolding search_upgrades
  search_upgrades-Ends none w e =
      (_, refl, inl (record { searched = refl; commands = refl; cooldowns = refl }))
  search_upgrades-Ends (some u) w e = search_candidates-Ends u w e (candidates resolved u) refl

  -- With a batch size that is not negative, a cycle returns. Either it sends nothing and changes no
  -- search, or it sends one command for its instance: for as many of the candidates (the upgrades,
  -- and the missing items if the settings ask for them) as there are outside their cooldown, up to
  -- the batch size, and for no other item; it returns their number if the command succeeded, else 0,
  -- and records them if the command succeeded and the database answers. It then logs one entry that
  -- lists the batch, an error if the command failed.
  pub run_instance_cycle_ends :
      (w : World)
      → (q : (ℕ × ℕ) × World) × (run_instance_cycle inst resolved a w ≡ some q)
        × (IsUnsent w q ⊎ IsSent inst resolved a n w q)
  unfolding run_instance_cycle
  run_instance_cycle_ends w =
      if_rule (λ r. Ends r w) a.cancelled _ _
        (λ _. (_, refl, inl (record { searched = refl; commands = refl; cooldowns = refl })))
        (λ _. search_upgrades-Ends a.upgrades w refl)
