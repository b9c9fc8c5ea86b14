-- ===== src/Scheduler/Upkeep/Served.antt =====
-- Ticks between requests of the API: internal/scheduler/scheduler.go over the settings that
-- internal/settings stores.
use huntarr.Base.{
  ℕ, ◌≤◌, max, Bool, true, false, String, List, [], ◌∷◌, Option, none, some, map, ℤ, ◌≡◌, refl,
  arith, subst, ap, sym, ◌∙◌,
}
use huntarr.Settings.Values.{Resolved, resolve, resolve_global}
use huntarr.Settings.Store.{Store}
use huntarr.Settings.Store.Valid.{
  Request, carry_out, empty_store, IsValid, IsValid-empty_store, IsValid-resolve, carry_out-IsValid,
  resolve_global-IsUsable,
}
use huntarr.Scheduler.Cycle.{World}
use huntarr.Scheduler.Tick.{Scheduler, Visit, tick}
use huntarr.Scheduler.Upkeep.{Upkeep, UpkeepReplies, is_finished, finish_tick, whole_tick}
use huntarr.Scheduler.Tick.Limit.{HasBatch, HasBatches, tick-count}

-- What happens to the server: a batch of settings is sent, or a tick starts.
pub data Step : Type 0 where
  requested : Request → Step
  ticked : ℕ → List Visit → UpkeepReplies → Step

-- The state of the server: the settings, the two parts of the scheduler's, and the world.
abbrev pub State : Type 0
State = Store × Scheduler × Upkeep × World

abbrev pub with_store : Store → Option (Scheduler × Upkeep × World) → Option State
with_store st none = none
with_store st (some (s, u, w)) = some (st, s, u, w)

module _ (parse_duration : String → Option ℤ) where
  -- The settings of an instance, unless reading them is the error that its visit has.
  abbrev pub read_settings : Store → String → Option Resolved → Option Resolved
  read_settings st id none = none
  read_settings st id (some r) = resolve parse_duration (some st.global) (some (st.overrides id))

  abbrev pub with_settings : Store → Visit → Visit
  with_settings st v = record v { resolved = read_settings st v.instance.id v.resolved }

  abbrev pub step : Step → State → Option State
  step (requested q) (st, s, u, w) = some (carry_out parse_duration q st, s, u, w)
  step (ticked now vs c) (st, s, u, w) = with_store st (
      whole_tick now (resolve_global parse_duration (some st.global))
        (some (map (with_settings st) vs)) c s u w)

  pub run : List Step → State → Option State
  run [] s = some s
  run (e ∷ es) s = elim (step e s) [ none ↦ none | some s' ↦ run es s' ]

  HasBatch-le : (b c : ℕ) (o : Option Resolved) → b ≤ c → HasBatch b o → HasBatch c o
  HasBatch-le b c none le h = tt
  HasBatch-le b c (some r) le (n, size, few) = (n, size, omega (arith, le, few))

  HasBatches-le : (b c : ℕ) (vs : List Visit) → b ≤ c → HasBatches b vs → HasBatches c vs
  HasBatches-le b c [] le h = tt
  HasBatches-le b c (v ∷ vs) le h = (HasBatch-le b c v.resolved le h.0, HasBatches-le b c vs le h.1)

  read_settings-HasBatch :
      (st : Store) (id : String)
      → IsValid parse_duration st
      → (o : Option Resolved) → (b : ℕ) × HasBatch b (read_settings st id o)
  read_settings-HasBatch st id h none = (0, tt)
  read_settings-HasBatch st id h (some old) =
      let (r, read, usable) = IsValid-resolve parse_duration st id h in
      let (n, size, positive) = usable.batch in
      (n, subst (HasBatch n) (sym read) (n, size, omega arith))

  -- Some bound holds for the batch sizes of all visits.
  with_settings-HasBatches :
      (st : Store)
      → IsValid parse_duration st
      → (vs : List Visit) → (b : ℕ) × HasBatches b (map (with_settings st) vs)
  with_settings-HasBatches st h [] = (0, tt)
  with_settings-HasBatches st h (v ∷ vs) =
      let (b, first) = read_settings-HasBatch st v.instance.id h v.resolved in
      let (c, rest) = with_settings-HasBatches st h vs in
      (
        max b c,
        (
          HasBatch-le b (max b c) (read_settings st v.instance.id v.resolved) (omega arith) first,
          HasBatches-le c (max b c) (map (with_settings st) vs) (omega arith) rest,
        ),
      )

  tick_returns :
      (st : Store)
      → IsValid parse_duration st
      → (now : ℕ) (vs : List Visit) (s : Scheduler) (w : World)
      → (q : Scheduler × World) × (tick now
            (resolve_global parse_duration (some st.global))
            (some (map (with_settings st) vs))
            s
            w
          ≡ some q)
  tick_returns st h now vs s w =
      let (g, read, usable) = resolve_global-IsUsable parse_duration st h in
      let (b, batches) = with_settings-HasBatches st h vs in
      let (q, ran, count, hour) = tick-count now b g (map (with_settings st) vs) s w batches in
      (q, ap (λ o. tick now o (some (map (with_settings st) vs)) s w) read ∙ ran)

  finish_tick-returns :
      (now : ℕ) (finished : Bool) (vs : List Visit) (c : UpkeepReplies) (u : Upkeep)
      (p : Scheduler × World)
      → (q : Scheduler × Upkeep × World) × (finish_tick now finished vs c u (some p) ≡ some q)
  finish_tick-returns now false vs c u p = (_, refl)
  finish_tick-returns now true vs c u p = (_, refl)

  step_returns :
      (now : ℕ) (vs : List Visit) (c : UpkeepReplies) (st : Store) (s : Scheduler) (u : Upkeep)
      (w : World)
      → IsValid parse_duration st
      → (q : Scheduler × Upkeep × World) × (step (ticked now vs c) (st, s, u, w)
          ≡ some (st, q.0, q.1, q.2))
  unfolding whole_tick
  step_returns now vs c st s u w h =
      let (p, ran) = tick_returns st h now vs s w in
      let g = resolve_global parse_duration (some st.global) in
      let all = map (with_settings st) vs in
      let finished = is_finished now g (some all) s w in
      let (q, ended) = finish_tick-returns now finished all c u p in (q, rw (ran, ended) refl)

  run_returns_from :
      (es : List Step) (s : State) → IsValid parse_duration s.0 → (q : State) × (run es s ≡ some q)
  unfolding run
  run_returns_from [] s h = (s, refl)
  run_returns_from (requested q ∷ es) (st, s, u, w) h =
      run_returns_from es (carry_out parse_duration q st, s, u, w)
        (carry_out-IsValid parse_duration q st h)
  run_returns_from (ticked now vs c ∷ es) (st, s, u, w) h =
      let (q, ran) = step_returns now vs c st s u w h in
      let (r, rest) = run_returns_from es (st, q.0, q.1, q.2) h in (r, rw (ran, run) rest)

  -- From a database without settings on, whatever batches of settings the API is sent between the
  -- ticks and whatever the instances and the database answer, every whole tick returns: no stored
  -- setting makes a search cycle panic.
  pub run_returns :
      (es : List Step) (s : Scheduler) (u : Upkeep) (w : World)
      → (q : State) × (run es (empty_store, s, u, w) ≡ some q)
  run_returns es s u w =
      run_returns_from es (empty_store, s, u, w) (IsValid-empty_store parse_duration)
