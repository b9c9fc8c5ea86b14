-- ===== src/Scheduler/Cycle/Cooling.antt =====
-- What a cycle searches after an earlier one.
use huntarr.Base.{
  ℕ, ◌+◌, ◌<◌, String, true, false, List, [], ◌∷◌, ◌++◌, some, contains, length, length-append,
  All-contains, pos, ◌≡◌, ◌⊎◌, inl, inr, sym, ◌∙◌, ap, subst, arith, Bool-cases,
}
use mathlib.Core.List.{append_cancel_left}
use huntarr.Settings.Values.{Resolved}
use huntarr.Scheduler.Cooldown.{milliseconds, record_searches}
use huntarr.Scheduler.Cooldown.Stamps.{
  stamped, record_searches-stamped, filter_cooling_down-stamped,
}
use huntarr.Scheduler.Cycle.{Instance, World, Replies, run_instance_cycle}
use huntarr.Scheduler.Cycle.Batch.{
  IsUnsent, IsSent, run_instance_cycle_ends, candidate_ids, cooling_ids,
}

module _ (inst : Instance) (resolved : Resolved) (a : Replies) (n : ℕ)
    (size : resolved.batch_size ≡ pos n) (w : World) (q : (ℕ × ℕ) × World)
    (ran : run_instance_cycle inst resolved a w ≡ some q) (batch : List ℕ)
    (sent : q.1.commands ≡ w.commands ++ (inst.id, batch) ∷ []) where
  not_unsent : IsUnsent w q → ⊥
  not_unsent h =
      let same : w.commands ≡ w.commands ++ (inst.id, batch) ∷ [] = sym h.commands ∙ sent in
      let lengths = ap length same ∙ length-append w.commands ((inst.id, batch) ∷ []) in
      omega (arith, lengths)

  same_batch : (s : IsSent inst resolved a n w q) → s.batch ≡ batch
  same_batch s =
      let same : (inst.id, s.batch) ∷ [] ≡ (inst.id, batch) ∷ [] =
        append_cancel_left w.commands _ _ (sym s.commands ∙ sent) in
      let pair : (inst.id, s.batch) ≡ (inst.id, batch) = cc in
      ap (λ (p : String × List ℕ). p.1) pair

  ends-IsSent : IsSent inst resolved a n w q
  ends-IsSent =
      let (r, returned, ends) = run_instance_cycle_ends inst resolved a n size w in
      let both : some r ≡ some q = sym returned ∙ ran in
      let equal : r ≡ q = cc in
      elim (subst (λ p. IsUnsent w p ⊎ IsSent inst resolved a n w p) equal ends) [
        | inl h ↦ absurd (not_unsent h)
        | inr s ↦ s
      ]

  -- While the search of an item that the table holds is younger than the cooldown period, no command
  -- of a cycle of its instance names the item.
  pub run_instance_cycle-stamped :
      (j time : ℕ)
      → stamped inst.id j time w.cooldowns ≡ true
      → a.query_time < time + milliseconds resolved.cooldown_period
      → contains batch j ≡ false
  run_instance_cycle-stamped j time h lt = elim (Bool-cases (contains batch j)) [
    | inl member ↦
        let s = ends-IsSent in
        let ids = candidate_ids resolved s.result in
        let cooling = cooling_ids inst resolved a s.result w in
        let drawn =
          All-contains (λ j. (contains ids j ≡ true) × (contains cooling j ≡ false)) s.batch j
            s.chosen.drawn (ap (λ b. contains b j) (same_batch s) ∙ member) in
        let cool =
          filter_cooling_down-stamped inst.id ids resolved.cooldown_period time a.query_time j
            w.cooldowns h drawn.0 lt in
        let bad : true ≡ false = sym cool ∙ drawn.1 in cc
    | inr absent ↦ absent
  ]

-- If a cycle's command succeeds and its searches are recorded, no item of it is searched again by a
-- later cycle of the instance that starts from the state it left, until the cooldown period that the
-- later cycle is given has passed since the recording.
pub run_instance_cycle_again :
    (inst : Instance) (first second : Resolved) (a b : Replies) (m n : ℕ) (w : World)
    (q r : (ℕ × ℕ) × World) (searched again : List ℕ)
    → first.batch_size ≡ pos m
    → second.batch_size ≡ pos n
    → run_instance_cycle inst first a w ≡ some q
    → q.1.commands ≡ w.commands ++ (inst.id, searched) ∷ []
    → a.search_ok ≡ true
    → a.record_ok ≡ true
    → run_instance_cycle inst second b q.1 ≡ some r
    → r.1.commands ≡ q.1.commands ++ (inst.id, again) ∷ []
    → b.query_time < a.record_time + milliseconds second.cooldown_period
    → (j : ℕ) → contains searched j ≡ true
    → contains again j ≡ false
run_instance_cycle_again inst first second a b m n w q r searched again hm hn ran sent ok recorded
      ran' sent' early j member =
    let s = ends-IsSent inst first a m hm w q ran searched sent in
    let rows : q.1.cooldowns ≡ record_searches inst.id s.batch a.record_time w.cooldowns =
      s.cooldowns ∙ rw (ok, recorded) in
    let in_batch : contains s.batch j ≡ true =
      ap (λ l. contains l j) (same_batch inst first a m hm w q ran searched sent s) ∙ member in
    let stamp : stamped inst.id j a.record_time q.1.cooldowns ≡ true =
      ap (stamped inst.id j a.record_time) rows
      ∙ record_searches-stamped inst.id s.batch j a.record_time w.cooldowns in_batch in
    run_instance_cycle-stamped inst second b n hn q.1 r ran' again sent' j a.record_time stamp early
