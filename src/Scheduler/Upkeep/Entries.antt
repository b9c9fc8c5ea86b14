-- ===== src/Scheduler/Upkeep/Entries.antt =====
-- The entries that a whole tick logs, for internal/activity/service.go.
use huntarr.Base.{
  none-ne-some, ℕ, ◌+◌, ltb, Bool, true, false, ◌&&◌, String, List, [], ◌∷◌, Option, none, some,
  map, ◌≡◌, refl, subst, if_rule,
}
use huntarr.Settings.Values.{Resolved}
use huntarr.Arr.Records.{HistoryRecord}
use huntarr.Scheduler.Cycle.{Instance, World}
use huntarr.Scheduler.Cycle.Accepted.{IsAccepted, AreAccepted, logged-All}
use huntarr.Scheduler.Tick.{Scheduler, Visit, tick}
use huntarr.Scheduler.Tick.Accepted.{tick-AreAccepted}
use huntarr.Scheduler.Polls.{
  PollReplies, history_poll_interval, history_entry, log_history, finish_poll, polled_history,
  poll_instance_history, poll_instances,
}
use huntarr.Activity.{valid_level, valid_action}
use huntarr.Scheduler.Upkeep.{
  Upkeep, UpkeepReplies, prune_interval, visited, poll_upgrade_history, prune_activity_log,
  listed_visits, is_finished, finish_tick, whole_tick,
}

history_entry-IsAccepted : (inst : Instance) (r : HistoryRecord) → IsAccepted (history_entry inst r)
history_entry-IsAccepted inst r =
    if_rule (λ action. (valid_level "info" && valid_action action) ≡ true) r.is_upgrade
      "upgrade_detected" "download_detected" (λ _. refl) (λ _. refl)

log_history-AreAccepted :
    (inst : Instance) (records : List HistoryRecord) (w : World)
    → AreAccepted w
    → AreAccepted (log_history inst records w)
unfolding log_history
log_history-AreAccepted inst [] w h = h
log_history-AreAccepted inst (r ∷ records) w h =
    log_history-AreAccepted inst records _
      (logged-All (history_entry inst r) w.log (history_entry-IsAccepted inst r) h)

abbrev WithWorld {ℓ} : {A : Type ℓ} → A × World → Type 0
WithWorld q = AreAccepted q.1

finish_poll-AreAccepted :
    (inst : Instance) (r : PollReplies) (o : Option (List HistoryRecord))
    (polled : List (String × ℕ)) (w : World)
    → AreAccepted w
    → WithWorld (finish_poll inst r o polled w)
finish_poll-AreAccepted inst r none polled w h = h
finish_poll-AreAccepted inst r (some records) polled w h = log_history-AreAccepted inst records w h

poll_instances-AreAccepted :
    (replies : String → PollReplies) (insts : List Instance) (polled : List (String × ℕ))
    (w : World)
    → AreAccepted w
    → WithWorld (poll_instances replies insts polled w)
unfolding poll_instances poll_instance_history
poll_instances-AreAccepted replies [] polled w h = h
poll_instances-AreAccepted replies (inst ∷ insts) polled w h =
    let r = replies inst.id in
    let o = polled_history inst r polled in
    if_rule WithWorld r.cancelled _ _ (λ _. h)
      (λ _.
        poll_instances-AreAccepted replies insts _ _ (finish_poll-AreAccepted inst r o polled w h))

abbrev WithUpkeep : Upkeep × World → Type 0
WithUpkeep q = AreAccepted q.1

poll_upgrade_history-AreAccepted :
    (vs : List Visit) (c : UpkeepReplies) (u : Upkeep) (w : World)
    → AreAccepted w
    → WithUpkeep (poll_upgrade_history vs c u w)
unfolding poll_upgrade_history
poll_upgrade_history-AreAccepted vs c u w h =
    if_rule WithUpkeep (ltb (u.last_history_poll + history_poll_interval) c.poll_time) _ _
      (λ _. poll_instances-AreAccepted c.polls (map visited vs) u.polled w h) (λ _. h)

prune_activity_log-AreAccepted :
    (now : ℕ) (c : UpkeepReplies) (u : Upkeep) (w : World)
    → AreAccepted w
    → WithUpkeep (prune_activity_log now c u w)
unfolding prune_activity_log
prune_activity_log-AreAccepted now c u w h =
    if_rule WithUpkeep (ltb (u.last_pruned_at + prune_interval) now) _ _
      (λ _. if_rule WithUpkeep c.prune_ok _ _ (λ _. h) (λ _. h)) (λ _. h)

finish_tick-AreAccepted :
    (now : ℕ) (finished : Bool) (vs : List Visit) (c : UpkeepReplies) (u : Upkeep)
    (o : Option (Scheduler × World)) (q : Scheduler × Upkeep × World)
    → ((p : Scheduler × World) → o ≡ some p → AreAccepted p.1)
    → finish_tick now finished vs c u o ≡ some q
    → AreAccepted q.2
finish_tick-AreAccepted now finished vs c u none q h e = absurd (none-ne-some _ e)
finish_tick-AreAccepted now false vs c u (some (s, w)) q h e =
    let same : w ≡ q.2 = cc in subst AreAccepted same (h (s, w) refl)
finish_tick-AreAccepted now true vs c u (some (s, w)) q h e =
    let polled = poll_upgrade_history vs c u w in
    let pruned = prune_activity_log now c polled.0 polled.1 in
    let same : pruned.1 ≡ q.2 = cc in
    subst AreAccepted same (
      prune_activity_log-AreAccepted now c polled.0 polled.1
        (poll_upgrade_history-AreAccepted vs c u w (h (s, w) refl)))

-- Every entry that a whole tick logs, those of the imports that it finds included, has a level and an
-- action that the activity log accepts, if those of the entries before it have.
pub whole_tick-AreAccepted :
    (now : ℕ) (g : Option Resolved) (vs : Option (List Visit)) (c : UpkeepReplies) (s : Scheduler)
    (u : Upkeep) (w : World) (q : Scheduler × Upkeep × World)
    → AreAccepted w
    → whole_tick now g vs c s u w ≡ some q
    → AreAccepted q.2
unfolding whole_tick
whole_tick-AreAccepted now g vs c s u w q h e =
    finish_tick-AreAccepted now (is_finished now g vs s w) (listed_visits vs) c u
      (tick now g vs s w) q (λ p ran. tick-AreAccepted now g vs s w p h ran) e
