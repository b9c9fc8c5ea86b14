-- ===== src/SchedulerPanel/Failures.antt =====
-- When the connection warning shows.
use huntarr.Base.{ℕ, suc, Bool, true, false, List, [], ◌∷◌, leb, some, ◌≡◌, refl, arith}
use huntarr.LogViewer.{remove_interval}
use huntarr.SchedulerPanel.{
  Status, Panel, initial_panel, max_failures, Fetched, received, not_ok, thrown, refresh, init,
  destroy, clear_with,
}

-- The refreshes of a session in order, each with the visibility of the page.
pub run : List (Bool × Fetched) → Panel → Panel
run [] p = p
run ((hidden, f) ∷ fs) p = run fs (refresh hidden f p)

-- The failures since the last success, and the last status received, among the refreshes that were
-- made on a visible page.
abbrev pub trailing_failures : List (Bool × Fetched) → ℕ → ℕ
trailing_failures [] n = n
trailing_failures ((true, f) ∷ fs) n = trailing_failures fs n
trailing_failures ((false, received s) ∷ fs) n = trailing_failures fs 0
trailing_failures ((false, not_ok) ∷ fs) n = trailing_failures fs (suc n)
trailing_failures ((false, thrown) ∷ fs) n = trailing_failures fs (suc n)

abbrev pub last_received : List (Bool × Fetched) → Status → Status
last_received [] s = s
last_received ((true, f) ∷ fs) s = last_received fs s
last_received ((false, received t) ∷ fs) s = last_received fs t
last_received ((false, not_ok) ∷ fs) s = last_received fs s
last_received ((false, thrown) ∷ fs) s = last_received fs s

-- A panel with `n` failures and the status `s`, which warns if the failures are enough, and with the
-- first timer.
record Shows (n : ℕ) (s : Status) (p : Panel) : Type 0 where
  failures : p.failures ≡ n
  warning : p.connection_lost ≡ leb max_failures n
  status : p.status ≡ s
  interval : p.interval ≡ some 1
  live : p.live ≡ 1 ∷ []

refresh_failed :
    (n : ℕ) (s : Status) (p : Panel)
    → Shows n s p
    → Shows (suc n) s (refresh false not_ok p) × Shows (suc n) s (refresh false thrown p)
unfolding refresh
refresh_failed n s p h = ground arith

refresh_received :
    (n : ℕ) (s t : Status) (p : Panel) → Shows n s p → Shows 0 t (refresh false (received t) p)
unfolding refresh
refresh_received n s t p h = record {
  failures = refl;
  warning = refl;
  status = refl;
  interval = h.interval;
  live = h.live;
}

refresh_hidden :
    {n : ℕ} {s : Status} {p : Panel} (f : Fetched) → Shows n s p → Shows n s (refresh true f p)
unfolding refresh
refresh_hidden f h = h

run-Shows :
    (fs : List (Bool × Fetched)) (n : ℕ) (s : Status) (p : Panel)
    → Shows n s p
    → Shows (trailing_failures fs n) (last_received fs s) (run fs p)
unfolding run
run-Shows [] n s p h = h
run-Shows ((true, f) ∷ fs) n s p h = run-Shows fs n s (refresh true f p) (refresh_hidden f h)
run-Shows ((false, received t) ∷ fs) n s p h =
    run-Shows fs 0 t (refresh false (received t) p) (refresh_received n s t p h)
run-Shows ((false, not_ok) ∷ fs) n s p h =
    run-Shows fs (suc n) s (refresh false not_ok p) (refresh_failed n s p h).0
run-Shows ((false, thrown) ∷ fs) n s p h =
    run-Shows fs (suc n) s (refresh false thrown p) (refresh_failed n s p h).1

destroy-live : {n : ℕ} {s : Status} {p : Panel} → Shows n s p → (destroy p).live ≡ []
unfolding destroy clear_with
destroy-live h = rw (h.interval, h.live, remove_interval)

-- After the start of the widget and any refreshes, the widget warns of a lost connection exactly if
-- at least three refreshes in a row have failed since the last success, and it shows the status
-- received last; what is requested on a hidden page does not count. One interval timer is live, and
-- none once the widget is destroyed.
pub run_warning :
    (fs : List (Bool × Fetched))
    → let p = run fs (init initial_panel) in
      (p.connection_lost ≡ leb 3 (trailing_failures fs 0))
      × (p.failures ≡ trailing_failures fs 0)
      × (p.status ≡ last_received fs initial_panel.status)
      × (p.live ≡ 1 ∷ [])
      × ((destroy p).live ≡ [])
run_warning fs =
    let h = run-Shows fs 0 initial_panel.status (init initial_panel) (
      unfold init in
      record { failures = refl; warning = refl; status = refl; interval = refl; live = refl }) in
    (h.warning, h.failures, h.status, h.live, destroy-live h)
