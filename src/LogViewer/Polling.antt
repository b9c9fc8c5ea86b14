-- ===== src/LogViewer/Polling.antt =====
-- The interval timer of the log viewer.
use huntarr.Base.{
  ℕ, String, Bool, true, false, not, List, [], ◌∷◌, Option, none, some, if◌then◌else◌, ==_iff, ◌≡◌,
  refl, arith, Bool-cases, inl, inr, if_rule, str_eq, ◌∙◌, sym,
}
use huntarr.LogViewer.{
  Viewer, initial_viewer, start_fetch, start_polling, stop_polling, on_visibility,
  toggle_auto_refresh, init, destroy, remove_interval, start_with, stop_with,
}

-- What can start or stop the polling of a viewer.
pub data Event : Type 0 where
  toggled destroyed : Event
  hidden shown : Event

abbrev pub handle : Event → Viewer → Viewer
handle toggled v = toggle_auto_refresh v
handle destroyed v = destroy v
handle hidden v = on_visibility true v
handle shown v = on_visibility false v

pub run : List Event → Viewer → Viewer
run [] v = v
run (e ∷ es) v = run es (handle e v)

-- The timers that should be live, by `refreshInterval`.
abbrev pub expected : Option ℕ → List ℕ
expected none = []
expected (some t) = t ∷ []

abbrev pub is_polling : Option ℕ → Bool
is_polling none = false
is_polling (some t) = true

-- One live timer at most, which is known, and none without auto-refresh.
pub record IsValid (v : Viewer) : Type 0 where
  pub tracked : v.live ≡ expected v.refresh_interval
  pub wanted : is_polling v.refresh_interval ≡ true → v.auto_refresh ≡ true

start_with-IsValid :
    (r : Option ℕ) (v : Viewer)
    → v.refresh_interval ≡ r
    → v.live ≡ expected r
    → v.auto_refresh ≡ true
    → IsValid (start_with r v) × (is_polling (start_with r v).refresh_interval ≡ true)
unfolding start_with
start_with-IsValid (some t) v e h a = (record { tracked = rw e h; wanted = λ _. a }, rw e)
start_with-IsValid none v e h a = (record { tracked = rw h; wanted = λ _. a }, refl)

start_polling-IsValid :
    (v : Viewer)
    → v.live ≡ expected v.refresh_interval
    → v.auto_refresh ≡ true
    → IsValid (start_polling v) × (is_polling (start_polling v).refresh_interval ≡ true)
unfolding start_polling
start_polling-IsValid v h a = start_with-IsValid v.refresh_interval v refl h a

stop_with-IsValid :
    (r : Option ℕ) (v : Viewer)
    → v.refresh_interval ≡ r
    → v.live ≡ expected r
    → IsValid (stop_with r v)
      × ((stop_with r v).live ≡ [])
      × (is_polling (stop_with r v).refresh_interval ≡ false)
unfolding stop_with
stop_with-IsValid none v e h = (record { tracked = rw e h; wanted = rw e (λ bad. cc) }, h, rw e)
stop_with-IsValid (some t) v e h =
    let gone : remove_interval t v.live ≡ [] = rw (h, remove_interval, (==_iff t t).1 refl) in
    (record { tracked = gone; wanted = λ bad. cc }, gone, refl)

stop_polling-IsValid :
    (v : Viewer)
    → v.live ≡ expected v.refresh_interval
    → IsValid (stop_polling v)
      × ((stop_polling v).live ≡ [])
      × (is_polling (stop_polling v).refresh_interval ≡ false)
unfolding stop_polling
stop_polling-IsValid v h = stop_with-IsValid v.refresh_interval v refl h

handle-IsValid : (e : Event) (v : Viewer) → IsValid v → IsValid (handle e v)
unfolding toggle_auto_refresh on_visibility destroy
handle-IsValid toggled v h = elim (Bool-cases (not v.auto_refresh)) [
  | inl on ↦ rw on (start_polling-IsValid (record v { auto_refresh = true }) h.tracked refl).0
  | inr off ↦ rw off (stop_polling-IsValid (record v { auto_refresh = false }) h.tracked).0
]
handle-IsValid destroyed v h = (stop_polling-IsValid v h.tracked).0
handle-IsValid hidden v h = (stop_polling-IsValid v h.tracked).0
handle-IsValid shown v h =
    if_rule IsValid v.auto_refresh (start_polling v) v
      (λ on. (start_polling-IsValid v h.tracked on).0) (λ off. h)

run-IsValid : (es : List Event) (v : Viewer) → IsValid v → IsValid (run es v)
unfolding run
run-IsValid [] v h = h
run-IsValid (e ∷ es) v h = run-IsValid es (handle e v) (handle-IsValid e v h)

abbrev with_action : String → Viewer
with_action action = record initial_viewer {
  filters = record (initial_viewer.filters) { action = action };
}

init-IsValid : (is_hidden : Bool) (action : String) → IsValid (init is_hidden action initial_viewer)
unfolding init
init-IsValid is_hidden action =
    let v = if str_eq action "" then initial_viewer else with_action action in
    (start_polling-IsValid (start_fetch is_hidden v) (ground arith) (ground arith)).0

run-init-IsValid :
    (is_hidden : Bool) (action : String) (es : List Event)
    → IsValid (run es (init is_hidden action initial_viewer))
run-init-IsValid is_hidden action es =
    run-IsValid es (init is_hidden action initial_viewer) (init-IsValid is_hidden action)

not_polling :
    (v : Viewer) → IsValid v → v.auto_refresh ≡ false → is_polling v.refresh_interval ≡ false
not_polling v h off = elim (Bool-cases (is_polling v.refresh_interval)) [
  | inl e ↦ let on = h.wanted e in cc
  | inr e ↦ e
]

-- From the start of the page on, whatever is toggled, hidden, shown or destroyed, at most one
-- interval timer is live, it is the one that `refreshInterval` holds, and there is none while
-- auto-refresh is off. At any time, hiding the page leaves no timer live, and showing it polls
-- exactly if auto-refresh is on.
pub on_visibility-run :
    (is_hidden : Bool) (action : String) (es : List Event)
    → let v = run es (init is_hidden action initial_viewer) in
      IsValid v
      × ((on_visibility true v).live ≡ [])
      × (is_polling (on_visibility false v).refresh_interval ≡ v.auto_refresh)
unfolding on_visibility
on_visibility-run is_hidden action es =
    let v = run es (init is_hidden action initial_viewer) in
    let h = run-init-IsValid is_hidden action es in
    (
      h,
      (stop_polling-IsValid v h.tracked).1,
      if_rule (λ w. is_polling w.refresh_interval ≡ v.auto_refresh) v.auto_refresh (start_polling v)
          v (λ on. (start_polling-IsValid v h.tracked on).1 ∙ sym on)
          (λ off. not_polling v h off ∙ sym off),
    )
