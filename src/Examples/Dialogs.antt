-- ===== src/Examples/Dialogs.antt =====
-- Examples for the other pages: web/static/js/connections.js, logs.js and scheduler.js.
use huntarr.Base.{
  String, Bool, true, false, List, [], ◌∷◌, none, some, ◌≡◌, ◌≢◌, arith, leb, lookup, or_text,
  str_eq, eq_iff, if◌then◌else◌,
}
use huntarr.SchedulerPanel.{initial_panel, Fetched, not_ok, thrown}
use huntarr.SchedulerPanel
use huntarr.SchedulerPanel.Failures
use huntarr.Connections
use huntarr.LogViewer.{initial_viewer, init, on_visibility}
use huntarr.LogViewer.Polling
use huntarr.AppDefaults.{default_placeholder}
use huntarr.Connections.{
  dialog_changed, next_tick, Form, Tested, initial_manager, open_add, open_edit, edit_responded,
  edit_error_read, edit_read, edit_failed, stop, load_failed, start_test, finish_test, timer_fires,
  test_result,
}
use huntarr.Connections.Editing.{Answer, take_answers, take_answers_late}
use huntarr.Connections.Testing
use huntarr.Connections.Focus
use huntarr.Connections.Scroll.{
  Position, scroll_key, whole_part, reload_instances, init_scroll, init_scroll-reload_instances,
}

abbrev refreshes : List (Bool × Fetched)
refreshes = (false, not_ok) ∷ (true, not_ok) ∷ (false, thrown) ∷ (false, not_ok) ∷ []

run_warning_example :
    let p = Failures.run refreshes (SchedulerPanel.init initial_panel) in
    (p.connection_lost ≡ leb 3 (Failures.trailing_failures refreshes 0))
    × (p.failures ≡ Failures.trailing_failures refreshes 0)
    × (p.status ≡ Failures.last_received refreshes initial_panel.status)
    × (p.live ≡ 1 ∷ [])
    × ((SchedulerPanel.destroy p).live ≡ [])
run_warning_example = Failures.run_warning refreshes

abbrev visits : List Polling.Event
visits = Polling.hidden ∷ Polling.toggled ∷ Polling.shown ∷ Polling.toggled ∷ []

on_visibility-run_example :
    let v = Polling.run visits (init false "search_cycle" initial_viewer) in
    Polling.IsValid v
    × ((on_visibility true v).live ≡ [])
    × (Polling.is_polling (on_visibility false v).refresh_interval ≡ v.auto_refresh)
on_visibility-run_example = Polling.on_visibility-run false "search_cycle" visits

abbrev an_instance : Form
an_instance = record {
  name = "Films";
  app_type = "radarr";
  base_url = "http://radarr:7878";
  api_key = "****";
  timeout_ms = 5000;
}

abbrev late_answers : List Answer
late_answers = Answer.responded "old" true ∷ Answer.read "old" an_instance ∷ []

new_old : ◌≢◌ {A = String} "new" "old"
new_old e = let same = (eq_iff "new" "old").1 e in cc

take_answers_late_example :
    let q =
      edit_read "new" an_instance
        (take_answers late_answers (open_edit "button" "new" initial_manager)) in
    let added = open_add "button" "radarr" 1 (open_edit "button" "new" initial_manager) in
    let late = take_answers late_answers added in
    ((q.edit_id ≡ "new")
      × (q.editing ≡ true)
      × (q.show_modal ≡ true)
      × (q.form_error ≡ "")
      × (q.form.name ≡ "Films")
      × (q.form.app_type ≡ "radarr")
      × (q.form.base_url ≡ "http://radarr:7878")
      × (q.form.api_key ≡ "")
      × (q.placeholder_url ≡ default_placeholder "radarr"))
    × ((late ≡ added) × (edit_responded "new" true late ≡ stop))
    × ((added.editing ≡ false)
        × (added.form_error ≡ "")
        × ((edit_failed added).form_error ≡ load_failed)
        × ((edit_error_read "no such instance" added).form_error
            ≡ or_text "no such instance" load_failed))
take_answers_late_example =
    take_answers_late "button" "new" "radarr" 1 initial_manager late_answers an_instance true
      "no such instance" (new_old, (new_old, tt)) ((λ e. cc), ((λ e. cc), tt)) (λ e. cc)

abbrev tests : List Testing.Event
tests = Testing.started "a" ∷ Testing.finished "a" (Tested.lost) ∷ []

timer_fires-finish_test_example :
    let m = Testing.run tests initial_manager in
    let q = finish_test "a" Tested.lost m in
    (lookup "a" (timer_fires 1 q).test_results ≡ some (test_result Tested.lost))
    × (lookup "a" (timer_fires m.next_timer q).test_results ≡ none)
    × ((Connections.destroy q).live ≡ [])
timer_fires-finish_test_example =
    Testing.timer_fires-finish_test tests "a" Tested.lost 1
      (unfold Testing.run finish_test start_test in λ e. omega arith)

dialog_changed-open_dialog_example :
    let opened =
      (dialog_changed true
        (Focus.open_dialog "edit button" (Focus.editing "a") initial_manager)).0 in
    let closed = dialog_changed false opened in
    (closed.1 ≡ true)
    × (next_tick closed.0 ≡ none)
    × (next_tick (Focus.open_dialog "delete button" (Focus.deleting "a" "Films") closed.0)
        ≡ some "delete button")
dialog_changed-open_dialog_example =
    Focus.dialog_changed-open_dialog "edit button" "delete button" (Focus.editing "a")
      (Focus.deleting "a" "Films") initial_manager

abbrev far_down : Position
far_down = record { negative = false; whole = 1240; fraction = some "5" }

init_scroll-reload_instances_example :
    let (kept, moved) = init_scroll (reload_instances far_down (("other", "1") ∷ [])) in
    (moved ≡ some (some (whole_part far_down)))
    × (lookup "other" kept
        ≡ (if str_eq scroll_key "other" then none else lookup "other" (("other", "1") ∷ [])))
init_scroll-reload_instances_example =
    init_scroll-reload_instances far_down "other" (("other", "1") ∷ [])
