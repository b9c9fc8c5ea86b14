-- ===== src/Examples/Pages.antt =====
-- Examples for the Settings page: web/static/js/settings.js.
use huntarr.Base.{true, List, [], ◌∷◌, ◌≡◌, refl, arith, codes, ◌↔◌}
use huntarr.SettingsPage.Formats.{valid_duration, valid_hhmm}
use huntarr.SettingsPage.Formats.Duration.{IsDuration, valid_duration_iff}
use huntarr.SettingsPage.Form.{Settings, Invalid, initial_form, form_errors}
use huntarr.SettingsPage.Banner.{initial_banner, show_message, timer_fires}
use huntarr.SettingsPage.Banner.Timers.{Event, shown, fired, run, timer_fires-show_message}

valid_duration_iff_example : (valid_duration "1h30m" ≡ true) ↔ IsDuration (codes "1h30m")
valid_duration_iff_example = valid_duration_iff "1h30m"

-- A unit other than hours, minutes and seconds.
abbrev bad_form : Settings
bad_form = record initial_form { search_interval = "6 days"; search_window_start = "22:00" }

bad_form_errors : form_errors bad_form ≡ Invalid.search_interval ∷ []
unfolding form_errors valid_duration valid_hhmm
bad_form_errors = refl

abbrev two_messages : List Event
two_messages = shown "Settings saved." "success" ∷ fired 1 ∷ shown "Connection lost." "error" ∷ []

timer_fires-show_message_example :
    let b = run two_messages initial_banner in
    ((timer_fires 2 (show_message "Reset." "success" b)).message ≡ "Reset.")
    × ((timer_fires b.next_timer (show_message "Reset." "success" b)).message ≡ "")
timer_fires-show_message_example =
    timer_fires-show_message two_messages "Reset." "success" 2
      (unfold run show_message timer_fires in omega arith)
