-- ===== src/SettingsPage/Form/Validation.antt =====
-- When the form is valid.
use huntarr.Base.{Bool, true, ◌≡◌, arith}
use huntarr.SettingsPage.Formats.{valid_duration, valid_hhmm}
use huntarr.SettingsPage.Form.{
  Settings, Invalid, cooldown_period, search_interval, search_window_start, search_window_end,
  is_empty, form_errors,
}

-- The test that belongs to a name in `errors`.
abbrev pub field_valid : Settings → Invalid → Bool
field_valid form cooldown_period = valid_duration form.cooldown_period
field_valid form search_interval = valid_duration form.search_interval
field_valid form search_window_start = valid_hhmm form.search_window_start
field_valid form search_window_end = valid_hhmm form.search_window_end

-- Where `validate` returns true, all four fields are valid.
pub form_errors_empty :
    (form : Settings)
    → is_empty (form_errors form) ≡ true
    → (e : Invalid) → field_valid form e ≡ true
unfolding form_errors
form_errors_empty form h cooldown_period = ground arith
form_errors_empty form h search_interval = ground arith
form_errors_empty form h search_window_start = ground arith
form_errors_empty form h search_window_end = ground arith
