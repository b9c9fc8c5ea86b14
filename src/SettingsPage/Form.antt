-- ===== src/SettingsPage/Form.antt =====
-- web/static/js/settings.js: the state of the form, `validate` and `applyFormData`.
pub mod Validation
use huntarr.Base.{
  ℕ, String, Bool, true, false, ◌&&◌, List, [], ◌∷◌, ◌++◌, Option, none, some, if◌then◌else◌,
  decimal, or_text,
}
use huntarr.SettingsPage.Formats.{valid_duration, valid_hhmm}

-- What a field with `x-model.number` holds: a number, or the text that is none.
pub data Value : Type 0 where
  num : ℕ → Value
  text : String → Value

-- `String(v)`
unfoldable pub show_value : Value → String
show_value (num n) = decimal n
show_value (text s) = s

unfoldable pub show_bool : Bool → String
show_bool true = "true"
show_bool false = "false"

-- The object in `form` and in `globalSettings`.
pub record Settings : Type 0 where
  pub batch_size : Value
  pub cooldown_period : String
  pub search_window_start : String
  pub search_window_end : String
  pub search_interval : String
  pub search_limit : Value
  pub enabled : Bool
  pub search_missing : Bool

-- The names of the fields that `errors` may hold, in the order in which they are set.
pub data Invalid : Type 0 where
  cooldown_period search_interval search_window_start search_window_end : Invalid

-- The message of an error.
abbrev pub error_text : Invalid → String
error_text Invalid.cooldown_period = "Use a Go duration (e.g. 24h, 1h30m)."
error_text Invalid.search_interval = "Use a Go duration (e.g. 6h, 1h30m)."
error_text Invalid.search_window_start = "Use HH:MM format (e.g. 01:00)."
error_text Invalid.search_window_end = "Use HH:MM format (e.g. 06:00)."

-- An entry of `errors` if the test of its field fails.
abbrev pub check : Bool → Invalid → List Invalid
check true name = []
check false name = name ∷ []

abbrev pub is_empty : List Invalid → Bool
is_empty [] = true
is_empty (e ∷ es) = false

-- The object that `validate` leaves in `errors`.
unfoldable pub form_errors : Settings → List Invalid
form_errors form =
    check (valid_duration form.cooldown_period) Invalid.cooldown_period
    ++ (check (valid_duration form.search_interval) Invalid.search_interval
        ++ (check (valid_hhmm form.search_window_start) Invalid.search_window_start
            ++ check (valid_hhmm form.search_window_end) Invalid.search_window_end))

-- `applyFormData`; an absent window is the empty text.
unfoldable pub apply_form_data : Settings → Settings
apply_form_data response = record {
  batch_size = response.batch_size;
  cooldown_period = response.cooldown_period;
  search_window_start = or_text response.search_window_start "";
  search_window_end = or_text response.search_window_end "";
  search_interval = response.search_interval;
  search_limit = response.search_limit;
  enabled = response.enabled;
  search_missing = response.search_missing;
}

-- The form of a new page.
abbrev pub initial_form : Settings
initial_form = record {
  batch_size = num 10;
  cooldown_period = "24h";
  search_window_start = "";
  search_window_end = "";
  search_interval = "6h";
  search_limit = num 100;
  enabled = true;
  search_missing = true;
}
