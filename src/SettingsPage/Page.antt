-- ===== src/SettingsPage/Page.antt =====
-- web/static/js/settings.js: `settingsManager` with its loads and its saves. A method with `await`
-- is a function that runs up to the request and one that goes on with the page as it then is.
pub mod Loading
pub mod Saving
pub mod Tabs
use huntarr.Base.{
  ℕ, suc, ◌+◌, ◌-◌, ◌%◌, ◌≤◌, String, Bool, true, false, List, [], ◌∷◌, Option, none, some,
  if◌then◌else◌, str_eq, ℤ, pos, negsuc, leb, ◌==◌,
}
use huntarr.SettingsPage.Form.{
  Settings, Invalid, form_errors, is_empty, apply_form_data, initial_form,
}
use huntarr.SettingsPage.Banner.{Banner, initial_banner, show_message, clear_message}
use huntarr.SettingsPage.Save.{
  Notice, SettingsApi, save_instance_settings, save_global_settings, reset_to_defaults,
}

pub record Page : Type 0 where
  pub active_tab : String
  pub loading : Bool
  pub saving : Bool
  pub banner : Banner
  pub errors : List Invalid
  pub global_settings : Option Settings
  pub form : Settings

abbrev pub initial_page : Page
initial_page = record {
  active_tab = "global";
  loading = false;
  saving = false;
  banner = initial_banner;
  errors = [];
  global_settings = none;
  form = initial_form;
}

-- How one response of a load ends: a body, a status that is no success, or a body that cannot be
-- read.
pub data Body : Type 0 where
  body : Settings → Body
  not_ok broken : Body

-- How the requests of `loadSettings` end; `lost` is an exception of `fetch`.
pub data Loaded : Type 0 where
  global_loaded : Body → Loaded
  pair_loaded : Body → Body → Loaded
  lost : Loaded

-- The `catch` of `loadSettings`.
abbrev pub load_failed : Page → Page
load_failed p = record p { banner = show_message "Failed to load settings." "error" p.banner }

abbrev pub with_form : Settings → Page → Page
with_form d p = record p { form = apply_form_data d }

abbrev pub with_globals : Settings → Page → Page
with_globals d p = record p { global_settings = some d }

-- The body of the `try`, from the arrival of what was requested.
take_global : Body → Page → Page
take_global (body d) p = with_globals d (with_form d p)
take_global not_ok p = p
take_global broken p = load_failed p

take_instance : Body → Page → Page
take_instance (body d) p = with_form d p
take_instance not_ok p = p
take_instance broken p = load_failed p

take_pair : Body → Body → Page → Page
unfolding take_instance
take_pair (body g) r p = take_instance r (with_globals g p)
take_pair not_ok r p = take_instance r p
take_pair broken r p = load_failed p

-- What is left of `loadSettings` when the requests end: the `finally` included.
unfoldable pub finish_load : Loaded → Page → Page
unfolding take_global take_pair
finish_load (global_loaded r) p = record (take_global r p) { loading = false }
finish_load (pair_loaded g r) p = record (take_pair g r p) { loading = false }
finish_load lost p = record (load_failed p) { loading = false }

-- `loadSettings` up to its requests. It requests the tab that is active then.
unfoldable pub start_load : Page → Page
start_load p = record p { loading = true }

-- `selectTab`, up to the requests of its load.
unfoldable pub select_tab : String → Page → Page
unfolding start_load
select_tab tab p =
    start_load (record p { active_tab = tab; banner = clear_message p.banner; errors = [] })

abbrev pub is_global : String → Bool
is_global tab = str_eq tab "global"

abbrev pub notice_type : Bool → String
notice_type true = "success"
notice_type false = "error"

abbrev pub show_notice : Notice → Page → Page
show_notice n p = record p { banner = show_message n.message (notice_type n.succeeded) p.banner }

-- The page while a save or a reset runs.
abbrev pub started : Page → Page
started p = record p { saving = true; banner = clear_message p.banner }

-- The message and the `finally` at the end.
abbrev pub finished : Notice → Page → Page
finished n p = record (show_notice n p) { saving = false }

-- `validate`
unfoldable pub validate : Page → Page × Bool
validate p = (record p { errors = form_errors p.form }, is_empty (form_errors p.form))

module _ {S : Type 0} (api : SettingsApi S) where
  -- `saveSettings` and `resetToDefaults` against the server, with no other event between a request
  -- and its reply.
  save_global : Page → S → Page × S
  save_global p s =
      let (n, globals, s') = save_global_settings api p.form p.form p.global_settings s in
      (finished n (record (started p) { global_settings = globals }), s')

  save_instance : Page → S → Page × S
  save_instance p s =
      let (n, s') = save_instance_settings api p.active_tab p.form p.global_settings s in
      (finished n (started p), s')

  unfoldable pub save_settings : Page → S → Page × S
  unfolding save_global save_instance validate
  save_settings p s =
      let (checked, valid) = validate p in
      if valid
      then if is_global checked.active_tab then save_global checked s else save_instance checked s
      else (checked, s)

  -- A reset that succeeds also clears the errors and loads the settings again.
  unfoldable pub reset_settings : Page → S → Page × S
  unfolding start_load
  reset_settings p s =
      let (n, s') = reset_to_defaults api p.active_tab s in
      let ended = finished n (started p) in
      if n.succeeded then (start_load (record ended { errors = [] }), s') else (ended, s')

-- `focusAdjacentTab`: the index to move to, from the index of the tab that has the focus and the
-- number of tabs; `none` is an index that is outside the list of tabs. `jump` is the argument of
-- that name, and the remainder of a negative number is negative or 0, which no tab has.
pub data Jump : Type 0 where
  first last adjacent : Jump

unfoldable pub step_index : ℕ → ℤ → ℕ → Option ℕ
step_index idx (pos d) n = some ((idx + d + n) % n)
step_index idx (negsuc d) n = if leb (suc d) (idx + n) then some ((idx + n - suc d) % n) else none

unfoldable pub adjacent_tab : ℕ → ℤ → Jump → ℕ → Option ℕ
unfolding step_index
adjacent_tab idx direction first n = some 0
adjacent_tab idx direction last n = some (n - 1)
adjacent_tab idx direction adjacent n = step_index idx direction n
