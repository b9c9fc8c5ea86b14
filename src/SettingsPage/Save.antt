-- ===== src/SettingsPage/Save.antt =====
-- web/static/js/settings.js: `saveGlobalSettings`, `saveInstanceSettings` and `resetToDefaults`,
-- against the server's PUT and DELETE of /api/settings.
pub mod Split
pub mod Effect
use huntarr.Base.{
  ℕ, String, Bool, true, false, not, ◌||◌, List, [], ◌∷◌, Option, none, some, if◌then◌else◌, str_eq,
  or_text,
}
use huntarr.SettingsPage.Form.{Value, Settings, show_value, show_bool}

-- An entry of `entries` in `saveInstanceSettings`.
pub record Entry : Type 0 where
  pub key : String
  pub value : String
  pub global : String

abbrev pub entry : String → String → String → Entry
entry k v g = record { key = k; value = v; global = g }

-- `gs.x || ''` and `String(gs.x)`, where `gs` is `{}` if no global settings are loaded.
abbrev pub global_text : Option Settings → (Settings → String) → String
global_text none f = ""
global_text (some g) f = or_text (f g) ""

abbrev pub global_string : Option Settings → (Settings → String) → String
global_string none f = "undefined"
global_string (some g) f = f g

unfoldable pub instance_entries : Settings → Option Settings → List Entry
instance_entries form globals =
    entry "batch_size" (show_value form.batch_size)
      (global_string globals (λ g. show_value g.batch_size))
    ∷ entry "cooldown_period" form.cooldown_period (global_text globals (λ g. g.cooldown_period))
    ∷ entry "search_window_start" form.search_window_start
        (global_text globals (λ g. g.search_window_start))
    ∷ entry "search_window_end" form.search_window_end
        (global_text globals (λ g. g.search_window_end))
    ∷ entry "search_interval" form.search_interval (global_text globals (λ g. g.search_interval))
    ∷ entry "enabled" (show_bool form.enabled) (global_string globals (λ g. show_bool g.enabled))
    ∷ entry "search_missing" (show_bool form.search_missing)
        (global_string globals (λ g. show_bool g.search_missing))
    ∷ []

-- The loop over the entries: what is pushed to `overrides` and to `removals`.
unfoldable pub split_entries : List Entry → List (String × String) × List String
split_entries [] = ([], [])
split_entries (e ∷ es) =
    let (overrides, removals) = split_entries es in
    if not (str_eq e.value e.global)
    then ((e.key, e.value) ∷ overrides, removals)
    else (overrides, e.key ∷ removals)

-- `settings` in `saveGlobalSettings`.
unfoldable pub global_entries : Settings → List (String × String)
global_entries form =
    ("batch_size", show_value form.batch_size)
    ∷ ("cooldown_period", form.cooldown_period)
    ∷ ("search_window_start", form.search_window_start)
    ∷ ("search_window_end", form.search_window_end)
    ∷ ("search_interval", form.search_interval)
    ∷ ("search_limit", show_value form.search_limit)
    ∷ ("search_missing", show_bool form.search_missing)
    ∷ []

-- `keys` in `resetToDefaults`.
unfoldable pub reset_keys : List String
reset_keys =
    "batch_size" ∷ "cooldown_period" ∷ "search_window_start" ∷ "search_window_end"
    ∷ "search_interval" ∷ "enabled" ∷ "search_missing" ∷ []

-- How a request ends: a status of success, another status with the `error` of its body (empty if
-- the body gives none), or an exception of `fetch`.
pub data Reply : Type 0 where
  success : Reply
  refused : String → Reply
  thrown : Reply

-- The server as the page uses it: settings of an instance, or the global ones, are written or
-- removed together. The state is what the server stores.
pub record SettingsApi (S : Type 0) : Type 0 where
  pub put : Option String → List (String × String) → S → Reply × S
  pub remove : Option String → List String → S → Reply × S

-- The message shown at the end, with `true` for the type "success".
pub record Notice : Type 0 where
  pub message : String
  pub succeeded : Bool

abbrev pub notice : String → Bool → Notice
notice m b = record { message = m; succeeded = b }

-- The message for a request that did not succeed; `fallback` is used for an empty `error`.
abbrev pub failure_notice : String → Reply → Notice
failure_notice fallback success = notice fallback false
failure_notice fallback (refused e) = notice (or_text e fallback) false
failure_notice fallback thrown = notice fallback false

abbrev pub is_success : Reply → Bool
is_success success = true
is_success (refused e) = false
is_success thrown = false

abbrev pub save_failed : String
save_failed = "Failed to save settings."

module _ {S : Type 0} (api : SettingsApi S) where
  -- A request that is made only for a list that is not empty.
  put_some : String → List (String × String) → S → Reply × S
  put_some tab [] s = (success, s)
  put_some tab (o ∷ os) s = api.put (some tab) (o ∷ os) s

  remove_some : String → List String → S → Reply × S
  remove_some tab [] s = (success, s)
  remove_some tab (k ∷ ks) s = api.remove (some tab) (k ∷ ks) s

  -- The second half of `saveInstanceSettings`, after the PUT.
  then_remove : String → List String → Reply × S → Notice × S
  then_remove tab removals (success, s) =
      let (reply, s') = remove_some tab removals s in
      if is_success reply
      then (notice "Settings saved." true, s')
      else (failure_notice save_failed reply, s')
  then_remove tab removals (refused e, s) = (failure_notice save_failed (refused e), s)
  then_remove tab removals (thrown, s) = (failure_notice save_failed thrown, s)

  unfoldable pub save_instance_settings : String → Settings → Option Settings → S → Notice × S
  unfolding put_some remove_some then_remove
  save_instance_settings tab form globals s =
      let (overrides, removals) = split_entries (instance_entries form globals) in
      then_remove tab removals (put_some tab overrides s)

  unfoldable pub reset_to_defaults : String → S → Notice × S
  reset_to_defaults tab s =
      let (reply, s') = api.remove (some tab) reset_keys s in
      if is_success reply
      then (notice "Reset to defaults." true, s')
      else (failure_notice "Failed to reset settings." reply, s')

  -- With the `globalSettings` that the page holds afterwards; `form` is the form when the reply
  -- arrives, `sent` the form when the request was made.
  unfoldable pub save_global_settings :
      Settings → Settings → Option Settings → S → Notice × Option Settings × S
  save_global_settings sent form globals s =
      let (reply, s') = api.put none (global_entries sent) s in
      if is_success reply
      then (notice "Settings saved." true, some form, s')
      else (failure_notice save_failed reply, globals, s')
