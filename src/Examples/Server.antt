-- ===== src/Examples/Server.antt =====
-- Examples for the server, and for the Settings page with it: internal and web/static/js/settings.js.
use huntarr.Base.{
  ◌↔◌, ◌⊎◌, ◌≤◌, ℕ, String, true, false, List, [], ◌∷◌, Option, none, some, ◌≡◌, ◌≢◌, refl, ℤ, pos,
  lookup, All, decimal, suc, eq_iff,
}
use Prim.Native.String
use huntarr.SettingsPage.Formats.{valid_duration}
use huntarr.SettingsPage.Form.{Settings, Invalid, initial_form, form_errors, show_value, show_bool}
use huntarr.SettingsPage.Form.Validation.{field_valid}
use huntarr.SettingsPage.Save.{
  SettingsApi, instance_entries, split_entries, success, save_instance_settings,
}
use huntarr.SettingsPage.Save.Split.{wanted}
use huntarr.SettingsPage.Save.Effect.{IsLawful, in_effect, save_instance_settings_saved}
use huntarr.SettingsPage.Page.{Page, initial_page, save_settings}
use huntarr.SettingsPage.Page.Saving.{save_settings_ends}
use huntarr.Settings.Store.{Store, check_entries, set_batch, check_keys, remove_batch}
use huntarr.Settings.Number.{atoi}
use huntarr.Settings.Store.Valid.{Request, put, remove}
use huntarr.Settings.Clock.{parse_hhmm}
use huntarr.Settings.Values.{defaults, apply_overrides, validate_value, key_of}
use huntarr.Settings.Values.Merge.{merged, apply_overrides-merged}
use huntarr.Api.Settings.{server, format_duration, handle_update_settings, handle_delete_settings}
use huntarr.Api.Settings.Endings.{UpdateEnds, DeleteEnds}
use huntarr.Api.Settings.Errors.{handle_settings-Ends}
use huntarr.Api.Settings.Lawful.{server-IsLawful}
use huntarr.Api.Settings.Durations.{valid_duration-format_duration}

-- A server with a database that works, on which every duration is an hour.
abbrev hour_long : String → Option ℤ
hour_long v = some (pos 3600000000000)

abbrev local_server : SettingsApi Store
local_server = server (λ s. some s) hour_long (λ t. t) true

a_named : ◌≢◌ {A = String} "a" ""
a_named e = let same = (eq_iff "a" "").1 e in cc

abbrev local_lawful : IsLawful local_server "a"
local_lawful = server-IsLawful (λ s. some s) hour_long (λ t. t) true "a" "a" a_named refl

abbrev old_store : Store
old_store = record {
  global = ("batch_size", "10") ∷ [];
  overrides = λ id. ("batch_size", "5") ∷ ("search_limit", "7") ∷ [];
}

-- The batch size is the global one again, and the window is new.
abbrev edited_form : Settings
edited_form = record initial_form { search_window_start = "22:00"; search_window_end = "06:00" }

save_instance_settings_saved_example :
    let s' =
      (save_instance_settings local_server "a" edited_form (some initial_form) old_store).1 in
    All
      (λ e.
        (local_lawful.view s' e.key ≡ wanted e)
        × (in_effect e (local_lawful.view s' e.key) ≡ e.value))
      (instance_entries edited_form (some initial_form))
    × (local_lawful.view s' "search_limit" ≡ local_lawful.view old_store "search_limit")
save_instance_settings_saved_example =
    save_instance_settings_saved local_server "a" local_lawful edited_form (some initial_form)
      old_store
      (unfold save_instance_settings split_entries instance_entries server handle_update_settings
          handle_delete_settings set_batch remove_batch check_entries check_keys validate_value
          parse_hhmm key_of show_value show_bool decimal atoi lookup in
        refl)

-- A server that counts the requests that it grants.
abbrev counter : SettingsApi ℕ
counter = record {
  put = λ target entries n. (success, suc n);
  remove = λ target keys n. (success, suc n);
}

abbrev edited_page : Page
edited_page = record initial_page { form = edited_form }

save_settings_ends_example :
    let q = save_settings counter edited_page 0 in
    (q.0.saving ≡ false)
    × (q.0.form ≡ edited_form)
    × (q.0.active_tab ≡ "global")
    × (q.0.errors ≡ form_errors edited_form)
    × ((q.1 ≡ 0) ⊎ ((e : Invalid) → field_valid edited_form e ≡ true))
save_settings_ends_example = save_settings_ends counter edited_page 0 refl

abbrev own_settings : List (String × String)
own_settings = ("batch_size", "25") ∷ ("unknown", "1") ∷ ("enabled", "false") ∷ []

apply_overrides-merged_example :
    apply_overrides hour_long defaults own_settings
    ≡ merged hour_long defaults (λ n. lookup n own_settings)
apply_overrides-merged_example =
    apply_overrides-merged hour_long defaults own_settings
      (unfold lookup in (refl, (refl, (refl, tt))))

valid_duration-format_duration_example :
    (valid_duration (format_duration 500000000) ≡ true)
    ↔ ((◌≡◌ {A = ℕ} 500000000 0) ⊎ (1000000000 ≤ 500000000))
valid_duration-format_duration_example = valid_duration-format_duration 500000000

abbrev requests : List Request
requests =
    put true none (("batch_size", "25") ∷ [])
    ∷ put true (some "a") (("batch_size", "-3") ∷ [])
    ∷ put true (some "a") (("search_limit", "50") ∷ [])
    ∷ remove true none ("batch_size" ∷ [])
    ∷ []

abbrev two_entries : List (String × String)
two_entries = ("batch_size", "25") ∷ ("search_limit", "0") ∷ []

-- The verb `%q`, of a text without characters to escape.
abbrev quoted : String → String
quoted t = String.◌++◌ "\"" (String.◌++◌ t "\"")

handle_settings-Ends_example :
    let put =
      handle_update_settings (λ s. some s) hour_long quoted true "a" (some two_entries) old_store in
    let removed =
      handle_delete_settings
        (λ s. some s)
        hour_long
        quoted
        true
        "a"
        (some ("batch_size" ∷ []))
        old_store in
    UpdateEnds (λ s. some s) hour_long quoted true "a" (some two_entries) old_store put.0 put.1
    × DeleteEnds
        (λ s. some s)
        hour_long
        quoted
        true
        "a"
        (some ("batch_size" ∷ []))
        old_store
        removed.0
        removed.1
handle_settings-Ends_example =
    handle_settings-Ends (λ s. some s) hour_long quoted true "a" (some two_entries)
      (some ("batch_size" ∷ [])) old_store
