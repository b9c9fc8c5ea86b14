-- ===== src/SettingsPage/Page/Saving.antt =====
-- What a save does to the page and when it reaches the server.
use huntarr.Base.{true, false, ◌≡◌, ◌⊎◌, arith, Bool-cases, inl, inr}
use huntarr.SettingsPage.Form.{Invalid, form_errors, is_empty}
use huntarr.SettingsPage.Form.Validation.{field_valid, form_errors_empty}
use huntarr.SettingsPage.Save.{SettingsApi}
use huntarr.SettingsPage.Page.{Page, save_settings}

module _ {S : Type 0} (api : SettingsApi S) (p : Page) (s : S) where
  save_settings_invalid : is_empty (form_errors p.form) ≡ false → (save_settings api p s).1 ≡ s
  unfolding save_settings
  save_settings_invalid h = rw h

  save_settings_guarded :
      ((save_settings api p s).1 ≡ s) ⊎ ((e : Invalid) → field_valid p.form e ≡ true)
  save_settings_guarded = elim (Bool-cases (is_empty (form_errors p.form))) [
    | inl valid ↦ inr (form_errors_empty p.form valid)
    | inr invalid ↦ inl (save_settings_invalid invalid)
  ]

  -- A save that starts on a page that is not saving ends on one that is not, keeps the tab and the
  -- form and records the errors of the form, on every path and whatever the server replies. Unless
  -- the four fields are valid, the server keeps what it has.
  pub save_settings_ends :
      p.saving ≡ false
      → ((save_settings api p s).0.saving ≡ false)
        × ((save_settings api p s).0.form ≡ p.form)
        × ((save_settings api p s).0.active_tab ≡ p.active_tab)
        × ((save_settings api p s).0.errors ≡ form_errors p.form)
        × (((save_settings api p s).1 ≡ s) ⊎ ((e : Invalid) → field_valid p.form e ≡ true))
  save_settings_ends h =
      let kept : ((save_settings api p s).0.saving ≡ false)
          × ((save_settings api p s).0.form ≡ p.form)
          × ((save_settings api p s).0.active_tab ≡ p.active_tab)
          × ((save_settings api p s).0.errors ≡ form_errors p.form) =
        unfold save_settings in ground arith in
      (kept.0, kept.1, kept.2, kept.3, save_settings_guarded)
