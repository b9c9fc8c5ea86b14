-- ===== src/SettingsPage/Page/Loading.antt =====
-- What a load that was overtaken does.
use huntarr.Base.{String, false, ◌≡◌, refl}
use huntarr.SettingsPage.Form.{Settings, apply_form_data}
use huntarr.SettingsPage.Page.{Page, body, pair_loaded, finish_load, select_tab}

-- If a second tab is selected before the first tab's load ends, and the first tab's reply is the
-- later one, the page is on the second tab with the first tab's settings in the form, and no
-- longer shows that it is loading.
pub finish_load_stale :
    (p : Page) (a b : String) (globals of_a of_b : Settings)
    → let selected = select_tab b (select_tab a p) in
      let in_time = finish_load (pair_loaded (body globals) (body of_b)) selected in
      let q = finish_load (pair_loaded (body globals) (body of_a)) in_time in
      (q.active_tab ≡ b) × (q.form ≡ apply_form_data of_a) × (q.loading ≡ false)
unfolding finish_load select_tab
finish_load_stale p a b globals of_a of_b = (refl, refl, refl)
