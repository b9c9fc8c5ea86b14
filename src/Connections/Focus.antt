-- ===== src/Connections/Focus.antt =====
-- Where the focus goes when a dialog closes: the watchers and their next tick.
use huntarr.Base.{ℕ, String, true, false, none, some, ◌≡◌, refl}
use huntarr.Connections.{
  Manager, open_add, open_edit, confirm_delete_from_el, dialog_changed, next_tick,
}

-- What opens a dialog, with the element that has the focus then.
pub data Opening : Type 0 where
  adding : String → ℕ → Opening
  editing : String → Opening
  deleting : String → String → Opening

abbrev pub open_dialog : String → Opening → Manager → Manager
open_dialog active (adding app_type count) m = open_add active app_type count m
open_dialog active (editing id) m = open_edit active id m
open_dialog active (deleting id name) m = confirm_delete_from_el active id name m

open_dialog-trigger_el :
    (active : String) (o : Opening) (m : Manager)
    → (open_dialog active o m).trigger_el ≡ some active
unfolding open_add open_edit confirm_delete_from_el
open_dialog-trigger_el active (adding app_type count) m = refl
open_dialog-trigger_el active (editing id) m = refl
open_dialog-trigger_el active (deleting id name) m = refl

dialog_changed-trigger_el :
    (el : String) (m : Manager)
    → m.trigger_el ≡ some el
    → ((dialog_changed true m).0.trigger_el ≡ some el)
      × ((dialog_changed true m).1 ≡ false)
      × ((dialog_changed false m).0.trigger_el ≡ none)
      × ((dialog_changed false m).1 ≡ true)
unfolding dialog_changed
dialog_changed-trigger_el el m e = rw e (refl, refl, refl, refl)

-- However a dialog was opened, its closing asks for the focus on the next tick, but has forgotten the
-- element by then: the callback throws and no element is focused, unless another dialog has opened
-- in between, when the element that opened that one is focused.
pub dialog_changed-open_dialog :
    (active other : String) (o p : Opening) (m : Manager)
    → let opened = (dialog_changed true (open_dialog active o m)).0 in
      let closed = dialog_changed false opened in
      (closed.1 ≡ true)
      × (next_tick closed.0 ≡ none)
      × (next_tick (open_dialog other p closed.0) ≡ some other)
unfolding next_tick
dialog_changed-open_dialog active other o p m =
    let shown =
      dialog_changed-trigger_el active (open_dialog active o m)
        (open_dialog-trigger_el active o m) in
    let opened = (dialog_changed true (open_dialog active o m)).0 in
    let gone = dialog_changed-trigger_el active opened shown.0 in
    (gone.3, gone.2, open_dialog-trigger_el other p (dialog_changed false opened).0)
