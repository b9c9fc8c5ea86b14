-- ===== src/Connections/Editing.antt =====
-- The edit dialog against replies that arrive late.
use huntarr.Base.{
  ℕ, String, Bool, true, false, List, [], ◌∷◌, str_eq, str_eq→eq, str_eq_self, or_text, ◌≡◌, ◌≢◌,
  refl, All, Bool-cases, inl, inr,
}
use huntarr.AppDefaults.{default_placeholder}
use huntarr.Connections.{
  Manager, Form, open_add, open_edit, edit_responded, edit_error_read, edit_read, edit_failed, stop,
  load_failed,
}

-- A response or a body that comes back for a request of `openEdit`, with the request's instance.
-- The continuation of a response changes nothing by itself.
pub data Answer : Type 0 where
  responded : String → Bool → Answer
  read : String → Form → Answer

abbrev pub request_of : Answer → String
request_of (responded id ok) = id
request_of (read id d) = id

abbrev pub take_answer : Answer → Manager → Manager
take_answer (responded id ok) m = m
take_answer (read id d) m = edit_read id d m

pub take_answers : List Answer → Manager → Manager
take_answers [] m = m
take_answers (a ∷ as') m = take_answers as' (take_answer a m)

other : (id j : String) → id ≢ j → str_eq id j ≡ false
other id j ne = elim (Bool-cases (str_eq id j)) [
  | inl e ↦ absurd (ne (str_eq→eq id j e))
  | inr e ↦ e
]

take_answer_stale : (a : Answer) (m : Manager) → m.edit_id ≢ request_of a → take_answer a m ≡ m
unfolding edit_read
take_answer_stale (responded id ok) m ne = refl
take_answer_stale (read id d) m ne = rw (other m.edit_id id ne)

take_answers_stale :
    (answers : List Answer) (m : Manager)
    → All (λ a. m.edit_id ≢ request_of a) answers
    → take_answers answers m ≡ m
unfolding take_answers
take_answers_stale [] m h = refl
take_answers_stale (a ∷ rest) m h = rw (take_answer_stale a m h.0) (take_answers_stale rest m h.1)

edit_read-open_edit :
    (active id : String) (m : Manager) (answers : List Answer) (d : Form)
    → All (λ a. id ≢ request_of a) answers
    → let q = edit_read id d (take_answers answers (open_edit active id m)) in
      (q.edit_id ≡ id)
      × (q.editing ≡ true)
      × (q.show_modal ≡ true)
      × (q.form_error ≡ "")
      × (q.form.name ≡ d.name)
      × (q.form.app_type ≡ d.app_type)
      × (q.form.base_url ≡ d.base_url)
      × (q.form.api_key ≡ "")
      × (q.placeholder_url ≡ default_placeholder d.app_type)
unfolding open_edit
edit_read-open_edit active id m answers d h =
    rw (take_answers_stale answers (open_edit active id m) h) (
      unfold edit_read in
      rw (str_eq_self id) (refl, refl, refl, refl, refl, refl, refl, refl, refl))

take_answers-open_add :
    (active app_type : String) (count : ℕ) (m : Manager) (answers : List Answer) (id : String)
    (ok : Bool)
    → All (λ a. "" ≢ request_of a) answers
    → "" ≢ id
    → let q = take_answers answers (open_add active app_type count m) in
      (q ≡ open_add active app_type count m) × (edit_responded id ok q ≡ stop)
take_answers-open_add active app_type count m answers id ok h ne =
    let same =
      take_answers_stale answers (open_add active app_type count m) (unfold open_add in h) in
    (same, rw same (unfold open_add edit_responded in rw (other "" id ne)))

edit_failed-open_add :
    (active id app_type : String) (count : ℕ) (m : Manager) (e : String)
    → let q = open_add active app_type count (open_edit active id m) in
      (q.editing ≡ false)
      × (q.form_error ≡ "")
      × ((edit_failed q).form_error ≡ load_failed)
      × ((edit_error_read e q).form_error ≡ or_text e load_failed)
unfolding edit_failed edit_error_read open_add
edit_failed-open_add active id app_type count m e = (refl, refl, refl, refl)

-- Responses and bodies for other instances change nothing in an edit dialog that is opened after
-- their requests, however many arrive; the body for the dialog's own instance then fills the form
-- with that instance, without its key, and shows the dialog. They change nothing either in a dialog
-- for a new instance that is opened later, and a response that comes then ends its request. But the
-- message of an exception or of an error's body is not held back so: it is put into whichever dialog
-- is open when it comes, here that for a new instance.
pub take_answers_late :
    (active id app_type : String) (count : ℕ) (m : Manager) (answers : List Answer) (d : Form)
    (ok : Bool) (e : String)
    → All (λ a. id ≢ request_of a) answers
    → All (λ a. "" ≢ request_of a) answers
    → "" ≢ id
    → let q = edit_read id d (take_answers answers (open_edit active id m)) in
      let added = open_add active app_type count (open_edit active id m) in
      let late = take_answers answers added in
      ((q.edit_id ≡ id)
        × (q.editing ≡ true)
        × (q.show_modal ≡ true)
        × (q.form_error ≡ "")
        × (q.form.name ≡ d.name)
        × (q.form.app_type ≡ d.app_type)
        × (q.form.base_url ≡ d.base_url)
        × (q.form.api_key ≡ "")
        × (q.placeholder_url ≡ default_placeholder d.app_type))
      × ((late ≡ added) × (edit_responded id ok late ≡ stop))
      × ((added.editing ≡ false)
          × (added.form_error ≡ "")
          × ((edit_failed added).form_error ≡ load_failed)
          × ((edit_error_read e added).form_error ≡ or_text e load_failed))
take_answers_late active id app_type count m answers d ok e others stale named = (
  edit_read-open_edit active id m answers d others,
  take_answers-open_add active app_type count (open_edit active id m) answers id ok stale named,
  edit_failed-open_add active id app_type count m e,
)
