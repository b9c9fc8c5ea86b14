-- ===== src/Connections.antt =====
-- web/static/js/connections.js: `connectionManager`, the dialogs and connection tests of the
-- Connections page; Scroll has the scroll position that it keeps. The console is left out; an element
-- of the page is known by a text. A method with `await` is a function for each stretch between two of
-- its waits. Timers are numbered in the order in which `setTimeout` hands them out; `live` pairs those
-- that can still fire with their instance.
pub mod Editing
pub mod Testing
pub mod Focus
pub mod Scroll
use Prim.Native.String
use huntarr.Base.{
  ℕ, zero, suc, ◌+◌, String, Bool, true, false, ◌&&◌, List, [], ◌∷◌, Option, none, some,
  if◌then◌else◌, ◌==◌, str_eq, or_text, decimal, lookup, insert, erase,
}
use huntarr.AppDefaults.{default_placeholder, default_name}

pub record Form : Type 0 where
  pub name : String
  pub app_type : String
  pub base_url : String
  pub api_key : String
  pub timeout_ms : ℕ

pub record TestResult : Type 0 where
  pub succeeded : Bool
  pub message : String

pub record Manager : Type 0 where
  pub show_modal : Bool
  pub show_delete_modal : Bool
  pub editing : Bool
  pub edit_id : String
  pub delete_id : String
  pub delete_name : String
  pub testing_id : String
  pub test_results : List (String × TestResult)
  pub test_timers : List (String × ℕ)
  pub live : List (ℕ × String)
  pub next_timer : ℕ
  pub form_error : String
  pub placeholder_url : String
  pub trigger_el : Option String
  pub form : Form

abbrev pub initial_manager : Manager
initial_manager = record {
  show_modal = false;
  show_delete_modal = false;
  editing = false;
  edit_id = "";
  delete_id = "";
  delete_name = "";
  testing_id = "";
  test_results = [];
  test_timers = [];
  live = [];
  next_timer = 1;
  form_error = "";
  placeholder_url = "";
  trigger_el = none;
  form = record { name = ""; app_type = "sonarr"; base_url = ""; api_key = ""; timeout_ms = 30000 };
}

-- `openAdd`, with the active element of the page and the number of instances of the type.
unfoldable pub open_add : String → String → ℕ → Manager → Manager
open_add active app_type count m = record m {
  trigger_el = some active;
  editing = false;
  edit_id = "";
  form_error = "";
  placeholder_url = default_placeholder app_type;
  form = record {
    name = default_name app_type count;
    app_type = app_type;
    base_url = "";
    api_key = "";
    timeout_ms = 30000;
  };
  show_modal = true;
}

-- `openEdit` up to its request.
unfoldable pub open_edit : String → String → Manager → Manager
open_edit active id m = record m {
  trigger_el = some active;
  editing = true;
  edit_id = id;
  form_error = "";
}

abbrev pub load_failed : String
load_failed = "Failed to load instance"

-- What `openEdit` waits for after its response: nothing if the dialog has changed, or the body, or
-- the body of an error.
pub data Next : Type 0 where
  stop await_body await_error : Next

-- `openEdit` when the response arrives, with whether its status is a success.
unfoldable pub edit_responded : String → Bool → Manager → Next
edit_responded id ok m =
    if str_eq m.edit_id id then if ok then await_body else await_error else stop

-- `openEdit` when the body of an error is read, with its `error`, empty if it has none.
unfoldable pub edit_error_read : String → Manager → Manager
edit_error_read e m = record m { form_error = or_text e load_failed }

abbrev pub or_default : ℕ → ℕ
or_default zero = 30000
or_default (suc n) = suc n

-- `openEdit` when the body is read.
unfoldable pub edit_read : String → Form → Manager → Manager
edit_read id d m =
    if str_eq m.edit_id id
    then record m {
      placeholder_url = default_placeholder d.app_type;
      form = record {
        name = d.name;
        app_type = d.app_type;
        base_url = d.base_url;
        api_key = "";
        timeout_ms = or_default d.timeout_ms;
      };
      show_modal = true;
    }
    else m

-- `openEdit` when `fetch` or the reading of the body throws.
unfoldable pub edit_failed : Manager → Manager
edit_failed m = record m { form_error = load_failed }

-- How the request of a save, a deletion or a test ends.
pub data Reply : Type 0 where
  success : Reply
  refused : String → Reply
  thrown : Reply

abbrev pub save_url : Manager → String
save_url m = if m.editing then String.◌++◌ "/api/instances/" m.edit_id else "/api/instances"

abbrev pub save_method : Manager → String
save_method m = if m.editing then "PUT" else "POST"

-- `saveInstance` up to its request, and from the reply on; `true` beside the manager is a reload of
-- the page.
unfoldable pub start_save : Manager → Manager
start_save m = record m { form_error = "" }

unfoldable pub finish_save : Reply → Manager → Manager × Bool
finish_save success m = (record m { show_modal = false }, true)
finish_save (refused e) m = (record m { form_error = or_text e "An error occurred" }, false)
finish_save thrown m = (record m { form_error = "An error occurred" }, false)

unfoldable pub confirm_delete : String → String → Manager → Manager
confirm_delete id name m = record m { delete_id = id; delete_name = name; show_delete_modal = true }

-- `confirmDeleteFromEl`, with what the element's data name.
unfoldable pub confirm_delete_from_el : String → String → String → Manager → Manager
unfolding confirm_delete
confirm_delete_from_el active id name m =
    confirm_delete id name (record m { trigger_el = some active })

unfoldable pub finish_delete : Reply → Manager → Manager × Bool
finish_delete success m = (record m { show_delete_modal = false }, true)
finish_delete (refused e) m = (
  record m { show_delete_modal = false; form_error = or_text e "Failed to delete instance" },
  false,
)
finish_delete thrown m =
    (record m { show_delete_modal = false; form_error = "Failed to delete instance" }, false)

-- `testInstance` up to its request.
unfoldable pub start_test : String → Manager → Manager
start_test id m = record m { testing_id = id; test_results = erase id m.test_results }

-- The response of a test: whether its status is a success, and `status` and `message` of its body,
-- empty if the body does not give them; `lost` is an exception of `fetch`.
pub data Tested : Type 0 where
  answered : Bool → String → String → Tested
  lost : Tested

abbrev pub result : Bool → String → TestResult
result b msg = record { succeeded = b; message = msg }

unfoldable pub test_result : Tested → TestResult
test_result (answered ok status message) =
    if ok && str_eq status "ok"
    then result true "Connected"
    else result false (or_text message (or_text status "Connection failed"))
test_result lost = result false "Request failed"

-- `clearTimeout` of the timer that an instance has, if any.
unfoldable pub drop_timer : ℕ → List (ℕ × String) → List (ℕ × String)
drop_timer t [] = []
drop_timer t ((u, id) ∷ us) = let rest = drop_timer t us in if u == t then rest else (u, id) ∷ rest

abbrev clear_timer : Option ℕ → List (ℕ × String) → List (ℕ × String)
clear_timer none live = live
clear_timer (some t) live = drop_timer t live

-- `testInstance` from the response on, the `finally` included.
unfoldable pub finish_test : String → Tested → Manager → Manager
unfolding test_result drop_timer
finish_test id r m = record m {
  test_results = insert id (test_result r) m.test_results;
  testing_id = "";
  test_timers = insert id m.next_timer m.test_timers;
  live = (m.next_timer, id) ∷ clear_timer (lookup id m.test_timers) m.live;
  next_timer = suc m.next_timer;
}

-- The instance of a live timer.
unfoldable pub timer_instance : ℕ → List (ℕ × String) → Option String
timer_instance t [] = none
timer_instance t ((u, id) ∷ us) = if u == t then some id else timer_instance t us

expire : Option String → ℕ → Manager → Manager
unfolding drop_timer
expire none t m = m
expire (some id) t m = record m {
  test_results = erase id m.test_results;
  test_timers = erase id m.test_timers;
  live = drop_timer t m.live;
}

-- The callback of a timer, which runs only while it is live.
unfoldable pub timer_fires : ℕ → Manager → Manager
unfolding timer_instance expire
timer_fires t m = expire (timer_instance t m.live) t m

-- `destroy`
unfoldable pub clear_timers : List (String × ℕ) → List (ℕ × String) → List (ℕ × String)
unfolding drop_timer
clear_timers [] live = live
clear_timers ((id, t) ∷ timers) live = clear_timers timers (drop_timer t live)

unfoldable pub destroy : Manager → Manager
unfolding clear_timers
destroy m = record m { live = clear_timers m.test_timers m.live; test_timers = [] }

-- A watcher of `init`, when its dialog's flag changes, and `true` if it asks for the next tick; then
-- that callback, with the element that it focuses or `none` for an exception.
unfoldable pub dialog_changed : Bool → Manager → Manager × Bool
dialog_changed shown m = elim m.trigger_el [
  | none ↦ (m, false)
  | some el ↦ if shown then (m, false) else (record m { trigger_el = none }, true)
]

unfoldable pub next_tick : Manager → Option String
next_tick m = m.trigger_el
