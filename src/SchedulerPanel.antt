-- ===== src/SchedulerPanel.antt =====
-- web/static/js/scheduler.js: `schedulerPanel`, the status widget of the Home page. Interval timers
-- are numbered as `setInterval` hands them out; `live` are those not yet cleared.
pub mod Failures
use huntarr.Base.{
  ℕ, suc, ◌+◌, Bool, true, false, List, [], ◌∷◌, String, Option, none, some, if◌then◌else◌, leb,
}
use huntarr.LogViewer.{remove_interval}

pub record Status : Type 0 where
  pub running : Bool
  pub searches_this_hour : ℕ
  pub hourly_limit : ℕ
  pub instances : List String

pub record Panel : Type 0 where
  pub status : Status
  pub interval : Option ℕ
  pub live : List ℕ
  pub next_timer : ℕ
  pub failures : ℕ
  pub connection_lost : Bool

abbrev pub max_failures : ℕ
max_failures = 3

abbrev pub initial_panel : Panel
initial_panel = record {
  status = record { running = false; searches_this_hour = 0; hourly_limit = 0; instances = [] };
  interval = none;
  live = [];
  next_timer = 1;
  failures = 0;
  connection_lost = false;
}

-- How the request of `refresh` ends: a body, a status that is no success, or an exception of
-- `fetch` or of reading the body.
pub data Fetched : Type 0 where
  received : Status → Fetched
  not_ok thrown : Fetched

-- The `try` and its `catch`.
settle : Fetched → Panel → Panel
settle (received s) p = record p { status = s; failures = 0; connection_lost = false }
settle not_ok p = record p { failures = suc p.failures }
settle thrown p = record p { failures = suc p.failures }

-- `refresh`, with `document.hidden` and the end of its request.
unfoldable pub refresh : Bool → Fetched → Panel → Panel
unfolding settle
refresh hidden f p =
    let q = settle f p in
    if hidden
    then p
    else if leb max_failures q.failures
    then record q { connection_lost = true }
    else q

-- `init`; its `refresh` changes nothing before the reply.
unfoldable pub init : Panel → Panel
init p = record p {
  interval = some p.next_timer;
  live = p.next_timer ∷ p.live;
  next_timer = suc p.next_timer;
}

clear_with : Option ℕ → Panel → Panel
unfolding remove_interval
clear_with none p = p
clear_with (some t) p = record p { live = remove_interval t p.live }

unfoldable pub destroy : Panel → Panel
unfolding clear_with
destroy p = clear_with p.interval p
