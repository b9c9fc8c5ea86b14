-- ===== src/LogViewer.antt =====
-- web/static/js/logs.js: `logViewer`, the activity table of the Logs page. Interval timers are
-- numbered in the order in which `setInterval` hands them out; `live` are those not yet cleared.
pub mod Polling
pub mod Paging
pub mod Sizes
pub mod Details
use huntarr.Base.{
  ℕ, suc, ◌+◌, ◌-◌, ◌*◌, ◌/◌, max, String, Bool, true, false, not, List, [], ◌∷◌, ◌++◌, Option,
  none, some, if◌then◌else◌, ◌==◌, ltb, str_eq, decimal,
}

pub record Filters : Type 0 where
  pub level : String
  pub instance_id : String
  pub action : String
  pub search : String
  pub since : String
  pub until : String

-- An entry is known here by its id.
pub record Viewer : Type 0 where
  pub entries : List String
  pub total : ℕ
  pub page : ℕ
  pub per_page : ℕ
  pub loading : Bool
  pub fetch_error : String
  pub auto_refresh : Bool
  pub refresh_interval : Option ℕ
  pub live : List ℕ
  pub next_timer : ℕ
  pub expanded_id : Option String
  pub filters : Filters

abbrev pub no_filters : Filters
no_filters = record {
  level = "";
  instance_id = "";
  action = "";
  search = "";
  since = "";
  until = "";
}

abbrev pub initial_viewer : Viewer
initial_viewer = record {
  entries = [];
  total = 0;
  page = 1;
  per_page = 50;
  loading = false;
  fetch_error = "";
  auto_refresh = true;
  refresh_interval = none;
  live = [];
  next_timer = 1;
  expanded_id = none;
  filters = no_filters;
}

-- `Math.ceil(total / perPage)`, at least 1.
unfoldable pub total_pages : Viewer → ℕ
total_pages v = max 1 ((v.total + (v.per_page - 1)) / v.per_page)

unfoldable pub remove_interval : ℕ → List ℕ → List ℕ
remove_interval t [] = []
remove_interval t (u ∷ us) = let rest = remove_interval t us in if u == t then rest else u ∷ rest

-- `startPolling` by the value of `refreshInterval`, and `stopPolling`.
start_with : Option ℕ → Viewer → Viewer
start_with (some t) v = v
start_with none v = record v {
  refresh_interval = some v.next_timer;
  live = v.next_timer ∷ v.live;
  next_timer = suc v.next_timer;
}

unfoldable pub start_polling : Viewer → Viewer
unfolding start_with
start_polling v = start_with v.refresh_interval v

stop_with : Option ℕ → Viewer → Viewer
unfolding remove_interval
stop_with none v = v
stop_with (some t) v = record v { refresh_interval = none; live = remove_interval t v.live }

unfoldable pub stop_polling : Viewer → Viewer
unfolding stop_with
stop_polling v = stop_with v.refresh_interval v

-- The handler of `visibilitychange`.
unfoldable pub on_visibility : Bool → Viewer → Viewer
unfolding start_polling stop_polling
on_visibility hidden v =
    if hidden then stop_polling v else if v.auto_refresh then start_polling v else v

unfoldable pub toggle_auto_refresh : Viewer → Viewer
unfolding start_polling stop_polling
toggle_auto_refresh v =
    let w = record v { auto_refresh = not v.auto_refresh } in
    if w.auto_refresh then start_polling w else stop_polling w

-- A parameter that is set only for a filter that is not empty.
abbrev pub set_param : String → String → List (String × String)
set_param name value = if str_eq value "" then [] else (name, value) ∷ []

-- The request of `fetchEntries`; `to_iso` is `new Date(value).toISOString()`.
unfoldable pub query : (String → String) → Viewer → List (String × String)
query to_iso v =
    ("limit", decimal v.per_page)
    ∷ ("offset", decimal ((v.page - 1) * v.per_page))
    ∷ (set_param "level" v.filters.level
        ++ (set_param "instanceId" v.filters.instance_id
            ++ (set_param "action" v.filters.action
                ++ (set_param "search" v.filters.search
                    ++ ((if str_eq v.filters.since ""
                          then []
                          else ("since", to_iso v.filters.since) ∷ [])
                        ++ (if str_eq v.filters.until ""
                            then []
                            else ("until", to_iso v.filters.until) ∷ []))))))

-- How the request ends: entries and their total, or no success, or an exception.
pub data Fetched : Type 0 where
  received : List String → ℕ → Fetched
  not_ok thrown : Fetched

abbrev pub load_failed : String
load_failed = "Failed to load activity entries."

-- `fetchEntries` up to its request, and from its reply on, the `finally` included.
unfoldable pub start_fetch : Bool → Viewer → Viewer
start_fetch hidden v = if hidden then v else record v { loading = true }

unfoldable pub finish_fetch : Fetched → Viewer → Viewer
finish_fetch (received entries total) v = record v {
  entries = entries;
  total = total;
  fetch_error = "";
  loading = false;
}
finish_fetch not_ok v = record v { fetch_error = load_failed; loading = false }
finish_fetch thrown v = record v { fetch_error = load_failed; loading = false }

-- `prevPage` and `nextPage`, up to the request.
unfoldable pub prev_page : Bool → Viewer → Viewer
unfolding start_fetch
prev_page hidden v = if ltb 1 v.page then start_fetch hidden (record v { page = v.page - 1 }) else v

unfoldable pub next_page : Bool → Viewer → Viewer
unfolding start_fetch total_pages
next_page hidden v =
    if ltb v.page (total_pages v) then start_fetch hidden (record v { page = suc v.page }) else v

-- The watcher of the filters.
unfoldable pub change_filters : Bool → Filters → Viewer → Viewer
unfolding start_fetch
change_filters hidden f v = start_fetch hidden (record v { filters = f; page = 1 })

-- `init`, with the `action` of the page's address, empty if there is none.
unfoldable pub init : Bool → String → Viewer → Viewer
unfolding start_fetch start_polling
init hidden action v =
    let w =
      if str_eq action ""
      then v
      else record v { filters = record (v.filters) { action = action } } in
    start_polling (start_fetch hidden w)

-- `toggleExpand` and `destroy`.
abbrev same_id : Option String → String → Bool
same_id none id = false
same_id (some x) id = str_eq x id

unfoldable pub toggle_expand : String → Viewer → Viewer
toggle_expand id v = record v { expanded_id = if same_id v.expanded_id id then none else some id }

unfoldable pub destroy : Viewer → Viewer
unfolding stop_polling
destroy v = stop_polling v
