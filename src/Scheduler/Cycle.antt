-- ===== src/Scheduler/Cycle.antt =====
-- internal/scheduler/scheduler.go: `runInstanceCycle`, one search cycle of an instance. What the
-- world answers during a cycle is a record of replies; item ids are not negative. The details of an
-- activity entry are the JSON object that they are stored as.
pub mod Batch
pub mod Cooling
pub mod Accepted
pub mod Remaining
pub mod Progress
use Prim.Native.String
use huntarr.Base.{
  ℕ, ◌+◌, ◌-◌, min, String, Bool, true, false, not, List, [], ◌∷◌, ◌++◌, Option, none, some,
  if◌then◌else◌, ltb, ◌==◌, contains, length, take, map, ℤ, pos, negsuc, decimal,
}
use huntarr.Json.{
  Json, Elements, Members, Details, num, bool, text, array, object, no_elements, element,
  no_members, member,
}
use huntarr.Settings.Values.{Resolved}
use huntarr.Arr.Quality.{UpgradeItem, FilterStats}
use huntarr.Scheduler.Cooldown.{Row, filter_cooling_down, record_searches}

pub record Instance : Type 0 where
  pub id : String
  pub name : String
  pub base_url : String

-- internal/arr/service.go: `UpgradeResult`.
pub record UpgradeResult : Type 0 where
  pub items : List UpgradeItem
  pub missing_items : List UpgradeItem
  pub stats : FilterStats

pub record Entry : Type 0 where
  pub instance_id : Option String
  pub level : String
  pub action : String
  pub message : String
  pub details : Details

-- What a cycle changes: the table of searches, the search commands that were sent to the instances,
-- and the entries for the activity log.
pub record World : Type 0 where
  pub cooldowns : List Row
  pub commands : List (String × List ℕ)
  pub log : List Entry

-- `upgrades` is the reply of `Upgradeable`, `none` for an error; the times are those of the two
-- statements on the table, and a `false` is an error. `error` is the text of the error that is
-- logged, if there is one.
pub record Replies : Type 0 where
  pub cancelled : Bool
  pub upgrades : Option UpgradeResult
  pub query_ok : Bool
  pub query_time : ℕ
  pub search_ok : Bool
  pub record_ok : Bool
  pub record_time : ℕ
  pub error : String

unfoldable pub exclude_ids : List ℕ → List ℕ → List ℕ
exclude_ids [] excluded = []
exclude_ids (i ∷ ids) excluded =
    let rest = exclude_ids ids excluded in if contains excluded i then rest else i ∷ rest

-- `logActivity`
abbrev pub log_activity : Entry → World → World
log_activity e w = record w { log = w.log ++ e ∷ [] }

abbrev pub entry : String → String → String → String → Details → Entry
entry id level action message details = record {
  instance_id = some id;
  level = level;
  action = action;
  message = message;
  details = details;
}

abbrev pub count : ℕ → Json
count n = num (pos n)

abbrev pub item_id : UpgradeItem → ℕ
item_id i = i.id

-- `itemByID`: the last item of an id, and the zero value for an id that has none.
abbrev pub describe_item : ℕ → List UpgradeItem → String × String → String × String
describe_item id [] found = found
describe_item id (i ∷ items) found =
    describe_item id items (if i.id == id then (i.label, i.detail_path) else found)

-- An element of `searchedItems`, and all of them.
abbrev pub searched_item : String × String → Json
searched_item (label, path) =
    object (member "label" (text label) (member "detailPath" (text path) no_members))

abbrev pub searched_items : List ℕ → List UpgradeItem → Elements
searched_items [] items = no_elements
searched_items (id ∷ ids) items =
    element (searched_item (describe_item id items ("", ""))) (searched_items ids items)

abbrev pub stats_details : FilterStats → Bool → Details
stats_details s search_missing =
    ("libraryTotal", count s.library_total)
    ∷ ("noFile", count s.no_file)
    ∷ ("unmonitored", count s.unmonitored)
    ∷ ("noProfile", count s.no_profile)
    ∷ ("upgradeBlocked", count s.upgrade_blocked)
    ∷ ("unknownQuality", count s.unknown_quality)
    ∷ ("atOrAbove", count s.at_or_above)
    ∷ ("searchMissing", bool search_missing)
    ∷ []

-- `items`
abbrev pub candidates : Resolved → UpgradeResult → List UpgradeItem
candidates resolved u = if resolved.search_missing then u.items ++ u.missing_items else u.items

module _ (inst : Instance) (resolved : Resolved) (a : Replies) (u : UpgradeResult)
    (items : List UpgradeItem) (cooling : List ℕ) where
  abbrev pub failed_entry : List ℕ → Entry
  failed_entry ids = entry inst.id "error" "search_cycle" "search command failed" (
      ("instanceName", text inst.name)
      ∷ ("instanceBaseURL", text inst.base_url)
      ∷ ("error", text a.error)
      ∷ ("searchedItems", array (searched_items ids items))
      ∷ [])

  abbrev pub searched_entry : ℕ → List ℕ → Entry
  searched_entry batch_size ids =
      let total = length items in
      let message =
        String.◌++◌ "searched "
          (String.◌++◌ (decimal (length ids)) (String.◌++◌ " items for " inst.name)) in
      entry inst.id "info" "search_cycle" message (
        ("instanceName", text inst.name)
        ∷ ("instanceBaseURL", text inst.base_url)
        ∷ ("searched", count (length ids))
        ∷ ("skipped", count (min total batch_size - length ids))
        ∷ ("coolingDown", count (length cooling))
        ∷ ("upgradeableAll", count (length u.items))
        ∷ ("missingAll", count (length u.missing_items))
        ∷ ("candidateTotal", count total)
        ∷ ("libraryTotal", count u.stats.library_total)
        ∷ ("searchedItems", array (searched_items ids items))
        ∷ [])

  -- From the search command on, for a batch that is chosen.
  send_batch : ℕ → List ℕ → World → (ℕ × ℕ) × World
  send_batch batch_size ids w =
      let total = length items in
      let sent = record w { commands = w.commands ++ (inst.id, ids) ∷ [] } in
      let recorded =
        if a.record_ok
        then record sent { cooldowns = record_searches inst.id ids a.record_time sent.cooldowns }
        else sent in
      if a.search_ok
      then ((length ids, total), log_activity (searched_entry batch_size ids) recorded)
      else ((0, total), log_activity (failed_entry ids) sent)

  -- The batch. A negative size is below every length, and slicing with it panics, which is `none`.
  choose_batch : ℤ → List ℕ → World → Option ((ℕ × ℕ) × World)
  unfolding send_batch
  choose_batch (pos n) ids w =
      some (send_batch n (if ltb n (length ids) then take n ids else ids) w)
  choose_batch (negsuc n) ids w = none

  search_available : List ℕ → World → Option ((ℕ × ℕ) × World)
  unfolding choose_batch
  search_available [] w =
      let total = length items in
      let details =
        ("instanceName", text inst.name)
        ∷ ("totalItems", count total)
        ∷ ("coolingDown", count (length cooling))
        ∷ ("upgradeableAll", count total)
        ∷ [] in
      some (
        (0, total),
        log_activity (entry inst.id "debug" "search_skip" "all items in cooldown" details) w,
      )
  search_available (i ∷ ids) w = choose_batch resolved.batch_size (i ∷ ids) w

module _ (inst : Instance) (resolved : Resolved) (a : Replies) where
  search_candidates : UpgradeResult → List UpgradeItem → World → Option ((ℕ × ℕ) × World)
  unfolding search_available exclude_ids
  search_candidates u [] w = some (
    (0, 0),
    log_activity
        (entry inst.id "debug" "search_cycle" "no searchable items"
          (("instanceName", text inst.name) ∷ stats_details u.stats resolved.search_missing))
        w,
  )
  search_candidates u (c ∷ cs) w =
      let ids = map item_id (c ∷ cs) in
      let cooling =
        filter_cooling_down inst.id ids resolved.cooldown_period a.query_time w.cooldowns in
      if a.query_ok
      then search_available inst resolved a u (c ∷ cs) cooling (exclude_ids ids cooling) w
      else some ((0, length (c ∷ cs)), w)

  search_upgrades : Option UpgradeResult → World → Option ((ℕ × ℕ) × World)
  unfolding search_candidates
  search_upgrades none w = some (
    (0, 0),
    log_activity
        (entry inst.id "error" "search_cycle" "failed to fetch upgradeable items"
          (("instanceName", text inst.name) ∷ ("error", text a.error) ∷ []))
        w,
  )
  search_upgrades (some u) w = search_candidates u (candidates resolved u) w

  -- `searched` and `totalItems`, and the world afterwards; `none` is a panic.
  unfoldable pub run_instance_cycle : World → Option ((ℕ × ℕ) × World)
  unfolding search_upgrades
  run_instance_cycle w = if a.cancelled then some ((0, 0), w) else search_upgrades a.upgrades w
