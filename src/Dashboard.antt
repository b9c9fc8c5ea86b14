-- ===== src/Dashboard.antt =====
-- internal/server/pages.go: the numbers of the Home page. The maps of `aggregateStats` are lists of
-- their entries; counts stay far below 2^63.
pub mod Counts
pub mod Upgrades
use huntarr.Base.{
  ℕ, ◌+◌, ◌-◌, ◌*◌, String, Bool, List, [], ◌∷◌, Option, none, some, if◌then◌else◌, str_eq, ◌||◌,
  ◌&&◌, codes, text_lt, lookup, insert,
}
use huntarr.Instances.{Instance, Store, is_app_type}
use huntarr.Activity.{Stamp, Row, Zone, local_clock, zone_text}
use huntarr.Activity.Stats.{ActionStats, stats}

-- `AppType.Label`
abbrev pub app_label : String → String
app_label t =
    if str_eq t "sonarr"
    then "Sonarr"
    else if str_eq t "radarr"
    then "Radarr"
    else if str_eq t "lidarr"
    then "Lidarr"
    else if str_eq t "whisparr-v2"
    then "Whisparr V2"
    else if str_eq t "whisparr-v3"
    then "Whisparr V3"
    else t

-- `activityTotals`
pub record Totals : Type 0 where
  pub searches : ℕ
  pub skipped : ℕ
  pub upgrades : ℕ
  pub downloads : ℕ

abbrev pub no_totals : Totals
no_totals = record { searches = 0; skipped = 0; upgrades = 0; downloads = 0 }

-- The `switch` over the actions.
unfoldable pub add_action : String → ℕ → Totals → Totals
add_action action n t =
    if str_eq action "search_cycle"
    then record t { searches = t.searches + n }
    else if str_eq action "search_skip"
    then record t { skipped = t.skipped + n }
    else if str_eq action "upgrade_detected"
    then record t { upgrades = t.upgrades + n }
    else if str_eq action "download_detected"
    then record t { downloads = t.downloads + n }
    else t

-- `instAcc`
pub record Acc : Type 0 where
  pub name : String
  pub app_type : String
  pub totals : Totals

abbrev pub or_text_of : String → Option Instance → String
or_text_of name none = name
or_text_of name (some inst) = if str_eq name "" then inst.name else name

abbrev pub app_label_of : Option Instance → String
app_label_of none = ""
app_label_of (some inst) = app_label inst.app_type

-- The accumulator of an instance that was not seen yet; `found` is its entry of `instMap`.
abbrev pub new_acc : String → Option Instance → Acc
new_acc name found = record {
  name = or_text_of name found;
  app_type = app_label_of found;
  totals = no_totals;
}

abbrev pub acc_or : Acc → Option Acc → Acc
acc_or new none = new
acc_or new (some acc) = acc

-- The key of an instance, empty for an entry of none.
abbrev pub instance_key : Option String → String
instance_key none = ""
instance_key (some id) = id

abbrev pub find_instance : Store → Option String → Option Instance
find_instance insts none = none
find_instance insts (some id) = lookup id insts

unfoldable pub add_stats : Store → ActionStats → List (String × Acc) → List (String × Acc)
unfolding add_action insert lookup
add_stats insts s accs =
    let key = instance_key s.instance_id in
    let acc =
      acc_or (new_acc s.instance_name (find_instance insts s.instance_id)) (lookup key accs) in
    insert key (record acc { totals = add_action s.action s.count acc.totals }) accs

-- The loop over the counts.
unfoldable pub sum_stats :
    Store → List ActionStats → Totals → List (String × Acc) → Totals × List (String × Acc)
unfolding add_stats
sum_stats insts [] totals accs = (totals, accs)
sum_stats insts (s ∷ stats) totals accs =
    sum_stats insts stats (add_action s.action s.count totals) (add_stats insts s accs)

-- `HomeInstanceStats`, with its four counts together.
pub record HomeInstanceStats : Type 0 where
  pub instance_id : String
  pub instance_name : String
  pub app_type : String
  pub totals : Totals

abbrev pub is_before : HomeInstanceStats → HomeInstanceStats → Bool
is_before a b =
    text_lt (codes a.instance_name) (codes b.instance_name)
    || (str_eq a.instance_name b.instance_name && text_lt (codes a.app_type) (codes b.app_type))

unfoldable pub insert_home : HomeInstanceStats → List HomeInstanceStats → List HomeInstanceStats
unfolding text_lt
insert_home a [] = a ∷ []
insert_home a (b ∷ sorted) =
    let rest = insert_home a sorted in if is_before b a then b ∷ rest else a ∷ b ∷ sorted

-- The rows of the instances, without the entries of none.
unfoldable pub home_rows : List (String × Acc) → List HomeInstanceStats
unfolding insert_home
home_rows [] = []
home_rows ((key, acc) ∷ accs) =
    let rest = home_rows accs in
    if str_eq key ""
    then rest
    else insert_home
        (record {
          instance_id = key;
          instance_name = acc.name;
          app_type = acc.app_type;
          totals = acc.totals;
        })
        rest

unfoldable pub aggregate_stats : Store → List ActionStats → Totals × List HomeInstanceStats
unfolding sum_stats home_rows
aggregate_stats insts stats =
    let (totals, accs) = sum_stats insts stats no_totals [] in (totals, home_rows accs)

-- The two counts of `fetchHomeData`: of all times, and of the last day, since a time in the zone of the
-- server.
abbrev pub all_time_stats : Store → List Row → List ActionStats
all_time_stats insts rows = stats insts none rows

abbrev pub recent_window : ℕ
recent_window = 24 * 3600

abbrev pub recent_since : Zone → ℕ → ℕ → Stamp
recent_since zone now nanos = record {
  clock = local_clock zone (now - recent_window);
  nanos = nanos;
  zone = zone_text zone;
}

abbrev pub recent_stats : Store → Zone → ℕ → ℕ → List Row → List ActionStats
recent_stats insts zone now nanos rows = stats insts (some (recent_since zone now nanos)) rows
