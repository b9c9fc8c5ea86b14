-- ===== src/Activity/Stats.antt =====
-- internal/activity/sqlite.go: `Stats`, the number of entries by instance and action.
pub mod Tally
use huntarr.Base.{
  ℕ, suc, String, Bool, true, false, ◌&&◌, List, [], ◌∷◌, Option, none, some, if◌then◌else◌, ltb,
  str_eq, lookup,
}
use huntarr.Activity.{Stamp, Row, not_before}
use huntarr.Instances.{Instance, Store}

pub record ActionStats : Type 0 where
  pub instance_id : Option String
  pub instance_name : String
  pub action : String
  pub count : ℕ

abbrev pub same_instance : Option String → Option String → Bool
same_instance none none = true
same_instance none (some j) = false
same_instance (some i) none = false
same_instance (some i) (some j) = str_eq i j

-- `COALESCE(i.name, '')` of the left join.
abbrev pub name_or_empty : Option Instance → String
name_or_empty none = ""
name_or_empty (some inst) = inst.name

abbrev pub joined_name : Store → Option String → String
joined_name s none = ""
joined_name s (some id) = name_or_empty (lookup id s)

abbrev pub is_group : Row → ActionStats → Bool
is_group r s = same_instance s.instance_id r.content.instance_id && str_eq s.action r.content.action

-- A row is counted in its group, which it starts if there is none.
unfoldable pub count_row : Store → Row → List ActionStats → List ActionStats
unfolding lookup
count_row names r [] =
    (record {
      instance_id = r.content.instance_id;
      instance_name = joined_name names r.content.instance_id;
      action = r.content.action;
      count = 1;
    })
    ∷ []
count_row names r (s ∷ groups) =
    let rest = count_row names r groups in
    if is_group r s then record s { count = suc s.count } ∷ groups else s ∷ rest

unfoldable pub group_rows : Store → Option Stamp → List Row → List ActionStats → List ActionStats
unfolding count_row
group_rows names since [] groups = groups
group_rows names since (r ∷ rows) groups =
    group_rows names since rows
      (if not_before since r.created_at then count_row names r groups else groups)

-- `ORDER BY cnt DESC`; groups of one count may come in any order.
unfoldable pub insert_stats : ActionStats → List ActionStats → List ActionStats
insert_stats s [] = s ∷ []
insert_stats s (t ∷ sorted) =
    let rest = insert_stats s sorted in if ltb s.count t.count then t ∷ rest else s ∷ t ∷ sorted

unfoldable pub sort_stats : List ActionStats → List ActionStats
unfolding insert_stats
sort_stats [] = []
sort_stats (s ∷ groups) = insert_stats s (sort_stats groups)

unfoldable pub stats : Store → Option Stamp → List Row → List ActionStats
unfolding group_rows sort_stats
stats names since rows = sort_stats (group_rows names since rows [])
