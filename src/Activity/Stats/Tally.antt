-- ===== src/Activity/Stats/Tally.antt =====
-- The entries that `Stats` counts.
use huntarr.Base.{
  ℕ, ◌+◌, String, Bool, true, ◌&&◌, List, [], ◌∷◌, Option, none, some, if◌then◌else◌, if_rule, ltb,
  str_eq, str_eq→eq, leb, All, ◌≢◌, ◌≡◌, refl, ap, arith,
}
use huntarr.Instances.{Store}
use huntarr.Activity.{Stamp, Row, not_before}
use huntarr.Activity.Stamps.{stamp_lt_apart}
use huntarr.Activity.Stats.{
  ActionStats, same_instance, is_group, count_row, group_rows, insert_stats, sort_stats, stats,
}

abbrev pub if_counted : Bool → ℕ → ℕ
if_counted b n = if b then n else 0

-- The number of rows from a time on that a test on the instance and the action selects.
abbrev pub Test : Type 0
Test = Option String → String → Bool

same_instance→eq : (i j : Option String) → same_instance i j ≡ true → i ≡ j
same_instance→eq none none h = refl
same_instance→eq none (some j) h = cc
same_instance→eq (some i) none h = cc
same_instance→eq (some i) (some j) h = ap some (str_eq→eq i j h)

-- The comparison of the query.
abbrev pub is_since : Option Stamp → Row → Bool
is_since since r = not_before since r.created_at

-- Every row, and the rows from a second of UTC on.
abbrev pub always : Row → Bool
always r = true

abbrev pub from_second : ℕ → Row → Bool
from_second c r = leb c r.created_at.clock

module _ (p : Test) where
  abbrev pub tally : (Row → Bool) → List Row → ℕ
  tally within [] = 0
  tally within (r ∷ rows) =
      if_counted (within r && p r.content.instance_id r.content.action) 1 + tally within rows

  abbrev pub sum_of : List ActionStats → ℕ
  sum_of [] = 0
  sum_of (s ∷ groups) = if_counted (p s.instance_id s.action) s.count + sum_of groups

  count_row-sum_of :
      (names : Store) (r : Row) (groups : List ActionStats)
      → sum_of (count_row names r groups)
        ≡ if_counted (p r.content.instance_id r.content.action) 1 + sum_of groups
  unfolding count_row
  count_row-sum_of names r [] = omega arith
  count_row-sum_of names r (s ∷ groups) =
      let rest = count_row-sum_of names r groups in
      if_rule
        (λ l.
          sum_of l ≡ if_counted (p r.content.instance_id r.content.action) 1 + sum_of (s ∷ groups))
        (is_group r s) _ _
        (λ same.
          let one : same_instance s.instance_id r.content.instance_id ≡ true =
            ground (arith, same) in
          let two : str_eq s.action r.content.action ≡ true = ground (arith, same) in
          let id = same_instance→eq s.instance_id r.content.instance_id one in
          let action = str_eq→eq s.action r.content.action two in
          let alike : p s.instance_id s.action ≡ p r.content.instance_id r.content.action =
            rw (id, action) refl in
          ground (arith, alike))
        (λ other. omega (arith, rest))

  group_rows-sum_of :
      (names : Store) (since : Option Stamp) (rows : List Row) (groups : List ActionStats)
      → sum_of (group_rows names since rows groups) ≡ tally (is_since since) rows + sum_of groups
  unfolding group_rows
  group_rows-sum_of names since [] groups = omega arith
  group_rows-sum_of names since (r ∷ rows) groups =
      let counted = count_row names r groups in
      let next = if not_before since r.created_at then counted else groups in
      let rest = group_rows-sum_of names since rows next in
      let one = count_row-sum_of names r groups in ground (arith, rest, one)

  insert_stats-sum_of :
      (s : ActionStats) (groups : List ActionStats)
      → sum_of (insert_stats s groups) ≡ sum_of (s ∷ groups)
  unfolding insert_stats
  insert_stats-sum_of s [] = refl
  insert_stats-sum_of s (t ∷ groups) =
      let rest = insert_stats-sum_of s groups in
      if_rule (λ l. sum_of l ≡ sum_of (s ∷ t ∷ groups)) (ltb s.count t.count) _ _
        (λ _. omega (arith, rest)) (λ _. refl)

  sort_stats-sum_of : (groups : List ActionStats) → sum_of (sort_stats groups) ≡ sum_of groups
  unfolding sort_stats
  sort_stats-sum_of [] = refl
  sort_stats-sum_of (s ∷ groups) =
      let first = insert_stats-sum_of s (sort_stats groups) in
      omega (arith, first, sort_stats-sum_of groups)

  pub stats-tally :
      (names : Store) (since : Option Stamp) (rows : List Row)
      → sum_of (stats names since rows) ≡ tally (is_since since) rows
  unfolding stats
  stats-tally names since rows =
      let grouped = group_rows-sum_of names since rows [] in
      let sorted = sort_stats-sum_of (group_rows names since rows []) in
      omega (arith, grouped, sorted)

  -- A count from a time on goes by the seconds that its text names, for rows of other seconds.
  pub tally-from_second :
      (since : Stamp) (rows : List Row)
      → All (λ r. r.created_at.clock ≢ since.clock) rows
      → tally (is_since (some since)) rows ≡ tally (from_second since.clock) rows
  tally-from_second since [] h = refl
  tally-from_second since (r ∷ rows) h =
      let apart = stamp_lt_apart r.created_at since h.0 in
      let rest = tally-from_second since rows h.1 in ground (arith, apart, rest, h.0)
