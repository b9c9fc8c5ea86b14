-- ===== src/Dashboard/Counts.antt =====
-- The numbers of the Home page, counted in the activity log.
use huntarr.Base.{
  ℕ, ◌+◌, ◌-◌, ◌*◌, All, ◌≢◌, String, false, ◌&&◌, List, [], ◌∷◌, Option, none, some, if_rule,
  str_eq, str_eq→eq, lookup, insert, Bool-cases, inl, inr, ◌≡◌, refl, ◌∙◌, ap, arith,
}
use huntarr.Instances.{Store}
use huntarr.Activity.{Stamp, Row, Zone, local_clock}
use huntarr.Activity.Stats.{ActionStats, stats}
use huntarr.Activity.Stats.Tally.{
  if_counted, Test, tally, is_since, always, from_second, sum_of, stats-tally, tally-from_second,
}
use huntarr.Dashboard.{
  Totals, no_totals, add_action, Acc, new_acc, acc_or, instance_key, find_instance, add_stats,
  sum_stats, HomeInstanceStats, is_before, insert_home, home_rows, aggregate_stats, all_time_stats,
  recent_since, recent_stats,
}

-- The four counters of the page, and the actions that they count.
pub data Counter : Type 0 where
  searches skipped upgrades downloads : Counter

abbrev pub count_of : Counter → Totals → ℕ
count_of searches t = t.searches
count_of skipped t = t.skipped
count_of upgrades t = t.upgrades
count_of downloads t = t.downloads

abbrev pub action_of : Counter → String
action_of searches = "search_cycle"
action_of skipped = "search_skip"
action_of upgrades = "upgrade_detected"
action_of downloads = "download_detected"

-- A text is not two different ones.
not_both : (a s t : String) → str_eq s t ≡ false → (str_eq a s && str_eq a t) ≡ false
not_both a s t apart = elim (Bool-cases (str_eq a s)) [
  | inl same ↦ rw (same, str_eq→eq a s same) apart
  | inr other ↦ rw other refl
]

-- What an action adds to a counter.
add_action-count_of :
    (c : Counter) (action : String) (n : ℕ) (t : Totals)
    → count_of c (add_action action n t) ≡ if_counted (str_eq action (action_of c)) n + count_of c t
unfolding add_action
add_action-count_of searches action n t = ground arith
add_action-count_of skipped action n t =
    ground (arith, not_both action "search_cycle" "search_skip" refl)
add_action-count_of upgrades action n t = ground (
  arith,
  not_both action "search_cycle" "upgrade_detected" refl,
  not_both action "search_skip" "upgrade_detected" refl,
)
add_action-count_of downloads action n t = ground (
  arith,
  not_both action "search_cycle" "download_detected" refl,
  not_both action "search_skip" "download_detected" refl,
  not_both action "upgrade_detected" "download_detected" refl,
)

-- The actions of a counter, and those of an instance among them.
abbrev pub counts_action : Counter → Test
counts_action c id action = str_eq action (action_of c)

abbrev pub counts_instance : String → Counter → Test
counts_instance key c id action = str_eq (instance_key id) key && str_eq action (action_of c)

no_totals-count_of : (c : Counter) → count_of c no_totals ≡ 0
no_totals-count_of searches = refl
no_totals-count_of skipped = refl
no_totals-count_of upgrades = refl
no_totals-count_of downloads = refl

module _ (c : Counter) (key : String) where
  abbrev counted_acc : Option Acc → ℕ
  counted_acc none = 0
  counted_acc (some acc) = count_of c acc.totals

  abbrev acc_sum : List (String × Acc) → ℕ
  acc_sum [] = 0
  acc_sum ((k, acc) ∷ accs) = if_counted (str_eq k key) (count_of c acc.totals) + acc_sum accs

  -- What the rows of an instance show.
  abbrev pub shown : List HomeInstanceStats → ℕ
  shown [] = 0
  shown (h ∷ rows) = if_counted (str_eq h.instance_id key) (count_of c h.totals) + shown rows

  insert-acc_sum :
      (k : String) (acc : Acc) (accs : List (String × Acc))
      → acc_sum (insert k acc accs) + if_counted (str_eq k key) (counted_acc (lookup k accs))
        ≡ acc_sum accs + if_counted (str_eq k key) (count_of c acc.totals)
  unfolding insert lookup
  insert-acc_sum k acc [] = ground arith
  insert-acc_sum k acc ((name, old) ∷ accs) =
      let rest = insert-acc_sum k acc accs in
      elim (Bool-cases (str_eq name k)) [
        | inl same ↦
            let alike : str_eq name key ≡ str_eq k key =
              ap (λ n. str_eq n key) (str_eq→eq name k same) in
            ground (arith, same, alike)
        | inr other ↦ ground (arith, other, rest)
      ]

  new_acc-counted :
      (new : Acc) (o : Option Acc)
      → count_of c new.totals ≡ 0
      → count_of c (acc_or new o).totals ≡ counted_acc o
  new_acc-counted new none h = h
  new_acc-counted new (some acc) h = refl

  add_stats-acc_sum :
      (insts : Store) (s : ActionStats) (accs : List (String × Acc))
      → acc_sum (add_stats insts s accs)
        ≡ if_counted (counts_instance key c s.instance_id s.action) s.count + acc_sum accs
  unfolding add_stats
  add_stats-acc_sum insts s accs =
      let k = instance_key s.instance_id in
      let new = new_acc s.instance_name (find_instance insts s.instance_id) in
      let acc = acc_or new (lookup k accs) in
      let totals = add_action s.action s.count acc.totals in
      let sum = insert-acc_sum k (record acc { totals = totals }) accs in
      let old = new_acc-counted new (lookup k accs) (no_totals-count_of c) in
      let added = add_action-count_of c s.action s.count acc.totals in
      ground (arith, sum, old, added)

  sum_stats-sums :
      (insts : Store) (stats : List ActionStats) (totals : Totals) (accs : List (String × Acc))
      → let (after, accs') = sum_stats insts stats totals accs in
        (count_of c after ≡ sum_of (counts_action c) stats + count_of c totals)
        × (acc_sum accs' ≡ sum_of (counts_instance key c) stats + acc_sum accs)
  unfolding sum_stats
  sum_stats-sums insts [] totals accs = (omega arith, omega arith)
  sum_stats-sums insts (s ∷ stats) totals accs =
      let rest =
        sum_stats-sums insts stats (add_action s.action s.count totals) (add_stats insts s accs) in
      let one = add_action-count_of c s.action s.count totals in
      let two = add_stats-acc_sum insts s accs in
      (omega (arith, rest.0, one), omega (arith, rest.1, two))

  insert_home-shown :
      (h : HomeInstanceStats) (rows : List HomeInstanceStats)
      → shown (insert_home h rows) ≡ shown (h ∷ rows)
  unfolding insert_home
  insert_home-shown h [] = refl
  insert_home-shown h (b ∷ rows) =
      let rest = insert_home-shown h rows in
      if_rule (λ l. shown l ≡ shown (h ∷ b ∷ rows)) (is_before b h) _ _ (λ _. omega (arith, rest))
        (λ _. refl)

  home_rows-shown :
      (accs : List (String × Acc)) → str_eq "" key ≡ false → shown (home_rows accs) ≡ acc_sum accs
  unfolding home_rows
  home_rows-shown [] h = refl
  home_rows-shown ((k, acc) ∷ accs) h =
      let rest = home_rows-shown accs h in
      let row : HomeInstanceStats = record {
        instance_id = k;
        instance_name = acc.name;
        app_type = acc.app_type;
        totals = acc.totals;
      } in
      if_rule (λ l. shown l ≡ acc_sum ((k, acc) ∷ accs)) (str_eq k "") _ _
        (λ blank. ground (arith, rest, not_both k "" key h, blank))
        (λ _.
          insert_home-shown row (home_rows accs)
          ∙ ap (λ n. if_counted (str_eq k key) (count_of c acc.totals) + n) rest)

-- The totals and the table of counts since a time, by the comparison of the query.
counted :
    (names insts : Store) (since : Option Stamp) (rows : List Row) (c : Counter) (id : String)
    → str_eq "" id ≡ false
    → let (totals, table) = aggregate_stats insts (stats names since rows) in
      (count_of c totals ≡ tally (counts_action c) (is_since since) rows)
      × (shown c id table ≡ tally (counts_instance id c) (is_since since) rows)
unfolding aggregate_stats
counted names insts since rows c id h =
    let grouped = stats names since rows in
    let sums = sum_stats-sums c id insts grouped no_totals [] in
    let none_yet = no_totals-count_of c in
    let all = stats-tally (counts_action c) names since rows in
    let own = stats-tally (counts_instance id c) names since rows in
    let (totals, accs) = sum_stats insts grouped no_totals [] in
    let table = home_rows-shown c id accs h in
    (omega (arith, sums.0, none_yet, all), omega (arith, sums.1, own, table))

-- The Home page counts all entries of the log: each of its four totals of all times is the number of
-- those with its action, and in the table every instance has as the number of each column that of its
-- own entries. Its totals of the last day go wrong outside of UTC: they count the entries from the
-- second on whose clock in UTC is what the server's clock was a day ago in its own zone. No entry is of
-- that very second here.
pub aggregate_stats-tally :
    (insts : Store) (zone : Zone) (now nanos : ℕ) (rows : List Row) (c : Counter) (id : String)
    → str_eq "" id ≡ false
    → All (λ r. r.created_at.clock ≢ local_clock zone (now - 24 * 3600)) rows
    → let (totals, table) = aggregate_stats insts (all_time_stats insts rows) in
      let (recent, unused) = aggregate_stats insts (recent_stats insts zone now nanos rows) in
      (count_of c totals ≡ tally (counts_action c) always rows)
      × (shown c id table ≡ tally (counts_instance id c) always rows)
      × (count_of c recent
          ≡ tally (counts_action c) (from_second (local_clock zone (now - 24 * 3600))) rows)
aggregate_stats-tally insts zone now nanos rows c id h apart =
    let all = counted insts insts none rows c id h in
    let since = recent_since zone now nanos in
    let late = counted insts insts (some since) rows c id h in
    (all.0, all.1, late.0 ∙ tally-from_second (counts_action c) since rows apart)
