-- ===== src/Arr/Quality/Selection.antt =====
-- Which items are selected, and that every item is counted once.
use huntarr.Base.{
  ℕ, suc, ◌+◌, ◌≤◌, Bool, true, false, not, ◌&&◌, ◌||◌, List, [], ◌∷◌, ◌++◌, Option, none, some,
  if◌then◌else◌, ltb, length, length-append, ◌≡◌, refl, sym, ◌∙◌, ap, arith, Bool-cases, inl, inr,
}
use mathlib.Core.List.{append_assoc, append-nil}
use huntarr.Arr.Quality.{
  LibraryItem, QualityProfile, UpgradeItem, FilterStats, Verdict, no_file, unmonitored, no_profile,
  upgrade_blocked, unknown_quality, at_or_above, upgradeable, find, lower, lowest_rank,
  compare_ranks, judge_profile, judge, record_verdict, filter_from, filter_upgradeable,
  filter_missing, upgrade_item, no_stats, quality_rank, cutoff_rank,
}

-- The number of items that the counters account for.
abbrev counted : FilterStats → ℕ
counted s =
    s.no_file + s.unmonitored + s.no_profile + s.upgrade_blocked + s.unknown_quality + s.at_or_above

record_verdict-counted :
    (v : Verdict) (item : LibraryItem) (r : List UpgradeItem) (s : FilterStats)
    → let q = record_verdict v item (r, s) in
      (counted q.1 + length q.0 ≡ suc (counted s + length r))
      × (q.1.library_total ≡ s.library_total)
unfolding record_verdict
record_verdict-counted no_file item r s = ground arith
record_verdict-counted unmonitored item r s = ground arith
record_verdict-counted no_profile item r s = ground arith
record_verdict-counted upgrade_blocked item r s = ground arith
record_verdict-counted unknown_quality item r s = ground arith
record_verdict-counted at_or_above item r s = ground arith
record_verdict-counted upgradeable item r s =
    ground (arith, length-append r (upgrade_item item ∷ []))

filter_from-counted :
    (profiles : List (ℕ × QualityProfile)) (items : List LibraryItem)
    (acc : List UpgradeItem × FilterStats)
    → let q = filter_from profiles items acc in
      (counted q.1 + length q.0 ≡ length items + (counted acc.1 + length acc.0))
      × (q.1.library_total ≡ acc.1.library_total)
unfolding filter_from
filter_from-counted profiles [] acc = ground arith
filter_from-counted profiles (item ∷ items) acc = ground (
  arith,
  record_verdict-counted (judge profiles item) item acc.0 acc.1,
  filter_from-counted profiles items (record_verdict (judge profiles item) item acc),
)

filter_upgradeable-counted :
    (items : List LibraryItem) (profiles : List (ℕ × QualityProfile))
    → let s = (filter_upgradeable items profiles).1 in
      (s.library_total ≡ length items)
      × (s.no_file + s.unmonitored + s.no_profile + s.upgrade_blocked + s.unknown_quality
            + s.at_or_above + s.upgradeable
          ≡ length items)
unfolding filter_upgradeable
filter_upgradeable-counted items profiles =
    ground (arith, filter_from-counted profiles items ([], no_stats (length items)))

-- Some current quality has a known rank below the cutoff's.
abbrev pub is_below : Option ℕ → Option ℕ → Bool
is_below none cutoff = false
is_below (some rank) none = false
is_below (some rank) (some cutoff) = ltb rank cutoff

abbrev pub any_below : List (ℕ × ℕ) → List ℕ → Option ℕ → Bool
any_below ranks [] cutoff = false
any_below ranks (q ∷ qs) cutoff = is_below (find q ranks) cutoff || any_below ranks qs cutoff

is_below-lower : (a b c : Option ℕ) → is_below (lower a b) c ≡ (is_below a c || is_below b c)
is_below-lower none b c = refl
is_below-lower (some a) none none = refl
is_below-lower (some a) none (some c) = ground arith
is_below-lower (some a) (some b) none = ground arith
is_below-lower (some a) (some b) (some c) = ground arith

is_below-lowest_rank :
    (ranks : List (ℕ × ℕ)) (qs : List ℕ) (low cutoff : Option ℕ)
    → is_below (lowest_rank ranks qs low) cutoff
      ≡ (is_below low cutoff || any_below ranks qs cutoff)
unfolding lowest_rank
is_below-lowest_rank ranks [] low cutoff = ground arith
is_below-lowest_rank ranks (q ∷ qs) low cutoff = ground (
  arith,
  is_below-lowest_rank ranks qs (lower low (find q ranks)) cutoff,
  is_below-lower low (find q ranks) cutoff,
)

-- An item of a profile that allows upgrades, one of whose qualities is below the cutoff.
abbrev pub wants_upgrade : LibraryItem → Option QualityProfile → Bool
wants_upgrade item none = false
wants_upgrade item (some p) =
    p.upgrade_allowed && any_below (quality_rank p) item.current_quality_ids (cutoff_rank p)

abbrev pub is_selected : List (ℕ × QualityProfile) → LibraryItem → Bool
is_selected profiles item =
    item.has_file && item.monitored && wants_upgrade item (find item.quality_profile_id profiles)

abbrev pub picked : (LibraryItem → Bool) → List LibraryItem → List UpgradeItem
picked test [] = []
picked test (item ∷ items) =
    let rest = picked test items in if test item then upgrade_item item ∷ rest else rest

abbrev is_upgradeable : Verdict → Bool
is_upgradeable upgradeable = true
is_upgradeable _ = false

compare_ranks-is_upgradeable :
    (low cutoff : Option ℕ) → is_upgradeable (compare_ranks low cutoff) ≡ is_below low cutoff
unfolding compare_ranks
compare_ranks-is_upgradeable none cutoff = refl
compare_ranks-is_upgradeable (some low) none = refl
compare_ranks-is_upgradeable (some low) (some cutoff) = ground arith

judge_profile-is_upgradeable :
    (item : LibraryItem) (p : Option QualityProfile)
    → is_upgradeable (judge_profile item p) ≡ wants_upgrade item p
unfolding judge_profile
judge_profile-is_upgradeable item none = refl
judge_profile-is_upgradeable item (some p) = ground (
  arith,
  compare_ranks-is_upgradeable (lowest_rank (quality_rank p) item.current_quality_ids none)
      (cutoff_rank p),
  is_below-lowest_rank (quality_rank p) item.current_quality_ids none (cutoff_rank p),
)

judge-is_upgradeable :
    (profiles : List (ℕ × QualityProfile)) (item : LibraryItem)
    → is_upgradeable (judge profiles item) ≡ is_selected profiles item
unfolding judge
judge-is_upgradeable profiles item =
    ground (arith, judge_profile-is_upgradeable item (find item.quality_profile_id profiles))

record_verdict-picked :
    (v : Verdict) (item : LibraryItem) (r : List UpgradeItem) (s : FilterStats)
    → (record_verdict v item (r, s)).0
      ≡ r ++ (if is_upgradeable v then upgrade_item item ∷ [] else [])
unfolding record_verdict
record_verdict-picked no_file item r s = sym (append-nil r)
record_verdict-picked unmonitored item r s = sym (append-nil r)
record_verdict-picked no_profile item r s = sym (append-nil r)
record_verdict-picked upgrade_blocked item r s = sym (append-nil r)
record_verdict-picked unknown_quality item r s = sym (append-nil r)
record_verdict-picked at_or_above item r s = sym (append-nil r)
record_verdict-picked upgradeable item r s = refl

picked-cons :
    (test : LibraryItem → Bool) (item : LibraryItem) (items : List LibraryItem)
    → (if test item then upgrade_item item ∷ [] else []) ++ picked test items
      ≡ picked test (item ∷ items)
picked-cons test item items = elim (Bool-cases (test item)) [ inl e ↦ rw e | inr e ↦ rw e ]

filter_from-picked :
    (profiles : List (ℕ × QualityProfile)) (items : List LibraryItem)
    (acc : List UpgradeItem × FilterStats)
    → (filter_from profiles items acc).0 ≡ acc.0 ++ picked (is_selected profiles) items
unfolding filter_from
filter_from-picked profiles [] acc = sym (append-nil acc.0)
filter_from-picked profiles (item ∷ items) acc =
    filter_from-picked profiles items (record_verdict (judge profiles item) item acc)
    ∙ ap (λ (l : List UpgradeItem). l ++ picked (is_selected profiles) items)
        (record_verdict-picked (judge profiles item) item acc.0 acc.1)
    ∙ rw (judge-is_upgradeable profiles item) (
        append_assoc acc.0 _ _
        ∙ ap (λ (l : List UpgradeItem). acc.0 ++ l) (picked-cons (is_selected profiles) item items))

-- The upgrades are the items with a file that are monitored, have a profile that allows upgrades,
-- and hold some quality that the profile ranks below its cutoff, in the order of the library.
pub filter_upgradeable-picked :
    (items : List LibraryItem) (profiles : List (ℕ × QualityProfile))
    → (filter_upgradeable items profiles).0 ≡ picked (is_selected profiles) items
unfolding filter_upgradeable
filter_upgradeable-picked items profiles =
    filter_from-picked profiles items ([], no_stats (length items))

abbrev pub is_missing : LibraryItem → Bool
is_missing item = not item.has_file && item.monitored

filter_missing-picked : (items : List LibraryItem) → filter_missing items ≡ picked is_missing items
unfolding filter_missing
filter_missing-picked [] = refl
filter_missing-picked (item ∷ items) = ground (arith, filter_missing-picked items)

picked-length :
    (profiles : List (ℕ × QualityProfile)) (items : List LibraryItem)
    → length (picked (is_selected profiles) items) + length (picked is_missing items) ≤ length items
picked-length profiles [] = ground arith
picked-length profiles (item ∷ items) = ground (arith, picked-length profiles items)

-- The missing items are the monitored ones without a file, in the order of the library, and with
-- the upgrades they have no more entries than the library. The statistics count every item of the
-- library exactly once: under one of the six reasons to pass it over, or as upgradeable.
pub filter_upgradeable-filter_missing :
    (items : List LibraryItem) (profiles : List (ℕ × QualityProfile))
    → let s = (filter_upgradeable items profiles).1 in
      (filter_missing items ≡ picked is_missing items)
      × (length (filter_upgradeable items profiles).0 + length (filter_missing items)
          ≤ length items)
      × (s.library_total ≡ length items)
      × (s.no_file + s.unmonitored + s.no_profile + s.upgrade_blocked + s.unknown_quality
            + s.at_or_above + s.upgradeable
          ≡ length items)
filter_upgradeable-filter_missing items profiles = (
  filter_missing-picked items,
  rw (filter_upgradeable-picked items profiles, filter_missing-picked items)
      (picked-length profiles items),
  (filter_upgradeable-counted items profiles).0,
  (filter_upgradeable-counted items profiles).1,
)
