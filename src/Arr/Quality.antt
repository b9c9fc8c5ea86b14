-- ===== src/Arr/Quality.antt =====
-- internal/arr/quality.go: which library items can be upgraded. Ids are not negative. Of the entries
-- nested in a group only their qualities are read, so a group holds those.
pub mod Selection
use huntarr.Base.{
  ℕ, suc, String, Bool, true, false, not, ◌||◌, List, [], ◌∷◌, ◌++◌, Option, none, some,
  if◌then◌else◌, ◌==◌, ltb, length,
}

pub record ProfileEntry : Type 0 where
  pub id : ℕ
  pub quality : Option ℕ
  pub items : List (Option ℕ)
  pub allowed : Bool

pub record QualityProfile : Type 0 where
  pub upgrade_allowed : Bool
  pub cutoff : ℕ
  pub items : List ProfileEntry

pub record LibraryItem : Type 0 where
  pub id : ℕ
  pub label : String
  pub detail_path : String
  pub quality_profile_id : ℕ
  pub current_quality_ids : List ℕ
  pub has_file : Bool
  pub monitored : Bool

pub record UpgradeItem : Type 0 where
  pub id : ℕ
  pub label : String
  pub detail_path : String

pub record FilterStats : Type 0 where
  pub library_total : ℕ
  pub no_file : ℕ
  pub unmonitored : ℕ
  pub no_profile : ℕ
  pub upgrade_blocked : ℕ
  pub unknown_quality : ℕ
  pub at_or_above : ℕ
  pub upgradeable : ℕ

-- A map of numbers; an assignment is put in front.
unfoldable pub find {ℓ} : {V : Type ℓ} → ℕ → List (ℕ × V) → Option V
find k [] = none
find k ((j, v) ∷ m) = if j == k then some v else find k m

-- The children of a group, at the group's rank.
rank_children : ℕ → List (Option ℕ) → List (ℕ × ℕ) → List (ℕ × ℕ)
rank_children i [] ranks = ranks
rank_children i (none ∷ children) ranks = rank_children i children ranks
rank_children i (some q ∷ children) ranks = rank_children i children ((q, i) ∷ ranks)

rank_allowed : ℕ → ProfileEntry → Option ℕ → List (ℕ × ℕ) → List (ℕ × ℕ)
unfolding rank_children
rank_allowed i entry (some q) ranks = (q, i) ∷ ranks
rank_allowed i entry none ranks =
    rank_children i entry.items (if entry.id == 0 then ranks else (entry.id, i) ∷ ranks)

-- The loop of `qualityRank` from index `i`.
rank_entries : ℕ → List ProfileEntry → List (ℕ × ℕ) → List (ℕ × ℕ)
unfolding rank_allowed
rank_entries i [] ranks = ranks
rank_entries i (entry ∷ entries) ranks =
    rank_entries (suc i) entries
      (if entry.allowed then rank_allowed i entry entry.quality ranks else ranks)

unfoldable pub quality_rank : QualityProfile → List (ℕ × ℕ)
unfolding rank_entries
quality_rank profile = rank_entries 0 profile.items []

-- `none` is -1, below every rank.
unfoldable pub cutoff_rank : QualityProfile → Option ℕ
unfolding quality_rank find
cutoff_rank profile = find profile.cutoff (quality_rank profile)

-- One round of the loop for the lowest rank; `none` is -1, which stands for no known rank yet.
abbrev pub lower : Option ℕ → Option ℕ → Option ℕ
lower none rank = rank
lower (some low) none = some low
lower (some low) (some rank) = if ltb rank low then some rank else some low

unfoldable pub lowest_rank : List (ℕ × ℕ) → List ℕ → Option ℕ → Option ℕ
unfolding find
lowest_rank ranks [] low = low
lowest_rank ranks (q ∷ qs) low = lowest_rank ranks qs (lower low (find q ranks))

-- Where an item ends in the loop of `filterUpgradeable`.
pub data Verdict : Type 0 where
  no_file unmonitored no_profile upgrade_blocked unknown_quality at_or_above upgradeable : Verdict

unfoldable pub compare_ranks : Option ℕ → Option ℕ → Verdict
compare_ranks none cutoff = unknown_quality
compare_ranks (some low) none = at_or_above
compare_ranks (some low) (some cutoff) = if ltb low cutoff then upgradeable else at_or_above

unfoldable pub judge_profile : LibraryItem → Option QualityProfile → Verdict
unfolding lowest_rank compare_ranks cutoff_rank
judge_profile item none = no_profile
judge_profile item (some p) =
    if p.upgrade_allowed
    then compare_ranks (lowest_rank (quality_rank p) item.current_quality_ids none) (cutoff_rank p)
    else upgrade_blocked

unfoldable pub judge : List (ℕ × QualityProfile) → LibraryItem → Verdict
unfolding judge_profile find
judge profiles item =
    if not item.has_file
    then no_file
    else if not item.monitored
    then unmonitored
    else judge_profile item (find item.quality_profile_id profiles)

abbrev pub upgrade_item : LibraryItem → UpgradeItem
upgrade_item item = record { id = item.id; label = item.label; detail_path = item.detail_path }

-- The counter that a verdict raises, and the item that it appends.
unfoldable pub record_verdict :
    Verdict → LibraryItem → List UpgradeItem × FilterStats → List UpgradeItem × FilterStats
record_verdict no_file item (r, s) = (r, record s { no_file = suc s.no_file })
record_verdict unmonitored item (r, s) = (r, record s { unmonitored = suc s.unmonitored })
record_verdict no_profile item (r, s) = (r, record s { no_profile = suc s.no_profile })
record_verdict upgrade_blocked item (r, s) =
    (r, record s { upgrade_blocked = suc s.upgrade_blocked })
record_verdict unknown_quality item (r, s) =
    (r, record s { unknown_quality = suc s.unknown_quality })
record_verdict at_or_above item (r, s) = (r, record s { at_or_above = suc s.at_or_above })
record_verdict upgradeable item (r, s) = (r ++ upgrade_item item ∷ [], s)

unfoldable pub filter_from :
    List (ℕ × QualityProfile)
    → List LibraryItem
    → List UpgradeItem × FilterStats
    → List UpgradeItem × FilterStats
unfolding judge record_verdict
filter_from profiles [] acc = acc
filter_from profiles (item ∷ items) acc =
    filter_from profiles items (record_verdict (judge profiles item) item acc)

abbrev pub no_stats : ℕ → FilterStats
no_stats total = record {
  library_total = total;
  no_file = 0;
  unmonitored = 0;
  no_profile = 0;
  upgrade_blocked = 0;
  unknown_quality = 0;
  at_or_above = 0;
  upgradeable = 0;
}

unfoldable pub filter_upgradeable :
    List LibraryItem → List (ℕ × QualityProfile) → List UpgradeItem × FilterStats
unfolding filter_from
filter_upgradeable items profiles =
    let (result, stats) = filter_from profiles items ([], no_stats (length items)) in
    (result, record stats { upgradeable = length result })

unfoldable pub filter_missing : List LibraryItem → List UpgradeItem
filter_missing [] = []
filter_missing (item ∷ items) =
    let rest = filter_missing items in
    if item.has_file || not item.monitored then rest else upgrade_item item ∷ rest
