-- ===== src/Activity.antt =====
-- internal/activity: the activity log, as service.go and sqlite.go keep and list it. A time is
-- stored, and compared, as the text that RFC3339Nano gives. Parameter: `like` is SQLite's test of a
-- message against '%' || text || '%'. The ids of entries are left out.
pub mod Stamps
pub mod Listed
pub mod Matching
pub mod Stats
use Prim.Native.String
use huntarr.Base.{
  ℕ, zero, suc, ◌+◌, ◌-◌, ◌/◌, ◌%◌, ◌^◌, String, Bool, true, false, not, ◌&&◌, ◌||◌, List, [], ◌∷◌,
  ◌++◌, Option, none, some, if◌then◌else◌, ltb, leb, ◌==◌, str_eq, text_lt, length, take, drop, ℤ,
  pos, negsuc,
}
use huntarr.Scheduler.Cycle.{Entry}

abbrev pub valid_level : String → Bool
valid_level l = str_eq l "debug" || str_eq l "info" || str_eq l "warn" || str_eq l "error"

abbrev pub valid_action : String → Bool
valid_action a =
    str_eq a "search_cycle"
    || str_eq a "search_skip"
    || str_eq a "rate_limit"
    || str_eq a "health_check"
    || str_eq a "upgrade_detected"
    || str_eq a "download_detected"

-- A time as it is written: the seconds of the clock in its zone, the nanoseconds and the characters
-- of the zone. The text before the fraction has a fixed length and is ordered as the clock is.
pub record Stamp : Type 0 where
  pub clock : ℕ
  pub nanos : ℕ
  pub zone : List ℕ

-- The last `k` decimal digits of a number, and digits without the zeros at their end.
unfoldable pub digits : ℕ → ℕ → List ℕ
digits zero n = []
digits (suc k) n = (b'0' + n / 10 ^ k % 10) ∷ digits k n

unfoldable pub trim_zeros : List ℕ → List ℕ
trim_zeros [] = []
trim_zeros (c ∷ cs) = elim (trim_zeros cs) [
  | [] ↦ if c == b'0' then [] else c ∷ []
  | (d ∷ ds) ↦ c ∷ d ∷ ds
]

-- The text of a time from the fraction on.
unfoldable pub tail_of : Stamp → List ℕ
unfolding digits trim_zeros
tail_of t = if t.nanos == 0 then t.zone else (b'.' ∷ trim_zeros (digits 9 t.nanos)) ++ t.zone

-- `<` on the texts of two times.
unfoldable pub stamp_lt : Stamp → Stamp → Bool
unfolding tail_of text_lt
stamp_lt s t = ltb s.clock t.clock || (s.clock == t.clock && text_lt (tail_of s) (tail_of t))

abbrev pub utc : List ℕ
utc = b'Z' ∷ []

-- A row of `activity_log`.
pub record Row : Type 0 where
  pub content : Entry
  pub created_at : Stamp

pub record ListParams : Type 0 where
  pub level : String
  pub instance_id : Option String
  pub action : String
  pub search : String
  pub since : Option Stamp
  pub until : Option Stamp
  pub limit : ℤ
  pub offset : ℕ

-- `Service.Log`, with the time of the insertion and whether the database carries it out; the text of
-- an error is left out.
unfoldable pub log_entry : Bool → Stamp → Entry → List Row → Bool × List Row
log_entry available now e rows =
    if not (valid_level e.level)
    then (false, rows)
    else if not (valid_action e.action)
    then (false, rows)
    else if available
    then (true, rows ++ (record { content = e; created_at = now }) ∷ [])
    else (false, rows)

abbrev pub equals_or_empty : String → String → Bool
equals_or_empty wanted actual = str_eq wanted "" || str_eq actual wanted

abbrev pub is_instance : Option String → Option String → Bool
is_instance none actual = true
is_instance (some wanted) none = false
is_instance (some wanted) (some actual) = str_eq actual wanted

abbrev pub not_before : Option Stamp → Stamp → Bool
not_before none t = true
not_before (some since) t = not (stamp_lt t since)

abbrev pub before : Option Stamp → Stamp → Bool
before none t = true
before (some until) t = stamp_lt t until

-- The rows later in the order, `created_at DESC`; of two rows with one time, the later insertion may
-- come first.
unfoldable pub insert_row : Row → List Row → List Row
insert_row r [] = r ∷ []
insert_row r (s ∷ rows) =
    let rest = insert_row r rows in
    if stamp_lt r.created_at s.created_at then s ∷ rest else r ∷ s ∷ rows

unfoldable pub sort_rows : List Row → List Row → List Row
unfolding insert_row
sort_rows [] sorted = sorted
sort_rows (r ∷ rows) sorted = sort_rows rows (insert_row r sorted)

module _ (like : String → String → Bool) where
  -- The conditions of `buildListQuery`.
  abbrev pub is_match : ListParams → Row → Bool
  is_match p r =
      equals_or_empty p.level r.content.level
      && is_instance p.instance_id r.content.instance_id
      && equals_or_empty p.action r.content.action
      && (str_eq p.search "" || like p.search r.content.message)
      && not_before p.since r.created_at
      && before p.until r.created_at

  unfoldable pub matching : ListParams → List Row → List Row
  matching p [] = []
  matching p (r ∷ rows) = let rest = matching p rows in if is_match p r then r ∷ rest else rest

  -- `Repository.List` and `Count`.
  abbrev pub limit_rows : ℤ → List Row → List Row
  limit_rows (pos zero) rows = rows
  limit_rows (pos (suc n)) rows = take (suc n) rows
  limit_rows (negsuc n) rows = rows

  unfoldable pub list_rows : ListParams → List Row → List Row
  unfolding matching sort_rows
  list_rows p rows = limit_rows p.limit (drop p.offset (sort_rows (matching p rows) []))

  unfoldable pub count_rows : ListParams → List Row → ℕ
  unfolding matching
  count_rows p rows = length (matching p rows)

  abbrev pub max_list_limit : ℕ
  max_list_limit = 500

  abbrev pub clamp_limit : ℤ → ℤ
  clamp_limit (pos zero) = pos 50
  clamp_limit (negsuc n) = pos 50
  clamp_limit (pos (suc n)) = if ltb max_list_limit (suc n) then pos max_list_limit else pos (suc n)

  -- `Service.List`
  unfoldable pub list_entries : ListParams → List Row → List Row
  unfolding list_rows
  list_entries p rows = list_rows (record p { limit = clamp_limit p.limit }) rows

-- `DeleteBefore`
unfoldable pub delete_before : Stamp → List Row → List Row
unfolding stamp_lt
delete_before t [] = []
delete_before t (r ∷ rows) =
    let rest = delete_before t rows in if stamp_lt r.created_at t then rest else r ∷ rest

-- The zone of the server, by the seconds that its clock is ahead of or behind UTC.
pub data Zone : Type 0 where
  at_utc : Zone
  east west : ℕ → Zone

abbrev pub local_clock : Zone → ℕ → ℕ
local_clock at_utc t = t
local_clock (east o) t = t + o
local_clock (west o) t = t - o

abbrev pub zone_text : Zone → List ℕ
zone_text at_utc = utc
zone_text (east o) = b'+' ∷ (digits 2 (o / 3600) ++ b':' ∷ digits 2 (o / 60 % 60))
zone_text (west o) = b'-' ∷ (digits 2 (o / 3600) ++ b':' ∷ digits 2 (o / 60 % 60))

-- `Service.Prune` at a time in seconds and nanoseconds of UTC, for a retention of whole seconds. The
-- time is written in the zone of the server.
unfoldable pub prune : Zone → ℕ → ℕ → ℕ → List Row → List Row
unfolding delete_before digits
prune zone now nanos retention rows =
    delete_before
      (record { clock = local_clock zone (now - retention); nanos = nanos; zone = zone_text zone })
      rows
