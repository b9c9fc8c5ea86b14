-- ===== src/Scheduler/Cooldown.antt =====
-- internal/cooldown/sqlite.go: the table of searches. Times are in milliseconds, as the table stores
-- them; a period comes in nanoseconds and is cut to whole seconds. Whether the database answers is
-- for the caller to say.
pub mod Stamps
pub mod Fresh
use huntarr.Base.{
  ℕ, ◌+◌, ◌*◌, ◌/◌, String, Bool, ◌&&◌, List, [], ◌∷◌, if◌then◌else◌, ◌==◌, ltb, leb, str_eq,
  contains,
}

pub record Row : Type 0 where
  pub instance_id : String
  pub item_id : ℕ
  pub searched_at : ℕ

abbrev pub milliseconds : ℕ → ℕ
milliseconds period = period / 1000000000 * 1000

-- The key of the table.
abbrev pub is_row : String → ℕ → Row → Bool
is_row instance item r = str_eq r.instance_id instance && (r.item_id == item)

-- The rows that the query selects: searched later than the period ago.
unfoldable pub rows_cooling : String → List ℕ → ℕ → ℕ → List Row → List ℕ
rows_cooling instance items period now [] = []
rows_cooling instance items period now (r ∷ rows) =
    let rest = rows_cooling instance items period now rows in
    if str_eq r.instance_id instance
      && contains items r.item_id
      && ltb now (r.searched_at + milliseconds period)
    then r.item_id ∷ rest
    else rest

unfoldable pub filter_cooling_down : String → List ℕ → ℕ → ℕ → List Row → List ℕ
unfolding rows_cooling
filter_cooling_down instance [] period now rows = []
filter_cooling_down instance (i ∷ items) period now rows =
    rows_cooling instance (i ∷ items) period now rows

-- The upsert of one item.
unfoldable pub upsert_row : String → ℕ → ℕ → List Row → List Row
upsert_row instance item now [] =
    record { instance_id = instance; item_id = item; searched_at = now } ∷ []
upsert_row instance item now (r ∷ rows) =
    let rest = upsert_row instance item now rows in
    if is_row instance item r then record r { searched_at = now } ∷ rows else r ∷ rest

unfoldable pub record_searches : String → List ℕ → ℕ → List Row → List Row
unfolding upsert_row
record_searches instance [] now rows = rows
record_searches instance (i ∷ items) now rows =
    record_searches instance items now (upsert_row instance i now rows)

unfoldable pub delete_expired : ℕ → ℕ → List Row → List Row
delete_expired older_than now [] = []
delete_expired older_than now (r ∷ rows) =
    let rest = delete_expired older_than now rows in
    if ltb (r.searched_at + milliseconds older_than) now then rest else r ∷ rest
