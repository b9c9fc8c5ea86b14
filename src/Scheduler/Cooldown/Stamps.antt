-- ===== src/Scheduler/Cooldown/Stamps.antt =====
-- What the table knows of a search.
use huntarr.Base.{
  ℕ, ◌+◌, ◌<◌, String, Bool, true, false, ◌&&◌, ◌||◌, List, [], ◌∷◌, ◌==◌, contains, ◌≡◌, arith,
  str_eq_self, ==_iff, Bool-cases, inl, inr,
}
use huntarr.Scheduler.Cooldown.{
  Row, milliseconds, is_row, rows_cooling, filter_cooling_down, upsert_row, record_searches,
}

-- The table holds a search of the item at the time.
abbrev pub stamped : String → ℕ → ℕ → List Row → Bool
stamped instance item time [] = false
stamped instance item time (r ∷ rows) =
    (is_row instance item r && (r.searched_at == time)) || stamped instance item time rows

upsert_row-stamped :
    (instance : String) (item now : ℕ) (rows : List Row)
    → stamped instance item now (upsert_row instance item now rows) ≡ true
unfolding upsert_row
upsert_row-stamped instance item now [] = ground (arith, str_eq_self instance)
upsert_row-stamped instance item now (r ∷ rows) =
    ground (arith, upsert_row-stamped instance item now rows)

upsert_row-keeps :
    (instance : String) (item j now : ℕ) (rows : List Row)
    → stamped instance j now rows ≡ true
    → stamped instance j now (upsert_row instance item now rows) ≡ true
unfolding upsert_row
upsert_row-keeps instance item j now [] h = cc
upsert_row-keeps instance item j now (r ∷ rows) h =
    ground (arith, upsert_row-keeps instance item j now rows)

record_searches-keeps :
    (instance : String) (items : List ℕ) (j now : ℕ) (rows : List Row)
    → stamped instance j now rows ≡ true
    → stamped instance j now (record_searches instance items now rows) ≡ true
unfolding record_searches
record_searches-keeps instance [] j now rows h = h
record_searches-keeps instance (i ∷ items) j now rows h =
    record_searches-keeps instance items j now (upsert_row instance i now rows)
      (upsert_row-keeps instance i j now rows h)

pub record_searches-stamped :
    (instance : String) (items : List ℕ) (j now : ℕ) (rows : List Row)
    → contains items j ≡ true
    → stamped instance j now (record_searches instance items now rows) ≡ true
unfolding record_searches
record_searches-stamped instance [] j now rows h = cc
record_searches-stamped instance (i ∷ items) j now rows h = elim (Bool-cases (i == j)) [
  | inl same ↦
      record_searches-keeps instance items j now (upsert_row instance i now rows)
        (rw (← (==_iff i j).0 same) (upsert_row-stamped instance i now rows))
  | inr other ↦
      record_searches-stamped instance items j now (upsert_row instance i now rows)
        (ground (arith, h, other))
]

pub rows_cooling-stamped :
    (instance : String) (items : List ℕ) (period time now j : ℕ) (rows : List Row)
    → stamped instance j time rows ≡ true
    → contains items j ≡ true
    → now < time + milliseconds period
    → contains (rows_cooling instance items period now rows) j ≡ true
unfolding rows_cooling
rows_cooling-stamped instance items period time now j [] h m lt = cc
rows_cooling-stamped instance items period time now j (r ∷ rows) h m lt =
    ground (arith, rows_cooling-stamped instance items period time now j rows)

pub filter_cooling_down-stamped :
    (instance : String) (items : List ℕ) (period time now j : ℕ) (rows : List Row)
    → stamped instance j time rows ≡ true
    → contains items j ≡ true
    → now < time + milliseconds period
    → contains (filter_cooling_down instance items period now rows) j ≡ true
unfolding filter_cooling_down
filter_cooling_down-stamped instance [] period time now j rows h m lt = cc
filter_cooling_down-stamped instance (i ∷ items) period time now j rows h m lt =
    rows_cooling-stamped instance (i ∷ items) period time now j rows h m lt
