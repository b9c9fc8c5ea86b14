-- ===== src/Scheduler/Cooldown/Fresh.antt =====
-- The searches since a given time.
use huntarr.Base.{
  ℕ, ◌+◌, ◌≤◌, ◌<◌, String, Bool, true, false, ◌&&◌, ◌||◌, List, [], ◌∷◌, ◌==◌, leb, contains, All,
  if_rule, str_eq_self, ==_iff, Bool-cases, inl, inr, ◌≡◌, refl, arith,
}
use huntarr.Scheduler.Cooldown.{
  Row, milliseconds, is_row, rows_cooling, filter_cooling_down, upsert_row, record_searches,
}

module _ (instance : String) (since : ℕ) where
  -- The table holds a search of the item that is not before the time.
  abbrev pub fresh : List Row → ℕ → Bool
  fresh [] item = false
  fresh (r ∷ rows) item = (is_row instance item r && leb since r.searched_at) || fresh rows item

  upsert_row-fresh :
      (item now : ℕ) (rows : List Row)
      → since ≤ now
      → fresh (upsert_row instance item now rows) item ≡ true
  unfolding upsert_row
  upsert_row-fresh item now [] h = ground (arith, str_eq_self instance, h)
  upsert_row-fresh item now (r ∷ rows) h = ground (arith, upsert_row-fresh item now rows h, h)

  upsert_row-keeps_fresh :
      (item j now : ℕ) (rows : List Row)
      → since ≤ now
      → fresh rows j ≡ true
      → fresh (upsert_row instance item now rows) j ≡ true
  unfolding upsert_row
  upsert_row-keeps_fresh item j now [] le h = cc
  upsert_row-keeps_fresh item j now (r ∷ rows) le h =
      ground (arith, upsert_row-keeps_fresh item j now rows le, le)

  -- What was fresh stays so, and what is recorded becomes so.
  pub record_searches-keeps_fresh :
      (items : List ℕ) (j now : ℕ) (rows : List Row)
      → since ≤ now
      → fresh rows j ≡ true
      → fresh (record_searches instance items now rows) j ≡ true
  unfolding record_searches
  record_searches-keeps_fresh [] j now rows le h = h
  record_searches-keeps_fresh (i ∷ items) j now rows le h =
      record_searches-keeps_fresh items j now (upsert_row instance i now rows) le
        (upsert_row-keeps_fresh i j now rows le h)

  pub record_searches-fresh :
      (items : List ℕ) (j now : ℕ) (rows : List Row)
      → since ≤ now
      → contains items j ≡ true
      → fresh (record_searches instance items now rows) j ≡ true
  unfolding record_searches
  record_searches-fresh [] j now rows le h = cc
  record_searches-fresh (i ∷ items) j now rows le h = elim (Bool-cases (i == j)) [
    | inl same ↦
        record_searches-keeps_fresh items j now (upsert_row instance i now rows) le
          (rw (← (==_iff i j).0 same) (upsert_row-fresh i now rows le))
    | inr other ↦
        record_searches-fresh items j now (upsert_row instance i now rows) le
          (ground (arith, h, other))
  ]

  module _ (period : ℕ) where
    -- A search that is out of its cooldown by the time, or fresh.
    abbrev pub IsSettled : Row → Type 0
    IsSettled r =
        (leb (r.searched_at + milliseconds period) since || leb since r.searched_at) ≡ true

    upsert_row-IsSettled :
        (item now : ℕ) (rows : List Row)
        → since ≤ now
        → All IsSettled rows
        → All IsSettled (upsert_row instance item now rows)
    unfolding upsert_row
    upsert_row-IsSettled item now [] le h = (ground (arith, le), tt)
    upsert_row-IsSettled item now (r ∷ rows) le h =
        if_rule (All IsSettled) (is_row instance item r) _ _ (λ _. (ground (arith, le), h.1))
          (λ _. (h.0, upsert_row-IsSettled item now rows le h.1))

    pub record_searches-IsSettled :
        (items : List ℕ) (now : ℕ) (rows : List Row)
        → since ≤ now
        → All IsSettled rows
        → All IsSettled (record_searches instance items now rows)
    unfolding record_searches
    record_searches-IsSettled [] now rows le h = h
    record_searches-IsSettled (i ∷ items) now rows le h =
        record_searches-IsSettled items now (upsert_row instance i now rows) le
          (upsert_row-IsSettled i now rows le h)

    rows_cooling-fresh :
        (items : List ℕ) (now j : ℕ) (rows : List Row)
        → since ≤ now
        → now < since + milliseconds period
        → contains items j ≡ true
        → All IsSettled rows
        → contains (rows_cooling instance items period now rows) j ≡ fresh rows j
    unfolding rows_cooling
    rows_cooling-fresh items now j [] le lt m h = refl
    rows_cooling-fresh items now j (r ∷ rows) le lt m h =
        let rest = rows_cooling-fresh items now j rows le lt m h.1 in
        elim (Bool-cases (r.item_id == j)) [
          | inl same ↦
              let listed : contains items r.item_id ≡ true = rw ((==_iff r.item_id j).0 same) m in
              ground (arith, rest, h.0, listed, same)
          | inr other ↦ ground (arith, rest, other)
        ]

    pub filter_cooling_down-fresh :
        (items : List ℕ) (now j : ℕ) (rows : List Row)
        → since ≤ now
        → now < since + milliseconds period
        → contains items j ≡ true
        → All IsSettled rows
        → contains (filter_cooling_down instance items period now rows) j ≡ fresh rows j
    unfolding filter_cooling_down
    filter_cooling_down-fresh [] now j rows le lt m h = cc
    filter_cooling_down-fresh (i ∷ items) now j rows le lt m h =
        rows_cooling-fresh (i ∷ items) now j rows le lt m h
