-- ===== src/Arr/History/Newest.antt =====
-- The newest record of each item.
use huntarr.Base.{
  ℕ, ◌≤◌, ◌<◌, true, false, not, ◌&&◌, ◌||◌, Bool, List, [], ◌∷◌, if◌then◌else◌, if_rule, ◌==◌,
  ==_iff, leb, contains, All, All-map, Bool-cases, inl, inr, ◌≡◌, refl, ◌∙◌, arith,
}
use huntarr.Arr.Records.{HistoryRecord}
use huntarr.Arr.History.{is_newer, insert_record, sort_records, newest_per_item, newest_records}

-- Some record of the item is of the time or later.
abbrev pub covers : List HistoryRecord → ℕ → ℕ → Bool
covers [] item date = false
covers (r ∷ records) item date = (r.item_id == item && leb date r.date) || covers records item date

-- No record is newer than one before it.
abbrev pub IsSorted : List HistoryRecord → Type 0
IsSorted [] = Unit
IsSorted (r ∷ records) = All (λ s. s.date ≤ r.date) records × IsSorted records

-- An item that is not 0 has one record.
abbrev pub has_item : List HistoryRecord → ℕ → Bool
has_item [] item = false
has_item (r ∷ records) item = r.item_id == item || has_item records item

abbrev pub AreSingle : List HistoryRecord → Type 0
AreSingle [] = Unit
AreSingle (r ∷ records) =
    ((r.item_id == 0 || not (has_item records r.item_id)) ≡ true) × AreSingle records

module _ {ℓ} (P : HistoryRecord → Type ℓ) where
  insert_record-All :
      (a : HistoryRecord) (records : List HistoryRecord)
      → P a
      → All P records
      → All P (insert_record a records)
  unfolding insert_record
  insert_record-All a [] p h = (p, tt)
  insert_record-All a (b ∷ records) p h =
      if_rule (All P) (is_newer b a) _ _ (λ _. (h.0, insert_record-All a records p h.1))
        (λ _. (p, h))

  sort_records-All : (records : List HistoryRecord) → All P records → All P (sort_records records)
  unfolding sort_records
  sort_records-All [] h = tt
  sort_records-All (a ∷ records) h =
      insert_record-All a (sort_records records) h.0 (sort_records-All records h.1)

  newest_per_item-All :
      (seen : List ℕ) (records : List HistoryRecord)
      → All P records
      → All P (newest_per_item seen records)
  unfolding newest_per_item
  newest_per_item-All seen [] h = tt
  newest_per_item-All seen (r ∷ records) h =
      let is_item = not (r.item_id == 0) in
      let rest = newest_per_item-All (if is_item then r.item_id ∷ seen else seen) records h.1 in
      if_rule (All P) (is_item && contains seen r.item_id) _ _ (λ _. rest) (λ _. (h.0, rest))

  pub newest_records-All :
      (records : List HistoryRecord) → All P records → All P (newest_records records)
  newest_records-All records h =
      newest_per_item-All [] (sort_records records) (sort_records-All records h)

insert_record-IsSorted :
    (a : HistoryRecord) (records : List HistoryRecord)
    → IsSorted records
    → IsSorted (insert_record a records)
unfolding insert_record
insert_record-IsSorted a [] h = (tt, tt)
insert_record-IsSorted a (b ∷ records) h =
    if_rule IsSorted (is_newer b a) _ _
      (λ newer. (
        insert_record-All (λ s. s.date ≤ b.date) a records (ground (arith, newer)) h.0,
        insert_record-IsSorted a records h.1,
      ))
      (λ older.
        let le : b.date ≤ a.date = ground (arith, older) in
        ((le, All-map (λ s below. omega (arith, below, le)) records h.0), h))

sort_records-IsSorted : (records : List HistoryRecord) → IsSorted (sort_records records)
unfolding sort_records
sort_records-IsSorted [] = tt
sort_records-IsSorted (a ∷ records) =
    insert_record-IsSorted a (sort_records records) (sort_records-IsSorted records)

insert_record-covers :
    (a : HistoryRecord) (records : List HistoryRecord) (item date : ℕ)
    → covers (insert_record a records) item date ≡ covers (a ∷ records) item date
unfolding insert_record
insert_record-covers a [] item date = refl
insert_record-covers a (b ∷ records) item date =
    ground (arith, insert_record-covers a records item date)

sort_records-covers :
    (records : List HistoryRecord) (item date : ℕ)
    → covers (sort_records records) item date ≡ covers records item date
unfolding sort_records
sort_records-covers [] item date = refl
sort_records-covers (a ∷ records) item date =
    let first = insert_record-covers a (sort_records records) item date in
    ground (arith, first, sort_records-covers records item date)

-- Records up to a time cover no later one.
covers-late :
    (records : List HistoryRecord) (item date limit : ℕ)
    → All (λ s. s.date ≤ limit) records
    → limit < date
    → covers records item date ≡ false
covers-late [] item date limit h lt = refl
covers-late (r ∷ records) item date limit h lt =
    ground (arith, covers-late records item date limit h.1 lt, h.0, lt)

newest_per_item-covers :
    (seen : List ℕ) (records : List HistoryRecord) (item date : ℕ)
    → IsSorted records
    → (item == 0 || not (contains seen item)) ≡ true
    → covers records item date ≡ true
    → covers (newest_per_item seen records) item date ≡ true
unfolding newest_per_item
newest_per_item-covers seen [] item date sorted new h = h
newest_per_item-covers seen (r ∷ records) item date sorted new h =
    let is_item = not (r.item_id == 0) in
    let later = if is_item then r.item_id ∷ seen else seen in
    let rest = newest_per_item-covers later records item date sorted.1 in
    elim (Bool-cases (r.item_id == item)) [
      | inl same ↦ elim (Bool-cases (leb date r.date)) [
        | inl old ↦ ground (arith, same, old, new)
        | inr late ↦
            let none_left = covers-late records item date r.date sorted.0 (ground (arith, late)) in
            ground (arith, h, late, none_left)
      ]
      | inr other ↦
          let still : (item == 0 || not (contains later item)) ≡ true =
            ground (arith, other, new) in
          let held : covers records item date ≡ true = ground (arith, other, h) in
          let kept = rest still held in ground (arith, kept)
    ]

-- A record of an item that was seen is left out.
newest_per_item-has_item :
    (seen : List ℕ) (records : List HistoryRecord) (item : ℕ)
    → (contains seen item && not (item == 0)) ≡ true
    → has_item (newest_per_item seen records) item ≡ false
unfolding newest_per_item
newest_per_item-has_item seen [] item h = refl
newest_per_item-has_item seen (r ∷ records) item h =
    let is_item = not (r.item_id == 0) in
    let later = if is_item then r.item_id ∷ seen else seen in
    let held : (contains later item && not (item == 0)) ≡ true = ground (arith, h) in
    let rest = newest_per_item-has_item later records item held in
    elim (Bool-cases (r.item_id == item)) [
      | inl same ↦
          let listed : contains seen r.item_id ≡ true =
            rw ((==_iff r.item_id item).0 same) (ground (arith, h)) in
          ground (arith, rest, h, same, listed)
      | inr other ↦ ground (arith, rest, other)
    ]

newest_per_item-AreSingle :
    (seen : List ℕ) (records : List HistoryRecord) → AreSingle (newest_per_item seen records)
unfolding newest_per_item
newest_per_item-AreSingle seen [] = tt
newest_per_item-AreSingle seen (r ∷ records) =
    let is_item = not (r.item_id == 0) in
    let later = if is_item then r.item_id ∷ seen else seen in
    let rest = newest_per_item-AreSingle later records in
    if_rule AreSingle (is_item && contains seen r.item_id) _ _ (λ _. rest)
      (λ taken. (
        elim (Bool-cases (r.item_id == 0)) [
          | inl zero_item ↦ ground (arith, zero_item)
          | inr item ↦
              let listed : (contains later r.item_id && not (r.item_id == 0)) ≡ true =
                ground (arith, item) in
              let gone = newest_per_item-has_item later records r.item_id listed in
              ground (arith, gone)
        ],
        rest,
      ))

pub newest_records-covers :
    (records : List HistoryRecord) (item date : ℕ)
    → covers records item date ≡ true
    → covers (newest_records records) item date ≡ true
newest_records-covers records item date h =
    newest_per_item-covers [] (sort_records records) item date (sort_records-IsSorted records)
      (ground arith) (sort_records-covers records item date ∙ h)

pub newest_records-AreSingle : (records : List HistoryRecord) → AreSingle (newest_records records)
newest_records-AreSingle records = newest_per_item-AreSingle [] (sort_records records)

newest_per_item-IsSorted :
    (seen : List ℕ) (records : List HistoryRecord)
    → IsSorted records
    → IsSorted (newest_per_item seen records)
unfolding newest_per_item
newest_per_item-IsSorted seen [] h = tt
newest_per_item-IsSorted seen (r ∷ records) h =
    let is_item = not (r.item_id == 0) in
    let later = if is_item then r.item_id ∷ seen else seen in
    let rest = newest_per_item-IsSorted later records h.1 in
    if_rule IsSorted (is_item && contains seen r.item_id) _ _ (λ _. rest)
      (λ _. (newest_per_item-All (λ s. s.date ≤ r.date) later records h.0, rest))

pub newest_records-IsSorted : (records : List HistoryRecord) → IsSorted (newest_records records)
newest_records-IsSorted records =
    newest_per_item-IsSorted [] (sort_records records) (sort_records-IsSorted records)
