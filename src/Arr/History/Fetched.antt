-- ===== src/Arr/History/Fetched.antt =====
-- What `fetchArrHistory` gives.
use huntarr.Base.{
  is_some, ℕ, ℤ, String, Bool, true, false, not, ◌&&◌, ◌||◌, List, [], ◌∷◌, Option, none, some,
  if◌then◌else◌, ◌==◌, ==_iff, Bool-cases, inl, inr, ltb, leb, map, All, All-map, ◌≡◌, refl, sym,
  ◌∙◌, ap, arith, subst,
}
use huntarr.Arr.Quality.{find}
use huntarr.Arr.Events.{Event, item_id, data_value, equal_fold}
use huntarr.Arr.Records.{HistoryRecord, DeletedFile, FileResponse}
use huntarr.Arr.History.{
  Pages, upgraded_items, fetch_upgraded, plain_record, import_record, mark_upgrade, add_deleted,
  with_file, new_imports, finish_history, newest_records, fetch_arr_history,
}
use huntarr.Arr.History.Imports.{
  IsAfter, IsKnown, has_id, all_events, new_imports-AreAfter, new_imports-AreKnown, all_answered,
  new_imports-is_some,
}
use huntarr.Arr.History.Taken.{
  AreAmong, AreDistinct, IsOfSome, new_imports-AreAmong, with_files-AreOfSome,
  import_records-AreTheirs,
}
use huntarr.Arr.History.Files.{
  with_file-IsAlike, with_files-covers, with_files-AreSingle, with_files-IsSorted,
}
use huntarr.Arr.History.Newest.{
  covers, IsSorted, AreSingle, newest_records-All, newest_records-covers, newest_records-AreSingle,
  newest_records-IsSorted,
}

add_deleted-find :
    (own : ℕ) (d : Event) (upgraded : List (ℕ × DeletedFile)) (item : ℕ) (o : Option DeletedFile)
    → find own upgraded ≡ o
    → is_some (find item (add_deleted own d o upgraded))
      ≡ (is_some (find item upgraded) || (own == item))
unfolding find
add_deleted-find own d upgraded item none e = ground arith
add_deleted-find own d upgraded item (some f) e = elim (Bool-cases (own == item)) [
  | inl same ↦
      let here : is_some (find item upgraded) ≡ true =
        rw (← (==_iff own item).0 same) (rw e refl) in
      ground (arith, here)
  | inr other ↦ ground (arith, other)
]

mark_covers :
    (o : Option DeletedFile) (r : HistoryRecord) (records : List HistoryRecord) (item date : ℕ)
    → covers (mark_upgrade o r ∷ records) item date ≡ covers (r ∷ records) item date
mark_covers none r records item date = refl
mark_covers (some d) r records item date = refl

module _ (field : String) (since : ℕ) where
  -- A delete event after the time says that an upgrade replaced the item.
  abbrev pub is_replaced : List Event → ℕ → Bool
  is_replaced [] item = false
  is_replaced (d ∷ events) item =
      (equal_fold (data_value "reason" d.fields) "upgrade"
        && ltb since d.date
        && (item_id field d == item))
      || is_replaced events item

  abbrev pub was_replaced : Option (List Event) → ℕ → Bool
  was_replaced none item = false
  was_replaced (some events) item = is_replaced events item

  upgraded_items-find :
      (events : List Event) (upgraded : List (ℕ × DeletedFile)) (item : ℕ)
      → is_some (find item (upgraded_items field since events upgraded))
        ≡ (is_some (find item upgraded) || is_replaced events item)
  unfolding upgraded_items
  upgraded_items-find [] upgraded item = ground arith
  upgraded_items-find (d ∷ events) upgraded item =
      let own = item_id field d in
      let added = add_deleted own d (find own upgraded) upgraded in
      let skipped =
        not (equal_fold (data_value "reason" d.fields) "upgrade") || not (ltb since d.date) in
      let rest = upgraded_items-find events (if skipped then upgraded else added) item in
      let one = add_deleted-find own d upgraded item (find own upgraded) refl in
      rest ∙ ground (arith, one)

  fetch_upgraded-find :
      (deleted : Option (List Event)) (item : ℕ)
      → is_some (find item (fetch_upgraded field since deleted)) ≡ was_replaced deleted item
  unfolding find
  fetch_upgraded-find none item = refl
  fetch_upgraded-find (some events) item = upgraded_items-find events [] item

  -- A record that is after the time and marked as the delete events say.
  abbrev pub IsRecord : Option (List Event) → HistoryRecord → Type 0
  IsRecord deleted r = (ltb since r.date ≡ true) × (r.is_upgrade ≡ was_replaced deleted r.item_id)

  -- Import events of the pages that are after the time, of each id that has one exactly one. Each record
  -- tells of one of them, and is an upgrade exactly if a delete event says so; each event has a record
  -- of its item that is no older; an item has one record; and the newest record comes first.
  pub record IsHistory (p : Pages) (records : List HistoryRecord) : Type 0 where
    pub events : List Event
    pub among : AreAmong (all_events p.imported) events
    pub after : All (IsAfter since) events
    pub distinct : AreDistinct events
    pub taken : All (IsKnown since (has_id events)) (all_events p.imported)
    pub theirs : All (IsOfSome field events) records
    pub each : All (IsRecord p.deleted) records
    pub newest : All (λ e. covers records (item_id field e) e.date ≡ true) events
    pub single : AreSingle records
    pub sorted : IsSorted records

  mark_upgrade-IsRecord :
      (deleted : Option (List Event)) (e : Event) (o : Option DeletedFile)
      → IsAfter since e
      → is_some o ≡ was_replaced deleted (item_id field e)
      → IsRecord deleted (mark_upgrade o (plain_record field e))
  mark_upgrade-IsRecord deleted e none h found = (h, found)
  mark_upgrade-IsRecord deleted e (some d) h found = (h, found)

  import_records-AreRecords :
      (deleted : Option (List Event)) (events : List Event)
      → All (IsAfter since) events
      → All
          (IsRecord deleted)
          (map (import_record field (fetch_upgraded field since deleted)) events)
  import_records-AreRecords deleted [] h = tt
  import_records-AreRecords deleted (e ∷ events) h = (
    mark_upgrade-IsRecord deleted e (find (item_id field e) (fetch_upgraded field since deleted))
        h.0 (fetch_upgraded-find deleted (item_id field e)),
    import_records-AreRecords deleted events h.1,
  )

  import_record-covers :
      (upgraded : List (ℕ × DeletedFile)) (e : Event) (records : List HistoryRecord) (item date : ℕ)
      → covers (import_record field upgraded e ∷ records) item date
        ≡ ((item_id field e == item && leb date e.date) || covers records item date)
  import_record-covers upgraded e records item date =
      mark_covers (find (item_id field e) upgraded) (plain_record field e) records item date

  import_records-covers :
      (upgraded : List (ℕ × DeletedFile)) (events : List Event)
      → All
          (λ e. covers (map (import_record field upgraded) events) (item_id field e) e.date ≡ true)
          events
  import_records-covers upgraded [] = tt
  import_records-covers upgraded (e ∷ events) =
      let records = map (import_record field upgraded) events in
      (
        import_record-covers upgraded e records (item_id field e) e.date ∙ ground arith,
        All-map
            (λ x covered.
              let with_first = import_record-covers upgraded e records (item_id field x) x.date in
              ground (arith, with_first, covered))
            events (import_records-covers upgraded events),
      )

  with_files-AreRecords :
      (files : ℤ → Option FileResponse) (deleted : Option (List Event))
      (records : List HistoryRecord)
      → All (IsRecord deleted) records
      → All (IsRecord deleted) (map (with_file files) records)
  with_files-AreRecords files deleted [] h = tt
  with_files-AreRecords files deleted (r ∷ records) h =
      let (same_item, same_date, same_mark) = with_file-IsAlike files r in
      let marked : (with_file files r).is_upgrade
          ≡ was_replaced deleted (with_file files r).item_id =
        same_mark ∙ h.0.1 ∙ ap (was_replaced deleted) (sym same_item) in
      (
        (subst (λ d. ltb since d ≡ true) (sym same_date) h.0.0, marked),
        with_files-AreRecords files deleted records h.1,
      )

  -- A history is given exactly if the application answers for every page of import events.
  abbrev pub IsFetched : Pages → Option (List HistoryRecord) → Type 0
  IsFetched p none = all_answered p.imported ≡ false
  IsFetched p (some records) = (all_answered p.imported ≡ true) × IsHistory p records

  finish_history-IsFetched :
      (p : Pages) (o : Option (List Event))
      → new_imports since [] p.imported ≡ o
      → is_some o ≡ all_answered p.imported
      → IsFetched p (finish_history field (fetch_upgraded field since p.deleted) p.files o)
  finish_history-IsFetched p none e given = sym given
  finish_history-IsFetched p (some events) e given =
      let upgraded = fetch_upgraded field since p.deleted in
      let plain = map (import_record field upgraded) events in
      let newest = newest_records plain in
      let after = new_imports-AreAfter since [] p.imported events e in
      (
        sym given,
        record {
          events = events;
          among = (new_imports-AreAmong since p.imported events e).0;
          after = after;
          distinct = (new_imports-AreAmong since p.imported events e).1;
          theirs = with_files-AreOfSome field p.files events newest (
              newest_records-All (IsOfSome field events) plain
                (import_records-AreTheirs field upgraded events));
          taken = new_imports-AreKnown since [] p.imported events e;
          each = with_files-AreRecords p.files p.deleted newest (
              newest_records-All (IsRecord p.deleted) plain
                (import_records-AreRecords p.deleted events after));
          newest =
              All-map
                (λ x covered.
                  with_files-covers p.files newest (item_id field x) x.date
                  ∙ newest_records-covers plain (item_id field x) x.date covered)
                events (import_records-covers upgraded events);
          single = with_files-AreSingle p.files newest (newest_records-AreSingle plain);
          sorted = with_files-IsSorted p.files newest (newest_records-IsSorted plain);
        },
      )

  -- A history is given exactly if the application answers for every page of import events, and then,
  -- whatever it answers: of every id that an import event of the pages after the given time has, one
  -- such event is taken; every record tells of one of these events, with its date, item, labels, paths
  -- and quality, and is an upgrade exactly if the page of delete events has one after that time that
  -- replaced its item; for every event that is taken, a record of its item is no older; an item that
  -- is not 0 has one record; the newest record comes first.
  pub fetch_arr_history-IsFetched : (p : Pages) → IsFetched p (fetch_arr_history field since p)
  unfolding fetch_arr_history
  fetch_arr_history-IsFetched p =
      finish_history-IsFetched p (new_imports since [] p.imported) refl
        (new_imports-is_some since [] p.imported)
