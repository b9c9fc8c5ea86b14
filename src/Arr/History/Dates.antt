-- ===== src/Arr/History/Dates.antt =====
-- The records of `fetchArrHistory` are dated as its events are.
use huntarr.Base.{
  none-ne-some, ℕ, ℤ, ◌≤◌, String, not, ◌||◌, List, [], ◌∷◌, ◌++◌, Option, none, some,
  if◌then◌else◌, if_rule, ltb, contains, map, All, All-append, ◌≡◌, refl, subst,
}
use huntarr.Arr.Quality.{find}
use huntarr.Arr.Events.{Event, item_id}
use huntarr.Arr.Records.{HistoryRecord, DeletedFile, FileResponse}
use huntarr.Arr.History.{
  Pages, fetch_upgraded, plain_record, import_record, mark_upgrade, with_file, new_events,
  new_imports, finish_history, newest_records, fetch_arr_history,
}
use huntarr.Arr.History.Imports.{all_events, rest_cases}
use huntarr.Arr.History.Newest.{newest_records-All}
use huntarr.Arr.History.Files.{with_files-below}

All-left {ℓ} :
    {A : Type ℓ} (P : A → Type 0) (xs ys : List A) → All P (xs ++ ys) → All P xs × All P ys
All-left P [] ys h = (tt, h)
All-left P (x ∷ xs) ys h = let (left, right) = All-left P xs ys h.1 in ((h.0, left), right)

module _ (limit : ℕ) where
  abbrev pub IsDated : Event → Type 0
  IsDated e = e.date ≤ limit

  abbrev IsEarly : HistoryRecord → Type 0
  IsEarly r = r.date ≤ limit

  new_events-AreDated :
      (since : ℕ) (seen : List ℕ) (events : List Event)
      → All IsDated events
      → All IsDated (new_events since seen events).1
  unfolding new_events
  new_events-AreDated since seen [] h = tt
  new_events-AreDated since seen (e ∷ events) h =
      let skipped = not (ltb since e.date) || contains seen e.id in
      let rest = new_events-AreDated since (if skipped then seen else e.id ∷ seen) events h.1 in
      if_rule (All IsDated) skipped _ _ (λ _. rest) (λ _. (h.0, rest))

  new_imports-AreDated :
      (since : ℕ) (seen : List ℕ) (pages : List (Option (List Event))) (events : List Event)
      → All IsDated (all_events pages)
      → new_imports since seen pages ≡ some events
      → All IsDated events
  unfolding new_imports
  new_imports-AreDated since seen [] events dated h =
      let same : [] ≡ events = cc in subst (All IsDated) same tt
  new_imports-AreDated since seen (none ∷ pages) events dated h = absurd (none-ne-some _ h)
  new_imports-AreDated since seen (some page ∷ pages) events dated h =
      let (all, found) = new_events since seen page in
      let (here, later) = All-left IsDated page (all_events pages) dated in
      rest_cases (All IsDated) found (new_imports since all pages) events
        (λ rest e.
          All-append IsDated found rest (new_events-AreDated since seen page here)
            (new_imports-AreDated since all pages rest later e))
        h

  mark_upgrade-IsEarly :
      (o : Option DeletedFile) (r : HistoryRecord) → IsEarly r → IsEarly (mark_upgrade o r)
  mark_upgrade-IsEarly none r h = h
  mark_upgrade-IsEarly (some d) r h = h

  import_records-AreEarly :
      (field : String) (upgraded : List (ℕ × DeletedFile)) (events : List Event)
      → All IsDated events
      → All IsEarly (map (import_record field upgraded) events)
  import_records-AreEarly field upgraded [] h = tt
  import_records-AreEarly field upgraded (e ∷ events) h = (
    mark_upgrade-IsEarly (find (item_id field e) upgraded) (plain_record field e) h.0,
    import_records-AreEarly field upgraded events h.1,
  )

  finish_history-AreEarly :
      (field : String) (upgraded : List (ℕ × DeletedFile)) (files : ℤ → Option FileResponse)
      (o : Option (List Event)) (records : List HistoryRecord)
      → ((events : List Event) → o ≡ some events → All IsDated events)
      → finish_history field upgraded files o ≡ some records
      → All IsEarly records
  finish_history-AreEarly field upgraded files none records dated h = absurd (none-ne-some _ h)
  finish_history-AreEarly field upgraded files (some events) records dated h =
      let plain = map (import_record field upgraded) events in
      let same : map (with_file files) (newest_records plain) ≡ records = cc in
      subst (All IsEarly) same (
        with_files-below files (newest_records plain) limit (
          newest_records-All IsEarly plain
            (import_records-AreEarly field upgraded events (dated events refl))))

  -- No record is later than all events of the pages.
  pub fetch_arr_history-AreEarly :
      (field : String) (since : ℕ) (p : Pages) (records : List HistoryRecord)
      → All IsDated (all_events p.imported)
      → fetch_arr_history field since p ≡ some records
      → All IsEarly records
  unfolding fetch_arr_history
  fetch_arr_history-AreEarly field since p records dated h =
      finish_history-AreEarly field (fetch_upgraded field since p.deleted) p.files
        (new_imports since [] p.imported) records
        (λ events e. new_imports-AreDated since [] p.imported events dated e) h
