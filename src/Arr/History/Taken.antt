-- ===== src/Arr/History/Taken.antt =====
-- The events that `fetchArrHistory` takes are those of the pages, one for an id, and the records are
-- theirs.
use mathlib.Core.List.{Mem, mem-cons_self, mem-cons_of_mem, mem-append_left, mem-append_right}
use huntarr.Base.{
  none-ne-some, ℕ, ℤ, String, false, not, ◌||◌, List, [], ◌∷◌, ◌++◌, Option, none, some,
  if◌then◌else◌, if_rule, ltb, contains, map, All, All-append, All-map, ◌≡◌, refl, arith, subst,
  true, Bool-cases, inl, inr, ◌==◌, ==_iff, sym, ◌∙◌, ap,
}
use huntarr.Json.{num, is_truthy}
use huntarr.Arr.Quality.{find}
use huntarr.Arr.Events.{Event, item_id, item_label, detail_path, media_cover_path}
use huntarr.Arr.Records.{HistoryRecord, DeletedFile, FileResponse}
use huntarr.Arr.History.{
  new_events, new_imports, plain_record, import_record, mark_upgrade, with_file, add_file,
}
use huntarr.Arr.History.Imports.{has_id, all_events, rest_cases, has_id-append, new_events-contains}

abbrev pub AreAmong : List Event → List Event → Type 0
AreAmong all events = All (λ e. Mem e all) events

-- No two events have one id.
abbrev pub AreDistinct : List Event → Type 0
AreDistinct [] = Unit
AreDistinct (e ∷ events) = (has_id events e.id ≡ false) × AreDistinct events

-- No event has an id of a list.
abbrev AreUnseen : List ℕ → List Event → Type 0
AreUnseen seen events = All (λ e. contains seen e.id ≡ false) events

unseen-has_id :
    (seen : List ℕ) (i : ℕ) (events : List Event)
    → AreUnseen seen events
    → contains seen i ≡ true
    → has_id events i ≡ false
unseen-has_id seen i [] h c = refl
unseen-has_id seen i (e ∷ events) h c = elim (Bool-cases (e.id == i)) [
  | inl same ↦ absurd (
      let bad : true ≡ false = sym c ∙ ap (contains seen) (sym ((==_iff e.id i).0 same)) ∙ h.0 in
      cc)
  | inr other ↦ ground (arith, other, unseen-has_id seen i events h.1 c)
]

new_events-AreUnseen :
    (since : ℕ) (seen : List ℕ) (events : List Event)
    → AreUnseen seen (new_events since seen events).1
unfolding new_events
new_events-AreUnseen since seen [] = tt
new_events-AreUnseen since seen (e ∷ events) =
    let skipped = not (ltb since e.date) || contains seen e.id in
    let later = if skipped then seen else e.id ∷ seen in
    let rest =
      All-map (λ x unseen. ground (arith, unseen)) (new_events since later events).1
        (new_events-AreUnseen since later events) in
    if_rule (AreUnseen seen) skipped _ _ (λ _. rest) (λ taken. (ground (arith, taken), rest))

new_events-AreDistinct :
    (since : ℕ) (seen : List ℕ) (events : List Event) → AreDistinct (new_events since seen events).1
unfolding new_events
new_events-AreDistinct since seen [] = tt
new_events-AreDistinct since seen (e ∷ events) =
    let skipped = not (ltb since e.date) || contains seen e.id in
    let later = if skipped then seen else e.id ∷ seen in
    let rest = new_events-AreDistinct since later events in
    if_rule AreDistinct skipped _ _ (λ _. rest)
      (λ taken.
        let listed : contains later e.id ≡ true = ground (arith, taken) in
        (
          unseen-has_id later e.id (new_events since later events).1
              (new_events-AreUnseen since later events) listed,
          rest,
        ))

own_ids : (events : List Event) → All (λ e. has_id events e.id ≡ true) events
own_ids [] = tt
own_ids (e ∷ events) =
    (ground arith, All-map (λ x own. ground (arith, own)) events (own_ids events))

append-AreDistinct :
    (xs ys : List Event)
    → AreDistinct xs
    → AreDistinct ys
    → All (λ x. has_id ys x.id ≡ false) xs
    → AreDistinct (xs ++ ys)
append-AreDistinct [] ys hx hy apart = hy
append-AreDistinct (x ∷ xs) ys hx hy apart = (
  has_id-append xs ys x.id ∙ ground (arith, hx.0, apart.0),
  append-AreDistinct xs ys hx.1 hy apart.1,
)

new_events-AreAmong :
    (since : ℕ) (seen : List ℕ) (events : List Event)
    → AreAmong events (new_events since seen events).1
unfolding new_events
new_events-AreAmong since seen [] = tt
new_events-AreAmong since seen (e ∷ events) =
    let skipped = not (ltb since e.date) || contains seen e.id in
    let rest =
      All-map (λ x m. mem-cons_of_mem e m)
        (new_events since (if skipped then seen else e.id ∷ seen) events).1
        (new_events-AreAmong since (if skipped then seen else e.id ∷ seen) events) in
    if_rule (AreAmong (e ∷ events)) skipped _ _ (λ _. rest) (λ _. (mem-cons_self, rest))

-- What holds of the events that all pages give: each is of the pages, with an id that was not seen
-- and that no other of them has.
abbrev IsTaken : List ℕ → List Event → List Event → Type 0
IsTaken seen all events = AreAmong all events × AreUnseen seen events × AreDistinct events

new_imports-IsTaken :
    (since : ℕ) (seen : List ℕ) (pages : List (Option (List Event))) (events : List Event)
    → new_imports since seen pages ≡ some events
    → IsTaken seen (all_events pages) events
unfolding new_imports
new_imports-IsTaken since seen [] events h =
    let same : [] ≡ events = cc in subst (IsTaken seen []) same (tt, tt, tt)
new_imports-IsTaken since seen (none ∷ pages) events h = absurd (none-ne-some _ h)
new_imports-IsTaken since seen (some page ∷ pages) events h =
    let (all, found) = new_events since seen page in
    rest_cases (IsTaken seen (page ++ all_events pages)) found (new_imports since all pages) events
      (λ rest e.
        let (among, unseen, distinct) = new_imports-IsTaken since all pages rest e in
        let known = new_events-contains since seen page in
        (
          All-append (λ x. Mem x (page ++ all_events pages)) found rest
              (All-map (λ x m. mem-append_left (all_events pages) m) found
                (new_events-AreAmong since seen page))
              (All-map (λ x m. mem-append_right page m) rest among),
          All-append (λ x. contains seen x.id ≡ false) found rest
              (new_events-AreUnseen since seen page)
              (All-map (λ x new. let k = known x.id in ground (arith, new, k)) rest unseen),
          append-AreDistinct found rest (new_events-AreDistinct since seen page) distinct (
              All-map
                (λ x own.
                  let k = known x.id in unseen-has_id all x.id rest unseen (ground (arith, own, k)))
                found (own_ids found)),
        ))
      h

pub new_imports-AreAmong :
    (since : ℕ) (pages : List (Option (List Event))) (events : List Event)
    → new_imports since [] pages ≡ some events
    → AreAmong (all_events pages) events × AreDistinct events
new_imports-AreAmong since pages events h =
    let (among, unseen, distinct) = new_imports-IsTaken since [] pages events h in (among, distinct)

module _ (field : String) where
  -- A record tells of an event.
  abbrev pub IsOf : Event → HistoryRecord → Type 0
  IsOf e r =
      (r.id ≡ e.id)
      × (r.item_id ≡ item_id field e)
      × (r.date ≡ e.date)
      × (r.item_label ≡ item_label e)
      × (r.release_title ≡ e.source_title)
      × (r.detail_path ≡ detail_path e)
      × (r.media_cover_path ≡ media_cover_path e)
      × (r.quality ≡ e.quality)

  abbrev pub IsOfSome : List Event → HistoryRecord → Type 0
  IsOfSome events r = (e : Event) × (Mem e events × IsOf e r)

  mark_upgrade-IsOf :
      (e : Event) (o : Option DeletedFile) → IsOf e (mark_upgrade o (plain_record field e))
  mark_upgrade-IsOf e none = (refl, refl, refl, refl, refl, refl, refl, refl)
  mark_upgrade-IsOf e (some d) = (refl, refl, refl, refl, refl, refl, refl, refl)

  add_file-IsOf :
      (e : Event) (o : Option FileResponse) (r : HistoryRecord) → IsOf e r → IsOf e (add_file o r)
  add_file-IsOf e none r h = h
  add_file-IsOf e (some f) r h = h

  with_file-IsOf :
      (files : ℤ → Option FileResponse) (e : Event) (r : HistoryRecord)
      → IsOf e r
      → IsOf e (with_file files r)
  with_file-IsOf files e r h =
      if_rule (IsOf e) (not r.is_upgrade || not (is_truthy (num r.file_id))) _ _ (λ _. h)
        (λ _. add_file-IsOf e (files r.file_id) r h)

  pub with_files-AreOfSome :
      (files : ℤ → Option FileResponse) (events : List Event) (records : List HistoryRecord)
      → All (IsOfSome events) records
      → All (IsOfSome events) (map (with_file files) records)
  with_files-AreOfSome files events [] h = tt
  with_files-AreOfSome files events (r ∷ records) h =
      let (e, (m, of_it)) = h.0 in
      ((e, (m, with_file-IsOf files e r of_it)), with_files-AreOfSome files events records h.1)

  import_records-AreOfSome :
      (upgraded : List (ℕ × DeletedFile)) (all events : List Event)
      → AreAmong all events
      → All (IsOfSome all) (map (import_record field upgraded) events)
  import_records-AreOfSome upgraded all [] h = tt
  import_records-AreOfSome upgraded all (e ∷ events) h = (
    (e, (h.0, mark_upgrade-IsOf e (find (item_id field e) upgraded))),
    import_records-AreOfSome upgraded all events h.1,
  )

  own_members : (events : List Event) → AreAmong events events
  own_members [] = tt
  own_members (e ∷ events) =
      (mem-cons_self, All-map (λ x m. mem-cons_of_mem e m) events (own_members events))

  pub import_records-AreTheirs :
      (upgraded : List (ℕ × DeletedFile)) (events : List Event)
      → All (IsOfSome events) (map (import_record field upgraded) events)
  import_records-AreTheirs upgraded events =
      import_records-AreOfSome upgraded events events (own_members events)
