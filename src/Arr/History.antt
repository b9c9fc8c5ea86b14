-- ===== src/Arr/History.antt =====
-- internal/arr/history.go: the import history of an application. Times are nanoseconds. A page of the
-- history is `none` if its request is an error.
pub mod Imports
pub mod Fetched
pub mod Newest
pub mod Files
pub mod Dates
pub mod Taken
use huntarr.Base.{
  ℕ, String, Bool, true, false, not, ◌&&◌, ◌||◌, List, [], ◌∷◌, ◌++◌, Option, none, some,
  if◌then◌else◌, ◌==◌, ltb, str_eq, contains, ℤ, pos, map,
}
use huntarr.Json.{Json, num, is_truthy}
use huntarr.Arr.Quality.{find}
use huntarr.Arr.Records.{MediaInfo, HistoryRecord, FileResponse, DeletedFile}
use huntarr.Arr.Events.{
  Event, item_id, data_value, data_int, equal_fold, item_label, detail_path, media_cover_path,
}

-- The entry of a delete event, if an upgrade replaced its item after the time and the item has none.
abbrev pub deleted_file : Event → DeletedFile
deleted_file r = record {
  quality = r.quality;
  size = data_int "size" r;
  score = r.custom_format_score;
}

abbrev pub add_deleted :
    ℕ → Event → Option DeletedFile → List (ℕ × DeletedFile) → List (ℕ × DeletedFile)
add_deleted item r (some d) upgraded = upgraded
add_deleted item r none upgraded = (item, deleted_file r) ∷ upgraded

-- The loop over the delete events.
unfoldable pub upgraded_items :
    String → ℕ → List Event → List (ℕ × DeletedFile) → List (ℕ × DeletedFile)
unfolding data_int find
upgraded_items field since [] upgraded = upgraded
upgraded_items field since (r ∷ events) upgraded =
    let item = item_id field r in
    let added = add_deleted item r (find item upgraded) upgraded in
    let skipped =
      not (equal_fold (data_value "reason" r.fields) "upgrade") || not (ltb since r.date) in
    upgraded_items field since events (if skipped then upgraded else added)

-- The request for delete events; an error leaves no item upgraded.
abbrev pub fetch_upgraded : String → ℕ → Option (List Event) → List (ℕ × DeletedFile)
fetch_upgraded field since none = []
fetch_upgraded field since (some events) = upgraded_items field since events []

-- Marking a record as an upgrade.
abbrev pub mark_upgrade : Option DeletedFile → HistoryRecord → HistoryRecord
mark_upgrade none rec = rec
mark_upgrade (some d) rec = record rec {
  is_upgrade = true;
  previous_quality = d.quality;
  previous_size = d.size;
  previous_custom_format_score = d.score;
}

-- The record of an import event.
abbrev pub plain_record : String → Event → HistoryRecord
plain_record field r = record {
  id = r.id;
  item_id = item_id field r;
  date = r.date;
  item_label = item_label r;
  release_title = r.source_title;
  detail_path = detail_path r;
  media_cover_path = media_cover_path r;
  is_upgrade = false;
  quality = r.quality;
  previous_quality = "";
  size = data_int "size" r;
  previous_size = pos 0;
  custom_format_score = r.custom_format_score;
  previous_custom_format_score = none;
  release_group = data_value "releaseGroup" r.fields;
  file_id = data_int "fileId" r;
  media_info = none;
}

abbrev pub import_record : String → List (ℕ × DeletedFile) → Event → HistoryRecord
import_record field upgraded r =
    mark_upgrade (find (item_id field r) upgraded) (plain_record field r)

-- The import events of a page: those after the time whose ids are new. The ids that were seen go on
-- to the next page.
unfoldable pub new_events : ℕ → List ℕ → List Event → List ℕ × List Event
new_events since seen [] = (seen, [])
new_events since seen (r ∷ events) =
    let skipped = not (ltb since r.date) || contains seen r.id in
    let (all, rest) = new_events since (if skipped then seen else r.id ∷ seen) events in
    (all, if skipped then rest else r ∷ rest)

-- The pages of the types of import events.
unfoldable pub new_imports : ℕ → List ℕ → List (Option (List Event)) → Option (List Event)
unfolding new_events
new_imports since seen [] = some []
new_imports since seen (none ∷ pages) = none
new_imports since seen (some events ∷ pages) =
    let (all, found) = new_events since seen events in
    elim (new_imports since all pages) [ none ↦ none | some rest ↦ some (found ++ rest) ]

-- `slices.SortFunc`: by date, then by id, both descending.
abbrev pub is_newer : HistoryRecord → HistoryRecord → Bool
is_newer a b = ltb b.date a.date || ((a.date == b.date) && ltb b.id a.id)

unfoldable pub insert_record : HistoryRecord → List HistoryRecord → List HistoryRecord
insert_record a [] = a ∷ []
insert_record a (b ∷ rest) =
    let later = insert_record a rest in if is_newer b a then b ∷ later else a ∷ b ∷ rest

unfoldable pub sort_records : List HistoryRecord → List HistoryRecord
unfolding insert_record
sort_records [] = []
sort_records (a ∷ records) = insert_record a (sort_records records)

-- `newestPerItem`
unfoldable pub newest_per_item : List ℕ → List HistoryRecord → List HistoryRecord
newest_per_item seen [] = []
newest_per_item seen (r ∷ records) =
    let is_item = not (r.item_id == 0) in
    let dropped = is_item && contains seen r.item_id in
    let rest = newest_per_item (if is_item then r.item_id ∷ seen else seen) records in
    if dropped then rest else r ∷ rest

-- `mediaInfo`: a record with nothing in it counts as none.
abbrev pub has_info : MediaInfo → Bool
has_info m =
    not (str_eq m.resolution "")
    || not (str_eq m.video_codec "")
    || is_truthy (num m.video_bit_depth)
    || is_truthy (num m.video_bitrate)
    || not (str_eq m.video_dynamic_range_type "")
    || not (str_eq m.audio_codec "")
    || is_truthy m.audio_channels
    || is_truthy (num m.audio_bitrate)
    || not (str_eq m.audio_bitrate_text "")
    || not (str_eq m.audio_bits "")
    || not (str_eq m.audio_sample_rate "")
    || not (str_eq m.run_time "")

abbrev pub media_info : Option MediaInfo → Option MediaInfo
media_info none = none
media_info (some m) = if has_info m then some m else none

abbrev pub score_or : Option ℤ → Option ℤ → Option ℤ
score_or none other = other
score_or (some score) other = some score

-- What the details of the imported file add; `none` if they cannot be read.
abbrev pub add_file : Option FileResponse → HistoryRecord → HistoryRecord
add_file none rec = rec
add_file (some f) rec = record rec {
  media_info = media_info f.media_info;
  size = if is_truthy (num rec.size) then rec.size else f.size;
  custom_format_score = score_or rec.custom_format_score f.custom_format_score;
  release_group = if str_eq rec.release_group "" then f.release_group else rec.release_group;
}

-- The replies of `fetchFile` by the id of the file; after the end of the context there is none.
abbrev pub with_file : (ℤ → Option FileResponse) → HistoryRecord → HistoryRecord
with_file files rec =
    if not rec.is_upgrade || not (is_truthy (num rec.file_id))
    then rec
    else add_file (files rec.file_id) rec

abbrev pub newest_records : List HistoryRecord → List HistoryRecord
newest_records records = newest_per_item [] (sort_records records)

-- What the application is asked, and answers: the page of delete events, the pages of import events
-- and the files.
pub record Pages : Type 0 where
  pub deleted : Option (List Event)
  pub imported : List (Option (List Event))
  pub files : ℤ → Option FileResponse

abbrev pub finish_history :
    String
    → List (ℕ × DeletedFile)
    → (ℤ → Option FileResponse)
    → Option (List Event)
    → Option (List HistoryRecord)
finish_history field upgraded files none = none
finish_history field upgraded files (some events) =
    some (map (with_file files) (newest_records (map (import_record field upgraded) events)))

-- `fetchArrHistory`, for the field of the item's id.
unfoldable pub fetch_arr_history : String → ℕ → Pages → Option (List HistoryRecord)
unfolding new_imports sort_records newest_per_item upgraded_items
fetch_arr_history field since p =
    finish_history field (fetch_upgraded field since p.deleted) p.files
      (new_imports since [] p.imported)
