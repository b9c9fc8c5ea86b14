-- ===== src/Arr/History/Files.antt =====
-- What the details of the imported files leave as it is.
use huntarr.Base.{
  ℕ, ◌≤◌, ℤ, not, ◌||◌, List, [], ◌∷◌, Option, none, some, if_rule, map, All, ◌≡◌, refl, sym, arith,
  subst,
}
use huntarr.Json.{num, is_truthy}
use huntarr.Arr.Records.{HistoryRecord, FileResponse}
use huntarr.Arr.History.{with_file, add_file}
use huntarr.Arr.History.Newest.{covers, has_item, IsSorted, AreSingle}

-- The details of a file change no item, no date and no mark.
abbrev pub IsAlike : HistoryRecord → HistoryRecord → Type 0
IsAlike r s = (r.item_id ≡ s.item_id) × (r.date ≡ s.date) × (r.is_upgrade ≡ s.is_upgrade)

add_file-IsAlike : (o : Option FileResponse) (r : HistoryRecord) → IsAlike (add_file o r) r
add_file-IsAlike none r = (refl, refl, refl)
add_file-IsAlike (some f) r = (refl, refl, refl)

module _ (files : ℤ → Option FileResponse) where
  pub with_file-IsAlike : (r : HistoryRecord) → IsAlike (with_file files r) r
  with_file-IsAlike r =
      if_rule (λ s. IsAlike s r) (not r.is_upgrade || not (is_truthy (num r.file_id))) _ _
        (λ _. (refl, refl, refl)) (λ _. add_file-IsAlike (files r.file_id) r)

  pub with_files-covers :
      (records : List HistoryRecord) (item date : ℕ)
      → covers (map (with_file files) records) item date ≡ covers records item date
  with_files-covers [] item date = refl
  with_files-covers (r ∷ records) item date =
      let (same_item, same_date, same_mark) = with_file-IsAlike r in
      rw (same_item, same_date, with_files-covers records item date) refl

  with_files-has_item :
      (records : List HistoryRecord) (item : ℕ)
      → has_item (map (with_file files) records) item ≡ has_item records item
  with_files-has_item [] item = refl
  with_files-has_item (r ∷ records) item =
      let (same_item, same_date, same_mark) = with_file-IsAlike r in
      rw (same_item, with_files-has_item records item) refl

  pub with_files-AreSingle :
      (records : List HistoryRecord) → AreSingle records → AreSingle (map (with_file files) records)
  with_files-AreSingle [] h = tt
  with_files-AreSingle (r ∷ records) h =
      let (same_item, same_date, same_mark) = with_file-IsAlike r in
      (rw (same_item, with_files-has_item records r.item_id) h.0, with_files-AreSingle records h.1)

  pub with_files-below :
      (records : List HistoryRecord) (limit : ℕ)
      → All (λ s. s.date ≤ limit) records
      → All (λ s. s.date ≤ limit) (map (with_file files) records)
  with_files-below [] limit h = tt
  with_files-below (r ∷ records) limit h =
      let (same_item, same_date, same_mark) = with_file-IsAlike r in
      (omega (arith, same_date, h.0), with_files-below records limit h.1)

  pub with_files-IsSorted :
      (records : List HistoryRecord) → IsSorted records → IsSorted (map (with_file files) records)
  with_files-IsSorted [] h = tt
  with_files-IsSorted (r ∷ records) h =
      let (same_item, same_date, same_mark) = with_file-IsAlike r in
      let below = with_files-below records r.date h.0 in
      (
        subst (λ d. All (λ s. s.date ≤ d) (map (with_file files) records)) (sym same_date) below,
        with_files-IsSorted records h.1,
      )
