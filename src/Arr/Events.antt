-- ===== src/Arr/Events.antt =====
-- internal/arr/history.go: a record of an application's history, and what is read from it. Ids, years
-- and numbers of seasons and episodes are not negative; times are nanoseconds. A map is the list of
-- its entries in the order of the iteration.
use Prim.Native.String
use huntarr.Base.{
  ℕ, ◌+◌, String, Bool, true, false, ◌&&◌, ◌||◌, List, [], ◌∷◌, Option, none, some, if◌then◌else◌,
  ◌==◌, ltb, str_eq, codes, decimal, trim_space, ℤ, pos,
}
use huntarr.Settings.Number.{atoi}

-- `historyEntityRef` and `historyEpisodeRef`
pub record Entity : Type 0 where
  pub id : ℕ
  pub title_slug : String
  pub title : String
  pub year : ℕ
  pub artist_name : String
  pub images : List String

pub record Episode : Type 0 where
  pub season_number : ℕ
  pub episode_number : ℕ

-- `historyRecordResponse`, with `quality` for the name in its two nested objects and `fields` for its
-- data.
pub record Event : Type 0 where
  pub id : ℕ
  pub date : ℕ
  pub fields : List (String × String)
  pub source_title : String
  pub quality : String
  pub custom_format_score : Option ℤ
  pub episode_id : ℕ
  pub movie_id : ℕ
  pub album_id : ℕ
  pub movie : Option Entity
  pub series : Option Entity
  pub episode : Option Episode
  pub artist : Option Entity
  pub album : Option Entity

-- The lower-case letter that folds to a character, for letters of ASCII.
abbrev pub fold : ℕ → ℕ
fold c =
    if ltb 64 c && ltb c 91
    then c + 32
    else if c == 383
    then b's'
    else if c == 8490
    then b'k'
    else c

abbrev pub equal_codes : List ℕ → List ℕ → Bool
equal_codes [] [] = true
equal_codes [] (d ∷ ds) = false
equal_codes (c ∷ cs) [] = false
equal_codes (c ∷ cs) (d ∷ ds) = (fold c == fold d) && equal_codes cs ds

-- `strings.EqualFold` of a text and one of ASCII.
abbrev pub equal_fold : String → String → Bool
equal_fold s t = equal_codes (codes s) (codes t)

-- `itemID`
abbrev pub item_id : String → Event → ℕ
item_id field r =
    if str_eq field "episodeId"
    then r.episode_id
    else if str_eq field "movieId"
    then r.movie_id
    else if str_eq field "albumId"
    then r.album_id
    else 0

-- `dataValue`, and `dataInt64` and `dataInt`, which read the same numbers.
abbrev pub data_value : String → List (String × String) → String
data_value key [] = ""
data_value key ((k, v) ∷ fields) =
    let rest = data_value key fields in if equal_fold k key then v else rest

abbrev pub number_or_zero : Option ℤ → ℤ
number_or_zero none = pos 0
number_or_zero (some n) = n

unfoldable pub data_int : String → Event → ℤ
unfolding trim_space atoi
data_int key r = number_or_zero (atoi (codes (trim_space (data_value key r.fields))))

abbrev pub joined : List String → String
joined [] = ""
joined (s ∷ texts) = String.◌++◌ s (joined texts)

-- `%02d`
abbrev pub two_digits : ℕ → String
two_digits n = if ltb n 10 then joined ("0" ∷ decimal n ∷ []) else decimal n

-- `detailPath`: the path of the first entity with a slug.
abbrev pub slug_path : String → Option Entity → String → String
slug_path prefix none rest = rest
slug_path prefix (some e) rest =
    if str_eq e.title_slug "" then rest else String.◌++◌ prefix e.title_slug

unfoldable pub detail_path : Event → String
detail_path r =
    slug_path "/movie/" r.movie (slug_path "/series/" r.series (slug_path "/artist/" r.artist ""))

-- `itemLabel`, a case each.
abbrev pub movie_label : Option Entity → String → String
movie_label none rest = rest
movie_label (some m) rest =
    if str_eq m.title ""
    then rest
    else if m.year == 0
    then m.title
    else joined (m.title ∷ " (" ∷ decimal m.year ∷ ")" ∷ [])

abbrev pub episode_label : String → Option Episode → String
episode_label title none = title
episode_label title (some e) =
    if e.season_number == 0 && e.episode_number == 0
    then title
    else joined (title ∷ " S" ∷ two_digits e.season_number ∷ "E" ∷ two_digits e.episode_number ∷ [])

abbrev pub series_label : Option Entity → Option Episode → String → String
series_label none episode rest = rest
series_label (some s) episode rest =
    if str_eq s.title "" then rest else episode_label s.title episode

abbrev pub artist_label : Option Entity → String → String
artist_label none rest = rest
artist_label (some a) rest = if str_eq a.artist_name "" then rest else a.artist_name

abbrev pub with_artist : Option Entity → String → String
with_artist none title = title
with_artist (some a) title =
    if str_eq a.artist_name "" then title else joined (a.artist_name ∷ " - " ∷ title ∷ [])

abbrev pub album_label : Option Entity → Option Entity → String → String
album_label none artist rest = rest
album_label (some a) artist rest = if str_eq a.title "" then rest else with_artist artist a.title

unfoldable pub item_label : Event → String
item_label r = movie_label r.movie (
    series_label r.series r.episode
      (album_label r.album r.artist (artist_label r.artist r.source_title)))

-- `hasImage`
abbrev pub any_image : String → List String → Bool
any_image type [] = false
any_image type (i ∷ images) = equal_fold i type || any_image type images

-- `mediaCoverPath`, a case each.
abbrev pub cover_path : String → String → Option Entity → String → String
cover_path prefix type none rest = rest
cover_path prefix type (some e) rest =
    if any_image type e.images
    then joined (prefix ∷ decimal e.id ∷ "/" ∷ type ∷ "-250.jpg" ∷ [])
    else rest

unfoldable pub media_cover_path : Event → String
media_cover_path r = cover_path "" "poster" r.movie (
    cover_path "" "poster" r.series
      (cover_path "album/" "cover" r.album (cover_path "artist/" "poster" r.artist "")))
