-- ===== src/Dashboard/Upgrades.antt =====
-- internal/server/pages.go: the latest upgrades of the Home page, with web/templates/pages/format.go
-- for their tags. The details of an entry are those that were logged, read back as JSON, with integers
-- of less than 2^53, which a float holds. Parameters: `truncate` and `one_decimal` are the conversion
-- of a number that is no integer to an integer, and its text with one decimal, empty unless it is
-- positive.
pub mod Logged
use Prim.Native.String
use huntarr.Base.{
  ℕ, suc, ◌+◌, ◌*◌, ◌/◌, ◌%◌, String, Bool, true, false, not, ◌&&◌, ◌||◌, List, [], ◌∷◌, Option,
  none, some, if◌then◌else◌, ◌==◌, leb, str_eq, codes, decimal, lookup, is_some, ℤ, pos, negsuc,
}
use huntarr.Json.{Json, Details, num, fraction, text, signed_text}
use huntarr.Settings.Number.{atoi}
use huntarr.LogViewer.Sizes.{fixed_one}
use huntarr.LogViewer.Details.Bitrate.{double, round_even}
use huntarr.Instances.{Instance, Store}
use huntarr.Dashboard.{app_label, app_label_of, find_instance}
use huntarr.Scheduler.Cycle.{Entry}

-- `entryDetails.text`
abbrev pub text_of : Option Json → String
text_of none = ""
text_of (some (text t)) = t
text_of (some other) = ""

abbrev pub text_at : String → Details → String
text_at key d = text_of (lookup key d)

-- `trimDecimal` of a value in tenths.
abbrev pub trim_decimal : ℕ → String
trim_decimal t = if t % 10 == 0 then decimal (t / 10) else fixed_one t

-- `FormatBitrate`; the quotient by a million is the double next to it, and a tie goes to the even
-- tenth.
unfoldable pub server_bitrate : ℤ → String
unfolding double
server_bitrate (negsuc n) = ""
server_bitrate (pos n) =
    let (mantissa, scale) = double n 1000000 in
    if n == 0
    then ""
    else if leb 1000000 n
    then String.◌++◌ (trim_decimal (round_even (10 * mantissa) scale)) " Mbps"
    else String.◌++◌ (decimal ((n + 500) / 1000)) " kbps"

-- What follows the first `x` of a text.
unfoldable pub after_x : String → Option String
after_x String.[] = none
after_x (String.◌∷◌ c s) =
    let rest = after_x s in if str_eq (String.◌∷◌ c String.[]) "x" then some s else rest

-- `ResolutionLabel`
abbrev pub height_label : String → Option String → String
height_label resolution none = resolution
height_label resolution (some height) =
    if is_some (atoi (codes height)) then String.◌++◌ height "p" else resolution

unfoldable pub resolution_label : String → String
unfolding after_x atoi
resolution_label resolution = height_label resolution (after_x resolution)

-- `bitDepthLabel`
abbrev pub bit_depth_label : ℤ → String
bit_depth_label (negsuc n) = ""
bit_depth_label (pos n) = if n == 0 then "" else String.◌++◌ (decimal n) "-bit"

abbrev pub with_channels : String → String → String
with_channels codec channels =
    if str_eq codec ""
    then channels
    else if str_eq channels ""
    then codec
    else String.◌++◌ codec (String.◌++◌ " " channels)

abbrev pub not_empty : List String → List String
not_empty [] = []
not_empty (t ∷ texts) = let rest = not_empty texts in if str_eq t "" then rest else t ∷ rest

-- `strings.TrimRight(baseURL, "/")`
abbrev pub before_slashes : String → String → String
before_slashes c String.[] = if str_eq c "/" then "" else c
before_slashes c (String.◌∷◌ d s) = String.◌++◌ c (String.◌∷◌ d s)

unfoldable pub trim_slashes : String → String
trim_slashes String.[] = ""
trim_slashes (String.◌∷◌ c s) = before_slashes (String.◌∷◌ c String.[]) (trim_slashes s)

-- `HomeUpgrade`, without the time of the entry.
pub record HomeUpgrade : Type 0 where
  pub instance_name : String
  pub app_type : String
  pub item_label : String
  pub release_title : String
  pub detail_url : String
  pub poster_url : String
  pub from_quality : String
  pub to_quality : String
  pub from_size : ℤ
  pub to_size : ℤ
  pub from_score : Option ℤ
  pub to_score : Option ℤ
  pub media_tags : List String

abbrev pub first_text : String → String → String
first_text s t = if str_eq s "" then t else s

-- A text of an instance, empty if it is not known.
abbrev pub text_from : (Instance → String) → Option Instance → String
text_from f none = ""
text_from f (some inst) = f inst

abbrev pub cover_url : Option String → String → String
cover_url none cover = ""
cover_url (some id) cover =
    if str_eq cover ""
    then ""
    else String.◌++◌ "/api/instances/" (String.◌++◌ id (String.◌++◌ "/mediacover/" cover))

abbrev pub page_url : String → String → String
page_url base path =
    if str_eq path "" || str_eq base "" then "" else String.◌++◌ (trim_slashes base) path

module _ (truncate : String → ℤ) (one_decimal : String → String) where
  -- `entryDetails.integer` and `score`
  abbrev pub integer_of : Option Json → ℤ
  integer_of none = pos 0
  integer_of (some (num z)) = z
  integer_of (some (fraction t)) = truncate t
  integer_of (some other) = pos 0

  abbrev pub score_of : Option Json → Option ℤ
  score_of none = none
  score_of (some v) = some (integer_of (some v))

  -- The channels of `AudioLabel`.
  abbrev pub channels_text : Option Json → String
  channels_text none = ""
  channels_text (some (num (pos n))) = if n == 0 then "" else String.◌++◌ (decimal n) ".0"
  channels_text (some (fraction t)) = one_decimal t
  channels_text (some other) = ""

  -- `mediaTags`
  unfoldable pub media_tags : Details → List String
  unfolding resolution_label server_bitrate lookup
  media_tags d = not_empty (
      resolution_label (text_at "resolution" d)
      ∷ text_at "videoCodec" d
      ∷ text_at "videoDynamicRange" d
      ∷ bit_depth_label (integer_of (lookup "videoBitDepth" d))
      ∷ server_bitrate (integer_of (lookup "videoBitrate" d))
      ∷ with_channels (text_at "audioCodec" d) (channels_text (lookup "audioChannels" d))
      ∷ text_at "audioBitrateText" d
      ∷ text_at "audioBits" d
      ∷ text_at "audioSampleRate" d
      ∷ [])

  -- `homeUpgrade`, with the instances that are stored.
  unfoldable pub home_upgrade : Store → Entry → HomeUpgrade
  unfolding media_tags trim_slashes lookup
  home_upgrade insts e =
      let d = e.details in
      let found = find_instance insts e.instance_id in
      let base = first_text (text_at "instanceBaseURL" d) (text_from (λ i. i.base_url) found) in
      let title = text_at "releaseTitle" d in
      record {
        instance_name = first_text (text_at "instanceName" d) (text_from (λ i. i.name) found);
        app_type = app_label_of found;
        item_label = first_text (text_at "itemLabel" d) title;
        release_title = title;
        detail_url = page_url base (text_at "itemDetailPath" d);
        poster_url = cover_url e.instance_id (text_at "mediaCover" d);
        from_quality = text_at "previousQuality" d;
        to_quality = text_at "quality" d;
        from_size = integer_of (lookup "previousSize" d);
        to_size = integer_of (lookup "size" d);
        from_score = score_of (lookup "previousCustomFormatScore" d);
        to_score = score_of (lookup "customFormatScore" d);
        media_tags = media_tags d;
      }
