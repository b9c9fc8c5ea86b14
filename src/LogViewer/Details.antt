-- ===== src/LogViewer/Details.antt =====
-- web/static/js/logs.js: how the Logs page shows the details of an entry. `Details` have distinct
-- keys, none of which every JavaScript object has, and are listed in the order of `Object.entries`;
-- an entry without details has `none`. An exception is `none`.
pub mod Bitrate
pub mod Logged
use Prim.Native.String
use huntarr.Base.{
  is_some, ℕ, String, Bool, true, false, not, List, [], ◌∷◌, Option, none, some, if◌then◌else◌,
  ◌||◌, str_eq, lookup, ℤ, pos, negsuc, map,
}
use huntarr.Json.{
  Json, Elements, Members, Details, null, bool, num, fraction, text, array, object, no_elements,
  element, string_of, is_truthy, member_of, or_empty,
}
use huntarr.LogViewer.Sizes.{format_bytes}
use huntarr.LogViewer.Details.Bitrate.{format_bitrate}

pub record Link : Type 0 where
  pub label : Json
  pub url : String

-- `entry.details?.key`
unfoldable pub detail : Option Details → String → Option Json
unfolding lookup
detail none key = none
detail (some details) key = lookup key details

-- `String(entry.details[key])`, unless that is missing or `null`.
abbrev pub text_or : String → Option Json → String
text_or fallback none = fallback
text_or fallback (some null) = fallback
text_or fallback (some v) = string_of v

unfoldable pub detail_field : Option Details → String → String → String
unfolding detail string_of
detail_field details key fallback = text_or fallback (detail details key)

-- A base address and a path, put together if there are both. They are not both numbers, which would
-- be added.
abbrev pub join_url : Json → Json → String
join_url base path =
    if is_truthy base
    then if is_truthy path then String.◌++◌ (string_of base) (string_of path) else ""
    else ""

-- `item.detailPath` and `base` in `searchedItemLinks`, where the path is only tested.
abbrev pub member_url : Json → Option Json → String
member_url base none = ""
member_url base (some path) = join_url base path

unfoldable pub searched_item_link : Json → Json → Link
unfolding string_of
searched_item_link base (object ms) = record {
  label = or_empty (member_of "label" ms);
  url = member_url base (member_of "detailPath" ms);
}
searched_item_link base (array es) = record { label = text ""; url = "" }
searched_item_link base null = record { label = text "null"; url = "" }
searched_item_link base (bool b) = record { label = text (string_of (bool b)); url = "" }
searched_item_link base (num z) = record { label = text (string_of (num z)); url = "" }
searched_item_link base (fraction t) = record { label = text t; url = "" }
searched_item_link base (text t) = record { label = text t; url = "" }

unfoldable pub links_of : Json → Elements → List Link
unfolding searched_item_link
links_of base no_elements = []
links_of base (element v es) = searched_item_link base v ∷ links_of base es

-- `searchedItemLinks` by the value of `searchedItems`: only an array has `map`, and what has no
-- length is left out before that.
unfoldable pub links_with : Json → Option Json → Option (List Link)
unfolding links_of
links_with base none = some []
links_with base (some null) = some []
links_with base (some (bool b)) = some []
links_with base (some (num z)) = some []
links_with base (some (fraction t)) = some []
links_with base (some (text t)) = if str_eq t "" then some [] else none
links_with base (some (array es)) = some (links_of base es)
links_with base (some (object ms)) =
    if is_truthy (or_empty (member_of "length" ms)) then none else some []

unfoldable pub searched_item_links : Option Details → Option (List Link)
unfolding links_with detail
searched_item_links details =
    links_with (or_empty (detail details "instanceBaseURL")) (detail details "searchedItems")

unfoldable pub item_link : Option Details → Option Link
unfolding detail string_of
item_link details =
    let label = or_empty (detail details "itemLabel") in
    let base = or_empty (detail details "instanceBaseURL") in
    let path = or_empty (detail details "itemDetailPath") in
    if is_truthy label then some (record { label = label; url = join_url base path }) else none

abbrev pub skip : List String
skip =
    "searchedItems" ∷ "instanceName" ∷ "instanceBaseURL" ∷ "searched" ∷ "skipped" ∷ "upgradeableAll"
    ∷ "itemLabel" ∷ "itemDetailPath" ∷ "mediaCover" ∷ []

abbrev pub labels : List (String × String)
labels =
    ("candidateTotal", "Candidates")
    ∷ ("coolingDown", "Cooling Down")
    ∷ ("libraryTotal", "Library Size")
    ∷ ("missingAll", "Missing")
    ∷ ("noFile", "No File")
    ∷ ("noProfile", "No Profile")
    ∷ ("unmonitored", "Unmonitored")
    ∷ ("upgradeBlocked", "Upgrade Blocked")
    ∷ ("unknownQuality", "Unknown Quality")
    ∷ ("atOrAbove", "At or Above Cutoff")
    ∷ ("searchMissing", "Search Missing")
    ∷ ("totalItems", "Total Items")
    ∷ ("windowStart", "Window Start")
    ∷ ("windowEnd", "Window End")
    ∷ ("quality", "Quality")
    ∷ ("previousQuality", "Previous Quality")
    ∷ ("size", "Size")
    ∷ ("previousSize", "Previous Size")
    ∷ ("customFormatScore", "Custom Format Score")
    ∷ ("previousCustomFormatScore", "Previous Custom Format Score")
    ∷ ("releaseTitle", "Release")
    ∷ ("releaseGroup", "Release Group")
    ∷ ("resolution", "Resolution")
    ∷ ("videoCodec", "Video Codec")
    ∷ ("videoBitDepth", "Video Bit Depth")
    ∷ ("videoBitrate", "Video Bitrate")
    ∷ ("videoDynamicRange", "Dynamic Range")
    ∷ ("audioCodec", "Audio Codec")
    ∷ ("audioChannels", "Audio Channels")
    ∷ ("audioBitrate", "Audio Bitrate")
    ∷ ("audioBitrateText", "Audio Bitrate")
    ∷ ("audioBits", "Audio Bits")
    ∷ ("audioSampleRate", "Audio Sample Rate")
    ∷ ("runTime", "Runtime")
    ∷ ("error", "Error")
    ∷ []

abbrev pub has_name : String → List String → Bool
has_name name [] = false
has_name name (n ∷ ns) = str_eq n name || has_name name ns

abbrev pub label_of : String → Option String → String
label_of key none = key
label_of key (some label) = label

-- A formatter of whole numbers, on a value by its `Number(value)`. `other` is its result on a text,
-- an array or a fraction, whose conversion is not modelled.
abbrev pub format_number : (ℕ → String) → (Json → String) → Json → String
format_number format other (num (pos n)) = format n
format_number format other (bool true) = format 1
format_number format other (fraction t) = other (fraction t)
format_number format other (text t) = other (text t)
format_number format other (array es) = other (array es)
format_number format other v = string_of v

abbrev pub is_empty {ℓ} : {A : Type ℓ} → List A → Bool
is_empty [] = true
is_empty (x ∷ xs) = false

-- `bytes` and `bitrate` are the results of `formatBytes` and `formatBitrate` that are not modelled.
module _ (bytes bitrate : Json → String) where
  abbrev pub format_value : String → Json → String
  format_value key v =
      if str_eq key "size" || str_eq key "previousSize"
      then format_number format_bytes bytes v
      else if str_eq key "videoBitrate" || str_eq key "audioBitrate"
      then format_number format_bitrate bitrate v
      else string_of v

  unfoldable pub format_pairs : Details → List (String × String)
  unfolding lookup string_of format_bytes format_bitrate
  format_pairs [] = []
  format_pairs ((key, v) ∷ details) =
      let rest = format_pairs details in
      if has_name key skip
      then rest
      else (label_of key (lookup key labels), format_value key v) ∷ rest

  unfoldable pub format_details : Option Details → List (String × String)
  unfolding format_pairs
  format_details none = []
  format_details (some details) = format_pairs details

  abbrev pub or_shown : Option (List Link) → List (String × String) → Option Bool
  or_shown none pairs = none
  or_shown (some links) pairs = some (not (is_empty links) || not (is_empty pairs))

  unfoldable pub has_details : Option Details → Option Bool
  unfolding item_link searched_item_links format_details
  has_details details =
      if is_some (item_link details)
      then some true
      else or_shown (searched_item_links details) (format_details details)

unfoldable pub level_class : String → String
level_class level =
    if str_eq level "debug"
    then "bg-brand-700 text-gray-300"
    else if str_eq level "info"
    then "bg-accent-600/20 text-accent-500"
    else if str_eq level "warn"
    then "bg-yellow-900 text-yellow-300"
    else if str_eq level "error"
    then "bg-red-900 text-red-300"
    else "bg-brand-700 text-gray-300"
