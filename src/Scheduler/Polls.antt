-- ===== src/Scheduler/Polls.antt =====
-- internal/scheduler/scheduler.go: `pollUpgradeHistory`, with internal/arr/pollstate_sqlite.go for the
-- times of the polls. Times are nanoseconds since a full hour of the past, more than a day ago, and 0
-- is the zero time.
pub mod Apart
use Prim.Native.String
use huntarr.Base.{
  ℕ, ◌+◌, ◌-◌, ◌*◌, String, Bool, true, false, not, List, [], ◌∷◌, ◌++◌, Option, none, some,
  if◌then◌else◌, ◌==◌, ltb, str_eq, lookup, insert, ℤ,
}
use huntarr.Json.{Json, Details, num, text, is_truthy}
use huntarr.Settings.Values.{minute, hour}
use huntarr.Arr.Records.{HistoryRecord, MediaInfo}
use huntarr.Arr.History.{Pages, fetch_arr_history}
use huntarr.Scheduler.Cycle.{Instance, World, Entry, entry, log_activity}

-- `historyPollInterval` and `firstPollLookback`
abbrev pub history_poll_interval : ℕ
history_poll_interval = 5 * minute

abbrev pub first_poll_lookback : ℕ
first_poll_lookback = 24 * hour

-- `putString`, `putInt` and `putScore`: the value that is put under a key, if there is one.
abbrev pub put_string : String → Option Json
put_string value = if str_eq value "" then none else some (text value)

abbrev pub put_number : Json → Option Json
put_number value = if is_truthy value then some value else none

abbrev pub put_score : Option ℤ → Option Json
put_score none = none
put_score (some score) = some (num score)

-- What is put of an upgrade, and of media info.
abbrev pub put_if : Bool → Option Json → Option Json
put_if b o = if b then o else none

abbrev pub put_media : (MediaInfo → Option Json) → Option MediaInfo → Option Json
put_media put none = none
put_media put (some m) = put m

unfoldable pub present : List (String × Option Json) → Details
present [] = []
present ((key, none) ∷ parts) = present parts
present ((key, some value) ∷ parts) = (key, value) ∷ present parts

abbrev pub media_parts : Option MediaInfo → List (String × Option Json)
media_parts o =
    ("resolution", put_media (λ m. put_string m.resolution) o)
    ∷ ("videoCodec", put_media (λ m. put_string m.video_codec) o)
    ∷ ("videoBitDepth", put_media (λ m. put_number (num m.video_bit_depth)) o)
    ∷ ("videoBitrate", put_media (λ m. put_number (num m.video_bitrate)) o)
    ∷ ("videoDynamicRange", put_media (λ m. put_string m.video_dynamic_range_type) o)
    ∷ ("audioCodec", put_media (λ m. put_string m.audio_codec) o)
    ∷ ("audioChannels", put_media (λ m. put_number m.audio_channels) o)
    ∷ ("audioBitrate", put_media (λ m. put_number (num m.audio_bitrate)) o)
    ∷ ("audioBitrateText", put_media (λ m. put_string m.audio_bitrate_text) o)
    ∷ ("audioBits", put_media (λ m. put_string m.audio_bits) o)
    ∷ ("audioSampleRate", put_media (λ m. put_string m.audio_sample_rate) o)
    ∷ ("runTime", put_media (λ m. put_string m.run_time) o)
    ∷ []

abbrev pub history_parts : Instance → HistoryRecord → List (String × Option Json)
history_parts inst r =
    ("instanceName", some (text inst.name))
    ∷ ("instanceBaseURL", some (text inst.base_url))
    ∷ ("itemLabel", some (text r.item_label))
    ∷ ("itemDetailPath", some (text r.detail_path))
    ∷ ("quality", some (text r.quality))
    ∷ ("releaseTitle", put_string r.release_title)
    ∷ ("releaseGroup", put_string r.release_group)
    ∷ ("mediaCover", put_string r.media_cover_path)
    ∷ ("size", put_number (num r.size))
    ∷ ("customFormatScore", put_score r.custom_format_score)
    ∷ ("previousQuality", put_if r.is_upgrade (put_string r.previous_quality))
    ∷ ("previousSize", put_if r.is_upgrade (put_number (num r.previous_size)))
    ∷ ("previousCustomFormatScore", put_if r.is_upgrade (put_score r.previous_custom_format_score))
    ∷ media_parts r.media_info

-- `historyDetails`
unfoldable pub history_details : Instance → HistoryRecord → Details
unfolding present
history_details inst r = present (history_parts inst r)

-- The entry of a record.
abbrev pub history_entry : Instance → HistoryRecord → Entry
history_entry inst r =
    entry inst.id "info" (if r.is_upgrade then "upgrade_detected" else "download_detected")
      (String.◌++◌ (if r.is_upgrade then "quality upgrade" else "new download")
        (String.◌++◌ " detected: " r.item_label))
      (history_details inst r)

unfoldable pub log_history : Instance → List HistoryRecord → World → World
unfolding history_details
log_history inst [] w = w
log_history inst (r ∷ records) w = log_history inst records (log_activity (history_entry inst r) w)

-- What a poll of an instance is told: whether the context is cancelled, whether the time of the last
-- poll can be read, the time of its first poll, the field of the item's id, the pages of the
-- application or `none` if it cannot be asked, whether the time can be stored, and that time.
pub record PollReplies : Type 0 where
  pub cancelled : Bool
  pub read_ok : Bool
  pub first_time : ℕ
  pub field : String
  pub pages : Option Pages
  pub record_ok : Bool
  pub poll_time : ℕ

-- `since`, for the time that `LastPolled` gives.
abbrev pub since_or_lookback : ℕ → Option ℕ → ℕ
since_or_lookback first none = first - first_poll_lookback
since_or_lookback first (some t) = if t == 0 then first - first_poll_lookback else t

abbrev pub history_of : String → ℕ → Option Pages → Option (List HistoryRecord)
history_of field since none = none
history_of field since (some p) = fetch_arr_history field since p

-- From the records on.
abbrev pub finish_poll :
    Instance
    → PollReplies
    → Option (List HistoryRecord)
    → List (String × ℕ)
    → World
    → List (String × ℕ) × World
finish_poll inst r none polled w = (polled, w)
finish_poll inst r (some records) polled w =
    (if r.record_ok then insert inst.id r.poll_time polled else polled, log_history inst records w)

-- The records that `pollInstanceHistory` reads.
unfoldable pub polled_history :
    Instance → PollReplies → List (String × ℕ) → Option (List HistoryRecord)
unfolding fetch_arr_history lookup
polled_history inst r polled =
    if r.read_ok
    then history_of r.field (since_or_lookback r.first_time (lookup inst.id polled)) r.pages
    else none

unfoldable pub poll_instance_history :
    Instance → PollReplies → List (String × ℕ) → World → List (String × ℕ) × World
unfolding polled_history log_history insert
poll_instance_history inst r polled w = finish_poll inst r (polled_history inst r polled) polled w

-- The loop over the instances, with the replies for each.
unfoldable pub poll_instances :
    (String → PollReplies) → List Instance → List (String × ℕ) → World → List (String × ℕ) × World
unfolding poll_instance_history
poll_instances replies [] polled w = (polled, w)
poll_instances replies (inst ∷ insts) polled w =
    if (replies inst.id).cancelled
    then (polled, w)
    else let (polled', w') = poll_instance_history inst (replies inst.id) polled w in
      poll_instances replies insts polled' w'
