-- ===== src/Arr/Records.antt =====
-- internal/arr/history.go and arr.go: a record of an import, as the scheduler reads it, and what is
-- read for it of files and of deleted files. Times are nanoseconds.
use huntarr.Base.{ℕ, ℤ, String, Bool, Option}
use huntarr.Json.{Json}

-- internal/arr/arr.go: `MediaInfo`; the number of channels, a float, is the JSON number.
pub record MediaInfo : Type 0 where
  pub resolution : String
  pub video_codec : String
  pub video_bit_depth : ℤ
  pub video_bitrate : ℤ
  pub video_dynamic_range_type : String
  pub audio_codec : String
  pub audio_channels : Json
  pub audio_bitrate : ℤ
  pub audio_bitrate_text : String
  pub audio_bits : String
  pub audio_sample_rate : String
  pub run_time : String

pub record HistoryRecord : Type 0 where
  pub id : ℕ
  pub item_id : ℕ
  pub date : ℕ
  pub item_label : String
  pub release_title : String
  pub detail_path : String
  pub media_cover_path : String
  pub is_upgrade : Bool
  pub quality : String
  pub previous_quality : String
  pub size : ℤ
  pub previous_size : ℤ
  pub custom_format_score : Option ℤ
  pub previous_custom_format_score : Option ℤ
  pub release_group : String
  pub file_id : ℤ
  pub media_info : Option MediaInfo

-- `fileResponse`
pub record FileResponse : Type 0 where
  pub size : ℤ
  pub release_group : String
  pub custom_format_score : Option ℤ
  pub media_info : Option MediaInfo

-- `deletedFile`
pub record DeletedFile : Type 0 where
  pub quality : String
  pub size : ℤ
  pub score : Option ℤ
