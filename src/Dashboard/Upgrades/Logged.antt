-- ===== src/Dashboard/Upgrades/Logged.antt =====
-- The upgrades that the scheduler's polls log, as the Home page shows them.
use Prim.Native.String
use huntarr.Base.{
  String, Bool, true, false, not, List, [], ◌∷◌, Option, none, some, if◌then◌else◌, if_rule, ◌==◌,
  str_eq, str_eq→eq, lookup, ℤ, pos, negsuc, ◌≡◌, refl, sym, ◌∙◌, ap, Bool-cases, decimal, inl, inr,
  ==_iff,
}
use huntarr.Json.{Json, null, bool, num, fraction, text, array, object}
use huntarr.Arr.Records.{HistoryRecord, MediaInfo}
use huntarr.Scheduler.Cycle.{Instance}
use huntarr.Scheduler.Polls.{
  put_string, put_number, put_score, put_media, present, history_parts, history_details,
  history_entry,
}
use huntarr.Instances.{Store}
use huntarr.Dashboard.{app_label_of, find_instance}
use huntarr.Dashboard.Upgrades.{
  text_of, text_at, integer_of, score_of, first_text, text_from, cover_url, page_url, media_tags,
  channels_text, not_empty, resolution_label, bit_depth_label, server_bitrate, with_channels,
  HomeUpgrade, home_upgrade,
}

abbrev or_else : Option Json → Option Json → Option Json
or_else none other = other
or_else (some v) other = some v

-- The value of a key among the parts.
abbrev pick : String → List (String × Option Json) → Option Json
pick key [] = none
pick key ((name, o) ∷ parts) =
    if str_eq name key then or_else o (pick key parts) else pick key parts

lookup-present :
    (key : String) (parts : List (String × Option Json))
    → lookup key (present parts) ≡ pick key parts
unfolding lookup present
lookup-present key [] = refl
lookup-present key ((name, none) ∷ parts) =
    if_rule (λ o. lookup key (present parts) ≡ o) (str_eq name key) _ _
      (λ _. lookup-present key parts) (λ _. lookup-present key parts)
lookup-present key ((name, some v) ∷ parts) =
    ap (λ o. if str_eq name key then some v else o) (lookup-present key parts)

put_string-text_of : (v : String) → text_of (or_else (put_string v) none) ≡ v
put_string-text_of v =
    if_rule (λ o. text_of (or_else o none) ≡ v) (str_eq v "") none (some (text v))
      (λ blank. sym (str_eq→eq v "" blank)) (λ _. refl)

-- A text and a number of media info, if there is any.
abbrev info_text : (MediaInfo → String) → Option MediaInfo → String
info_text f none = ""
info_text f (some m) = f m

abbrev info_integer : (MediaInfo → ℤ) → Option MediaInfo → ℤ
info_integer f none = pos 0
info_integer f (some m) = f m

module _ (truncate : String → ℤ) (one_decimal : String → String) where
  abbrev info_channels : Option MediaInfo → String
  info_channels none = ""
  info_channels (some m) = channels_text truncate one_decimal (some m.audio_channels)

  -- The tags of media info.
  abbrev info_tags : Option MediaInfo → List String
  info_tags o = not_empty (
      resolution_label (info_text (λ m. m.resolution) o)
      ∷ info_text (λ m. m.video_codec) o
      ∷ info_text (λ m. m.video_dynamic_range_type) o
      ∷ bit_depth_label (info_integer (λ m. m.video_bit_depth) o)
      ∷ server_bitrate (info_integer (λ m. m.video_bitrate) o)
      ∷ with_channels (info_text (λ m. m.audio_codec) o) (info_channels o)
      ∷ info_text (λ m. m.audio_bitrate_text) o
      ∷ info_text (λ m. m.audio_bits) o
      ∷ info_text (λ m. m.audio_sample_rate) o
      ∷ [])

  abbrev pub shown_upgrade : Store → Instance → HistoryRecord → HomeUpgrade
  shown_upgrade insts inst r = record {
    instance_name =
        first_text inst.name (text_from (λ i. i.name) (find_instance insts (some inst.id)));
    app_type = app_label_of (find_instance insts (some inst.id));
    item_label = first_text r.item_label r.release_title;
    release_title = r.release_title;
    detail_url =
        page_url
          (first_text inst.base_url
            (text_from (λ i. i.base_url) (find_instance insts (some inst.id))))
          r.detail_path;
    poster_url = cover_url (some inst.id) r.media_cover_path;
    from_quality = r.previous_quality;
    to_quality = r.quality;
    from_size = r.previous_size;
    to_size = r.size;
    from_score = r.previous_custom_format_score;
    to_score = r.custom_format_score;
    media_tags = info_tags r.media_info;
  }

module _ (truncate : String → ℤ) (one_decimal : String → String) where
  put_number-integer_of :
      (z : ℤ) → integer_of truncate one_decimal (or_else (put_number (num z)) none) ≡ z
  put_number-integer_of (negsuc n) = refl
  put_number-integer_of (pos n) = elim (Bool-cases (n == 0)) [
    | inl zero_size ↦ rw (zero_size, (==_iff n 0).0 zero_size) refl
    | inr other ↦ rw other refl
  ]

  put_score-score_of :
      (o : Option ℤ) → score_of truncate one_decimal (or_else (put_score o) none) ≡ o
  put_score-score_of none = refl
  put_score-score_of (some z) = refl

  text_at-history_details :
      (inst : Instance) (r : HistoryRecord) (key : String)
      → text_at key (history_details inst r) ≡ text_of (pick key (history_parts inst r))
  unfolding history_details
  text_at-history_details inst r key = ap text_of (lookup-present key (history_parts inst r))

  lookup-history_details :
      (inst : Instance) (r : HistoryRecord) (key : String)
      → lookup key (history_details inst r) ≡ pick key (history_parts inst r)
  unfolding history_details
  lookup-history_details inst r key = lookup-present key (history_parts inst r)

  -- A text and a number of the media info, as the tags read them.
  media_text :
      (o : Option MediaInfo) (f : MediaInfo → String)
      → text_of (or_else (put_media (λ m. put_string (f m)) o) none) ≡ info_text f o
  media_text none f = refl
  media_text (some m) f = put_string-text_of (f m)

  media_integer :
      (o : Option MediaInfo) (f : MediaInfo → ℤ)
      → integer_of truncate one_decimal (or_else (put_media (λ m. put_number (num (f m))) o) none)
        ≡ info_integer f o
  media_integer none f = refl
  media_integer (some m) f = put_number-integer_of (f m)

  put_number-channels_text :
      (v : Json)
      → channels_text truncate one_decimal (or_else (put_number v) none)
        ≡ channels_text truncate one_decimal (some v)
  put_number-channels_text null = refl
  put_number-channels_text (bool true) = refl
  put_number-channels_text (bool false) = refl
  put_number-channels_text (num (negsuc n)) = refl
  put_number-channels_text (num (pos n)) =
      let kept = λ (b : Bool).
        channels_text truncate one_decimal
          (or_else (if not b then some (num (pos n)) else none) none) in
      elim (Bool-cases (n == 0)) [
        | inl zero_channels ↦
            ap kept zero_channels
            ∙ sym (ap (λ b. if b then "" else String.◌++◌ (decimal n) ".0") zero_channels)
        | inr other ↦ ap kept other
      ]
  put_number-channels_text (fraction t) = refl
  put_number-channels_text (text t) =
      if_rule (λ o. channels_text truncate one_decimal (or_else o none) ≡ "") (not (str_eq t ""))
        (some (text t)) none (λ _. refl) (λ _. refl)
  put_number-channels_text (array es) = refl
  put_number-channels_text (object ms) = refl

  media_channels :
      (o : Option MediaInfo)
      → channels_text truncate one_decimal
          (or_else (put_media (λ m. put_number m.audio_channels) o) none)
        ≡ info_channels truncate one_decimal o
  media_channels none = refl
  media_channels (some m) = put_number-channels_text m.audio_channels

  media_tags-info :
      (inst : Instance) (r : HistoryRecord)
      → media_tags truncate one_decimal (history_details inst r)
        ≡ info_tags truncate one_decimal r.media_info
  unfolding media_tags
  media_tags-info inst r =
      let o = r.media_info in
      let at = text_at-history_details inst r in
      let value = lookup-history_details inst r in
      rw
        (
          at "resolution" ∙ media_text o (λ m. m.resolution),
          at "videoCodec" ∙ media_text o (λ m. m.video_codec),
          at "videoDynamicRange" ∙ media_text o (λ m. m.video_dynamic_range_type),
          ap (integer_of truncate one_decimal) (value "videoBitDepth")
              ∙ media_integer o (λ m. m.video_bit_depth),
          ap (integer_of truncate one_decimal) (value "videoBitrate")
              ∙ media_integer o (λ m. m.video_bitrate),
          at "audioCodec" ∙ media_text o (λ m. m.audio_codec),
          ap (channels_text truncate one_decimal) (value "audioChannels") ∙ media_channels o,
          at "audioBitrateText" ∙ media_text o (λ m. m.audio_bitrate_text),
          at "audioBits" ∙ media_text o (λ m. m.audio_bits),
          at "audioSampleRate" ∙ media_text o (λ m. m.audio_sample_rate),
        )
        refl

  -- The quality, the size and the score that an upgrade replaces.
  previous_quality_lem :
      (inst : Instance) (r : HistoryRecord)
      → r.is_upgrade ≡ true
      → text_at "previousQuality" (history_details inst r) ≡ r.previous_quality
  previous_quality_lem inst r up =
      text_at-history_details inst r "previousQuality"
      ∙ rw up (put_string-text_of r.previous_quality)

  previous_size_lem :
      (inst : Instance) (r : HistoryRecord)
      → r.is_upgrade ≡ true
      → integer_of truncate one_decimal (lookup "previousSize" (history_details inst r))
        ≡ r.previous_size
  previous_size_lem inst r up =
      ap (integer_of truncate one_decimal) (lookup-history_details inst r "previousSize")
      ∙ rw up (put_number-integer_of r.previous_size)

  previous_score_lem :
      (inst : Instance) (r : HistoryRecord)
      → r.is_upgrade ≡ true
      → score_of truncate one_decimal (lookup "previousCustomFormatScore" (history_details inst r))
        ≡ r.previous_custom_format_score
  previous_score_lem inst r up =
      ap (score_of truncate one_decimal) (lookup-history_details inst r "previousCustomFormatScore")
      ∙ rw up (put_score-score_of r.previous_custom_format_score)

  -- An upgrade that a poll of an instance finds, and logs, is shown on the Home page with all that the
  -- record has: its item, its qualities, sizes and scores before and after, the addresses of its page
  -- and its picture, and the tags of its media info. What the record leaves out, and the log with it,
  -- is shown as left out.
  pub home_upgrade-history_entry :
      (insts : Store) (inst : Instance) (r : HistoryRecord)
      → r.is_upgrade ≡ true
      → home_upgrade truncate one_decimal insts (history_entry inst r)
        ≡ shown_upgrade truncate one_decimal insts inst r
  unfolding home_upgrade
  home_upgrade-history_entry insts inst r up =
      let at = text_at-history_details inst r in
      let value = lookup-history_details inst r in
      rw
        (
          at "instanceName",
          at "instanceBaseURL",
          at "itemLabel",
          at "itemDetailPath",
          at "quality",
          at "releaseTitle" ∙ put_string-text_of r.release_title,
          at "mediaCover" ∙ put_string-text_of r.media_cover_path,
          previous_quality_lem inst r up,
          ap (integer_of truncate one_decimal) (value "size") ∙ put_number-integer_of r.size,
          previous_size_lem inst r up,
          ap (score_of truncate one_decimal) (value "customFormatScore")
              ∙ put_score-score_of r.custom_format_score,
          previous_score_lem inst r up,
          media_tags-info inst r,
        )
        refl
