-- ===== src/Examples/Dashboard.antt =====
-- Examples for the Home page: internal/server/pages.go.
use huntarr.Base.{◌-◌, ◌*◌, arith, String, true, [], ◌∷◌, List, some, none, ◌≡◌, refl, ℤ, pos}
use huntarr.Json.{num}
use huntarr.Arr.Records.{HistoryRecord, MediaInfo}
use huntarr.Scheduler.Polls.{history_entry}
use huntarr.Instances.{Store}
use huntarr.Activity.{east, local_clock, Row, utc}
use huntarr.Activity.Stats.Tally.{tally, always, from_second}
use huntarr.Dashboard.{aggregate_stats, all_time_stats, recent_stats}
use huntarr.Dashboard.Counts.{
  upgrades, counts_action, counts_instance, count_of, shown, aggregate_stats-tally,
}
use huntarr.Dashboard.Upgrades.{home_upgrade}
use huntarr.Dashboard.Upgrades.Logged.{shown_upgrade, home_upgrade-history_entry}
use huntarr.Examples.Cycles.{films}

-- Conversions of numbers that are no integers, for data that has none.
abbrev no_integer : String → ℤ
no_integer t = pos 0

abbrev no_decimal : String → String
no_decimal t = ""

abbrev some_info : MediaInfo
some_info = record {
  resolution = "1920x1080";
  video_codec = "x265";
  video_bit_depth = pos 10;
  video_bitrate = pos 12100000;
  video_dynamic_range_type = "";
  audio_codec = "EAC3";
  audio_channels = num (pos 2);
  audio_bitrate = pos 0;
  audio_bitrate_text = "";
  audio_bits = "";
  audio_sample_rate = "";
  run_time = "1:30:00";
}

abbrev an_upgrade : HistoryRecord
an_upgrade = record {
  id = 3;
  item_id = 7;
  date = 99000000000000;
  item_label = "Metropolis (1927)";
  release_title = "Metropolis.1927";
  detail_path = "/movie/metropolis-1927";
  media_cover_path = "7/poster.jpg";
  is_upgrade = true;
  quality = "Bluray-1080p";
  previous_quality = "DVD";
  size = pos 9000;
  previous_size = pos 700;
  custom_format_score = some (pos 5);
  previous_custom_format_score = none;
  release_group = "group";
  file_id = pos 3;
  media_info = some some_info;
}

abbrev stored_films : Store
stored_films =
    (
      "a",
      record {
        id = "a";
        name = "Films";
        app_type = "radarr";
        base_url = "http://radarr:7878";
        api_key = "key";
        timeout_ms = pos 5000;
      },
    )
    ∷ []

home_upgrade-history_entry_example :
    home_upgrade no_integer no_decimal stored_films (history_entry films an_upgrade)
    ≡ shown_upgrade no_integer no_decimal stored_films films an_upgrade
home_upgrade-history_entry_example =
    home_upgrade-history_entry no_integer no_decimal stored_films films an_upgrade refl

abbrev a_minute_apart : List Row
a_minute_apart =
    (record {
      content = history_entry films an_upgrade;
      created_at = record { clock = 60; nanos = 0; zone = utc };
    })
    ∷ (record {
      content = history_entry films an_upgrade;
      created_at = record { clock = 120; nanos = 0; zone = utc };
    })
    ∷ []

-- On a server that is an hour ahead of UTC, a day after.
aggregate_stats-tally_example :
    let (totals, table) =
      aggregate_stats stored_films (all_time_stats stored_films a_minute_apart) in
    let (recent, unused) =
      aggregate_stats stored_films (recent_stats stored_films (east 3600) 86400 0 a_minute_apart) in
    (count_of upgrades totals ≡ tally (counts_action upgrades) always a_minute_apart)
    × (shown upgrades "a" table ≡ tally (counts_instance "a" upgrades) always a_minute_apart)
    × (count_of upgrades recent
        ≡ tally
            (counts_action upgrades)
            (from_second (local_clock (east 3600) (86400 - 24 * 3600)))
            a_minute_apart)
aggregate_stats-tally_example =
    aggregate_stats-tally stored_films (east 3600) 86400 0 a_minute_apart upgrades "a" refl
      ((λ e. omega (arith, e)), ((λ e. omega (arith, e)), tt))
