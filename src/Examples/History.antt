-- ===== src/Examples/History.antt =====
-- Imports of a film and polls of its instance: internal/arr/history.go and
-- internal/scheduler/scheduler.go.
use huntarr.Base.{ℕ, true, false, [], ◌∷◌, List, none, some, ◌≡◌, refl, arith, pos, lookup}
use huntarr.Settings.Values.{resolve, defaults}
use huntarr.Arr.Events.{Entity, Event}
use huntarr.Arr.Records.{FileResponse}
use huntarr.Arr.History.{Pages, fetch_arr_history}
use huntarr.Arr.History.Fetched.{IsFetched, fetch_arr_history-IsFetched}
use huntarr.Activity.{at_utc}
use huntarr.Scheduler.Cooldown.{filter_cooling_down}
use huntarr.Scheduler.Cycle.{World}
use huntarr.Scheduler.Polls.{PollReplies}
use huntarr.Scheduler.Polls.Apart.{
  HasLogged, last_polled, batches_of, poll_often, poll_often-HasLogged,
}
use huntarr.Scheduler.Upkeep.{Upkeep, UpkeepReplies, prune_activity_log}
use huntarr.Scheduler.Upkeep.Cooldowns.{prune_activity_log-cooling}
use huntarr.Examples.Cycles.{films, empty_world}

abbrev a_film : Entity
a_film = record {
  id = 7;
  title_slug = "metropolis-1927";
  title = "Metropolis";
  year = 1927;
  artist_name = "";
  images = "Poster" ∷ [];
}

abbrev imported_at : ℕ → ℕ → Event
imported_at id date = record {
  id = id;
  date = date;
  fields = ("Size", " 9000 ") ∷ ("fileId", "3") ∷ [];
  source_title = "Metropolis.1927";
  quality = "Bluray-1080p";
  custom_format_score = none;
  episode_id = 0;
  movie_id = 7;
  album_id = 0;
  movie = some a_film;
  series = none;
  episode = none;
  artist = none;
  album = none;
}

abbrev replaced_at : ℕ → Event
replaced_at date = record (imported_at 1 date) { fields = ("Reason", "Upgrade") ∷ [] }

abbrev no_file : FileResponse
no_file = record {
  size = pos 1;
  release_group = "group";
  custom_format_score = some (pos 5);
  media_info = none;
}

-- The film was imported twice, and the first file replaced.
abbrev two_imports : Pages
two_imports = record {
  deleted = some (replaced_at 99000000000000 ∷ []);
  imported = some (imported_at 3 99000000000000 ∷ imported_at 2 98000000000000 ∷ []) ∷ [];
  files = λ id. some no_file;
}

fetch_arr_history-IsFetched_example :
    IsFetched "movieId" 97000000000000 two_imports
      (fetch_arr_history "movieId" 97000000000000 two_imports)
fetch_arr_history-IsFetched_example =
    fetch_arr_history-IsFetched "movieId" 97000000000000 two_imports

-- Another film is imported before the second poll.
abbrev later_import : Pages
later_import = record two_imports {
  imported =
      some (
        (record (imported_at 4 100200000000000) { movie_id = 8 })
        ∷ imported_at 3 99000000000000
        ∷ [])
      ∷ [];
}

abbrev poll_at : ℕ → Pages → PollReplies
poll_at time pages = record {
  cancelled = false;
  read_ok = true;
  first_time = time;
  field = "movieId";
  pages = some pages;
  record_ok = true;
  poll_time = time;
}

abbrev two_polls : List PollReplies
two_polls = poll_at 100000000000000 two_imports ∷ poll_at 100300000000000 later_import ∷ []

poll_often-HasLogged_example :
    HasLogged films
      (last_polled (lookup "a" []))
      (batches_of two_polls (lookup "a" []))
      empty_world
      (poll_often films two_polls [] empty_world).1
poll_often-HasLogged_example = poll_often-HasLogged films two_polls [] empty_world (
  unfold lookup in omega arith,
  refl,
  (omega arith, (omega arith, tt)),
  (omega arith, refl, (omega arith, (omega arith, tt)), tt),
)

abbrev pub no_replies : UpkeepReplies
no_replies = record {
  poll_time = 100000000000000;
  polls = λ id. poll_at 100000000000000 two_imports;
  prune_ok = true;
  zone = at_utc;
  seconds = 100000000;
  nanos = 0;
  expire_ok = true;
  milliseconds = 100000000000;
}

abbrev pub new_upkeep : Upkeep
new_upkeep = record { last_history_poll = 0; last_pruned_at = 0; polled = []; rows = [] }

abbrev an_old_search : World
an_old_search = record empty_world {
  cooldowns = record { instance_id = "a"; item_id = 1; searched_at = 1000 } ∷ [];
}

prune_activity_log-cooling_example :
    filter_cooling_down "a"
      (1 ∷ [])
      86400000000000
      100000000000
      (prune_activity_log 100000000000000 no_replies new_upkeep an_old_search).1.cooldowns
    ≡ filter_cooling_down "a" (1 ∷ []) 86400000000000 100000000000 an_old_search.cooldowns
prune_activity_log-cooling_example =
    prune_activity_log-cooling (λ v. none) (some []) (some []) defaults 100000000000000 no_replies
      new_upkeep an_old_search "a" (1 ∷ []) 100000000000 (unfold resolve in refl) (omega arith)
