-- ===== src/Examples/Requests.antt =====
-- Examples for the requests that reach the applications: internal/api/arr.go and instance.go.
use huntarr.Base.{ℕ, String, Bool, true, false, [], ◌∷◌, Option, some, pos}
use huntarr.Arr.Quality.{QualityProfile, LibraryItem}
use huntarr.Connections.{test_result}
use huntarr.Instances.{Instance, Store}
use huntarr.ArrService.{App}
use huntarr.Api.Search.{batch, handle_instance_search}
use huntarr.Api.Search.Served.{IsServed, search_of, handle_instance_search-IsServed}
use huntarr.Api.Connect.{read_answer, handle_test_instance}
use huntarr.Api.Connect.Shown.{IsShown, meant, handle_test_instance-IsShown}

abbrev scenes : Instance
scenes = record {
  id = "a";
  name = "Scenes";
  app_type = "whisparr-v3";
  base_url = "http://whisparr:6969";
  api_key = "key";
  timeout_ms = pos 5000;
}

abbrev stored_scenes : Store
stored_scenes = ("a", scenes) ∷ []

abbrev same_uuid : String → Option String
same_uuid raw = some raw

-- The server is of the other generation.
abbrev old_version : Instance → Option String
old_version inst = some "2.0.0.548"

handle_test_instance-IsShown_example :
    IsShown old_version (meant (some "a") true stored_scenes) (
      test_result (read_answer (handle_test_instance old_version same_uuid true "a" stored_scenes)))
handle_test_instance-IsShown_example =
    handle_test_instance-IsShown old_version same_uuid true "a" stored_scenes

abbrev a_scene : ℕ → Bool → LibraryItem
a_scene id has_file = record {
  id = id;
  label = "A scene";
  detail_path = "/movie/a-scene";
  quality_profile_id = 1;
  current_quality_ids = 1 ∷ [];
  has_file = has_file;
  monitored = true;
}

abbrev two_qualities : QualityProfile
two_qualities = record {
  upgrade_allowed = true;
  cutoff = 2;
  items =
      (record { id = 0; quality = some 1; items = []; allowed = true })
      ∷ (record { id = 0; quality = some 2; items = []; allowed = true })
      ∷ [];
}

abbrev three_scenes : Instance → App
three_scenes inst = record {
  version = some "3.0.1";
  profiles = some ((1, two_qualities) ∷ []);
  library = some (a_scene 4 false ∷ a_scene 5 true ∷ a_scene 6 true ∷ []);
  accepts = λ ids. true;
}

handle_instance_search-IsServed_example :
    IsServed
      (search_of same_uuid true three_scenes "a" (batch (pos 2)) stored_scenes)
      (handle_instance_search same_uuid true three_scenes "a" (batch (pos 2)) stored_scenes)
handle_instance_search-IsServed_example =
    handle_instance_search-IsServed same_uuid true three_scenes "a" (batch (pos 2)) stored_scenes
