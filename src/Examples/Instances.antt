-- ===== src/Examples/Instances.antt =====
-- Examples for the instances and their API: internal/instance and internal/api/instance.go.
use huntarr.Base.{
  String, true, [], ◌∷◌, Option, some, ◌≡◌, refl, arith, lookup, pos, trim_space, is_space,
}
use huntarr.Connections.{initial_manager, open_edit, edit_read}
use huntarr.Instances.{Instance, Store}
use huntarr.Instances.Kept.{IsValid}
use huntarr.Api.Instances.{
  Request, one, to_instance_response, handle_list_instances, handle_get_instance,
  handle_update_instance,
}
use huntarr.Api.Instances.Secrets.{without_keys, handle_get_instance-without_keys}
use huntarr.Api.Instances.Editing.{created, updated, deleted, run_requests, run_requests-IsValid}
use huntarr.Api.Instances.Updates.{Ends, handle_update_instance-Ends}
use huntarr.Api.Instances.Unchanged.{form_of, request_of, handle_update_instance-opened}

-- A library that takes every address for one of a host, every text for a UUID, and quotes nothing.
abbrev http_url : String → Option (String × String)
http_url url = some ("http", "radarr")

abbrev any_uuid : String → Option String
any_uuid raw = some raw

abbrev unquoted : String → String
unquoted t = t

abbrev films : Instance
films = record {
  id = "a";
  name = "Films";
  app_type = "radarr";
  base_url = "http://radarr:7878";
  api_key = "key";
  timeout_ms = pos 5000;
}

abbrev stored : Store
stored = ("a", films) ∷ []

stored-IsValid : IsValid http_url unquoted stored
stored-IsValid = (
  record {
    keyed = refl;
    trimmed = unfold trim_space is_space in refl;
    named = refl;
    known = refl;
    addressed = refl;
    key_trimmed = unfold trim_space is_space in refl;
    secured = refl;
    timed = (5000, refl, omega arith, omega arith);
  },
  tt,
)

-- A new name, and no key.
abbrev renaming : Request
renaming = record {
  name = " Movies ";
  app_type = "";
  base_url = "http://radarr:7878";
  api_key = "";
  timeout_ms = pos 0;
}

run_requests-IsValid_example : IsValid http_url unquoted (
    run_requests any_uuid http_url unquoted
      (created true "a" (record renaming { app_type = "radarr"; api_key = "key" })
        ∷ updated true true "a" renaming
        ∷ deleted true "b"
        ∷ [])
      [])
run_requests-IsValid_example = run_requests-IsValid any_uuid http_url unquoted (
    created true "a" (record renaming { app_type = "radarr"; api_key = "key" })
    ∷ updated true true "a" renaming
    ∷ deleted true "b"
    ∷ [])

handle_update_instance-Ends_example :
    Ends
      (some "a")
      renaming
      stored
      (handle_update_instance any_uuid http_url unquoted true true "a" renaming stored)
handle_update_instance-Ends_example =
    handle_update_instance-Ends http_url unquoted any_uuid true true "a" renaming stored
      stored-IsValid

handle_update_instance-opened_example :
    let read = handle_get_instance any_uuid true "a" stored in
    let form =
      (edit_read "a"
        (form_of (to_instance_response films))
        (open_edit "button" "a" initial_manager)).form in
    let saved =
      handle_update_instance any_uuid http_url unquoted true true "a" (request_of form) stored in
    (read.0 ≡ one 200 (to_instance_response films))
    × (saved.0 ≡ one 200 (to_instance_response films))
    × (lookup "a" saved.1 ≡ lookup "a" stored)
handle_update_instance-opened_example =
    handle_update_instance-opened http_url unquoted any_uuid "button" "a" "a" initial_manager films
      stored "a" stored-IsValid refl (unfold lookup in refl)

handle_get_instance-without_keys_example :
    (handle_list_instances true (without_keys stored) ≡ handle_list_instances true stored)
    × ((handle_get_instance any_uuid true "a" (without_keys stored)).0
        ≡ (handle_get_instance any_uuid true "a" stored).0)
handle_get_instance-without_keys_example = handle_get_instance-without_keys any_uuid true "a" stored
