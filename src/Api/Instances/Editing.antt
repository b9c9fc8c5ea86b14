-- ===== src/Api/Instances/Editing.antt =====
-- The instances after requests of the API, and the edit dialog with them: internal/api/instance.go
-- and web/static/js/connections.js.
use huntarr.Base.{String, Bool, List, [], ◌∷◌, Option}
use huntarr.Instances.{Store}
use huntarr.Instances.Kept.{IsValid, create-IsValid, update-IsValid, delete-IsValid}
use huntarr.Api.Instances.{
  Request, at_path_rule, requested, handle_create_instance, handle_update_instance,
  handle_delete_instance,
}

-- A request that may change the instances, with what the database answers and the id of a new one.
pub data Event : Type 0 where
  created : Bool → String → Request → Event
  updated : Bool → Bool → String → Request → Event
  deleted : Bool → String → Event

module _ (parse_uuid : String → Option String) (parse_url : String → Option (String × String))
    (quote : String → String) where
  abbrev pub handle : Event → Store → Store
  handle (created available new q) s =
      (handle_create_instance parse_uuid parse_url quote available new q s).1
  handle (updated found available raw q) s =
      (handle_update_instance parse_uuid parse_url quote found available raw q s).1
  handle (deleted available raw) s = (handle_delete_instance parse_uuid available raw s).1

  pub run_requests : List Event → Store → Store
  run_requests [] s = s
  run_requests (e ∷ es) s = run_requests es (handle e s)

  handle-IsValid :
      (e : Event) (s : Store) → IsValid parse_url quote s → IsValid parse_url quote (handle e s)
  unfolding handle_create_instance handle_update_instance handle_delete_instance
  handle-IsValid (created available new q) s h =
      create-IsValid parse_url quote available (requested new q) s h
  handle-IsValid (updated found available raw q) s h =
      at_path_rule (λ r. IsValid parse_url quote r.1) (parse_uuid raw) s _ h
        (λ id _. update-IsValid parse_url quote found available id (requested "" q) s h)
  handle-IsValid (deleted available raw) s h =
      at_path_rule (λ r. IsValid parse_url quote r.1) (parse_uuid raw) s _ h
        (λ id _. delete-IsValid parse_url quote available id s h)

  run_requests-IsValid_from :
      (es : List Event) (s : Store)
      → IsValid parse_url quote s
      → IsValid parse_url quote (run_requests es s)
  unfolding run_requests
  run_requests-IsValid_from [] s h = h
  run_requests-IsValid_from (e ∷ es) s h =
      run_requests-IsValid_from es (handle e s) (handle-IsValid e s h)

  -- Whatever instances are created, changed and deleted by the API from an empty table on, and
  -- whatever the database answers, each instance in the table stands under its id, has a name and a
  -- key that are not blank and have no space around them, a known type, an http or https address,
  -- and a timeout of up to five minutes.
  pub run_requests-IsValid : (es : List Event) → IsValid parse_url quote (run_requests es [])
  run_requests-IsValid es = run_requests-IsValid_from es [] tt
