-- ===== src/Api/Instances.antt =====
-- internal/api/instance.go: the handlers that list, read and change the instances, for bodies that
-- are well-formed JSON. Parameters: `parse_uuid` is `uuid.Parse`, giving the canonical text of an id;
-- `parse_url` and `quote` are those of the instances.
pub mod Secrets
pub mod Editing
pub mod Updates
pub mod Unchanged
use Prim.Native.String
use huntarr.Base.{
  ℕ, String, Bool, List, [], ◌∷◌, Option, none, some, if◌then◌else◌, map, ℤ, ◌≡◌, refl,
}
use huntarr.Instances.{
  Instance, Store, ValidationError, Result, ok, invalid, not_found, unavailable, create, update,
  list, get, delete,
}
use huntarr.Api.Settings.{Response, respond}

-- A body to create or, without the type, to change an instance.
pub record Request : Type 0 where
  pub name : String
  pub app_type : String
  pub base_url : String
  pub api_key : String
  pub timeout_ms : ℤ

pub record InstanceResponse : Type 0 where
  pub id : String
  pub name : String
  pub app_type : String
  pub base_url : String
  pub timeout_ms : ℤ

abbrev pub to_instance_response : Instance → InstanceResponse
to_instance_response inst = record {
  id = inst.id;
  name = inst.name;
  app_type = inst.app_type;
  base_url = inst.base_url;
  timeout_ms = inst.timeout_ms;
}

-- A status with an instance, with all of them, or with nothing; or an error.
pub data Answer : Type 0 where
  one : ℕ → InstanceResponse → Answer
  all : List InstanceResponse → Answer
  nothing : ℕ → Answer
  failed : Response → Answer

abbrev pub requested : String → Request → Instance
requested id q = record {
  id = id;
  name = q.name;
  app_type = q.app_type;
  base_url = q.base_url;
  api_key = q.api_key;
  timeout_ms = q.timeout_ms;
}

-- `ve.Error()`
abbrev pub error_text : ValidationError → String
error_text e = String.◌++◌ e.field (String.◌++◌ ": " e.message)

-- The answer to a result, by the status of a success and the message of an internal error.
abbrev pub instance_answer : ℕ → String → Result Instance → Answer
instance_answer status internal (ok inst) = one status (to_instance_response inst)
instance_answer status internal (invalid e) = failed (respond 400 (error_text e))
instance_answer status internal not_found = failed (respond 404 "instance not found")
instance_answer status internal unavailable = failed (respond 500 internal)

abbrev pub delete_answer : Result Instance → Answer
delete_answer (ok inst) = nothing 204
delete_answer (invalid e) = failed (respond 500 "failed to delete instance")
delete_answer not_found = failed (respond 404 "instance not found")
delete_answer unavailable = failed (respond 500 "failed to delete instance")

unfoldable pub handle_list_instances : Bool → Store → Answer
unfolding list
handle_list_instances available s =
    if available
    then all (map to_instance_response (list s))
    else failed (respond 500 "failed to list instances")

-- The rest of a handler for the id of its path, if that is a UUID.
abbrev pub at_path : Option String → Store → (String → Answer × Store) → Answer × Store
at_path none s handler = (failed (respond 400 "invalid UUID"), s)
at_path (some id) s handler = handler id

pub at_path_rule {κ} :
    (P : Answer × Store → Type κ) (o : Option String) (s : Store)
    (handler : String → Answer × Store)
    → P (failed (respond 400 "invalid UUID"), s)
    → ((id : String) → o ≡ some id → P (handler id))
    → P (at_path o s handler)
at_path_rule P none s handler bad good = bad
at_path_rule P (some id) s handler bad good = good id refl

module _ (parse_uuid : String → Option String) where
  -- `pathUUID`
  abbrev pub with_path : String → Store → (String → Answer × Store) → Answer × Store
  with_path raw s handler = at_path (parse_uuid raw) s handler

  unfoldable pub handle_get_instance : Bool → String → Store → Answer × Store
  unfolding get
  handle_get_instance found raw s =
      with_path raw s λ id. (instance_answer 200 "failed to get instance" (get found id s), s)

  unfoldable pub handle_delete_instance : Bool → String → Store → Answer × Store
  unfolding delete
  handle_delete_instance available raw s =
      with_path raw s λ id. let (result, s') = delete available id s in (delete_answer result, s')

  module _ (parse_url : String → Option (String × String)) (quote : String → String) where
    -- With the id that the repository gives to the new instance.
    unfoldable pub handle_create_instance : Bool → String → Request → Store → Answer × Store
    unfolding create
    handle_create_instance available new q s =
        let (result, s') = create parse_url quote available (requested new q) s in
        (instance_answer 201 "failed to create instance" result, s')

    unfoldable pub handle_update_instance : Bool → Bool → String → Request → Store → Answer × Store
    unfolding update
    handle_update_instance found available raw q s = with_path raw s λ id.
        let (result, s') = update parse_url quote found available id (requested "" q) s in
        (instance_answer 200 "failed to update instance" result, s')
