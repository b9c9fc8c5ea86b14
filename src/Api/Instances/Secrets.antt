-- ===== src/Api/Instances/Secrets.antt =====
-- What the answers tell of the keys.
use huntarr.Base.{
  String, Bool, true, false, List, [], ◌∷◌, Option, none, some, if◌then◌else◌, str_eq, codes,
  text_lt, lookup, map, ◌≡◌, refl, ap, ◌∙◌, Bool-cases, inl, inr,
}
use huntarr.Instances.{Instance, Store, from_row, list, insert_by_name, get}
use huntarr.Api.Settings.{respond}
use huntarr.Api.Instances.{
  to_instance_response, all, failed, at_path, instance_answer, handle_list_instances,
  handle_get_instance,
}

-- A store without its keys.
abbrev pub without_key : Instance → Instance
without_key i = record i { api_key = "" }

abbrev pub without_keys : Store → Store
without_keys [] = []
without_keys ((id, i) ∷ s) = (id, without_key i) ∷ without_keys s

abbrev without_key_option : Option Instance → Option Instance
without_key_option none = none
without_key_option (some i) = some (without_key i)

lookup-without_keys :
    (id : String) (s : Store) → lookup id (without_keys s) ≡ without_key_option (lookup id s)
unfolding lookup
lookup-without_keys id [] = refl
lookup-without_keys id ((j, i) ∷ s) = elim (Bool-cases (str_eq j id)) [
  | inl e ↦ rw e refl
  | inr e ↦ rw e (lookup-without_keys id s)
]

insert_by_name-without_key :
    (i : Instance) (l : List Instance)
    → insert_by_name (without_key i) (map without_key l) ≡ map without_key (insert_by_name i l)
unfolding insert_by_name
insert_by_name-without_key i [] = refl
insert_by_name-without_key i (j ∷ l) = elim (Bool-cases (text_lt (codes i.name) (codes j.name))) [
  | inl e ↦ rw e refl
  | inr e ↦ rw e (ap (λ r. without_key j ∷ r) (insert_by_name-without_key i l))
]

list-without_keys : (s : Store) → list (without_keys s) ≡ map without_key (list s)
unfolding list
list-without_keys [] = refl
list-without_keys ((id, i) ∷ s) =
    ap (insert_by_name (without_key i)) (list-without_keys s)
    ∙ insert_by_name-without_key i (list s)

map-without_key :
    (l : List Instance) → map to_instance_response (map without_key l) ≡ map to_instance_response l
map-without_key [] = refl
map-without_key (i ∷ l) = ap (λ r. to_instance_response i ∷ r) (map-without_key l)

answer-without_key :
    (o : Option Instance)
    → instance_answer 200 "failed to get instance" (from_row (without_key_option o))
      ≡ instance_answer 200 "failed to get instance" (from_row o)
answer-without_key none = refl
answer-without_key (some i) = refl

get-without_keys :
    (available : Bool) (id : String) (s : Store)
    → instance_answer 200 "failed to get instance" (get available id (without_keys s))
      ≡ instance_answer 200 "failed to get instance" (get available id s)
unfolding get
get-without_keys true id s =
    ap (λ o. instance_answer 200 "failed to get instance" (from_row o)) (lookup-without_keys id s)
    ∙ answer-without_key (lookup id s)
get-without_keys false id s = refl

at_path-without_keys :
    (available : Bool) (o : Option String) (s : Store)
    → let answer = λ (t : Store) (id : String).
      instance_answer 200 "failed to get instance" (get available id t) in
      (at_path o (without_keys s) (λ id. (answer (without_keys s) id, without_keys s))).0
      ≡ (at_path o s (λ id. (answer s id, s))).0
at_path-without_keys available none s = refl
at_path-without_keys available (some id) s = get-without_keys available id s

-- To list the instances and to get one answer the same with other keys, or with none: no key can be
-- learnt from these answers.
pub handle_get_instance-without_keys :
    (parse_uuid : String → Option String) (available : Bool) (raw : String) (s : Store)
    → (handle_list_instances available (without_keys s) ≡ handle_list_instances available s)
      × ((handle_get_instance parse_uuid available raw (without_keys s)).0
          ≡ (handle_get_instance parse_uuid available raw s).0)
unfolding handle_list_instances handle_get_instance
handle_get_instance-without_keys parse_uuid available raw s = (
  ap (λ l. if available then all l else failed (respond 500 "failed to list instances"))
      (ap (map to_instance_response) (list-without_keys s) ∙ map-without_key (list s)),
  at_path-without_keys available (parse_uuid raw) s,
)
