-- ===== src/Api/Activity.antt =====
-- internal/api/activity.go: `handleListActivity`, over the parameters of the address. Parameters:
-- `parse_uuid` is `uuid.Parse` and `parse_time` is `time.Parse` of RFC3339; `like` is the database's.
-- Whether the database answers the list and the count is for the caller to say.
pub mod Pages
pub mod Params
use huntarr.Base.{
  ℕ, zero, suc, String, Bool, List, [], ◌∷◌, Option, none, some, if◌then◌else◌, str_eq, codes, ltb,
  lookup, ℤ, pos, negsuc,
}
use huntarr.Settings.Number.{atoi}
use huntarr.Activity.{Stamp, Row, ListParams, valid_level, valid_action, list_entries, count_rows}
use huntarr.Api.Settings.{Response, respond}

-- A body with entries and their total, under the status 200, or an error.
pub data ListResponse : Type 0 where
  given : List Row → ℕ → ListResponse
  failed : Response → ListResponse

-- `Query().Get`
abbrev pub or_blank : Option String → String
or_blank none = ""
or_blank (some v) = v

unfoldable pub get_param : List (String × String) → String → String
unfolding lookup
get_param q name = or_blank (lookup name q)

-- The value of a parameter, or the error that answers the request.
pub data Checked {ℓ} (A : Type ℓ) : Type ℓ where
  valid : A → Checked A
  refused : String → Checked A

abbrev pub from_option {ℓ} : {A : Type ℓ} → String → Option A → Checked A
from_option e none = refused e
from_option e (some a) = valid a

unfoldable pub read_level : String → Checked String
read_level v =
    if str_eq v ""
    then valid ""
    else if valid_level v
    then valid v
    else refused "unrecognised level"

unfoldable pub read_action : String → Checked String
read_action v =
    if str_eq v ""
    then valid ""
    else if valid_action v
    then valid v
    else refused "unrecognised action"

-- A value that may be missing, read by a parser.
abbrev pub read_optional {ℓ} :
    {A : Type ℓ} → (String → Option A) → String → String → Checked (Option A)
read_optional parse e v =
    if str_eq v ""
    then valid none
    else elim (parse v) [ none ↦ refused e | some a ↦ valid (some a) ]

abbrev pub max_activity_limit : ℕ
max_activity_limit = 500

abbrev pub max_activity_offset : ℕ
max_activity_offset = 100000

abbrev pub check_limit : Option ℤ → Checked ℤ
check_limit none = refused "invalid limit"
check_limit (some (negsuc n)) = refused "invalid limit"
check_limit (some (pos zero)) = refused "invalid limit"
check_limit (some (pos (suc n))) =
    if ltb max_activity_limit (suc n)
    then refused "limit must not exceed 500"
    else valid (pos (suc n))

unfoldable pub read_limit : String → Checked ℤ
unfolding atoi
read_limit v = if str_eq v "" then valid (pos 0) else check_limit (atoi (codes v))

abbrev pub check_offset : Option ℤ → Checked ℕ
check_offset none = refused "invalid offset"
check_offset (some (negsuc n)) = refused "invalid offset"
check_offset (some (pos n)) =
    if ltb max_activity_offset n then refused "offset must not exceed 100000" else valid n

unfoldable pub read_offset : String → Checked ℕ
unfolding atoi
read_offset v = if str_eq v "" then valid 0 else check_offset (atoi (codes v))

-- The rest of the handler for a value, or the status 400.
abbrev pub with_checked {ℓ} : {A : Type ℓ} → Checked A → (A → ListResponse) → ListResponse
with_checked (valid a) f = f a
with_checked (refused e) f = failed (respond 400 e)

module _ (parse_uuid : String → Option String) (parse_time : String → Option Stamp)
    (like : String → String → Bool) where
  -- From the call of `List` on.
  abbrev pub list_activity : Bool → Bool → ListParams → List Row → ListResponse
  list_activity list_ok count_ok p rows =
      if list_ok
      then if count_ok
        then given (list_entries like p rows) (count_rows like p rows)
        else failed (respond 500 "failed to count activity entries")
      else failed (respond 500 "failed to list activity entries")

  unfoldable pub handle_list_activity :
      Bool → Bool → List (String × String) → List Row → ListResponse
  unfolding read_level read_action read_limit read_offset get_param
  handle_list_activity list_ok count_ok q rows =
      with_checked (read_level (get_param q "level")) λ level.
        with_checked (read_optional parse_uuid "invalid UUID" (get_param q "instanceId")) λ id.
          with_checked (read_action (get_param q "action")) λ action.
            with_checked (read_optional parse_time "invalid since timestamp" (get_param q "since"))
              λ since.
                with_checked
                  (read_optional parse_time "invalid until timestamp" (get_param q "until"))
                  λ until. with_checked (read_limit (get_param q "limit")) λ limit.
                    with_checked (read_offset (get_param q "offset")) λ offset.
                      list_activity list_ok count_ok
                        (record {
                          level = level;
                          instance_id = id;
                          action = action;
                          search = get_param q "search";
                          since = since;
                          until = until;
                          limit = limit;
                          offset = offset;
                        })
                        rows
