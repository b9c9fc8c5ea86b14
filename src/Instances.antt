-- ===== src/Instances.antt =====
-- internal/instance: the stored instances, as service.go validates and sqlite.go keeps them. The key
-- is stored encrypted and read decrypted; it is kept here as it is read. Ids are the canonical texts
-- of UUIDs, and the two times of an instance are left out. Parameters: `parse_url` is `url.Parse`,
-- giving the scheme and the host; `quote` is the verb %q.
pub mod Kept
use Prim.Native.String
use huntarr.Base.{
  ℕ, zero, suc, String, Bool, true, false, not, ◌&&◌, ◌||◌, List, [], ◌∷◌, ◌++◌, Option, none, some,
  if◌then◌else◌, str_eq, codes, text_lt, ltb, lookup, insert, erase, trim_space, ℤ, pos, negsuc,
}

pub record Instance : Type 0 where
  pub id : String
  pub name : String
  pub app_type : String
  pub base_url : String
  pub api_key : String
  pub timeout_ms : ℤ

abbrev pub Store : Type 0
Store = List (String × Instance)

abbrev pub default_timeout_ms : ℤ
default_timeout_ms = pos 30000

abbrev pub max_timeout_ms : ℕ
max_timeout_ms = 300000

-- `AppType.Valid`
abbrev pub is_app_type : String → Bool
is_app_type t =
    str_eq t "sonarr"
    || str_eq t "radarr"
    || str_eq t "lidarr"
    || str_eq t "whisparr-v2"
    || str_eq t "whisparr-v3"

pub record ValidationError : Type 0 where
  pub field : String
  pub message : String

-- The result of an operation, or its error.
pub data Result {ℓ} (A : Type ℓ) : Type ℓ where
  ok : A → Result A
  invalid : ValidationError → Result A
  not_found unavailable : Result A

abbrev pub invalid_field {ℓ} : {A : Type ℓ} → String → String → Result A
invalid_field field message = invalid (record { field = field; message = message })

-- The test of a parsed address; `none` is an error of the parser.
abbrev pub is_http : Option (String × String) → Bool
is_http none = false
is_http (some (scheme, host)) =
    (str_eq scheme "http" || str_eq scheme "https") && not (str_eq host "")

-- `inst.TimeoutMs < 0 || inst.TimeoutMs > maxTimeoutMs`
abbrev pub is_bad_timeout : ℤ → Bool
is_bad_timeout (pos n) = ltb max_timeout_ms n
is_bad_timeout (negsuc n) = true

abbrev pub or_default_timeout : ℤ → ℤ
or_default_timeout (pos zero) = default_timeout_ms
or_default_timeout (pos (suc n)) = pos (suc n)
or_default_timeout (negsuc n) = negsuc n

-- The new timeout if it is positive, else the old one.
abbrev pub positive_or : ℤ → ℤ → ℤ
positive_or old (pos zero) = old
positive_or old (pos (suc n)) = pos (suc n)
positive_or old (negsuc n) = old

-- The new key if it is not blank, else the old one.
abbrev pub key_or : String → String → String
key_or old new = if str_eq (trim_space new) "" then old else trim_space new

module _ (parse_url : String → Option (String × String)) (quote : String → String) where
  -- `validate`, with the instance as it leaves it.
  unfoldable pub validate : Instance → Result Instance
  validate inst =
      let named = record inst { name = trim_space inst.name } in
      let keyed = record named { api_key = trim_space inst.api_key } in
      if str_eq named.name ""
      then invalid_field "name" "must not be empty"
      else if not (is_app_type inst.app_type)
      then invalid_field "app_type"
          (String.◌++◌ (quote inst.app_type) " is not a recognised application type")
      else if not (is_http (parse_url inst.base_url))
      then invalid_field "base_url" "must be a valid HTTP or HTTPS URL"
      else if str_eq keyed.api_key ""
      then invalid_field "api_key" "must not be empty"
      else if is_bad_timeout inst.timeout_ms
      then invalid_field "timeout_ms" "must be between 0 and 300000"
      else ok keyed

  -- Storing what was validated, if the database carries it out.
  abbrev pub store_valid : Bool → Result Instance → Store → Result Instance × Store
  store_valid available (ok inst) s =
      if available then (ok inst, insert inst.id inst s) else (unavailable, s)
  store_valid available (invalid e) s = (invalid e, s)
  store_valid available not_found s = (not_found, s)
  store_valid available unavailable s = (unavailable, s)

  -- `Create`; the id is the new one, which no instance has.
  unfoldable pub create : Bool → Instance → Store → Result Instance × Store
  unfolding validate insert
  create available inst s =
      store_valid available
        (validate (record inst { timeout_ms = or_default_timeout inst.timeout_ms })) s

  -- `Update`, from the existing instance on; only the fields that a request has are read of `inst`.
  abbrev pub edited : Instance → Instance → Instance
  edited existing inst = record existing {
    name = inst.name;
    base_url = inst.base_url;
    api_key = key_or existing.api_key inst.api_key;
    timeout_ms = positive_or existing.timeout_ms inst.timeout_ms;
  }

  abbrev pub update_existing : Bool → Option Instance → Instance → Store → Result Instance × Store
  update_existing available none inst s = (not_found, s)
  update_existing available (some existing) inst s =
      store_valid available (validate (edited existing inst)) s

  -- The two flags are of the query and of the update.
  unfoldable pub update : Bool → Bool → String → Instance → Store → Result Instance × Store
  unfolding validate insert lookup
  update found available id inst s =
      if found then update_existing available (lookup id s) inst s else (unavailable, s)

abbrev pub from_row : Option Instance → Result Instance
from_row none = not_found
from_row (some inst) = ok inst

-- `List`, ordered by the names.
unfoldable pub insert_by_name : Instance → List Instance → List Instance
unfolding text_lt
insert_by_name i [] = i ∷ []
insert_by_name i (j ∷ rest) =
    let later = insert_by_name i rest in
    if text_lt (codes i.name) (codes j.name) then i ∷ j ∷ rest else j ∷ later

unfoldable pub list : Store → List Instance
unfolding insert_by_name
list [] = []
list ((id, i) ∷ s) = insert_by_name i (list s)

-- `Get` and `Delete`
unfoldable pub get : Bool → String → Store → Result Instance
unfolding lookup
get found id s = if found then from_row (lookup id s) else unavailable

-- The result of a deletion is the instance that it removes.
abbrev pub delete_row : String → Option Instance → Store → Result Instance × Store
delete_row id none s = (not_found, s)
delete_row id (some inst) s = (ok inst, erase id s)

unfoldable pub delete : Bool → String → Store → Result Instance × Store
unfolding lookup erase
delete available id s = if available then delete_row id (lookup id s) s else (unavailable, s)
