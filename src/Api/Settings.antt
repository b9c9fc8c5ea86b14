-- ===== src/Api/Settings.antt =====
-- internal/api/settings.go: `handleGetSettings`, `handleUpdateSettings` and `handleDeleteSettings`,
-- with `formatDuration`. A body is what the JSON decoder makes of it, `none` if it fails. Parameters:
-- `parse_uuid` is `uuid.Parse`, giving the canonical text of an id; `parse_duration` is
-- `time.ParseDuration`; `quote` is the verb `%q` of `fmt`.
pub mod Lawful
pub mod Durations
pub mod Endings
pub mod Errors
use huntarr.Base.{
  ℕ, ◌*◌, ◌/◌, ◌%◌, decimal, String, Bool, true, false, not, ◌&&◌, List, [], ◌∷◌, ◌++◌, Option,
  none, some, if◌then◌else◌, str_eq, ℤ, leb, ltb, ◌==◌, codes,
}
use Prim.Native.String
use huntarr.Settings.Values.{Resolved, resolve, resolve_global}
use huntarr.Settings.Store.{
  Store, rows, Rejection, unknown_key, invalid_value, Outcome, done, rejected, unavailable,
  set_batch, remove_batch,
}
use huntarr.SettingsPage.Save.{Reply, success, refused, SettingsApi}

-- A status and the `error` of the body, empty if there is none.
pub record Response : Type 0 where
  pub status : ℕ
  pub error : String

abbrev pub respond : ℕ → String → Response
respond code e = record { status = code; error = e }

-- The text of an error that `SetBatch` and `RemoveBatch` return.
abbrev pub rejection_text : (String → String) → Rejection → String
rejection_text quote (unknown_key key) =
    String.◌++◌ "key " (String.◌++◌ (quote key) ": unknown setting key")
rejection_text quote (invalid_value key value) = String.◌++◌ "key " (
    String.◌++◌ (quote key)
      (String.◌++◌ " value " (String.◌++◌ (quote value) ": invalid setting value")))

-- The response to an outcome; `internal` is the text of a failure of the storage.
abbrev pub outcome_response : (String → String) → String → Outcome → Response
outcome_response quote internal done = respond 200 ""
outcome_response quote internal (rejected e) = respond 400 (rejection_text quote e)
outcome_response quote internal unavailable = respond 500 internal

-- `json.UnmarshalRead` of the body of a request.
abbrev pub with_body {ℓ} :
    {A : Type ℓ} → Option A → Store → (A → Response × Store) → Response × Store
with_body none s handler = (respond 400 "invalid request body", s)
with_body (some a) s handler = handler a

abbrev pub is_nil {ℓ} : {A : Type ℓ} → List A → Bool
is_nil [] = true
is_nil (x ∷ xs) = false

-- What `fetch` makes of a response: `resp.ok` is a status from 200 to 299.
abbrev pub reply_of : Response → Reply
reply_of r = if leb 200 r.status && ltb r.status 300 then success else refused r.error

-- `formatDuration`, of a duration in nanoseconds that is not negative. Up to the ninety days that
-- a setting may hold, the floats of `d.Hours()` and the like have these whole parts.
abbrev second : ℕ
second = 1000000000

-- A count that is not 0, with its unit.
abbrev pub part : ℕ → String → String
part n unit = if ltb 0 n then String.◌++◌ (decimal n) unit else ""

unfoldable pub format_duration : ℕ → String
format_duration d =
    let h = d / (3600 * second) in
    let m = d / (60 * second) % 60 in
    let s = d / second % 60 in
    let b = String.◌++◌ (part h "h") (String.◌++◌ (part m "m") (part s "s")) in
    if d == 0 then "0s" else if str_eq b "" then String.◌++◌ (decimal (d / 1000000)) "ms" else b

pub record SettingsResponse : Type 0 where
  pub batch_size : ℤ
  pub cooldown_period : String
  pub search_window_start : String
  pub search_window_end : String
  pub search_interval : String
  pub search_limit : ℤ
  pub enabled : Bool
  pub search_missing : Bool

abbrev pub to_settings_response : Resolved → SettingsResponse
to_settings_response r = record {
  batch_size = r.batch_size;
  cooldown_period = format_duration r.cooldown_period;
  search_window_start = r.search_window_start;
  search_window_end = r.search_window_end;
  search_interval = format_duration r.search_interval;
  search_limit = r.search_limit;
  enabled = r.enabled;
  search_missing = r.search_missing;
}

-- A body with settings, under the status 200, or an error.
pub data GetResponse : Type 0 where
  given : SettingsResponse → GetResponse
  failed : Response → GetResponse

abbrev pub resolved_response : Option Resolved → GetResponse
resolved_response none = failed (respond 500 "failed to resolve settings")
resolved_response (some r) = given (to_settings_response r)

-- The rows that the repository lists, if the database answers.
abbrev pub listed : Bool → Option String → Store → Option (List (String × String))
listed available id s = if available then some (rows id s) else none

module _ (parse_uuid : String → Option String) (parse_duration : String → Option ℤ)
    (quote : String → String) (available : Bool) where
  -- The query parameter `instanceId`; absent and empty both mean the global settings.
  abbrev pub with_target : String → Store → (Option String → Response × Store) → Response × Store
  with_target raw s handler = if str_eq raw "" then handler none else elim (parse_uuid raw) [
    | none ↦ (respond 400 "invalid UUID", s)
    | some id ↦ handler (some id)
  ]

  unfoldable pub handle_get_settings : String → Store → GetResponse
  handle_get_settings raw s =
      if str_eq raw ""
      then resolved_response (resolve_global parse_duration (listed available none s))
      else elim (parse_uuid raw) [
        | none ↦ failed (respond 400 "invalid UUID")
        | some id ↦
            resolved_response
              (resolve parse_duration (listed available none s) (listed available (some id) s))
      ]

  unfoldable pub handle_update_settings :
      String → Option (List (String × String)) → Store → Response × Store
  handle_update_settings raw body s = with_body body s λ entries. with_target raw s λ id.
      let (outcome, s') = set_batch parse_duration available id entries s in
      (outcome_response quote "failed to update settings" outcome, s')

  unfoldable pub handle_delete_settings : String → Option (List String) → Store → Response × Store
  handle_delete_settings raw body s = with_body body s λ keys.
      if is_nil keys
      then (respond 400 "keys must not be empty", s)
      else with_target raw s λ id.
        let (outcome, s') = remove_batch available id keys s in
        (outcome_response quote "failed to remove settings" outcome, s')

  -- The value of `instanceId` that the page puts in the address.
  abbrev pub raw_target : Option String → String
  raw_target none = ""
  raw_target (some tab) = tab

  -- The server as the page sees it.
  unfoldable pub server : SettingsApi Store
  unfolding handle_update_settings handle_delete_settings
  server = record {
    put = λ target entries s.
        let (response, s') = handle_update_settings (raw_target target) (some entries) s in
        (reply_of response, s');
    remove = λ target keys s.
        let (response, s') = handle_delete_settings (raw_target target) (some keys) s in
        (reply_of response, s');
  }
