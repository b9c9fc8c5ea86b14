-- ===== src/Api/Connect.antt =====
-- internal/api/instance.go: `handleTestInstance`, and what testInstance of
-- web/static/js/connections.js reads of its answer. Parameters: `parse_uuid` is `uuid.Parse`, giving
-- the canonical text of an id, and `version_of` what an instance's application says to be its version.
pub mod Shown
use Prim.Native.String
use huntarr.Base.{
  ℕ, String, Bool, true, false, not, List, [], Option, none, some, if◌then◌else◌, leb, ltb, ◌&&◌,
}
use huntarr.Instances.{
  Instance, Store, Result, ok, invalid, not_found, unavailable, get, is_app_type,
}
use huntarr.Api.Settings.{Response, respond}
use huntarr.ArrService.{Connection, reached, unreachable, mismatch, test_connection}
use huntarr.Connections.{Tested, answered}

-- An error, or a status with `status` and `message` of the body.
pub data TestAnswer : Type 0 where
  failed : Response → TestAnswer
  reported : ℕ → String → String → TestAnswer

abbrev pub test_answer : Connection → TestAnswer
test_answer reached = reported 200 "ok" ""
test_answer unreachable =
    reported 502 "failed" "connection test failed; check the instance URL and API key"
test_answer (mismatch e) = reported 502 "failed" e

module _ (version_of : Instance → Option String) where
  abbrev pub test_found : Result Instance → TestAnswer
  test_found (ok inst) =
      if not (is_app_type inst.app_type)
      then failed (respond 400 (String.◌++◌ "unknown application type: " inst.app_type))
      else test_answer (test_connection inst.app_type (version_of inst))
  test_found not_found = failed (respond 404 "instance not found")
  test_found (invalid e) = failed (respond 500 "failed to get instance")
  test_found unavailable = failed (respond 500 "failed to get instance")

  abbrev pub test_path : Bool → Option String → Store → TestAnswer
  test_path found none s = failed (respond 400 "invalid UUID")
  test_path found (some id) s = test_found (get found id s)

  unfoldable pub handle_test_instance :
      (String → Option String) → Bool → String → Store → TestAnswer
  unfolding test_connection get
  handle_test_instance parse_uuid found raw s = test_path found (parse_uuid raw) s

-- `resp.ok`
abbrev pub is_ok : ℕ → Bool
is_ok status = leb 200 status && ltb status 300

-- The page reads `status` and `message`, which the body of an error does not have.
abbrev pub read_answer : TestAnswer → Tested
read_answer (failed r) = answered (is_ok r.status) "" ""
read_answer (reported status state message) = answered (is_ok status) state message
