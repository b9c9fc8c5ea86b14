-- ===== src/ArrService.antt =====
-- internal/arr/service.go, with the application types of factory.go: the operations of `Service` that
-- ask the application of an instance. What the application answers is an argument.
use Prim.Native.String
use huntarr.Base.{
  ℕ, String, Bool, ◌&&◌, not, List, [], ◌∷◌, ◌++◌, Option, none, some, if◌then◌else◌, ltb, ◌==◌,
  codes, decimal, str_eq, map, take, length, ℤ, pos, negsuc, is_some,
}
use huntarr.Settings.Number.{atoi}
use huntarr.Arr.Quality.{
  QualityProfile, LibraryItem, UpgradeItem, filter_upgradeable, filter_missing,
}
use huntarr.Scheduler.Cycle.{UpgradeResult, item_id}
use huntarr.Instances.{Instance, Store, Result, ok, invalid, not_found, unavailable, get}

-- What an application answers: its version, its profiles with their ids, its library, and whether it
-- accepts a search; `none` is an error.
pub record App : Type 0 where
  pub version : Option String
  pub profiles : Option (List (ℕ × QualityProfile))
  pub library : Option (List LibraryItem)
  pub accepts : List ℕ → Bool

-- `appConfigs`: the major version that a type wants, 0 for any; other types have no entry.
abbrev pub version_major : String → Option ℕ
version_major t =
    if str_eq t "sonarr"
    then some 0
    else if str_eq t "radarr"
    then some 0
    else if str_eq t "lidarr"
    then some 0
    else if str_eq t "whisparr-v2"
    then some 2
    else if str_eq t "whisparr-v3"
    then some 3
    else none

abbrev pub before_dot : List ℕ → List ℕ
before_dot [] = []
before_dot (c ∷ s) = let rest = before_dot s in if c == b'.' then [] else c ∷ rest

abbrev pub natural_or_zero : Option ℤ → ℕ
natural_or_zero none = 0
natural_or_zero (some (pos n)) = n
natural_or_zero (some (negsuc n)) = 0

unfoldable pub major_version : String → ℕ
unfolding atoi
major_version version = natural_or_zero (atoi (before_dot (codes version)))

-- How a connection test ends; a mismatch has the text of its error.
pub data Connection : Type 0 where
  reached unreachable : Connection
  mismatch : String → Connection

abbrev pub mismatch_text : String → ℕ → String → String
mismatch_text version want app_type =
    String.◌++◌ "application version mismatch: the server reports version " (
      String.◌++◌ version (
        String.◌++◌ "; expected a v"
          (String.◌++◌ (decimal want) (String.◌++◌ " server for " app_type))))

abbrev pub check_major : String → ℕ → String → Connection
check_major app_type want version =
    let got = major_version version in
    if ltb 0 want && ltb 0 got && not (got == want)
    then mismatch (mismatch_text version want app_type)
    else reached

abbrev pub check_version : String → Option ℕ → Option String → Connection
check_version app_type none version = unreachable
check_version app_type (some want) none = unreachable
check_version app_type (some want) (some version) = check_major app_type want version

-- `TestConnection`; an error to build the client is one of the connection.
unfoldable pub test_connection : String → Option String → Connection
unfolding major_version
test_connection app_type version = check_version app_type (version_major app_type) version

infixl 5 ◌>>=◌
abbrev pub ◌>>=◌ {ℓ κ} : {A : Type ℓ} {B : Type κ} → Result A → (A → Result B) → Result B
ok a >>= f = f a
invalid e >>= f = invalid e
not_found >>= f = not_found
unavailable >>= f = unavailable

abbrev pub or_unavailable {ℓ} : {A : Type ℓ} → Option A → Result A
or_unavailable none = unavailable
or_unavailable (some a) = ok a

-- `newApp`
abbrev pub new_app : (Instance → App) → Instance → Result App
new_app ask inst = if is_some (version_major inst.app_type) then ok (ask inst) else unavailable

-- `appForInstance`, with the instance that it gets.
abbrev pub app_for_row : (Instance → App) → Result Instance → Result App
app_for_row ask row = do inst ← row; new_app ask inst

unfoldable pub app_for_instance : Bool → (Instance → App) → String → Store → Result App
unfolding get
app_for_instance found ask id s = app_for_row ask (get found id s)

-- `profileMap`; an assignment is put in front.
unfoldable pub profile_map :
    List (ℕ × QualityProfile) → List (ℕ × QualityProfile) → List (ℕ × QualityProfile)
profile_map [] m = m
profile_map ((id, p) ∷ profiles) m = profile_map profiles ((id, p) ∷ m)

abbrev pub split_library : List (ℕ × QualityProfile) → List LibraryItem → UpgradeResult
split_library profiles items =
    let (upgrades, stats) = filter_upgradeable items (profile_map profiles []) in
    record { items = upgrades; missing_items = filter_missing items; stats = stats }

-- `upgradeableWith`, with the two answers that it fetches.
abbrev pub split_fetched :
    Option (List (ℕ × QualityProfile)) → Option (List LibraryItem) → Result UpgradeResult
split_fetched profiles library = do
  fetched_profiles ← or_unavailable profiles
  items ← or_unavailable library
  ok (split_library fetched_profiles items)

unfoldable pub upgradeable_with : App → Result UpgradeResult
unfolding filter_upgradeable filter_missing profile_map
upgradeable_with app = split_fetched app.profiles app.library

-- The search commands that were sent, with their instances.
abbrev pub Commands : Type 0
Commands = List (String × List ℕ)

abbrev pub send_search : App → String → List ℕ → Result ℕ × Commands
send_search app id ids = (if app.accepts ids then ok (length ids) else unavailable, (id, ids) ∷ [])

-- The items of `SearchCycle`, from the fetched ones on.
abbrev pub search_items : App → String → ℕ → List UpgradeItem → Result ℕ × Commands
search_items app id batch_size [] = (ok 0, [])
search_items app id batch_size (i ∷ items) =
    send_search app id (map item_id (take batch_size (i ∷ items)))

-- A result that is no success ends the cycle before its command.
abbrev pub search_fetched {ℓ} :
    {A : Type ℓ} → Result A → (A → Result ℕ × Commands) → Result ℕ × Commands
search_fetched (ok a) f = f a
search_fetched (invalid e) f = (invalid e, [])
search_fetched not_found f = (not_found, [])
search_fetched unavailable f = (unavailable, [])

-- `SearchCycle`, for a batch size that is not negative.
unfoldable pub search_cycle : Bool → (Instance → App) → String → ℕ → Store → Result ℕ × Commands
unfolding app_for_instance upgradeable_with
search_cycle found ask id batch_size s = search_fetched (app_for_instance found ask id s) λ app.
    search_fetched (upgradeable_with app)
      λ result. search_items app id batch_size (result.items ++ result.missing_items)
