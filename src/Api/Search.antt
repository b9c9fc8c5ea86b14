-- ===== src/Api/Search.antt =====
-- internal/api/arr.go: `handleInstanceSearch`, the search that a request asks for. The parameter is
-- `uuid.Parse`, giving the canonical text of an id.
pub mod Served
use huntarr.Base.{
  ℕ, zero, suc, String, Bool, List, [], ◌∷◌, Option, none, some, if◌then◌else◌, ltb, ℤ, pos, negsuc,
}
use huntarr.Instances.{Instance, Store, Result, ok, invalid, not_found, unavailable}
use huntarr.Api.Settings.{Response, respond}
use huntarr.ArrService.{App, Commands, search_cycle}

-- A body: blank, one that cannot be read or is no such JSON, or its `batchSize`, 0 if it has none.
pub data SearchBody : Type 0 where
  blank malformed : SearchBody
  batch : ℤ → SearchBody

-- The number of searched items, or an error.
pub data SearchAnswer : Type 0 where
  searched : ℕ → SearchAnswer
  failed : Response → SearchAnswer

abbrev pub max_search_batch_size : ℕ
max_search_batch_size = 1000

-- `req.BatchSize`, 50 in place of one that is not positive.
abbrev pub or_fifty : ℤ → ℕ
or_fifty (negsuc n) = 50
or_fifty (pos zero) = 50
or_fifty (pos (suc n)) = suc n

abbrev pub search_answer : Result ℕ → SearchAnswer
search_answer (ok n) = searched n
search_answer not_found = failed (respond 404 "instance not found")
search_answer (invalid e) = failed (respond 500 "failed to run search cycle")
search_answer unavailable = failed (respond 500 "failed to run search cycle")

abbrev pub refuse_search : ℕ → String → SearchAnswer × Commands
refuse_search status e = (failed (respond status e), [])

abbrev pub answer_cycle : Result ℕ × Commands → SearchAnswer × Commands
answer_cycle (result, commands) = (search_answer result, commands)

module _ (found : Bool) (ask : Instance → App) (s : Store) where
  abbrev pub search_sized : String → ℕ → SearchAnswer × Commands
  search_sized id size =
      if ltb max_search_batch_size size
      then refuse_search 400 "batchSize must not exceed 1000"
      else answer_cycle (search_cycle found ask id size s)

  abbrev pub search_body : String → SearchBody → SearchAnswer × Commands
  search_body id blank = search_sized id 50
  search_body id malformed = refuse_search 400 "invalid request body"
  search_body id (batch size) = search_sized id (or_fifty size)

  abbrev pub search_path : Option String → SearchBody → SearchAnswer × Commands
  search_path none body = refuse_search 400 "invalid UUID"
  search_path (some id) body = search_body id body

unfoldable pub handle_instance_search :
    (String → Option String)
    → Bool
    → (Instance → App)
    → String
    → SearchBody
    → Store
    → SearchAnswer × Commands
unfolding search_cycle
handle_instance_search parse_uuid found ask raw body s =
    search_path found ask s (parse_uuid raw) body
