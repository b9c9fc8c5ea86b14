-- ===== src/Settings/Store.antt =====
-- internal/settings/service.go (`SetBatch`, `RemoveBatch`) over internal/settings/sqlite.go
-- (`UpsertBatch`, `DeleteBatch`, `ListGlobal`, `ListByInstance`): the rows with no instance, and
-- those of each instance. Whether the database carries a transaction out is the argument
-- `available`; a transaction that fails changes nothing.
pub mod Batch
pub mod Valid
pub mod Single
pub mod First
use huntarr.Base.{
  String, Bool, true, false, ◌&&◌, List, [], ◌∷◌, Option, none, some, if◌then◌else◌, str_eq, lookup,
  insert, erase, ℤ,
}
use huntarr.Settings.Values.{Key, key_of, validate_value, Resolved, resolve}

abbrev pub Table : Type 0
Table = List (String × String)

pub record Store : Type 0 where
  pub global : Table
  pub overrides : String → Table

-- The rows that an `instanceID` of a request names.
unfoldable pub rows : Option String → Store → Table
rows none s = s.global
rows (some id) s = s.overrides id

-- The upsert of one row, and the deletion of a key.
unfoldable pub upsert : Option String → String × String → Store → Store
upsert none (k, v) s = record s { global = insert k v s.global }
upsert (some id) (k, v) s = record s {
  overrides = λ j. if str_eq id j then insert k v (s.overrides j) else s.overrides j;
}

unfoldable pub delete : Option String → String → Store → Store
delete none k s = record s { global = erase k s.global }
delete (some id) k s = record s {
  overrides = λ j. if str_eq id j then erase k (s.overrides j) else s.overrides j;
}

unfoldable pub upsert_batch : Option String → List (String × String) → Store → Store
unfolding upsert
upsert_batch id [] s = s
upsert_batch id (e ∷ entries) s = upsert_batch id entries (upsert id e s)

unfoldable pub delete_batch : Option String → List String → Store → Store
unfolding delete
delete_batch id [] s = s
delete_batch id (k ∷ keys) s = delete_batch id keys (delete id k s)

-- `ErrUnknownKey` of a key, and `ErrInvalidValue` of a key and a value.
pub data Rejection : Type 0 where
  unknown_key : String → Rejection
  invalid_value : String → String → Rejection

pub data Outcome : Type 0 where
  done unavailable : Outcome
  rejected : Rejection → Outcome

module _ (parse_duration : String → Option ℤ) where
  -- `ValidKey`, then `validateValue`; `none` is no error.
  unfoldable pub check_key : String → Option Key → String → Option Rejection
  check_key key none v = some (unknown_key key)
  check_key key (some k) v =
      if validate_value parse_duration k v then none else some (invalid_value key v)

  abbrev check_entry : String × String → Option Rejection
  check_entry (k, v) = check_key k (key_of k) v

  -- The first error of the loop.
  unfoldable pub check_entries : List (String × String) → Option Rejection
  unfolding check_key
  check_entries [] = none
  check_entries (e ∷ entries) = elim (check_entry e) [
    | none ↦ check_entries entries
    | some error ↦ some error
  ]

  unfoldable pub set_batch : Bool → Option String → List (String × String) → Store → Outcome × Store
  unfolding check_entries upsert_batch
  set_batch available id entries s = elim (check_entries entries) [
    | some error ↦ (rejected error, s)
    | none ↦ if available then (done, upsert_batch id entries s) else (unavailable, s)
  ]

-- The first key of `RemoveBatch` that is not known.
unfoldable pub check_keys : List String → Option Rejection
unfolding key_of
check_keys [] = none
check_keys (k ∷ keys) = elim (key_of k) [ none ↦ some (unknown_key k) | some key ↦ check_keys keys ]

unfoldable pub remove_batch : Bool → Option String → List String → Store → Outcome × Store
unfolding check_keys delete_batch
remove_batch available id keys s = elim (check_keys keys) [
  | some error ↦ (rejected error, s)
  | none ↦ if available then (done, delete_batch id keys s) else (unavailable, s)
]
