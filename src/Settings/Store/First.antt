-- ===== src/Settings/Store/First.antt =====
-- The first entry of a request that is wrong: the loops of `SetBatch` and `RemoveBatch`.
use huntarr.Base.{
  String, true, false, List, [], ◌∷◌, Option, none, some, ◌≡◌, ℤ, inl, inr, Bool-cases,
  Option-cases,
}
use huntarr.Settings.Values.{Key, key_of, validate_value}
use huntarr.Settings.Store.{
  Rejection, unknown_key, invalid_value, check_key, check_entries, check_keys,
}

-- All keys are known, or the first that is not is the one of the error.
pub data FirstUnknown : List String → Option Rejection → Type 0 where
  all_known : FirstUnknown [] none
  unknown :
      {k : String} {keys : List String}
      → key_of k ≡ none
      → FirstUnknown (k ∷ keys) (some (unknown_key k))
  known :
      {k : String} {n : Key} {keys : List String} {o : Option Rejection}
      → key_of k ≡ some n
      → FirstUnknown keys o
      → FirstUnknown (k ∷ keys) o

pub check_keys-FirstUnknown : (keys : List String) → FirstUnknown keys (check_keys keys)
unfolding check_keys
check_keys-FirstUnknown [] = all_known
check_keys-FirstUnknown (k ∷ keys) = elim (Option-cases (key_of k)) [
  | inl e ↦ rw (check_keys, e) (unknown e)
  | inr (n, e) ↦ rw (check_keys, e) (known e (check_keys-FirstUnknown keys))
]

module _ (parse_duration : String → Option ℤ) where
  -- All entries are right, with known keys and values that these admit, or the first that is not has
  -- the error.
  pub data FirstWrong : List (String × String) → Option Rejection → Type 0 where
    all_right : FirstWrong [] none
    unknown :
        {k v : String} {entries : List (String × String)}
        → key_of k ≡ none
        → FirstWrong ((k, v) ∷ entries) (some (unknown_key k))
    invalid :
        {k v : String} {n : Key} {entries : List (String × String)}
        → key_of k ≡ some n
        → validate_value parse_duration n v ≡ false
        → FirstWrong ((k, v) ∷ entries) (some (invalid_value k v))
    right :
        {k v : String} {n : Key} {entries : List (String × String)} {o : Option Rejection}
        → key_of k ≡ some n
        → validate_value parse_duration n v ≡ true
        → FirstWrong entries o
        → FirstWrong ((k, v) ∷ entries) o

  pub check_entries-FirstWrong :
      (entries : List (String × String)) → FirstWrong entries (check_entries parse_duration entries)
  unfolding check_entries check_key
  check_entries-FirstWrong [] = all_right
  check_entries-FirstWrong ((k, v) ∷ entries) = elim (Option-cases (key_of k)) [
    | inl e ↦ rw (check_entries, e) (unknown e)
    | inr (n, e) ↦ elim (Bool-cases (validate_value parse_duration n v)) [
      | inl good ↦ rw (check_entries, e, good) (right e good (check_entries-FirstWrong entries))
      | inr bad ↦ rw (check_entries, e, bad) (invalid e bad)
    ]
  ]
