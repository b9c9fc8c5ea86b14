-- ===== src/Settings/Store/Single.antt =====
-- internal/settings/service.go: `Set` and `Remove`, of one setting.
use huntarr.Base.{String, Bool, [], ◌∷◌, Option, none, some, if◌then◌else◌, ℤ, ◌≡◌, refl}
use huntarr.Settings.Values.{Key, key_of}
use huntarr.Settings.Store.{
  Store, upsert, delete, Rejection, unknown_key, Outcome, done, unavailable, rejected, check_key,
  check_entries, upsert_batch, set_batch, check_keys, delete_batch, remove_batch,
}

abbrev pub set_checked :
    Option Rejection → Bool → Option String → String × String → Store → Outcome × Store
set_checked (some error) available id e s = (rejected error, s)
set_checked none available id e s = if available then (done, upsert id e s) else (unavailable, s)

unfoldable pub set_setting :
    (String → Option ℤ) → Bool → Option String → String → String → Store → Outcome × Store
unfolding check_key upsert
set_setting parse_duration available id key value s =
    set_checked (check_key parse_duration key (key_of key) value) available id (key, value) s

abbrev pub remove_known : Option Key → Bool → Option String → String → Store → Outcome × Store
remove_known none available id key s = (rejected (unknown_key key), s)
remove_known (some k) available id key s =
    if available then (done, delete id key s) else (unavailable, s)

unfoldable pub remove_setting : Bool → Option String → String → Store → Outcome × Store
unfolding key_of delete
remove_setting available id key s = remove_known (key_of key) available id key s

-- One setting is set and removed as a batch of one is.
pub set_setting-set_batch :
    (parse_duration : String → Option ℤ) (available : Bool) (id : Option String)
    (key value : String) (s : Store)
    → set_setting parse_duration available id key value s
      ≡ set_batch parse_duration available id ((key, value) ∷ []) s
unfolding set_setting set_batch check_entries upsert_batch
set_setting-set_batch parse_duration available id key value s =
    go (check_key parse_duration key (key_of key) value)
  where
    go :
        (o : Option Rejection)
        → set_checked o available id (key, value) s
          ≡ (elim (elim o as (λ _. Option Rejection) [ none ↦ none | some error ↦ some error ]) [
            | some error ↦ (rejected error, s)
            | none ↦ if available then (done, upsert id (key, value) s) else (unavailable, s)
          ])
    go none = refl
    go (some error) = refl

pub remove_setting-remove_batch :
    (available : Bool) (id : Option String) (key : String) (s : Store)
    → remove_setting available id key s ≡ remove_batch available id (key ∷ []) s
unfolding remove_setting remove_batch check_keys delete_batch
remove_setting-remove_batch available id key s = go (key_of key)
  where
    go :
        (o : Option Key)
        → remove_known o available id key s
          ≡ (elim (elim o as (λ _. Option Rejection) [
            | none ↦ some (unknown_key key)
            | some k ↦ none
          ]) [
            | some error ↦ (rejected error, s)
            | none ↦ if available then (done, delete id key s) else (unavailable, s)
          ])
    go none = refl
    go (some k) = refl
