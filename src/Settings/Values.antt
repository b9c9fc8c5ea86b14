-- ===== src/Settings/Values.antt =====
-- internal/settings/settings.go and service.go: the setting keys, `Resolved`, `Defaults`,
-- `validateValue` and `applyOverrides`. `time.ParseDuration` of Go's library is the parameter
-- `parse_duration`: the nanoseconds of a text, or `none` for its error.
pub mod Merge
pub mod Limits
pub mod Usable
use huntarr.Base.{
  is_some, ℕ, zero, suc, ◌*◌, ◌≤◌, String, Bool, true, false, ◌||◌, ◌&&◌, List, [], ◌∷◌, Option,
  none, some, if◌then◌else◌, str_eq, codes, lookup, leb, ltb, ℤ, pos, negsuc,
}
use huntarr.Settings.Number.{atoi}
use huntarr.Settings.Clock.{parse_hhmm}

pub data Key : Type 0 where
  batch_size cooldown_period search_window_start search_window_end : Key
  search_interval search_limit enabled search_missing : Key

-- The constants `KeyBatchSize` and so on.
abbrev pub key_name : Key → String
key_name batch_size = "batch_size"
key_name cooldown_period = "cooldown_period"
key_name search_window_start = "search_window_start"
key_name search_window_end = "search_window_end"
key_name search_interval = "search_interval"
key_name search_limit = "search_limit"
key_name enabled = "enabled"
key_name search_missing = "search_missing"

-- `validKeys`, with the constant that each text is.
abbrev pub valid_keys : List (String × Key)
valid_keys =
    ("batch_size", batch_size)
    ∷ ("cooldown_period", cooldown_period)
    ∷ ("search_window_start", search_window_start)
    ∷ ("search_window_end", search_window_end)
    ∷ ("search_interval", search_interval)
    ∷ ("search_limit", search_limit)
    ∷ ("enabled", enabled)
    ∷ ("search_missing", search_missing)
    ∷ []

-- The constant that a text is, for `ValidKey` and the `switch` on a key; `none` is an unknown key.
unfoldable pub key_of : String → Option Key
unfolding lookup
key_of k = lookup k valid_keys

pub record Resolved : Type 0 where
  pub batch_size : ℤ
  pub cooldown_period : ℕ  -- nanoseconds
  pub search_window_start : String
  pub search_window_end : String
  pub search_interval : ℕ  -- nanoseconds
  pub search_limit : ℤ
  pub enabled : Bool
  pub search_missing : Bool

abbrev pub minute : ℕ
minute = 60 * 1000000000

abbrev pub hour : ℕ
hour = 60 * minute

abbrev pub max_cooldown_period : ℕ
max_cooldown_period = 90 * 24 * hour

abbrev pub max_search_interval : ℕ
max_search_interval = 7 * 24 * hour

abbrev pub defaults : Resolved
defaults = record {
  batch_size = pos 4;
  cooldown_period = 24 * hour;
  search_window_start = "";
  search_window_end = "";
  search_interval = 30 * minute;
  search_limit = pos 100;
  enabled = true;
  search_missing = true;
}

-- `strconv.ParseBool`
unfoldable pub parse_bool : String → Option Bool
parse_bool v =
    if str_eq v "1"
      || str_eq v "t"
      || str_eq v "T"
      || str_eq v "TRUE"
      || str_eq v "true"
      || str_eq v "True"
    then some true
    else if str_eq v "0"
        || str_eq v "f"
        || str_eq v "F"
        || str_eq v "FALSE"
        || str_eq v "false"
        || str_eq v "False"
    then some false
    else none

abbrev pub get_or_keep {ℓ} : {A : Type ℓ} → A → Option A → A
get_or_keep old none = old
get_or_keep old (some new) = new

-- A stored duration: the old value if there is an error or it is not positive, at most `top`.
abbrev pub clamp_duration : ℕ → ℕ → Option ℤ → ℕ
clamp_duration top old none = old
clamp_duration top old (some (negsuc n)) = old
clamp_duration top old (some (pos zero)) = old
clamp_duration top old (some (pos (suc n))) = if ltb top (suc n) then top else suc n

-- Whether a value that was parsed is a positive integer, or a positive duration of at most `top`.
abbrev pub is_positive : Option ℤ → Bool
is_positive none = false
is_positive (some (negsuc n)) = false
is_positive (some (pos n)) = ltb 0 n

abbrev pub is_duration : ℕ → Option ℤ → Bool
is_duration top none = false
is_duration top (some (negsuc n)) = false
is_duration top (some (pos n)) = ltb 0 n && leb n top

module _ (parse_duration : String → Option ℤ) where
  -- One round of the loop in `applyOverrides`.
  apply_key : Option Key → String → Resolved → Resolved
  apply_key none v r = r
  apply_key (some batch_size) v r = record r {
    batch_size = get_or_keep r.batch_size (atoi (codes v));
  }
  apply_key (some cooldown_period) v r = record r {
    cooldown_period = clamp_duration max_cooldown_period r.cooldown_period (parse_duration v);
  }
  apply_key (some search_window_start) v r = record r { search_window_start = v }
  apply_key (some search_window_end) v r = record r { search_window_end = v }
  apply_key (some search_interval) v r = record r {
    search_interval = clamp_duration max_search_interval r.search_interval (parse_duration v);
  }
  apply_key (some search_limit) v r = record r {
    search_limit = get_or_keep r.search_limit (atoi (codes v));
  }
  apply_key (some enabled) v r = record r { enabled = get_or_keep r.enabled (parse_bool v) }
  apply_key (some search_missing) v r = record r {
    search_missing = get_or_keep r.search_missing (parse_bool v);
  }

  unfoldable pub apply_overrides : Resolved → List (String × String) → Resolved
  unfolding apply_key
  apply_overrides r [] = r
  apply_overrides r ((k, v) ∷ settings) = apply_overrides (apply_key (key_of k) v r) settings

  -- `validateValue`, of a key that is one of the constants.
  unfoldable pub validate_value : Key → String → Bool
  validate_value batch_size v = is_positive (atoi (codes v))
  validate_value search_limit v = is_positive (atoi (codes v))
  validate_value cooldown_period v = is_duration max_cooldown_period (parse_duration v)
  validate_value search_interval v = is_duration max_search_interval (parse_duration v)
  validate_value enabled v = is_some (parse_bool v)
  validate_value search_missing v = is_some (parse_bool v)
  validate_value search_window_start v = str_eq v "" || is_some (parse_hhmm (codes v))
  validate_value search_window_end v = str_eq v "" || is_some (parse_hhmm (codes v))

  -- `Resolve` with what the repository returns for the global settings and for the instance's.
  unfoldable pub resolve :
      Option (List (String × String)) → Option (List (String × String)) → Option Resolved
  unfolding apply_overrides
  resolve none per_instance = none
  resolve (some global) none = none
  resolve (some global) (some per_instance) =
      some (apply_overrides (apply_overrides defaults global) per_instance)

  unfoldable pub resolve_global : Option (List (String × String)) → Option Resolved
  unfolding apply_overrides
  resolve_global none = none
  resolve_global (some global) = some (apply_overrides defaults global)
