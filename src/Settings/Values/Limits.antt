-- ===== src/Settings/Values/Limits.antt =====
-- The bounds that resolved settings keep, whatever is stored.
use huntarr.Base.{
  ℕ, zero, suc, ◌≤◌, ◌<◌, String, List, [], ◌∷◌, Option, none, some, ◌≡◌, arith, ℤ, pos, negsuc,
}
use huntarr.Settings.Values.{
  Key, Resolved, defaults, max_cooldown_period, max_search_interval, clamp_duration, apply_key,
  key_of, apply_overrides, resolve, batch_size, cooldown_period, search_window_start,
  search_window_end, search_interval, search_limit, enabled, search_missing,
}

pub record IsBounded (r : Resolved) : Type 0 where
  pub cooldown_positive : 0 < r.cooldown_period
  pub cooldown_bound : r.cooldown_period ≤ max_cooldown_period
  pub interval_positive : 0 < r.search_interval
  pub interval_bound : r.search_interval ≤ max_search_interval

clamp_duration_bounds :
    (top old : ℕ) (d : Option ℤ)
    → 0 < top
    → 0 < old
    → old ≤ top
    → (0 < clamp_duration top old d) × (clamp_duration top old d ≤ top)
clamp_duration_bounds top old none ht ho hb = (ho, hb)
clamp_duration_bounds top old (some (negsuc n)) ht ho hb = (ho, hb)
clamp_duration_bounds top old (some (pos zero)) ht ho hb = (ho, hb)
clamp_duration_bounds top old (some (pos (suc n))) ht ho hb = ground arith

module _ (parse_duration : String → Option ℤ) where
  apply_key-IsBounded :
      (k : Option Key) (v : String) (r : Resolved)
      → IsBounded r
      → IsBounded (apply_key parse_duration k v r)
  unfolding apply_key
  apply_key-IsBounded none v r b = b
  apply_key-IsBounded (some batch_size) v r b = ground arith
  apply_key-IsBounded (some cooldown_period) v r b =
      ground (arith, clamp_duration_bounds max_cooldown_period r.cooldown_period (parse_duration v))
  apply_key-IsBounded (some search_window_start) v r b = ground arith
  apply_key-IsBounded (some search_window_end) v r b = ground arith
  apply_key-IsBounded (some search_interval) v r b =
      ground (arith, clamp_duration_bounds max_search_interval r.search_interval (parse_duration v))
  apply_key-IsBounded (some search_limit) v r b = ground arith
  apply_key-IsBounded (some enabled) v r b = ground arith
  apply_key-IsBounded (some search_missing) v r b = ground arith

  pub apply_overrides-IsBounded :
      (r : Resolved) (settings : List (String × String))
      → IsBounded r
      → IsBounded (apply_overrides parse_duration r settings)
  unfolding apply_overrides
  apply_overrides-IsBounded r [] b = b
  apply_overrides-IsBounded r ((k, v) ∷ settings) b =
      apply_overrides-IsBounded (apply_key parse_duration (key_of k) v r) settings
        (apply_key-IsBounded (key_of k) v r b)

  -- Whatever the repository holds, resolved settings have a positive cooldown of at most ninety
  -- days and a positive search interval of at most seven days.
  pub resolve-IsBounded :
      (global per_instance : Option (List (String × String))) {r : Resolved}
      → resolve parse_duration global per_instance ≡ some r
      → IsBounded r
  unfolding resolve
  resolve-IsBounded none per_instance e = cc
  resolve-IsBounded (some global) none e = cc
  resolve-IsBounded (some global) (some per_instance) e = rw (← value e) (
      apply_overrides-IsBounded _ per_instance
        (apply_overrides-IsBounded defaults global (omega arith)))
    where
      value : {a b : Resolved} → some a ≡ some b → a ≡ b
      value h = cc
