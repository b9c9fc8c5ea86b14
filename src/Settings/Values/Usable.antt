-- ===== src/Settings/Values/Usable.antt =====
-- Settings with which a search cycle can run.
use huntarr.Base.{
  ℕ, ◌<◌, String, true, false, List, [], ◌∷◌, Option, none, some, ◌≡◌, refl, arith, ℤ, pos, negsuc,
  All, codes,
}
use huntarr.Settings.Number.{atoi}
use huntarr.Settings.Values.{
  Key, Resolved, defaults, validate_value, is_positive, get_or_keep, apply_key, key_of,
  apply_overrides, batch_size, cooldown_period, search_window_start, search_window_end,
  search_interval, search_limit, enabled, search_missing,
}

abbrev pub IsPositive : ℤ → Type 0
IsPositive z = (n : ℕ) × (z ≡ pos n) × (0 < n)

-- Settings with which a search cycle can run.
pub record IsUsable (r : Resolved) : Type 0 where
  pub batch : IsPositive r.batch_size
  pub limit : IsPositive r.search_limit

get_or_keep-IsPositive :
    (old : ℤ) (o : Option ℤ)
    → IsPositive old
    → is_positive o ≡ true
    → IsPositive (get_or_keep old o)
get_or_keep-IsPositive old none h e = h
get_or_keep-IsPositive old (some (pos n)) h e = (n, refl, ground (arith, e))
get_or_keep-IsPositive old (some (negsuc n)) h e = absurd (let bad : false ≡ true = e in cc)

pub defaults-IsUsable : IsUsable defaults
defaults-IsUsable = record { batch = (4, refl, omega arith); limit = (100, refl, omega arith) }

module _ (parse_duration : String → Option ℤ) where
  -- A value that the validation accepts for its key; a key that is unknown has no effect.
  abbrev pub Validates : Option Key → String → Type 0
  Validates none v = Unit
  Validates (some k) v = validate_value parse_duration k v ≡ true

  apply_key-IsUsable :
      (k : Option Key) (v : String) (r : Resolved)
      → Validates k v
      → IsUsable r
      → IsUsable (apply_key parse_duration k v r)
  unfolding apply_key validate_value
  apply_key-IsUsable none v r a h = h
  apply_key-IsUsable (some batch_size) v r a h = record {
    batch = get_or_keep-IsPositive r.batch_size (atoi (codes v)) h.batch a;
    limit = h.limit;
  }
  apply_key-IsUsable (some cooldown_period) v r a h = record { batch = h.batch; limit = h.limit }
  apply_key-IsUsable (some search_window_start) v r a h = record {
    batch = h.batch;
    limit = h.limit;
  }
  apply_key-IsUsable (some search_window_end) v r a h = record { batch = h.batch; limit = h.limit }
  apply_key-IsUsable (some search_interval) v r a h = record { batch = h.batch; limit = h.limit }
  apply_key-IsUsable (some search_limit) v r a h = record {
    batch = h.batch;
    limit = get_or_keep-IsPositive r.search_limit (atoi (codes v)) h.limit a;
  }
  apply_key-IsUsable (some enabled) v r a h = record { batch = h.batch; limit = h.limit }
  apply_key-IsUsable (some search_missing) v r a h = record { batch = h.batch; limit = h.limit }

  pub apply_overrides-IsUsable :
      (r : Resolved) (settings : List (String × String))
      → All (λ e. Validates (key_of e.0) e.1) settings
      → IsUsable r
      → IsUsable (apply_overrides parse_duration r settings)
  unfolding apply_overrides
  apply_overrides-IsUsable r [] a h = h
  apply_overrides-IsUsable r ((k, v) ∷ settings) a h =
      apply_overrides-IsUsable (apply_key parse_duration (key_of k) v r) settings a.1
        (apply_key-IsUsable (key_of k) v r a.0 h)
