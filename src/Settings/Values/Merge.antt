-- ===== src/Settings/Values/Merge.antt =====
-- `applyOverrides` against a description by lookups, in which the order of the rows plays no part.
use huntarr.Base.{
  eq_iff, String, false, List, [], ◌∷◌, Option, none, some, ◌≡◌, refl, sym, ◌∙◌, ap, arith, ℤ,
  codes, lookup, str_eq, str_eq→eq, All, if◌then◌else◌, Bool-cases, inl, inr, Option-cases, subst,
}
use huntarr.Settings.Number.{atoi}
use huntarr.Settings.Values.{
  Key, Resolved, max_cooldown_period, max_search_interval, clamp_duration, get_or_keep, parse_bool,
  apply_key, key_of, key_name, valid_keys, apply_overrides, batch_size, cooldown_period,
  search_window_start, search_window_end, search_interval, search_limit, enabled, search_missing,
}

-- A table of settings holds a key once, as the unique indexes of the table in the database demand.
abbrev pub HasKeysOnce : List (String × String) → Type 0
HasKeysOnce [] = Unit
HasKeysOnce ((k, v) ∷ t) = (lookup k t ≡ none) × HasKeysOnce t

abbrev pub stored {ℓ} : {A : Type ℓ} → A → (String → A) → Option String → A
stored old read none = old
stored old read (some v) = read v

abbrev pub merged : (String → Option ℤ) → Resolved → (String → Option String) → Resolved
merged parse r find = record {
  batch_size =
      stored r.batch_size (λ v. get_or_keep r.batch_size (atoi (codes v))) (find "batch_size");
  cooldown_period =
      stored r.cooldown_period (λ v. clamp_duration max_cooldown_period r.cooldown_period (parse v))
        (find "cooldown_period");
  search_window_start = stored r.search_window_start (λ v. v) (find "search_window_start");
  search_window_end = stored r.search_window_end (λ v. v) (find "search_window_end");
  search_interval =
      stored r.search_interval (λ v. clamp_duration max_search_interval r.search_interval (parse v))
        (find "search_interval");
  search_limit =
      stored r.search_limit (λ v. get_or_keep r.search_limit (atoi (codes v)))
        (find "search_limit");
  enabled = stored r.enabled (λ v. get_or_keep r.enabled (parse_bool v)) (find "enabled");
  search_missing =
      stored r.search_missing (λ v. get_or_keep r.search_missing (parse_bool v))
        (find "search_missing");
}

-- What a table of keys says of a text that it finds, and of one that it does not.
lookup-some :
    (j : String) (k : Key) (t : List (String × Key))
    → All (λ p. p.0 ≡ key_name p.1) t
    → lookup j t ≡ some k
    → j ≡ key_name k
unfolding lookup
lookup-some j k [] h e = cc
lookup-some j k ((n, k') ∷ t) h e = elim (Bool-cases (str_eq n j)) [
  | inl same ↦
      let found : some k' ≡ some k =
        subst (λ b. (if b then some k' else lookup j t) ≡ some k) same e in
      let key : k' ≡ k = cc in sym (str_eq→eq n j same) ∙ h.0 ∙ ap key_name key
  | inr other ↦
      lookup-some j k t h.1 (subst (λ b. (if b then some k' else lookup j t) ≡ some k) other e)
]

lookup-none :
    (j : String) (t : List (String × Key)) → lookup j t ≡ none → All (λ p. str_eq p.0 j ≡ false) t
unfolding lookup
lookup-none j [] e = tt
lookup-none j ((n, k) ∷ t) e = elim (Bool-cases (str_eq n j)) [
  | inl same ↦
      let found : some k ≡ none = subst (λ b. (if b then some k else lookup j t) ≡ none) same e in
      cc
  | inr other ↦
      (other, lookup-none j t (subst (λ b. (if b then some k else lookup j t) ≡ none) other e))
]

named : All (λ p. p.0 ≡ key_name p.1) valid_keys
named = (refl, (refl, (refl, (refl, (refl, (refl, (refl, (refl, tt))))))))

key_of-key_name : (j : String) (k : Key) → key_of j ≡ some k → j ≡ key_name k
unfolding key_of
key_of-key_name j k e = lookup-some j k valid_keys named e

key_of-none : (j : String) → key_of j ≡ none → lookup j valid_keys ≡ none
unfolding key_of
key_of-none j e = e

lookup-cons_ne :
    (n j w : String) (t : List (String × String))
    → str_eq n j ≡ false
    → lookup n ((j, w) ∷ t) ≡ lookup n t
unfolding lookup
lookup-cons_ne n j w t h = ground (arith, eq_iff n j, eq_iff j n)

module _ (parse : String → Option ℤ) where
  -- A row of a known key, and a row of an unknown one.
  merged-key :
      (k : Key) (w : String) (r : Resolved) (t : List (String × String))
      → lookup (key_name k) t ≡ none
      → merged parse (apply_key parse (some k) w r) (λ n. lookup n t)
        ≡ merged parse r (λ n. lookup n ((key_name k, w) ∷ t))
  unfolding apply_key lookup
  merged-key batch_size w r t h = rw h
  merged-key cooldown_period w r t h = rw h
  merged-key search_window_start w r t h = rw h
  merged-key search_window_end w r t h = rw h
  merged-key search_interval w r t h = rw h
  merged-key search_limit w r t h = rw h
  merged-key enabled w r t h = rw h
  merged-key search_missing w r t h = rw h

  merged-unknown :
      (j w : String) (r : Resolved) (t : List (String × String))
      → All (λ p. str_eq p.0 j ≡ false) valid_keys
      → merged parse r (λ n. lookup n t) ≡ merged parse r (λ n. lookup n ((j, w) ∷ t))
  merged-unknown j w r t h = rw (
    lookup-cons_ne "batch_size" j w t h.0,
    lookup-cons_ne "cooldown_period" j w t h.1.0,
    lookup-cons_ne "search_window_start" j w t h.1.1.0,
    lookup-cons_ne "search_window_end" j w t h.1.1.1.0,
    lookup-cons_ne "search_interval" j w t h.1.1.1.1.0,
    lookup-cons_ne "search_limit" j w t h.1.1.1.1.1.0,
    lookup-cons_ne "enabled" j w t h.1.1.1.1.1.1.0,
    lookup-cons_ne "search_missing" j w t h.1.1.1.1.1.1.1.0,
  )

  merged-cons :
      (j w : String) (r : Resolved) (t : List (String × String))
      → lookup j t ≡ none
      → merged parse (apply_key parse (key_of j) w r) (λ n. lookup n t)
        ≡ merged parse r (λ n. lookup n ((j, w) ∷ t))
  merged-cons j w r t h = elim (Option-cases (key_of j)) [
    | inl e ↦
        rw e
          (unfold apply_key in merged-unknown j w r t (lookup-none j valid_keys (key_of-none j e)))
    | inr (k, e) ↦
        let name = key_of-key_name j k e in
        rw (e, name) (merged-key k w r t (subst (λ n. lookup n t ≡ none) name h))
  ]

  -- If a table holds each key once, applying its rows one after another gives every field from its
  -- own key alone, so the order of the rows plays no part: a field keeps its value where the key is
  -- absent or its value is not readable, and a duration is at most its maximum.
  pub apply_overrides-merged :
      (r : Resolved) (t : List (String × String))
      → HasKeysOnce t
      → apply_overrides parse r t ≡ merged parse r (λ n. lookup n t)
  unfolding apply_overrides
  apply_overrides-merged r [] h = unfold lookup in refl
  apply_overrides-merged r ((j, w) ∷ t) h =
      apply_overrides-merged (apply_key parse (key_of j) w r) t h.1 ∙ merged-cons j w r t h.0
