-- ===== src/Api/Settings/Errors.antt =====
-- The outcomes of a request that changes settings.
use huntarr.Base.{
  String, Bool, List, [], ◌∷◌, Option, none, some, str_eq, ◌≡◌, inl, inr, refl, subst, ℤ,
  Bool-cases, Option-cases,
}
use huntarr.Settings.Store.{
  Store, Rejection, check_entries, set_batch, upsert_batch, check_keys, remove_batch, delete_batch,
}
use huntarr.Settings.Store.First.{
  FirstUnknown, FirstWrong, check_keys-FirstUnknown, check_entries-FirstWrong,
}
use huntarr.Api.Settings.Endings.{
  target, Ends, carried, no_uuid, refused, down, UpdateEnds, entries_malformed, entries_read,
  DeleteEnds, keys_malformed, no_keys, keys_read,
}
use huntarr.Api.Settings.{
  Response, outcome_response, with_target, handle_update_settings, handle_delete_settings,
}

module _ (parse_uuid : String → Option String) (parse_duration : String → Option ℤ)
    (quote : String → String) (available : Bool) where
  EndsWith :
      String
      → String
      → (Option Rejection → Type 0)
      → (Option String → Store)
      → Store
      → Response × Store
      → Type 0
  EndsWith raw internal IsFirst changed before q =
      Ends parse_uuid parse_duration quote available raw internal IsFirst changed before q.0 q.1

  module _ (raw internal : String) (IsFirst : Option Rejection → Type 0)
      (changed : Option String → Store) (s : Store) where
    with_target-EndsWith :
        (handler : Option String → Response × Store)
        → ((id : Option String)
            → target parse_uuid parse_duration quote available raw ≡ some id
            → EndsWith raw internal IsFirst changed s (handler id))
        → EndsWith raw internal IsFirst changed s
            (with_target parse_uuid parse_duration quote available raw s handler)
    unfolding EndsWith
    with_target-EndsWith handler f = elim (Bool-cases (str_eq raw "")) [
      | inl e ↦ rw e (f none (rw e))
      | inr e ↦ elim (Option-cases (parse_uuid raw)) [
        | inl bad ↦ rw (e, bad) (no_uuid (rw (e, bad)) refl refl)
        | inr (id, parsed) ↦ rw (e, parsed) (f (some id) (rw (e, parsed)))
      ]
    ]

  set_batch-EndsWith :
      (raw : String) (entries : List (String × String)) (s : Store) (id : Option String)
      → target parse_uuid parse_duration quote available raw ≡ some id
      → let q = set_batch parse_duration available id entries s in
        EndsWith raw "failed to update settings"
          (FirstWrong parse_duration entries)
          (λ i. upsert_batch i entries s)
          s
          (outcome_response quote "failed to update settings" q.0, q.1)
  unfolding EndsWith set_batch
  set_batch-EndsWith raw entries s id named =
      elim (Option-cases (check_entries parse_duration entries)) [
        | inl good ↦ elim (Bool-cases available) [
          | inl up ↦
              rw (set_batch, good, up)
                (carried id named
                  (subst (FirstWrong parse_duration entries) good
                    (check_entries-FirstWrong parse_duration entries))
                  refl refl refl)
          | inr away ↦
              rw (set_batch, good, away)
                (down id named
                  (subst (FirstWrong parse_duration entries) good
                    (check_entries-FirstWrong parse_duration entries))
                  refl refl refl)
        ]
        | inr (e, bad) ↦
            rw (set_batch, bad)
              (refused id e named
                (subst (FirstWrong parse_duration entries) bad
                  (check_entries-FirstWrong parse_duration entries))
                refl refl)
      ]

  remove_batch-EndsWith :
      (raw : String) (keys : List String) (s : Store) (id : Option String)
      → target parse_uuid parse_duration quote available raw ≡ some id
      → let q = remove_batch available id keys s in
        EndsWith raw "failed to remove settings"
          (FirstUnknown keys)
          (λ i. delete_batch i keys s)
          s
          (outcome_response quote "failed to remove settings" q.0, q.1)
  unfolding EndsWith remove_batch
  remove_batch-EndsWith raw keys s id named = elim (Option-cases (check_keys keys)) [
    | inl good ↦ elim (Bool-cases available) [
      | inl up ↦
          rw (remove_batch, good, up)
            (carried id named (subst (FirstUnknown keys) good (check_keys-FirstUnknown keys)) refl
              refl refl)
      | inr away ↦
          rw (remove_batch, good, away)
            (down id named (subst (FirstUnknown keys) good (check_keys-FirstUnknown keys)) refl refl
              refl)
    ]
    | inr (e, bad) ↦
        rw (remove_batch, bad)
          (refused id e named (subst (FirstUnknown keys) bad (check_keys-FirstUnknown keys)) refl
            refl)
  ]

  UpdateEndsWith : String → Option (List (String × String)) → Store → Response × Store → Type 0
  UpdateEndsWith raw body before q =
      UpdateEnds parse_uuid parse_duration quote available raw body before q.0 q.1

  DeleteEndsWith : String → Option (List String) → Store → Response × Store → Type 0
  DeleteEndsWith raw body before q =
      DeleteEnds parse_uuid parse_duration quote available raw body before q.0 q.1

  handle_update_settings-UpdateEndsWith :
      (raw : String) (body : Option (List (String × String))) (s : Store)
      → UpdateEndsWith raw body s
          (handle_update_settings parse_uuid parse_duration quote available raw body s)
  unfolding UpdateEndsWith handle_update_settings EndsWith
  handle_update_settings-UpdateEndsWith raw none s = entries_malformed refl refl refl
  handle_update_settings-UpdateEndsWith raw (some entries) s = entries_read entries refl (
      with_target-EndsWith raw "failed to update settings" (FirstWrong parse_duration entries)
        (λ id. upsert_batch id entries s) s _ (set_batch-EndsWith raw entries s))

  handle_delete_settings-DeleteEndsWith :
      (raw : String) (body : Option (List String)) (s : Store)
      → DeleteEndsWith raw body s
          (handle_delete_settings parse_uuid parse_duration quote available raw body s)
  unfolding DeleteEndsWith handle_delete_settings EndsWith
  handle_delete_settings-DeleteEndsWith raw none s = keys_malformed refl refl refl
  handle_delete_settings-DeleteEndsWith raw (some []) s = no_keys refl refl refl
  handle_delete_settings-DeleteEndsWith raw (some (key ∷ keys)) s = keys_read key keys refl (
      with_target-EndsWith raw "failed to remove settings" (FirstUnknown (key ∷ keys))
        (λ id. delete_batch id (key ∷ keys) s) s _ (remove_batch-EndsWith raw (key ∷ keys) s))

  -- What a request to change or to remove settings ends with. A body that cannot be read is answered
  -- with the status 400, then a list of no keys to remove, then an `instanceId` that is no UUID, then
  -- the first entry whose key is unknown or whose value that key does not admit, with a text that names
  -- the key, and in the second case the value; if only the database does not answer, the status is 500.
  -- In all these cases the store is as before. Else the status is 200, and the entries are stored, or
  -- the keys deleted, one after the other, in the rows that the request names.
  pub handle_settings-Ends :
      (raw : String) (update : Option (List (String × String))) (remove : Option (List String))
      (s : Store)
      → let put = handle_update_settings parse_uuid parse_duration quote available raw update s in
        let removed =
          handle_delete_settings parse_uuid parse_duration quote available raw remove s in
        UpdateEnds parse_uuid parse_duration quote available raw update s put.0 put.1
        × DeleteEnds parse_uuid parse_duration quote available raw remove s removed.0 removed.1
  unfolding UpdateEndsWith DeleteEndsWith
  handle_settings-Ends raw update remove s = (
    handle_update_settings-UpdateEndsWith raw update s,
    handle_delete_settings-DeleteEndsWith raw remove s,
  )
