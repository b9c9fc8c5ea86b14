-- ===== src/Api/Settings/Lawful.antt =====
-- The server obeys the laws on which the Settings page relies.
use huntarr.Base.{
  ap, sym, ◌∙◌, str_eq→eq, String, Bool, List, [], ◌∷◌, Option, some, str_eq, ◌≡◌, ◌≢◌, refl, arith,
  ℤ, lookup, Bool-cases, inl, inr,
}
use huntarr.Settings.Store.{
  Store, Outcome, done, rejected, unavailable, rows, upsert_batch, delete_batch, set_batch,
  remove_batch,
}
use huntarr.Settings.Store.Batch.{
  last_write, after_removal, lookup-upsert_batch, lookup-delete_batch,
}
use huntarr.SettingsPage.Save.{success}
use huntarr.SettingsPage.Save.Effect.{IsLawful}
use huntarr.Api.Settings.{
  Response, handle_update_settings, handle_delete_settings, server, reply_of, outcome_response,
}

module _ (parse_uuid : String → Option String) (parse_duration : String → Option ℤ)
    (quote : String → String) (available : Bool) (tab id : String) (named : tab ≢ "")
    (parsed : parse_uuid tab ≡ some id) where
  set_batch_done :
      (entries : List (String × String)) (s : Store)
      → (set_batch parse_duration available (some id) entries s).0 ≡ done
      → (set_batch parse_duration available (some id) entries s).1
        ≡ upsert_batch (some id) entries s
  unfolding set_batch
  set_batch_done entries s h = ground arith

  remove_batch_done :
      (keys : List String) (s : Store)
      → (remove_batch available (some id) keys s).0 ≡ done
      → (remove_batch available (some id) keys s).1 ≡ delete_batch (some id) keys s
  unfolding remove_batch
  remove_batch_done keys s h = ground arith

  handle_update_settings-set_batch :
      (entries : List (String × String)) (s : Store)
      → let (outcome, s') = set_batch parse_duration available (some id) entries s in
        handle_update_settings parse_uuid parse_duration quote available tab (some entries) s
        ≡ (outcome_response quote "failed to update settings" outcome, s')
  unfolding handle_update_settings
  handle_update_settings-set_batch entries s = elim (Bool-cases (str_eq tab "")) [
    | inl e ↦ absurd (named (str_eq→eq tab "" e))
    | inr e ↦ rw (e, parsed)
  ]

  handle_delete_settings-remove_batch :
      (key : String) (keys : List String) (s : Store)
      → let (outcome, s') = remove_batch available (some id) (key ∷ keys) s in
        handle_delete_settings parse_uuid parse_duration quote available tab (some (key ∷ keys)) s
        ≡ (outcome_response quote "failed to remove settings" outcome, s')
  unfolding handle_delete_settings
  handle_delete_settings-remove_batch key keys s = elim (Bool-cases (str_eq tab "")) [
    | inl e ↦ absurd (named (str_eq→eq tab "" e))
    | inr e ↦ rw (e, parsed)
  ]

  success-done :
      (internal : String) (o : Outcome)
      → reply_of (outcome_response quote internal o) ≡ success
      → o ≡ done
  success-done internal done h = refl
  success-done internal unavailable h = cc
  success-done internal (rejected e) h = cc

  pub put_success :
      (entries : List (String × String)) (s : Store) (k : String)
      → ((server parse_uuid parse_duration quote available).put (some tab) entries s).0 ≡ success
      → lookup k (
          rows
            (some id)
            ((server parse_uuid parse_duration quote available).put (some tab) entries s).1)
        ≡ last_write k entries (lookup k (rows (some id) s))
  unfolding server
  put_success entries s k h =
      let handled = handle_update_settings-set_batch entries s in
      let ok = success-done _ _ (ap (λ (p : Response × Store). reply_of p.0) (sym handled) ∙ h) in
      ap (λ (p : Response × Store). lookup k (rows (some id) p.1)) handled
      ∙ ap (λ (t : Store). lookup k (rows (some id) t)) (set_batch_done entries s ok)
      ∙ lookup-upsert_batch (some id) k entries s

  pub remove_success :
      (keys : List String) (s : Store) (k : String)
      → ((server parse_uuid parse_duration quote available).remove (some tab) keys s).0 ≡ success
      → lookup k (
          rows
            (some id)
            ((server parse_uuid parse_duration quote available).remove (some tab) keys s).1)
        ≡ after_removal k keys (lookup k (rows (some id) s))
  unfolding server
  remove_success [] s k h = cc
  remove_success (key ∷ keys) s k h =
      let handled = handle_delete_settings-remove_batch key keys s in
      let ok = success-done _ _ (ap (λ (p : Response × Store). reply_of p.0) (sym handled) ∙ h) in
      ap (λ (p : Response × Store). lookup k (rows (some id) p.1)) handled
      ∙ ap (λ (t : Store). lookup k (rows (some id) t)) (remove_batch_done (key ∷ keys) s ok)
      ∙ lookup-delete_batch (some id) k (key ∷ keys) s

  -- The rows of the instance are the overrides that the page means.
  unfoldable pub server-IsLawful : IsLawful (server parse_uuid parse_duration quote available) tab
  server-IsLawful = record {
    view = λ s k. lookup k (rows (some id) s);
    put_success = put_success;
    remove_success = remove_success;
  }
