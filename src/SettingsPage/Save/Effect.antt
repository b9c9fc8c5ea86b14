-- ===== src/SettingsPage/Save/Effect.antt =====
-- What a save and a reset leave on the server, for every server with the laws of `IsLawful`.
use huntarr.Base.{
  All-map, str_eq→eq, String, true, List, [], ◌∷◌, Option, none, some, str_eq, ◌≡◌, refl, sym, ◌∙◌,
  ap, arith, All, Bool-cases, inl, inr,
}
use huntarr.Settings.Store.Batch.{last_write, after_removal}
use huntarr.SettingsPage.Form.{Settings}
use huntarr.SettingsPage.Save.{
  Entry, instance_entries, split_entries, reset_keys, Reply, success, refused, thrown, SettingsApi,
  put_some, remove_some, then_remove, save_instance_settings, reset_to_defaults,
}
use huntarr.SettingsPage.Save.Split.{
  after_save, after_save_absent, IsAbsent, wanted, HasKeysOnce, split_entries-Saves,
}

-- `view s k` is the override that the state `s` holds for the tab `tab` under the key `k`. A
-- request of the tab that succeeds writes or removes just what it names.
pub record IsLawful {S : Type 0} (api : SettingsApi S) (tab : String) : Type 0 where
  pub view : S → String → Option String
  pub put_success :
      (entries : List (String × String)) (s : S) (k : String)
      → (api.put (some tab) entries s).0 ≡ success
      → view (api.put (some tab) entries s).1 k ≡ last_write k entries (view s k)
  pub remove_success :
      (keys : List String) (s : S) (k : String)
      → (api.remove (some tab) keys s).0 ≡ success
      → view (api.remove (some tab) keys s).1 k ≡ after_removal k keys (view s k)

instance_entries-HasKeysOnce :
    (form : Settings) (globals : Option Settings) → HasKeysOnce (instance_entries form globals)
unfolding instance_entries
instance_entries-HasKeysOnce form globals = ground arith

search_limit-IsAbsent :
    (form : Settings) (globals : Option Settings)
    → IsAbsent "search_limit" (instance_entries form globals)
unfolding instance_entries
search_limit-IsAbsent form globals = ground arith

reset_keys_removed :
    All (λ k. (old : Option String) → after_removal k reset_keys old ≡ none) reset_keys
unfolding reset_keys after_removal
reset_keys_removed =
    (λ o. refl, (λ o. refl, (λ o. refl, (λ o. refl, (λ o. refl, (λ o. refl, (λ o. refl, tt)))))))

-- What the instance then uses for an entry: its override, or else the global value.
abbrev pub in_effect : Entry → Option String → String
in_effect e none = e.global
in_effect e (some v) = v

in_effect-wanted : (e : Entry) → in_effect e (wanted e) ≡ e.value
in_effect-wanted e = elim (Bool-cases (str_eq e.value e.global)) [
  | inl same ↦ rw (same, in_effect) (sym (str_eq→eq e.value e.global same))
  | inr other ↦ rw (other, in_effect)
]

module _ {S : Type 0} (api : SettingsApi S) (tab : String) (lawful : IsLawful api tab) where
  open lawful use {view, put_success, remove_success}

  put_some_success :
      (overrides : List (String × String)) (s : S) (k : String)
      → (put_some api tab overrides s).0 ≡ success
      → view (put_some api tab overrides s).1 k ≡ last_write k overrides (view s k)
  unfolding put_some last_write
  put_some_success [] s k h = refl
  put_some_success (o ∷ os) s k h = put_success (o ∷ os) s k h

  remove_some_success :
      (removals : List String) (s : S) (k : String)
      → (remove_some api tab removals s).0 ≡ success
      → view (remove_some api tab removals s).1 k ≡ after_removal k removals (view s k)
  unfolding remove_some after_removal
  remove_some_success [] s k h = refl
  remove_some_success (r ∷ rs) s k h = remove_success (r ∷ rs) s k h

  -- If the save is reported, both requests succeeded.
  then_remove_succeeded :
      (removals : List String) (reply : Reply) (s : S) (k : String)
      → (then_remove api tab removals (reply, s)).0.succeeded ≡ true
      → (reply ≡ success)
        × (view (then_remove api tab removals (reply, s)).1 k ≡ after_removal k removals (view s k))
  unfolding then_remove
  then_remove_succeeded removals success s k h =
      (refl, ground (arith, remove_some_success removals s k))
  then_remove_succeeded removals (refused e) s k h = cc
  then_remove_succeeded removals thrown s k h = cc

  -- A save that is reported as done has carried out both lists.
  save_instance_settings-after_save :
      (form : Settings) (globals : Option Settings) (s : S) (k : String)
      → (save_instance_settings api tab form globals s).0.succeeded ≡ true
      → view (save_instance_settings api tab form globals s).1 k
        ≡ after_save (instance_entries form globals) k (view s k)
  unfolding save_instance_settings
  save_instance_settings-after_save form globals s k h =
      let overrides = (split_entries (instance_entries form globals)).0 in
      let removals = (split_entries (instance_entries form globals)).1 in
      let put = put_some api tab overrides s in
      let (replied, removed) = then_remove_succeeded removals put.0 put.1 k h in
      removed ∙ ap (after_removal k removals) (put_some_success overrides s k replied)

  -- When an instance's save is reported as done, the server holds an override for exactly those of
  -- the seven entries whose value differs from the global one, and the value of the form; so with
  -- the overrides and the global values, each entry has the value of the form. The stored search
  -- limit is left as it was.
  pub save_instance_settings_saved :
      (form : Settings) (globals : Option Settings) (s : S)
      → (save_instance_settings api tab form globals s).0.succeeded ≡ true
      → let s' = (save_instance_settings api tab form globals s).1 in
        All
          (λ e. (view s' e.key ≡ wanted e) × (in_effect e (view s' e.key) ≡ e.value))
          (instance_entries form globals)
        × (view s' "search_limit" ≡ view s "search_limit")
  save_instance_settings_saved form globals s h =
      let es = instance_entries form globals in
      let stored = λ (k : String). save_instance_settings-after_save form globals s k h in
      (
        All-map
            (λ (e : Entry) (saves : (old : Option String) → after_save es e.key old ≡ wanted e).
              let now = stored e.key ∙ saves (view s e.key) in
              (now, ap (in_effect e) now ∙ in_effect-wanted e))
            es (split_entries-Saves es (instance_entries-HasKeysOnce form globals)),
        stored "search_limit"
            ∙ after_save_absent es "search_limit" (view s "search_limit")
                (search_limit-IsAbsent form globals),
      )

  -- When a reset is reported as done, no override is left under any of the seven keys.
  pub reset_to_defaults_removed :
      (s : S)
      → (reset_to_defaults api tab s).0.succeeded ≡ true
      → All (λ k. view (reset_to_defaults api tab s).1 k ≡ none) reset_keys
  unfolding reset_to_defaults
  reset_to_defaults_removed s h =
      All-map
        (λ (k : String) (removed : (old : Option String) → after_removal k reset_keys old ≡ none).
          ground (arith, remove_success reset_keys s k, removed (view s k)))
        reset_keys reset_keys_removed
