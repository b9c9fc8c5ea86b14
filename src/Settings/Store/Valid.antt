-- ===== src/Settings/Store/Valid.antt =====
-- What the stored settings resolve to after requests of the API.
use huntarr.Base.{
  String, Bool, List, [], ◌∷◌, Option, none, some, if◌then◌else◌, str_eq, ◌≡◌, refl, ℤ, All,
  All-map, All-insert, All-erase, if_rule, subst, inl, inr, Bool-cases, Option-cases,
}
use huntarr.Settings.Values.{
  Key, Resolved, defaults, validate_value, key_of, resolve, resolve_global,
}
use huntarr.Settings.Values.Usable.{
  Validates, IsUsable, apply_overrides-IsUsable, defaults-IsUsable,
}
use huntarr.Settings.Store.{
  Store, Table, invalid_value, Outcome, upsert, delete, upsert_batch, delete_batch, check_key,
  check_entry, check_entries, set_batch, check_keys, remove_batch,
}

-- A batch of the API, with whether the database carries it out.
pub data Request : Type 0 where
  put : Bool → Option String → List (String × String) → Request
  remove : Bool → Option String → List String → Request

abbrev pub empty_store : Store
empty_store = record { global = []; overrides = λ id. [] }

module _ (parse_duration : String → Option ℤ) where
  abbrev pub carry_out : Request → Store → Store
  carry_out (put available id entries) s = (set_batch parse_duration available id entries s).1
  carry_out (remove available id keys) s = (remove_batch available id keys s).1

  pub carry_out_all : List Request → Store → Store
  carry_out_all [] s = s
  carry_out_all (q ∷ requests) s = carry_out_all requests (carry_out q s)

  abbrev pub IsAccepted : String × String → Type 0
  IsAccepted e = check_entry parse_duration e ≡ none

  pub record IsValid (s : Store) : Type 0 where
    pub global : All IsAccepted s.global
    pub overrides : (id : String) → All IsAccepted (s.overrides id)

  upsert-IsValid :
      (id : Option String) (e : String × String) (s : Store)
      → IsAccepted e
      → IsValid s
      → IsValid (upsert id e s)
  unfolding upsert
  upsert-IsValid none (k, v) s a h = record {
    global = All-insert IsAccepted k v s.global a h.global;
    overrides = h.overrides;
  }
  upsert-IsValid (some id) (k, v) s a h = record {
    global = h.global;
    overrides = λ j.
        if_rule (All IsAccepted) (str_eq id j) _ _
          (λ _. All-insert IsAccepted k v (s.overrides j) a (h.overrides j)) (λ _. h.overrides j);
  }

  delete-IsValid :
      (id : Option String) (k : String) (s : Store) → IsValid s → IsValid (delete id k s)
  unfolding delete
  delete-IsValid none k s h = record {
    global = All-erase IsAccepted k s.global h.global;
    overrides = h.overrides;
  }
  delete-IsValid (some id) k s h = record {
    global = h.global;
    overrides = λ j.
        if_rule (All IsAccepted) (str_eq id j) _ _
          (λ _. All-erase IsAccepted k (s.overrides j) (h.overrides j)) (λ _. h.overrides j);
  }

  upsert_batch-IsValid :
      (id : Option String) (entries : List (String × String)) (s : Store)
      → All IsAccepted entries
      → IsValid s
      → IsValid (upsert_batch id entries s)
  unfolding upsert_batch
  upsert_batch-IsValid id [] s a h = h
  upsert_batch-IsValid id (e ∷ entries) s a h =
      upsert_batch-IsValid id entries (upsert id e s) a.1 (upsert-IsValid id e s a.0 h)

  delete_batch-IsValid :
      (id : Option String) (keys : List String) (s : Store)
      → IsValid s
      → IsValid (delete_batch id keys s)
  unfolding delete_batch
  delete_batch-IsValid id [] s h = h
  delete_batch-IsValid id (k ∷ keys) s h =
      delete_batch-IsValid id keys (delete id k s) (delete-IsValid id k s h)

  check_entries-IsAccepted :
      (entries : List (String × String))
      → check_entries parse_duration entries ≡ none
      → All IsAccepted entries
  unfolding check_entries
  check_entries-IsAccepted [] e = tt
  check_entries-IsAccepted (x ∷ entries) e = elim (Option-cases (check_entry parse_duration x)) [
    | inl good ↦ (
      good,
      check_entries-IsAccepted entries (
          subst
            (λ o.
              elim o [ none ↦ check_entries parse_duration entries | some error ↦ some error ]
              ≡ none)
            good e),
    )
    | inr (error, bad) ↦
        let refused : some error ≡ none =
          subst
            (λ o.
              elim o [ none ↦ check_entries parse_duration entries | some error ↦ some error ]
              ≡ none)
            bad e in
        cc
  ]

  set_batch-IsValid :
      (available : Bool) (id : Option String) (entries : List (String × String)) (s : Store)
      → IsValid s
      → IsValid (set_batch parse_duration available id entries s).1
  unfolding set_batch
  set_batch-IsValid available id entries s h =
      elim (Option-cases (check_entries parse_duration entries)) [
        | inl good ↦
            rw (good, set_batch)
              (if_rule (λ (q : Outcome × Store). IsValid q.1) available _ _
                (λ _. upsert_batch-IsValid id entries s (check_entries-IsAccepted entries good) h)
                (λ _. h))
        | inr (error, bad) ↦ rw (bad, set_batch) h
      ]

  remove_batch-IsValid :
      (available : Bool) (id : Option String) (keys : List String) (s : Store)
      → IsValid s
      → IsValid (remove_batch available id keys s).1
  unfolding remove_batch
  remove_batch-IsValid available id keys s h = elim (Option-cases (check_keys keys)) [
    | inl good ↦
        rw (good, remove_batch)
          (if_rule (λ (q : Outcome × Store). IsValid q.1) available _ _
            (λ _. delete_batch-IsValid id keys s h) (λ _. h))
    | inr (error, bad) ↦ rw (bad, remove_batch) h
  ]

  pub carry_out-IsValid : (q : Request) (s : Store) → IsValid s → IsValid (carry_out q s)
  carry_out-IsValid (put available id entries) s h = set_batch-IsValid available id entries s h
  carry_out-IsValid (remove available id keys) s h = remove_batch-IsValid available id keys s h

  carry_out_all-IsValid :
      (requests : List Request) (s : Store) → IsValid s → IsValid (carry_out_all requests s)
  unfolding carry_out_all
  carry_out_all-IsValid [] s h = h
  carry_out_all-IsValid (q ∷ requests) s h =
      carry_out_all-IsValid requests (carry_out q s) (carry_out-IsValid q s h)

  IsAccepted-Validates :
      (key : String) (o : Option Key) (v : String)
      → check_key parse_duration key o v ≡ none
      → Validates parse_duration o v
  unfolding check_key
  IsAccepted-Validates key none v e = cc
  IsAccepted-Validates key (some k) v e = elim (Bool-cases (validate_value parse_duration k v)) [
    | inl good ↦ good
    | inr bad ↦
        let refused : some (invalid_value key v) ≡ none =
          subst (λ b. (if b then none else some (invalid_value key v)) ≡ none) bad e in
        cc
  ]

  Validated-rows :
      (t : Table) → All IsAccepted t → All (λ e. Validates parse_duration (key_of e.0) e.1) t
  Validated-rows t h =
      All-map
        (λ (e : String × String) (a : IsAccepted e). IsAccepted-Validates e.0 (key_of e.0) e.1 a) t
        h

  pub IsValid-empty_store : IsValid empty_store
  IsValid-empty_store = record { global = tt; overrides = λ id. tt }

  pub resolve_global-IsUsable :
      (s : Store)
      → IsValid s
      → (r : Resolved) × (resolve_global parse_duration (some s.global) ≡ some r) × IsUsable r
  unfolding resolve_global
  resolve_global-IsUsable s h = (
    _,
    refl,
    apply_overrides-IsUsable parse_duration defaults s.global (Validated-rows s.global h.global)
        defaults-IsUsable,
  )

  pub IsValid-resolve :
      (s : Store) (id : String)
      → IsValid s
      → (r : Resolved) × (resolve parse_duration (some s.global) (some (s.overrides id)) ≡ some r)
        × IsUsable r
  unfolding resolve
  IsValid-resolve s id h = (
    _,
    refl,
    apply_overrides-IsUsable parse_duration _ (s.overrides id)
        (Validated-rows (s.overrides id) (h.overrides id))
        (apply_overrides-IsUsable parse_duration defaults s.global
          (Validated-rows s.global h.global) defaults-IsUsable),
  )

  -- Whatever batches have been sent from the start on, the settings of every instance resolve to a
  -- positive batch size and a positive search limit, provided that the tables can be read.
  pub resolve-IsUsable :
      (requests : List Request) (id : String)
      → let s = carry_out_all requests empty_store in
        (r : Resolved) × (resolve parse_duration (some s.global) (some (s.overrides id)) ≡ some r)
        × IsUsable r
  resolve-IsUsable requests id =
      IsValid-resolve (carry_out_all requests empty_store) id
        (carry_out_all-IsValid requests empty_store IsValid-empty_store)
