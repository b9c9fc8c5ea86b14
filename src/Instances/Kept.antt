-- ===== src/Instances/Kept.antt =====
-- What holds of every stored instance.
use huntarr.Base.{
  ℕ, zero, suc, ◌<◌, ◌≤◌, String, Bool, true, false, not, Option, none, some, str_eq, lookup,
  trim_space, trim_space-idempotent, All, All-insert, All-erase, All-lookup, ℤ, pos, negsuc, ◌≡◌,
  refl, sym, subst, arith, if_rule,
}
use huntarr.Instances.{
  Instance, Store, Result, ok, invalid, not_found, unavailable, is_app_type, is_http,
  is_bad_timeout, or_default_timeout, positive_or, validate, store_valid, create, edited,
  update_existing, update, delete_row, delete,
}

abbrev pub IsTimeout : ℤ → Type 0
IsTimeout z = (n : ℕ) × (z ≡ pos n) × (0 < n) × (n ≤ 300000)

or_default_timeout-IsTimeout :
    (z : ℤ) → is_bad_timeout (or_default_timeout z) ≡ false → IsTimeout (or_default_timeout z)
or_default_timeout-IsTimeout (pos zero) h = (30000, refl, omega arith, omega arith)
or_default_timeout-IsTimeout (pos (suc n)) h = (suc n, refl, omega arith, ground (arith, h))
or_default_timeout-IsTimeout (negsuc n) h = absurd (let bad : true ≡ false = h in cc)

positive_or-IsTimeout :
    (old z : ℤ)
    → IsTimeout old
    → is_bad_timeout (positive_or old z) ≡ false
    → IsTimeout (positive_or old z)
positive_or-IsTimeout old (pos zero) t h = t
positive_or-IsTimeout old (pos (suc n)) t h = (suc n, refl, omega arith, ground (arith, h))
positive_or-IsTimeout old (negsuc n) t h = t

module _ (parse_url : String → Option (String × String)) (quote : String → String) where
  -- An instance under its id: with a name and a key that are not blank and have no space around, a
  -- type that is known, an address with http or https, and a timeout of up to five minutes.
  pub record IsStored (id : String) (i : Instance) : Type 0 where
    pub keyed : i.id ≡ id
    pub trimmed : trim_space i.name ≡ i.name
    pub named : str_eq i.name "" ≡ false
    pub known : is_app_type i.app_type ≡ true
    pub addressed : is_http (parse_url i.base_url) ≡ true
    pub key_trimmed : trim_space i.api_key ≡ i.api_key
    pub secured : str_eq i.api_key "" ≡ false
    pub timed : IsTimeout i.timeout_ms

  abbrev pub IsValid : Store → Type 0
  IsValid s = All (λ (e : String × Instance). IsStored e.0 e.1) s

  -- What passes the validation.
  abbrev pub trimmed : Instance → Instance
  trimmed i = record i { name = trim_space i.name; api_key = trim_space i.api_key }

  pub record Passes (i j : Instance) : Type 0 where
    pub same : j ≡ trimmed i
    pub named : str_eq (trim_space i.name) "" ≡ false
    pub known : is_app_type i.app_type ≡ true
    pub addressed : is_http (parse_url i.base_url) ≡ true
    pub secured : str_eq (trim_space i.api_key) "" ≡ false
    pub timed : is_bad_timeout i.timeout_ms ≡ false

  abbrev pub Validated : Instance → Result Instance → Type 0
  Validated i (ok j) = Passes i j
  Validated i (invalid e) = Unit
  Validated i not_found = Unit
  Validated i unavailable = Unit

  pub validate-Validated : (i : Instance) → Validated i (validate parse_url quote i)
  unfolding validate
  validate-Validated i =
      if_rule (Validated i) (str_eq (trim_space i.name) "") _ _ (λ _. tt)
        (λ named.
          if_rule (Validated i) (not (is_app_type i.app_type)) _ _ (λ _. tt)
            (λ known.
              if_rule (Validated i) (not (is_http (parse_url i.base_url))) _ _ (λ _. tt)
                (λ addressed.
                  if_rule (Validated i) (str_eq (trim_space i.api_key) "") _ _ (λ _. tt)
                    (λ secured.
                      if_rule (Validated i) (is_bad_timeout i.timeout_ms) _ _ (λ _. tt)
                        (λ timed. record {
                          same = refl;
                          named = named;
                          known = ground (arith, known);
                          addressed = ground (arith, addressed);
                          secured = secured;
                          timed = timed;
                        })))))

  Passes-IsStored : (i j : Instance) → Passes i j → IsTimeout i.timeout_ms → IsStored i.id j
  Passes-IsStored i j p t = subst (IsStored i.id) (sym p.same) (record {
    keyed = refl;
    trimmed = trim_space-idempotent i.name;
    named = p.named;
    known = p.known;
    addressed = p.addressed;
    key_trimmed = trim_space-idempotent i.api_key;
    secured = p.secured;
    timed = t;
  })

  store_valid-IsValid :
      (available : Bool) (i : Instance) (r : Result Instance) (s : Store)
      → Validated i r
      → (is_bad_timeout i.timeout_ms ≡ false → IsTimeout i.timeout_ms)
      → IsValid s
      → IsValid (store_valid parse_url quote available r s).1
  store_valid-IsValid available i (ok j) s p t h =
      if_rule (λ (q : Result Instance × Store). IsValid q.1) available _ _
        (λ _.
          let stored = Passes-IsStored i j p (t p.timed) in
          All-insert (λ (e : String × Instance). IsStored e.0 e.1) j.id j s
            (subst (λ k. IsStored k j) (sym stored.keyed) stored) h)
        (λ _. h)
  store_valid-IsValid available i (invalid e) s p t h = h
  store_valid-IsValid available i not_found s p t h = h
  store_valid-IsValid available i unavailable s p t h = h

  pub create-IsValid :
      (available : Bool) (i : Instance) (s : Store)
      → IsValid s
      → IsValid (create parse_url quote available i s).1
  unfolding create
  create-IsValid available i s h =
      let j = record i { timeout_ms = or_default_timeout i.timeout_ms } in
      store_valid-IsValid available j (validate parse_url quote j) s (validate-Validated j)
        (or_default_timeout-IsTimeout i.timeout_ms) h

  update_existing-IsValid :
      (available : Bool) (id : String) (o : Option Instance) (i : Instance) (s : Store)
      → lookup id s ≡ o
      → IsValid s
      → IsValid (update_existing parse_url quote available o i s).1
  update_existing-IsValid available id none i s e h = h
  update_existing-IsValid available id (some old) i s e h =
      let j = edited parse_url quote old i in
      let stored = All-lookup (λ (e : String × Instance). IsStored e.0 e.1) id old s h e in
      store_valid-IsValid available j (validate parse_url quote j) s (validate-Validated j)
        (positive_or-IsTimeout old.timeout_ms i.timeout_ms stored.timed) h

  pub update-IsValid :
      (found available : Bool) (id : String) (i : Instance) (s : Store)
      → IsValid s
      → IsValid (update parse_url quote found available id i s).1
  unfolding update
  update-IsValid found available id i s h =
      if_rule (λ (q : Result Instance × Store). IsValid q.1) found _ _
        (λ _. update_existing-IsValid available id (lookup id s) i s refl h) (λ _. h)

  delete_row-IsValid :
      (id : String) (o : Option Instance) (s : Store) → IsValid s → IsValid (delete_row id o s).1
  delete_row-IsValid id none s h = h
  delete_row-IsValid id (some i) s h =
      All-erase (λ (e : String × Instance). IsStored e.0 e.1) id s h

  pub delete-IsValid :
      (available : Bool) (id : String) (s : Store) → IsValid s → IsValid (delete available id s).1
  unfolding delete
  delete-IsValid available id s h =
      if_rule (λ (q : Result Instance × Store). IsValid q.1) available _ _
        (λ _. delete_row-IsValid id (lookup id s) s h) (λ _. h)
