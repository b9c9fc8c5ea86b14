-- ===== src/Api/Instances/Updates.antt =====
-- How a request to change an instance ends.
use huntarr.Base.{
  ℕ, ◌≤◌, String, Bool, Option, none, some, if◌then◌else◌, str_eq, lookup, insert, lookup-insert,
  trim_space, trim_space-idempotent, ◌≡◌, refl, ap, ◌∙◌, arith, if_rule, All-lookup,
}
use huntarr.Instances.{
  Instance, Store, Result, ok, invalid, not_found, unavailable, key_or, positive_or, validate,
  store_valid, update_existing, edited, update,
}
use huntarr.Instances.Kept.{IsStored, IsValid, Validated, validate-Validated}
use huntarr.Api.Settings.{respond}
use huntarr.Api.Instances.{
  Request, to_instance_response, Answer, one, failed, at_path_rule, requested, instance_answer,
  handle_update_instance,
}

-- The instance with the fields of a request: never another type, and the old key or the old timeout
-- where the request has none.
abbrev pub changed : Instance → Request → Instance
changed old q = record old {
  name = trim_space q.name;
  base_url = q.base_url;
  api_key = if str_eq (trim_space q.api_key) "" then old.api_key else trim_space q.api_key;
  timeout_ms = positive_or old.timeout_ms q.timeout_ms;
}

-- The instance of the id is changed, and no other; or nothing is, and the answer is an error.
pub data Ends (o : Option String) (q : Request) (s : Store) : Answer × Store → Type 0 where
  updated :
      (id : String) (old : Instance) (answer : Answer) (s' : Store)
      → o ≡ some id
      → lookup id s ≡ some old
      → answer ≡ one 200 (to_instance_response (changed old q))
      → ((j : String) → lookup j s' ≡ (if str_eq id j then some (changed old q) else lookup j s))
      → Ends o q s (answer, s')
  kept : (status : ℕ) (e : String) → 400 ≤ status → Ends o q s (failed (respond status e), s)

module _ (parse_url : String → Option (String × String)) (quote : String → String) where
  abbrev answered : Result Instance × Store → Answer × Store
  answered p = (instance_answer 200 "failed to update instance" p.0, p.1)

  key_or-trim :
      (old new : String)
      → trim_space old ≡ old
      → trim_space (key_or old new) ≡ (if str_eq (trim_space new) "" then old else trim_space new)
  key_or-trim old new h =
      if_rule (λ t. trim_space t ≡ t) (str_eq (trim_space new) "") old (trim_space new) (λ _. h)
        (λ _. trim_space-idempotent new)

  module _ (o : Option String) (id : String) (path : o ≡ some id) (q : Request) (s : Store)
      (valid : IsValid parse_url quote s) where
    store_valid-Ends :
        (available : Bool) (old : Instance)
        → lookup id s ≡ some old
        → IsStored parse_url quote id old
        → (r : Result Instance)
        → Validated parse_url quote (edited parse_url quote old (requested "" q)) r
        → Ends o q s (answered (store_valid parse_url quote available r s))
    store_valid-Ends available old e stored (ok j) p =
        if_rule (λ (r : Result Instance × Store). Ends o q s (answered r)) available _ _
          (λ _.
            let same : j ≡ changed old q =
              p.same
              ∙ ap (λ k. record (changed old q) { api_key = k })
                  (key_or-trim old.api_key q.api_key stored.key_trimmed) in
            updated id old _ _ path e (ap (λ (k : Instance). one 200 (to_instance_response k)) same)
              (λ i.
                ap (λ (k : Instance). lookup i (insert k.id k s)) same
                ∙ lookup-insert old.id i (changed old q) s
                ∙ ap (λ k. if str_eq k i then some (changed old q) else lookup i s) stored.keyed))
          (λ _. kept 500 _ (omega arith))
    store_valid-Ends available old e stored (invalid error) p = kept 400 _ (omega arith)
    store_valid-Ends available old e stored not_found p = kept 404 _ (omega arith)
    store_valid-Ends available old e stored unavailable p = kept 500 _ (omega arith)

    update_existing-Ends :
        (available : Bool) (found : Option Instance)
        → lookup id s ≡ found
        → Ends o q s (answered (update_existing parse_url quote available found (requested "" q) s))
    update_existing-Ends available none e = kept 404 _ (omega arith)
    update_existing-Ends available (some old) e =
        store_valid-Ends available old e
          (All-lookup (λ (p : String × Instance). IsStored parse_url quote p.0 p.1) id old s valid
            e)
          (validate parse_url quote (edited parse_url quote old (requested "" q)))
          (validate-Validated parse_url quote (edited parse_url quote old (requested "" q)))

  -- A request to change an instance of a valid table changes that instance and no other, to the
  -- answer's instance: with the name of the request, trimmed, its address, its key and its timeout,
  -- but the old type, and the old key or timeout where the request has a blank key or no positive
  -- timeout. Or the answer is an error, with a status of 400 or more, and nothing changes.
  pub handle_update_instance-Ends :
      (parse_uuid : String → Option String) (found available : Bool) (raw : String) (q : Request)
      (s : Store)
      → IsValid parse_url quote s
      → Ends
          (parse_uuid raw)
          q
          s
          (handle_update_instance parse_uuid parse_url quote found available raw q s)
  unfolding handle_update_instance update
  handle_update_instance-Ends parse_uuid found available raw q s valid =
      at_path_rule (Ends (parse_uuid raw) q s) (parse_uuid raw) s _ (kept 400 _ (omega arith))
        (λ id path.
          if_rule (λ (r : Result Instance × Store). Ends (parse_uuid raw) q s (answered r)) found _
            _
            (λ _.
              update_existing-Ends (parse_uuid raw) id path q s valid available (lookup id s) refl)
            (λ _. kept 500 _ (omega arith)))
