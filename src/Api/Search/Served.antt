-- ===== src/Api/Search/Served.antt =====
-- What a search that a request asks for does.
use huntarr.Base.{
  ℕ, zero, suc, ◌≤◌, ◌++◌, String, Bool, true, false, List, [], ◌∷◌, Option, none, some, map, take,
  length, length-map, length-take, lookup, Bool-cases, inl, inr, ltb, if◌then◌else◌, if_rule, ◌≡◌,
  refl, subst, arith, pos, negsuc, is_some,
}
use huntarr.Arr.Quality.{
  QualityProfile, LibraryItem, UpgradeItem, filter_upgradeable, filter_missing,
}
use huntarr.Arr.Quality.Selection.{
  picked, is_selected, is_missing, filter_upgradeable-picked, filter_upgradeable-filter_missing,
}
use huntarr.Scheduler.Cycle.{item_id}
use huntarr.Instances.{Instance, Store, get, Result, ok, unavailable, from_row}
use huntarr.Api.Settings.{Response, respond}
use huntarr.ArrService.{
  App, Commands, version_major, new_app, app_for_row, app_for_instance, profile_map,
  upgradeable_with, search_items, search_fetched, split_fetched, search_cycle,
}
use huntarr.Api.Search.{
  SearchBody, blank, malformed, batch, SearchAnswer, searched, failed, or_fifty, search_answer,
  answer_cycle, search_sized, search_body, search_path, handle_instance_search,
}

infixl 5 ◌>>=◌
abbrev pub ◌>>=◌ {ℓ κ} : {A : Type ℓ} {B : Type κ} → Option A → (A → Option B) → Option B
none >>= f = none
some a >>= f = f a

-- The size that a body asks for, at most 1000.
abbrev pub small : ℕ → Option ℕ
small n = if ltb 1000 n then none else some n

abbrev pub size_of : SearchBody → Option ℕ
size_of blank = some 50
size_of malformed = none
size_of (batch n) = small (or_fifty n)

-- The items that are worth a search: those whose quality can be upgraded, then the missing ones.
abbrev pub wanted : List (ℕ × QualityProfile) → List LibraryItem → List UpgradeItem
wanted profiles items =
    picked (is_selected (profile_map profiles [])) items ++ picked is_missing items

abbrev pub known : Instance → Option Instance
known inst = if is_some (version_major inst.app_type) then some inst else none

-- A search: the instance's id, its application, and the items.
abbrev pub Search : Type 0
Search = String × App × List ℕ

-- The search that is asked for, if all that it needs is there.
abbrev pub instance_search : (Instance → App) → String → ℕ → Instance → Option Search
instance_search ask id size inst = do
  profiles ← (ask inst).profiles
  items ← (ask inst).library
  some (id, ask inst, map item_id (take size (wanted profiles items)))

abbrev pub search_of :
    (String → Option String) → Bool → (Instance → App) → String → SearchBody → Store → Option Search
search_of parse_uuid found ask raw body s = do
  id ← parse_uuid raw
  size ← size_of body
  row ← if found then lookup id s else none
  inst ← known row
  instance_search ask id size inst

-- Without a search, an error and no command. A search without items sends no command; another sends
-- one command with its items, at most 1000, and the answer is their number, or an error if the
-- application does not accept the command.
abbrev pub IsServed : Option Search → SearchAnswer × Commands → Type 0
IsServed none r = (e : Response) × (r.0 ≡ failed e) × (400 ≤ e.status) × (r.1 ≡ [])
IsServed (some (id, app, [])) r = r ≡ (searched 0, [])
IsServed (some (id, app, i ∷ ids)) r =
    (r.1 ≡ (id, i ∷ ids) ∷ [])
    × (suc (length ids) ≤ 1000)
    × (r.0 ≡ (
        if app.accepts (i ∷ ids)
        then searched (suc (length ids))
        else failed (respond 500 "failed to run search cycle")))

refusal : (status : ℕ) (e : String) → 400 ≤ status → IsServed none (failed (respond status e), [])
refusal status e h = (respond status e, refl, h, refl)

module _ (id : String) (app : App) (n : ℕ) (small_enough : suc n ≤ 1000) where
  items-IsServed :
      (items : List UpgradeItem)
      → IsServed
          (some (id, app, map item_id (take (suc n) items)))
          (answer_cycle (search_items app id (suc n) items))
  items-IsServed [] = refl
  items-IsServed (i ∷ items) =
      let ids = map item_id (take n items) in
      (
        refl,
        omega (arith, small_enough, length-map (take n items) item_id, length-take n items),
        if_rule
            (λ b. search_answer b ≡ (
              if app.accepts (item_id i ∷ ids)
              then searched (suc (length ids))
              else failed (respond 500 "failed to run search cycle")))
            (app.accepts (item_id i ∷ ids)) (ok (suc (length ids))) unavailable (λ e. rw e refl)
            (λ e. rw e refl),
      )

  -- With the answers to the requests for the profiles and the library.
  fetched-IsServed :
      (profiles : Option (List (ℕ × QualityProfile))) (library : Option (List LibraryItem))
      → IsServed
          (do
            p ← profiles
            items ← library
            some (id, app, map item_id (take (suc n) (wanted p items))))
          (answer_cycle (
            search_fetched
              (split_fetched profiles library)
              λ result. search_items app id (suc n) (result.items ++ result.missing_items)))
  fetched-IsServed none library = refusal 500 "failed to run search cycle" (omega arith)
  fetched-IsServed (some p) none = refusal 500 "failed to run search cycle" (omega arith)
  fetched-IsServed (some p) (some items) =
      let rules = profile_map p [] in
      let all : (filter_upgradeable items rules).0 ++ filter_missing items ≡ wanted p items =
        rw
          (filter_upgradeable-picked items rules, (filter_upgradeable-filter_missing items rules).0)
          refl in
      subst
        (λ l. IsServed (some (id, app, map item_id (take (suc n) l))) (
          answer_cycle (
            search_items app id (suc n)
              ((filter_upgradeable items rules).0 ++ filter_missing items))))
        all (items-IsServed ((filter_upgradeable items rules).0 ++ filter_missing items))

-- From the instance on.
module _ (ask : Instance → App) (id : String) (n : ℕ) (small_enough : suc n ≤ 1000) where
  abbrev cycle_of : Result App → SearchAnswer × Commands
  cycle_of r = answer_cycle (
      search_fetched r λ app.
        search_fetched (upgradeable_with app)
          λ result. search_items app id (suc n) (result.items ++ result.missing_items))

  instance-IsServed :
      (inst : Instance)
      → IsServed (known inst >>= instance_search ask id (suc n)) (cycle_of (new_app ask inst))
  unfolding upgradeable_with
  instance-IsServed inst = elim (Bool-cases (is_some (version_major inst.app_type))) [
    | inl e ↦
        rw e (fetched-IsServed id (ask inst) n small_enough (ask inst).profiles (ask inst).library)
    | inr e ↦ rw e (refusal 500 "failed to run search cycle" (omega arith))
  ]

  row-IsServed :
      (row : Option Instance)
      → IsServed
          (row >>= λ inst. known inst >>= instance_search ask id (suc n))
          (cycle_of (app_for_row ask (from_row row)))
  row-IsServed none = refusal 404 "instance not found" (omega arith)
  row-IsServed (some inst) = instance-IsServed inst

  found-IsServed :
      (found : Bool) (s : Store)
      → IsServed
          ((if found then lookup id s else none) >>= λ inst.
            known inst >>= instance_search ask id (suc n))
          (answer_cycle (search_cycle found ask id (suc n) s))
  unfolding search_cycle app_for_instance get
  found-IsServed true s = row-IsServed (lookup id s)
  found-IsServed false s = refusal 500 "failed to run search cycle" (omega arith)

module _ (found : Bool) (ask : Instance → App) (s : Store) where
  abbrev search_with : String → ℕ → Option Search
  search_with id size =
      (if found then lookup id s else none) >>= λ inst. known inst >>= instance_search ask id size

  sized-IsServed :
      (id : String) (n : ℕ)
      → IsServed (small (suc n) >>= search_with id) (search_sized found ask s id (suc n))
  sized-IsServed id n = elim (Bool-cases (ltb 1000 (suc n))) [
    | inl e ↦ rw e (refusal 400 "batchSize must not exceed 1000" (omega arith))
    | inr e ↦ rw e (found-IsServed ask id n (ground (arith, e)) found s)
  ]

  body-IsServed :
      (id : String) (body : SearchBody)
      → IsServed (size_of body >>= search_with id) (search_body found ask s id body)
  body-IsServed id blank = sized-IsServed id 49
  body-IsServed id malformed = refusal 400 "invalid request body" (omega arith)
  body-IsServed id (batch (negsuc k)) = sized-IsServed id 49
  body-IsServed id (batch (pos zero)) = sized-IsServed id 49
  body-IsServed id (batch (pos (suc k))) = sized-IsServed id k

  path-IsServed :
      (o : Option String) (body : SearchBody)
      → IsServed (o >>= λ id. size_of body >>= search_with id) (search_path found ask s o body)
  path-IsServed none body = refusal 400 "invalid UUID" (omega arith)
  path-IsServed (some id) body = body-IsServed id body

-- A search that a request asks for sends one command, to the instance of its path, with the items of
-- the library that can be upgraded and then those that are missing, as many as its body asks for,
-- 50 where it does not say, and never more than 1000; the answer is their number, or an error if the
-- application does not accept the command. Without such items nothing is sent and the answer is 0.
-- Without a UUID, a size, an instance of a known type, its profiles or its library, nothing is sent
-- and the answer is an error.
pub handle_instance_search-IsServed :
    (parse_uuid : String → Option String) (found : Bool) (ask : Instance → App) (raw : String)
    (body : SearchBody) (s : Store)
    → IsServed
        (search_of parse_uuid found ask raw body s)
        (handle_instance_search parse_uuid found ask raw body s)
unfolding handle_instance_search
handle_instance_search-IsServed parse_uuid found ask raw body s =
    path-IsServed found ask s (parse_uuid raw) body
