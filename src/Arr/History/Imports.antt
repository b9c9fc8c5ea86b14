-- ===== src/Arr/History/Imports.antt =====
-- Which events of the pages `fetchArrHistory` takes.
use huntarr.Base.{
  none-ne-some, is_some, ℕ, true, false, not, ◌&&◌, ◌||◌, Bool, List, [], ◌∷◌, ◌++◌, Option, none,
  some, if◌then◌else◌, if_rule, ◌==◌, ltb, contains, All, All-append, All-map, ◌≡◌, refl, ◌∙◌,
  arith, subst,
}
use huntarr.Arr.Events.{Event}
use huntarr.Arr.History.{new_events, new_imports}

-- Some event of a list has the id.
abbrev pub has_id : List Event → ℕ → Bool
has_id [] i = false
has_id (e ∷ events) i = e.id == i || has_id events i

pub has_id-append :
    (xs ys : List Event) (i : ℕ) → has_id (xs ++ ys) i ≡ (has_id xs i || has_id ys i)
has_id-append [] ys i = refl
has_id-append (x ∷ xs) ys i = ground (arith, has_id-append xs ys i)

-- A page without events for an error.
abbrev pub events_of : Option (List Event) → List Event
events_of none = []
events_of (some events) = events

abbrev pub all_events : List (Option (List Event)) → List Event
all_events [] = []
all_events (page ∷ pages) = events_of page ++ all_events pages

-- The result of the remaining pages, after the events of a page.
pub rest_cases :
    (P : List Event → Type 0) (found : List Event) (o : Option (List Event)) (events : List Event)
    → ((rest : List Event) → o ≡ some rest → P (found ++ rest))
    → (elim o [ none ↦ none | some rest ↦ some (found ++ rest) ]) ≡ some events
    → P events
rest_cases P found none events f h = absurd (none-ne-some _ h)
rest_cases P found (some rest) events f h =
    let same : found ++ rest ≡ events = cc in subst P same (f rest refl)

-- No request for a page of import events is an error.
abbrev pub all_answered : List (Option (List Event)) → Bool
all_answered [] = true
all_answered (page ∷ pages) = is_some page && all_answered pages

appended-is_some :
    (found : List Event) (o : Option (List Event))
    → is_some (elim o [ none ↦ none | some rest ↦ some (found ++ rest) ]) ≡ is_some o
appended-is_some found none = refl
appended-is_some found (some rest) = refl

module _ (since : ℕ) where
  abbrev pub IsAfter : Event → Type 0
  IsAfter e = ltb since e.date ≡ true

  new_events-IsAfter :
      (seen : List ℕ) (events : List Event) → All IsAfter (new_events since seen events).1
  unfolding new_events
  new_events-IsAfter seen [] = tt
  new_events-IsAfter seen (e ∷ events) =
      let skipped = not (ltb since e.date) || contains seen e.id in
      let rest = new_events-IsAfter (if skipped then seen else e.id ∷ seen) events in
      if_rule (All IsAfter) skipped _ _ (λ _. rest) (λ taken. (ground (arith, taken), rest))

  -- What is seen afterwards was seen before or is taken.
  pub new_events-contains :
      (seen : List ℕ) (events : List Event) (i : ℕ)
      → contains (new_events since seen events).0 i
        ≡ (contains seen i || has_id (new_events since seen events).1 i)
  unfolding new_events
  new_events-contains seen [] i = ground arith
  new_events-contains seen (e ∷ events) i =
      let skipped = not (ltb since e.date) || contains seen e.id in
      let rest = new_events-contains (if skipped then seen else e.id ∷ seen) events i in
      ground (arith, rest)

  -- An event that is not after the time, or whose id a test has.
  abbrev pub IsKnown : (ℕ → Bool) → Event → Type 0
  IsKnown has e = (not (ltb since e.date) || has e.id) ≡ true

  new_events-AreKnown :
      (seen : List ℕ) (events : List Event)
      → All (IsKnown (contains (new_events since seen events).0)) events
  unfolding new_events
  new_events-AreKnown seen [] = tt
  new_events-AreKnown seen (e ∷ events) =
      let skipped = not (ltb since e.date) || contains seen e.id in
      let later = if skipped then seen else e.id ∷ seen in
      let known = new_events-contains later events e.id in
      (ground (arith, known), new_events-AreKnown later events)

  -- The events that all pages give, and their ids.
  pub new_imports-AreAfter :
      (seen : List ℕ) (pages : List (Option (List Event))) (events : List Event)
      → new_imports since seen pages ≡ some events
      → All IsAfter events
  unfolding new_imports
  new_imports-AreAfter seen [] events h = let same : [] ≡ events = cc in subst (All IsAfter) same tt
  new_imports-AreAfter seen (none ∷ pages) events h = absurd (none-ne-some _ h)
  new_imports-AreAfter seen (some page ∷ pages) events h =
      let (all, found) = new_events since seen page in
      rest_cases (λ events. All IsAfter events) found (new_imports since all pages) events
        (λ rest e.
          All-append IsAfter found rest (new_events-IsAfter seen page)
            (new_imports-AreAfter all pages rest e))
        h

  pub new_imports-AreKnown :
      (seen : List ℕ) (pages : List (Option (List Event))) (events : List Event)
      → new_imports since seen pages ≡ some events
      → All (IsKnown (λ i. contains seen i || has_id events i)) (all_events pages)
  unfolding new_imports
  new_imports-AreKnown seen [] events h = tt
  new_imports-AreKnown seen (none ∷ pages) events h = absurd (none-ne-some _ h)
  new_imports-AreKnown seen (some page ∷ pages) events h =
      let (all, found) = new_events since seen page in
      rest_cases
        (λ events.
          All (IsKnown (λ i. contains seen i || has_id events i)) (page ++ all_events pages))
        found (new_imports since all pages) events
        (λ rest e.
          let step : (x : Event)
              → IsKnown (λ i. contains all i || has_id rest i) x
              → IsKnown (λ i. contains seen i || has_id (found ++ rest) i) x =
            λ x known.
              let before = new_events-contains seen page x.id in
              let both = has_id-append found rest x.id in ground (arith, before, both, known) in
          All-append (IsKnown (λ i. contains seen i || has_id (found ++ rest) i)) page
            (all_events pages)
            (All-map
              (λ x known.
                let before = new_events-contains seen page x.id in
                let both = has_id-append found rest x.id in ground (arith, before, both, known))
              page (new_events-AreKnown seen page))
            (All-map step (all_events pages) (new_imports-AreKnown all pages rest e)))
        h

  pub new_imports-is_some :
      (seen : List ℕ) (pages : List (Option (List Event)))
      → is_some (new_imports since seen pages) ≡ all_answered pages
  unfolding new_imports
  new_imports-is_some seen [] = refl
  new_imports-is_some seen (none ∷ pages) = refl
  new_imports-is_some seen (some page ∷ pages) =
      let (all, found) = new_events since seen page in
      appended-is_some found (new_imports since all pages) ∙ new_imports-is_some all pages
