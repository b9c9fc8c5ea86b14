-- ===== src/Connections/Testing.antt =====
-- How long the result of a connection test stays.
use huntarr.Base.{
  ℕ, suc, ◌<◌, String, false, List, [], ◌∷◌, Option, none, some, if◌then◌else◌, ◌==◌, ==_iff,
  str_eq, str_eq→eq, str_eq_self, ◌≡◌, ◌≢◌, refl, sym, ◌∙◌, ap, arith, All, All-map, Bool-cases,
  inl, inr, lookup, insert, erase, lookup-insert, lookup-erase, if_rule, subst,
}
use huntarr.Connections.{
  TestResult, Manager, initial_manager, Tested, test_result, start_test, finish_test, drop_timer,
  clear_timer, timer_instance, expire, timer_fires, clear_timers, destroy,
}

-- What can happen to the tests of a page.
pub data Event : Type 0 where
  started : String → Event
  finished : String → Tested → Event
  fired : ℕ → Event
  destroyed : Event

abbrev pub handle : Event → Manager → Manager
handle (started id) m = start_test id m
handle (finished id r) m = finish_test id r m
handle (fired t) m = timer_fires t m
handle destroyed m = destroy m

unfoldable pub run : List Event → Manager → Manager
run [] m = m
run (e ∷ es) m = run es (handle e m)

-- A live timer is the one that `testTimers` holds for its instance, and was handed out.
abbrev Owned : List (String × ℕ) → ℕ → ℕ × String → Type 0
Owned timers next p = (lookup p.1 timers ≡ some p.0) × (p.0 < next)

abbrev pub IsValid : Manager → Type 0
IsValid m = All (Owned m.test_timers m.next_timer) m.live

-- The timers that are left after one is dropped, given what is known of those that differ from it.
drop_timer-All :
    (P Q : ℕ × String → Type 0) (t : ℕ)
    → ((p : ℕ × String) → P p → p.0 ≢ t → Q p)
    → (live : List (ℕ × String)) → All P live
    → All Q (drop_timer t live)
unfolding drop_timer
drop_timer-All P Q t f [] h = tt
drop_timer-All P Q t f ((u, id) ∷ us) h =
    if_rule (All Q) (u == t) (drop_timer t us) ((u, id) ∷ drop_timer t us)
      (λ _. drop_timer-All P Q t f us h.1)
      (λ differs. (f (u, id) h.0 (ground arith), drop_timer-All P Q t f us h.1))

module _ (id : String) (timers : List (String × ℕ)) (next : ℕ) where
  -- A new timer of `id` leaves the other instances' timers theirs.
  Owned-insert :
      (p : ℕ × String)
      → Owned timers next p
      → str_eq id p.1 ≡ false
      → Owned (insert id next timers) (suc next) p
  Owned-insert p h ne = (lookup-insert id p.1 next timers ∙ rw ne h.0, omega arith)

  Owned-erase :
      (p : ℕ × String)
      → Owned timers next p
      → str_eq id p.1 ≡ false
      → Owned (erase id timers) next p
  Owned-erase p h ne = (lookup-erase id p.1 timers ∙ rw ne h.0, h.1)

  -- A timer of `id` is the one in the table.
  Owned-ne :
      (t : ℕ) (p : ℕ × String)
      → lookup id timers ≡ some t
      → Owned timers next p
      → p.0 ≢ t
      → str_eq id p.1 ≡ false
  Owned-ne t p e h ne = elim (Bool-cases (str_eq id p.1)) [
    | inl same ↦
        let here : lookup id timers ≡ some p.0 = rw (str_eq→eq id p.1 same) h.0 in
        let both : some t ≡ some p.0 = sym e ∙ here in let equal : p.0 ≡ t = cc in absurd (ne equal)
    | inr other ↦ other
  ]

  Owned-none :
      (p : ℕ × String) → lookup id timers ≡ none → Owned timers next p → str_eq id p.1 ≡ false
  Owned-none p e h = elim (Bool-cases (str_eq id p.1)) [
    | inl same ↦
        let here : lookup id timers ≡ some p.0 = rw (str_eq→eq id p.1 same) h.0 in
        let both : none ≡ some p.0 = sym e ∙ here in cc
    | inr other ↦ other
  ]

  -- The timers that stay live when a test of `id` ends.
  clear_timer-Owned :
      (old : Option ℕ) (live : List (ℕ × String))
      → lookup id timers ≡ old
      → All (Owned timers next) live
      → All (Owned (insert id next timers) (suc next)) (clear_timer old live)
  clear_timer-Owned none live e h =
      All-map (λ (p : ℕ × String) (o : Owned timers next p). Owned-insert p o (Owned-none p e o))
        live h
  clear_timer-Owned (some t) live e h =
      drop_timer-All (Owned timers next) (Owned (insert id next timers) (suc next)) t
        (λ p o ne. Owned-insert p o (Owned-ne t p e o ne)) live h

timer_instance-Owned :
    (timers : List (String × ℕ)) (next t : ℕ) (live : List (ℕ × String)) (id : String)
    → All (Owned timers next) live
    → timer_instance t live ≡ some id
    → Owned timers next (t, id)
unfolding timer_instance
timer_instance-Owned timers next t [] id h e = cc
timer_instance-Owned timers next t ((u, j) ∷ us) id h e = elim (Bool-cases (u == t)) [
  | inl same ↦
      let found : some j ≡ some id =
        subst (λ b. (if b then some j else timer_instance t us) ≡ some id) same e in
      let named : j ≡ id = cc in
      let equal : u ≡ t = (==_iff u t).0 same in rw (← named, ← equal) h.0
  | inr other ↦
      timer_instance-Owned timers next t us id h.1
        (subst (λ b. (if b then some j else timer_instance t us) ≡ some id) other e)
]

expire-IsValid :
    (o : Option String) (t : ℕ) (m : Manager)
    → timer_instance t m.live ≡ o
    → IsValid m
    → IsValid (expire o t m)
unfolding expire
expire-IsValid none t m e h = h
expire-IsValid (some id) t m e h =
    let owner = timer_instance-Owned m.test_timers m.next_timer t m.live id h e in
    drop_timer-All (Owned m.test_timers m.next_timer) (Owned (erase id m.test_timers) m.next_timer)
      t
      (λ p o ne.
        Owned-erase id m.test_timers m.next_timer p o
          (Owned-ne id m.test_timers m.next_timer t p owner.0 o ne))
      m.live h

-- A timer that the table holds, and what is left of that once one timer is dropped.
abbrev Tabled : List (String × ℕ) → ℕ × String → Type 0
Tabled timers p = lookup p.1 timers ≡ some p.0

Tabled-drop :
    (id : String) (t : ℕ) (timers : List (String × ℕ)) (p : ℕ × String)
    → Tabled ((id, t) ∷ timers) p
    → p.0 ≢ t
    → Tabled timers p
unfolding lookup
Tabled-drop id t timers p h ne = elim (Bool-cases (str_eq id p.1)) [
  | inl same ↦
      let both : some t ≡ some p.0 =
        subst (λ b. (if b then some t else lookup p.1 timers) ≡ some p.0) same h in
      let equal : p.0 ≡ t = cc in absurd (ne equal)
  | inr differs ↦ subst (λ b. (if b then some t else lookup p.1 timers) ≡ some p.0) differs h
]

Tabled-none : (live : List (ℕ × String)) → All (Tabled []) live → live ≡ []
unfolding lookup
Tabled-none [] h = refl
Tabled-none (p ∷ live) h = let bad = h.0 in cc

-- Clearing the timers of the table clears all that are live.
clear_timers-Tabled :
    (timers : List (String × ℕ)) (live : List (ℕ × String))
    → All (Tabled timers) live
    → clear_timers timers live ≡ []
unfolding clear_timers
clear_timers-Tabled [] live h = Tabled-none live h
clear_timers-Tabled ((id, t) ∷ timers) live h =
    clear_timers-Tabled timers (drop_timer t live) (
      drop_timer-All (Tabled ((id, t) ∷ timers)) (Tabled timers) t (Tabled-drop id t timers) live h)

destroy-live : (m : Manager) → IsValid m → (destroy m).live ≡ []
unfolding destroy
destroy-live m h =
    clear_timers-Tabled m.test_timers m.live
      (All-map (λ (p : ℕ × String) (o : Owned m.test_timers m.next_timer p). o.0) m.live h)

destroy-IsValid : (m : Manager) → IsValid m → IsValid (destroy m)
destroy-IsValid m h =
    subst (All (Owned (destroy m).test_timers (destroy m).next_timer)) (sym (destroy-live m h)) tt

handle-IsValid : (e : Event) (m : Manager) → IsValid m → IsValid (handle e m)
unfolding start_test finish_test timer_fires
handle-IsValid (started id) m h = h
handle-IsValid (finished id r) m h = (
  (lookup-insert id id m.next_timer m.test_timers ∙ rw (str_eq_self id), omega arith),
  clear_timer-Owned id m.test_timers m.next_timer (lookup id m.test_timers) m.live refl h,
)
handle-IsValid (fired t) m h = expire-IsValid (timer_instance t m.live) t m refl h
handle-IsValid destroyed m h = destroy-IsValid m h

run-IsValid : (es : List Event) (m : Manager) → IsValid m → IsValid (run es m)
unfolding run
run-IsValid [] m h = h
run-IsValid (e ∷ es) m h = run-IsValid es (handle e m) (handle-IsValid e m h)

-- A timer that is not the instance's own leaves its result alone.
expire-other :
    (o : Option String) (t k : ℕ) (id : String) (m : Manager)
    → timer_instance t m.live ≡ o
    → IsValid m
    → lookup id m.test_timers ≡ some k
    → t ≢ k
    → lookup id (expire o t m).test_results ≡ lookup id m.test_results
unfolding expire
expire-other none t k id m e h own ne = refl
expire-other (some j) t k id m e h own ne =
    let owner = timer_instance-Owned m.test_timers m.next_timer t m.live j h e in
    lookup-erase j id m.test_results
    ∙ if_rule (λ (r : Option TestResult). r ≡ lookup id m.test_results) (str_eq j id) none
        (lookup id m.test_results)
        (λ same.
          let here : lookup j m.test_timers ≡ some k = rw (str_eq→eq j id same) own in
          let both : some k ≡ some t = sym here ∙ owner.0 in
          let equal : t ≡ k = cc in absurd (ne equal))
        (λ other. refl)

expire-own :
    (o : Option String) (t : ℕ) (id : String) (m : Manager)
    → o ≡ some id
    → lookup id (expire o t m).test_results ≡ none
unfolding expire
expire-own o t id m e =
    ap (λ (i : Option String). lookup id (expire i t m).test_results) e
    ∙ lookup-erase id id m.test_results
    ∙ rw (str_eq_self id)

-- After any tests and timers, the result of a test that ends stays when any timer but its own fires,
-- and is gone when its own timer does. A page that is destroyed then has no timer live.
pub timer_fires-finish_test :
    (es : List Event) (id : String) (r : Tested) (t : ℕ)
    → t ≢ (run es initial_manager).next_timer
    → let m = run es initial_manager in
      let q = finish_test id r m in
      (lookup id (timer_fires t q).test_results ≡ some (test_result r))
      × (lookup id (timer_fires m.next_timer q).test_results ≡ none)
      × ((destroy q).live ≡ [])
unfolding finish_test timer_fires
timer_fires-finish_test es id r t ne =
    let m = run es initial_manager in
    let q = finish_test id r m in
    let valid = handle-IsValid (finished id r) m (run-IsValid es initial_manager tt) in
    let own = lookup-insert id id m.next_timer m.test_timers ∙ rw (str_eq_self id) in
    (
      expire-other (timer_instance t q.live) t m.next_timer id q refl valid own ne
          ∙ lookup-insert id id (test_result r) m.test_results
          ∙ rw (str_eq_self id),
      expire-own (timer_instance m.next_timer q.live) m.next_timer id q
          (rw ((==_iff m.next_timer m.next_timer).1 refl, timer_instance)),
      destroy-live q valid,
    )
