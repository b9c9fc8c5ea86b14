-- ===== src/Scheduler/Cycle/Remaining.antt =====
-- Counting the candidates that a test leaves.
use huntarr.Base.{
  ℕ, zero, suc, ◌-◌, ◌*◌, ◌≤◌, Bool, true, false, List, [], ◌∷◌, if◌then◌else◌, ltb, contains,
  length, take, All, ◌≡◌, refl, sym, ap, ◌∙◌, subst, arith, if_rule, Bool-cases, inl, inr, ==_iff,
}
use huntarr.Scheduler.Cycle.{exclude_ids}

-- How many of the ids a test does not hold of.
abbrev pub remaining : List ℕ → (ℕ → Bool) → ℕ
remaining [] f = 0
remaining (i ∷ ids) f = let rest = remaining ids f in if f i then rest else suc rest

-- A test that holds more often leaves fewer.
remaining-le :
    (ids : List ℕ) (f g : ℕ → Bool)
    → ((j : ℕ) → f j ≡ true → g j ≡ true)
    → remaining ids g ≤ remaining ids f
remaining-le [] f g h = omega arith
remaining-le (i ∷ ids) f g h =
    let rest = remaining-le ids f g h in
    elim (Bool-cases (f i)) [ inl e ↦ ground (arith, rest, h i e) | inr e ↦ ground (arith, rest) ]

-- An item that is left and is the first of those that pass.
remaining-cons :
    (i : ℕ) (ids rest : List ℕ) (f g : ℕ → Bool)
    → ((j : ℕ) → f j ≡ true → g j ≡ true)
    → f i ≡ false
    → ((k : ℕ)
        → ((j : ℕ) → contains (take k rest) j ≡ true → g j ≡ true)
        → remaining ids g ≤ remaining ids f - k)
    → (n : ℕ) → ((j : ℕ) → contains (take n (i ∷ rest)) j ≡ true → g j ≡ true)
    → remaining (i ∷ ids) g ≤ remaining (i ∷ ids) f - n
remaining-cons i ids rest f g more e later zero taken =
    let le = remaining-le (i ∷ ids) f g more in omega (arith, le)
remaining-cons i ids rest f g more e later (suc n) taken =
    let here : g i ≡ true = taken i (ground (arith, (==_iff i i).1 refl)) in
    let le = later n (λ j m. taken j (ground (arith, m))) in ground (arith, le, here, e)

-- The first `n` that a test leaves, once they pass too.
pub remaining-take :
    (ids cooling : List ℕ) (f g : ℕ → Bool)
    → All (λ i. contains cooling i ≡ f i) ids
    → ((j : ℕ) → f j ≡ true → g j ≡ true)
    → (n : ℕ) → ((j : ℕ) → contains (take n (exclude_ids ids cooling)) j ≡ true → g j ≡ true)
    → remaining ids g ≤ remaining ids f - n
unfolding exclude_ids
remaining-take [] cooling f g same more n new = omega arith
remaining-take (i ∷ ids) cooling f g same more n new =
    let others = exclude_ids ids cooling in
    let rest = remaining-take ids cooling f g same.1 more in
    let when : (b : Bool)
        → contains cooling i ≡ b
        → (j : ℕ) → contains (take n (if b then others else i ∷ others)) j ≡ true
        → g j ≡ true =
      λ b e j.
        subst (λ c. contains (take n (if c then others else i ∷ others)) j ≡ true → g j ≡ true) e
          (new j) in
    elim (Bool-cases (f i)) [
      | inl e ↦ let le = rest n (when true (same.0 ∙ e)) in ground (arith, le, more i e)
      | inr e ↦ remaining-cons i ids others f g more e rest n (when false (same.0 ∙ e))
    ]

pub All-members :
    {P : ℕ → Type 0} (ids : List ℕ) → ((j : ℕ) → contains ids j ≡ true → P j) → All P ids
All-members [] h = tt
All-members (i ∷ ids) h =
    (h i (ground (arith, (==_iff i i).1 refl)), All-members ids (λ j m. h j (ground (arith, m))))

pub remaining-length : (ids : List ℕ) (f : ℕ → Bool) → remaining ids f ≤ length ids
remaining-length [] f = omega arith
remaining-length (i ∷ ids) f = ground (arith, remaining-length ids f)

pub remaining-zero : (ids : List ℕ) (f : ℕ → Bool) → remaining ids f ≤ 0 → All (λ j. f j ≡ true) ids
remaining-zero [] f h = tt
remaining-zero (i ∷ ids) f h = elim (Bool-cases (f i)) [
  | inl e ↦ (e, remaining-zero ids f (ground (arith, h, e)))
  | inr e ↦ absurd (let bad : suc (remaining ids f) ≤ 0 = ground (arith, h, e) in omega arith)
]

pub fewer_still : (x y z n k : ℕ) → z ≤ y - k * n → y ≤ x - n → z ≤ x - suc k * n
fewer_still x y z n k h e = grind arith

pub take-nil : (n : ℕ) → take {A = ℕ} n [] ≡ []
take-nil zero = refl
take-nil (suc n) = refl

take-length : (n : ℕ) (l : List ℕ) → length l ≤ n → take n l ≡ l
take-length n [] h = take-nil n
take-length zero (x ∷ l) h = absurd (omega arith)
take-length (suc n) (x ∷ l) h = ap (λ k. x ∷ k) (take-length n l (omega arith))

pub take-all : (n : ℕ) (l : List ℕ) → (if ltb n (length l) then take n l else l) ≡ take n l
take-all n l =
    if_rule (λ m. m ≡ take n l) (ltb n (length l)) _ _ (λ _. refl)
      (λ e. sym (take-length n l (ground (arith, e))))
