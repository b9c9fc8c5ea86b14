-- ===== src/Regex/Correct.antt =====
-- The matcher by derivatives decides the meaning of a regular expression.
use huntarr.Base.{
  ℕ, true, List, [], ◌∷◌, ◌++◌, if◌then◌else◌, ◌≡◌, refl, sym, ap, inl, inr, ◌↔◌, arith, Bool-cases,
  subst,
}
use huntarr.Regex.{
  Regex, empty, eps, cls, seq, alt, star, nullable, deriv, regex_test, done, more, Matches,
}

nullable_sound : (r : Regex) → nullable r ≡ true → Matches r []
unfolding nullable
nullable_sound empty h = cc
nullable_sound eps h = refl
nullable_sound (cls p) h = cc
nullable_sound (seq r t) h =
    ([], [], refl, nullable_sound r (ground arith), nullable_sound t (ground arith))
nullable_sound (alt r t) h = elim (Bool-cases (nullable r)) [
  | inl e ↦ inl (nullable_sound r e)
  | inr e ↦ inr (nullable_sound t (ground arith))
]
nullable_sound (star r) h = done refl

append-eq-nil : (u v : List ℕ) → [] ≡ u ++ v → (u ≡ []) × (v ≡ [])
append-eq-nil [] v h = (refl, sym h)
append-eq-nil (c ∷ u) v h = cc

nullable_complete : (r : Regex) → Matches r [] → nullable r ≡ true
unfolding nullable
nullable_complete empty m = absurd m
nullable_complete eps m = refl
nullable_complete (cls p) (c, h, e) = cc
nullable_complete (seq r t) (u, v, e, mu, mv) =
    let (eu, ev) = append-eq-nil u v e in
    rw (nullable_complete r (subst (Matches r) eu mu))
      (nullable_complete t (subst (Matches t) ev mv))
nullable_complete (alt r t) (inl m) = rw (nullable_complete r m)
nullable_complete (alt r t) (inr m) = ground (arith, nullable_complete t m)
nullable_complete (star r) m = refl

-- The two ways on after `c` in a concatenation: through `r`, or past an `r` that matches nothing.
abbrev first : ℕ → Regex → Regex → Regex
first c r t = seq (deriv c r) t

abbrev either : ℕ → Regex → Regex → Regex
either c r t = alt (first c r t) (deriv c t)

deriv-seq :
    (c : ℕ) (r t : Regex) → deriv c (seq r t) ≡ (if nullable r then either c r t else first c r t)
unfolding deriv
deriv-seq c r t = refl

module _ (c : ℕ) (r t : Regex) where
  first_sound :
      ((s : List ℕ) → Matches (deriv c r) s → Matches r (c ∷ s))
      → (s : List ℕ) → Matches (first c r t) s
      → Matches (seq r t) (c ∷ s)
  first_sound ih s (u, v, e, mu, mv) = (c ∷ u, v, ap (λ w. c ∷ w) e, ih u mu, mv)

  deriv-seq_sound :
      ((s : List ℕ) → Matches (deriv c r) s → Matches r (c ∷ s))
      → ((s : List ℕ) → Matches (deriv c t) s → Matches t (c ∷ s))
      → (s : List ℕ) → Matches (deriv c (seq r t)) s
      → Matches (seq r t) (c ∷ s)
  unfolding deriv
  deriv-seq_sound ih_r ih_t s m = elim (Bool-cases (nullable r)) [
    | inl e ↦ past e (subst (λ b. Matches (if b then either c r t else first c r t) s) e m)
    | inr e ↦
        first_sound ih_r s (subst (λ b. Matches (if b then either c r t else first c r t) s) e m)
  ]
    where
      past : nullable r ≡ true → Matches (either c r t) s → Matches (seq r t) (c ∷ s)
      past e (inl m) = first_sound ih_r s m
      past e (inr m) = ([], c ∷ s, refl, nullable_sound r e, ih_t s m)

  through_first : (s : List ℕ) → Matches (first c r t) s → Matches (deriv c (seq r t)) s
  through_first s m = elim (Bool-cases (nullable r)) [
    | inl e ↦ rw (deriv-seq, e) (inl m)
    | inr e ↦ rw (deriv-seq, e) m
  ]

  past_first :
      (s : List ℕ) → nullable r ≡ true → Matches (deriv c t) s → Matches (deriv c (seq r t)) s
  past_first s e m = rw (deriv-seq, e) (inr m)

head-eq : {c d : ℕ} {s u : List ℕ} → c ∷ s ≡ d ∷ u → c ≡ d
head-eq e = cc

tail-eq : {c d : ℕ} {s u : List ℕ} → c ∷ s ≡ d ∷ u → s ≡ u
tail-eq e = cc

deriv_sound : (c : ℕ) (r : Regex) (s : List ℕ) → Matches (deriv c r) s → Matches r (c ∷ s)
unfolding deriv
deriv_sound c empty s m = absurd m
deriv_sound c eps s m = absurd m
deriv_sound c (cls p) s m = elim (Bool-cases (p c)) [
  | inl e ↦ (c, e, ap (λ w. c ∷ w) (subst (λ b. Matches (if b then eps else empty) s) e m))
  | inr e ↦ absurd (subst (λ b. Matches (if b then eps else empty) s) e m)
]
deriv_sound c (seq r t) s m = deriv-seq_sound c r t (deriv_sound c r) (deriv_sound c t) s m
deriv_sound c (alt r t) s (inl m) = inl (deriv_sound c r s m)
deriv_sound c (alt r t) s (inr m) = inr (deriv_sound c t s m)
deriv_sound c (star r) s (u, v, e, mu, mv) =
    more c u v (ap (λ w. c ∷ w) e) (deriv_sound c r u mu) mv

deriv_complete : (c : ℕ) (r : Regex) (s : List ℕ) → Matches r (c ∷ s) → Matches (deriv c r) s
unfolding deriv
deriv_complete c empty s m = absurd m
deriv_complete c eps s m = cc
deriv_complete c (cls p) s (d, h, e) =
    let same : p c ≡ true = rw (head-eq e) h in rw same (tail-eq e)
deriv_complete c (seq r t) s ([], v, e, mu, mv) =
    past_first c r t s (nullable_complete r mu)
      (deriv_complete c t s (subst (Matches t) (sym e) mv))
deriv_complete c (seq r t) s (d ∷ u, v, e, mu, mv) = through_first c r t s (
  u,
  v,
  tail-eq e,
  deriv_complete c r u (subst (λ x. Matches r (x ∷ u)) (sym (head-eq e)) mu),
  mv,
)
deriv_complete c (alt r t) s (inl m) = inl (deriv_complete c r s m)
deriv_complete c (alt r t) s (inr m) = inr (deriv_complete c t s m)
deriv_complete c (star r) s (done e) = cc
deriv_complete c (star r) s (more d u v e mu mv) = (
  u,
  v,
  tail-eq e,
  deriv_complete c r u (subst (λ x. Matches r (x ∷ u)) (sym (head-eq e)) mu),
  mv,
)

-- The test accepts exactly the texts that the expression means.
pub regex_test_iff : (r : Regex) (s : List ℕ) → (regex_test r s ≡ true) ↔ Matches r s
unfolding regex_test
regex_test_iff r [] = (nullable_sound r, nullable_complete r)
regex_test_iff r (c ∷ s) =
    let (sound, complete) = regex_test_iff (deriv c r) s in
    (λ h. deriv_sound c r s (sound h), λ m. complete (deriv_complete c r s m))
