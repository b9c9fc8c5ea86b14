-- ===== src/Settings/Clock/Bounds.antt =====
-- The range of `ParseHHMM`.
use huntarr.Base.{
  ℕ, ◌<◌, ◌≤◌, List, Option, none, some, ◌≡◌, arith, refl, take, drop, length, get_or, ◌==◌, ◌&&◌,
  inl, inr, subst, Bool-cases, if◌then◌else◌, ℤ, pos, negsuc,
}
use huntarr.Settings.Number.{atoi}
use huntarr.Settings.Clock.{parse_hhmm, at_most, minutes_of}

at_most-le : (top n : ℕ) (r : Option ℤ) → at_most top r ≡ some n → n ≤ top
at_most-le top n none e = cc
at_most-le top n (some (pos m)) e = ground arith
at_most-le top n (some (negsuc m)) e = cc

minutes_of-lt :
    (h m : Option ℕ) (n : ℕ)
    → ((k : ℕ) → h ≡ some k → k ≤ 23)
    → ((k : ℕ) → m ≡ some k → k ≤ 59)
    → minutes_of h m ≡ some n
    → n < 1440
minutes_of-lt none m n hh hm e = cc
minutes_of-lt (some h) none n hh hm e = cc
minutes_of-lt (some h) (some m) n hh hm e = ground (arith, hh h refl, hm m refl)

-- A minute that `ParseHHMM` returns is one of the day.
pub parse_hhmm-lt : (v : List ℕ) (n : ℕ) → parse_hhmm v ≡ some n → n < 1440
unfolding parse_hhmm
parse_hhmm-lt v n e =
    let h = at_most 23 (atoi (take 2 v)) in
    let m = at_most 59 (atoi (drop 3 v)) in
    elim (Bool-cases (length v == 5 && get_or v 2 0 == b':')) [
      | inl c ↦
          minutes_of-lt h m n (λ k. at_most-le 23 k (atoi (take 2 v)))
            (λ k. at_most-le 59 k (atoi (drop 3 v)))
            (subst (λ b. (if b then minutes_of h m else none) ≡ some n) c e)
      | inr c ↦
          let bad : none ≡ some n =
            subst (λ b. (if b then minutes_of h m else none) ≡ some n) c e in
          cc
    ]
