-- ===== src/Activity/Matching.antt =====
-- Which rows meet the conditions of a list.

use huntarr.Base.{
  ◌<◌, String, Bool, true, false, ◌&&◌, ◌||◌, List, [], ◌∷◌, Option, none, some, if_rule, ltb,
  str_eq, eq_iff, text_lt, Bool-cases, inl, inr, ◌⊎◌, ◌↔◌, ◌≡◌, refl, ap, arith,
}
use huntarr.Activity.{
  Stamp, Row, ListParams, tail_of, stamp_lt, equals_or_empty, is_instance, not_before, before,
  is_match, matching,
}

-- A wanted text is the actual one, or empty; a wanted instance is the one of the row, or none.
abbrev pub IsAsked : String → String → Type 0
IsAsked wanted actual = (wanted ≡ "") ⊎ (actual ≡ wanted)

abbrev pub IsAskedOf : Option String → Option String → Type 0
IsAskedOf none actual = Unit
IsAskedOf (some wanted) actual = actual ≡ some wanted

-- A time is from another on, or before it: by the seconds and, within one second, by the texts of what
-- follows.
abbrev pub IsFrom : Option Stamp → Stamp → Type 0
IsFrom none t = Unit
IsFrom (some since) t =
    (since.clock < t.clock)
    ⊎ ((t.clock ≡ since.clock) × (text_lt (tail_of t) (tail_of since) ≡ false))

abbrev pub IsUntil : Option Stamp → Stamp → Type 0
IsUntil none t = Unit
IsUntil (some until) t =
    (t.clock < until.clock)
    ⊎ ((t.clock ≡ until.clock) × (text_lt (tail_of t) (tail_of until) ≡ true))

equals_or_empty_iff : (w a : String) → (equals_or_empty w a ≡ true) ↔ IsAsked w a
equals_or_empty_iff w a = (
  (λ h. elim (Bool-cases (str_eq w "")) [
    | inl e ↦ inl ((eq_iff w "").0 e)
    | inr e ↦ inr ((eq_iff a w).0 (ground (arith, h, e)))
  ]),
  (λ k. elim k [
    | inl e ↦ let same = (eq_iff w "").1 e in ground (arith, same)
    | inr e ↦ let same = (eq_iff a w).1 e in ground (arith, same)
  ]),
)

is_instance_iff : (w a : Option String) → (is_instance w a ≡ true) ↔ IsAskedOf w a
is_instance_iff none a = ((λ h. tt), (λ h. refl))
is_instance_iff (some w) none = ((λ h. cc), (λ h. cc))
is_instance_iff (some w) (some a) =
    ((λ h. ap some ((eq_iff a w).0 h)), (λ h. (eq_iff a w).1 (let e : some a ≡ some w = h in cc)))

not_before_iff : (o : Option Stamp) (t : Stamp) → (not_before o t ≡ true) ↔ IsFrom o t
unfolding stamp_lt
not_before_iff none t = ((λ h. tt), (λ h. refl))
not_before_iff (some s) t = (
  (λ h. elim (Bool-cases (ltb s.clock t.clock)) [
    | inl e ↦ inl (ground (arith, e))
    | inr e ↦ inr (ground (arith, h, e), ground (arith, h, e))
  ]),
  (λ k. elim k [ inl e ↦ ground (arith, e) | inr e ↦ ground (arith, e.0, e.1) ]),
)

before_iff : (o : Option Stamp) (t : Stamp) → (before o t ≡ true) ↔ IsUntil o t
unfolding stamp_lt
before_iff none t = ((λ h. tt), (λ h. refl))
before_iff (some u) t = (
  (λ h. elim (Bool-cases (ltb t.clock u.clock)) [
    | inl e ↦ inl (ground (arith, e))
    | inr e ↦ inr (ground (arith, h, e), ground (arith, h, e))
  ]),
  (λ k. elim k [ inl e ↦ ground (arith, e) | inr e ↦ ground (arith, e.0, e.1) ]),
)

-- The rows that have a property are chosen, in their order.
pub data Picks (P : Row → Type 0) : List Row → List Row → Type 0 where
  done : Picks P [] []
  take :
      {r : Row} {rows chosen : List Row}
      → P r
      → Picks P rows chosen
      → Picks P (r ∷ rows) (r ∷ chosen)
  skip :
      {r : Row} {rows chosen : List Row} → ¬ P r → Picks P rows chosen → Picks P (r ∷ rows) chosen

module _ (like : String → String → Bool) where
  abbrev pub IsWanted : ListParams → Row → Type 0
  IsWanted p r =
      IsAsked p.level r.content.level
      × IsAskedOf p.instance_id r.content.instance_id
      × IsAsked p.action r.content.action
      × ((p.search ≡ "") ⊎ (like p.search r.content.message ≡ true))
      × IsFrom p.since r.created_at
      × IsUntil p.until r.created_at

  search_iff :
      (wanted message : String)
      → ((str_eq wanted "" || like wanted message) ≡ true)
        ↔ ((wanted ≡ "") ⊎ (like wanted message ≡ true))
  search_iff w m = (
    (λ h. elim (Bool-cases (str_eq w "")) [
      | inl e ↦ inl ((eq_iff w "").0 e)
      | inr e ↦ inr (ground (arith, h, e))
    ]),
    (λ k. elim k [
      | inl e ↦ let same = (eq_iff w "").1 e in ground (arith, same)
      | inr e ↦ ground (arith, e)
    ]),
  )

  six_true :
      (a b c d e f : Bool)
      → (a && b && c && d && e && f) ≡ true
      → (a ≡ true) × (b ≡ true) × (c ≡ true) × (d ≡ true) × (e ≡ true) × (f ≡ true)
  six_true a b c d e f h = (
    ground (arith, h),
    ground (arith, h),
    ground (arith, h),
    ground (arith, h),
    ground (arith, h),
    ground (arith, h),
  )

  is_match_iff : (p : ListParams) (r : Row) → (is_match like p r ≡ true) ↔ IsWanted p r
  is_match_iff p r =
      let level = equals_or_empty_iff p.level r.content.level in
      let instance_of = is_instance_iff p.instance_id r.content.instance_id in
      let action = equals_or_empty_iff p.action r.content.action in
      let search = search_iff p.search r.content.message in
      let since = not_before_iff p.since r.created_at in
      let until = before_iff p.until r.created_at in
      (
        (λ h.
            let (a, b, c, d, e, f) =
              six_true (equals_or_empty p.level r.content.level)
                (is_instance p.instance_id r.content.instance_id)
                (equals_or_empty p.action r.content.action)
                (str_eq p.search "" || like p.search r.content.message)
                (not_before p.since r.created_at) (before p.until r.created_at) h in
            (level.0 a, instance_of.0 b, action.0 c, search.0 d, since.0 e, until.0 f)),
        (λ (a, b, c, d, e, f).
            rw (level.1 a, instance_of.1 b, action.1 c, search.1 d, since.1 e, until.1 f) refl),
      )

  pub matching-Picks :
      (p : ListParams) (rows : List Row) → Picks (IsWanted p) rows (matching like p rows)
  unfolding matching
  matching-Picks p [] = done
  matching-Picks p (r ∷ rows) =
      if_rule (Picks (IsWanted p) (r ∷ rows)) (is_match like p r) _ _
        (λ yes. take ((is_match_iff p r).0 yes) (matching-Picks p rows))
        (λ no. skip (λ w. let yes = (is_match_iff p r).1 w in cc) (matching-Picks p rows))
