-- ===== src/Activity/Listed.antt =====
-- What `List` gives: the rows that meet the conditions, by their times.
use mathlib.Core.List.{Perm, perm_middle, append-nil}
use mathlib.Core.List.Perm
use huntarr.Base.{
  ℕ, ◌≤◌, true, false, List, [], ◌∷◌, ◌++◌, if_rule, text_lt, All, All-map, Bool-cases, inl, inr,
  ◌≡◌, refl, arith, subst,
}
use huntarr.Activity.{Row, tail_of, stamp_lt, insert_row, sort_rows}

-- A row is no older than another: by the second of its time and, within a second, by the text of what
-- follows.
abbrev pub IsNoOlder : Row → Row → Type 0
IsNoOlder a b =
    (b.created_at.clock ≤ a.created_at.clock)
    × (a.created_at.clock ≡ b.created_at.clock
        → text_lt (tail_of a.created_at) (tail_of b.created_at) ≡ false)

abbrev pub IsNewestFirst : List Row → Type 0
IsNewestFirst [] = Unit
IsNewestFirst (r ∷ rows) = All (λ s. IsNoOlder r s) rows × IsNewestFirst rows

not_older : (a b : Row) → stamp_lt a.created_at b.created_at ≡ false → IsNoOlder a b
unfolding stamp_lt
not_older a b h = (ground (arith, h), λ same. ground (arith, h, same))

insert_row-perm : (r : Row) (rows : List Row) → Perm (insert_row r rows) (r ∷ rows)
unfolding insert_row
insert_row-perm r [] = Perm.refl (r ∷ [])
insert_row-perm r (s ∷ rows) =
    if_rule (λ l. Perm l (r ∷ s ∷ rows)) (stamp_lt r.created_at s.created_at) _ _
      (λ _. Perm.trans (Perm.cons s (insert_row-perm r rows)) (Perm.swap r s rows))
      (λ _. Perm.refl (r ∷ s ∷ rows))

sort_rows-perm_onto : (rows sorted : List Row) → Perm (sort_rows rows sorted) (rows ++ sorted)
unfolding sort_rows
sort_rows-perm_onto [] sorted = Perm.refl sorted
sort_rows-perm_onto (r ∷ rows) sorted =
    Perm.trans (sort_rows-perm_onto rows (insert_row r sorted))
      (Perm.trans (Perm.append_left rows (insert_row-perm r sorted)) (perm_middle rows sorted))

pub sort_rows-perm : (rows : List Row) → Perm (sort_rows rows []) rows
sort_rows-perm rows =
    subst (Perm (sort_rows rows [])) (append-nil rows) (sort_rows-perm_onto rows [])

-- The order of texts.
text_lt_asym : (a b : List ℕ) → text_lt a b ≡ true → text_lt b a ≡ false
unfolding text_lt
text_lt_asym [] [] h = refl
text_lt_asym [] (d ∷ ds) h = refl
text_lt_asym (c ∷ cs) [] h = cc
text_lt_asym (c ∷ cs) (d ∷ ds) h = elim (Bool-cases (text_lt cs ds)) [
  | inl less ↦ ground (arith, h, text_lt_asym cs ds less)
  | inr more ↦ ground (arith, h, more)
]

text_lt_trans : (a b c : List ℕ) → text_lt a b ≡ false → text_lt b c ≡ false → text_lt a c ≡ false
unfolding text_lt
text_lt_trans [] [] c h k = k
text_lt_trans [] (y ∷ ys) c h k = cc
text_lt_trans (x ∷ xs) b [] h k = refl
text_lt_trans (x ∷ xs) [] (z ∷ zs) h k = cc
text_lt_trans (x ∷ xs) (y ∷ ys) (z ∷ zs) h k = elim (Bool-cases (text_lt xs ys)) [
  | inl less ↦ ground (arith, h, k, less)
  | inr more ↦ elim (Bool-cases (text_lt ys zs)) [
    | inl less ↦ ground (arith, h, k, less)
    | inr again ↦ ground (arith, h, k, text_lt_trans xs ys zs more again)
  ]
]

IsNoOlder-trans : (a b c : Row) → IsNoOlder a b → IsNoOlder b c → IsNoOlder a c
IsNoOlder-trans a b c h k = (
  omega (arith, h.0, k.0),
  λ same.
      text_lt_trans (tail_of a.created_at) (tail_of b.created_at) (tail_of c.created_at)
        (h.1 (omega (arith, h.0, k.0, same))) (k.1 (omega (arith, h.0, k.0, same))),
)

older : (a b : Row) → stamp_lt a.created_at b.created_at ≡ true → IsNoOlder b a
unfolding stamp_lt
older a b h = (
  ground (arith, h),
  λ same. text_lt_asym (tail_of a.created_at) (tail_of b.created_at) (ground (arith, h, same)),
)

insert_row-All :
    (P : Row → Type 0) (r : Row) (rows : List Row) → P r → All P rows → All P (insert_row r rows)
unfolding insert_row
insert_row-All P r [] p h = (p, tt)
insert_row-All P r (s ∷ rows) p h =
    if_rule (All P) (stamp_lt r.created_at s.created_at) _ _
      (λ _. (h.0, insert_row-All P r rows p h.1)) (λ _. (p, h))

insert_row-IsNewestFirst :
    (r : Row) (rows : List Row) → IsNewestFirst rows → IsNewestFirst (insert_row r rows)
unfolding insert_row
insert_row-IsNewestFirst r [] h = (tt, tt)
insert_row-IsNewestFirst r (s ∷ rows) h =
    if_rule IsNewestFirst (stamp_lt r.created_at s.created_at) _ _
      (λ less. (
        insert_row-All (IsNoOlder s) r rows (older r s less) h.0,
        insert_row-IsNewestFirst r rows h.1,
      ))
      (λ more.
        let first = not_older r s more in
        ((first, All-map (λ x k. IsNoOlder-trans r s x first k) rows h.0), h))

sort_rows-IsNewestFirst_onto :
    (rows sorted : List Row) → IsNewestFirst sorted → IsNewestFirst (sort_rows rows sorted)
unfolding sort_rows
sort_rows-IsNewestFirst_onto [] sorted h = h
sort_rows-IsNewestFirst_onto (r ∷ rows) sorted h =
    sort_rows-IsNewestFirst_onto rows (insert_row r sorted) (insert_row-IsNewestFirst r sorted h)

pub sort_rows-IsNewestFirst : (rows : List Row) → IsNewestFirst (sort_rows rows [])
sort_rows-IsNewestFirst rows = sort_rows-IsNewestFirst_onto rows [] tt
