-- ===== src/Base/Maps.antt =====
-- Dictionaries keyed by texts, as association lists: a later write of a key replaces the value in
-- place, and a removal takes out every entry of the key.
use huntarr.Base.Tests.{if◌then◌else◌, if_rule, Bool-cases}
use huntarr.Base.Lists.{All}
use huntarr.Base.Text.{str_eq, str_eq→eq}
use Prim.Native.String.{String}
use mathlib.Core.Option.{Option, none, some}
use mathlib.Core.List.{List, [], ◌∷◌}
use mathlib.Core.Path.{◌≡◌, refl, sym, subst}
use mathlib.Core.Logic.{inl, inr}
use native.Mathlib.Omega.{arith}
use text.Mathlib.TextEquality.{eq_iff}

module _ {ℓ} {V : Type ℓ} where
  unfoldable pub lookup : String → List (String × V) → Option V
  lookup key [] = none
  lookup key ((name, value) ∷ entries) =
      let rest = lookup key entries in if str_eq name key then some value else rest

  unfoldable pub insert : String → V → List (String × V) → List (String × V)
  insert key new [] = (key, new) ∷ []
  insert key new ((name, old) ∷ entries) =
      let rest = insert key new entries in
      if str_eq name key then (name, new) ∷ entries else (name, old) ∷ rest

  unfoldable pub erase : String → List (String × V) → List (String × V)
  erase key [] = []
  erase key ((name, value) ∷ entries) =
      let rest = erase key entries in if str_eq name key then rest else (name, value) ∷ rest

  pub lookup-insert :
      (key other : String) (new : V) (entries : List (String × V))
      → lookup other (insert key new entries)
        ≡ (if str_eq key other then some new else lookup other entries)
  unfolding lookup insert
  lookup-insert key other new [] = refl
  lookup-insert key other new ((name, old) ∷ entries) = ground (
    arith,
    lookup-insert key other new entries,
    eq_iff name key,
    eq_iff name other,
    eq_iff key other,
  )

  pub lookup-erase :
      (key other : String) (entries : List (String × V))
      → lookup other (erase key entries) ≡ (if str_eq key other then none else lookup other entries)
  unfolding lookup erase
  lookup-erase key other [] = ground arith
  lookup-erase key other ((name, value) ∷ entries) =
      ground (
        arith,
        lookup-erase key other entries,
        eq_iff name key,
        eq_iff name other,
        eq_iff key other,
      )

-- What holds of every entry, after a write or a removal, and of an entry that is found.
module _ {ℓ κ} {V : Type ℓ} (P : String × V → Type κ) where
  pub All-insert :
      (key : String) (new : V) (entries : List (String × V))
      → P (key, new)
      → All P entries
      → All P (insert key new entries)
  unfolding insert
  All-insert key new [] p h = (p, tt)
  All-insert key new ((name, old) ∷ entries) p h =
      if_rule (All P) (str_eq name key) ((name, new) ∷ entries)
        ((name, old) ∷ insert key new entries)
        (λ same. (subst (λ n. P (n, new)) (sym (str_eq→eq name key same)) p, h.1))
        (λ _. (h.0, All-insert key new entries p h.1))

  pub All-erase :
      (key : String) (entries : List (String × V)) → All P entries → All P (erase key entries)
  unfolding erase
  All-erase key [] h = tt
  All-erase key ((name, value) ∷ entries) h =
      if_rule (All P) (str_eq name key) (erase key entries) ((name, value) ∷ erase key entries)
        (λ _. All-erase key entries h.1) (λ _. (h.0, All-erase key entries h.1))

  pub All-lookup :
      (key : String) (value : V) (entries : List (String × V))
      → All P entries
      → lookup key entries ≡ some value
      → P (key, value)
  unfolding lookup
  All-lookup key value [] h e = absurd (let bad : none ≡ some value = e in cc)
  All-lookup key value ((name, v) ∷ entries) h e = elim (Bool-cases (str_eq name key)) [
    | inl same ↦
        let found : some v ≡ some value =
          subst (λ b. (if b then some v else lookup key entries) ≡ some value) same e in
        let equal : v ≡ value = cc in
        subst (λ n. P (n, value)) (str_eq→eq name key same) (subst (λ w. P (name, w)) equal h.0)
    | inr other ↦
        All-lookup key value entries h.1
          (subst (λ b. (if b then some v else lookup key entries) ≡ some value) other e)
  ]
