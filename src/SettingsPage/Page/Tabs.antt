-- ===== src/SettingsPage/Page/Tabs.antt =====
-- Moving between the tabs by the keyboard.
use huntarr.Base.{
  ℕ, suc, ◌+◌, ◌-◌, ◌%◌, ◌<◌, some, ◌≡◌, refl, ap, ◌∙◌, arith, pos, negsuc, if◌then◌else◌, ◌==◌,
  Bool-cases, inl, inr,
}
use native.Mathlib.Nat.{add-mod_right, mod_self, mod-eq_of_lt}
use huntarr.SettingsPage.Page.{first, last, adjacent, adjacent_tab}

-- Where the arrow keys go, written out.
abbrev pub right_of : ℕ → ℕ → ℕ
right_of idx n = if suc idx == n then 0 else suc idx

abbrev pub left_of : ℕ → ℕ → ℕ
left_of idx n = if idx == 0 then n - 1 else idx - 1

below : (k n : ℕ) → k < n → k % n ≡ k
below k n h = mod-eq_of_lt h

wrap : (k n : ℕ) → k < n → (k + n) % n ≡ k
wrap k n h = grind arith

adjacent_tab-right :
    (idx n : ℕ) → idx < n → adjacent_tab idx (pos 1) adjacent n ≡ some (right_of idx n)
unfolding adjacent_tab
adjacent_tab-right idx n h = elim (Bool-cases (suc idx == n)) [
  | inl e ↦
      let sum : idx + 1 + n ≡ n + n = ground arith in rw (e, sum, add-mod_right n n, mod_self n)
  | inr e ↦
      let sum : idx + 1 + n ≡ suc idx + n = omega arith in
      rw (e, sum, wrap (suc idx) n (ground arith))
]

adjacent_tab-left :
    (idx n : ℕ) → idx < n → adjacent_tab idx (negsuc 0) adjacent n ≡ some (left_of idx n)
unfolding adjacent_tab
adjacent_tab-left idx n h = elim (Bool-cases (idx == 0)) [
  | inl e ↦
      let sum : idx + n - 1 ≡ n - 1 = ground arith in
      rw (sum, below (n - 1) n (omega arith)) (ground arith)
  | inr e ↦
      let sum : idx + n - 1 ≡ (idx - 1) + n = ground arith in
      rw (sum, wrap (idx - 1) n (omega arith)) (ground arith)
]

-- From a tab of the list, each key leads to a tab of the list: right and left go round it and undo
-- each other, home goes to the first tab and end to the last.
pub adjacent_tab_round :
    (idx n : ℕ)
    → idx < n
    → (r l : ℕ) × (adjacent_tab idx (pos 1) adjacent n ≡ some r)
      × (r < n)
      × (adjacent_tab r (negsuc 0) adjacent n ≡ some idx)
      × (adjacent_tab idx (negsuc 0) adjacent n ≡ some l)
      × (l < n)
      × (adjacent_tab l (pos 1) adjacent n ≡ some idx)
      × (adjacent_tab idx (pos 0) first n ≡ some 0)
      × (adjacent_tab idx (pos 0) last n ≡ some (n - 1))
adjacent_tab_round idx n h =
    let r = right_of idx n in
    let l = left_of idx n in
    let r_in : r < n = ground arith in
    let l_in : l < n = ground arith in
    let back_r : left_of r n ≡ idx = ground arith in
    let back_l : right_of l n ≡ idx = ground arith in
    (
      r,
      l,
      adjacent_tab-right idx n h,
      r_in,
      adjacent_tab-left r n r_in ∙ ap some back_r,
      adjacent_tab-left idx n h,
      l_in,
      adjacent_tab-right l n l_in ∙ ap some back_l,
      (unfold adjacent_tab in refl),
      (unfold adjacent_tab in refl),
    )
