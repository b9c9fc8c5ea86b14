-- ===== src/LogViewer/Sizes/Units.antt =====
-- Which unit `formatBytes` chooses.
use huntarr.Base.{
  ℕ, zero, suc, ◌+◌, ◌*◌, ◌^◌, ◌<◌, ◌≤◌, leb, ◌≡◌, ◌⊎◌, inl, inr, refl, arith, if_rule, ap, ◌∙◌,
  sym,
}
use native.Mathlib.Nat.{pow-suc}
use huntarr.LogViewer.Sizes.{scale_from}

-- The scale is that of the unit, not above the number, and the next unit's is, if there is one.
pub record IsScale (n : ℕ) (r : ℕ × ℕ) : Type 0 where
  pub scale : r.0 ≡ 1024 ^ r.1
  pub unit : r.1 ≤ 4
  pub reached : r.0 ≤ n
  pub largest : (n < 1024 * r.0) ⊎ (r.1 ≡ 4)

scale_from-IsScale :
    (left n scale unit : ℕ)
    → left + unit ≡ 4
    → scale ≡ 1024 ^ unit
    → scale ≤ n
    → IsScale n (scale_from left n scale unit)
unfolding scale_from
scale_from-IsScale zero n scale unit h e le = record {
  scale = e;
  unit = omega arith;
  reached = le;
  largest = inr (omega arith);
}
scale_from-IsScale (suc left) n scale unit h e le =
    if_rule (IsScale n) (leb (1024 * scale) n) (scale_from left n (scale * 1024) (suc unit))
      (scale, unit)
      (λ more.
        scale_from-IsScale left n (scale * 1024) (suc unit) (omega arith)
          (ap (λ k. k * 1024) e ∙ sym (pow-suc 1024 unit)) (ground arith))
      (λ stop. record { scale = e; unit = omega arith; reached = le; largest = inl (ground arith) })

-- For a positive number of bytes the loop ends on the largest unit, up to terabytes, that is not
-- more than the number.
pub scale_from_largest : (n : ℕ) → 0 < n → IsScale n (scale_from 4 n 1 0)
scale_from_largest n h = scale_from-IsScale 4 n 1 0 refl refl (omega arith)
