-- ===== src/LogViewer/Sizes.antt =====
-- web/static/js/logs.js: `formatBytes`, for a number of bytes below 2^53. Dividing by 1024 is exact
-- there, so the value after `unit` divisions is kept as the number over `scale`, which is
-- 1024 ^ unit, and `toFixed(1)` is the number of tenths next to it, the larger of two.
pub mod Units
use Prim.Native.String
use huntarr.Base.{
  ℕ, zero, suc, ◌+◌, ◌*◌, ◌/◌, ◌%◌, String, List, [], ◌∷◌, if◌then◌else◌, leb, ◌==◌, decimal,
  get_or, ◌≡◌, refl,
}

abbrev units : List String
units = "B" ∷ "KB" ∷ "MB" ∷ "GB" ∷ "TB" ∷ []

-- The loop, by the number of units that are left.
unfoldable pub scale_from : ℕ → ℕ → ℕ → ℕ → ℕ × ℕ
scale_from zero n scale unit = (scale, unit)
scale_from (suc left) n scale unit =
    let next = scale_from left n (scale * 1024) (suc unit) in
    if leb (1024 * scale) n then next else (scale, unit)

abbrev pub tenths : ℕ → ℕ → ℕ
tenths n scale = (n * 20 + scale) / (2 * scale)

-- `(n / scale).toFixed(1)`
abbrev pub fixed_one : ℕ → String
fixed_one t = String.◌++◌ (decimal (t / 10)) (String.◌++◌ "." (decimal (t % 10)))

unfoldable pub format_bytes : ℕ → String
unfolding scale_from
format_bytes n =
    let (scale, unit) = scale_from 4 n 1 0 in
    let amount = if unit == 0 then decimal n else fixed_one (tenths n scale) in
    if n == 0 then decimal n else String.◌++◌ amount (String.◌++◌ " " (get_or units unit ""))

eight_gigabytes : format_bytes 9019431322 ≡ "8.4 GB"
unfolding format_bytes decimal
eight_gigabytes = refl

-- Rounding may reach the next unit without changing to it.
just_under_a_megabyte : format_bytes 1048575 ≡ "1024.0 KB"
unfolding format_bytes decimal
just_under_a_megabyte = refl
