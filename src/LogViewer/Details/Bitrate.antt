-- ===== src/LogViewer/Details/Bitrate.antt =====
-- web/static/js/logs.js: `formatBitrate`, for a number of bits below 2^53. Dividing by a million is
-- not exact, so the quotient is the double next to it.
use Prim.Native.String
use huntarr.Base.{
  ℕ, zero, suc, ◌+◌, ◌*◌, ◌/◌, ◌%◌, ◌^◌, String, if◌then◌else◌, leb, ltb, ◌==◌, decimal, ◌≡◌, refl,
}
use huntarr.LogViewer.Sizes.{tenths, fixed_one}

-- `n / d` rounded to the nearest whole number, a tie to the even one.
abbrev pub round_even : ℕ → ℕ → ℕ
round_even n d =
    let q = n / d in
    let r = 2 * (n % d) in
    if ltb r d then q else if ltb d r then suc q else if q % 2 == 0 then q else suc q

-- The largest scale `2 ^ e`, with `e` at most the first argument, by which `n / d` stays below
-- 2 ^ 53.
unfoldable pub scale_of : ℕ → ℕ → ℕ → ℕ
scale_of zero n d = 1
scale_of (suc e) n d =
    let smaller = scale_of e n d in if ltb (n * 2 ^ suc e / d) (2 ^ 53) then 2 ^ suc e else smaller

-- The double nearest to `n / d`, which is at least 1, as a mantissa over its scale.
unfoldable pub double : ℕ → ℕ → ℕ × ℕ
unfolding scale_of
double n d = let s = scale_of 52 n d in (round_even (n * s) d, s)

unfoldable pub format_bitrate : ℕ → String
unfolding double
format_bitrate n =
    let (mantissa, scale) = double n 1000000 in
    let megabits = String.◌++◌ (fixed_one (tenths mantissa scale)) " Mbps" in
    let kilobits = String.◌++◌ (decimal ((n + 500) / 1000)) " kbps" in
    if n == 0 then decimal n else if leb 1000000 n then megabits else kilobits

-- The double of 1.15 is below it, that of 1.05 above.
tie_below : format_bitrate 1150000 ≡ "1.1 Mbps"
unfolding format_bitrate decimal
tie_below = refl

tie_above : format_bitrate 1050000 ≡ "1.1 Mbps"
unfolding format_bitrate decimal
tie_above = refl

tie_exact : format_bitrate 1250000 ≡ "1.3 Mbps"
unfolding format_bitrate decimal
tie_exact = refl

below_a_megabit : format_bitrate 999500 ≡ "1000 kbps"
unfolding format_bitrate decimal
below_a_megabit = refl
