-- ===== src/SettingsPage/Formats.antt =====
-- web/static/js/settings.js: `validDuration` and `validHHMM`, with their regular expressions.
pub mod Duration
use huntarr.Base.{String, Bool, true, not, ◌&&◌, if◌then◌else◌, codes, str_eq}
use huntarr.Regex.{Regex, seq, alt, cls, lit, range, digit, plus, opt, regex_test}
use huntarr.Base.{ℕ, ◌||◌, ◌==◌}

-- `(\d+u)?`
abbrev pub amount : ℕ → Regex
amount unit = opt (seq (plus digit) (lit unit))

-- `/^(\d+h)?(\d+m)?(\d+s)?$/`
abbrev pub duration_regex : Regex
duration_regex = seq (amount b'h') (seq (amount b'm') (amount b's'))

unfoldable pub valid_duration : String → Bool
unfolding regex_test
valid_duration v =
    if str_eq v "" then true else regex_test duration_regex (codes v) && not (str_eq v "")

-- `[01]\d|2[0-3]`
abbrev pub hour_regex : Regex
hour_regex = alt (seq (cls (λ c. c == b'0' || c == b'1')) digit) (seq (lit b'2') (range b'0' b'3'))

-- `/^([01]\d|2[0-3]):[0-5]\d$/`
abbrev pub hhmm_regex : Regex
hhmm_regex = seq hour_regex (seq (lit b':') (seq (range b'0' b'5') digit))

unfoldable pub valid_hhmm : String → Bool
unfolding regex_test
valid_hhmm v = if str_eq v "" then true else regex_test hhmm_regex (codes v)
