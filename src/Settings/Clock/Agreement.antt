-- ===== src/Settings/Clock/Agreement.antt =====
-- `validHHMM` of the page against `ParseHHMM` of the server.
use huntarr.Base.{
  ℕ, ◌+◌, ◌-◌, ◌*◌, ◌<◌, ◌≤◌, String, true, false, List, [], ◌∷◌, ◌++◌, some, ◌≡◌, ◌≢◌, refl, ap,
  ◌∙◌, arith, codes, pos, inl, inr, ==_iff, str_eq, str_eq→eq, Bool-cases,
}
use huntarr.Regex.{regex_test, Matches}
use huntarr.Regex.Correct.{regex_test_iff}
use huntarr.SettingsPage.Formats.{hour_regex, hhmm_regex, valid_hhmm}
use huntarr.Settings.Number.{is_digit, atoi}
use huntarr.Settings.Clock.{parse_hhmm}

atoi_two_digits :
    (a b : ℕ)
    → is_digit a ≡ true
    → is_digit b ≡ true
    → atoi (a ∷ b ∷ []) ≡ some (pos ((a - b'0') * 10 + (b - b'0')))
unfolding atoi
atoi_two_digits a b ha hb = ground arith

-- An hour as the page accepts it.
record IsHour (s : List ℕ) : Type 0 where
  first : ℕ
  second : ℕ
  text : s ≡ first ∷ second ∷ []
  first_digit : is_digit first ≡ true
  second_digit : is_digit second ≡ true
  in_day : (first - b'0') * 10 + (second - b'0') ≤ 23

IsHour-sound : (s : List ℕ) → Matches hour_regex s → IsHour s
IsHour-sound s (inl (u, v, e, (a, ha, ea), (b, hb, eb))) = record {
  first = a;
  second = b;
  text = rw (e, ea, eb);
  first_digit = ground arith;
  second_digit = ground arith;
  in_day = ground arith;
}
IsHour-sound s (inr (u, v, e, (a, ha, ea), (b, hb, eb))) = record {
  first = a;
  second = b;
  text = rw (e, ea, eb);
  first_digit = ground arith;
  second_digit = ground arith;
  in_day = ground arith;
}

parse_hhmm_five :
    (a b c d : ℕ)
    → is_digit a ≡ true
    → is_digit b ≡ true
    → is_digit c ≡ true
    → is_digit d ≡ true
    → (a - b'0') * 10 + (b - b'0') ≤ 23
    → (c - b'0') * 10 + (d - b'0') ≤ 59
    → parse_hhmm (a ∷ b ∷ b':' ∷ c ∷ d ∷ [])
      ≡ some (((a - b'0') * 10 + (b - b'0')) * 60 + ((c - b'0') * 10 + (d - b'0')))
unfolding parse_hhmm
parse_hhmm_five a b c d ha hb hc hd h m =
    rw (atoi_two_digits a b ha hb, atoi_two_digits c d hc hd) (ground arith)

shape_of :
    {s u v w r x y : List ℕ} {a b c d : ℕ}
    → s ≡ u ++ v
    → u ≡ a ∷ b ∷ []
    → v ≡ w ++ r
    → w ≡ b':' ∷ []
    → r ≡ x ++ y
    → x ≡ c ∷ []
    → y ≡ d ∷ []
    → s ≡ a ∷ b ∷ b':' ∷ c ∷ d ∷ []
shape_of e eu ev ew er ex ey = rw (e, eu, ev, ew, er, ex, ey)

hhmm-parses : (s : List ℕ) → Matches hhmm_regex s → (n : ℕ) × (parse_hhmm s ≡ some n) × (n < 1440)
hhmm-parses s (u, v, e, mh, (w, r, e', (sep, hsep, esep), (x, y, e'', (c, hc, ec), (d, hd, ed)))) =
    let h = IsHour-sound u mh in
    let colon : sep ≡ b':' = (==_iff sep b':').0 hsep in
    let m : (c - b'0') * 10 + (d - b'0') ≤ 59 = ground arith in
    let shape : s ≡ h.first ∷ h.second ∷ b':' ∷ c ∷ d ∷ [] =
      shape_of e h.text e' (esep ∙ ap (λ (k : ℕ). k ∷ []) colon) e'' ec ed in
    (
      ((h.first - b'0') * 10 + (h.second - b'0')) * 60 + ((c - b'0') * 10 + (d - b'0')),
      ap parse_hhmm shape
          ∙ parse_hhmm_five h.first h.second c d h.first_digit h.second_digit (ground arith) hd
              h.in_day m,
      omega (arith, h.in_day),
    )

-- Every text but the empty one that `validHHMM` accepts is read by `ParseHHMM`, as a minute of
-- the day.
pub parse_hhmm-valid_hhmm :
    (v : String)
    → valid_hhmm v ≡ true
    → v ≢ ""
    → (n : ℕ) × (parse_hhmm (codes v) ≡ some n) × (n < 1440)
unfolding valid_hhmm
parse_hhmm-valid_hhmm v h ne = elim (Bool-cases (str_eq v "")) [
  | inl e ↦ absurd (ne (str_eq→eq v "" e))
  | inr e ↦ hhmm-parses (codes v) ((regex_test_iff hhmm_regex (codes v)).0 (ground arith))
]

atoi_plus : (b : ℕ) → is_digit b ≡ true → atoi (b'+' ∷ b ∷ []) ≡ some (pos (b - b'0'))
unfolding atoi
atoi_plus b hb = ground arith

-- The other way round fails: `ParseHHMM` reads an hour that is a plus sign and one digit, which
-- `validHHMM`'s expression refuses, so the server takes texts that are no two-digit "HH:MM".
pub parse_hhmm-signed :
    (b c d : ℕ)
    → is_digit b ≡ true
    → is_digit c ≡ true
    → is_digit d ≡ true
    → c ≤ b'5'
    → (parse_hhmm (b'+' ∷ b ∷ b':' ∷ c ∷ d ∷ [])
        ≡ some ((b - b'0') * 60 + ((c - b'0') * 10 + (d - b'0'))))
      × (regex_test hhmm_regex (b'+' ∷ b ∷ b':' ∷ c ∷ d ∷ []) ≡ false)
unfolding parse_hhmm regex_test
parse_hhmm-signed b c d hb hc hd low =
    (rw (atoi_plus b hb, atoi_two_digits c d hc hd) (ground arith), refl)
