-- ===== src/SettingsPage/Formats/Duration.antt =====
-- Which texts `validDuration` accepts.
use huntarr.Base.{
  ℕ, String, true, List, [], ◌∷◌, ◌++◌, ◌≡◌, refl, ◌↔◌, ◌⊎◌, inl, inr, ◌≢◌, arith, All, ==_iff,
  codes, str_eq, str_eq→eq, Bool-cases,
}
use huntarr.Regex.{digit, in_range, Matches, Star, done, more}
use huntarr.Regex.Correct.{regex_test_iff}
use huntarr.SettingsPage.Formats.{amount, duration_regex, valid_duration}

abbrev pub IsDigit : ℕ → Type 0
IsDigit c = in_range b'0' b'9' c ≡ true

-- Nothing, or one or more digits and the unit.
abbrev pub IsAmount : ℕ → List ℕ → Type 0
IsAmount unit s = (s ≡ []) ⊎ ((ds : List ℕ) × (ds ≢ []) × All IsDigit ds × (s ≡ ds ++ unit ∷ []))

-- Hours, minutes and seconds, in this order, each of them optional.
pub record IsDuration (s : List ℕ) : Type 0 where
  pub hours : List ℕ
  pub minutes : List ℕ
  pub seconds : List ℕ
  pub parts : s ≡ hours ++ (minutes ++ seconds)
  pub hours_part : IsAmount b'h' hours
  pub minutes_part : IsAmount b'm' minutes
  pub seconds_part : IsAmount b's' seconds

Star-digits : {s : List ℕ} → Star (Matches digit) s → All IsDigit s
Star-digits (done e) = rw e tt
Star-digits (more c u v e (d, hd, ed) rest) =
    let same : c ≡ d = cc in let only : u ≡ [] = cc in rw (e, only, same) (hd, Star-digits rest)

digits-Star : (s : List ℕ) → All IsDigit s → Star (Matches digit) s
digits-Star [] h = done refl
digits-Star (c ∷ s) h = more c [] s refl (c, h.0, refl) (digits-Star s h.1)

pub amount_sound : (unit : ℕ) (s : List ℕ) → Matches (amount unit) s → IsAmount unit s
amount_sound unit s (inr e) = inl e
amount_sound unit s (inl (u, v, e, (u1, u2, e1, (c, hc, ec), ms), (d, hd, ed))) =
    let is_unit : d ≡ unit = (==_iff d unit).0 hd in
    inr (c ∷ u2, (λ bad. cc), (hc, Star-digits ms), rw (e, e1, ec, ed, is_unit))

pub amount_complete : (unit : ℕ) (s : List ℕ) → IsAmount unit s → Matches (amount unit) s
amount_complete unit s (inl e) = inr e
amount_complete unit s (inr ([], ne, h, e)) = absurd (ne refl)
amount_complete unit s (inr (c ∷ ds, ne, h, e)) = inl (
  c ∷ ds,
  unit ∷ [],
  e,
  (c ∷ [], ds, refl, (c, h.0, refl), digits-Star ds h.1),
  (unit, (==_iff unit unit).1 refl, refl),
)

duration_sound : (s : List ℕ) → Matches duration_regex s → IsDuration s
duration_sound s (h, r, e, mh, (m, t, e', mm, ms)) = record {
  hours = h;
  minutes = m;
  seconds = t;
  parts = rw (← e') e;
  hours_part = amount_sound b'h' h mh;
  minutes_part = amount_sound b'm' m mm;
  seconds_part = amount_sound b's' t ms;
}

duration_complete : (s : List ℕ) → IsDuration s → Matches duration_regex s
duration_complete s d = (
  d.hours,
  d.minutes ++ d.seconds,
  d.parts,
  amount_complete b'h' d.hours d.hours_part,
  (
    d.minutes,
    d.seconds,
    refl,
    amount_complete b'm' d.minutes d.minutes_part,
    amount_complete b's' d.seconds d.seconds_part,
  ),
)

nil-IsDuration : IsDuration []
nil-IsDuration = record {
  hours = [];
  minutes = [];
  seconds = [];
  parts = refl;
  hours_part = inl refl;
  minutes_part = inl refl;
  seconds_part = inl refl;
}

-- `validDuration` accepts exactly the texts that are hours, minutes and seconds in this order,
-- each of them digits with the unit's letter and each optional; so it accepts the empty text.
pub valid_duration_iff : (v : String) → (valid_duration v ≡ true) ↔ IsDuration (codes v)
unfolding valid_duration
valid_duration_iff v = elim (Bool-cases (str_eq v "")) [
  | inl e ↦ let blank : v ≡ "" = str_eq→eq v "" e in (λ _. rw blank nil-IsDuration, λ _. rw e)
  | inr e ↦
      let (sound, complete) = regex_test_iff duration_regex (codes v) in
      (
        λ h. duration_sound (codes v) (sound (ground (arith))),
        λ d. let found = complete (duration_complete (codes v) d) in rw (e, found),
      )
]
