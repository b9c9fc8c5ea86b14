-- ===== src/Api/Settings/Durations.antt =====
-- The durations that the API returns, against the format that the Settings page accepts.
use Prim.Native.String
use native.Mathlib.Decide.{dec_le}
use huntarr.Base.{
  ◌↔◌, ℕ, zero, suc, ◌/◌, ◌%◌, ◌<◌, ◌≤◌, String, Bool, true, false, not, ◌&&◌, List, [], ◌∷◌, ◌++◌,
  ◌≡◌, refl, sym, ◌∙◌, ap, arith, codes, decimal, codes-append, decimal-IsNumber, inl, inr, ltb,
  str_eq, str_eq→eq, Bool-cases, ==_iff, ◌==◌, ◌⊎◌,
}
use huntarr.SettingsPage.Formats.{valid_duration}
use huntarr.SettingsPage.Formats.Duration.{IsAmount, IsDuration, valid_duration_iff}
use huntarr.Api.Settings.{part, format_duration}

-- A property tried on the numbers from `top` down.
holds_to : (ℕ → Bool) → ℕ → Bool
holds_to test zero = test zero
holds_to test (suc top) = holds_to test top && test (suc top)

holds_to_sound :
    (test : ℕ → Bool) (top : ℕ) → holds_to test top ≡ true → (k : ℕ) → k ≤ top → test k ≡ true
unfolding holds_to
holds_to_sound test zero tried zero le = tried
holds_to_sound test zero tried (suc k) le = absurd (omega arith)
holds_to_sound test (suc top) tried k le = elim (Bool-cases (k == suc top)) [
  | inl last ↦ rw ((==_iff k (suc top)).0 last) (ground arith)
  | inr earlier ↦ holds_to_sound test top (ground arith) k (ground arith)
]

milliseconds_table : holds_to (λ k. not (valid_duration (String.◌++◌ (decimal k) "ms"))) 999 ≡ true
unfolding holds_to valid_duration decimal
milliseconds_table = refl

part-IsAmount : (n c : ℕ) (unit : String) → codes unit ≡ c ∷ [] → IsAmount c (codes (part n unit))
part-IsAmount n c unit h = elim (Bool-cases (ltb 0 n)) [
  | inl e ↦
      let (ne, digits) = decimal-IsNumber n in
      rw e (
        inr (
          codes (decimal n),
          ne,
          digits,
          codes-append (decimal n) unit ∙ ap (λ w. codes (decimal n) ++ w) h,
        ))
  | inr e ↦ rw e (inl refl)
]

parts-IsDuration :
    (h m s : ℕ)
    → IsDuration (codes (String.◌++◌ (part h "h") (String.◌++◌ (part m "m") (part s "s"))))
parts-IsDuration h m s = record {
  hours = codes (part h "h");
  minutes = codes (part m "m");
  seconds = codes (part s "s");
  parts =
      codes-append (part h "h") (String.◌++◌ (part m "m") (part s "s"))
      ∙ ap (λ w. codes (part h "h") ++ w) (codes-append (part m "m") (part s "s"));
  hours_part = part-IsAmount h b'h' "h" refl;
  minutes_part = part-IsAmount m b'm' "m" refl;
  seconds_part = part-IsAmount s b's' "s" refl;
}

append-nil_inv : (xs ys : List ℕ) → xs ++ ys ≡ [] → (xs ≡ []) × (ys ≡ [])
append-nil_inv [] ys h = (refl, h)
append-nil_inv (x ∷ xs) ys h = cc

part-nil : (n : ℕ) (unit : String) → codes (part n unit) ≡ [] → n ≡ 0
part-nil n unit h = elim (Bool-cases (ltb 0 n)) [
  | inl e ↦
      let written : codes (String.◌++◌ (decimal n) unit) ≡ [] = rw e at h in
      absurd (
        (decimal-IsNumber n).0
          (append-nil_inv (codes (decimal n)) (codes unit)
            (sym (codes-append (decimal n) unit) ∙ written)).0)
  | inr e ↦ ground arith
]

-- No part is written only if all three are 0.
parts-nil :
    (h m s : ℕ)
    → String.◌++◌ (part h "h") (String.◌++◌ (part m "m") (part s "s")) ≡ ""
    → (h ≡ 0) × (m ≡ 0) × (s ≡ 0)
unfolding parts-IsDuration
parts-nil h m s e =
    let d = parts-IsDuration h m s in
    let (eh, rest) = append-nil_inv d.hours (d.minutes ++ d.seconds) (sym d.parts ∙ ap codes e) in
    let (em, es) = append-nil_inv d.minutes d.seconds rest in
    (part-nil h "h" eh, part-nil m "m" em, part-nil s "s" es)

format_duration_accepted :
    (d : ℕ) → (d ≡ 0) ⊎ (1000000000 ≤ d) → valid_duration (format_duration d) ≡ true
unfolding format_duration
format_duration_accepted d (inl e) = rw e (unfold valid_duration in refl)
format_duration_accepted d (inr e) =
    let h = d / 3600000000000 in
    let m = d / 60000000000 % 60 in
    let s = d / 1000000000 % 60 in
    let text = String.◌++◌ (part h "h") (String.◌++◌ (part m "m") (part s "s")) in
    let positive : (d == 0) ≡ false = ground arith in
    elim (Bool-cases (str_eq text "")) [
      | inl blank ↦ absurd (omega (arith, parts-nil h m s (str_eq→eq text "" blank)))
      | inr written ↦ rw (positive, written) ((valid_duration_iff text).1 (parts-IsDuration h m s))
    ]

format_duration_refused :
    (d : ℕ) → 0 < d → d < 1000000000 → valid_duration (format_duration d) ≡ false
unfolding format_duration
format_duration_refused d h lt =
    let eh : d / 3600000000000 ≡ 0 = omega arith in
    let em : d / 60000000000 % 60 ≡ 0 = omega arith in
    let es : d / 1000000000 % 60 ≡ 0 = omega arith in
    let ed : (d == 0) ≡ false = ground arith in
    let refused = holds_to_sound _ 999 milliseconds_table (d / 1000000) (omega arith) in
    rw (ed, eh, em, es) (ground arith)

-- The page accepts the text in which a duration is returned exactly if the duration is 0 or at least
-- a second. A shorter one is returned in milliseconds: once it is stored, the form that shows it
-- cannot be saved.
pub valid_duration-format_duration :
    (d : ℕ) → (valid_duration (format_duration d) ≡ true) ↔ ((d ≡ 0) ⊎ (1000000000 ≤ d))
valid_duration-format_duration d = (
  λ accepted. elim (dec_le 1000000000 d) [
    | yes long ↦ inr long
    | no short ↦ elim (dec_le 1 d) [
      | yes positive ↦
          let refused = format_duration_refused d positive (omega arith) in
          let bad : true ≡ false = sym accepted ∙ refused in cc
      | no zero_long ↦ inl (omega arith)
    ]
  ],
  format_duration_accepted d,
)
