-- ===== src/Settings/Number/Printed.antt =====
-- `strconv.Atoi` on a number that a page writes.
use huntarr.Base.{
  ℕ, zero, suc, ◌+◌, ◌-◌, ◌*◌, ◌/◌, ◌%◌, ◌^◌, ◌<◌, ◌≤◌, false, List, [], ◌∷◌, ◌++◌, Option, none,
  some, if◌then◌else◌, ltb, ◌==◌, String, codes, get_or, decimal, decimal_from, digit_texts,
  codes-append, decimal-IsNumber, IsDecimal, pos, ◌≡◌, ◌≢◌, refl, ap, ◌∙◌, arith, Bool-cases, inl,
  inr, if_rule,
}
use Prim.Native.String
use huntarr.Settings.Number.{is_digit, digits_from, atoi, as_positive}

-- The digits go on from the value of those before them.
abbrev continue : Option ℕ → List ℕ → Option ℕ
continue none s = none
continue (some n) s = digits_from n s

digits_from-append :
    (acc : ℕ) (s t : List ℕ) → digits_from acc (s ++ t) ≡ continue (digits_from acc s) t
unfolding digits_from
digits_from-append acc [] t = refl
digits_from-append acc (c ∷ s) t =
    let rest = digits_from-append (acc * 10 + (c - b'0')) s t in
    elim (Bool-cases (is_digit c)) [ inl e ↦ rw e rest | inr e ↦ rw e refl ]

digits_from-digit :
    (acc d : ℕ) → d < 10 → digits_from acc (codes (get_or digit_texts d "")) ≡ some (acc * 10 + d)
unfolding digits_from
digits_from-digit acc zero h = refl
digits_from-digit acc (suc zero) h = refl
digits_from-digit acc (suc (suc zero)) h = refl
digits_from-digit acc (suc (suc (suc zero))) h = refl
digits_from-digit acc (suc (suc (suc (suc zero)))) h = refl
digits_from-digit acc (suc (suc (suc (suc (suc zero))))) h = refl
digits_from-digit acc (suc (suc (suc (suc (suc (suc zero)))))) h = refl
digits_from-digit acc (suc (suc (suc (suc (suc (suc (suc zero))))))) h = refl
digits_from-digit acc (suc (suc (suc (suc (suc (suc (suc (suc zero)))))))) h = refl
digits_from-digit acc (suc (suc (suc (suc (suc (suc (suc (suc (suc zero))))))))) h = refl
digits_from-digit acc (suc (suc (suc (suc (suc (suc (suc (suc (suc (suc d)))))))))) h =
    absurd (omega arith)

digits_from-last :
    (n : ℕ) (higher : String)
    → (ltb n 10 ≡ false → digits_from 0 (codes higher) ≡ some (n / 10))
    → let digit = get_or digit_texts (n % 10) "" in
      digits_from 0 (codes (if ltb n 10 then digit else String.◌++◌ higher digit)) ≡ some n
digits_from-last n higher value =
    let digit = get_or digit_texts (n % 10) "" in
    if_rule (λ t. digits_from 0 (codes t) ≡ some n) (ltb n 10) digit (String.◌++◌ higher digit)
      (λ small.
        digits_from-digit 0 (n % 10) (omega arith)
        ∙ ap some (let few : n < 10 = ground (arith, small) in omega arith))
      (λ large.
        ap (digits_from 0) (codes-append higher digit)
        ∙ digits_from-append 0 (codes higher) (codes digit)
        ∙ ap (λ o. continue o (codes digit)) (value large)
        ∙ digits_from-digit (n / 10) (n % 10) (omega arith)
        ∙ ap some (omega arith))

digits_from-decimal_from :
    (fuel n : ℕ) → n ≤ fuel → digits_from 0 (codes (decimal_from (suc fuel) n)) ≡ some n
unfolding decimal_from
digits_from-decimal_from zero n h =
    digits_from-last n ""
      (λ large. let bad : 10 ≤ n = ground (arith, large) in absurd (omega arith))
digits_from-decimal_from (suc fuel) n h =
    digits_from-last n (decimal_from (suc fuel) (n / 10)) (λ large.
      digits_from-decimal_from fuel (n / 10)
        (let big : 10 ≤ n = ground (arith, large) in omega arith))

atoi-digits :
    (s : List ℕ) (n : ℕ)
    → s ≢ []
    → IsDecimal s
    → digits_from 0 s ≡ some n
    → atoi s ≡ as_positive (some n)
unfolding atoi
atoi-digits [] n some_digit h e = absurd (some_digit refl)
atoi-digits (c ∷ s) n some_digit h e =
    let sign : ((c == b'-') ≡ false) × ((c == b'+') ≡ false) = ground (arith, h.0) in
    rw (sign.0, sign.1) (ap as_positive e)

-- Decimal digits have the value of the number that they write.
pub digits_from-decimal : (n : ℕ) → digits_from 0 (codes (decimal n)) ≡ some n
unfolding decimal
digits_from-decimal n = digits_from-decimal_from n n (omega arith)

-- What a page writes for a number that an int holds is read back as that number.
pub atoi-decimal : (n : ℕ) → n < 2 ^ 63 → atoi (codes (decimal n)) ≡ some (pos n)
atoi-decimal n h =
    let written = decimal-IsNumber n in
    atoi-digits (codes (decimal n)) n written.0 written.1 (digits_from-decimal n)
    ∙ ground (arith, h)
