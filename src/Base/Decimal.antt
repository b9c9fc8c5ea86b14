-- ===== src/Base/Decimal.antt =====
-- `String(n)` of a natural number: its decimal digits.
use huntarr.Base.Tests.{if◌then◌else◌, ltb, leb, Bool-cases}
use huntarr.Base.Text.{codes}
use Prim.Native.Char.{code}
use mathlib.Core.List
use mathlib.Core.Bool.{true, ◌&&◌}
use mathlib.Core.Logic.{inl, inr, ◌≢◌}
use native.Mathlib.Omega.{arith}
use text.Mathlib.TextLemmas.{nil-append, cons-append}
use huntarr.Base.Lists.{get_or, All, All-append}
use Prim.Native.Nat.{ℕ, zero, suc, ◌/◌, ◌%◌, ◌<◌}
use Prim.Native.String.{String, ◌++◌}
use mathlib.Core.List.{List, [], ◌∷◌}
use mathlib.Core.Path.{◌≡◌, refl, ap, ◌∙◌}

abbrev pub digit_texts : List String
digit_texts = "0" ∷ "1" ∷ "2" ∷ "3" ∷ "4" ∷ "5" ∷ "6" ∷ "7" ∷ "8" ∷ "9" ∷ []

-- A number has no more digits than the fuel `suc n` that `decimal` gives.
unfoldable pub decimal_from : ℕ → ℕ → String
decimal_from zero n = ""
decimal_from (suc fuel) n =
    let higher = decimal_from fuel (n / 10) in
    let digit = get_or digit_texts (n % 10) "" in if ltb n 10 then digit else higher ++ digit

unfoldable pub decimal : ℕ → String
unfolding decimal_from
decimal n = decimal_from (suc n) n

abbrev pub IsDecimal : List ℕ → Type 0
IsDecimal = All (λ c. (leb b'0' c && leb c b'9') ≡ true)

abbrev pub IsNumber : String → Type 0
IsNumber s = (codes s ≢ []) × IsDecimal (codes s)

pub codes-append : (s t : String) → codes (s ++ t) ≡ List.◌++◌ (codes s) (codes t)
codes-append String.[] t = ap codes (nil-append t)
codes-append (String.◌∷◌ c s) t =
    ap codes (cons-append c s t) ∙ ap (λ w. code c ∷ w) (codes-append s t)

append-IsNumber : (s t : String) → IsDecimal (codes s) → IsNumber t → IsNumber (s ++ t)
append-IsNumber s t hs ht = rw (codes-append s t) (
  append-ne-nil (codes s) (codes t) ht.0,
  All-append (λ c. (leb b'0' c && leb c b'9') ≡ true) (codes s) (codes t) hs ht.1,
)
  where
    append-ne-nil : (xs ys : List ℕ) → ys ≢ [] → List.◌++◌ xs ys ≢ []
    append-ne-nil [] ys h = h
    append-ne-nil (x ∷ xs) ys h = λ e. cc

digit-IsNumber : (d : ℕ) → d < 10 → IsNumber (get_or digit_texts d "")
digit-IsNumber zero h = ((λ e. cc), (refl, tt))
digit-IsNumber (suc zero) h = ((λ e. cc), (refl, tt))
digit-IsNumber (suc (suc zero)) h = ((λ e. cc), (refl, tt))
digit-IsNumber (suc (suc (suc zero))) h = ((λ e. cc), (refl, tt))
digit-IsNumber (suc (suc (suc (suc zero)))) h = ((λ e. cc), (refl, tt))
digit-IsNumber (suc (suc (suc (suc (suc zero))))) h = ((λ e. cc), (refl, tt))
digit-IsNumber (suc (suc (suc (suc (suc (suc zero)))))) h = ((λ e. cc), (refl, tt))
digit-IsNumber (suc (suc (suc (suc (suc (suc (suc zero))))))) h = ((λ e. cc), (refl, tt))
digit-IsNumber (suc (suc (suc (suc (suc (suc (suc (suc zero)))))))) h = ((λ e. cc), (refl, tt))
digit-IsNumber (suc (suc (suc (suc (suc (suc (suc (suc (suc zero))))))))) h =
    ((λ e. cc), (refl, tt))
digit-IsNumber (suc (suc (suc (suc (suc (suc (suc (suc (suc (suc d)))))))))) h =
    absurd (omega arith)

last_digit-IsNumber :
    (n : ℕ) (higher : String)
    → IsDecimal (codes higher)
    → IsNumber
        (let digit = get_or digit_texts (n % 10) "" in if ltb n 10 then digit else higher ++ digit)
last_digit-IsNumber n higher h = elim (Bool-cases (ltb n 10)) [
  | inl e ↦ rw e (digit-IsNumber (n % 10) (omega arith))
  | inr e ↦ rw e (append-IsNumber higher _ h (digit-IsNumber (n % 10) (omega arith)))
]

decimal_from-IsNumber : (fuel n : ℕ) → IsNumber (decimal_from (suc fuel) n)
unfolding decimal_from
decimal_from-IsNumber zero n = last_digit-IsNumber n "" tt
decimal_from-IsNumber (suc fuel) n =
    last_digit-IsNumber n (decimal_from (suc fuel) (n / 10)) (decimal_from-IsNumber fuel (n / 10)).1

-- A number is written with decimal digits, at least one.
pub decimal-IsNumber : (n : ℕ) → IsNumber (decimal n)
unfolding decimal
decimal-IsNumber n = decimal_from-IsNumber n n

decimal_test : decimal 30970 ≡ "30970"
unfolding decimal
decimal_test = refl
