-- ===== src/Connections/Scroll.antt =====
-- web/static/js/connections.js: the scroll position that `reloadInstances` keeps over a reload, in the
-- session storage of the page. The position is 0 or a number from 10^-6 to 10^21, or the negative of
-- one, which `String` writes with the digits of its whole part and of its fraction.
use Prim.Native.String
use huntarr.Base.{
  ℕ, ◌+◌, ◌-◌, ◌*◌, String, Bool, true, false, not, ◌&&◌, ◌||◌, List, [], ◌∷◌, ◌++◌, Option, none,
  some, if◌then◌else◌, ◌==◌, codes, codes-append, decimal, decimal-IsNumber, IsDecimal, str_eq,
  is_space, lookup, insert, erase, lookup-insert, lookup-erase, ℤ, pos, negate, ◌≡◌, ◌≢◌, refl, sym,
  ap, ◌∙◌, arith, Bool-cases, inl, inr, if_rule,
}
use huntarr.Settings.Number.{is_digit, digits_from}
use huntarr.Settings.Number.Printed.{digits_from-decimal}

abbrev pub Storage : Type 0
Storage = List (String × String)

-- `window.scrollY`: whether it is negative, its whole part, and the digits of its fraction, if it has
-- one.
pub record Position : Type 0 where
  pub negative : Bool
  pub whole : ℕ
  pub fraction : Option String

abbrev pub fraction_text : Option String → String
fraction_text none = ""
fraction_text (some digits) = String.◌++◌ "." digits

-- `String(window.scrollY)`
abbrev pub position_text : Position → String
position_text p =
    String.◌++◌ (if p.negative then "-" else "")
      (String.◌++◌ (decimal p.whole) (fraction_text p.fraction))

abbrev pub scroll_key : String
scroll_key = "huntarr2:connections:scroll"

-- `reloadInstances`, up to the reload.
unfoldable pub reload_instances : Position → Storage → Storage
unfolding insert
reload_instances p storage = insert scroll_key (position_text p) storage

-- `parseInt` in base 10: blanks and a sign, then digits as long as they go; `none` is NaN.
abbrev pub is_blank_code : ℕ → Bool
is_blank_code c = (is_space c && not (c == 133)) || c == 65279

unfoldable pub skip_blanks : List ℕ → List ℕ
unfolding is_space
skip_blanks [] = []
skip_blanks (c ∷ s) = let rest = skip_blanks s in if is_blank_code c then rest else c ∷ s

unfoldable pub prefix_value : ℕ → List ℕ → ℕ
prefix_value acc [] = acc
prefix_value acc (c ∷ s) =
    let rest = prefix_value (acc * 10 + (c - b'0')) s in if is_digit c then rest else acc

abbrev pub unsigned_prefix : List ℕ → Option ℕ
unsigned_prefix [] = none
unsigned_prefix (c ∷ s) = if is_digit c then some (prefix_value 0 (c ∷ s)) else none

abbrev pub signed : Bool → Option ℕ → Option ℤ
signed minus none = none
signed minus (some n) = some (if minus then negate n else pos n)

abbrev pub after_blanks : List ℕ → Option ℤ
after_blanks [] = none
after_blanks (c ∷ s) =
    if c == b'-'
    then signed true (unsigned_prefix s)
    else if c == b'+'
    then signed false (unsigned_prefix s)
    else signed false (unsigned_prefix (c ∷ s))

unfoldable pub parse_int : List ℕ → Option ℤ
unfolding skip_blanks prefix_value
parse_int s = after_blanks (skip_blanks s)

-- The first lines of `init`: the storage after them, and what `scrollTo` is called with, if it is.
abbrev pub scroll_to_saved : Storage → Option String → Storage × Option (Option ℤ)
scroll_to_saved storage none = (storage, none)
scroll_to_saved storage (some saved) = (erase scroll_key storage, some (parse_int (codes saved)))

unfoldable pub init_scroll : Storage → Storage × Option (Option ℤ)
unfolding parse_int lookup erase
init_scroll storage = scroll_to_saved storage (lookup scroll_key storage)

prefix_value-append :
    (acc n : ℕ) (s t : List ℕ)
    → digits_from acc s ≡ some n
    → prefix_value acc (s ++ t) ≡ prefix_value n t
unfolding digits_from prefix_value
prefix_value-append acc n [] t h = ap (λ k. prefix_value k t) (let e : some acc ≡ some n = h in cc)
prefix_value-append acc n (c ∷ s) t h = elim (Bool-cases (is_digit c)) [
  | inl digit ↦
      rw digit (prefix_value-append (acc * 10 + (c - b'0')) n s t (sym (rw digit refl) ∙ h))
  | inr other ↦ absurd (let bad : none ≡ some n = sym (rw other refl) ∙ h in cc)
]

-- The whole part of a position, as a number with its sign.
abbrev pub whole_part : Position → ℤ
whole_part p = if p.negative then negate p.whole else pos p.whole

unsigned_prefix-append :
    (n : ℕ) (s t : List ℕ)
    → s ≢ []
    → IsDecimal s
    → digits_from 0 s ≡ some n
    → prefix_value n t ≡ n
    → unsigned_prefix (s ++ t) ≡ some n
unsigned_prefix-append n [] t some_digit h e stop = absurd (some_digit refl)
unsigned_prefix-append n (c ∷ s) t some_digit h e stop =
    rw h.0 (ap some (prefix_value-append 0 n (c ∷ s) t e ∙ stop))

-- A fraction ends the digits.
prefix_value-fraction_text :
    (n : ℕ) (f : Option String) → prefix_value n (codes (fraction_text f)) ≡ n
unfolding prefix_value
prefix_value-fraction_text n none = refl
prefix_value-fraction_text n (some digits) = rw (codes-append "." digits) refl

unsigned_prefix-decimal :
    (n : ℕ) (f : Option String)
    → unsigned_prefix (codes (decimal n) ++ codes (fraction_text f)) ≡ some n
unsigned_prefix-decimal n f =
    let written = decimal-IsNumber n in
    unsigned_prefix-append n (codes (decimal n)) (codes (fraction_text f)) written.0 written.1
      (digits_from-decimal n) (prefix_value-fraction_text n f)

-- Digits stand without a sign.
parse_int-unsigned :
    (s t : List ℕ)
    → s ≢ []
    → IsDecimal s
    → parse_int (s ++ t) ≡ signed false (unsigned_prefix (s ++ t))
unfolding parse_int is_space
parse_int-unsigned [] t some_digit h = absurd (some_digit refl)
parse_int-unsigned (c ∷ s) t some_digit h =
    let blank : is_blank_code c ≡ false = ground (arith, h.0) in
    let sign : ((c == b'-') ≡ false) × ((c == b'+') ≡ false) = ground (arith, h.0) in
    rw blank (rw (sign.0, sign.1) refl)

parse_int-position_text :
    (negative : Bool) (whole : ℕ) (fraction : Option String)
    → let p : Position = record { negative = negative; whole = whole; fraction = fraction } in
      parse_int (codes (position_text p)) ≡ some (whole_part p)
unfolding parse_int is_space
parse_int-position_text true whole fraction =
    let rest = String.◌++◌ (decimal whole) (fraction_text fraction) in
    ap parse_int (codes-append "-" rest)
    ∙ ap (λ s. signed true (unsigned_prefix s))
        (codes-append (decimal whole) (fraction_text fraction))
    ∙ ap (signed true) (unsigned_prefix-decimal whole fraction)
parse_int-position_text false whole fraction =
    let rest = String.◌++◌ (decimal whole) (fraction_text fraction) in
    let written = decimal-IsNumber whole in
    let parts = codes-append (decimal whole) (fraction_text fraction) in
    ap parse_int (codes-append "" rest ∙ parts)
    ∙ parse_int-unsigned (codes (decimal whole)) (codes (fraction_text fraction)) written.0
        written.1
    ∙ ap (signed false) (unsigned_prefix-decimal whole fraction)

-- A reload of the page after a change goes back to where the page was: the page that is then loaded
-- scrolls once, to the whole part of the position that it was left at. It takes the position out of the
-- session storage and leaves all that others keep there.
pub init_scroll-reload_instances :
    (p : Position) (other : String) (storage : Storage)
    → let (kept, moved) = init_scroll (reload_instances p storage) in
      (moved ≡ some (some (whole_part p)))
      × (lookup other kept ≡ (if str_eq scroll_key other then none else lookup other storage))
unfolding init_scroll reload_instances
init_scroll-reload_instances p other storage =
    let stored = insert scroll_key (position_text p) storage in
    let found : init_scroll stored ≡ scroll_to_saved stored (some (position_text p)) =
      ap (scroll_to_saved stored) (lookup-insert scroll_key scroll_key (position_text p) storage) in
    (
      ap (λ r. r.1) found ∙ ap some (parse_int-position_text p.negative p.whole p.fraction),
      ap (λ r. lookup other r.0) found
          ∙ lookup-erase scroll_key other stored
          ∙ if_rule (λ o. o ≡ (if str_eq scroll_key other then none else lookup other storage))
              (str_eq scroll_key other) none (lookup other stored) (λ same. rw same refl)
              (λ apart. lookup-insert scroll_key other (position_text p) storage ∙ rw apart refl),
    )
