-- ===== src/Settings/Number.antt =====
-- `strconv.Atoi` of Go's standard library, as internal/settings uses it, over the bytes of a text.
pub mod Printed
use huntarr.Base.{
  ℕ, ◌+◌, ◌-◌, ◌*◌, ◌^◌, Bool, List, [], ◌∷◌, Option, none, some, if◌then◌else◌, leb, ltb, ◌==◌, ℤ,
  pos, negate, ◌&&◌,
}

abbrev pub is_digit : ℕ → Bool
is_digit c = leb b'0' c && leb c b'9'

-- The value of decimal digits, after the digits that make `acc`.
unfoldable pub digits_from : ℕ → List ℕ → Option ℕ
digits_from acc [] = some acc
digits_from acc (c ∷ s) =
    let rest = digits_from (acc * 10 + (c - b'0')) s in if is_digit c then rest else none

-- At least one digit is wanted.
abbrev pub unsigned : List ℕ → Option ℕ
unsigned [] = none
unsigned (c ∷ s) = digits_from 0 (c ∷ s)

-- An int holds -2^63 to 2^63 - 1.
abbrev pub as_positive : Option ℕ → Option ℤ
as_positive none = none
as_positive (some n) = if ltb n (2 ^ 63) then some (pos n) else none

abbrev pub as_negative : Option ℕ → Option ℤ
as_negative none = none
as_negative (some n) = if leb n (2 ^ 63) then some (negate n) else none

unfoldable pub atoi : List ℕ → Option ℤ
unfolding digits_from
atoi [] = none
atoi (c ∷ s) =
    if c == b'-'
    then as_negative (unsigned s)
    else if c == b'+'
    then as_positive (unsigned s)
    else as_positive (digits_from 0 (c ∷ s))
