-- ===== src/Json.antt =====
-- JSON values as the pages hold them, with JavaScript's `String(v)`. An integer, below 2^53 where a
-- number is exact, is a `num`; any other number is a `fraction`, by the text that `String` gives.
use Prim.Native.String
use huntarr.Base.{
  suc, String, Bool, true, false, not, List, Option, none, some, if◌then◌else◌, ◌==◌, str_eq,
  decimal, ℤ, pos, negsuc,
}

mutual
  pub data Json : Type 0 where
    null : Json
    bool : Bool → Json
    num : ℤ → Json
    fraction text : String → Json
    array : Elements → Json
    object : Members → Json

  pub data Elements : Type 0 where
    no_elements : Elements
    element : Json → Elements → Elements

  pub data Members : Type 0 where
    no_members : Members
    member : String → Json → Members → Members

-- The details of an activity entry, an object.
abbrev pub Details : Type 0
Details = List (String × Json)

abbrev pub signed_text : ℤ → String
signed_text (pos n) = decimal n
signed_text (negsuc n) = String.◌++◌ "-" (decimal (suc n))

-- `String(v)`. An array joins its elements by commas, and shows an element that is `null` as the
-- empty text.
unfoldable mutual
  pub string_of : Json → String
  string_of null = "null"
  string_of (bool true) = "true"
  string_of (bool false) = "false"
  string_of (num z) = signed_text z
  string_of (fraction t) = t
  string_of (text t) = t
  string_of (array es) = join_elements es
  string_of (object ms) = "[object Object]"

  pub join_elements : Elements → String
  join_elements no_elements = ""
  join_elements (element v no_elements) = string_in_array v
  join_elements (element v (element w es)) =
      String.◌++◌ (string_in_array v) (String.◌++◌ "," (join_elements (element w es)))

  pub string_in_array : Json → String
  string_in_array null = ""
  string_in_array (bool true) = "true"
  string_in_array (bool false) = "false"
  string_in_array (num z) = signed_text z
  string_in_array (fraction t) = t
  string_in_array (text t) = t
  string_in_array (array es) = join_elements es
  string_in_array (object ms) = "[object Object]"

-- Whether a value counts as true. A fraction is not 0.
abbrev pub is_truthy : Json → Bool
is_truthy null = false
is_truthy (bool b) = b
is_truthy (num (pos n)) = not (n == 0)
is_truthy (num (negsuc n)) = true
is_truthy (fraction t) = true
is_truthy (text t) = not (str_eq t "")
is_truthy (array es) = true
is_truthy (object ms) = true

-- The member of an object, the last one of the name.
abbrev pub member_of : String → Members → Option Json
member_of k no_members = none
member_of k (member n v ms) = elim (member_of k ms) [
  | some w ↦ some w
  | none ↦ if str_eq n k then some v else none
]

-- `v || ''` for a value that may be missing.
abbrev pub or_empty : Option Json → Json
or_empty none = text ""
or_empty (some v) = if is_truthy v then v else text ""
