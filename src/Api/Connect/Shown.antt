-- ===== src/Api/Connect/Shown.antt =====
-- What the page shows after a connection test.
use Prim.Native.String
use text.Mathlib.TextLemmas.{cons-append}
use huntarr.Base.{
  ℕ, String, Bool, true, false, Option, none, some, lookup, Bool-cases, inl, inr, str_eq, str_eq→eq,
  ◌==◌, ==_iff, ◌≡◌, ◌≢◌, refl, subst, sym, arith, ◌⊎◌, if◌then◌else◌, or_text, eq_iff, ltb, ◌&&◌,
  not,
}
use huntarr.Instances.{Instance, Store, get, is_app_type, ok, from_row}
use huntarr.ArrService.{version_major, major_version, mismatch_text, check_version, test_connection}
use huntarr.Connections.{TestResult, test_result, result}
use huntarr.Api.Connect.{test_answer, test_found, test_path, handle_test_instance, read_answer}

-- The two applications of one name are told apart by the major version of their server; a version
-- without one suits both.
abbrev pub IsWanted : String → ℕ → Type 0
IsWanted t want = ((t ≡ "whisparr-v2") × (want ≡ 2)) ⊎ ((t ≡ "whisparr-v3") × (want ≡ 3))

abbrev pub IsSuitable : ℕ → String → Type 0
IsSuitable want version = (major_version version ≡ 0) ⊎ (major_version version ≡ want)

-- What is shown of a type and the version that its application gives.
pub data Tells (t : String) : Option String → TestResult → Type 0 where
  unknown :
      (version : Option String)
      → is_app_type t ≡ false
      → Tells t version (result false "Connection failed")
  silent :
      is_app_type t ≡ true
      → Tells t none (result false "connection test failed; check the instance URL and API key")
  misfit :
      (version : String) (want : ℕ)
      → IsWanted t want
      → major_version version ≢ 0
      → major_version version ≢ want
      → Tells t (some version) (result false (mismatch_text version want t))
  fits :
      (version : String)
      → is_app_type t ≡ true
      → ((want : ℕ) → IsWanted t want → IsSuitable want version)
      → Tells t (some version) (result true "Connected")

-- The major version that a type wants, 0 for any.
abbrev HasMajor : String → ℕ → Type 0
HasMajor t want =
    (version_major t ≡ some want)
    × (want ≢ 0 → IsWanted t want)
    × ((w : ℕ) → IsWanted t w → w ≡ want)

-- Other types want none.
other_types :
    (t : String) (w : ℕ)
    → str_eq t "whisparr-v2" ≡ false
    → str_eq t "whisparr-v3" ≡ false
    → ¬ IsWanted t w
other_types t w e e' (inl p) = let same = (eq_iff t "whisparr-v2").1 p.0 in cc
other_types t w e e' (inr p) = let same = (eq_iff t "whisparr-v3").1 p.0 in cc

second_generation : (w : ℕ) → IsWanted "whisparr-v2" w → w ≡ 2
second_generation w (inl p) = p.1
second_generation w (inr p) =
    absurd (let bad : false ≡ true = (eq_iff "whisparr-v2" "whisparr-v3").1 p.0 in cc)

third_generation : (w : ℕ) → IsWanted "whisparr-v3" w → w ≡ 3
third_generation w (inl p) =
    absurd (let bad : false ≡ true = (eq_iff "whisparr-v3" "whisparr-v2").1 p.0 in cc)
third_generation w (inr p) = p.1

known_types : (t : String) → is_app_type t ≡ true → (want : ℕ) × HasMajor t want
known_types t h = elim (Bool-cases (str_eq t "whisparr-v2")) [
  | inl e ↦
      subst (λ t. (want : ℕ) × HasMajor t want) (sym (str_eq→eq t "whisparr-v2" e))
        (2, (refl, (λ _. inl (refl, refl)), second_generation))
  | inr e ↦ elim (Bool-cases (str_eq t "whisparr-v3")) [
    | inl e' ↦
        subst (λ t. (want : ℕ) × HasMajor t want) (sym (str_eq→eq t "whisparr-v3" e'))
          (3, (refl, (λ _. inr (refl, refl)), third_generation))
    | inr e' ↦ (
      0,
      (
        ground (arith, h, e, e'),
        (λ bad. absurd (bad refl)),
        (λ w wants. absurd (other_types t w e e' wants)),
      ),
    )
  ]
]

-- A text that goes on after a first part that is not empty.
or_text-append : (s t d : String) → s ≢ "" → or_text (String.◌++◌ s t) d ≡ String.◌++◌ s t
or_text-append String.[] t d h = absurd (h refl)
or_text-append (String.◌∷◌ c s) t d h = rw (cons-append c s t) refl

some_generation : (t : String) (w : ℕ) → IsWanted t w → w ≢ 0
some_generation t w (inl p) = λ e. omega (arith, e, p.1)
some_generation t w (inr p) = λ e. omega (arith, e, p.1)

accepted_version :
    (t version : String) (w : ℕ)
    → IsWanted t w
    → (ltb 0 w && ltb 0 (major_version version) && not (major_version version == w)) ≡ false
    → IsSuitable w version
accepted_version t version w wants h = elim (Bool-cases (major_version version == 0)) [
  | inl e ↦ inl ((==_iff (major_version version) 0).0 e)
  | inr e ↦ inr (ground (arith, h, e, some_generation t w wants))
]

abbrev shown_of : String → Option String → Option ℕ → TestResult
shown_of t version want = test_result (read_answer (test_answer (check_version t want version)))

check_major-Tells :
    (t version : String) (want : ℕ)
    → is_app_type t ≡ true
    → HasMajor t want
    → Tells t (some version) (shown_of t (some version) (some want))
unfolding test_result
check_major-Tells t version want known major =
    elim (Bool-cases
      (ltb 0 want && ltb 0 (major_version version) && not (major_version version == want))) [
        | inl e ↦
            let apart : (want ≢ 0) × (major_version version ≢ 0) × (major_version version ≢ want) =
              (
                (λ z. ground (arith, e, z)),
                (λ z. ground (arith, e, z)),
                (λ z. ground (arith, e, z)),
              ) in
            rw e (
              subst (λ m. Tells t (some version) (result false m))
                (sym (
                  or_text-append "application version mismatch: the server reports version " _ _
                    (λ z. cc)))
                (misfit version want (major.1 apart.0) apart.1 apart.2))
        | inr e ↦ rw e (
            fits version known (λ w wants. accepted_version t version w wants (
              subst
                (λ n.
                  (ltb 0 n && ltb 0 (major_version version) && not (major_version version == n))
                  ≡ false)
                (sym (major.2 w wants)) e)))
      ]

check_version-Tells :
    (t : String) (version : Option String)
    → is_app_type t ≡ true
    → Tells t version (shown_of t version (version_major t))
unfolding test_result
check_version-Tells t none known =
    let (want, major) = known_types t known in
    subst (λ o. Tells t none (shown_of t none o)) (sym major.0) (silent known)
check_version-Tells t (some version) known =
    let (want, major) = known_types t known in
    subst (λ o. Tells t (some version) (shown_of t (some version) o)) (sym major.0)
      (check_major-Tells t version want known major)

-- The instance that a request means.
abbrev pub meant : Option String → Bool → Store → Option Instance
meant none found s = none
meant (some id) found s = if found then lookup id s else none

-- What is shown if there is such an instance, and if there is none.
abbrev pub IsShown : (Instance → Option String) → Option Instance → TestResult → Type 0
IsShown version_of none r = r ≡ result false "Connection failed"
IsShown version_of (some inst) r = Tells inst.app_type (version_of inst) r

module _ (version_of : Instance → Option String) where
  test_found-Tells :
      (inst : Instance)
      → Tells inst.app_type
          (version_of inst)
          (test_result (read_answer (test_found version_of (ok inst))))
  unfolding test_connection test_result
  test_found-Tells inst = elim (Bool-cases (is_app_type inst.app_type)) [
    | inl e ↦ rw e (check_version-Tells inst.app_type (version_of inst) e)
    | inr e ↦ rw e (unknown (version_of inst) e)
  ]

  stored-IsShown :
      (o : Option Instance)
      → IsShown version_of o (test_result (read_answer (test_found version_of (from_row o))))
  unfolding test_result
  stored-IsShown none = refl
  stored-IsShown (some inst) = test_found-Tells inst

  path-IsShown :
      (o : Option String) (found : Bool) (s : Store)
      → IsShown version_of
          (meant o found s)
          (test_result (read_answer (test_path version_of found o s)))
  unfolding test_result get
  path-IsShown none found s = refl
  path-IsShown (some id) true s = stored-IsShown (lookup id s)
  path-IsShown (some id) false s = refl

  -- A test of the connection of an instance shows "Connected" if the instance is known, its application
  -- answers, and the major version that it gives, if any, is the one of the instance's type, where the
  -- type is one of the two generations of Whisparr. Else it says which of these fails: a version of
  -- the other generation is named with the wanted one, an application that is silent has its own
  -- message, and without an instance, or with one of an unknown type, the connection failed.
  pub handle_test_instance-IsShown :
      (parse_uuid : String → Option String) (found : Bool) (raw : String) (s : Store)
      → IsShown version_of
          (meant (parse_uuid raw) found s)
          (test_result (read_answer (handle_test_instance version_of parse_uuid found raw s)))
  unfolding handle_test_instance
  handle_test_instance-IsShown parse_uuid found raw s = path-IsShown (parse_uuid raw) found s
