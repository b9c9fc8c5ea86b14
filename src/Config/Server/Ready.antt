-- ===== src/Config/Server/Ready.antt =====
-- What a configuration that loads is good for.
use huntarr.Base.{
  ℕ, ◌<◌, ◌≤◌, ◌*◌, String, Bool, true, false, not, List, [], ◌∷◌, ◌++◌, Option, none, some,
  if◌then◌else◌, if_rule, ◌==◌, ==_iff, codes, length, str_eq, ℤ, pos, negsuc, ◌≡◌, refl, sym, ◌∙◌,
  subst, arith, Bool-cases, inl, inr, lt64, ltb, ◌%◌, ◌^◌, ◌&&◌, mul64, mul64_small, lt64_small,
}
use huntarr.Encrypt.{Cipher, IsCipher, done, encrypt, decrypt}
use huntarr.Encrypt.RoundTrip.{decrypt-encrypt}
use huntarr.Config.{
  Config, ParseError, Violation, loaded, if_read, violations, violation_if, is_port, is_short,
  same_bool, read_key, value_or, of_size, first_key, decode_key, load, not_key, no_database,
  bad_port, short_tick, half_auth,
}
use huntarr.Config.Server.{
  StartUp, ticking, no_interval, nanoseconds, tick_interval, new_scheduler, start_up,
}

if_read-loaded :
    (cfg read : Config) (es : List ParseError) (vs : List Violation)
    → if_read cfg es vs ≡ loaded read
    → (es ≡ []) × (vs ≡ []) × (cfg ≡ read)
if_read-loaded cfg read [] [] h = (refl, refl, cc)
if_read-loaded cfg read [] (v ∷ vs) h = cc
if_read-loaded cfg read (e ∷ es) vs h = cc

module _ {A : Type 0} where
  append-nil : (xs ys : List A) → xs ++ ys ≡ [] → (xs ≡ []) × (ys ≡ [])
  append-nil [] ys h = (refl, h)
  append-nil (x ∷ xs) ys h = cc

violation_if-nil : (b : Bool) (v : Violation) → violation_if b v ≡ [] → b ≡ false
violation_if-nil true v h = cc
violation_if-nil false v h = refl

value_or-key :
    (e : ParseError) (o : Option (List ℕ))
    → ((key : List ℕ) → o ≡ some key → length key ≡ 32)
    → (value_or [] e o).1 ≡ []
    → length (value_or [] e o).0 ≡ 32
value_or-key e none sized h = cc
value_or-key e (some key) sized h = sized key refl

of_size-length : (o : Option (List ℕ)) (key : List ℕ) → of_size o ≡ some key → length key ≡ 32
of_size-length none key h = cc
of_size-length (some bytes) key h = elim (Bool-cases (length bytes == 32)) [
  | inl e ↦
      (let same : some bytes ≡ some key = sym (rw e refl) ∙ h in
        let eq : bytes ≡ key = cc in subst (λ k. length k ≡ 32) eq ((==_iff (length bytes) 32).0 e))
  | inr e ↦ absurd (let bad : none ≡ some key = sym (rw e refl) ∙ h in cc)
]

first_key-length :
    (o other : Option (List ℕ)) (key : List ℕ)
    → ((k : List ℕ) → o ≡ some k → length k ≡ 32)
    → ((k : List ℕ) → other ≡ some k → length k ≡ 32)
    → first_key o other ≡ some key
    → length key ≡ 32
first_key-length none other key h h' e = h' key e
first_key-length (some k) other key h h' e = h key e

module _ (level_of : String → Option ℤ) (hex base64 : String → Option (List ℕ))
    (env : String → String) where
  decode_key-length :
      (raw : String) (key : List ℕ)
      → decode_key level_of hex base64 env raw ≡ some key
      → length key ≡ 32
  decode_key-length raw key h =
      first_key-length (if length (codes raw) == 64 then of_size (hex raw) else none)
        (of_size (base64 raw)) key
        (λ k.
          if_rule (λ o. o ≡ some k → length k ≡ 32) (length (codes raw) == 64) (of_size (hex raw))
            none (λ _. of_size-length (hex raw) k) (λ _ bad. cc))
        (of_size-length (base64 raw)) h

  read_key-length :
      (name : String)
      → (read_key level_of hex base64 env name).1 ≡ []
      → length (read_key level_of hex base64 env name).0 ≡ 32
  read_key-length name =
      if_rule (λ (r : List ℕ × List ParseError). r.1 ≡ [] → length r.0 ≡ 32) (str_eq (env name) "")
        _ _ (λ _ bad. cc)
        (λ _.
          value_or-key (not_key name) (decode_key level_of hex base64 env (env name))
            (decode_key-length (env name)))

-- The ports, the intervals, and the names and passwords that pass.
is_port-range : (z : ℤ) → not (is_port z) ≡ false → (n : ℕ) × (z ≡ pos n) × (0 < n) × (n ≤ 65535)
is_port-range (pos n) h = (n, refl, ground (arith, h), ground (arith, h))
is_port-range (negsuc n) h = absurd (let bad : true ≡ false = h in cc)

is_short-range : (z : ℤ) → is_short z ≡ false → (t : ℕ) × (z ≡ pos t) × (5 ≤ t)
is_short-range (pos n) h = (n, refl, ground (arith, h))
is_short-range (negsuc n) h = absurd (let bad : true ≡ false = h in cc)

same_bool-eq : (a b : Bool) → not (same_bool a b) ≡ false → a ≡ b
same_bool-eq true true h = refl
same_bool-eq true false h = cc
same_bool-eq false true h = cc
same_bool-eq false false h = refl

-- An interval in seconds that an int of nanoseconds holds.
start_up-ticking :
    (cfg : Config) (t : ℕ)
    → length cfg.encryption_key ≡ 32
    → cfg.scheduler_tick_secs ≡ pos t
    → 5 ≤ t
    → t ≤ 9223372036
    → start_up cfg ≡ ticking (t * nanoseconds)
unfolding start_up tick_interval new_scheduler
start_up-ticking cfg t h e least most =
    let interval : tick_interval cfg ≡ t * nanoseconds =
      rw e (mul64_small t nanoseconds (omega arith)) in
    let later : lt64 0 (t * nanoseconds) ≡ true =
      lt64_small 0 (t * nanoseconds) (omega arith) (omega arith) ∙ ground arith in
    let keyed : (length cfg.encryption_key == 32) ≡ true = ground (arith, h) in
    rw keyed (rw interval (rw later refl))

-- What an interval makes of the start: the product wraps around to 64 bits, and has to be positive.
abbrev pub start_of : ℕ → StartUp
start_of t =
    let interval = t * nanoseconds % 2 ^ 64 in
    if ltb 0 interval && ltb interval (2 ^ 63) then ticking interval else no_interval

lt64-zero : (a : ℕ) → a < 2 ^ 64 → lt64 0 a ≡ (ltb 0 a && ltb a (2 ^ 63))
unfolding lt64
lt64-zero a h = ground (arith, h)

start_up-start_of :
    (cfg : Config) (t : ℕ)
    → length cfg.encryption_key ≡ 32
    → cfg.scheduler_tick_secs ≡ pos t
    → start_up cfg ≡ start_of t
unfolding start_up tick_interval new_scheduler mul64
start_up-start_of cfg t h e =
    let keyed : (length cfg.encryption_key == 32) ≡ true = ground (arith, h) in
    rw (keyed, e) (rw (lt64-zero (t * nanoseconds % 2 ^ 64) (omega arith)) refl)

refused-start_of : (t : ℕ) → 9223372037 ≤ t → t ≤ 18446744073 → start_of t ≡ no_interval
refused-start_of t least most =
    let large : ltb (t * nanoseconds % 2 ^ 64) (2 ^ 63) ≡ false = ground (arith, least, most) in
    rw large (ground arith)

-- The texts and numbers of a configuration that passes validation, and how the server starts with it.
pub record IsChecked (cfg : Config) : Type 0 where
  pub reachable : (n : ℕ) × (cfg.port ≡ pos n) × (0 < n) × (n ≤ 65535)
  pub keyed : length cfg.encryption_key ≡ 32
  pub stored : str_eq cfg.database_path "" ≡ false
  pub guarded : str_eq cfg.auth_username "" ≡ str_eq cfg.auth_password ""
  pub timed :
      (t : ℕ) × (cfg.scheduler_tick_secs ≡ pos t)
      × (5 ≤ t)
      × (t ≤ 9223372036 → start_up cfg ≡ ticking (t * nanoseconds))
      × (9223372037 ≤ t → t ≤ 18446744073 → start_up cfg ≡ no_interval)
      × (start_up cfg ≡ start_of t)

violations-IsChecked :
    (cfg : Config) → violations cfg ≡ [] → length cfg.encryption_key ≡ 32 → IsChecked cfg
unfolding violations
violations-IsChecked cfg h key =
    let no_path = str_eq cfg.database_path "" in
    let no_port = not (is_port cfg.port) in
    let short = is_short cfg.scheduler_tick_secs in
    let half = not (same_bool (str_eq cfg.auth_username "") (str_eq cfg.auth_password "")) in
    let ticks = violation_if short (short_tick cfg.scheduler_tick_secs) in
    let path = violation_if no_path no_database in
    let port = violation_if no_port bad_port in
    let last = append-nil (path ++ port ++ ticks) (violation_if half half_auth) h in
    let third = append-nil (path ++ port) ticks last.0 in
    let first = append-nil path port third.0 in
    let (t, e, least) =
      is_short-range cfg.scheduler_tick_secs
        (violation_if-nil short (short_tick cfg.scheduler_tick_secs) third.1) in
    record {
      reachable = is_port-range cfg.port (violation_if-nil no_port bad_port first.1);
      keyed = key;
      stored = violation_if-nil no_path no_database first.0;
      guarded =
          same_bool-eq (str_eq cfg.auth_username "") (str_eq cfg.auth_password "")
            (violation_if-nil half half_auth last.1);
      timed = (
        t,
        e,
        least,
        start_up-ticking cfg t key e least,
        (λ from to. start_up-start_of cfg t key e ∙ refused-start_of t from to),
        start_up-start_of cfg t key e,
      );
    }

-- A configuration that loads has a port of TCP, a path of the database, a user name exactly if it has
-- a password, a key of 32 bytes and at least five seconds between two ticks. With at most 9223372036
-- seconds the server starts and ticks in that interval; from 9223372037 to 18446744073 seconds it does
-- not start, for the interval is negative; and beyond, the product has wrapped around to 64 bits, and
-- the server ticks in what is left if that is a positive number of nanoseconds. With the key, every
-- API key that is encrypted under some nonce is decrypted to what it was.
pub load-IsChecked :
    (level_of : String → Option ℤ) (hex base64 : String → Option (List ℕ)) (env : String → String)
    (c : Cipher) (lawful : IsCipher c) (cfg : Config) (text nonce : List ℕ)
    → load level_of hex base64 env ≡ loaded cfg
    → length nonce ≡ c.nonce_size
    → IsChecked cfg
      × (sealed : List ℕ) × (encrypt c text cfg.encryption_key (some nonce) ≡ done sealed)
      × (decrypt c sealed cfg.encryption_key ≡ done text)
unfolding load
load-IsChecked level_of hex base64 env c lawful cfg text nonce h n =
    let parts = if_read-loaded _ cfg _ _ h in
    let last = append-nil _ (read_key level_of hex base64 env "ENCRYPTION_KEY").1 parts.0 in
    let key : length cfg.encryption_key ≡ 32 =
      subst (λ (k : Config). length k.encryption_key ≡ 32) parts.2
        (read_key-length level_of hex base64 env "ENCRYPTION_KEY" last.1) in
    let valid : violations cfg ≡ [] = subst (λ k. violations k ≡ []) parts.2 parts.1 in
    let (sealed, encrypted, decrypted) =
      decrypt-encrypt c lawful text cfg.encryption_key nonce key n in
    (violations-IsChecked cfg valid key, sealed, encrypted, decrypted)
