-- ===== src/Config.antt =====
-- internal/config: `Load`, which reads the configuration from environment variables. A variable that
-- is not set reads as the empty text. Parameters: `level_of` is `zerolog.ParseLevel`, `hex` and
-- `base64` are the decoders of Go's standard library.
pub mod Server
use huntarr.Base.{
  ℕ, String, Bool, true, false, not, ◌&&◌, ◌||◌, List, [], ◌∷◌, ◌++◌, Option, none, some,
  if◌then◌else◌, ltb, ◌==◌, codes, length, str_eq, ℤ, pos, negsuc,
}
use huntarr.Settings.Number.{atoi}

pub record Config : Type 0 where
  pub port : ℤ
  pub log_level : ℤ
  pub database_path : String
  pub scheduler_tick_secs : ℤ
  pub encryption_key : List ℕ
  pub auth_username : String
  pub auth_password : String

-- The errors of the variables, with a text that cannot be read, and of the configuration.
pub data ParseError : Type 0 where
  not_integer not_level : String → String → ParseError
  not_set not_key : String → ParseError

pub data Violation : Type 0 where
  no_database bad_port half_auth : Violation
  short_tick : ℤ → Violation

pub data Loading : Type 0 where
  loaded : Config → Loading
  unreadable : List ParseError → Loading
  rejected : List Violation → Loading

-- A reader gives its value and the errors that it adds.
abbrev pub Reading : Type 0 → Type 0
Reading A = A × List ParseError

abbrev pub value_or : {A : Type 0} → A → ParseError → Option A → Reading A
value_or fallback e none = (fallback, e ∷ [])
value_or fallback e (some v) = (v, [])

abbrev pub of_size : Option (List ℕ) → Option (List ℕ)
of_size none = none
of_size (some bytes) = if length bytes == 32 then some bytes else none

-- The first of two decoders that gives a key.
abbrev pub first_key : Option (List ℕ) → Option (List ℕ) → Option (List ℕ)
first_key none key = key
first_key (some key) other = some key

-- `AuthEnabled`
abbrev pub auth_enabled : Config → Bool
auth_enabled cfg = not (str_eq cfg.auth_username "") && not (str_eq cfg.auth_password "")

abbrev pub is_port : ℤ → Bool
is_port (pos n) = ltb 0 n && ltb n 65536
is_port (negsuc n) = false

abbrev pub is_short : ℤ → Bool
is_short (pos n) = ltb n 5
is_short (negsuc n) = true

abbrev pub violation_if : Bool → Violation → List Violation
violation_if b v = if b then v ∷ [] else []

abbrev pub same_bool : Bool → Bool → Bool
same_bool true b = b
same_bool false b = not b

-- `validate`, with every violation.
unfoldable pub violations : Config → List Violation
violations cfg =
    violation_if (str_eq cfg.database_path "") no_database
    ++ violation_if (not (is_port cfg.port)) bad_port
    ++ violation_if (is_short cfg.scheduler_tick_secs) (short_tick cfg.scheduler_tick_secs)
    ++ violation_if (not (same_bool (str_eq cfg.auth_username "") (str_eq cfg.auth_password "")))
        half_auth

abbrev pub if_valid : Config → List Violation → Loading
if_valid cfg [] = loaded cfg
if_valid cfg (v ∷ vs) = rejected (v ∷ vs)

abbrev pub if_read : Config → List ParseError → List Violation → Loading
if_read cfg [] vs = if_valid cfg vs
if_read cfg (e ∷ es) vs = unreadable (e ∷ es)

module _ (level_of : String → Option ℤ) (hex base64 : String → Option (List ℕ))
    (env : String → String) where
  -- `intVal` and `logLevel`
  abbrev pub int_val : String → ℤ → Reading ℤ
  int_val key fallback =
      let raw = env key in
      if str_eq raw ""
      then (fallback, [])
      else value_or fallback (not_integer key raw) (atoi (codes raw))

  abbrev pub read_log_level : String → ℤ → Reading ℤ
  read_log_level key fallback =
      let raw = env key in
      if str_eq raw "" then (fallback, []) else value_or fallback (not_level key raw) (level_of raw)

  -- `len(raw)` counts bytes; a text that hexadecimal digits make has one for each code point.
  abbrev pub decode_key : String → Option (List ℕ)
  decode_key raw =
      first_key (if length (codes raw) == 64 then of_size (hex raw) else none)
        (of_size (base64 raw))

  -- `encryptionKey`
  abbrev pub read_key : String → Reading (List ℕ)
  read_key key =
      let raw = env key in
      if str_eq raw "" then ([], not_set key ∷ []) else value_or [] (not_key key) (decode_key raw)

  -- `envStr`
  abbrev pub env_str : String → String → String
  env_str key fallback = let v = env key in if str_eq v "" then fallback else v

  unfoldable pub load : Loading
  unfolding violations atoi
  load =
      let (port, e₁) = int_val "PORT" (pos 9706) in
      let (level, e₂) = read_log_level "LOG_LEVEL" (pos 1) in
      let (tick, e₃) = int_val "SCHEDULER_TICK_SECS" (pos 30) in
      let (key, e₄) = read_key "ENCRYPTION_KEY" in
      let cfg : Config = record {
        port = port;
        log_level = level;
        database_path = env_str "DATABASE_PATH" "/config/huntarr2.db";
        scheduler_tick_secs = tick;
        encryption_key = key;
        auth_username = env_str "AUTH_USERNAME" "";
        auth_password = env_str "AUTH_PASSWORD" "";
      } in
      if_read cfg (e₁ ++ e₂ ++ e₃ ++ e₄) (violations cfg)
