-- ===== src/Examples/Start.antt =====
-- Examples for the start of the server: internal/config and internal/encrypt.
use huntarr.Base.{
  ℕ, String, [], ◌∷◌, List, Option, some, none, replicate, str_eq, if◌then◌else◌, ◌≡◌, refl, ℤ, pos,
  arith,
}
use huntarr.Encrypt.{Cipher, IsCipher, done, encrypt, decrypt}
use huntarr.Config.{Config, load}
use huntarr.Config.Server.Ready.{IsChecked, load-IsChecked}

-- A cipher and a base64 that leave their texts as they are.
abbrev plain : Cipher
plain = record {
  nonce_size = 1;
  seal = λ key nonce text. text;
  unseal = λ key nonce text. some text;
  encode = λ bytes. bytes;
  decode = λ bytes. some bytes;
}

plain-IsCipher : IsCipher plain
plain-IsCipher = record {
  sized = omega arith;
  opened = λ key nonce text h n. refl;
  decoded = λ bytes. refl;
  encoded = λ bytes h. h;
}

-- Only the key is set.
abbrev only_key : String → String
only_key name = if str_eq name "ENCRYPTION_KEY" then "c2VjcmV0" else ""

abbrev no_level : String → Option ℤ
no_level raw = none

abbrev no_hex : String → Option (List ℕ)
no_hex raw = none

abbrev one_key : String → Option (List ℕ)
one_key raw = some (replicate 32 7)

abbrev default_config : Config
default_config = record {
  port = pos 9706;
  log_level = pos 1;
  database_path = "/config/huntarr2.db";
  scheduler_tick_secs = pos 30;
  encryption_key = replicate 32 7;
  auth_username = "";
  auth_password = "";
}

load-IsChecked_example :
    IsChecked default_config
    × (sealed : List ℕ) × (encrypt plain (1 ∷ 2 ∷ []) (replicate 32 7) (some (5 ∷ []))
        ≡ done sealed)
    × (decrypt plain sealed (replicate 32 7) ≡ done (1 ∷ 2 ∷ []))
load-IsChecked_example =
    load-IsChecked no_level no_hex one_key only_key plain plain-IsCipher default_config (1 ∷ 2 ∷ [])
      (5 ∷ []) (unfold load in refl) refl
