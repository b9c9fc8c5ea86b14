-- ===== src/Encrypt.antt =====
-- internal/encrypt/crypto.go: the encryption of the API keys at rest. Texts are their bytes. The
-- ciphers and base64 of Go's standard library are an interface, with what their documentation
-- promises; a key of 32 bytes is one that `NewCipher` and `NewGCM` take.
pub mod RoundTrip
use huntarr.Base.{
  ℕ, ◌<◌, Bool, true, false, not, List, [], ◌∷◌, ◌++◌, Option, none, some, if◌then◌else◌, ltb, ◌==◌,
  length, take, drop, ◌≡◌, ◌≢◌,
}

-- `Seal` and `Open` of GCM, the second named unseal, with a key and a nonce; and base64.
pub record Cipher : Type 0 where
  pub nonce_size : ℕ
  pub seal : List ℕ → List ℕ → List ℕ → List ℕ
  pub unseal : List ℕ → List ℕ → List ℕ → Option (List ℕ)
  pub encode : List ℕ → List ℕ
  pub decode : List ℕ → Option (List ℕ)

pub record IsCipher (c : Cipher) : Type 0 where
  pub sized : 0 < c.nonce_size
  pub opened :
      (key nonce text : List ℕ)
      → length key ≡ 32
      → length nonce ≡ c.nonce_size
      → c.unseal key nonce (c.seal key nonce text) ≡ some text
  pub decoded : (bytes : List ℕ) → c.decode (c.encode bytes) ≡ some bytes
  pub encoded : (bytes : List ℕ) → bytes ≢ [] → c.encode bytes ≢ []

-- What is wrong with a call.
pub data CryptError : Type 0 where
  key_length : ℕ → CryptError
  no_nonce no_text not_base64 too_short not_opened : CryptError

pub data Crypt : Type 0 where
  done : List ℕ → Crypt
  wrong : CryptError → Crypt

abbrev pub key_size : ℕ
key_size = 32

abbrev pub opened_text : Option (List ℕ) → Crypt
opened_text none = wrong not_opened
opened_text (some text) = done text

module _ (c : Cipher) where
  abbrev pub seal_with : List ℕ → List ℕ → Option (List ℕ) → Crypt
  seal_with text key none = wrong no_nonce
  seal_with text key (some nonce) = done (c.encode (nonce ++ c.seal key nonce text))

  -- `Encrypt`, with the bytes that `rand.Read` gives for the nonce.
  unfoldable pub encrypt : List ℕ → List ℕ → Option (List ℕ) → Crypt
  encrypt text key nonce =
      if not (length key == key_size)
      then wrong (key_length (length key))
      else seal_with text key nonce

  abbrev pub open_data : List ℕ → Option (List ℕ) → Crypt
  open_data key none = wrong not_base64
  open_data key (some bytes) =
      if ltb (length bytes) c.nonce_size
      then wrong too_short
      else opened_text (c.unseal key (take c.nonce_size bytes) (drop c.nonce_size bytes))

  abbrev pub open_text : List ℕ → List ℕ → Crypt
  open_text key [] = wrong no_text
  open_text key (b ∷ text) = open_data key (c.decode (b ∷ text))

  -- `Decrypt`
  unfoldable pub decrypt : List ℕ → List ℕ → Crypt
  decrypt text key =
      if not (length key == key_size) then wrong (key_length (length key)) else open_text key text
