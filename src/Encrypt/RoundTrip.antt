-- ===== src/Encrypt/RoundTrip.antt =====
-- Decryption undoes encryption.
use huntarr.Base.{
  ℕ, true, false, List, [], ◌∷◌, ◌++◌, some, ◌==◌, length, take, drop, length-append, ltb, ◌≡◌, ◌≢◌,
  refl, ap, ◌∙◌, subst, arith,
}
use huntarr.Encrypt.{Cipher, IsCipher, done, open_data, open_text, opened_text, encrypt, decrypt}

take-append : (xs ys : List ℕ) → take (length xs) (xs ++ ys) ≡ xs
take-append [] ys = refl
take-append (x ∷ xs) ys = ap (λ (l : List ℕ). x ∷ l) (take-append xs ys)

drop-append : (xs ys : List ℕ) → drop (length xs) (xs ++ ys) ≡ ys
drop-append [] ys = refl
drop-append (x ∷ xs) ys = drop-append xs ys

module _ (c : Cipher) (lawful : IsCipher c) where
  open_text-open_data :
      (key text : List ℕ) → text ≢ [] → open_text c key text ≡ open_data c key (c.decode text)
  open_text-open_data key [] h = absurd (h refl)
  open_text-open_data key (b ∷ text) h = refl

  -- The nonce stands first, and what follows it is opened.
  open_data-append :
      (key nonce rest : List ℕ)
      → length nonce ≡ c.nonce_size
      → open_data c key (some (nonce ++ rest)) ≡ opened_text (c.unseal key nonce rest)
  open_data-append key nonce rest n =
      let long : ltb (length (nonce ++ rest)) c.nonce_size ≡ false =
        ground (arith, length-append nonce rest, n) in
      let first : take c.nonce_size (nonce ++ rest) ≡ nonce =
        subst (λ k. take k (nonce ++ rest) ≡ nonce) n (take-append nonce rest) in
      let last : drop c.nonce_size (nonce ++ rest) ≡ rest =
        subst (λ k. drop k (nonce ++ rest) ≡ rest) n (drop-append nonce rest) in
      rw (long, first, last) refl

  nonce-some : (nonce rest : List ℕ) → length nonce ≡ c.nonce_size → (nonce ++ rest) ≢ []
  nonce-some [] rest n = λ e. omega (arith, n, lawful.sized)
  nonce-some (b ∷ nonce) rest n = λ e. cc

  -- A text that is encrypted with a key of 32 bytes and a nonce is decrypted with that key to the text.
  pub decrypt-encrypt :
      (text key nonce : List ℕ)
      → length key ≡ 32
      → length nonce ≡ c.nonce_size
      → (sealed : List ℕ) × (encrypt c text key (some nonce) ≡ done sealed)
        × (decrypt c sealed key ≡ done text)
  unfolding encrypt decrypt
  decrypt-encrypt text key nonce h n =
      let bytes = nonce ++ c.seal key nonce text in
      let test : (length key == 32) ≡ true = ground (arith, h) in
      (
        c.encode bytes,
        rw test refl,
        rw test (
            open_text-open_data key (c.encode bytes) (lawful.encoded bytes (nonce-some nonce _ n))
            ∙ ap (open_data c key) (lawful.decoded bytes)
            ∙ open_data-append key nonce (c.seal key nonce text) n
            ∙ ap opened_text (lawful.opened key nonce text h n)),
      )
