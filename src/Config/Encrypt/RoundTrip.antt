-- ===== src/Config/Encrypt/RoundTrip.antt =====
-- Decryption undoes encryption.
use libsession_util.Prelude.{
  ℕ, ◌+◌, ◌-◌, ◌≡◌, refl, ap, true, some, List, [], ◌∷◌, ◌++◌, arith, length, take, drop,
  length-append, leb, subst,
}
use libsession_util.Prelude.Result.{ok, >>=-eq-ok, ok_injective}
use libsession_util.Keys.{Bytes}
use libsession_util.Config.Encrypt.{
  Sodium, make_encrypt_key, encrypt, decrypt, tag_size, nonce_size, encrypt_data_overhead,
  nonce_key_prefix,
}

-- What libsodium documents of the functions: the sizes, and that decryption undoes encryption.
pub record IsSodium (s : Sodium) : Type 0 where
  pub hash_size : (n : ℕ) (key message : Bytes) → length (s.generichash n key message) ≡ n
  pub cipher_size :
      (message nonce key : Bytes)
      → length (s.aead_encrypt message nonce key) ≡ length message + tag_size
  pub decrypts :
      (message nonce key : Bytes)
      → s.aead_decrypt (s.aead_encrypt message nonce key) nonce key ≡ some message

module _ {ℓ} {A : Type ℓ} where
  pub take_append : (xs ys : List A) → take (length xs) (xs ++ ys) ≡ xs
  take_append [] ys = refl
  take_append (x ∷ xs) ys = ap (◌∷◌ x) (take_append xs ys)

  pub drop_append : (xs ys : List A) → drop (length xs) (xs ++ ys) ≡ ys
  drop_append [] ys = refl
  drop_append (x ∷ xs) ys = drop_append xs ys

module _ (s : Sodium) (law : IsSodium s) where
  -- An encrypted message is 40 bytes longer.
  cipher_length :
      (message nonce key : Bytes)
      → length nonce ≡ nonce_size
      → length (s.aead_encrypt message nonce key ++ nonce) ≡ length message + encrypt_data_overhead
  cipher_length message nonce key h = omega (
    arith,
    length-append (s.aead_encrypt message nonce key) nonce,
    law.cipher_size message nonce key,
  )

  decrypt_parts :
      (c nonce message key key_base domain : Bytes)
      → length nonce ≡ nonce_size
      → length (c ++ nonce) ≡ length message + encrypt_data_overhead
      → make_encrypt_key s key_base (length message) domain ≡ ok key
      → s.aead_decrypt c nonce key ≡ some message
      → decrypt s (c ++ nonce) key_base domain ≡ ok message
  unfolding decrypt
  decrypt_parts c nonce message key key_base domain hn hl hk hd =
      let big : leb encrypt_data_overhead (length (c ++ nonce)) ≡ true = ground arith in
      let size : length (c ++ nonce) - encrypt_data_overhead ≡ length message = omega arith in
      let split : length (c ++ nonce) - nonce_size ≡ length c =
        omega (arith, length-append c nonce) in
      rw (big, size, hk, split) (rw (take_append c nonce, drop_append c nonce) (rw hd))

  -- What `encrypt` gives for a key and a domain that it accepts, `decrypt` turns back into the
  -- message, with the same key and domain.
  pub decrypt-encrypt :
      (message key_base domain ciphertext : Bytes)
      → encrypt s message key_base domain ≡ ok ciphertext
      → decrypt s ciphertext key_base domain ≡ ok message
  unfolding encrypt
  decrypt-encrypt message key_base domain ciphertext h =
      let nonce = s.generichash nonce_size (nonce_key_prefix ++ domain) message in
      let hn = law.hash_size nonce_size (nonce_key_prefix ++ domain) message in
      let (key, hk, h1) = >>=-eq-ok (make_encrypt_key s key_base (length message) domain) _ h in
      let c = s.aead_encrypt message nonce key in
      subst (λ (t : Bytes). decrypt s t key_base domain ≡ ok message)
        (ok_injective (c ++ nonce) ciphertext h1)
        (decrypt_parts c nonce message key key_base domain hn (cipher_length message nonce key hn)
          hk (law.decrypts message nonce key))
