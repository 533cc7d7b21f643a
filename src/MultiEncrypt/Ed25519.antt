-- ===== src/MultiEncrypt/Ed25519.antt =====
-- The forms of `encrypt_for_multiple_simple` and `decrypt_for_multiple_simple` with Ed25519 keys
-- (src/multi_encrypt.cpp). A nonce that is omitted is the empty one.
use libsession_util.Prelude.{
  ℕ, ◌≡◌, refl, sym, ap, subst, ◌∙◌, ◌==◌, length-drop, Option, none, some, List, [], ◌∷◌, length,
  drop, arith,
}
use libsession_util.Prelude.Result.{
  Result, ok, err, guard, invalid_argument, runtime_error, ◌>>=◌, ◌>>◌, >>=-eq-ok, ok_injective,
}
use libsession_util.Keys.{Bytes}
use libsession_util.Config.Bt.{BtDict}
use libsession_util.Config.Encrypt.{Sodium}
use libsession_util.Config.Encrypt.RoundTrip.{IsSodium}
use libsession_util.MultiEncrypt.{
  Curve, x_keys, encrypt_for_multiple_simple, decrypt_for_multiple_simple,
}
use libsession_util.MultiEncrypt.Laws.{Commits, Among}
use libsession_util.MultiEncrypt.Simple.{decrypt-encrypt_simple}

module _ (s : Sodium) (c : Curve) where
  unfoldable pub encrypt_simple_from :
      (ℕ → ℕ → Bytes) → Bytes → List Bytes → List Bytes → Bytes → Bytes → Bytes → ℕ → Result BtDict
  unfolding x_keys encrypt_for_multiple_simple
  encrypt_simple_from random fresh messages recipients secret domain nonce pad = do
    (privkey, pubkey) ← x_keys s c secret
    encrypt_for_multiple_simple s c random fresh messages recipients privkey pubkey domain
        (some nonce) pad

  unfoldable pub decrypt_simple_with : BtDict → Bytes → Bytes → Bytes → Result (Option Bytes)
  unfolding x_keys decrypt_for_multiple_simple
  decrypt_simple_with encoded secret sender_pubkey domain = do
    (privkey, pubkey) ← x_keys s c secret
    ok (decrypt_for_multiple_simple s c encoded privkey pubkey sender_pubkey domain)

  unfoldable pub decrypt_for_multiple_simple_ed25519 :
      BtDict → Bytes → Bytes → Bytes → Result (Option Bytes)
  unfolding decrypt_simple_with
  decrypt_for_multiple_simple_ed25519 encoded secret sender_ed25519_pubkey domain = do
    guard (length sender_ed25519_pubkey == 32) invalid_argument
    sender_pub ← elim (c.pk_to_curve sender_ed25519_pubkey) [
      | none ↦ err runtime_error
      | some pub_ ↦ ok pub_
    ]
    decrypt_simple_with encoded secret sender_pub domain

  x_keys-eq-ok :
      (secret pk : Bytes)
      → length secret ≡ 64
      → c.pk_to_curve (drop 32 secret) ≡ some pk
      → x_keys s c secret ≡ ok (c.sk_to_curve secret, pk)
  unfolding x_keys
  x_keys-eq-ok secret pk l p = rw (l, p) refl

  no_nonce :
      (random : ℕ → ℕ → Bytes) (fresh privkey pubkey domain : Bytes)
      (messages recipients : List Bytes) (pad : ℕ)
      → encrypt_for_multiple_simple s c random fresh messages recipients privkey pubkey domain
          (some [])
          pad
        ≡ err invalid_argument
  unfolding encrypt_for_multiple_simple
  no_nonce random fresh privkey pubkey domain messages recipients pad = refl

  module _ (law : IsSodium s) (commits : Commits s) (random : ℕ → ℕ → Bytes)
      (fresh m domain : Bytes) (pad : ℕ) (a b pk_a pk_b shared : Bytes)
      (recipients : List Bytes) where
    -- The Ed25519 forms. Each recipient with a valid key reads the text of a message that was made
    -- for the recipients with a nonce and any padding, with the sender's Ed25519 key; and where the
    -- nonce is omitted, as the header allows, no message is made, but an error is thrown.
    pub decrypt-encrypt_ed25519 :
        (nonce : Bytes) (d : BtDict)
        → length a ≡ 64
        → c.pk_to_curve (drop 32 a) ≡ some pk_a
        → length b ≡ 64
        → c.pk_to_curve (drop 32 b) ≡ some pk_b
        → Among pk_b recipients
        → c.scalarmult (c.sk_to_curve a) pk_b ≡ some shared
        → c.scalarmult (c.sk_to_curve b) pk_a ≡ some shared
        → length (c.sk_to_curve b) ≡ 32
        → length pk_b ≡ 32
        → length fresh ≡ 24
        → encrypt_simple_from random fresh (m ∷ []) recipients a domain nonce pad ≡ ok d
        → (decrypt_for_multiple_simple_ed25519 d b (drop 32 a) domain ≡ ok (some m))
          × (encrypt_simple_from random fresh (m ∷ []) recipients a domain [] pad
              ≡ err invalid_argument)
    unfolding encrypt_simple_from decrypt_for_multiple_simple_ed25519 decrypt_simple_with
    decrypt-encrypt_ed25519 nonce d la pa lb pb w g k lk lpk lf e =
        let (keys, q, e1) = >>=-eq-ok (x_keys s c a) _ e in
        let same_keys : keys ≡ (c.sk_to_curve a, pk_a) =
          ok_injective keys _ (sym q ∙ x_keys-eq-ok a pk_a la pa) in
        let e2 =
          subst
            (λ z.
              encrypt_for_multiple_simple s c random fresh (m ∷ []) recipients z.0 z.1 domain
                (some nonce) pad
              ≡ ok d)
            same_keys e1 in
        let sender_size : length (drop 32 a) ≡ 32 = omega (arith, length-drop 32 a, la) in
        (
          rw (sender_size, pa)
              (rw (x_keys-eq-ok b pk_b lb pb) (
                ap ok (
                  decrypt-encrypt_simple s c law commits m domain (c.sk_to_curve a) pk_a
                    (c.sk_to_curve b) pk_b shared recipients random pad w g k lk lpk fresh
                    (some nonce) d lf e2))),
          rw (x_keys-eq-ok a pk_a la pa)
              (no_nonce random fresh (c.sk_to_curve a) pk_a domain (m ∷ []) recipients pad),
        )
