-- ===== src/Groups/Keys/Message/Padding.antt =====
-- The padding of a group message: its removal, and the size that it gives (src/config/groups/
-- keys.cpp).
use libsession_util.Prelude.{
  ℕ, zero, suc, ◌+◌, ◌-◌, ◌%◌, ◌<◌, ◌≡◌, refl, sym, ap, subst, ◌∙◌, Bool, true, false, not, ◌&&◌,
  ◌==◌, [], ◌∷◌, ◌++◌, length, replicate, leb, ltb, append-nil, length-append, Bool-cases, inl, inr,
  arith,
}
use libsession_util.Prelude.Result.{ok, runtime_error, >>=-eq-ok, guard-eq-ok, ok_injective}
use libsession_util.Keys.{Bytes}
use libsession_util.Config.Encrypt.{nonce_size, encrypt_data_overhead}
use libsession_util.Config.Encrypt.Padding.{length-replicate}
use libsession_util.Config.Encrypt.RoundTrip.{IsSodium}
use libsession_util.Groups.Keys.{Keys, group_enc_key}
use libsession_util.Groups.Keys.Crypt.{Crypto}
use libsession_util.Groups.Keys.Message.{
  pad_encoded, group_pk, up_to_nonzero, back_is, max_plaintext_message_size, payload, made_dict,
  encrypt_message,
}

up_to_nonzero-replicate : (n : ℕ) → up_to_nonzero (replicate n 0) ≡ []
unfolding up_to_nonzero
up_to_nonzero-replicate zero = refl
up_to_nonzero-replicate (suc n) = rw (up_to_nonzero-replicate n) refl

-- The zeros behind a text that ends in another byte are what is removed.
pub up_to_nonzero-append :
    (c : ℕ) (t : Bytes) (n : ℕ)
    → 0 < c
    → back_is c t ≡ true
    → up_to_nonzero (t ++ replicate n 0) ≡ t
unfolding up_to_nonzero
up_to_nonzero-append c [] n p h = cc
up_to_nonzero-append c (b ∷ []) n p h =
    let e : (b == 0) ≡ false = ground (arith, h) in rw (up_to_nonzero-replicate n) (rw e refl)
up_to_nonzero-append c (b ∷ a ∷ bs) n p h = rw (up_to_nonzero-append c (a ∷ bs) n p h) refl

pub pad_encoded-append :
    (padding : ℕ) (t : Bytes) → (n : ℕ) × (pad_encoded padding t ≡ t ++ replicate n 0)
unfolding pad_encoded
pad_encoded-append padding t =
    let size = encrypt_data_overhead + length t in
    elim (Bool-cases (ltb 1 padding && not (size % padding == 0))) [
      | inl p ↦ (padding - size % padding, rw (p, pad_encoded) refl)
      | inr p ↦ (0, rw (p, pad_encoded) (sym (append-nil t)))
    ]

next_multiple : (n padding : ℕ) → 1 < padding → (n + (padding - n % padding)) % padding ≡ 0
next_multiple n padding h = grind arith

pad_encoded-multiple :
    (padding : ℕ) (t : Bytes)
    → 1 < padding
    → (encrypt_data_overhead + length (pad_encoded padding t)) % padding ≡ 0
unfolding pad_encoded
pad_encoded-multiple padding t h =
    let size = encrypt_data_overhead + length t in
    let big : ltb 1 padding ≡ true = ground arith in
    elim (Bool-cases (size % padding == 0)) [
      | inl p ↦ rw (big, p, pad_encoded) (ground (arith, p))
      | inr p ↦
          let zeros : Bytes = replicate (padding - size % padding) 0 in
          rw (big, p, pad_encoded)
            (ap (λ z. z % padding)
                (omega (arith, length-append t zeros, length-replicate (padding - size % padding)))
              ∙ next_multiple size padding h)
    ]

-- With a padding of more than one byte, the size of an encrypted message of a group, its nonce
-- included, is a multiple of the padding.
pub encrypt_message-multiple :
    (x : Crypto) (plaintext : Bytes) (compress : Bool) (padding : ℕ) (nonce : Bytes) (g : Keys)
    (c : Bytes)
    → IsSodium x.env.sodium
    → 1 < padding
    → length nonce ≡ nonce_size
    → encrypt_message x plaintext compress padding nonce g ≡ ok c
    → length c % padding ≡ 0
unfolding encrypt_message
encrypt_message-multiple x plaintext compress padding nonce g c law h l e =
    let (small, e1) =
      guard-eq-ok (leb (length plaintext) max_plaintext_message_size) runtime_error _ e in
    let (pk, p, e2) = >>=-eq-ok (group_pk g) _ e1 in
    let (key, k, e3) = >>=-eq-ok (group_enc_key g) _ e2 in
    let d = made_dict x (payload x plaintext compress) pk g.user_ed25519_sk in
    let t = pad_encoded padding (x.env.codec.encode d) in
    let sealed = x.env.sodium.aead_encrypt t nonce key in
    let size : length (nonce ++ sealed) ≡ encrypt_data_overhead + length t =
      omega (arith, length-append nonce sealed, law.cipher_size t nonce key, l) in
    subst (λ z. length z % padding ≡ 0) (ok_injective (nonce ++ sealed) c e3)
      (ap (λ z. z % padding) size ∙ pad_encoded-multiple padding (x.env.codec.encode d) h)
