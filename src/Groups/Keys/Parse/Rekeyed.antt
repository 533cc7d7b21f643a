-- ===== src/Groups/Keys/Parse/Rekeyed.antt =====
-- The message of `rekey` gives its key to every member and every admin (`rekey` and
-- `load_key_message` of src/config/groups/keys.cpp).
use libsession_util.Prelude.{
  ◌≡◌, refl, ap, ◌∙◌, ◌==◌, ==_iff, Bool, true, false, none, some, List, [], ◌∷◌, ◌++◌, length,
  take, drop,
}
use libsession_util.Prelude.Result.{
  Result, ok, err, logic_error, runtime_error, ◌>>=◌, >>=-eq-ok, guard-eq-ok, ok_injective,
}
use libsession_util.Keys.{Bytes}
use libsession_util.Config.Bt.{BtDict, BtValue, text, blank, field}
use libsession_util.Config.Encrypt.RoundTrip.{IsSodium}
use libsession_util.Config.Message.Read.{sig_key, snoc}
use libsession_util.Config.Message.Write.{sign}
use libsession_util.Config.Signing.{seed_hash}
use libsession_util.MultiEncrypt.{encrypt_for_multiple}
use libsession_util.MultiEncrypt.Laws.{Among}
use libsession_util.Groups.Keys.{Keys, admin}
use libsession_util.Groups.Keys.Crypt.{
  Crypto, enc_key_admin_hash_key, enc_key_member_hash_key, seed_hash_key, admin_keys, compute_xpk,
  member_xpks,
}
use libsession_util.Groups.Keys.Rekey.{
  next_generation, key_material, junk_entries, full_dict, signed_dict, make_rekey,
}

-- The parts of a message of `rekey`: its key and nonce are those of 56 bytes.
pub record Made (x : Crypto) (sids : List Bytes) (g : Keys) (key : Bytes) (d : BtDict)
    : Type 0 where
  pub sk : Bytes
  pub pk : Bytes
  pub xpk : Bytes
  pub h1 : Bytes
  pub member_k : Bytes
  pub xpks : List Bytes
  pub copies : List Bytes
  pub sig : Bytes
  pub h1_size : length h1 ≡ 56
  pub keys_eq : admin_keys g ≡ ok (sk, pk)
  pub xpk_eq : compute_xpk x.curve pk ≡ ok xpk
  pub member_k_eq : seed_hash x.ed25519 enc_key_admin_hash_key g.sig ≡ ok member_k
  pub xpks_eq : member_xpks x.oxenc sids ≡ ok xpks
  pub key_eq : take 32 h1 ≡ key
  pub copies_eq :
      encrypt_for_multiple x.env.sodium x.curve
        (take 32 h1 ∷ [])
        xpks
        (drop 32 h1)
        (x.curve.sk_to_curve sk)
        xpk
        enc_key_member_hash_key
        true
      ≡ ok copies
  pub sig_size : length sig ≡ 64
  pub dict_eq :
      snoc
        (full_dict x
          (drop 32 h1)
          (next_generation g.keys)
          (x.env.sodium.aead_encrypt (take 32 h1) (drop 32 h1) member_k)
          (copies ++ junk_entries x h1 sk (length copies)))
        sig_key
        (text sig)
      ≡ d

signed_dict_inv :
    (x : Crypto) (g : Keys) (d d' : BtDict)
    → signed_dict x g d ≡ ok d'
    → (sig : Bytes) × (length sig ≡ 64) × (snoc d sig_key (text sig) ≡ d')
unfolding signed_dict sign
signed_dict_inv x g d d' e =
    let (f, p, e1) =
      >>=-eq-ok
        (elim g.sig.signer as (λ z. Result (Bytes → Bytes)) [
          | none ↦ err runtime_error
          | some f ↦ ok f
        ])
        _ e in
    let sig = f (x.env.codec.signed_part (x.env.codec.encode d)) in
    let (l, e2) = guard-eq-ok (length sig == 64) logic_error _ e1 in
    (sig, (==_iff _ 64).0 l, ok_injective _ d' e2)

module _ (x : Crypto) (sids : List Bytes) (g : Keys) (key : Bytes) (d : BtDict) where
  module _ (sk pk xpk h1 member_k : Bytes) (xpks copies : List Bytes) where
    abbrev unsigned : BtDict
    unsigned =
        full_dict x (drop 32 h1) (next_generation g.keys)
          (x.env.sodium.aead_encrypt (take 32 h1) (drop 32 h1) member_k)
          (copies ++ junk_entries x h1 sk (length copies))

    abbrev with_dict : BtDict → Result (Bytes × BtDict)
    with_dict d' = ok (take 32 h1, d')

    signed_Made :
        length h1 ≡ 56
        → admin_keys g ≡ ok (sk, pk)
        → compute_xpk x.curve pk ≡ ok xpk
        → seed_hash x.ed25519 enc_key_admin_hash_key g.sig ≡ ok member_k
        → member_xpks x.oxenc sids ≡ ok xpks
        → encrypt_for_multiple x.env.sodium x.curve
            (take 32 h1 ∷ [])
            xpks
            (drop 32 h1)
            (x.curve.sk_to_curve sk)
            xpk
            enc_key_member_hash_key
            true
          ≡ ok copies
        → (signed_dict x g unsigned >>= with_dict) ≡ ok (key, d)
        → Made x sids g key d
    signed_Made size e0 e1 e3 e4 e5 r =
        let (d1, e6, r6) = >>=-eq-ok (signed_dict x g unsigned) with_dict r in
        let (sig', l, e7) = signed_dict_inv x g unsigned d1 e6 in
        let q : (take 32 h1, d1) ≡ (key, d) = ok_injective (take 32 h1, d1) (key, d) r6 in
        record {
          sk = sk;
          pk = pk;
          xpk = xpk;
          h1 = h1;
          member_k = member_k;
          xpks = xpks;
          copies = copies;
          sig = sig';
          h1_size = size;
          keys_eq = e0;
          xpk_eq = e1;
          member_k_eq = e3;
          xpks_eq = e4;
          key_eq = ap (λ z. z.0) q;
          copies_eq = e5;
          sig_size = l;
          dict_eq = e7 ∙ ap (λ z. z.1) q;
        }

  pub make_rekey-Made :
      IsSodium x.env.sodium → make_rekey x sids g ≡ ok (key, d) → Made x sids g key d
  unfolding make_rekey key_material
  make_rekey-Made law e =
      let ((sk, pk), e0, r0) = >>=-eq-ok (admin_keys g) _ e in
      let (xpk, e1, r1) = >>=-eq-ok (compute_xpk x.curve pk) _ r0 in
      let (h2, e2, r2) = >>=-eq-ok (seed_hash x.ed25519 seed_hash_key g.sig) _ r1 in
      let h1 = key_material x sids (next_generation g.keys) h2 in
      let (member_k, e3, r3) = >>=-eq-ok (seed_hash x.ed25519 enc_key_admin_hash_key g.sig) _ r2 in
      let (xpks, e4, r4) = >>=-eq-ok (member_xpks x.oxenc sids) _ r3 in
      let (copies, e5, r5) =
        >>=-eq-ok
          (encrypt_for_multiple x.env.sodium x.curve (take 32 h1 ∷ []) xpks (drop 32 h1)
            (x.curve.sk_to_curve sk) xpk enc_key_member_hash_key true)
          _ r4 in
      signed_Made sk pk xpk h1 member_k xpks copies (law.hash_size 56 _ _) e0 e1 e3 e4 e5 r5

-- The last value of a dict, if it is a text, and the given one if the dict is empty.
abbrev pub text_of : BtValue → Bytes
text_of (text s) = s
text_of _ = []

abbrev pub last_text : Bytes → BtDict → Bytes
last_text last blank = last
last_text last (field k v d) = last_text (text_of v) d

pub last_text-snoc :
    (last : Bytes) (d : BtDict) (k sig : Bytes) → last_text last (snoc d k (text sig)) ≡ sig
last_text-snoc last blank k sig = refl
last_text-snoc last (field j v d) k sig = last_text-snoc (text_of v) d k sig

-- What oxenc and the signing functions give for the message: its text is read as the dict that it is
-- the text of, and the verifier accepts the message's own signature, its last value.
pub record Reads (x : Crypto) (h : Keys) (d : BtDict) : Type 0 where
  pub opens : x.env.codec.open_dict (x.env.codec.encode d) ≡ ok tt
  pub decodes : x.env.codec.decode (x.env.codec.encode d) ≡ some d
  pub verify : Bytes → Bytes → Bool
  pub verifier_eq : h.sig.verifier ≡ some verify
  pub accepts : verify (x.env.codec.signed_part (x.env.codec.encode d)) (last_text [] d) ≡ true

-- An admin of the group, who has the same secret key; libsodium multiplies what an admin's unset
-- keys hold with the group's key.
pub record IsAdmin (x : Crypto) (g h : Keys) (xpk : Bytes) : Type 0 where
  pub is_admin : admin h ≡ true
  pub same_sig : h.sig.sign_sk ≡ g.sig.sign_sk
  pub shared : Bytes
  pub unset_shared : x.curve.scalarmult x.unset_xsk xpk ≡ some shared
  pub xsk_size : length x.unset_xsk ≡ 32
  pub xpk_size : length x.unset_xpk ≡ 32

-- A member whose key is among those of the session ids, with a secret that both sides can compute.
pub record IsMember (x : Crypto) (h : Keys) (sk : Bytes) (xpk : Bytes) (xpks : List Bytes)
    : Type 0 where
  pub no_admin : admin h ≡ false
  pub own : Bytes
  pub own_eq : compute_xpk x.curve (drop 32 h.user_ed25519_sk) ≡ ok own
  pub is_listed : Among own xpks
  pub shared : Bytes
  pub sends : x.curve.scalarmult (x.curve.sk_to_curve sk) own ≡ some shared
  pub receives : x.curve.scalarmult (x.curve.sk_to_curve h.user_ed25519_sk) xpk ≡ some shared
  pub xsk_size : length (x.curve.sk_to_curve h.user_ed25519_sk) ≡ 32
  pub own_size : length own ≡ 32
