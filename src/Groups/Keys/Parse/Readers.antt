-- ===== src/Groups/Keys/Parse/Readers.antt =====
-- Who reads the message of `rekey`: the members of the group and its admins (`load_key_message` of
-- src/config/groups/keys.cpp).
use libsession_util.Prelude.{
  ℕ, ◌≡◌, ◌⊎◌, inl, inr, refl, sym, ap, subst, ◌∙◌, true, false, Option, none, some, List, [], ◌∷◌,
  ◌++◌, length, take, drop, arith, map, min, All-map, length-drop,
}
use libsession_util.Prelude.Int.{ℤ, pos, leb_ℤ}
use libsession_util.Prelude.Result.{Result, ok, err, runtime_error, ok_injective}
use libsession_util.Keys.{Bytes}
use libsession_util.Config.Bt.{BtDict}
use libsession_util.Config.Encrypt.RoundTrip.{IsSodium}
use libsession_util.Config.Message.Read.{is_set, sig_key}
use libsession_util.Config.Signing.{seed_hash}
use libsession_util.MultiEncrypt.Laws.{Commits, decrypt-encrypt_for_multiple}
use libsession_util.Groups.Keys.{Keys}
use libsession_util.Groups.Keys.Crypt.{
  Crypto, enc_key_admin_hash_key, enc_key_member_hash_key, admin_keys, compute_xpk, member_xpks,
}
use libsession_util.Groups.Keys.Rekey.{next_generation, full_dict, junk_entries, make_rekey}
use libsession_util.Groups.Keys.Parse.{
  deliveries, own_keys, find_own, either, admin_part, parse_key_message,
}
use libsession_util.Groups.Keys.Parse.Lists.{Sized, is_48, deliveries-Sized, deliveries-skipped}
use libsession_util.MultiEncrypt.Simple.{map-append}
use libsession_util.MultiEncrypt.Laws.{length-encrypt_for_multiple, length-sender, decrypt_nothing}
use libsession_util.Groups.Keys.Parse.Lists.{length-take}
use libsession_util.Groups.Keys.Parse.Rekeyed.{
  Made, make_rekey-Made, Reads, IsAdmin, IsMember, last_text, last_text-snoc,
}
use libsession_util.Groups.Keys.Parse.Receives.{entries_lem, parse_full_lem, parse_key_message_lem}

seed_hash-sign_sk :
    (x : Crypto) (g h : Keys) (key : Bytes)
    → h.sig.sign_sk ≡ g.sig.sign_sk
    → seed_hash x.ed25519 key h.sig ≡ seed_hash x.ed25519 key g.sig
unfolding seed_hash
seed_hash-sign_sk x g h key e =
    ap
      (λ (z : Option Bytes). elim z as (λ o. Result Bytes) [
        | none ↦ err runtime_error
        | some sk ↦ ok (x.ed25519.blake2b 32 (take 32 sk) (take (min (length key) 64) key))
      ])
      e

-- The keys and the search of an account, with the admins' part: they find the key, and leave texts.
abbrev pub Finds :
    (x : Crypto) (h : Keys) (nonce adm xpk key : Bytes) (entries : List Bytes) → Type 0
Finds x h nonce adm xpk key entries =
    (own : Bytes × Bytes) × (found : Option Bytes) × (plain : Option Bytes) × (left : List Bytes)
    × (own_keys x h ≡ ok own)
    × (admin_part x h nonce adm ≡ ok found)
    × (find_own x (deliveries is_48 (is_set found) (map ok entries)) nonce own xpk
        ≡ ok (plain, map ok left))
    × (either x plain found ≡ some key)

module _ (x : Crypto) (law : IsSodium x.env.sodium) (commits : Commits x.env.sodium)
    (random_size : (n : ℕ) (seed : Bytes) → length (x.deterministic n seed) ≡ n) (sids : List Bytes)
    (g h : Keys) (key : Bytes) (d : BtDict) (m : Made x sids g key d) where
  abbrev nonce : Bytes
  nonce = drop 32 m.h1

  abbrev admin_key : Bytes
  admin_key = x.env.sodium.aead_encrypt (take 32 m.h1) nonce m.member_k

  abbrev entries : List Bytes
  entries = m.copies ++ junk_entries x m.h1 m.sk (length m.copies)

  nonce_size : length nonce ≡ 24
  nonce_size = length-drop 32 m.h1 ∙ omega (arith, m.h1_size)

  key_size : length (take 32 m.h1) ≡ 32
  key_size = length-take 32 m.h1 (omega (arith, m.h1_size))

  copies-Sized : Sized m.copies
  copies-Sized =
      All-map (λ t e. e ∙ omega (arith, key_size)) m.copies
        (length-encrypt_for_multiple x.env.sodium x.curve (take 32 m.h1) nonce
          enc_key_member_hash_key law commits (x.curve.sk_to_curve m.sk) m.xpk true m.xpks m.copies
          m.copies_eq)

  member_search : IsMember x h m.sk m.xpk m.xpks → Finds x h nonce admin_key m.xpk key entries
  unfolding own_keys admin_part
  member_search r =
      let junk = junk_entries x m.h1 m.sk (length m.copies) in
      let xsk = x.curve.sk_to_curve h.user_ed25519_sk in
      let (rest, f) =
        decrypt-encrypt_for_multiple x.env.sodium x.curve (take 32 m.h1) nonce
          enc_key_member_hash_key law commits (x.curve.sk_to_curve m.sk) m.xpk xsk r.own r.shared
          true m.xpks m.copies (map ok junk) m.copies_eq r.is_listed r.sends r.receives r.xsk_size
          r.own_size in
      let given : deliveries is_48 false (map ok entries) ≡ map ok m.copies ++ map ok junk =
        deliveries-Sized entries (entries_lem x law random_size m.h1 m.sk m.copies copies-Sized).0
        ∙ map-append m.copies junk in
      (
        (xsk, r.own),
        none,
        some (take 32 m.h1),
        rest ++ junk,
        rw (own_keys, r.no_admin, r.own_eq) refl,
        rw (admin_part, r.no_admin) refl,
        rw (given, map-append rest junk) f,
        ap some m.key_eq,
      )

  admin_search : IsAdmin x g h m.xpk → Finds x h nonce admin_key m.xpk key entries
  unfolding own_keys admin_part
  admin_search r =
      let k : seed_hash x.ed25519 enc_key_admin_hash_key h.sig ≡ ok m.member_k =
        seed_hash-sign_sk x g h enc_key_admin_hash_key r.same_sig ∙ m.member_k_eq in
      let opened : x.env.sodium.aead_decrypt admin_key nonce m.member_k ≡ some (take 32 m.h1) =
        law.decrypts (take 32 m.h1) nonce m.member_k in
      let sender =
        length-sender x.env.sodium x.curve (take 32 m.h1) nonce enc_key_member_hash_key law commits
          (x.curve.sk_to_curve m.sk) m.xpk true m.xpks m.copies m.copies_eq in
      let given : deliveries is_48 true (map ok entries) ≡ [] =
        deliveries-skipped entries
          (entries_lem x law random_size m.h1 m.sk m.copies copies-Sized).0 in
      (
        (x.unset_xsk, x.unset_xpk),
        some (take 32 m.h1),
        none,
        [],
        rw (own_keys, r.is_admin) refl,
        rw (admin_part, r.is_admin, k, opened) refl,
        rw given (
            decrypt_nothing x.env.sodium x.curve nonce x.unset_xsk x.unset_xpk m.xpk
              enc_key_member_hash_key r.shared (ground (arith, nonce_size)) r.xsk_size r.xpk_size
              sender r.unset_shared),
        ap some m.key_eq,
      )

  -- Who finds the key reads it.
  reads :
      (timestamp : ℤ)
      → Finds x h nonce admin_key m.xpk key entries
      → Reads x h d
      → h.sig.sign_pk ≡ some m.pk
      → leb_ℤ (pos 0) (next_generation g.keys) ≡ true
      → parse_key_message x (x.env.codec.encode d) timestamp h
        ≡ ok (
          record { generation = next_generation g.keys; timestamp = timestamp; key = key } ∷ [],
          none,
        )
  reads timestamp (own, found, plain, left, o, a, f, e) r s p =
      let gen = next_generation g.keys in
      let size : length admin_key ≡ 48 =
        law.cipher_size (take 32 m.h1) nonce m.member_k ∙ omega (arith, key_size) in
      let count = (entries_lem x law random_size m.h1 m.sk m.copies copies-Sized).1 in
      parse_key_message_lem x h timestamp gen nonce admin_key m.pk m.xpk m.sig
        (x.env.codec.encode d) own entries _ r.verify r.opens (r.decodes ∙ ap some (sym m.dict_eq))
        s r.verifier_eq
        (ap (r.verify (x.env.codec.signed_part (x.env.codec.encode d))) (
            sym (
              ap (last_text []) (sym m.dict_eq)
              ∙ last_text-snoc [] (full_dict x nonce gen admin_key entries) sig_key m.sig))
          ∙ r.accepts)
        m.sig_size m.xpk_eq o
        (parse_full_lem x h timestamp gen nonce admin_key m.xpk m.sig own entries found plain left
          key p size a f count e)

-- The message of a `rekey`, loaded by a member whose session id was given to it or by another admin,
-- in an account of the group that can read the message, gives exactly the new key, with the
-- generation after the last; libsodium's ciphers and hashes have the documented sizes, decryption
-- undoes encryption and works with no other key, and the new generation is not negative.
pub parse-rekey :
    (x : Crypto) (sids : List Bytes) (g h : Keys) (key sk pk xpk : Bytes) (xpks : List Bytes)
    (d : BtDict) (timestamp : ℤ)
    → IsSodium x.env.sodium
    → Commits x.env.sodium
    → ((n : ℕ) (seed : Bytes) → length (x.deterministic n seed) ≡ n)
    → make_rekey x sids g ≡ ok (key, d)
    → admin_keys g ≡ ok (sk, pk)
    → compute_xpk x.curve pk ≡ ok xpk
    → member_xpks x.oxenc sids ≡ ok xpks
    → IsMember x h sk xpk xpks ⊎ IsAdmin x g h xpk
    → Reads x h d
    → h.sig.sign_pk ≡ some pk
    → leb_ℤ (pos 0) (next_generation g.keys) ≡ true
    → parse_key_message x (x.env.codec.encode d) timestamp h
      ≡ ok (
        record { generation = next_generation g.keys; timestamp = timestamp; key = key } ∷ [],
        none,
      )
parse-rekey x sids g h key sk pk xpk xpks d timestamp law commits random_size e k c xs who r s p =
    let m = make_rekey-Made x sids g key d law e in
    let q : (sk, pk) ≡ (m.sk, m.pk) = ok_injective (sk, pk) (m.sk, m.pk) (sym k ∙ m.keys_eq) in
    let q1 : pk ≡ m.pk = ap (λ z. z.1) q in
    let qx : xpk ≡ m.xpk =
      ok_injective xpk m.xpk (sym c ∙ ap (compute_xpk x.curve) q1 ∙ m.xpk_eq) in
    let qs : xpks ≡ m.xpks = ok_injective xpks m.xpks (sym xs ∙ m.xpks_eq) in
    let finds : Finds x h (drop 32 m.h1)
        (x.env.sodium.aead_encrypt (take 32 m.h1) (drop 32 m.h1) m.member_k) m.xpk key
        (m.copies ++ junk_entries x m.h1 m.sk (length m.copies)) =
      elim who [
        | inl w ↦ member_search x law commits random_size sids g h key d m (
            subst (λ z. IsMember x h z m.xpk m.xpks) (ap (λ z. z.0) q)
              (subst (λ z. IsMember x h sk z m.xpks) qx (subst (λ z. IsMember x h sk xpk z) qs w)))
        | inr w ↦
            admin_search x law commits random_size sids g h key d m
              (subst (λ z. IsAdmin x g h z) qx w)
      ] in
    reads x law commits random_size sids g h key d m timestamp finds r (s ∙ ap some q1) p
