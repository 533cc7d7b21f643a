-- ===== src/Groups/Keys/Parse.antt =====
-- `load_key_message` (src/config/groups/keys.cpp): the parsing and the decryption of a key message.
-- What the calls of `next_ciphertext` give or throw is a list.
pub mod Lists
pub mod Rekeyed
pub mod Receives
pub mod Readers
pub mod Settles
use libsession_util.Prelude.{
  ℕ, ◌%◌, ◌==◌, Bool, true, false, not, ◌&&◌, Option, none, some, List, [], ◌∷◌, length, drop, leb,
  if◌then◌else◌,
}
use libsession_util.Prelude.Result.{
  Result, ok, err, guard, logic_error, config_parse_error, bt_deserialize_invalid, ◌>>=◌, ◌>>◌,
}
use libsession_util.Prelude.Int.{ℤ, pos, leb_ℤ}
use libsession_util.Keys.{Bytes, bytes, bytes_ord, list_lt}
use libsession_util.Config.Bt.{BtValue, BtList, BtDict, nil, cons}
use libsession_util.Config.Message.Read.{skip_until, at_key, is_set, verify_config_sig}
use libsession_util.Config.Message.Lagged.{read_int, read_text, read_dict, read_list}
use libsession_util.Config.Signing.{seed_hash}
use libsession_util.MultiEncrypt.{decrypt_for_multiple, consumed}
use libsession_util.Groups.Keys.{KeyInfo, Keys, admin}
use libsession_util.Groups.Keys.Crypt.{
  Crypto, enc_key_admin_hash_key, enc_key_member_hash_key, message_key_multiple, encrypted_key_size,
  compute_xpk,
}
use libsession_util.Groups.Keys.Dump.{value_at, load_key_info}
use libsession_util.Groups.Keys.Loads.{Group, accept}

-- The smallest encrypted list of keys.
abbrev pub supplement_min_size : ℕ
supplement_min_size = 68

-- One text of a list, if its size passes.
abbrev pub checked : (ℕ → Bool) → Result Bytes → Result Bytes
checked sized r = do t ← r; guard (sized (length t)) config_parse_error; ok t

-- What the calls give for the texts of a list, which they skip if a key is there already.
unfoldable pub deliveries : (ℕ → Bool) → Bool → List (Result Bytes) → List (Result Bytes)
deliveries sized skip [] = []
deliveries sized skip (r ∷ rs) =
    let rest = deliveries sized skip rs in
    elim (checked sized r) [ err e ↦ err e ∷ rest | ok t ↦ if skip then rest else ok t ∷ rest ]

-- `while (next_ciphertext()) {}`
unfoldable pub drain : List (Result Bytes) → Result (Unit {0})
drain [] = ok tt
drain (r ∷ rs) = do t ← r; drain rs

-- The list of keys of a supplemental message.
unfoldable pub load_infos : BtList → Result (List KeyInfo)
unfolding load_key_info
load_infos nil = ok []
load_infos (cons v l) = do kd ← read_dict v; k ← load_key_info kd; ks ← load_infos l; ok (k ∷ ks)

module _ (x : Crypto) where
  -- The keys that an account decrypts with.
  unfoldable pub own_keys : Keys → Result (Bytes × Bytes)
  own_keys g =
      let member = (do
        xpk ← compute_xpk x.curve (drop 32 g.user_ed25519_sk)
        ok (x.curve.sk_to_curve g.user_ed25519_sk, xpk)) in
      if admin g then ok (x.unset_xsk, x.unset_xpk) else member

  -- The search for the own text among those of a list, with what it leaves of them.
  abbrev pub find_own :
      List (Result Bytes)
      → Bytes
      → Bytes × Bytes
      → Bytes
      → Result (Option Bytes × List (Result Bytes))
  find_own next nonce own group_xpk =
      decrypt_for_multiple x.env.sodium x.curve next nonce own.0 own.1 group_xpk
        enc_key_member_hash_key

  -- The part of a supplemental message after the nonce: the keys, the generation, what is left.
  unfoldable pub parse_supplement :
      Keys → Bytes → (Bytes × Bytes) → Bytes → BtDict → Result (List KeyInfo × Option ℤ × BtDict)
  unfolding deliveries decrypt_for_multiple drain load_infos skip_until list_lt
  parse_supplement g nonce own group_xpk d = do
    (l, d1) ← value_at (bytes "+") read_list d
    (plain, left) ←
        find_own (deliveries (λ n. leb supplement_min_size n) (admin g) (consumed l)) nonce own
          group_xpk
    keys ← elim plain [
      | none ↦ ok []
      | some p ↦ elim (x.env.decode_list p) [
        | none ↦ err bt_deserialize_invalid
        | some infos ↦ load_infos infos
      ]
    ]
    drain left
    (gen, d2) ← value_at (bytes "G") read_int d1
    ok (keys, some gen, d2)

  -- The key for the admins, which only they decrypt.
  unfoldable pub admin_part : Keys → Bytes → Bytes → Result (Option Bytes)
  unfolding seed_hash
  admin_part g nonce encrypted =
      let opened = (do
        k ← seed_hash x.ed25519 enc_key_admin_hash_key g.sig
        elim (x.env.sodium.aead_decrypt encrypted nonce k) [
          | none ↦ err config_parse_error
          | some key ↦ ok (some key)
        ]) in
      if admin g then opened else ok none

  abbrev pub either : Option Bytes → Option Bytes → Option Bytes
  either plain found = elim plain [ some key ↦ some key | none ↦ found ]

  -- The key that a full message has for this account, or else only its generation.
  abbrev pub found_keys : ℤ → ℤ → Option Bytes → List KeyInfo × Option ℤ
  found_keys timestamp gen key = elim key [
    | none ↦ ([], some gen)
    | some k ↦ (record { generation = gen; timestamp = timestamp; key = k } ∷ [], none)
  ]

  -- The part of a full message after the nonce.
  unfoldable pub parse_full :
      Keys
      → ℤ
      → Bytes
      → (Bytes × Bytes)
      → Bytes
      → BtDict
      → Result (List KeyInfo × Option ℤ × BtDict)
  unfolding deliveries decrypt_for_multiple drain admin_part skip_until list_lt
  parse_full g timestamp nonce own group_xpk d = do
    (gen, d1) ← value_at (bytes "G") read_int d
    guard (leb_ℤ (pos 0) gen) config_parse_error
    (admin_key, d2) ← value_at (bytes "K") read_text d1
    guard (length admin_key == encrypted_key_size) config_parse_error
    found ← admin_part g nonce admin_key
    (l, d3) ← value_at (bytes "k") read_list d2
    (plain, left) ←
        find_own (deliveries (λ n. n == encrypted_key_size) (is_set found) (consumed l)) nonce own
          group_xpk
    drain left
    guard (length (consumed l) % message_key_multiple == 0) config_parse_error
    let keys = found_keys timestamp gen (either plain found)
    ok (keys.0, keys.1, d3)

  -- The public key, which must be set, as must be the verifier.
  unfoldable pub verifying_key : Keys → Result Bytes
  verifying_key g = do
    pk ← elim g.sig.sign_pk [ none ↦ err logic_error | some pk ↦ ok pk ]
    guard (is_set g.sig.verifier) logic_error
    ok pk

  -- All that is checked before anything changes: the keys and the generation.
  unfoldable pub parse_key_message : Bytes → ℤ → Keys → Result (List KeyInfo × Option ℤ)
  unfolding verifying_key own_keys parse_supplement parse_full verify_config_sig skip_until list_lt
  parse_key_message message timestamp g = do
    x.env.codec.open_dict message
    pk ← verifying_key g
    group_xpk ← compute_xpk x.curve pk
    d ← elim (x.env.codec.decode message) [ none ↦ err bt_deserialize_invalid | some d ↦ ok d ]
    (nonce, d1) ← value_at (bytes "#") read_text d
    own ← own_keys g
    (keys, max_gen, rest) ←
        (if at_key (bytes "+") (skip_until (bytes "+") d1)
          then parse_supplement g nonce own group_xpk d1
          else parse_full g timestamp nonce own group_xpk (skip_until (bytes "+") d1))
    sig ← verify_config_sig (x.env.codec.signed_part message) rest g.sig.verifier false
    ok (keys, max_gen)

  unfoldable pub load_key_message : Bytes → Bytes → ℤ → Group → Result (Group × Bool)
  unfolding parse_key_message accept
  load_key_message hash message timestamp g = do
    (keys, max_gen) ← parse_key_message message timestamp g.keys
    accept x.env hash keys max_gen g
