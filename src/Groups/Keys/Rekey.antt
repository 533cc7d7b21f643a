-- ===== src/Groups/Keys/Rekey.antt =====
-- `rekey` and `key_supplement` (src/config/groups/keys.cpp). The session ids of the members are an
-- argument, in the order of the iteration of `Members`. The call of a null signer, which throws
-- `std::bad_function_call`, is a `runtime_error`.
use libsession_util.Prelude.{ℕ, ◌*◌, true, not, none, some, List, [], ◌∷◌, ◌++◌, length, take, drop}
use libsession_util.Prelude.Result.{Result, ok, err, guard, logic_error, runtime_error, ◌>>=◌, ◌>>◌}
use libsession_util.Prelude.Int.{ℤ, pos, ◌+ℤ◌}
use libsession_util.Keys.{Bytes, bytes, bytes_ord}
use libsession_util.Config.Data.{is_nil}
use libsession_util.Config.Bt.{BtDict, integer, text, list, blank, field}
use libsession_util.Config.Message.Write.{sign}
use libsession_util.Config.Signing.{seed_hash}
use libsession_util.MultiEncrypt.{encrypt_for_multiple, texts}
use libsession_util.Groups.Keys.{KeyInfo, Keys, back}
use libsession_util.Groups.Keys.Crypt.{
  Crypto, seed_hash_key, enc_key_hash_key, enc_key_admin_hash_key, enc_key_member_hash_key,
  junk_seed_hash_key, encrypted_key_size, generation_text, admin_keys, compute_xpk, member_xpks,
  concat, cut, n_junk,
}
use libsession_util.Groups.Keys.Dump.{key_rows}
use libsession_util.Groups.Keys.Loads.{Group, share_keys}

-- `keys_.empty() ? 0 : keys_.back().generation + 1`
unfoldable pub next_generation : List KeyInfo → ℤ
unfolding ◌+ℤ◌
next_generation [] = pos 0
next_generation (k ∷ ks) = (back k ks).generation +ℤ pos 1

module _ (x : Crypto) where
  -- The 56 bytes of which the new key and the nonce are parts.
  unfoldable pub key_material : List Bytes → ℤ → Bytes → Bytes
  unfolding concat
  key_material sids gen h2 =
      x.env.sodium.generichash 56 enc_key_hash_key (concat sids ++ (generation_text gen ++ h2))

  unfoldable pub junk_entries : Bytes → Bytes → ℕ → List Bytes
  unfolding cut
  junk_entries h1 sk count =
      let size = encrypted_key_size * n_junk count in
      cut size (x.deterministic size (x.env.sodium.generichash 32 junk_seed_hash_key (h1 ++ sk)))

  -- `append_signature` with `Keys::sign`
  unfoldable pub signed_dict : Keys → BtDict → Result BtDict
  unfolding sign
  signed_dict g d = do
    f ← elim g.sig.signer [ none ↦ err runtime_error | some f ↦ ok f ]
    sign x.env.codec f d

  abbrev pub full_dict : Bytes → ℤ → Bytes → List Bytes → BtDict
  full_dict nonce gen admin_key entries = field (bytes "#") (text nonce) (
      field (bytes "G") (integer gen)
        (field (bytes "K") (text admin_key) (field (bytes "k") (list (texts entries)) blank)))

  -- The key and the dict of the message of `rekey`.
  unfoldable pub make_rekey : List Bytes → Keys → Result (Bytes × BtDict)
  unfolding seed_hash member_xpks encrypt_for_multiple key_material junk_entries signed_dict
  make_rekey sids g = do
    (sk, pk) ← admin_keys g
    group_xpk ← compute_xpk x.curve pk
    let group_xsk = x.curve.sk_to_curve sk
    h2 ← seed_hash x.ed25519 seed_hash_key g.sig
    let h1 = key_material sids (next_generation g.keys) h2
    let enc_key = take 32 h1
    let nonce = drop 32 h1
    member_k ← seed_hash x.ed25519 enc_key_admin_hash_key g.sig
    xpks ← member_xpks x.oxenc sids
    copies ←
        encrypt_for_multiple x.env.sodium x.curve (enc_key ∷ []) xpks nonce group_xsk group_xpk
          enc_key_member_hash_key true
    d ← signed_dict g (
        full_dict nonce (next_generation g.keys) (x.env.sodium.aead_encrypt enc_key nonce member_k)
          (copies ++ junk_entries h1 sk (length copies)))
    ok (enc_key, d)

  unfoldable pub rekey : List Bytes → Group → Result (Group × Bytes)
  unfolding make_rekey share_keys next_generation
  rekey sids g = do
    (enc_key, d) ← make_rekey sids g.keys
    let message = x.env.codec.encode d
    let keys' = (record g.keys {
      pending_gen = next_generation g.keys.keys;
      pending_key = enc_key;
      pending_key_config = message;
      needs_dump = true;
    })
    g' ← share_keys x.env true (record g { keys = keys' })
    ok (g', message)

  abbrev pub supplement_dict : Bytes → List Bytes → ℤ → BtDict
  supplement_dict nonce copies gen =
      field (bytes "#") (text nonce)
        (field (bytes "+") (list (texts copies)) (field (bytes "G") (integer gen) blank))

  unfoldable pub key_supplement : List Bytes → Keys → Result Bytes
  unfolding seed_hash member_xpks encrypt_for_multiple concat signed_dict
  key_supplement sids g = do
    (sk, pk) ← admin_keys g
    guard (not (is_nil g.keys)) logic_error
    group_xpk ← compute_xpk x.curve pk
    let supp_keys = x.env.encode_list (key_rows g.keys)
    h2 ← seed_hash x.ed25519 seed_hash_key g.sig
    let nonce = x.env.sodium.generichash 24 enc_key_hash_key (concat sids ++ (supp_keys ++ h2))
    xpks ← member_xpks x.oxenc sids
    copies ←
        encrypt_for_multiple x.env.sodium x.curve (supp_keys ∷ []) xpks nonce
          (x.curve.sk_to_curve sk) group_xpk enc_key_member_hash_key true
    guard (not (is_nil copies)) runtime_error
    elim g.keys [
      | [] ↦ err logic_error
      | k ∷ ks ↦ (do
        d ← signed_dict g (supplement_dict nonce copies (back k ks).generation)
        ok (x.env.codec.encode d))
    ]
