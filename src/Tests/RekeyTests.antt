-- ===== src/Tests/RekeyTests.antt =====
-- The key messages of a group at concrete inputs, with toy ciphers.
use libsession_util.Prelude.{
  ℕ, ◌≡◌, inl, refl, true, false, none, some, [], ◌∷◌, ◌++◌, length, replicate, ◌%◌, arith,
}
use libsession_util.Prelude.Int.{pos, leb_ℤ}
use libsession_util.Prelude.Result.{Result, ok, err, invalid_argument}
use libsession_util.Order.{same}
use libsession_util.Keys.{Bytes, bytes, bytes_ord, list_lt}
use libsession_util.Config.Bt.{BtDict, text, list, blank, field}
use libsession_util.Config.Message.Read.{snoc, sig_key}
use libsession_util.Config.Message.Write.{sign}
use libsession_util.Config.Signing.{Ed25519, ConfigSig, verifier_of, signer_of, seed_hash}
use libsession_util.MultiEncrypt.{
  Curve, x_keys, encrypt_multi_key, encrypt_each, encrypt_for_multiple, texts, junk_from,
  padded_copies, encrypt_for_multiple_simple, decrypt_for_multiple_simple,
}
use libsession_util.MultiEncrypt.Ed25519.{
  encrypt_simple_from, decrypt_for_multiple_simple_ed25519, decrypt-encrypt_ed25519,
}
use libsession_util.MultiEncrypt.Simple.{decrypt-encrypt_simple, padded_copies-multiple}
use libsession_util.User.Ids.{Oxenc, check_session_id, session_id_pk}
use libsession_util.Groups.Keys.{Keys}
use libsession_util.Groups.Keys.Crypt.{Crypto, member_xpks, concat, cut}
use libsession_util.Groups.Keys.Rekey.{
  next_generation, key_material, junk_entries, full_dict, signed_dict, make_rekey,
}
use libsession_util.Groups.Keys.{group_keys, pending_config}
use libsession_util.Groups.Keys.Laws.{IsWell}
use libsession_util.Groups.Keys.Accepts.{Shares}
use libsession_util.Groups.Keys.Rekey.{rekey}
use libsession_util.Groups.Keys.Loads.{Group, share_keys}
use libsession_util.Groups.Keys.Parse.{parse_key_message, load_key_message}
use libsession_util.Groups.Keys.Parse.Rekeyed.{Reads, IsAdmin, IsMember}
use libsession_util.Groups.Keys.Parse.Readers.{parse-rekey}
use libsession_util.Groups.Keys.Parse.Settles.{rekey-settles}
use libsession_util.MultiEncrypt.Laws.{Commits}
use libsession_util.Config.Message.Mutable.{increment, increment_impl}
use libsession_util.Config.Message.Write.{hash}
use libsession_util.Config.Base.State.{set_state, make_dirty}
use libsession_util.Config.Base.Keyring.{
  among, add_key, add_keys, remove_key, clear_keys, replace_keys,
}
use libsession_util.Tests.EncryptTests.{toy, toy_IsSodium}
use libsession_util.Config.Encrypt.Padding.{length-replicate}
use libsession_util.Tests.BaseTests.{toy_env, fresh}
use libsession_util.Tests.SigningTests.{toy_ed25519}

abbrev toy_curve : Curve
toy_curve = record {
  scalarmult = λ a b. some [];
  sk_to_curve = λ sk. replicate 32 0;
  pk_to_curve = λ pk. some (replicate 32 0);
}

abbrev toy_oxenc : Oxenc
toy_oxenc = record {
  is_hex = λ s. true;
  from_hex = λ s. replicate 32 0;
  to_hex = λ s. s;
  is_base64 = λ s. true;
  from_base64 = λ s. s;
  is_base32z = λ s. true;
  from_base32z = λ s. s;
}

-- The verifier that accepts one signature only, the signer's.
abbrev strict_ed25519 : Ed25519
strict_ed25519 = record toy_ed25519 { verify_detached = λ sig signed pk. same sig (replicate 64 0) }

abbrev blind : Crypto
blind = record {
  env = record toy_env { sodium = toy };
  curve = toy_curve;
  ed25519 = strict_ed25519;
  oxenc = toy_oxenc;
  deterministic = λ n seed. replicate n 0;
  unset_xsk = replicate 32 0;
  unset_xpk = replicate 32 0;
}

-- The message of the first rekey with one member.
abbrev first_dict : BtDict
first_dict =
    snoc
      (full_dict blind (replicate 24 0) (pos 0) (replicate 48 0)
        (replicate 48 0 ∷ replicate 44 (replicate 48 0)))
      sig_key (text (replicate 64 0))

abbrev crypto : Crypto
crypto = record blind {
  env = record blind.env {
    codec = record blind.env.codec {
      encode = λ d. bytes "message";
      open_dict = λ b. ok tt;
      decode = λ b. some first_dict;
    };
  };
}

abbrev sid : Bytes
sid = bytes "05" ++ replicate 64 b'0'

abbrev admin_sig : ConfigSig
admin_sig = record {
  sign_pk = some (replicate 32 0);
  sign_sk = some (replicate 64 0);
  verifier = verifier_of strict_ed25519 (replicate 32 0);
  signer = signer_of strict_ed25519 (replicate 64 0);
}

abbrev no_keys : ConfigSig → Keys
no_keys sig = record {
  sig = sig;
  user_ed25519_sk = replicate 64 0;
  keys = [];
  active_msgs = [];
  pending_key = replicate 32 0;
  pending_key_config = [];
  pending_gen = pos 0;
  needs_dump = false;
}

first_rekey : make_rekey crypto (sid ∷ []) (no_keys admin_sig) ≡ ok (replicate 32 0, first_dict)
unfolding make_rekey seed_hash member_xpks session_id_pk check_session_id encrypt_for_multiple
    encrypt_each encrypt_multi_key key_material junk_entries cut concat signed_dict sign
    next_generation list_lt
first_rekey = refl

abbrev member_sig : ConfigSig
member_sig = record admin_sig { sign_sk = none; signer = none }

toy-Commits : Commits toy
toy-Commits m nonce domain a b x h = refl

zeros_size : (n : ℕ) (seed : Bytes) → length {A = ℕ} (replicate n 0) ≡ n
zeros_size n seed = length-replicate n

abbrev member_reads : Reads crypto (no_keys member_sig) first_dict
unfolding list_lt
member_reads = record {
  opens = refl;
  decodes = refl;
  verify = λ signed sig. same sig (replicate 64 0);
  verifier_eq = refl;
  accepts = refl;
}

abbrev is_member :
    IsMember crypto (no_keys member_sig) (replicate 64 0) (replicate 32 0) (replicate 32 0 ∷ [])
is_member = record {
  no_admin = refl;
  own = replicate 32 0;
  own_eq = refl;
  is_listed = inl refl;
  shared = [];
  sends = refl;
  receives = refl;
  xsk_size = refl;
  own_size = refl;
}

one_member : member_xpks toy_oxenc (sid ∷ []) ≡ ok (replicate 32 0 ∷ [])
unfolding member_xpks session_id_pk check_session_id list_lt
one_member = refl

first_generation : leb_ℤ (pos 0) (next_generation (no_keys admin_sig).keys) ≡ true
unfolding next_generation
first_generation = refl

parse-rekey_example :
    parse_key_message crypto (crypto.env.codec.encode first_dict) (pos 7) (no_keys member_sig)
    ≡ ok (
      record {
        generation = next_generation (no_keys admin_sig).keys;
        timestamp = pos 7;
        key = replicate 32 0;
      }
          ∷ [],
      none,
    )
parse-rekey_example =
    parse-rekey crypto (sid ∷ []) (no_keys admin_sig) (no_keys member_sig) (replicate 32 0)
      (replicate 64 0) (replicate 32 0) (replicate 32 0) (replicate 32 0 ∷ []) first_dict (pos 7)
      toy_IsSodium toy-Commits zeros_size first_rekey refl refl one_member (inl is_member)
      member_reads refl first_generation

abbrev group : Group
group = record { keys = no_keys admin_sig; info = fresh; members = fresh }

abbrev after : Result (Group × Bytes) → Group
after (ok (g, message)) = g
after (err e) = group

abbrev rekeyed_group : Group
unfolding rekey make_rekey seed_hash member_xpks session_id_pk check_session_id encrypt_for_multiple
    encrypt_each encrypt_multi_key key_material junk_entries cut concat signed_dict sign
    next_generation list_lt share_keys group_keys replace_keys add_keys add_key among remove_key
    clear_keys make_dirty set_state increment increment_impl hash
rekeyed_group = after (rekey crypto (sid ∷ []) group)

rekeyed_lem : rekey crypto (sid ∷ []) group ≡ ok (rekeyed_group, bytes "message")
unfolding rekey make_rekey seed_hash member_xpks session_id_pk check_session_id encrypt_for_multiple
    encrypt_each encrypt_multi_key key_material junk_entries cut concat signed_dict sign
    next_generation list_lt share_keys group_keys replace_keys add_keys add_key among remove_key
    clear_keys make_dirty set_state increment increment_impl hash
rekeyed_lem = refl

abbrev admin_reads : Reads crypto (no_keys admin_sig) first_dict
unfolding list_lt
admin_reads = record {
  opens = refl;
  decodes = refl;
  verify = λ signed sig. same sig (replicate 64 0);
  verifier_eq = refl;
  accepts = refl;
}

abbrev is_admin : IsAdmin crypto (no_keys admin_sig) (no_keys admin_sig) (replicate 32 0)
is_admin = record {
  is_admin = refl;
  same_sig = refl;
  shared = [];
  unset_shared = refl;
  xsk_size = refl;
  xpk_size = refl;
}

rekey-settles_example :
    (g'' : Group) × (load_key_message crypto (bytes "hash") (bytes "message") (pos 7) rekeyed_group
      ≡ ok (g'', true))
    × IsWell g''.keys
    × Shares g''
    × (pending_config g''.keys ≡ none)
rekey-settles_example =
    rekey-settles crypto (sid ∷ []) group rekeyed_group (bytes "message") (replicate 32 0)
      (replicate 64 0) (replicate 32 0) (replicate 32 0) (replicate 32 0 ∷ []) first_dict
      (bytes "hash") (pos 7) toy_IsSodium toy-Commits zeros_size rekeyed_lem first_rekey refl refl
      one_member refl is_admin admin_reads first_generation (tt, tt, tt, refl)

abbrev simple : BtDict
simple =
    field (bytes "#") (text (replicate 24 0))
      (field (bytes "e") (list (texts ((5 ∷ replicate 16 0) ∷ (9 ∷ []) ∷ []))) blank)

two_entries :
    encrypt_for_multiple_simple toy toy_curve
      (λ n size. 9 ∷ [])
      (replicate 24 0)
      ((5 ∷ []) ∷ [])
      (replicate 32 0 ∷ [])
      (replicate 32 0)
      (replicate 32 0)
      []
      none
      2
    ≡ ok simple
unfolding encrypt_for_multiple_simple encrypt_for_multiple encrypt_each encrypt_multi_key junk_from
two_entries = refl

decrypt-encrypt_simple_example :
    decrypt_for_multiple_simple toy toy_curve simple
      (replicate 32 0)
      (replicate 32 0)
      (replicate 32 0)
      []
    ≡ some (5 ∷ [])
decrypt-encrypt_simple_example =
    decrypt-encrypt_simple toy toy_curve toy_IsSodium toy-Commits (5 ∷ []) [] (replicate 32 0)
      (replicate 32 0) (replicate 32 0) (replicate 32 0) [] (replicate 32 0 ∷ []) (λ n size. 9 ∷ [])
      2 (inl refl) refl refl refl refl (replicate 24 0) none simple refl two_entries

padded_copies-multiple_example :
    length (padded_copies (λ n size. 9 ∷ []) ((5 ∷ []) ∷ []) 3 ((1 ∷ []) ∷ [])) % 3 ≡ 0
padded_copies-multiple_example =
    padded_copies-multiple (λ n size. 9 ∷ []) (5 ∷ []) [] ((1 ∷ []) ∷ []) 3 (omega arith)
      (omega arith)

with_nonce :
    encrypt_simple_from toy toy_curve
      (λ n size. 9 ∷ [])
      (replicate 24 1)
      ((5 ∷ []) ∷ [])
      (replicate 32 0 ∷ [])
      (replicate 64 7)
      []
      (replicate 24 0)
      2
    ≡ ok simple
unfolding encrypt_simple_from x_keys encrypt_for_multiple_simple encrypt_for_multiple encrypt_each
    encrypt_multi_key junk_from
with_nonce = refl

decrypt-encrypt_ed25519_example :
    (decrypt_for_multiple_simple_ed25519 toy toy_curve simple (replicate 64 8) (replicate 32 7) []
      ≡ ok (some (5 ∷ [])))
    × (encrypt_simple_from toy toy_curve
          (λ n size. 9 ∷ [])
          (replicate 24 1)
          ((5 ∷ []) ∷ [])
          (replicate 32 0 ∷ [])
          (replicate 64 7)
          []
          []
          2
        ≡ err invalid_argument)
decrypt-encrypt_ed25519_example =
    decrypt-encrypt_ed25519 toy toy_curve toy_IsSodium toy-Commits (λ n size. 9 ∷ [])
      (replicate 24 1) (5 ∷ []) [] 2 (replicate 64 7) (replicate 64 8) (replicate 32 0)
      (replicate 32 0) [] (replicate 32 0 ∷ []) (replicate 24 0) simple refl refl refl refl
      (inl refl) refl refl refl refl refl with_nonce
