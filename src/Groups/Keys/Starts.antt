-- ===== src/Groups/Keys/Starts.antt =====
-- The start of a `Keys` object: the constructor, from a dump or without one, and `load_admin_key`
-- (src/config/groups/keys.cpp). The failure of `sodium_init` is not modelled. What the pending key
-- holds until it is set, and libsodium's keypair of a seed, are parameters.
pub mod Restart
use libsession_util.Prelude.{
  ℕ, ◌+◌, ◌==◌, Bool, true, false, not, Option, none, some, List, [], ◌∷◌, length, take,
  if◌then◌else◌,
}
use libsession_util.Prelude.Int.{ℤ, pos, negsuc}
use libsession_util.Prelude.Result.{
  Result, ok, err, guard, invalid_argument, runtime_error, ◌>>=◌, ◌>>◌,
}
use libsession_util.Order.{same}
use libsession_util.Keys.{Bytes, bytes_ord, list_lt}
use libsession_util.Config.Data.{is_nil}
use libsession_util.Config.Bt.{BtDict}
use libsession_util.Config.Signing.{Ed25519, ConfigSig, clear_sig_keys, set_sig_keys, init_sig_keys}
use libsession_util.Config.Base.{ConfigBase, Env}
use libsession_util.Util.Text.{to_int}
use libsession_util.Groups.Keys.{KeyInfo, Keys, back, admin}
use libsession_util.Groups.Keys.Dump.{load_dump}
use libsession_util.Groups.Keys.Loads.{Group, share_keys}

-- `size()`
abbrev pub size : Keys → ℕ
size g = length g.keys + (if is_nil g.pending_key_config then 0 else 1)

-- `current_generation()`, an `int`
unfoldable pub current_generation : Keys → ℤ
unfolding to_int
current_generation g = elim g.keys [ [] ↦ pos 0 | k ∷ ks ↦ to_int (back k ks).generation ]

-- The size of a secret key, if there is one.
abbrev pub has_size : ℕ → Option Bytes → Bool
has_size n none = true
has_size n (some secret) = length secret == n

abbrev pub unused : Bytes → Bytes → ConfigSig → Keys
unused unset user_sk sig = record {
  sig = sig;
  user_ed25519_sk = user_sk;
  keys = [];
  active_msgs = [];
  pending_key = unset;
  pending_key_config = [];
  pending_gen = negsuc 0;
  needs_dump = false;
}

-- `ConfigSig::set_sig_keys` on a config object, with the functions of its message.
unfoldable pub set_config_keys : Ed25519 → Bytes → ConfigBase → Result ConfigBase
unfolding set_sig_keys
set_config_keys e secret c = do
  sig ← set_sig_keys e secret clear_sig_keys
  ok (record c { config = record c.config { verifier = sig.verifier; signer = sig.signer } })

-- The first 32 bytes of 64, or 32 bytes.
abbrev pub seed_part : Bytes → Result Bytes
seed_part seed =
    if length seed == 64
    then ok (take 32 seed)
    else if length seed == 32
    then ok seed
    else err invalid_argument

abbrev pub matches : Option Bytes → Bytes → Bool
matches none pk = true
matches (some sign_pk) pk = same sign_pk pk

module _ (env : Env) (e : Ed25519) where
  unfoldable pub new_keys :
      Bytes → Bytes → Bytes → Option Bytes → Option BtDict → ConfigBase → ConfigBase → Result Group
  unfolding init_sig_keys load_dump share_keys
  new_keys unset user_sk pubkey secret dumped info members = do
    guard (length user_sk == 64) invalid_argument
    guard (length pubkey == 32) invalid_argument
    guard (has_size 64 secret) invalid_argument
    sig ← init_sig_keys e (some pubkey) secret clear_sig_keys
    let keys = unused unset user_sk sig
    elim dumped [
      | none ↦ ok (record { keys = keys; info = info; members = members })
      | some d ↦ (do
        keys' ← load_dump d keys
        share_keys env false (record { keys = keys'; info = info; members = members }))
    ]

  unfoldable pub load_admin_key : (Bytes → Bytes × Bytes) → Bytes → Group → Result Group
  unfolding set_sig_keys set_config_keys list_lt
  load_admin_key seed_keypair seed g =
      let loaded = (do
        part ← seed_part seed
        let pair = seed_keypair part
        guard (matches g.keys.sig.sign_pk pair.0) runtime_error
        sig ← set_sig_keys e pair.1 g.keys.sig
        info ← set_config_keys e pair.1 g.info
        members ← set_config_keys e pair.1 g.members
        ok (record { keys = record g.keys { sig = sig }; info = info; members = members })) in
      if admin g.keys then ok g else loaded
