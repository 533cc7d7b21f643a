-- ===== src/Config/Signing.antt =====
-- The signing keys of a config object: `ConfigSig` (include/session/config/base.hpp,
-- src/config/base.cpp), with the verifying and signing functions that it hands on. Ed25519 is
-- libsodium's, a parameter, and its failures are not modelled.
pub mod Laws
use libsession_util.Prelude.{
  ℕ, ◌==◌, Bool, true, false, not, ◌&&◌, Option, none, some, List, [], ◌∷◌, length, take, drop, min,
  if◌then◌else◌,
}
use libsession_util.Prelude.Result.{
  Result, ok, err, guard, invalid_argument, runtime_error, ◌>>=◌, ◌>>◌,
}
use libsession_util.Order.{same}
use libsession_util.Keys.{Bytes, bytes_ord, list_lt}
use libsession_util.Config.Message.{Verifier, Signer}

-- `crypto_sign_ed25519_sk_to_pk`, `crypto_sign_ed25519_verify_detached` of a signature, the data and
-- the public key, `crypto_sign_ed25519_detached` of the data and the secret key, and
-- `crypto_generichash_blake2b` of a size, the data and the hash key.
pub record Ed25519 : Type 0 where
  pub sk_to_pk : Bytes → Bytes
  pub verify_detached : Bytes → Bytes → Bytes → Bool
  pub sign_detached : Bytes → Bytes → Bytes
  pub blake2b : ℕ → Bytes → Bytes → Bytes

pub record ConfigSig : Type 0 where
  pub sign_pk : Option Bytes
  pub sign_sk : Option Bytes
  pub verifier : Verifier
  pub signer : Signer

-- The functions that `set_verifier` and `set_signer` are given.
abbrev pub verifier_of : Ed25519 → Bytes → Verifier
verifier_of e pk = some (λ signed sig. e.verify_detached sig signed pk)

abbrev pub signer_of : Ed25519 → Bytes → Signer
signer_of e sk = some (λ to_sign. e.sign_detached to_sign sk)

abbrev pub clear_sig_keys : ConfigSig
clear_sig_keys = record { sign_pk = none; sign_sk = none; verifier = none; signer = none }

unfoldable pub set_sig_keys : Ed25519 → Bytes → ConfigSig → Result ConfigSig
set_sig_keys e secret x = do
  guard (length secret == 64) invalid_argument
  let pk = e.sk_to_pk secret
  ok (record clear_sig_keys {
    sign_pk = some pk;
    sign_sk = some secret;
    verifier = verifier_of e pk;
    signer = signer_of e secret;
  })

unfoldable pub set_sig_pubkey : Ed25519 → Bytes → ConfigSig → Result ConfigSig
set_sig_pubkey e pubkey x = do
  guard (length pubkey == 32) invalid_argument
  ok (record x { sign_pk = some pubkey; verifier = verifier_of e pubkey })

-- Whether a public key, if one is given, is the second half of the secret key.
unfoldable pub agrees : Option Bytes → Bytes → Bool
unfolding list_lt
agrees none secret = true
agrees (some pubkey) secret = same pubkey (drop 32 secret)

unfoldable pub init_sig_keys : Ed25519 → Option Bytes → Option Bytes → ConfigSig → Result ConfigSig
unfolding set_sig_keys set_sig_pubkey agrees
init_sig_keys e pubkey (some secret) x = do
  guard (agrees pubkey secret) invalid_argument
  set_sig_keys e secret x
init_sig_keys e (some pubkey) none x = set_sig_pubkey e pubkey x
init_sig_keys e none none x = ok clear_sig_keys

unfoldable pub seed_hash : Ed25519 → Bytes → ConfigSig → Result Bytes
seed_hash e key x = elim x.sign_sk [
  | none ↦ err runtime_error
  | some sk ↦ ok (e.blake2b 32 (take 32 sk) (take (min (length key) 64) key))
]
