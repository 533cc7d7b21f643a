-- ===== src/Tests/SigningTests.antt =====
-- Signing keys at concrete inputs.
use libsession_util.Prelude.{◌≡◌, refl, true, some, drop, replicate}
use libsession_util.Prelude.Result.{Ensures}
use libsession_util.Keys.{Bytes}
use libsession_util.Config.Signing.{Ed25519, clear_sig_keys, init_sig_keys}
use libsession_util.Config.Signing.Laws.{IsMatched, Asked, init_sig_keys_lem}

abbrev pub toy_ed25519 : Ed25519
toy_ed25519 = record {
  sk_to_pk = λ sk. drop 32 sk;
  verify_detached = λ sig signed pk. true;
  sign_detached = λ to_sign sk. replicate 64 0;
  blake2b = λ size text key. replicate size 0;
}

abbrev secret : Bytes
secret = replicate 64 7

abbrev pubkey : Bytes
pubkey = replicate 32 7

init_sig_keys_lem_example :
    Ensures
      (λ y. IsMatched toy_ed25519 y × (y.sign_sk ≡ some secret) × Asked (some pubkey) y.sign_pk)
      (init_sig_keys toy_ed25519 (some pubkey) (some secret) clear_sig_keys)
init_sig_keys_lem_example =
    init_sig_keys_lem toy_ed25519 (some pubkey) (some secret) clear_sig_keys (λ sk l. refl) refl
      refl
