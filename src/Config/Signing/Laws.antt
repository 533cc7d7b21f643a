-- ===== src/Config/Signing/Laws.antt =====
-- The keys and the functions that go with them agree (`ConfigSig` of src/config/base.cpp).
use libsession_util.Prelude.{◌≡◌, refl, ◌==◌, true, Option, none, some, length, drop, ==_iff}
use libsession_util.Prelude.Result.{invalid_argument, Ensures, Ensures-ok, guard-Ensures}
use libsession_util.Order.{eq_of_same}
use libsession_util.Keys.{Bytes, bytes_ord}
use libsession_util.Config.Message.{Verifier, Signer}
use libsession_util.Config.Signing.{
  Ed25519, ConfigSig, verifier_of, signer_of, set_sig_keys, set_sig_pubkey, agrees, init_sig_keys,
}

-- libsodium: the secret key has its public key in its second half.
abbrev pub HoldsPk : Ed25519 → Type 0
HoldsPk e = (sk : Bytes) → length sk ≡ 64 → e.sk_to_pk sk ≡ drop 32 sk

abbrev pub verifier_for : Ed25519 → Option Bytes → Verifier
verifier_for e none = none
verifier_for e (some pk) = verifier_of e pk

abbrev pub signer_for : Ed25519 → Option Bytes → Signer
signer_for e none = none
signer_for e (some sk) = signer_of e sk

-- The public key belongs to the secret key, if there is one.
abbrev pub Pairs : Ed25519 → Option Bytes → Option Bytes → Type 0
Pairs e pk none = Unit
Pairs e pk (some sk) = pk ≡ some (e.sk_to_pk sk)

-- A public key that was asked for is the one that is set.
abbrev pub Asked : Option Bytes → Option Bytes → Type 0
Asked none pk = Unit
Asked (some asked) pk = pk ≡ some asked

abbrev pub IsMatched : Ed25519 → ConfigSig → Type 0
IsMatched e x =
    (x.verifier ≡ verifier_for e x.sign_pk)
    × (x.signer ≡ signer_for e x.sign_sk)
    × Pairs e x.sign_pk x.sign_sk

agreed :
    (e : Ed25519) (pubkey : Option Bytes) (secret : Bytes)
    → HoldsPk e
    → agrees pubkey secret ≡ true
    → length secret ≡ 64
    → Asked pubkey (some (e.sk_to_pk secret))
unfolding agrees
agreed e none secret h a l = tt
agreed e (some pubkey) secret h a l = cc (eq_of_same pubkey (drop 32 secret) a, h secret l)

-- Where `init_sig_keys` returns on an object without a secret key, the secret key is the one given,
-- or none; the public key is the one given, if one is, and that of the secret key, if there is one;
-- and the object checks and makes signatures with exactly the keys that are set.
pub init_sig_keys_lem :
    (e : Ed25519) (pubkey secret : Option Bytes) (x : ConfigSig)
    → HoldsPk e
    → x.sign_sk ≡ none
    → x.signer ≡ none
    → Ensures
        (λ y. IsMatched e y × (y.sign_sk ≡ secret) × Asked pubkey y.sign_pk)
        (init_sig_keys e pubkey secret x)
unfolding init_sig_keys set_sig_keys set_sig_pubkey
init_sig_keys_lem e pubkey (some secret) x h p q =
    guard-Ensures _ (agrees pubkey secret) invalid_argument _ (λ a.
      guard-Ensures _ (length secret == 64) invalid_argument _ (λ l.
        Ensures-ok _ _ ((refl, refl, refl), refl, agreed e pubkey secret h a ((==_iff _ 64).0 l))))
init_sig_keys_lem e (some pubkey) none x h p q =
    guard-Ensures _ (length pubkey == 32) invalid_argument _
      (λ l. Ensures-ok _ _ ((refl, rw p q, rw p tt), p, refl))
init_sig_keys_lem e none none x h p q = Ensures-ok _ _ ((refl, refl, tt), refl, tt)
