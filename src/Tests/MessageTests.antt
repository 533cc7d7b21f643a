-- ===== src/Tests/MessageTests.antt =====
-- The messages of a group at concrete inputs, with toy ciphers.
use libsession_util.Prelude.{
  ℕ, ◌≡◌, inl, inr, refl, sym, ◌∙◌, true, false, Option, none, some, [], ◌∷◌, ◌++◌, length,
  replicate, arith,
}
use libsession_util.Prelude.Int.{pos}
use libsession_util.Prelude.Result.{ok, err, runtime_error}
use libsession_util.Keys.{Bytes, bytes}
use libsession_util.Config.Signing.{ConfigSig, verifier_of}
use libsession_util.Config.Bt.{BtDict, blank}
use libsession_util.User.Ids.{prefix_05}
use libsession_util.Groups.Keys.{Keys, group_enc_key}
use libsession_util.Groups.Keys.Crypt.{Crypto}
use libsession_util.Groups.Keys.Message.{
  payload, made_dict, pad_encoded, encrypt_message, decrypt_message,
}
use libsession_util.Groups.Keys.Message.Reads.{
  Authenticates, IsText, IsAuthor, Compresses, decrypt-encrypt_message, encrypt_message_empty,
}
use libsession_util.Tests.EncryptTests.{toy, toy_IsSodium, toy_decrypts}
use libsession_util.Tests.BaseTests.{toy_env}
use libsession_util.Tests.SigningTests.{toy_ed25519}

abbrev hello : Bytes
hello = bytes "hello"

-- One byte stands for the message, and for nothing else.
abbrev sends : BtDict → Crypto
sends d = record {
  env = record toy_env {
    sodium = toy;
    zstd_compress = λ b level. 9 ∷ [];
    codec = record toy_env.codec {
      encode = λ e. bytes "d1:e";
      open_dict = λ b. ok tt;
      decode = λ b. some d;
    };
  };
  curve = record {
    scalarmult = λ a b. none;
    sk_to_curve = λ sk. replicate 32 0;
    pk_to_curve = λ pk. some (replicate 32 3);
  };
  ed25519 = toy_ed25519;
  oxenc = record {
    is_hex = λ s. true;
    from_hex = λ s. s;
    to_hex = λ s. s;
    is_base64 = λ s. true;
    from_base64 = λ s. s;
    is_base32z = λ s. true;
    from_base32z = λ s. s;
  };
  deterministic = λ n seed. replicate n 0;
  unset_xsk = [];
  unset_xpk = [];
}

abbrev group_pk_bytes : Bytes
group_pk_bytes = replicate 32 1

abbrev secret : Bytes
secret = replicate 64 2

abbrev sig : ConfigSig
sig = record {
  sign_pk = some group_pk_bytes;
  sign_sk = none;
  verifier = verifier_of toy_ed25519 group_pk_bytes;
  signer = none;
}

-- The sender has two keys, of which the newer one encrypts.
abbrev sender : Keys
sender = record {
  sig = sig;
  user_ed25519_sk = secret;
  keys =
      record { generation = pos 0; timestamp = pos 1; key = replicate 32 4 }
      ∷ record { generation = pos 1; timestamp = pos 2; key = replicate 32 5 }
      ∷ [];
  active_msgs = [];
  pending_key = replicate 32 0;
  pending_key_config = [];
  pending_gen = pos 0;
  needs_dump = false;
}

-- For the reader, an admin, that key is still pending.
abbrev reader : Keys
reader = record sender { keys = []; pending_key = replicate 32 5; pending_key_config = 1 ∷ [] }

abbrev sent : Bytes → BtDict
sent plaintext =
    made_dict (sends blank) (payload (sends blank) plaintext true) group_pk_bytes secret

abbrev expands : Bytes → ℕ → Option Bytes
expands b n = some hello

toy-Authenticates : Authenticates toy
toy-Authenticates m nonce key k y e =
    let p : some m ≡ some y = sym (toy_decrypts m nonce key) ∙ e in cc

abbrev hello_text : IsText (sends (sent hello)) (sent hello)
hello_text = record { front_eq = refl; back_eq = refl; opens = refl; decodes = refl }

abbrev empty_text : IsText (sends (sent [])) (sent [])
empty_text = record { front_eq = refl; back_eq = refl; opens = refl; decodes = refl }

author : (d : BtDict) → IsAuthor (sends d) secret (replicate 32 3)
author d = record { sk_size = refl; converts = refl; sig_size = λ t. refl; verifies = λ t. refl }

abbrev hello_zstd : Compresses (sends (sent hello)) expands hello
hello_zstd = record { not_empty = refl; decompresses = refl }

newest_key : group_enc_key sender ≡ ok (replicate 32 5)
unfolding group_enc_key
newest_key = refl

decrypt-encrypt_message_example :
    (c : Bytes) × (encrypt_message (sends (sent hello)) hello true 256 (replicate 24 6) sender
      ≡ ok c)
    × (decrypt_message (sends (sent hello)) expands c reader
        ≡ ok (prefix_05 ++ replicate 32 3, hello))
decrypt-encrypt_message_example =
    decrypt-encrypt_message (sends (sent hello)) expands hello (replicate 24 6) group_pk_bytes
      (replicate 32 5) (replicate 32 3) true 256 sender reader toy_IsSodium toy-Authenticates
      hello_text (author (sent hello)) hello_zstd refl (omega arith) refl refl refl newest_key
      (inl refl)

encrypt_message_empty_example :
    (c : Bytes) × (encrypt_message (sends (sent [])) [] true 0 (replicate 24 6) sender ≡ ok c)
    × (decrypt_message (sends (sent [])) expands c sender ≡ err runtime_error)
encrypt_message_empty_example =
    encrypt_message_empty (sends (sent [])) expands (replicate 24 6) group_pk_bytes (replicate 32 5)
      (replicate 32 3) true 0 sender sender toy_IsSodium toy-Authenticates empty_text
      (author (sent [])) refl refl refl newest_key (inr (inl refl))

-- A message for which the dict takes 300 bytes.
padded_size_of_300 : length (pad_encoded 256 (replicate 300 7)) ≡ 472
unfolding pad_encoded
padded_size_of_300 = refl
