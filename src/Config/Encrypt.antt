-- ===== src/Config/Encrypt.antt =====
-- Encryption and padding of config messages: src/config/encrypt.cpp, include/session/config/
-- encrypt.hpp, and the removal of the padding in src/config/base.cpp.
pub mod RoundTrip
pub mod Padding
use libsession_util.Prelude.{
  ℕ, ◌+◌, ◌-◌, ◌*◌, ◌/◌, ◌==◌, Bool, true, false, ◌&&◌, Option, none, some, List, [], ◌∷◌, ◌++◌,
  length, take, drop, replicate, ltb, leb, if◌then◌else◌,
}
use libsession_util.Prelude.Result.{
  Result, ok, err, guard, invalid_argument, decrypt_error, ◌>>=◌, ◌>>◌,
}
use libsession_util.Keys.{Bytes}

-- libsodium's keyed BLAKE2b of a given size (with an empty key for none), its XChaCha20-Poly1305,
-- and oxenc's big-endian form of a 64-bit number.
pub record Sodium : Type 0 where
  pub generichash : ℕ → Bytes → Bytes → Bytes
  pub aead_encrypt : Bytes → Bytes → Bytes → Bytes
  pub aead_decrypt : Bytes → Bytes → Bytes → Option Bytes
  pub big_endian : ℕ → Bytes

-- `ENCRYPT_DATA_OVERHEAD`: the tag of 16 bytes and the nonce of 24.
abbrev pub tag_size : ℕ
tag_size = 16

abbrev pub nonce_size : ℕ
nonce_size = 24

abbrev pub encrypt_data_overhead : ℕ
encrypt_data_overhead = 40

abbrev pub domain_max_size : ℕ
domain_max_size = 24

-- "libsessionutil-config-encrypted-"
abbrev pub nonce_key_prefix : Bytes
nonce_key_prefix =
    b'l' ∷ b'i' ∷ b'b' ∷ b's' ∷ b'e' ∷ b's' ∷ b's' ∷ b'i' ∷ b'o' ∷ b'n' ∷ b'u' ∷ b't' ∷ b'i' ∷ b'l'
    ∷ b'-' ∷ b'c' ∷ b'o' ∷ b'n' ∷ b'f' ∷ b'i' ∷ b'g' ∷ b'-' ∷ b'e' ∷ b'n' ∷ b'c' ∷ b'r' ∷ b'y'
    ∷ b'p' ∷ b't' ∷ b'e' ∷ b'd' ∷ b'-' ∷ []

module _ (s : Sodium) where
  unfoldable pub make_encrypt_key : Bytes → ℕ → Bytes → Result Bytes
  make_encrypt_key key_base message_size domain = do
    guard (length key_base == 32) invalid_argument
    guard (leb 1 (length domain) && leb (length domain) domain_max_size) invalid_argument
    ok (s.generichash 32 [] (key_base ++ (s.big_endian message_size ++ domain)))

  -- `encrypt` and `encrypt_inplace`: the ciphertext, then the nonce.
  unfoldable pub encrypt : Bytes → Bytes → Bytes → Result Bytes
  encrypt message key_base domain = do
    key ← make_encrypt_key key_base (length message) domain
    let nonce = s.generichash nonce_size (nonce_key_prefix ++ domain) message
    ok (s.aead_encrypt message nonce key ++ nonce)

  -- `decrypt` and `decrypt_inplace`; the test is for the wrap-around of the subtraction.
  unfoldable pub decrypt : Bytes → Bytes → Bytes → Result Bytes
  decrypt ciphertext key_base domain = do
    guard (leb encrypt_data_overhead (length ciphertext)) decrypt_error
    let message_len = length ciphertext - encrypt_data_overhead
    let split = length ciphertext - nonce_size
    key ← make_encrypt_key key_base message_len domain
    elim (s.aead_decrypt (take split ciphertext) (drop split ciphertext) key) [
      | some message ↦ ok message
      | none ↦ err decrypt_error
    ]

-- `padded_size`
unfoldable pub padding_chunk : ℕ → ℕ
padding_chunk s2 =
    if ltb s2 5120 then 256 else if ltb s2 20480 then 1024 else if ltb s2 40960 then 2048 else 5120

unfoldable pub padded_size : ℕ → ℕ → ℕ
padded_size s overhead =
    let s2 = s + overhead in
    let chunk = padding_chunk s2 in (s2 + chunk - 1) / chunk * chunk - overhead

-- `pad_message`
unfoldable pub pad_message : Bytes → ℕ → Bytes
pad_message message overhead =
    let target = padded_size (length message) overhead in
    if ltb (length message) target
    then replicate (target - length message) 0 ++ message
    else message

-- The bytes from the first one that is not zero, or nothing if all are zero.
unfoldable pub find_nonzero : Bytes → Bytes
find_nonzero [] = []
find_nonzero (c ∷ cs) = let rest = find_nonzero cs in if c == 0 then rest else c ∷ cs

-- "Remove prefix padding": a message of zeros only stays as it is.
unfoldable pub strip_padding : Bytes → Bytes
unfolding find_nonzero
strip_padding plain = elim (find_nonzero plain) [ [] ↦ plain | c ∷ cs ↦ c ∷ cs ]
