-- ===== src/Groups/Keys/Message.antt =====
-- The messages of a group: `encrypt_message` and `decrypt_message` (src/config/groups/keys.cpp). The
-- random nonce and zstd's decompression of a text up to a size are parameters. What is left of the
-- assertion that the group's public key is set is a `logic_error`.
pub mod Padding
pub mod Reads
use libsession_util.Prelude.{
  ℕ, ◌+◌, ◌-◌, ◌%◌, ◌==◌, Bool, true, false, not, ◌&&◌, Option, none, some, List, [], ◌∷◌, ◌++◌,
  length, take, drop, replicate, map, ltb, leb, if◌then◌else◌,
}
use libsession_util.Prelude.Int.{ℤ, pos, negsuc, leb_ℤ}
use libsession_util.Prelude.Result.{
  Result, ok, err, guard, logic_error, runtime_error, bt_deserialize_invalid, ◌>>=◌, ◌>>◌,
}
use libsession_util.Order.{same}
use libsession_util.Keys.{Bytes, bytes, int_ord, bytes_ord, list_lt}
use libsession_util.Config.Data.{is_nil}
use libsession_util.Config.Bt.{BtValue, BtDict, integer, text, blank, field}
use libsession_util.Config.Encrypt.{nonce_size, encrypt_data_overhead}
use libsession_util.Config.Message.Read.{skip_until, at_key}
use libsession_util.Config.Message.Lagged.{read_int, read_text}
use libsession_util.Config.Base.Push.Load.{consume_next}
use libsession_util.User.Ids.{prefix_05}
use libsession_util.Groups.Keys.{KeyInfo, Keys, group_enc_key}
use libsession_util.Groups.Keys.Crypt.{Crypto}

abbrev pub max_plaintext_message_size : ℕ
max_plaintext_message_size = 1000000

abbrev pub message_dict : Bytes → Bytes → Bytes → Bool → BtDict
message_dict author sig data_ compressed = field [] (integer (pos 1)) (
    field (bytes "a") (text author) (
      if compressed
      then field (bytes "s") (text sig) (field (bytes "z") (text data_) blank)
      else field (bytes "d") (text data_) (field (bytes "s") (text sig) blank)))

-- `encoded.resize`, with the final size in mind
unfoldable pub pad_encoded : ℕ → Bytes → Bytes
pad_encoded padding encoded =
    let final_len = encrypt_data_overhead + length encoded in
    if ltb 1 padding && not (final_len % padding == 0)
    then encoded ++ replicate (padding - final_len % padding) 0
    else encoded

abbrev pub group_pk : Keys → Result Bytes
group_pk g = elim g.sig.sign_pk [ none ↦ err logic_error | some pk ↦ ok pk ]

-- `try_decrypting` with one key after the other
unfoldable pub try_keys : (Bytes → Option Bytes) → List Bytes → Option Bytes
try_keys opens [] = none
try_keys opens (k ∷ ks) = elim (opens k) [ some plain ↦ some plain | none ↦ try_keys opens ks ]

-- The pending key, then the keys from the oldest on.
abbrev pub tried : Keys → List Bytes
tried g =
    let stored : List Bytes = map (λ (k : KeyInfo). k.key) g.keys in
    if is_nil g.pending_key_config then stored else g.pending_key ∷ stored

-- The bytes up to the last one that is not zero.
unfoldable pub up_to_nonzero : Bytes → Bytes
up_to_nonzero [] = []
up_to_nonzero (c ∷ cs) =
    let rest = up_to_nonzero cs in if is_nil rest && (c == 0) then [] else c ∷ rest

-- Nothing is removed where there are zeros alone.
abbrev pub without_padding : Bytes → Bytes
without_padding plain = if is_nil (up_to_nonzero plain) then plain else up_to_nonzero plain

-- `plain.front() != 'd'` and `plain.back() != 'e'`
abbrev pub front_is : ℕ → Bytes → Bool
front_is c [] = false
front_is c (b ∷ bs) = b == c

abbrev pub back_is : ℕ → Bytes → Bool
back_is c [] = false
back_is c (b ∷ []) = b == c
back_is c (b ∷ a ∷ bs) = back_is c (a ∷ bs)

-- `consume_integer<int>()`
abbrev pub read_int32 : BtValue → Result ℤ
read_int32 v = do
  i ← read_int v
  guard (leb_ℤ (negsuc 2147483647) i && leb_ℤ i (pos 2147483647)) bt_deserialize_invalid
  ok i

-- `skip_until(key)`, which throws where the key is not there, and the value.
abbrev pub needed {ℓ} : {A : Type ℓ} → Bytes → (BtValue → Result A) → BtDict → Result (A × BtDict)
needed key read pairs = do
  let rest = skip_until key pairs
  guard (at_key key rest) runtime_error
  consume_next read rest

-- A text that must not be empty.
abbrev pub read_some_text : BtValue → Result Bytes
read_some_text v = do t ← read_text v; guard (not (is_nil t)) runtime_error; ok t

-- The text at `d`, if that is there: `raw_data` is empty to begin with.
unfoldable pub uncompressed_part : BtDict → Result (Bytes × BtDict)
unfolding skip_until list_lt
uncompressed_part pairs =
    let rest = skip_until (bytes "d") pairs in
    if at_key (bytes "d") rest then consume_next read_some_text rest else ok ([], rest)

-- The data, and whether it is compressed.
unfoldable pub compressed_part : Bytes → BtDict → Result (Bytes × Bool)
unfolding skip_until list_lt
compressed_part raw_data pairs = do
  let rest = skip_until (bytes "z") pairs
  let z = (do
    guard (is_nil raw_data) runtime_error
    (raw, rest1) ← consume_next read_some_text rest
    ok (raw, true))
  let d = (do guard (not (is_nil raw_data)) runtime_error; ok (raw_data, false))
  if at_key (bytes "z") rest then z else d

module _ (x : Crypto) where
  -- The data that is sent, and whether it is compressed.
  abbrev pub payload : Bytes → Bool → Bytes × Bool
  payload plaintext compress =
      let compressed = x.env.zstd_compress plaintext 1 in
      if compress && ltb (length compressed) (length plaintext)
      then (compressed, true)
      else (plaintext, false)

  abbrev pub made_dict : Bytes × Bool → Bytes → Bytes → BtDict
  made_dict data_ pk sk =
      message_dict (take 32 (drop 32 sk)) (x.ed25519.sign_detached (data_.0 ++ pk) sk) data_.0
        data_.1

  unfoldable pub encrypt_message : Bytes → Bool → ℕ → Bytes → Keys → Result Bytes
  unfolding pad_encoded group_enc_key
  encrypt_message plaintext compress padding nonce g = do
    guard (leb (length plaintext) max_plaintext_message_size) runtime_error
    pk ← group_pk g
    let d = made_dict (payload plaintext compress) pk g.user_ed25519_sk
    key ← group_enc_key g
    ok (nonce ++ x.env.sodium.aead_encrypt (pad_encoded padding (x.env.codec.encode d)) nonce key)

  abbrev pub session_id_of : Bytes → Result Bytes
  session_id_of author = elim (x.curve.pk_to_curve author) [
    | none ↦ err runtime_error
    | some x_pk ↦ ok (prefix_05 ++ x.oxenc.to_hex x_pk)
  ]

  module _ (zstd_decompress : Bytes → ℕ → Option Bytes) where
    abbrev pub decompressed : Bytes × Bool → Result Bytes
    decompressed data_ = elim (zstd_decompress data_.0 max_plaintext_message_size) [
      | none ↦ err runtime_error
      | some plain ↦ ok plain
    ]

    -- The author's session id and the data of a decrypted dict.
    unfoldable pub read_message : Bytes → BtDict → Result (Bytes × Bytes)
    unfolding skip_until uncompressed_part compressed_part list_lt
    read_message pk pairs = do
      (version, d1) ← needed [] read_int32 pairs
      guard (same version (pos 1)) runtime_error
      (author, d2) ← needed (bytes "a") read_text d1
      guard (length author == 32) runtime_error
      session_id ← session_id_of author
      (raw, d3) ← uncompressed_part d2
      (sig, d4) ← needed (bytes "s") read_text d3
      guard (length sig == 64) runtime_error
      data_ ← compressed_part raw d4
      guard (x.ed25519.verify_detached sig (data_.0 ++ pk) author) runtime_error
      plain ← (if data_.1 then decompressed data_ else ok data_.0)
      ok (session_id, plain)

  -- What the first key that opens a ciphertext, of a nonce and the sealed bytes, gives.
  unfoldable pub opened : Bytes → Bytes → Keys → Result Bytes
  unfolding try_keys
  opened nonce sealed g = elim (try_keys (x.env.sodium.aead_decrypt sealed nonce) (tried g)) [
    | none ↦ err runtime_error
    | some padded ↦ ok padded
  ]

  module _ (zstd_decompress : Bytes → ℕ → Option Bytes) where
    -- The decrypted bytes behind their padding, as a dict.
    unfoldable pub read_padded : Bytes → Keys → Result (Bytes × Bytes)
    unfolding up_to_nonzero read_message
    read_padded padded g = do
      let plain = without_padding padded
      guard (front_is b'd' plain && back_is b'e' plain) runtime_error
      x.env.codec.open_dict plain
      pairs ← elim (x.env.codec.decode plain) [ none ↦ err bt_deserialize_invalid | some d ↦ ok d ]
      pk ← group_pk g
      read_message zstd_decompress pk pairs

    unfoldable pub decrypt_message : Bytes → Keys → Result (Bytes × Bytes)
    unfolding opened read_padded
    decrypt_message ciphertext g = do
      guard (leb encrypt_data_overhead (length ciphertext)) runtime_error
      padded ← opened (take nonce_size ciphertext) (drop nonce_size ciphertext) g
      read_padded padded g
