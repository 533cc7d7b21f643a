-- ===== src/Config/Base.antt =====
-- `ConfigBase` (src/config/base.cpp, include/session/config/base.hpp): the state that a config
-- object keeps, and what it takes from outside.
pub mod Multipart
pub mod State
pub mod Keyring
pub mod Incoming
pub mod Push
pub mod Field
use libsession_util.Prelude.{
  ℕ, ◌+◌, ◌*◌, Bool, true, false, not, ◌&&◌, Option, none, some, List, [], ◌∷◌,
}
use libsession_util.Prelude.Result.{Result}
use libsession_util.Prelude.Int.{ℤ}
use libsession_util.Keys.{Bytes, bytes_ord}
use libsession_util.Containers.SortedSet
use libsession_util.Config.Bt.{BtList}
use libsession_util.Config.Encrypt.{Sodium}
use libsession_util.Config.Message.{Codec, Message}
use libsession_util.Config.Message.Read.{is_set}

-- `ConfigState`
pub data ConfigState : Type 0 where
  clean dirty waiting : ConfigState

-- `PartialMessage` and `PartialMessages`; times are nanoseconds since the epoch.
pub record PartialMessage : Type 0 where
  pub index : ℕ
  pub message_id : Bytes
  pub chunk : Bytes

pub record PartialMessages : Type 0 where
  pub done : Bool
  pub size : ℕ
  pub parts : List PartialMessage
  pub expiry : ℕ

abbrev pub Multiparts : Type 0
Multiparts = List (Bytes × PartialMessages)

-- The members. The sets of hashes are unordered in the source; the model keeps them sorted.
pub record ConfigBase : Type 0 where
  pub config : Message
  pub state : ConfigState
  pub keys : List Bytes
  pub curr_hashes : List Bytes
  pub old_hashes : List Bytes
  pub multiparts : Multiparts
  pub needs_dump : Bool

-- What a config class overrides: its encryption domain, its compression level, the number of lags,
-- and whether it accepts protobuf wrapping.
pub record Kind : Type 0 where
  pub encryption_domain : Bytes
  pub compression_level : Option ℕ
  pub config_lags : ℤ
  pub accepts_protobuf : Bool

-- What the code calls: the codec and the ciphers; oxenc's text of a list; zstd at a level, with
-- decompression that can fail; and the protobuf wrapping of src/config/protos.cpp, over generated
-- code, with the key first and the sequence number last.
pub record Env : Type 0 where
  pub codec : Codec
  pub sodium : Sodium
  pub encode_list : BtList → Bytes
  pub decode_list : Bytes → Option BtList
  pub zstd_compress : Bytes → ℕ → Bytes
  pub zstd_decompress : Bytes → Option Bytes
  pub wrap_config : Bytes → Bytes → ℤ → Result Bytes
  pub unwrap_config : Bytes → Bytes → Option Bytes

abbrev pub max_message_size : ℕ
max_message_size = 76800

abbrev pub max_multipart_size : ℕ
max_multipart_size = 5000000

-- `MULTIPART_MAX_WAIT` and `MULTIPART_MAX_REMEMBER`: 7 and 14 days.
-- The ticks of `std::chrono::system_clock` in a millisecond: its ticks are nanoseconds, as in
-- libstdc++.
abbrev pub ticks_per_ms : ℕ
ticks_per_ms = 1000000

abbrev pub multipart_max_wait : ℕ
multipart_max_wait = 604800000 * ticks_per_ms

abbrev pub multipart_max_remember : ℕ
multipart_max_remember = 1209600000 * ticks_per_ms

-- `is_dirty()`, `is_clean()`, `is_readonly()`, `needs_push()`
abbrev pub is_dirty : ConfigBase → Bool
is_dirty c = elim c.state [ dirty ↦ true | _ ↦ false ]

abbrev pub is_clean : ConfigBase → Bool
is_clean c = elim c.state [ clean ↦ true | _ ↦ false ]

abbrev pub is_readonly : ConfigBase → Bool
is_readonly c = is_set c.config.verifier && not (is_set c.config.signer)

abbrev pub needs_push : ConfigBase → Bool
needs_push c = not (is_clean c)

-- The insertion of several hashes into a set.
abbrev pub insert_hashes : List Bytes → List Bytes → List Bytes
insert_hashes [] s = s
insert_hashes (h ∷ hs) s = insert_hashes hs (SortedSet.insert h s)
