-- ===== src/Config/Message.antt =====
-- `ConfigMessage` and `MutableConfigMessage` (src/config.cpp, include/session/config.hpp): the
-- state of a message.
pub mod Lagged
pub mod Read
pub mod Write
pub mod Mutable
pub mod Merge
pub mod Parties
pub mod Earlier
pub mod Increment
pub mod RoundTrip
use libsession_util.Prelude.{
  ℕ, Bool, true, false, replicate, Option, none, some, List, [], ◌∷◌, if◌then◌else◌,
}
use libsession_util.Prelude.Result.{Result, ok, err}
use libsession_util.Prelude.Int.{ℤ, pos}
use libsession_util.Keys.{Bytes}
use libsession_util.Config.Data.{Dict, empty}
use libsession_util.Config.Bt.{BtDict, blank, field}

-- What the code calls and the repository does not hold: oxenc's text of a dict; the constructor of
-- its consumer, which can throw; what the consumer then reads of a text (the pairs in the order in
-- which they stand, or nothing where reading fails); the part of a text that the signature behind
-- it signs; what `key()` gives at the end of a dict; and libsodium's BLAKE2b hash of 32 bytes.
pub record Codec : Type 0 where
  pub encode : BtDict → Bytes
  pub open_dict : Bytes → Result (Unit {0})
  pub decode : Bytes → Option BtDict
  pub signed_part : Bytes → Bytes
  pub key_at_end : Result Bytes
  pub blake2b : Bytes → Bytes

-- `seqno_hash_t`
abbrev pub SeqnoHash : Type 0
SeqnoHash = ℤ × Bytes

-- `lagged_diffs_t`, a map in ascending order.
abbrev pub LaggedDiffs : Type 0
LaggedDiffs = List (SeqnoHash × BtDict)

-- `verify_callable` and `sign_callable`; `none` is the null function.
abbrev pub Verifier : Type 0
Verifier = Option (Bytes → Bytes → Bool)

abbrev pub Signer : Type 0
Signer = Option (Bytes → Bytes)

-- `orig_data_` is there for a `MutableConfigMessage`, and absent for a plain `ConfigMessage`:
-- that is what the dynamic casts ask.
pub record Message : Type 0 where
  pub data_ : Dict
  pub diff_ : BtDict
  pub lagged_diffs_ : LaggedDiffs
  pub unknown_ : BtDict
  pub seqno_hash_ : SeqnoHash
  pub verified_signature_ : Option Bytes
  pub unmerged_ : Option ℕ
  pub verifier : Verifier
  pub signer : Signer
  pub lag : ℤ
  pub orig_data_ : Option Dict

-- `seqno()`
abbrev pub seqno : Message → ℤ
seqno m = m.seqno_hash_.0

-- `merged()`
abbrev pub merged : Message → Bool
merged m = elim m.unmerged_ [ none ↦ true | some i ↦ false ]

abbrev pub is_mutable : Message → Bool
is_mutable m = elim m.orig_data_ [ none ↦ false | some d ↦ true ]

-- The hash of 32 zero bytes that the state starts with.
abbrev pub zero_hash : Bytes
zero_hash = replicate 32 0

-- The members as they are initialised, with the three arguments that every constructor takes.
abbrev pub blank_message : Verifier → Signer → ℤ → Message
blank_message verifier signer lag = record {
  data_ = empty;
  diff_ = blank;
  lagged_diffs_ = [];
  unknown_ = blank;
  seqno_hash_ = (pos 0, zero_hash);
  verified_signature_ = none;
  unmerged_ = none;
  verifier = verifier;
  signer = signer;
  lag = lag;
  orig_data_ = none;
}
