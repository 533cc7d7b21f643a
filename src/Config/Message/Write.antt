-- ===== src/Config/Message/Write.antt =====
-- `serialize_impl`, `ConfigMessage::diff`, `MutableConfigMessage::diff` and `hash` of
-- src/config.cpp, with `append_unknown` (src/config/internal.cpp).
use libsession_util.Prelude.{Bool, true, none, some, [], ◌∷◌, ◌==◌, ◌||◌, length, if◌then◌else◌}
use libsession_util.Prelude.Result.{Result, ok, guard, logic_error, ◌>>=◌, ◌>>◌}
use libsession_util.Prelude.Int.{ℤ, pos, leb_ℤ, ◌-ℤ◌}
use libsession_util.Order.{less}
use libsession_util.Keys.{Bytes, bytes_ord, list_lt}
use libsession_util.Config.Bt.{
  BtValue, BtList, BtDict, integer, text, list, subdict, nil, cons, blank, field,
}
use libsession_util.Config.Prune.{prune}
use libsession_util.Config.Diff.{diff_impl}
use libsession_util.Config.Apply.RoundTrip.{value_or_blank}
use libsession_util.Config.Wire.{serialize_data}
use libsession_util.Config.Message.{Codec, Message, SeqnoHash, LaggedDiffs, seqno, blank_message}
use libsession_util.Config.Message.Lagged.{too_old}
use libsession_util.Config.Message.Read.{seqno_key, data_key, lags_key, diff_key, sig_key, snoc}

-- `append_unknown`: the unknown pairs below a key, then what `rest` writes with those that are left.
unfoldable pub append_unknown : BtDict → Bytes → (BtDict → BtDict) → BtDict
append_unknown blank until rest = rest blank
append_unknown (field k v unknown) until rest =
    let taken = field k v (append_unknown unknown until rest) in
    if less k until then taken else rest (field k v unknown)

-- One row of the list of lagged diffs.
abbrev pub lag_row : SeqnoHash → BtDict → BtValue
lag_row (s, h) diff = list (cons (integer s) (cons (text h) (cons (subdict diff) nil)))

-- The rows that are written: `lag_seqno <= seqno() - lag || lag_seqno >= seqno()` skips one.
unfoldable pub lag_rows : ℤ → ℤ → LaggedDiffs → BtList
unfolding ◌-ℤ◌
lag_rows curr lag [] = nil
lag_rows curr lag ((key, diff) ∷ lags) =
    let rest = lag_rows curr lag lags in
    if too_old curr lag key.0 || leb_ℤ curr key.0 then rest else cons (lag_row key diff) rest

-- The pairs of the top level, up to the signature.
unfoldable pub message_pairs : Message → BtDict → BtDict
unfolding append_unknown serialize_data lag_rows list_lt
message_pairs m diff = field seqno_key (integer (seqno m)) (
    append_unknown m.unknown_ data_key (λ unknown1.
      field data_key (subdict (serialize_data m.data_)) (
        append_unknown unknown1 lags_key (λ unknown2.
          field lags_key (list (lag_rows (seqno m) m.lag m.lagged_diffs_)) (
            append_unknown unknown2 diff_key (λ unknown3.
              field diff_key (subdict diff)
                (append_unknown unknown3 sig_key (λ unknown4. blank))))))))

module _ (x : Codec) where
  -- `append_signature`: the signer is given the text so far.
  unfoldable pub sign : (Bytes → Bytes) → BtDict → Result BtDict
  sign signer pairs = do
    let sig = signer (x.signed_part (x.encode pairs))
    guard (length sig == 64) logic_error
    ok (snoc pairs sig_key (text sig))

  -- The pairs of a message with its signature, if it has one or is to be signed.
  unfoldable pub signed_pairs : Message → BtDict → Bool → Result BtDict
  unfolding message_pairs sign
  signed_pairs m diff enable_signing = do
    let pairs = message_pairs m diff
    elim m.verified_signature_ [
      | some sig ↦ ok (snoc pairs sig_key (text sig))
      | none ↦ elim m.signer [
        | none ↦ ok pairs
        | some f ↦ if enable_signing then sign f pairs else ok pairs
      ]
    ]

  -- `serialize_impl`
  unfoldable pub serialize_impl : Message → BtDict → Bool → Result Bytes
  unfolding signed_pairs
  serialize_impl m diff enable_signing = do
    signed ← signed_pairs m diff enable_signing
    ok (x.encode signed)

  -- The virtual `diff()`: a mutable message forgets its signature, prunes its data and computes
  -- its diff anew.
  unfoldable pub diff : Message → Message
  unfolding prune diff_impl
  diff m = elim m.orig_data_ [
    | none ↦ m
    | some orig ↦
        let pruned = (prune m.data_).result in
        record m {
          verified_signature_ = none;
          data_ = pruned;
          diff_ = value_or_blank (diff_impl orig pruned);
        }
  ]

  -- `serialize(enable_signing)`: the message that `diff()` leaves, and the text.
  unfoldable pub serialize : Message → Bool → Result (Message × Bytes)
  unfolding serialize_impl diff
  serialize m enable_signing = do
    let m' = diff m
    out ← serialize_impl m' m'.diff_ enable_signing
    ok (m', out)

  -- The virtual `hash()`: a plain message has it already.
  unfoldable pub hash : Message → Result Message
  unfolding serialize
  hash m = elim m.orig_data_ [
    | none ↦ ok m
    | some orig ↦ do
      (m', out) ← serialize m true
      ok (record m' { seqno_hash_ = (seqno m', x.blake2b out) })
  ]

  -- `ConfigMessage()`
  unfoldable pub new_message : Result Message
  unfolding serialize
  new_message = do
    (m, out) ← serialize (blank_message none none (pos 5)) true
    ok (record m { seqno_hash_ = (seqno m, x.blake2b out) })
