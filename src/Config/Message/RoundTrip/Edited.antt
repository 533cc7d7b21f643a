-- ===== src/Config/Message/RoundTrip/Edited.antt =====
-- A message that was read, is made mutable and is edited can be written, and is read back
-- (src/config.cpp).
use libsession_util.Prelude.{◌≡◌, refl, ◌∙◌, ap, Bool, none, length, All}
use libsession_util.Prelude.Result.{ok}
use libsession_util.Prelude.Int.{ℤ}
use libsession_util.Keys.{Bytes, bytes_ord, int_ord, pair_ord}
use libsession_util.Containers.SortedMap
use libsession_util.Config.Data.{Dict, IsOrdered}
use libsession_util.Config.Wire.{load_diff}
use libsession_util.Config.Message.{Codec, Message, Verifier, Signer, seqno}
use libsession_util.Config.Message.Increment.{
  drop_old-All, drop_recent-All, emplace-All, drop_old-IsSorted, drop_recent-IsSorted,
}
use libsession_util.Config.Message.Mutable.{drop_old, drop_recent, increment_impl, increment}
use libsession_util.Config.Message.Read.{parse_message}
use libsession_util.Config.Message.Write.{hash, serialize, diff}
use libsession_util.Config.Message.RoundTrip.Lags.{IsLag}
use libsession_util.Config.Message.RoundTrip.Signed.{Accepts}
use libsession_util.Config.Message.RoundTrip.Whole.{
  IsRead, reread, own_signature, written, parse_message-serialize,
}
use libsession_util.Config.Message.RoundTrip.Writable.{HasWritableRest}
use libsession_util.Config.Message.RoundTrip.Again.{parse_message-WasRead}

-- The lagged diffs of an incremented message can be written, if those of the message and its own
-- diff can.
HasWritableRest-increment_impl :
    (m : Message)
    → HasWritableRest m.lagged_diffs_ m.unknown_
    → load_diff m.diff_ ≡ ok m.diff_
    → length m.seqno_hash_.1 ≡ 32
    → HasWritableRest (increment_impl m).lagged_diffs_ m.unknown_
unfolding increment_impl
HasWritableRest-increment_impl m w d h =
    let old = drop_old (seqno m) m.lag m.lagged_diffs_ in
    let kept = drop_recent (seqno m) old in
    let loaded : All IsLag kept =
      drop_recent-All IsLag (seqno m) old
        (drop_old-All IsLag (seqno m) m.lag m.lagged_diffs_ w.lags_load) in
    record {
      lags_sorted = SortedMap.emplace-IsSorted m.seqno_hash_ m.diff_ kept (
          drop_recent-IsSorted (seqno m) old
            (drop_old-IsSorted (seqno m) m.lag m.lagged_diffs_ w.lags_sorted));
      lags_load = emplace-All IsLag m.seqno_hash_ m.diff_ kept (h, d) loaded;
      unknown_sorted = w.unknown_sorted;
      unknown_later = w.unknown_later;
      no_data_key = w.no_data_key;
      no_lags_key = w.no_lags_key;
      no_diff_key = w.no_diff_key;
      unknown_below = w.unknown_below;
    }

-- A plain message has its hash.
increment-plain :
    (x : Codec) (m : Message) → m.orig_data_ ≡ none → increment x m ≡ ok (increment_impl m)
unfolding increment hash
increment-plain x m e = rw e refl

-- The incremented message with new data.
abbrev pub edited : Message → Dict → Message
edited m d = record (increment_impl m) { data_ = d }

-- A reader that has read a message, made it mutable with the next sequence number and given it any
-- data in order writes a text. If the hash function gives 32 bytes, and oxenc reads back what it
-- wrote, then a second reader that has no verifier and finds no signature, or accepts the signature
-- of 64 bytes, reads from that text a plain message with the pruned data, the diff, the unknown
-- keys, the lagged diffs below the number and not too old, the number, the hash of the text, and the
-- signature where it has a verifier or trusts it.
pub parse_message-serialize-edited :
    (x : Codec) (text : Bytes) (v : Verifier) (s : Signer) (lag : ℤ) (trust : Bool) (m : Message)
    (d : Dict) (enable_signing trust' : Bool) (v' : Verifier) (s' : Signer)
    → ((b : Bytes) → length (x.blake2b b) ≡ 32)
    → parse_message x text v s lag trust ≡ ok m
    → IsOrdered d
    → IsRead x (written x (edited m d) enable_signing)
    → Accepts v'
        (x.signed_part (x.encode (written x (edited m d) enable_signing)))
        (own_signature x (edited m d) enable_signing)
    → (increment x m ≡ ok (increment_impl m))
      × (serialize x (edited m d) enable_signing
          ≡ ok (diff x (edited m d), x.encode (written x (edited m d) enable_signing)))
      × (parse_message x
            (x.encode (written x (edited m d) enable_signing))
            v'
            s'
            (diff x (edited m d)).lag
            trust'
          ≡ ok (
              reread x
                (diff x (edited m d))
                (x.encode (written x (edited m d) enable_signing))
                v'
                s'
                trust'
                (own_signature x (edited m d) enable_signing)))
unfolding increment_impl
parse_message-serialize-edited x text v s lag trust m d enable_signing trust' v' s' b h o r a =
    let (plain, hash, w) = parse_message-WasRead x text v s lag trust m h in
    let size : length m.seqno_hash_.1 ≡ 32 = ap length hash ∙ b text in
    let rest = HasWritableRest-increment_impl m w.rest w.diff_loads size in
    let back =
      parse_message-serialize x (edited m d) m.data_ enable_signing trust' v' s' refl w.ordered
        w.pruned o rest r a in
    (increment-plain x m plain, back.0, back.1)
