-- ===== src/Config/Message/RoundTrip/Writable.antt =====
-- What a message is that can be written and read back, and that `diff` leaves one (src/config.cpp).
use libsession_util.Prelude.{◌≡◌, some, All}
use libsession_util.Prelude.Result.{ok}
use libsession_util.Keys.{bytes_ord, int_ord, pair_ord}
use libsession_util.Containers.SortedMap
use libsession_util.Config.Data.{Dict, IsOrdered, IsPruned}
use libsession_util.Config.Bt.{BtDict, fields}
use libsession_util.Config.Wire.{load_diff}
use libsession_util.Config.Prune.{prune}
use libsession_util.Config.Prune.Laws.{prune_lem}
use libsession_util.Config.Message.RoundTrip.Diffs.{load_diff-diff_impl}
use libsession_util.Config.Message.{Codec, Message, LaggedDiffs}
use libsession_util.Config.Message.Read.{seqno_key, data_key, lags_key, diff_key, sig_key}
use libsession_util.Config.Message.Write.{diff}
use libsession_util.Config.Message.RoundTrip.Lags.{IsLag}
use libsession_util.Config.Message.RoundTrip.Unknowns.{NoKey, AllBelow}

-- Of the lagged diffs and the unknown keys: the lagged diffs are what the reader accepts, in order
-- and with hashes of 32 bytes, and the unknown keys stand in order between the known ones.
pub record HasWritableRest (lags : LaggedDiffs) (unknown : BtDict) : Type 0 where
  pub lags_sorted : SortedMap.IsSorted lags
  pub lags_load : All IsLag lags
  pub unknown_sorted : SortedMap.IsSorted (fields unknown)
  pub unknown_later : SortedMap.Above seqno_key (fields unknown)
  pub no_data_key : NoKey data_key unknown
  pub no_lags_key : NoKey lags_key unknown
  pub no_diff_key : NoKey diff_key unknown
  pub unknown_below : AllBelow sig_key unknown

-- What is true of the members of a message that can be written: the data is in order and holds no
-- empty container, and the reader accepts the diff, the lagged diffs and the unknown keys.
pub record IsWritable (m : Message) : Type 0 where
  pub ordered : IsOrdered m.data_
  pub pruned : IsPruned m.data_
  pub diff_loads : load_diff m.diff_ ≡ ok m.diff_
  pub rest : HasWritableRest m.lagged_diffs_ m.unknown_

-- The message that `diff` leaves of a mutable one can be written, if the data of both are in order,
-- the data before its changes hold no empty container, and the lagged diffs and the unknown keys
-- are as above.
pub IsWritable-diff :
    (x : Codec) (m : Message) (orig : Dict)
    → m.orig_data_ ≡ some orig
    → IsOrdered orig
    → IsPruned orig
    → IsOrdered m.data_
    → HasWritableRest m.lagged_diffs_ m.unknown_
    → IsWritable (diff x m)
unfolding diff
IsWritable-diff x m orig e oo po on r =
    let p = prune_lem m.data_ on in
    rw e (record {
      ordered = p.1;
      pruned = p.0;
      diff_loads = load_diff-diff_impl orig (prune m.data_).result oo po p.1 p.0;
      rest = r;
    })
