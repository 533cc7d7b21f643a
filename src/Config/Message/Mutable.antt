-- ===== src/Config/Message/Mutable.antt =====
-- `MutableConfigMessage::increment_impl`, `increment` and the constructors from another message
-- (src/config.cpp).
use libsession_util.Prelude.{none, some, [], ◌∷◌, if◌then◌else◌}
use libsession_util.Prelude.Result.{Result, ok, ◌>>=◌}
use libsession_util.Prelude.Int.{ℤ, pos, leb_ℤ, ◌+ℤ◌, ◌-ℤ◌}
use libsession_util.Keys.{bytes_ord, int_ord, pair_ord, list_lt}
use libsession_util.Containers.SortedMap
use libsession_util.Config.Bt.{blank}
use libsession_util.Config.Message.{Codec, Message, LaggedDiffs, seqno, zero_hash}
use libsession_util.Config.Message.Lagged.{too_old}
use libsession_util.Config.Message.Write.{hash}

-- The first loop: the lagged diffs that are too old stand at the front.
unfoldable pub drop_old : ℤ → ℤ → LaggedDiffs → LaggedDiffs
unfolding ◌-ℤ◌
drop_old curr lag [] = []
drop_old curr lag ((key, diff) ∷ lags) =
    let rest = drop_old curr lag lags in if too_old curr lag key.0 then rest else (key, diff) ∷ lags

-- The second loop, from the end: entries at or above the current sequence number.
unfoldable pub drop_recent : ℤ → LaggedDiffs → LaggedDiffs
drop_recent curr [] = []
drop_recent curr ((key, diff) ∷ lags) = elim (drop_recent curr lags) [
  | [] ↦ if leb_ℤ curr key.0 then [] else (key, diff) ∷ []
  | e ∷ rest ↦ (key, diff) ∷ e ∷ rest
]

-- `emplace_hint(end(), …)`, as any `emplace` of a map.
unfoldable pub increment_impl : Message → Message
unfolding drop_old drop_recent SortedMap.emplace list_lt ◌+ℤ◌
increment_impl m =
    let kept = drop_recent (seqno m) (drop_old (seqno m) m.lag m.lagged_diffs_) in
    record m {
      orig_data_ = some m.data_;
      lagged_diffs_ = SortedMap.emplace m.seqno_hash_ m.diff_ kept;
      seqno_hash_ = (seqno m +ℤ pos 1, zero_hash);
      diff_ = blank;
    }

-- `MutableConfigMessage(ConfigMessage&& m, const retain_seqno_t&)`: a message that was not mutable
-- is moved into the base of a new one, whose `orig_data_` was initialised as an empty dict.
abbrev pub retain : Message → Message
retain m = elim m.orig_data_ [
  | some orig ↦ m
  | none ↦ record m { orig_data_ = some libsession_util.Config.Data.empty }
]

module _ (x : Codec) where
  -- `MutableConfigMessage(const ConfigMessage& m, const increment_seqno_t&)` and `increment()`.
  unfoldable pub increment : Message → Result Message
  unfolding increment_impl hash
  increment m = do m' ← hash x m; ok (increment_impl m')
