-- ===== src/Config/Message/Merge/Replay.antt =====
-- The replay of the diffs of several messages, oldest first.
use libsession_util.Prelude.{List, [], ◌∷◌, if◌then◌else◌}
use libsession_util.Prelude.Result.{Result, ok, ◌>>=◌}
use libsession_util.Order.{less}
use libsession_util.Keys.{bytes_ord, int_ord, pair_ord, list_lt}
use libsession_util.Containers.SortedMap
use libsession_util.Config.Data.{Dict}
use libsession_util.Config.Bt.{BtDict}
use libsession_util.Config.Apply.{apply_diff}
use libsession_util.Config.Message.{Message, SeqnoHash, LaggedDiffs}

-- `std::sort` in descending order of sequence number and hash; no two of the messages share them.
unfoldable pub insert_descending : Message → List Message → List Message
unfolding list_lt
insert_descending m [] = m ∷ []
insert_descending m (c ∷ cs) =
    if less m.seqno_hash_ c.seqno_hash_ then c ∷ insert_descending m cs else m ∷ c ∷ cs

unfoldable pub sort_descending : List Message → List Message
unfolding insert_descending
sort_descending [] = []
sort_descending (m ∷ ms) = insert_descending m (sort_descending ms)

-- `std::map<seqno_hash_t, std::pair<const dict*, const oxenc::bt_dict*>>`
abbrev pub ReplayMap : Type 0
ReplayMap = List (SeqnoHash × (Dict × BtDict))

unfoldable pub emplace_lagged : Dict → LaggedDiffs → ReplayMap → ReplayMap
unfolding SortedMap.emplace list_lt
emplace_lagged source [] replay = replay
emplace_lagged source ((key, diff) ∷ lags) replay =
    emplace_lagged source lags (SortedMap.emplace key (source, diff) replay)

-- The body of the loop for one message.
unfoldable pub emplace_message : Message → ReplayMap → ReplayMap
unfolding emplace_lagged
emplace_message m replay =
    emplace_lagged m.data_ m.lagged_diffs_
      (SortedMap.emplace m.seqno_hash_ (m.data_, m.diff_) replay)

-- The loop over the sorted messages: `emplace` never replaces, so the first one to bring a diff
-- gives the data that it is replayed from.
unfoldable pub replay_from : List Message → ReplayMap → ReplayMap
unfolding emplace_message
replay_from [] replay = replay
replay_from (m ∷ ms) replay = replay_from ms (emplace_message m replay)

unfoldable pub replay_of : List Message → ReplayMap
unfolding replay_from
replay_of ms = replay_from ms []

-- The loop over the replay, in ascending order: the data, and the lagged diffs.
unfoldable pub apply_replay : ReplayMap → Dict → Result (Dict × LaggedDiffs)
unfolding apply_diff
apply_replay [] target = ok (target, [])
apply_replay ((key, (source, diff)) ∷ replay) target = do
  target' ← apply_diff target diff source
  (final, lagged) ← apply_replay replay target'
  ok (final, (key, diff) ∷ lagged)
