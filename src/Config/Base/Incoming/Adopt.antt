-- ===== src/Config/Base/Incoming/Adopt.antt =====
-- `ConfigBase::_merge` and `merge` (src/config/base.cpp): the merge of the current config with
-- the incoming ones, and what the object becomes. Asserts and logging are not modelled.
use libsession_util.Prelude.{
  ℕ, ◌+◌, ◌-◌, ◌==◌, Bool, true, false, not, ◌&&◌, ◌||◌, Option, none, some, List, [], ◌∷◌, ◌++◌,
  map, length, get_elem?, if◌then◌else◌,
}
use libsession_util.Prelude.Result.{Result, ok, guard, logic_error, ◌>>=◌, ◌>>◌}
use libsession_util.Prelude.Int.{ℤ, pos, ◌+ℤ◌}
use libsession_util.Order.{same}
use libsession_util.Keys.{Bytes, bytes_ord, int_ord, list_ord, list_lt}
use libsession_util.Containers.SortedSet
use libsession_util.Config.Data.{is_nil}
use libsession_util.Config.Message.{Message, seqno, merged}
use libsession_util.Config.Message.Write.{serialize}
use libsession_util.Config.Message.Mutable.{retain}
use libsession_util.Config.Message.Merge.{Handler, merge_messages, merge_mutable}
use libsession_util.Config.Base.{ConfigBase, clean, dirty, Kind, Env, is_dirty, insert_hashes}
use libsession_util.Config.Base.State.{set_state}
use libsession_util.Config.Base.Multipart.{expire_multiparts}
use libsession_util.Config.Base.Incoming.{
  Incoming, Candidate, Received, unwrap_all, decrypt_all, receive_all,
}

abbrev pub index_among : ℕ → List ℕ → Bool
index_among i [] = false
index_among i (j ∷ js) = i == j || index_among i js

abbrev pub is_index : Option ℕ → ℕ → Bool
is_index none i = false
is_index (some j) i = i == j

-- `all_hashes[*superconf]`, and no hashes without a superconf or behind the end.
abbrev pub hashes_at : Option ℕ → List Candidate → List Bytes
hashes_at none all = []
hashes_at (some i) all = elim (get_elem? all i) [ none ↦ [] | some candidate ↦ candidate.0 ]

-- The equality of two `unordered_set`s that are built from lists.
unfoldable pub same_hashes : List Bytes → List Bytes → Bool
unfolding SortedSet.insert list_lt
same_hashes a b = same (insert_hashes a []) (insert_hashes b [])

abbrev pub erase_hashes : List Bytes → List Bytes → List Bytes
erase_hashes [] s = s
erase_hashes (h ∷ hs) s = erase_hashes hs (SortedSet.erase h s)

-- The loop that marks hashes as obsolete, from index `i` on.
unfoldable pub obsolete :
    Option ℕ → List Bytes → List ℕ → ℕ → List Candidate → List Bytes → List Bytes
unfolding same_hashes SortedSet.insert list_lt
obsolete superconf super bad i [] old = old
obsolete superconf super bad i ((hashes, conf) ∷ all) old =
    let added = insert_hashes hashes old in
    obsolete superconf super bad (i + 1) all (
      if not (is_index superconf i)
        && not (index_among i bad)
        && not (is_nil hashes)
        && not (same_hashes super hashes)
      then added
      else old)

-- The loop that takes the hashes of failed messages out of the good ones, but not the own ones.
unfoldable pub unaccept : Option ℕ → List ℕ → ℕ → List Candidate → List Bytes → List Bytes
unfolding SortedSet.erase list_lt
unaccept own bad i [] good = good
unaccept own bad i ((hashes, conf) ∷ all) good =
    let erased = erase_hashes hashes good in
    unaccept own bad (i + 1) all
      (if not (is_index own i) && index_among i bad then erased else good)

-- `mine`: the serialised current config, and the object with the config that serialising leaves.
unfoldable pub own_config : Env → ConfigBase → Result (ConfigBase × Option Bytes)
unfolding serialize
own_config env c =
    let written = (do
      (m, out) ← serialize env.codec c.config true
      ok (record c { config = m }, some out)) in
    if not (same (seqno c.config) (pos 0)) || is_dirty c then written else ok (c, none)

-- The index that the own config has among the candidates when the code asks for it.
abbrev pub own_index : Bool → ℕ → ℕ
own_index mine_last n = if mine_last then n - 1 else 0

-- What the object becomes with the merged message.
unfoldable pub adopt : Message → ℤ → Bool → List Bytes → ConfigBase → Result ConfigBase
unfolding set_state ◌+ℤ◌
adopt new_conf old_seqno superconf_is_mine super c =
    let merge_result =
      set_state dirty
        (record c { config = if not (is_dirty c) then retain new_conf else new_conf }) in
    let adopted = (do
      c' ← set_state clean (record c { config = new_conf })
      ok (record c' { curr_hashes = insert_hashes super [] })) in
    if same (seqno new_conf) old_seqno
    then ok c
    else if merged new_conf
    then merge_result
    else if is_dirty c && superconf_is_mine && same (seqno new_conf) (old_seqno +ℤ pos 1)
    then ok c
    else adopted

-- The error handler of `_merge`, which records the index and returns.
abbrev pub record_bad : Handler
record_bad i e = ok tt

module _ (env : Env) (kind : Kind) (now : ℕ) where
  -- `_merge`, after the candidates have been collected.
  unfoldable pub merge_candidates :
      ℤ
      → Option Bytes
      → Bool
      → List Candidate
      → List Bytes
      → ConfigBase
      → Result (ConfigBase × List Bytes)
  unfolding merge_messages merge_mutable adopt obsolete unaccept
  merge_candidates old_seqno mine mine_last all good c = do
    let confs = map (λ candidate. candidate.1) all
    (new_conf, bad) ←
        (if is_dirty c
          then merge_mutable env.codec c.config.verifier c.config.signer kind.config_lags record_bad
              confs
          else merge_messages env.codec c.config.verifier c.config.signer kind.config_lags
              record_bad confs)
    let super = hashes_at new_conf.unmerged_ all
    let own = own_index mine_last (length all)
    let c1 = record c { old_hashes = obsolete new_conf.unmerged_ super bad 0 all c.old_hashes }
    c2 ← adopt new_conf old_seqno (is_index new_conf.unmerged_ own) super c1
    let own' : Option ℕ = elim mine [ none ↦ none | some out ↦ some own ]
    ok (c2, unaccept own' bad 0 all good)

  -- The own config as a candidate, in front or at the end.
  abbrev pub own_candidate : Option Bytes → Bool → List Bytes → List Candidate
  own_candidate none here hashes = []
  own_candidate (some out) here hashes = if here then (hashes, out) ∷ [] else []

  -- What has been collected before the first incoming message.
  abbrev pub nothing_received : Option Bytes → ConfigBase → Received
  nothing_received mine c = record {
    candidates = own_candidate mine (not (is_nil c.curr_hashes)) c.curr_hashes;
    good_hashes = [];
    multiparts = c.multiparts;
    needs_dump = c.needs_dump;
  }

  abbrev pub after_receipt : Received → ConfigBase → ConfigBase
  after_receipt r c = record c {
    multiparts = expire_multiparts now r.multiparts;
    needs_dump = r.needs_dump;
  }

  -- `_merge`, once the messages have been received.
  unfoldable pub merge_received :
      ℤ → Option Bytes → Received → ConfigBase → Result (ConfigBase × List Bytes)
  unfolding expire_multiparts merge_candidates
  merge_received old_seqno mine r c =
      let unhashed = is_nil c.curr_hashes in
      let all = r.candidates ++ own_candidate mine unhashed c.curr_hashes in
      let mine_last : Bool = elim mine [ none ↦ false | some out ↦ unhashed ] in
      let result =
        merge_candidates old_seqno mine mine_last all r.good_hashes (after_receipt r c) in
      if is_nil all then ok (after_receipt r c, r.good_hashes) else result

  -- `_merge`
  unfoldable pub merge_configs : List Incoming → ConfigBase → Result (ConfigBase × List Bytes)
  unfolding own_config decrypt_all receive_all merge_received
  merge_configs configs c = do
    guard (not (is_nil c.keys)) logic_error
    (c1, mine) ← own_config env c
    plaintexts ← decrypt_all env kind c1.keys configs
    merge_received (seqno c.config) mine
        (receive_all env kind now plaintexts (nothing_received mine c1)) c1

  -- `merge`: with the hashes of the messages that were accepted.
  unfoldable pub merge : List Incoming → ConfigBase → Result (ConfigBase × List Bytes)
  unfolding unwrap_all merge_configs
  merge configs c = merge_configs (unwrap_all env kind c.keys configs) c
