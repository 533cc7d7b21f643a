-- ===== src/Config/Message/Merge.antt =====
-- The merging constructors of `ConfigMessage` and `MutableConfigMessage` (src/config.cpp).
pub mod Select
pub mod Replay
pub mod Parties
pub mod Keeps
pub mod Progress
pub mod Index
pub mod Whole
use libsession_util.Prelude.{
  ℕ, ◌+◌, ◌==◌, Bool, true, false, not, ◌&&◌, Option, none, some, List, [], ◌∷◌, length,
  if◌then◌else◌,
}
use libsession_util.Prelude.Result.{
  Error, Result, ok, err, guard, config_error, signature_error, missing_signature,
  config_parse_error, ◌>>=◌, ◌>>◌,
}
use libsession_util.Prelude.Int.{ℤ, pos, ◌+ℤ◌}
use libsession_util.Order.{less}
use libsession_util.Keys.{Bytes, bytes_ord, int_ord, pair_ord, list_lt}
use libsession_util.Config.Data.{Dict}
use libsession_util.Config.Bt.{BtDict}
use libsession_util.Config.Prune.{prune}
use libsession_util.Config.Message.{
  Codec, Message, SeqnoHash, LaggedDiffs, Verifier, Signer, seqno, merged, blank_message,
}
use libsession_util.Config.Message.Read.{parse_message, is_set}
use libsession_util.Config.Message.Write.{serialize_impl}
use libsession_util.Config.Message.Mutable.{increment_impl}
use Select.{Marked, mark_redundant, mark_old, max_seqno, live, best, sole_live}
use Replay.{sort_descending, replay_of, apply_replay}

-- `catch (const config_error&)`: the class and its subclasses.
abbrev pub is_config_error : Error → Bool
is_config_error config_error = true
is_config_error signature_error = true
is_config_error missing_signature = true
is_config_error config_parse_error = true
is_config_error _ = false

-- `error_handler`, which can throw; the null handler ignores the error.
abbrev pub Handler : Type 0
Handler = ℕ → Error → Result (Unit {0})

module _ (x : Codec) (verifier : Verifier) (signer : Signer) (lag : ℤ) (handler : Handler) where
  -- The first loop, from index `i` on: the messages that could be read, and the indices of those
  -- that could not.
  unfoldable pub load_all : ℕ → List Bytes → Result (List Message × List ℕ)
  unfolding parse_message
  load_all i [] = ok ([], [])
  load_all i (conf ∷ confs) =
      let rest = load_all (i + 1) confs in
      elim (parse_message x conf verifier signer lag false) [
        | ok m ↦ rest >>= λ (ms, bad). ok (m ∷ ms, bad)
        | err e ↦
            if is_config_error e
            then handler i e >> (rest >>= λ (ms, bad). ok (ms, i ∷ bad))
            else err e
      ]

  -- The messages with their `redundant` flags, after both passes.
  unfoldable pub marked : List Message → List Marked
  unfolding mark_redundant mark_old max_seqno
  marked ms = mark_old lag (max_seqno ms) (mark_redundant [] ms)

  -- The merged message before it has its hash.
  abbrev pub merged_of : ℤ → Dict → LaggedDiffs → Message
  merged_of top contents lagged =
      let m = blank_message verifier signer lag in
      record m {
        data_ = (prune contents).result;
        lagged_diffs_ = lagged;
        seqno_hash_ = (top +ℤ pos 1, m.seqno_hash_.1);
      }

  -- The merge proper, of the messages that are not redundant.
  unfoldable pub merge_live : ℤ → List Message → Result Message
  unfolding sort_descending replay_of apply_replay prune serialize_impl ◌+ℤ◌
  merge_live top ms = elim (sort_descending ms) [
    | [] ↦ err config_error
    | front ∷ rest ↦ do
      let replay = replay_of (front ∷ rest)
      (contents, lagged) ← apply_replay replay front.data_
      let m' = merged_of top contents lagged
      out ← serialize_impl x m' m'.diff_ true
      ok (record m' { seqno_hash_ = (seqno m', x.blake2b out) })
  ]

  -- What becomes of the messages that could be read.
  unfoldable pub select : List Message → Result Message
  unfolding marked merge_live live best sole_live
  select ms =
      let flags = marked ms in
      elim (sole_live 0 flags) [
        | some (i, m) ↦ ok (record m { unmerged_ = some i })
        | none ↦
            if is_set verifier && not (is_set signer)
            then elim (best flags) [
              | some (i, m) ↦ ok (record m { unmerged_ = some i })
              | none ↦ err config_error
            ]
            else merge_live (max_seqno ms) (live flags)
      ]

  -- `ConfigMessage(serialized_confs, verifier, signer, lag, error_handler)`: the message, and the
  -- indices that the handler was called with.
  unfoldable pub merge_messages : List Bytes → Result (Message × List ℕ)
  unfolding load_all select
  merge_messages confs = do
    (ms, bad) ← load_all 0 confs
    guard (not (length ms == 0)) config_error
    m ← select ms
    ok (m, bad)

  -- `MutableConfigMessage(serialized_confs, …)`.
  unfoldable pub merge_mutable : List Bytes → Result (Message × List ℕ)
  unfolding merge_messages increment_impl
  merge_mutable confs = do
    (m, bad) ← merge_messages confs
    let m' = record m { orig_data_ = some m.data_ }
    ok (if merged m' then m' else increment_impl m', bad)
