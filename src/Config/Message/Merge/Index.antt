-- ===== src/Config/Message/Merge/Index.antt =====
-- The index that a merge reports counts the messages that could be read, not those it was given.
use libsession_util.Prelude.{◌≡◌, refl, true, false, [], ◌∷◌, some, arith}
use libsession_util.Prelude.Result.{ok, err, config_parse_error}
use libsession_util.Prelude.Int.{ℤ, pos, ltb_ℤ, ◌+ℤ◌}
use libsession_util.Keys.{Bytes, int_ord}
use libsession_util.Config.Message.{Codec, Message, Verifier, Signer, seqno}
use libsession_util.Config.Message.Read.{parse_message}
use libsession_util.Config.Message.Merge.{Handler, load_all, marked, select, merge_messages}
use libsession_util.Config.Message.Merge.Select.{
  mark_redundant, is_redundant, mark_old, max_seqno, max_from, sole_live, live,
}
use libsession_util.Config.Message.Merge.Progress.{IsInt64, not_old}

not_below_itself : (a : ℤ) → ltb_ℤ a a ≡ false
not_below_itself a = ground arith

module _ (x : Codec) (v : Verifier) (s : Signer) (lag : ℤ) (handler : Handler) where
  select_one :
      (m : Message)
      → ltb_ℤ (pos 0) lag ≡ true
      → IsInt64 (seqno m +ℤ lag)
      → select x v s lag handler (m ∷ []) ≡ ok (record m { unmerged_ = some 0 })
  unfolding select marked mark_redundant is_redundant mark_old max_seqno max_from sole_live live
  select_one m h i =
      rw
        (
          not_old (seqno m) lag (seqno m) h i (not_below_itself (seqno m)),
          select,
          sole_live,
          mark_old,
        )
        refl

  -- Of two messages, of which the first cannot be read and the second can, the merge adopts the
  -- second, but the index that it reports is 0, that of the message that could not be read; with a
  -- handler that returns and a positive number of lags, whose sum with the sequence number is an
  -- `int64_t`.
  pub merge_messages_after_failure :
      (bad good : Bytes) (m : Message)
      → ltb_ℤ (pos 0) lag ≡ true
      → IsInt64 (seqno m +ℤ lag)
      → handler 0 config_parse_error ≡ ok tt
      → parse_message x bad v s lag false ≡ err config_parse_error
      → parse_message x good v s lag false ≡ ok m
      → merge_messages x v s lag handler (bad ∷ good ∷ [])
        ≡ ok (record m { unmerged_ = some 0 }, 0 ∷ [])
  unfolding merge_messages load_all
  merge_messages_after_failure bad good m h i hh hb hg =
      rw (hb, hh, hg, merge_messages, load_all) (rw (select_one m h i) refl)
