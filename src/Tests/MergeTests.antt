-- ===== src/Tests/MergeTests.antt =====
-- Merging, incrementing, pushing and the keys at concrete inputs.
use libsession_util.Prelude.{
  Option, ℕ, ◌≡◌, ◌≤◌, ◌<◌, refl, All, true, false, none, some, List, [], ◌∷◌, length, replicate,
  arith,
}
use libsession_util.Prelude.Result.{config_parse_error, Result, ok, err}
use libsession_util.Prelude.Int.{ℤ, pos, ◌+ℤ◌}
use libsession_util.Keys.{Bytes, bytes_ord, int_ord, pair_ord, list_lt}
use libsession_util.Config.Data.{empty, is_nil, IsPruned}
use libsession_util.Config.Bt.{BtDict, integer, subdict, blank, field}
use libsession_util.Config.Prune.{prune}
use libsession_util.Config.Message.{Codec, Message, seqno, zero_hash, blank_message}
use libsession_util.Config.Message.Read.{parse_message, seqno_key, data_key}
use libsession_util.Config.Message.Write.{serialize, serialize_impl}
use libsession_util.Containers.SortedMap
use libsession_util.Config.Message.Merge.{
  Handler, load_all, marked, select, merge_live, merge_messages,
}
use libsession_util.Config.Message.Merge.Whole
use libsession_util.Config.Message.Merge.Whole.{AllKept}
use libsession_util.Config.Message.Merge.Progress.{AtMost, Attains}
use libsession_util.Config.Message.Merge.Index
use libsession_util.Config.Message.Merge.Progress
use libsession_util.Config.Message.Merge.Select.{live}
use libsession_util.Config.Base.{ConfigBase, clean, dirty, waiting, max_multipart_size}
use libsession_util.Config.Base.State.{set_state, make_dirty, confirm_pushed}
use libsession_util.Config.Base.Keyring.{among, is_front, add_key}
use libsession_util.Config.Base.Keyring.Laws
use libsession_util.Config.Base.Push.{Pushed, push}
use libsession_util.Config.Base.Push.Chunks.{chunks, max_chunk_size, number_of_chunks}
use libsession_util.Config.Base.Push.Splitting
use libsession_util.Config.Base.Push.Splitting.{joined}
use libsession_util.Config.Encrypt.{make_encrypt_key, pad_message, padded_size, padding_chunk}
use libsession_util.Config.Lifecycle.Confirm
use libsession_util.Tests.BaseTests.{toy_codec, toy_env, toy_kind, fresh, or_same}

abbrev ignore : Handler
ignore i e = ok tt

abbrev message_of : ℤ → Bytes → Message
message_of s h = record (blank_message none none (pos 5)) { seqno_hash_ = (s, h) }

-- An encoding in which every text is the message with number 1 and no data.
abbrev one_codec : Codec
one_codec = record toy_codec {
  decode = λ bytes. some (field seqno_key (integer (pos 1)) (field data_key (subdict blank) blank));
  key_at_end = ok [];
}

abbrev read_one : Message
read_one = message_of (pos 1) zero_hash

one_fits : Progress.IsInt64 (seqno read_one +ℤ pos 5)
unfolding ◌+ℤ◌
one_fits = (refl, refl)

load_one : load_all one_codec none none (pos 5) ignore 0 ([] ∷ []) ≡ ok (read_one ∷ [], [])
unfolding load_all parse_message list_lt
load_one = refl

load_all-live_lem_example :
    is_nil (live (marked one_codec none none (pos 5) ignore (read_one ∷ []))) ≡ false
load_all-live_lem_example =
    Progress.load_all-live_lem one_codec none none (pos 5) ignore ([] ∷ []) read_one [] [] refl
      load_one (one_fits, tt)

-- Two texts with the same number and different hashes, that of a text being the text.
abbrev two_codec : Codec
two_codec = record one_codec { blake2b = λ bytes. bytes }

abbrev two_texts : List Bytes
two_texts = (1 ∷ []) ∷ (2 ∷ []) ∷ []

abbrev or_blank : Result (Message × List ℕ) → Message
or_blank (ok (m, bad)) = m
or_blank (err e) = blank_message none none (pos 5)

abbrev merged_two : Message
unfolding merge_messages load_all parse_message select merge_live prune serialize_impl ◌+ℤ◌ list_lt
merged_two = or_blank (merge_messages two_codec none none (pos 5) ignore two_texts)

merge_two : merge_messages two_codec none none (pos 5) ignore two_texts ≡ ok (merged_two, [])
unfolding merge_messages load_all parse_message select merge_live prune serialize_impl ◌+ℤ◌ list_lt
merge_two = refl

merge_messages-includes_example :
    (ms : List Message) × (top : ℤ) × (load_all two_codec none none (pos 5) ignore 0 two_texts
      ≡ ok (ms, []))
    × AtMost top ms
    × Attains top ms
    × (seqno merged_two ≡ top +ℤ pos 1)
    × AllKept (pos 5) top merged_two [] ms
    × IsPruned merged_two.data_
unfolding merged_two
merge_messages-includes_example =
    Whole.merge_messages-includes two_codec none none (pos 5) ignore two_texts merged_two []
      merge_two refl

-- A message whose lags are one that is kept, and one that has no lower number.
abbrev lagging : Message
lagging = record read_one {
  lagged_diffs_ = ((pos 0, zero_hash), blank) ∷ ((pos 2, zero_hash), blank) ∷ [];
}

abbrev short : Bytes
short = 1 ∷ 2 ∷ []

short_fits : length short ≤ max_multipart_size
short_fits = omega arith

chunks_lem_example :
    (joined (chunks short) ≡ short)
    × All (λ c. (0 < length c) × (length c ≤ max_chunk_size)) (chunks short)
    × (length (chunks short) ≡ number_of_chunks (length short))
    × (number_of_chunks (length short) ≤ 255)
chunks_lem_example = Splitting.chunks_lem short short_fits

abbrev new_key : Bytes
new_key = replicate 32 9

abbrev keyed : ConfigBase
unfolding add_key
keyed = or_same fresh (add_key toy_env new_key true false fresh)

add_fresh : add_key toy_env new_key true false fresh ≡ ok keyed
unfolding add_key
add_fresh = refl

added_in_front :
    (among new_key keyed.keys ≡ true) × (true ≡ true → is_front new_key keyed.keys ≡ true)
added_in_front = Laws.among-add_key toy_env new_key true false fresh keyed add_fresh

abbrev unsent : ConfigBase
unsent = record fresh { config = record read_one { orig_data_ = some empty }; state = dirty }

abbrev or_fresh : Result (ConfigBase × Pushed) → ConfigBase × Pushed
or_fresh (ok r) = r
or_fresh (err e) = (fresh, record { pushed_seqno = pos 0; messages = []; obsolete_hashes = [] })

abbrev pushed : ConfigBase × Pushed
unfolding push serialize make_encrypt_key pad_message padded_size padding_chunk set_state list_lt
pushed = or_fresh (push toy_env toy_kind 0 unsent)

push_of_unsent : push toy_env toy_kind 0 unsent ≡ ok (pushed.0, pushed.1)
unfolding push serialize make_encrypt_key pad_message padded_size padding_chunk set_state list_lt
push_of_unsent = refl

push-confirm_pushed_example :
    (pushed.0.state ≡ waiting)
    × (pushed.1.pushed_seqno ≡ seqno unsent.config)
    × (pushed.0.old_hashes ≡ [])
    × ((d : ConfigBase) × (confirm_pushed pushed.1.pushed_seqno (short ∷ []) pushed.0 ≡ ok d)
        × (d.state ≡ clean)
        × (d.curr_hashes ≡ short ∷ []))
    × ((d : ConfigBase)
        → make_dirty toy_env pushed.0 ≡ ok d
        → confirm_pushed pushed.1.pushed_seqno (short ∷ []) d ≡ ok d)
push-confirm_pushed_example =
    Confirm.push-confirm_pushed toy_env toy_kind 0 unsent pushed.0 pushed.1 (short ∷ []) refl
      push_of_unsent

-- The same encoding, but nothing can be read of the empty text.
abbrev decode_unless_empty : Bytes → Option BtDict
decode_unless_empty [] = none
decode_unless_empty (b ∷ bytes) = one_codec.decode (b ∷ bytes)

abbrev partial_codec : Codec
partial_codec = record one_codec { decode = decode_unless_empty }

unreadable : parse_message partial_codec [] none none (pos 5) false ≡ err config_parse_error
unfolding parse_message list_lt
unreadable = refl

readable : parse_message partial_codec (1 ∷ []) none none (pos 5) false ≡ ok read_one
unfolding parse_message list_lt
readable = refl

merge_messages_after_failure_example :
    merge_messages partial_codec none none (pos 5) ignore ([] ∷ (1 ∷ []) ∷ [])
    ≡ ok (record read_one { unmerged_ = some 0 }, 0 ∷ [])
merge_messages_after_failure_example =
    Index.merge_messages_after_failure partial_codec none none (pos 5) ignore [] (1 ∷ []) read_one
      refl one_fits refl unreadable readable
