-- ===== src/Tests/RoundTripTests.antt =====
-- Messages that are written and read back, at concrete data.
use libsession_util.Prelude.{
  ℕ, ◌≡◌, refl, true, false, none, some, [], ◌∷◌, replicate, ◌==◌, if◌then◌else◌,
}
use libsession_util.Prelude.Int.{pos}
use libsession_util.Prelude.Result.{ok}
use libsession_util.Order.{same}
use libsession_util.Keys.{Bytes, bytes_ord, list_lt}
use libsession_util.Config.Bt.{BtDict, integer, text, list, subdict, nil, blank, field}
use libsession_util.Config.Wire.{serialize_data, load_diff}
use libsession_util.Config.Message.{Codec, Message, Verifier, Signer, blank_message, zero_hash}
use libsession_util.Config.Message.Read.{parse_message}
use libsession_util.Config.Message.Write.{diff, serialize, message_pairs}
use libsession_util.Config.Message.Mutable.{increment, increment_impl}
use libsession_util.Config.Message.RoundTrip.Whole.{
  IsRead, reread, own_signature, written, parse_message-serialize,
}
use libsession_util.Config.Message.RoundTrip.Writable.{HasWritableRest, IsWritable-diff}
use libsession_util.Config.Message.RoundTrip.Edited.{edited, parse_message-serialize-edited}
use libsession_util.Tests.Examples.{
  key_a, before, later, before-IsOrdered, before-IsPruned, later-IsOrdered,
}
use libsession_util.Tests.BaseTests.{toy_codec, toy_env}
use libsession_util.Tests.SigningTests.{toy_ed25519}
use libsession_util.Config.Signing.{clear_sig_keys, init_sig_keys}
use libsession_util.Config.Base.{ConfigBase, waiting, Env}
use libsession_util.Config.Base.Push.Dump.{dump}
use libsession_util.Config.Base.Push.Load.{init}
use libsession_util.Config.Base.Push.Restart.{
  IsSettled, differed, stored_pairs, dump_pairs, swept, loaded, with_sig_functions, init-dump,
}

abbrev signature : Bytes
signature = replicate 64 7

abbrev signer : Signer
signer = some (λ text. signature)

-- It accepts a signature that begins with the byte 7.
abbrev verifier : Verifier
verifier = some (λ text sig. elim sig [ [] ↦ false | b ∷ rest ↦ b == 7 ])

-- Two unknown keys: one before the data, and one after the diff.
abbrev unknown : BtDict
unknown = field (b'$' ∷ []) (integer (pos 4)) (field (b'A' ∷ []) (text key_a) blank)

abbrev earlier_diff : BtDict
earlier_diff = field key_a (text []) blank

abbrev changed : Message
changed = record (blank_message none signer (pos 5)) {
  data_ = later;
  lagged_diffs_ =
      ((pos 2, replicate 32 1), earlier_diff) ∷ ((pos 8, replicate 32 2), earlier_diff) ∷ [];
  unknown_ = unknown;
  seqno_hash_ = (pos 9, replicate 32 3);
  orig_data_ = some before;
}

-- A codec whose only text is that of the message.
abbrev codec : Codec
codec = record toy_codec {
  encode = λ d. b'd' ∷ [];
  decode = λ text. some (written toy_codec changed true);
}

changed_rest : HasWritableRest changed.lagged_diffs_ changed.unknown_
unfolding list_lt load_diff
changed_rest = record {
  lags_sorted = ((refl, tt), (tt, tt));
  lags_load = ((refl, refl), ((refl, refl), tt));
  unknown_sorted = ((refl, tt), (tt, tt));
  unknown_later = (refl, (refl, tt));
  no_data_key = (refl, (refl, tt));
  no_lags_key = (refl, (refl, tt));
  no_diff_key = (refl, (refl, tt));
  unknown_below = (refl, (refl, tt));
}

codec-IsRead : IsRead codec (written codec changed true)
unfolding diff
codec-IsRead = record { opens = refl; decodes = refl }

changed_comes_back :
    (serialize codec changed true ≡ ok (diff codec changed, b'd' ∷ []))
    × (parse_message codec (b'd' ∷ []) verifier none (diff codec changed).lag true
        ≡ ok (
            reread codec
              (diff codec changed)
              (b'd' ∷ [])
              verifier
              none
              true
              (own_signature codec changed true)))
changed_comes_back =
    parse_message-serialize codec changed before true true verifier none refl before-IsOrdered
      before-IsPruned later-IsOrdered changed_rest codec-IsRead (unfold diff in (refl, refl))

-- A text of a message without changes, with an unknown key.
abbrev received : BtDict
received = field (b'#' ∷ []) (integer (pos 9)) (
    field (b'$' ∷ []) (integer (pos 4)) (
      field (b'&' ∷ []) (subdict (serialize_data before))
        (field (b'<' ∷ []) (list nil) (field (b'=' ∷ []) (subdict earlier_diff) blank))))

abbrev received_message : Message
received_message = record (blank_message none signer (pos 5)) {
  data_ = before;
  diff_ = earlier_diff;
  unknown_ = field (b'$' ∷ []) (integer (pos 4)) blank;
  seqno_hash_ = (pos 9, zero_hash);
}

-- A codec that reads that text, and the one that is written for the edited message.
abbrev two_texts : Codec
two_texts = record toy_codec {
  encode = λ d. b'e' ∷ [];
  decode = λ text.
      if same text (b'd' ∷ [])
      then some received
      else some (written toy_codec (edited received_message later) true);
}

read_received : parse_message two_texts (b'd' ∷ []) none signer (pos 5) false ≡ ok received_message
unfolding parse_message list_lt serialize_data
read_received = refl

two_texts-IsRead : IsRead two_texts (written two_texts (edited received_message later) true)
unfolding diff increment_impl list_lt
two_texts-IsRead = record { opens = refl; decodes = refl }

parse_message-serialize-edited_example :
    (increment two_texts received_message ≡ ok (increment_impl received_message))
    × (serialize two_texts (edited received_message later) true
        ≡ ok (diff two_texts (edited received_message later), b'e' ∷ []))
    × (parse_message two_texts
          (b'e' ∷ [])
          verifier
          none
          (diff two_texts (edited received_message later)).lag
          false
        ≡ ok (
            reread two_texts
              (diff two_texts (edited received_message later))
              (b'e' ∷ [])
              verifier
              none
              false
              (own_signature two_texts (edited received_message later) true)))
parse_message-serialize-edited_example =
    parse_message-serialize-edited two_texts (b'd' ∷ []) none signer (pos 5) false received_message
      later true false verifier none (λ b. refl) read_received later-IsOrdered two_texts-IsRead
      (unfold diff increment_impl in (refl, refl))

-- The text of a dict is its first key.
abbrev first_key : BtDict → Bytes
first_key blank = []
first_key (field k v d) = k

abbrev writer : Codec
writer = record toy_codec { encode = first_key }

-- An object that has pushed its own message, which is still mutable, with one set of parts that is not complete and one
-- that has expired.
abbrev settled : ConfigBase
settled = record {
  config = record received_message { orig_data_ = some before };
  state = waiting;
  keys = [];
  curr_hashes = [];
  old_hashes = key_a ∷ [];
  multiparts =
      (
        replicate 32 1,
        record {
          done = false;
          size = 2;
          parts = record { index = 1; message_id = key_a; chunk = [] } ∷ [];
          expiry = 9000007;
        },
      )
      ∷ (replicate 32 2, record { done = false; size = 2; parts = []; expiry = 3 })
      ∷ [];
  needs_dump = true;
}

abbrev restarting : Env
restarting = record toy_env {
  codec = record writer {
    decode = λ text.
        if same text (b'#' ∷ [])
        then some (stored_pairs (diff writer settled.config))
        else some (dump_pairs writer 5 blank (differed writer (swept 5 settled)));
  };
}

settled-HasWritableRest : HasWritableRest settled.config.lagged_diffs_ settled.config.unknown_
unfolding list_lt
settled-HasWritableRest = record {
  lags_sorted = tt;
  lags_load = tt;
  unknown_sorted = (tt, tt);
  unknown_later = (refl, tt);
  no_data_key = (refl, tt);
  no_lags_key = (refl, tt);
  no_diff_key = (refl, tt);
  unknown_below = (refl, tt);
}

settled-IsSettled : IsSettled restarting.codec settled
unfolding list_lt diff
settled-IsSettled = record {
  unchanged = refl;
  writable =
      IsWritable-diff restarting.codec settled.config before refl before-IsOrdered before-IsPruned
        before-IsOrdered settled-HasWritableRest;
  signed = tt;
  curr_sorted = tt;
  old_sorted = (tt, tt);
  parts_sorted = ((refl, tt), (tt, tt));
  parts_hashes = (refl, (refl, tt));
}

stored_pairs-IsRead : IsRead restarting.codec (stored_pairs (diff restarting.codec settled.config))
unfolding message_pairs list_lt diff
stored_pairs-IsRead = record { opens = refl; decodes = refl }

dump_pairs-IsRead :
    IsRead restarting.codec
      (dump_pairs restarting.codec 5 blank (differed restarting.codec (swept 5 settled)))
unfolding message_pairs list_lt diff
dump_pairs-IsRead = record { opens = refl; decodes = refl }

no_keys : init_sig_keys toy_ed25519 none none clear_sig_keys ≡ ok clear_sig_keys
unfolding init_sig_keys
no_keys = refl

init-dump_example :
    (dump restarting 5 blank settled
      ≡ ok (
        record (differed restarting.codec (swept 5 settled)) { needs_dump = false },
        restarting.codec.encode
            (dump_pairs restarting.codec 5 blank (differed restarting.codec (swept 5 settled))),
      ))
    × (init restarting 6 {E = ℕ} toy_ed25519 0
          (λ d. ok 1)
          (pos 5)
          (some (
            restarting.codec.encode
              (dump_pairs restarting.codec 5 blank (differed restarting.codec (swept 5 settled)))))
          none
          none
        ≡ ok (
          with_sig_functions clear_sig_keys
              (loaded restarting 6 5 (differed restarting.codec (swept 5 settled))),
          1,
          clear_sig_keys,
        ))
init-dump_example =
    init-dump restarting toy_ed25519 5 6 blank settled 0 1 (λ d. ok 1) none none clear_sig_keys
      settled-IsSettled stored_pairs-IsRead dump_pairs-IsRead refl no_keys
