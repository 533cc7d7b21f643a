-- ===== src/Config/Message/RoundTrip/Whole.antt =====
-- A message that `serialize` writes is read back (the parsing constructor of `ConfigMessage`,
-- src/config.cpp).
use libsession_util.Prelude.{◌≡◌, refl, sym, ap, subst, ◌∙◌, Bool, Option, none, some}
use libsession_util.Prelude.Result.{ok}
use libsession_util.Keys.{Bytes, bytes_ord, int_ord, pair_ord, list_lt}
use libsession_util.Config.Data.{Dict, IsOrdered, IsPruned}
use libsession_util.Config.Bt.{BtDict, blank}
use libsession_util.Config.Wire.{parse_data, parse_pairs, serialize_data, load_pairs, load_diff}
use libsession_util.Config.Wire.Accept.{parse_data-ok_iff}
use libsession_util.Config.Message.{Codec, Message, Verifier, Signer, seqno, blank_message}
use libsession_util.Config.Message.Read.{
  seqno_key, data_key, lags_key, diff_key, sig_key, read_head, read_lagged, read_tail,
  read_contents, read_message, parse_message, verify_config_sig,
}
use libsession_util.Config.Message.Write.{
  append_unknown, message_pairs, serialize, serialize_impl, diff,
}
use libsession_util.Config.Message.RoundTrip.Writable.{HasWritableRest, IsWritable, IsWritable-diff}
use libsession_util.Config.Message.RoundTrip.Lags.{in_window, parse_rows-lag_rows}
use libsession_util.Config.Message.RoundTrip.Signed.{
  signature_of, with_sig, ending, diff_part, lags_part, data_part, all_parts,
  with_sig-message_pairs, signed_pairs-ok, Accepts, length_of_Accepts, kept_signature,
  verify_config_sig-ending,
}
use libsession_util.Config.Message.RoundTrip.Unknowns.{
  add_all, add_all-blank, below, above, StopsAt, NoKey, NoKey-above, AllBelow, AllBelow-above,
  Pending, Pending-above, below_of_AllBelow, load_unknowns-append_unknown,
}

-- oxenc reads the text of the dict back.
pub record IsRead (x : Codec) (d : BtDict) : Type 0 where
  pub opens : x.open_dict (x.encode d) ≡ ok tt
  pub decodes : x.decode (x.encode d) ≡ some d

-- The plain message that is read.
abbrev pub reread : Codec → Message → Bytes → Verifier → Signer → Bool → Option Bytes → Message
reread x m serialized verifier signer trust s = record (blank_message verifier signer m.lag) {
  data_ = m.data_;
  diff_ = m.diff_;
  lagged_diffs_ = in_window (seqno m) m.lag m.lagged_diffs_;
  unknown_ = m.unknown_;
  seqno_hash_ = (seqno m, x.blake2b serialized);
  verified_signature_ = kept_signature verifier trust s;
}

module _ (x : Codec) (m : Message) (w : IsWritable m) (end : BtDict) where
  abbrev u1 : BtDict
  u1 = above data_key m.unknown_

  abbrev acc1 : BtDict
  acc1 = add_all blank (below data_key m.unknown_)

  abbrev u2 : BtDict
  u2 = above lags_key u1

  abbrev acc2 : BtDict
  acc2 = add_all acc1 (below lags_key u1)

  abbrev u3 : BtDict
  u3 = above diff_key u2

  abbrev acc3 : BtDict
  acc3 = add_all acc2 (below diff_key u2)

  pending0 : Pending seqno_key blank m.unknown_ m.unknown_
  pending0 = record {
    sorted = w.rest.unknown_sorted;
    later = w.rest.unknown_later;
    adjoins = tt;
    whole = add_all-blank m.unknown_;
  }

  pending1 : Pending data_key acc1 u1 m.unknown_
  pending1 =
      Pending-above seqno_key data_key blank m.unknown_ m.unknown_ w.rest.no_data_key pending0

  free2 : NoKey lags_key u1
  free2 = NoKey-above lags_key data_key m.unknown_ w.rest.no_lags_key

  pending2 : Pending lags_key acc2 u2 m.unknown_
  pending2 = Pending-above data_key lags_key acc1 u1 m.unknown_ free2 pending1

  free3 : NoKey diff_key u2
  free3 =
      NoKey-above diff_key lags_key u1 (NoKey-above diff_key data_key m.unknown_ w.rest.no_diff_key)

  pending3 : Pending diff_key acc3 u3 m.unknown_
  pending3 = Pending-above lags_key diff_key acc2 u2 m.unknown_ free3 pending2

  below3 : AllBelow sig_key u3
  below3 = AllBelow-above sig_key diff_key u2 (
      AllBelow-above sig_key lags_key u1
        (AllBelow-above sig_key data_key m.unknown_ w.rest.unknown_below))

  data_read : parse_pairs none (serialize_data m.data_) ≡ ok m.data_
  unfolding parse_data
  data_read = (parse_data-ok_iff (serialize_data m.data_) m.data_).1 (refl, w.ordered, w.pruned)

  read_head_lem :
      (serialized : Bytes)
      → x.decode serialized ≡ some (all_parts m m.diff_ end)
      → read_head x serialized ≡ ok (seqno m, m.data_, acc2, lags_part m m.diff_ end u2)
  unfolding read_head list_lt
  read_head_lem serialized h =
      let one =
        load_unknowns-append_unknown m.unknown_ blank seqno_key data_key (data_part m m.diff_ end)
          pending0.sorted pending0.later pending0.adjoins (λ u. unfold list_lt in refl) in
      let two =
        load_unknowns-append_unknown u1 acc1 data_key lags_key (lags_part m m.diff_ end)
          pending1.sorted pending1.later pending1.adjoins (λ u. unfold list_lt in refl) in
      rw h (rw one (rw data_read (rw two refl)))

  read_lagged_lem :
      read_lagged x (seqno m) m.lag (lags_part m m.diff_ end u2)
      ≡ ok (
        in_window (seqno m) m.lag m.lagged_diffs_,
        append_unknown u2 diff_key (diff_part m.diff_ end),
      )
  unfolding read_lagged list_lt
  read_lagged_lem =
      rw
        (parse_rows-lag_rows (seqno m) m.lag none m.lagged_diffs_ w.rest.lags_sorted tt
          w.rest.lags_load)
        refl

  diff_read : load_pairs none m.diff_ ≡ ok m.diff_
  unfolding load_diff
  diff_read = w.diff_loads

  end_stops : (s : Option Bytes) → end ≡ ending s → StopsAt sig_key end
  unfolding list_lt
  end_stops none e = rw e tt
  end_stops (some sig) e = rw e refl

  module _ (verifier : Verifier) (trust : Bool) (s : Option Bytes) (e : end ≡ ending s) where
    signature_read :
        (serialized : Bytes)
        → Accepts verifier (x.signed_part serialized) s
        → verify_config_sig (x.signed_part serialized) end verifier trust
          ≡ ok (kept_signature verifier trust s)
    signature_read serialized a =
        subst
          (λ z.
            verify_config_sig (x.signed_part serialized) z verifier trust
            ≡ ok (kept_signature verifier trust s))
          (sym e) (verify_config_sig-ending s (x.signed_part serialized) verifier trust a)

    read_tail_lem :
        (serialized : Bytes)
        → Accepts verifier (x.signed_part serialized) s
        → read_tail x serialized verifier trust acc2
            (append_unknown u2 diff_key (diff_part m.diff_ end))
          ≡ ok (m.diff_, m.unknown_, kept_signature verifier trust s)
    unfolding read_tail list_lt
    read_tail_lem serialized a =
        let three =
          load_unknowns-append_unknown u2 acc2 lags_key diff_key (diff_part m.diff_ end)
            pending2.sorted pending2.later pending2.adjoins (λ u. unfold list_lt in refl) in
        let four =
          load_unknowns-append_unknown u3 acc3 diff_key sig_key (λ u. end) pending3.sorted
            pending3.later pending3.adjoins (λ u. end_stops s e) in
        let all : add_all acc3 (below sig_key u3) ≡ m.unknown_ =
          ap (add_all acc3) (below_of_AllBelow sig_key u3 below3) ∙ pending3.whole in
        let sig = signature_read serialized a in
        rw three (rw diff_read (rw four (rw all (rw sig refl))))

    pub read_written :
        (serialized : Bytes) (signer : Signer)
        → x.open_dict serialized ≡ ok tt
        → x.decode serialized ≡ some (all_parts m m.diff_ end)
        → Accepts verifier (x.signed_part serialized) s
        → parse_message x serialized verifier signer m.lag trust
          ≡ ok (reread x m serialized verifier signer trust s)
    unfolding parse_message read_message read_contents
    read_written serialized signer o d a = rw o (
        rw (read_head_lem serialized d) (rw read_lagged_lem (rw (read_tail_lem serialized a) refl)))

-- A message that can be written is written with its signature, and read back.
pub read_back :
    (x : Codec) (m : Message) (s : Option Bytes) (enable_signing trust : Bool) (verifier : Verifier)
    (signer : Signer)
    → IsWritable m
    → signature_of x m (message_pairs m m.diff_) enable_signing ≡ s
    → IsRead x (with_sig s (message_pairs m m.diff_))
    → Accepts verifier (x.signed_part (x.encode (with_sig s (message_pairs m m.diff_)))) s
    → (serialize_impl x m m.diff_ enable_signing
        ≡ ok (x.encode (with_sig s (message_pairs m m.diff_))))
      × (parse_message x
            (x.encode (with_sig s (message_pairs m m.diff_)))
            verifier
            signer
            m.lag
            trust
          ≡ ok (
              reread x m (x.encode (with_sig s (message_pairs m m.diff_))) verifier signer trust s))
unfolding serialize_impl
read_back x m s enable_signing trust verifier signer w e r a = (
  rw
      (signed_pairs-ok x m m.diff_ s enable_signing e (
        length_of_Accepts verifier (x.signed_part (x.encode (with_sig s (message_pairs m m.diff_))))
          s a))
      refl,
  read_written x m w (ending s) verifier trust s refl
      (x.encode (with_sig s (message_pairs m m.diff_))) signer r.opens
      (r.decodes ∙ ap some (with_sig-message_pairs s m m.diff_)) a,
)

-- The signature that `serialize` writes, and the pairs.
abbrev pub own_signature : Codec → Message → Bool → Option Bytes
own_signature x m enable_signing =
    signature_of x (diff x m) (message_pairs (diff x m) (diff x m).diff_) enable_signing

abbrev pub written : Codec → Message → Bool → BtDict
written x m enable_signing =
    with_sig (own_signature x m enable_signing) (message_pairs (diff x m) (diff x m).diff_)

-- For a mutable message whose data is in order, whose data before the changes is in order and holds
-- no empty container, and whose lagged diffs and unknown keys are as above, `serialize` writes a
-- text. If oxenc reads back what it wrote, and a reader with the same lag either has no verifier and
-- finds no signature or accepts the signature of 64 bytes, then it reads from the text a plain
-- message with the pruned data, the diff, the unknown keys and the number of the message that was
-- written, with the lagged diffs below that number and not too old, with the hash of the text, and
-- with the signature if it has a verifier or trusts it.
pub parse_message-serialize :
    (x : Codec) (m : Message) (orig : Dict) (enable_signing trust : Bool) (verifier : Verifier)
    (signer : Signer)
    → m.orig_data_ ≡ some orig
    → IsOrdered orig
    → IsPruned orig
    → IsOrdered m.data_
    → HasWritableRest m.lagged_diffs_ m.unknown_
    → IsRead x (written x m enable_signing)
    → Accepts verifier
        (x.signed_part (x.encode (written x m enable_signing)))
        (own_signature x m enable_signing)
    → (serialize x m enable_signing ≡ ok (diff x m, x.encode (written x m enable_signing)))
      × (parse_message x
            (x.encode (written x m enable_signing))
            verifier
            signer
            (diff x m).lag
            trust
          ≡ ok (
              reread x
                (diff x m)
                (x.encode (written x m enable_signing))
                verifier
                signer
                trust
                (own_signature x m enable_signing)))
unfolding serialize
parse_message-serialize x m orig enable_signing trust verifier signer e oo po on w r a =
    let back =
      read_back x (diff x m) (own_signature x m enable_signing) enable_signing trust verifier signer
        (IsWritable-diff x m orig e oo po on w) refl r a in
    (rw (back.0) refl, back.1)
