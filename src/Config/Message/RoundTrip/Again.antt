-- ===== src/Config/Message/RoundTrip/Again.antt =====
-- What the parsing constructor of `ConfigMessage` (src/config.cpp) makes can be written again.
use libsession_util.Prelude.{◌≡◌, refl, Option, none, some, false, Bool}
use libsession_util.Prelude.Result.{
  Result, ok, err, guard, config_parse_error, bt_deserialize_invalid, Ensures, Ensures-ok,
  Ensures->>=, Ensures-bind, Ensures-if, Ensures-of_eq, Ensures-eq_ok, ◌>>=◌,
}
use libsession_util.Prelude.Int.{ℤ}
use libsession_util.Order.{same}
use libsession_util.Keys.{Bytes, bytes_ord}
use libsession_util.Config.Data.{Dict, IsOrdered, IsPruned}
use libsession_util.Config.Bt.{BtDict, blank, field, fields}
use libsession_util.Config.Wire.{parse_data, load_diff}
use libsession_util.Config.Wire.Accept.{parse_data-ok_iff}
use libsession_util.Config.Message.{Codec, Message, LaggedDiffs, Verifier, Signer}
use libsession_util.Config.Message.Lagged.{
  read_int, read_dict, read_list, parse_rows, parse_lagged_diffs,
}
use libsession_util.Config.Message.Parties.{rethrow-Ensures}
use libsession_util.Config.Message.Read.{
  current_key, next_pair, seqno_key, data_key, lags_key, diff_key, sig_key, Contents, optional_pair,
  load_unknowns, verify_config_sig, read_head, read_lagged, read_tail, read_contents, read_message,
  parse_message,
}
use libsession_util.Config.Message.RoundTrip.Keys.{
  IsUnknownKey, AllUnknown, UnknownRead, load_unknowns-UnknownRead, keys_before_data,
  keys_before_lags, keys_before_diff, keys_before_sig,
}
use libsession_util.Config.Message.RoundTrip.Parsed.{
  IsAccepted, load_diff-IsAccepted, LagsRead, LagsRead-nil, parse_rows-LagsRead,
}
use libsession_util.Containers.SortedMap
use libsession_util.Config.Message.RoundTrip.Unknowns.{NoKey, AllBelow}
use libsession_util.Config.Message.RoundTrip.Writable.{HasWritableRest, IsWritable}

parse_data-Ensures : (d : BtDict) → Ensures (λ r. IsOrdered r × IsPruned r) (parse_data d)
parse_data-Ensures d =
    Ensures-of_eq (λ r. IsOrdered r × IsPruned r) (parse_data d)
      (λ r h. let p = (parse_data-ok_iff d r).0 h in (p.1, p.2))

IsAccepted-blank : IsAccepted blank
unfolding load_diff
IsAccepted-blank = refl

NoKey-of_unknown :
    (key : Bytes) (d : BtDict)
    → ((k : Bytes) → IsUnknownKey k → same k key ≡ false)
    → AllUnknown d
    → NoKey key d
NoKey-of_unknown key blank p h = tt
NoKey-of_unknown key (field k v d) p h = (p k h.0, NoKey-of_unknown key d p h.1)

AllBelow-of_unknown : (d : BtDict) → AllUnknown d → AllBelow sig_key d
AllBelow-of_unknown blank h = tt
AllBelow-of_unknown (field k v d) h = (h.0.earlier, AllBelow-of_unknown d h.1)

Above-of_unknown : (d : BtDict) → AllUnknown d → SortedMap.Above seqno_key (fields d)
Above-of_unknown blank h = tt
Above-of_unknown (field k v d) h = (h.0.later, Above-of_unknown d h.1)

HasWritableRest-of_read :
    (lags : LaggedDiffs) (u : BtDict) → LagsRead none lags → UnknownRead u → HasWritableRest lags u
HasWritableRest-of_read lags u r h = record {
  lags_sorted = r.sorted;
  lags_load = r.load;
  unknown_sorted = h.sorted;
  unknown_later = Above-of_unknown u h.unknown;
  no_data_key = NoKey-of_unknown data_key u (λ k i. i.not_data) h.unknown;
  no_lags_key = NoKey-of_unknown lags_key u (λ k i. i.not_lags) h.unknown;
  no_diff_key = NoKey-of_unknown diff_key u (λ k i. i.not_diff) h.unknown;
  unknown_below = AllBelow-of_unknown u h.unknown;
}

module _ (x : Codec) where
  abbrev HeadRead : ℤ × Dict × BtDict × BtDict → Type 0
  HeadRead r = (IsOrdered r.1 × IsPruned r.1) × UnknownRead r.2

  abbrev decoded : Bytes → Result BtDict
  decoded serialized = elim (x.decode serialized) [
    | none ↦ err bt_deserialize_invalid
    | some d ↦ ok d
  ]

  read_head-HeadRead : (serialized : Bytes) → Ensures HeadRead (read_head x serialized)
  unfolding read_head
  read_head-HeadRead serialized = Ensures->>= _ (decoded serialized) _ (λ pairs.
      Ensures->>= _ (next_pair pairs) _ (λ a. Ensures->>= _ (read_int a.1) _ (λ s.
        Ensures->>= _ (guard (same a.0 seqno_key) config_parse_error) _ (λ u.
          Ensures-bind _ _ (load_unknowns blank a.2 seqno_key data_key) _
            (load_unknowns-UnknownRead seqno_key data_key keys_before_data blank a.2
              (record { unknown = tt; sorted = tt }))
            (λ b hb. Ensures->>= _ (next_pair b.1) _ (λ c. Ensures->>= _ (read_dict c.1) _ (λ d.
              Ensures->>= _ (guard (same c.0 data_key) config_parse_error) _ (λ w.
                Ensures-bind _ _ (parse_data d) _ (parse_data-Ensures d) (λ e he.
                  Ensures-bind _ _ (load_unknowns b.0 c.2 data_key lags_key) _
                    (load_unknowns-UnknownRead data_key lags_key keys_before_lags b.0 c.2 hb)
                    (λ f hf. Ensures-ok _ _ (he, hf)))))))))))

  read_lagged-LagsRead :
      (s lag : ℤ) (pairs : BtDict)
      → Ensures (λ (r : LaggedDiffs × BtDict). LagsRead none r.0) (read_lagged x s lag pairs)
  unfolding read_lagged optional_pair parse_lagged_diffs
  read_lagged-LagsRead s lag pairs = Ensures->>= _ (current_key x pairs) _ (λ k.
      Ensures-if _ (same k lags_key) _ _
        (λ p. Ensures->>= _ (next_pair pairs) _ (λ a.
          Ensures-bind (LagsRead none) _ (read_list a.1 >>= λ rows. parse_rows none s lag rows) _
            (Ensures->>= _ (read_list a.1) _ (λ rows. parse_rows-LagsRead none s lag rows))
            (λ lags h. Ensures-ok _ _ h)))
        (λ p. Ensures-ok _ _ (LagsRead-nil none)))

  read_diff-IsAccepted :
      (pairs : BtDict)
      → Ensures
          (λ (r : BtDict × BtDict). IsAccepted r.0)
          (optional_pair x diff_key (λ w. read_dict w >>= λ e. load_diff e) blank pairs)
  unfolding optional_pair
  read_diff-IsAccepted pairs = Ensures->>= _ (current_key x pairs) _ (λ k.
      Ensures-if _ (same k diff_key) _ _
        (λ p. Ensures->>= _ (next_pair pairs) _ (λ a.
          Ensures-bind IsAccepted _ (read_dict a.1 >>= λ e. load_diff e) _
            (Ensures->>= _ (read_dict a.1) _ (λ e. load_diff-IsAccepted e))
            (λ d h. Ensures-ok _ _ h)))
        (λ p. Ensures-ok _ _ IsAccepted-blank))

  abbrev TailRead : BtDict × BtDict × Option Bytes → Type 0
  TailRead r = IsAccepted r.0 × UnknownRead r.1

  read_tail-TailRead :
      (serialized : Bytes) (v : Verifier) (trust : Bool) (unknown pairs : BtDict)
      → UnknownRead unknown
      → Ensures TailRead (read_tail x serialized v trust unknown pairs)
  unfolding read_tail
  read_tail-TailRead serialized v trust unknown pairs h =
      Ensures-bind _ _ (load_unknowns unknown pairs lags_key diff_key) _
        (load_unknowns-UnknownRead lags_key diff_key keys_before_diff unknown pairs h)
        (λ a ha.
          Ensures-bind _ _ (optional_pair x diff_key _ blank a.1) _ (read_diff-IsAccepted a.1)
            (λ b hb.
              Ensures-bind _ _ (load_unknowns a.0 b.1 diff_key sig_key) _
                (load_unknowns-UnknownRead diff_key sig_key keys_before_sig a.0 b.1 ha)
                (λ c hc.
                  Ensures->>= _ (verify_config_sig (x.signed_part serialized) c.1 v trust) _
                    (λ sig. Ensures-ok _ _ (hb, hc)))))

  abbrev IsReadable : Contents → Type 0
  IsReadable c =
      (IsOrdered c.contents × IsPruned c.contents)
      × IsAccepted c.diff
      × LagsRead none c.lagged
      × UnknownRead c.unknown

  read_contents-IsReadable :
      (serialized : Bytes) (v : Verifier) (lag : ℤ) (trust : Bool)
      → Ensures IsReadable (read_contents x serialized v lag trust)
  unfolding read_contents
  read_contents-IsReadable serialized v lag trust =
      Ensures-bind _ _ (read_head x serialized) _ (read_head-HeadRead serialized) (λ a ha.
        Ensures-bind _ _ (read_lagged x a.0 lag a.3) _ (read_lagged-LagsRead a.0 lag a.3) (λ b hb.
          Ensures-bind _ _ (read_tail x serialized v trust a.2 b.1) _
            (read_tail-TailRead serialized v trust a.2 b.1 ha.1)
            (λ d hd. Ensures-ok _ _ (ha.0, hd.0, hb, hd.1))))

  -- A plain message that can be written, with the hash of its text.
  abbrev pub WasRead : Bytes → Message → Type 0
  WasRead serialized m =
      (m.orig_data_ ≡ none) × (m.seqno_hash_.1 ≡ x.blake2b serialized) × IsWritable m

  parse_message-Ensures :
      (serialized : Bytes) (v : Verifier) (s : Signer) (lag : ℤ) (trust : Bool)
      → Ensures (WasRead serialized) (parse_message x serialized v s lag trust)
  unfolding parse_message read_message
  parse_message-Ensures serialized v s lag trust = Ensures->>= _ (x.open_dict serialized) _ (λ u.
      rethrow-Ensures (WasRead serialized) _ (
        Ensures-bind IsReadable _ (read_contents x serialized v lag trust) _
          (read_contents-IsReadable serialized v lag trust)
          (λ c h. Ensures-ok _ _ (
            refl,
            refl,
            record {
              ordered = h.0.0;
              pruned = h.0.1;
              diff_loads = h.1;
              rest = HasWritableRest-of_read c.lagged c.unknown h.2 h.3;
            },
          ))))

  pub parse_message-WasRead :
      (serialized : Bytes) (v : Verifier) (s : Signer) (lag : ℤ) (trust : Bool) (m : Message)
      → parse_message x serialized v s lag trust ≡ ok m
      → WasRead serialized m
  parse_message-WasRead serialized v s lag trust m h =
      Ensures-eq_ok (WasRead serialized) _ m (parse_message-Ensures serialized v s lag trust) h
