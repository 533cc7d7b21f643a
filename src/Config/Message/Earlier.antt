-- ===== src/Config/Message/Earlier.antt =====
-- The lagged diffs of a message have lower sequence numbers than the message: reading ensures it,
-- and incrementing keeps it.
use libsession_util.Prelude.{
  length, ◌==◌, Option, none, some, sym, subst, ◌≡◌, refl, Bool, true, All,
}
use libsession_util.Prelude.Result.{
  guard-Ensures, ok, err, config_parse_error, Ensures, Ensures-ok, Ensures-err, Ensures->>=,
  Ensures-bind, Ensures-if, ◌>>=◌, guard,
}
use libsession_util.Prelude.Int.{ℤ, ltb_ℤ}
use libsession_util.Order.{same}
use libsession_util.Keys.{Bytes, bytes_ord, int_ord, pair_ord}
use libsession_util.Config.Wire.{load_diff}
use libsession_util.Config.Bt.{BtList, BtDict, nil, cons}
use libsession_util.Config.Message.{Codec, Message, SeqnoHash, LaggedDiffs, Verifier, Signer, seqno}
use libsession_util.Config.Message.Lagged.{
  read_text, read_dict, follows, parse_lagged_diffs, parse_rows, read_row, read_list, read_int,
  next, too_old,
}
use libsession_util.Config.Message.Read.{
  current_key, next_pair, lags_key, Contents, optional_pair, read_head, read_lagged, read_tail,
  read_contents, read_message, parse_message,
}
use libsession_util.Config.Message.Parties.{rethrow-Ensures}

abbrev pub LagsBelow : ℤ → LaggedDiffs → Type 0
LagsBelow s = All (λ e. ltb_ℤ e.0.0 s ≡ true)

abbrev pub HasEarlierLags : Message → Type 0
HasEarlierLags m = LagsBelow (seqno m) m.lagged_diffs_

abbrev IsAt : ℤ → SeqnoHash × BtDict → Type 0
IsAt s r = r.0.0 ≡ s

row_end-IsAt :
    (s : ℤ) (h : Bytes) (diff : BtDict) (l : BtList)
    → Ensures (IsAt s) (elim l [ nil ↦ ok ((s, h), diff) | cons v r ↦ err config_parse_error ])
row_end-IsAt s h diff nil = Ensures-ok _ _ refl
row_end-IsAt s h diff (cons v r) = Ensures-err _ _

read_row-IsAt :
    (last : Option SeqnoHash) (s : ℤ) (row : BtList) → Ensures (IsAt s) (read_row last s row)
unfolding read_row
read_row-IsAt last s row = Ensures->>= _ (next row) _ (λ a. Ensures->>= _ (read_text a.0) _ (λ hash.
    Ensures->>= _ (guard (length hash == 32) config_parse_error) _ (λ u.
      Ensures->>= _ (guard (follows last (s, hash)) config_parse_error) _ (λ w.
        Ensures->>= _ (next a.1) _ (λ b.
          Ensures->>= _ (read_dict b.0) _
            (λ pairs. Ensures->>= _ (load_diff pairs) _ (λ diff. row_end-IsAt s hash diff b.1)))))))

parse_rows-LagsBelow :
    (last : Option SeqnoHash) (curr lag : ℤ) (rows : BtList)
    → Ensures (LagsBelow curr) (parse_rows last curr lag rows)
unfolding parse_rows
parse_rows-LagsBelow last curr lag nil = Ensures-ok _ _ tt
parse_rows-LagsBelow last curr lag (cons v rows) = Ensures->>= _ (read_list v) _ (λ row.
    Ensures->>= _ (next row) _ (λ a. Ensures->>= _ (read_int a.0) _ (λ s.
      guard-Ensures _ (ltb_ℤ s curr) config_parse_error _ (λ p.
        Ensures-if _ (too_old curr lag s) _ _ (λ q. parse_rows-LagsBelow last curr lag rows)
          (λ q. Ensures-bind _ _ (read_row last s a.1) _ (read_row-IsAt last s a.1) (λ r hr.
            Ensures-bind _ _ (parse_rows (some r.0) curr lag rows) _
              (parse_rows-LagsBelow (some r.0) curr lag rows)
              (λ rest h. Ensures-ok _ _ (subst (λ i. ltb_ℤ i curr ≡ true) (sym hr) p, h))))))))

module _ (x : Codec) where
  read_lagged-LagsBelow :
      (s lag : ℤ) (pairs : BtDict)
      → Ensures (λ (r : LaggedDiffs × BtDict). LagsBelow s r.0) (read_lagged x s lag pairs)
  unfolding read_lagged optional_pair parse_lagged_diffs
  read_lagged-LagsBelow s lag pairs = Ensures->>= _ (current_key x pairs) _ (λ k.
      Ensures-if _ (same k lags_key) _ _
        (λ p. Ensures->>= _ (next_pair pairs) _ (λ a.
          Ensures-bind (LagsBelow s) _ (read_list a.1 >>= λ rows. parse_rows none s lag rows) _
            (Ensures->>= _ (read_list a.1) _ (λ rows. parse_rows-LagsBelow none s lag rows))
            (λ lags h. Ensures-ok _ _ h)))
        (λ p. Ensures-ok _ _ tt))

  -- The lagged diffs of a message that has been read have lower sequence numbers than the message.
  pub parse_message-HasEarlierLags :
      (conf : Bytes) (v : Verifier) (s : Signer) (lag : ℤ) (trust : Bool)
      → Ensures HasEarlierLags (parse_message x conf v s lag trust)
  unfolding parse_message read_message read_contents
  parse_message-HasEarlierLags conf v s lag trust = Ensures->>= _ (x.open_dict conf) _ (λ u.
      rethrow-Ensures HasEarlierLags _ (
        Ensures-bind (λ (c : Contents). LagsBelow c.number c.lagged) _
          (read_contents x conf v lag trust) _
          (Ensures->>= _ (read_head x conf) _ (λ a.
            Ensures-bind _ _ (read_lagged x a.0 lag a.3) _ (read_lagged-LagsBelow a.0 lag a.3)
              (λ b hb.
                Ensures->>= _ (read_tail x conf v trust a.2 b.1) _ (λ d. Ensures-ok _ _ hb))))
          (λ c hc. Ensures-ok _ _ hc)))
