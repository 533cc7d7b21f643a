-- ===== src/Config/Message/RoundTrip/Parsed.antt =====
-- A message that the parsing constructor of `ConfigMessage` makes can be written again
-- (src/config.cpp).
use libsession_util.Prelude.{
  ◌≡◌, sym, ap, ap₂, subst, ◌∙◌, true, ◌==◌, Option, none, some, [], ◌∷◌, length, All, arith,
}
use libsession_util.Prelude.Result.{
  ok, err, ok_injective, >>=-eq-ok, guard-eq-ok, config_parse_error, bt_deserialize_invalid,
  Ensures, Ensures-ok, Ensures-err, Ensures->>=, Ensures-bind, Ensures-if, Ensures-of_eq,
  guard-Ensures,
}
use libsession_util.Prelude.Int.{ℤ, ltb_ℤ}
use libsession_util.Keys.{Bytes, bytes_ord, int_ord, pair_ord}
use libsession_util.Containers.SortedMap
use libsession_util.Config.Bt.{
  BtValue, BtList, BtDict, integer, text, list, subdict, nil, cons, blank, field,
}
use libsession_util.Config.Wire.{after, is_mode, check_set_diff, load_value, load_pairs, load_diff}
use libsession_util.Config.Message.{SeqnoHash, LaggedDiffs}
use libsession_util.Config.Message.Lagged.{
  next, read_list, read_int, read_text, read_dict, follows, too_old, read_row, parse_rows,
}
use libsession_util.Config.Message.RoundTrip.Lags.{IsLag, BehindLast}

-- What `load_diff` gives is what it was given.
mutual
  unfolding load_pairs

  load_value_same : (v w : BtValue) → load_value v ≡ ok w → w ≡ v
  load_value_same (text m) w h =
      sym (ok_injective (text m) w (guard-eq-ok (is_mode m) config_parse_error _ h).1)
  load_value_same (list l) w h =
      let (u, hu, h1) = >>=-eq-ok (check_set_diff l) _ h in sym (ok_injective (list l) w h1)
  load_value_same (subdict d) w h =
      let (r, hr, h1) = >>=-eq-ok (load_pairs none d) _ h in
      sym (ok_injective (subdict r) w h1) ∙ ap subdict (load_pairs_same none d r hr)
  load_value_same (integer i) w h = absurd (ground arith)

  load_pairs_same : (last : Option Bytes) (d r : BtDict) → load_pairs last d ≡ ok r → r ≡ d
  load_pairs_same last blank r h = sym (ok_injective blank r h)
  load_pairs_same last (field k v d) r h =
      let (ha, h1) = guard-eq-ok (after last k) bt_deserialize_invalid _ h in
      let (w, hw, h2) = >>=-eq-ok (load_value v) _ h1 in
      let (q, hq, h3) = >>=-eq-ok (load_pairs (some k) d) _ h2 in
      sym (ok_injective (field k w q) r h3)
      ∙ ap₂ (field k) (load_value_same v w hw) (load_pairs_same (some k) d q hq)

-- A diff that was accepted is accepted again.
abbrev pub IsAccepted : BtDict → Type 0
IsAccepted d = load_diff d ≡ ok d

pub load_diff-IsAccepted : (d : BtDict) → Ensures IsAccepted (load_diff d)
unfolding load_diff
load_diff-IsAccepted d = Ensures-of_eq IsAccepted (load_pairs none d) (λ r h.
    let e : r ≡ d = load_pairs_same none d r h in
    subst IsAccepted (sym e) (subst (λ t. load_pairs none d ≡ ok t) e h))

-- A row behind the rows that were read.
abbrev IsNextRow : Option SeqnoHash → SeqnoHash × BtDict → Type 0
IsNextRow last e = (follows last e.0 ≡ true) × IsLag e

row_end-IsNextRow :
    (last : Option SeqnoHash) (s : ℤ) (h : Bytes) (diff : BtDict) (l : BtList)
    → IsNextRow last ((s, h), diff)
    → Ensures
        (IsNextRow last)
        (elim l [ nil ↦ ok ((s, h), diff) | cons v r ↦ err config_parse_error ])
row_end-IsNextRow last s h diff nil p = Ensures-ok _ _ p
row_end-IsNextRow last s h diff (cons v r) p = Ensures-err _ _

read_row-IsNextRow :
    (last : Option SeqnoHash) (s : ℤ) (row : BtList)
    → Ensures (IsNextRow last) (read_row last s row)
unfolding read_row
read_row-IsNextRow last s row = Ensures->>= _ (next row) _ (λ a.
    Ensures->>= _ (read_text a.0) _ (λ hash.
      guard-Ensures _ (length hash == 32) config_parse_error _ (λ size.
        guard-Ensures _ (follows last (s, hash)) config_parse_error _ (λ behind.
          Ensures->>= _ (next a.1) _ (λ b. Ensures->>= _ (read_dict b.0) _ (λ pairs.
            Ensures-bind IsAccepted _ (load_diff pairs) _ (load_diff-IsAccepted pairs)
              (λ diff loads.
                row_end-IsNextRow last s hash diff b.1
                  (behind, (ground (arith, size), loads)))))))))

-- The lagged diffs that were read, behind the last one before them.
pub record LagsRead (last : Option SeqnoHash) (lags : LaggedDiffs) : Type 0 where
  pub sorted : SortedMap.IsSorted lags
  pub behind : BehindLast last lags
  pub load : All IsLag lags

LagsRead-cons :
    (last : Option SeqnoHash) (e : SeqnoHash × BtDict) (lags : LaggedDiffs)
    → IsNextRow last e
    → LagsRead (some e.0) lags
    → LagsRead last (e ∷ lags)
LagsRead-cons none e lags n r = record {
  sorted = (r.behind, r.sorted);
  behind = tt;
  load = (n.1, r.load);
}
LagsRead-cons (some k) e lags n r = record {
  sorted = (r.behind, r.sorted);
  behind = (n.0, SortedMap.Above-trans k e.0 lags n.0 r.behind);
  load = (n.1, r.load);
}

pub LagsRead-nil : (last : Option SeqnoHash) → LagsRead last []
LagsRead-nil none = record { sorted = tt; behind = tt; load = tt }
LagsRead-nil (some k) = record { sorted = tt; behind = tt; load = tt }

pub parse_rows-LagsRead :
    (last : Option SeqnoHash) (curr lag : ℤ) (rows : BtList)
    → Ensures (LagsRead last) (parse_rows last curr lag rows)
unfolding parse_rows
parse_rows-LagsRead last curr lag nil = Ensures-ok _ _ (LagsRead-nil last)
parse_rows-LagsRead last curr lag (cons v rows) = Ensures->>= _ (read_list v) _ (λ row.
    Ensures->>= _ (next row) _ (λ a. Ensures->>= _ (read_int a.0) _ (λ s.
      guard-Ensures _ (ltb_ℤ s curr) config_parse_error _ (λ p.
        Ensures-if _ (too_old curr lag s) _ _ (λ q. parse_rows-LagsRead last curr lag rows)
          (λ q. Ensures-bind _ _ (read_row last s a.1) _ (read_row-IsNextRow last s a.1) (λ r hr.
            Ensures-bind _ _ (parse_rows (some r.0) curr lag rows) _
              (parse_rows-LagsRead (some r.0) curr lag rows)
              (λ rest h. Ensures-ok _ _ (LagsRead-cons last r rest hr h))))))))
