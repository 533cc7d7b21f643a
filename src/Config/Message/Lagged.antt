-- ===== src/Config/Message/Lagged.antt =====
-- `parse_lagged_diffs` of src/config.cpp.
use libsession_util.Prelude.{Bool, true, Option, none, some, [], ◌∷◌, ◌==◌, length, if◌then◌else◌}
use libsession_util.Prelude.Result.{
  Result, ok, err, guard, config_parse_error, bt_deserialize_invalid, ◌>>=◌, ◌>>◌,
}
use libsession_util.Prelude.Int.{ℤ, leb_ℤ, ltb_ℤ, ◌-ℤ◌}
use libsession_util.Order.{less}
use libsession_util.Keys.{Bytes, bytes_ord, int_ord, pair_ord, list_lt}
use libsession_util.Config.Bt.{BtValue, BtList, BtDict, integer, text, list, subdict, nil, cons}
use libsession_util.Config.Wire.{load_diff}
use libsession_util.Config.Message.{SeqnoHash, LaggedDiffs}

-- The elements of one row: a consumer's read of a wrong type throws.
abbrev pub read_list : BtValue → Result BtList
read_list (list l) = ok l
read_list _ = err bt_deserialize_invalid

abbrev pub next : BtList → Result (BtValue × BtList)
next nil = err bt_deserialize_invalid
next (cons v l) = ok (v, l)

abbrev pub read_int : BtValue → Result ℤ
read_int (integer i) = ok i
read_int _ = err bt_deserialize_invalid

abbrev pub read_text : BtValue → Result Bytes
read_text (text s) = ok s
read_text _ = err bt_deserialize_invalid

abbrev pub read_dict : BtValue → Result BtDict
read_dict (subdict d) = ok d
read_dict _ = err bt_deserialize_invalid

-- `lagged_diffs.empty() || seqno_hash > rbegin()->first`
abbrev pub follows : Option SeqnoHash → SeqnoHash → Bool
follows none s = true
follows (some last) s = less last s

-- `seqno <= curr_seqno - lag`
abbrev pub too_old : ℤ → ℤ → ℤ → Bool
too_old curr lag s = leb_ℤ s (curr -ℤ lag)

-- The rest of a row that is not too old, behind its sequence number.
unfoldable pub read_row : Option SeqnoHash → ℤ → BtList → Result (SeqnoHash × BtDict)
unfolding load_diff
read_row last s row = do
  (h, row1) ← next row
  hash ← read_text h
  guard (length hash == 32) config_parse_error
  guard (follows last (s, hash)) config_parse_error
  (d, row2) ← next row1
  pairs ← read_dict d
  diff ← load_diff pairs
  elim row2 [ nil ↦ ok ((s, hash), diff) | cons v l ↦ err config_parse_error ]

-- The loop over the rows: a row at or above the current sequence number is refused, and one that
-- is too old is dropped unread.
unfoldable pub parse_rows : Option SeqnoHash → ℤ → ℤ → BtList → Result LaggedDiffs
unfolding read_row list_lt ◌-ℤ◌
parse_rows last curr lag nil = ok []
parse_rows last curr lag (cons v rows) = do
  row ← read_list v
  (n, row1) ← next row
  s ← read_int n
  guard (ltb_ℤ s curr) config_parse_error
  let dropped = parse_rows last curr lag rows
  let kept = (do
    (key, diff) ← read_row last s row1
    rest ← parse_rows (some key) curr lag rows
    ok ((key, diff) ∷ rest))
  if too_old curr lag s then dropped else kept

unfoldable pub parse_lagged_diffs : BtList → ℤ → ℤ → Result LaggedDiffs
unfolding parse_rows
parse_lagged_diffs rows curr lag = parse_rows none curr lag rows
