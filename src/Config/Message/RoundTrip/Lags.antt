-- ===== src/Config/Message/RoundTrip/Lags.antt =====
-- The lagged diffs of a message: `parse_lagged_diffs` undoes the writing of the rows (src/config.cpp).
use libsession_util.Prelude.{
  ◌≡◌, refl, true, false, ◌||◌, ◌==◌, Option, none, some, [], ◌∷◌, length, All, if◌then◌else◌,
  Bool-cases, inl, inr, arith,
}
use libsession_util.Prelude.Result.{ok}
use libsession_util.Prelude.Int.{ℤ, leb_ℤ, ltb_ℤ}
use libsession_util.Keys.{bytes_ord, int_ord, pair_ord}
use libsession_util.Containers.SortedMap
use libsession_util.Config.Bt.{BtDict}
use libsession_util.Config.Wire.{load_diff}
use libsession_util.Config.Message.{SeqnoHash, LaggedDiffs}
use libsession_util.Config.Message.Lagged.{follows, too_old, read_row, parse_rows}
use libsession_util.Config.Message.Write.{lag_rows}

-- The lagged diffs that the lag of a message keeps: those below its number and not too old.
abbrev pub in_window : ℤ → ℤ → LaggedDiffs → LaggedDiffs
in_window curr lag [] = []
in_window curr lag ((key, diff) ∷ lags) =
    if too_old curr lag key.0 || leb_ℤ curr key.0
    then in_window curr lag lags
    else (key, diff) ∷ in_window curr lag lags

-- A lagged diff has a hash of 32 bytes, and is accepted as a diff.
abbrev pub IsLag : SeqnoHash × BtDict → Type 0
IsLag e = (length e.0.1 ≡ 32) × (load_diff e.1 ≡ ok e.1)

abbrev pub BehindLast : Option SeqnoHash → LaggedDiffs → Type 0
BehindLast none lags = Unit
BehindLast (some k) lags = SortedMap.Above k lags

BehindLast-tail :
    (last : Option SeqnoHash) (e : SeqnoHash × BtDict) (lags : LaggedDiffs)
    → BehindLast last (e ∷ lags)
    → BehindLast last lags
BehindLast-tail none e lags h = tt
BehindLast-tail (some k) e lags h = h.1

follows_last :
    (last : Option SeqnoHash) (e : SeqnoHash × BtDict) (lags : LaggedDiffs)
    → BehindLast last (e ∷ lags)
    → follows last e.0 ≡ true
follows_last none e lags h = refl
follows_last (some k) e lags h = h.0

pub parse_rows-lag_rows :
    (curr lag : ℤ) (last : Option SeqnoHash) (lags : LaggedDiffs)
    → SortedMap.IsSorted lags
    → BehindLast last lags
    → All IsLag lags
    → parse_rows last curr lag (lag_rows curr lag lags) ≡ ok (in_window curr lag lags)
unfolding parse_rows lag_rows
parse_rows-lag_rows curr lag last [] s b a = refl
parse_rows-lag_rows curr lag last (((n, h), d) ∷ lags) s b a =
    elim (Bool-cases (too_old curr lag n || leb_ℤ curr n)) [
      | inl e ↦
          rw (e, lag_rows)
            (parse_rows-lag_rows curr lag last lags s.1 (BehindLast-tail last ((n, h), d) lags b)
              a.1)
      | inr e ↦
          let earlier : ltb_ℤ n curr ≡ true = ground arith in
          let recent : too_old curr lag n ≡ false = ground (arith, e) in
          let size : (length h == 32) ≡ true = ground (arith, a.0.0) in
          rw (e, lag_rows)
            (rw (earlier, recent)
              (rw (size, follows_last last ((n, h), d) lags b, a.0.1, read_row)
                (rw (parse_rows-lag_rows curr lag (some (n, h)) lags s.1 s.0 a.1) refl)))
    ]
