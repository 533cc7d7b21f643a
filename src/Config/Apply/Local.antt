-- ===== src/Config/Apply/Local.antt =====
-- Applying a diff changes no key that the diff does not name, whatever the data and the source.
use libsession_util.Prelude.{◌≡◌, ap, sym, subst, ◌∙◌, false, none, arith}
use libsession_util.Prelude.Result.{ok, >>=-eq-ok, ok_injective}
use libsession_util.Order.{same}
use libsession_util.Keys.{Bytes, bytes_ord}
use libsession_util.Config.Data.{Dict, find, HasSortedKeys}
use libsession_util.Config.Bt.{BtDict, blank, field, bt_find, bt_find-field}
use libsession_util.Config.Apply.{apply_value, apply_diff, put_back}
use libsession_util.Config.Apply.Replay.{find-put_back, put_back-HasSortedKeys}

-- A diff that succeeds leaves every key that it does not name as it was, and keeps the order of
-- the keys.
pub apply_diff-find_other :
    (d : Dict) (diff : BtDict) (source r : Dict) (k : Bytes)
    → HasSortedKeys d
    → apply_diff d diff source ≡ ok r
    → bt_find k diff ≡ none
    → (find k r ≡ find k d) × HasSortedKeys r
unfolding apply_diff
apply_diff-find_other d blank source r k h e n =
    let q : d ≡ r = ok_injective d r e in (ap (find k) (sym q), subst HasSortedKeys q h)
apply_diff-find_other d (field j v diff) source r k h e n =
    let (slot, first, rest) =
      >>=-eq-ok (apply_value (find j d) v (find j source))
        (λ s. apply_diff (put_back j s d) diff source) e in
    let g = bt_find-field k j v diff in
    let ne : same k j ≡ false = ground arith in
    let ih =
      apply_diff-find_other (put_back j slot d) diff source r k (put_back-HasSortedKeys j slot d h)
        rest (ground arith) in
    (ih.0 ∙ (find-put_back k j slot d h ∙ (rw ne)), ih.1)
