-- ===== src/Tests/DiffTests.antt =====
-- Pruning, differences and their application at concrete inputs.
use libsession_util.Prelude.{◌≡◌, refl, none, some, List, [], ◌∷◌, ◌↔◌, false}
use libsession_util.Prelude.Int.{pos}
use libsession_util.Prelude.Result.{ok}
use libsession_util.Keys.{Bytes, list_lt}
use libsession_util.Containers.SortedMap
use libsession_util.Config.Data.{
  Dict, dict, set, scalar, int, string, empty, entry, find, erase, HasSortedKeys, IsOrdered,
  IsPruned, IsOrdered-HasSortedKeys,
}
use libsession_util.Config.Bt.{
  BtDict, integer, text, list, subdict, nil, cons, blank, field, bt_find,
}
use libsession_util.Config.Prune.{prune}
use libsession_util.Config.Prune.Laws
use libsession_util.Config.Prune.Laws.{leaf}
use libsession_util.Config.Diff.{diff_impl}
use libsession_util.Config.Apply.{apply_diff}
use libsession_util.Config.Apply.RoundTrip
use libsession_util.Config.Apply.RoundTrip.{value_or_blank}
use libsession_util.Config.Apply.Equal
use libsession_util.Config.Apply.Local
use libsession_util.Tests.Examples.{
  key_a, key_b, key_c, before, later, before-IsOrdered, before-IsPruned, later-IsOrdered,
  later-IsPruned,
}

-- What `diff_impl` gives for the two versions.
diff_runs :
    diff_impl before later
    ≡ some (
        field key_a (text (b'-' ∷ [])) (
          field key_b
            (list
              (cons (list (cons (text key_a) nil)) (cons (list (cons (integer (pos 2)) nil)) nil)))
            (field key_c
              (subdict (
                field key_a (text []) (
                  field key_b
                    (list (cons (list (cons (integer (pos 1)) nil)) (cons (list nil) nil)))
                    blank)))
              blank)))
unfolding diff_impl list_lt
diff_runs = refl

apply_diff-diff_impl_example :
    apply_diff before (value_or_blank (diff_impl before later)) later ≡ ok later
apply_diff-diff_impl_example =
    RoundTrip.apply_diff-diff_impl before later before-IsOrdered before-IsPruned later-IsOrdered
      later-IsPruned

versions_differ : (diff_impl before later ≡ none) ↔ (before ≡ later)
versions_differ =
    Equal.diff_impl-none_iff before later before-IsOrdered before-IsPruned later-IsOrdered
      later-IsPruned

-- `before` with a set and a dict that are empty.
abbrev unpruned : Dict
unpruned = entry key_a (set []) (entry key_b (dict (entry key_c (dict empty) empty)) empty)

prune_test :
    IsPruned (prune before).result
    × IsOrdered (prune before).result
    × ((path : List Bytes) → leaf path (dict (prune before).result) ≡ leaf path (dict before))
prune_test = Laws.prune_lem before before-IsOrdered

unpruned_iff : ((prune unpruned).removed_subkeys ≡ false) ↔ ((prune unpruned).result ≡ unpruned)
unpruned_iff = Laws.removed_subkeys-false_iff unpruned

prune_runs : (prune unpruned).result ≡ empty
unfolding prune
prune_runs = refl

-- A diff that names only `a`.
abbrev of_a : BtDict
of_a = field key_a (text (b'-' ∷ [])) blank

abbrev without_a : Dict
without_a =
    entry key_b (set (int (pos 2) ∷ int (pos 3) ∷ []))
      (entry key_c (dict (entry key_a (scalar (string key_b)) empty)) empty)

apply_of_a : apply_diff before of_a empty ≡ ok without_a
unfolding apply_diff find erase SortedMap.find SortedMap.erase
apply_of_a = refl

other_key_kept : (find key_b without_a ≡ find key_b before) × HasSortedKeys without_a
unfolding list_lt bt_find SortedMap.find
other_key_kept =
    Local.apply_diff-find_other before of_a empty without_a key_b
      (IsOrdered-HasSortedKeys before before-IsOrdered) apply_of_a refl
