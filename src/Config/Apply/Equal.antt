-- ===== src/Config/Apply/Equal.antt =====
-- `diff_impl` gives `nullopt` exactly for equal dicts.
use libsession_util.Prelude.{◌≡◌, refl, subst, none, List, [], ◌∷◌, arith, ◌↔◌}
use libsession_util.Prelude.Result.{ok}
use libsession_util.Keys.{bytes_ord}
use libsession_util.Config.Data.{
  Scalar, Value, Dict, dict, set, scalar, empty, entry, scalar_ord, IsOrdered, IsPruned,
}
use libsession_util.Config.Bt.{BtDict, blank, field}
use libsession_util.Config.Diff.{walk_sets, diff_sets, changed_value, walk, diff_impl, nonempty}
use libsession_util.Config.Diff.Dicts.{sub_walk, walk-empty_left, walk-entry}
use libsession_util.Config.Apply.{apply_diff}
use libsession_util.Config.Apply.RoundTrip.{walk-Reaches}

-- The difference of a set, and of a dict, from itself is empty.
walk_sets_self : (s : List Scalar) → walk_sets s s ≡ record { added = []; removed = [] }
unfolding walk_sets
walk_sets_self [] = refl
walk_sets_self (x ∷ s) = rw (scalar_ord.irrefl x) (walk_sets_self s)

diff_sets_self : (s : List Scalar) → diff_sets s s ≡ none
unfolding diff_sets
diff_sets_self s = rw walk_sets_self

mutual
  unfolding sub_walk changed_value

  changed_value_self : (v : Value) → changed_value v v (sub_walk v v) ≡ none
  changed_value_self (dict d) = rw (walk_self d)
  changed_value_self (set s) = rw (diff_sets_self s, changed_value)
  changed_value_self (scalar s) = rw (scalar_ord.irrefl s)

  walk_self : (d : Dict) → walk d d ≡ blank
  walk_self empty = walk-empty_left empty
  walk_self (entry k v d) =
      rw walk-entry (rw (bytes_ord.irrefl k) (rw (changed_value_self v) (walk_self d)))

eq_of_walk :
    (old new : Dict) (diff : BtDict)
    → apply_diff old diff new ≡ ok new
    → nonempty diff ≡ none
    → old ≡ new
unfolding apply_diff
eq_of_walk old new blank e h = ground arith
eq_of_walk old new (field k v diff) e h = cc

-- There is a difference exactly if the two dicts differ.
pub diff_impl-none_iff :
    (old new : Dict)
    → IsOrdered old
    → IsPruned old
    → IsOrdered new
    → IsPruned new
    → (diff_impl old new ≡ none) ↔ (old ≡ new)
unfolding diff_impl
diff_impl-none_iff old new ho po hn pn = (
  eq_of_walk old new (walk old new) (walk-Reaches new hn pn old ho),
  λ e. subst (λ d. nonempty (walk old d) ≡ none) e (rw (walk_self old)),
)
