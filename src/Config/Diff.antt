-- ===== src/Config/Diff.antt =====
-- `diff_impl` of src/config.cpp: the difference of two sets and of two dicts. The two walks keep
-- the source's `while` loops, with the iterators as the lists that are left; keys and elements
-- come in ascending order, so each insertion is at the end of what was collected before. A branch
-- that a `let` binds is computed only where it is taken.
pub mod Sets
pub mod Dicts
use libsession_util.Prelude.{
  Bool, true, false, not, Option, none, some, List, [], ◌∷◌, ◌&&◌, if◌then◌else◌,
}
use libsession_util.Order.{less, same}
use libsession_util.Keys.{Bytes, bytes_ord}
use libsession_util.Config.Data.{
  Scalar, Value, Dict, dict, set, scalar, empty, entry, is_nil, scalar_ord,
}
use libsession_util.Config.Bt.{
  BtValue, BtList, BtDict, text, list, subdict, nil, cons, blank, field, bt_scalars,
}

-- The sets `added` and `removed`.
pub record SetDiff : Type 0 where
  pub added : List Scalar
  pub removed : List Scalar

abbrev add : Scalar → SetDiff → SetDiff
add x d = record d { added = x ∷ d.added }

abbrev remove : Scalar → SetDiff → SetDiff
remove x d = record d { removed = x ∷ d.removed }

-- The loop of `diff_impl(const set& old, const set& new_)`.
unfoldable pub walk_sets : List Scalar → List Scalar → SetDiff
walk_sets [] [] = record { added = []; removed = [] }
walk_sets [] (n ∷ new) = add n (walk_sets [] new)
walk_sets (o ∷ old) [] = remove o (walk_sets old [])
walk_sets (o ∷ old) (n ∷ new) =
    let newer = add n (walk_sets (o ∷ old) new) in
    let older = remove o (walk_sets old (n ∷ new)) in
    let both = walk_sets old new in if less n o then newer else if less o n then older else both

unfoldable pub set_diff : SetDiff → Option BtList
set_diff d =
    if is_nil d.added && is_nil d.removed
    then none
    else some (cons (list (bt_scalars d.added)) (cons (list (bt_scalars d.removed)) nil))

unfoldable pub diff_sets : List Scalar → List Scalar → Option BtList
unfolding set_diff walk_sets
diff_sets old new = set_diff (walk_sets old new)

-- `*diff_impl(…)`: the source reads the optional unchecked. It is empty only for an empty
-- container, which no pruned data holds.
abbrev pub deref_set : Option BtList → BtList
deref_set none = nil
deref_set (some l) = l

-- `""` marks an assignment and `"-"` a removal.
abbrev pub assigned : BtValue
assigned = text []

abbrev pub deleted : BtValue
deleted = text (b'-' ∷ [])

-- The walk with one side empty: `diff_impl({}, d)` and `diff_impl(d, {})`.
unfoldable mutual
  unfolding diff_sets

  -- What the handler at the end of the loop assigns for a new key.
  pub new_value : Value → BtValue
  new_value (dict d) = subdict (new_fields d)
  new_value (set s) = list (deref_set (diff_sets [] s))
  new_value (scalar s) = assigned

  pub new_fields : Dict → BtDict
  new_fields empty = blank
  new_fields (entry k v d) = field k (new_value v) (new_fields d)

unfoldable mutual
  unfolding diff_sets

  -- What the second branch of the loop assigns for a key that is gone.
  pub old_value : Value → BtValue
  old_value (dict d) = subdict (old_fields d)
  old_value (set s) = list (deref_set (diff_sets s []))
  old_value (scalar s) = deleted

  pub old_fields : Dict → BtDict
  old_fields empty = blank
  old_fields (entry k v d) = field k (old_value v) (old_fields d)

-- `df.empty() ? nullopt : df`
abbrev pub nonempty : BtDict → Option BtDict
nonempty blank = none
nonempty (field k v d) = some (field k v d)

-- The third branch, for a key on both sides: nothing if the value is the same, and the handler
-- for a new key if the alternative of the variant has changed. `sub` is the walk over the two
-- dicts, if both values are dicts.
unfoldable pub changed_value : Value → Value → BtDict → Option BtValue
unfolding diff_sets new_value
changed_value (scalar o) (scalar n) sub = if same o n then none else some assigned
changed_value (dict o) (dict n) sub = elim (nonempty sub) [
  | none ↦ none
  | some d ↦ some (subdict d)
]
changed_value (set o) (set n) sub = elim (diff_sets o n) [ none ↦ none | some l ↦ some (list l) ]
changed_value _ n sub = some (new_value n)

-- `df[key] = …` for the changed value, if there is one.
abbrev pub field? : Bytes → Option BtValue → BtDict → BtDict
field? k none d = d
field? k (some v) d = field k v d

-- The loop of `diff_impl(const dict& old, const dict& new_)`.
unfoldable pub walk : Dict → Dict → BtDict
unfolding new_value old_value changed_value
walk empty new = new_fields new
walk (entry k v old) empty = old_fields (entry k v old)
walk (entry k (dict o) old) (entry j (dict n) new) =
    let newer = field j (subdict (new_fields n)) (walk (entry k (dict o) old) new) in
    let older = field k (subdict (old_fields o)) (walk old (entry j (dict n) new)) in
    let both = field? j (changed_value (dict o) (dict n) (walk o n)) (walk old new) in
    if less j k then newer else if less k j then older else both
walk (entry k v old) (entry j w new) =
    let newer = field j (new_value w) (walk (entry k v old) new) in
    let older = field k (old_value v) (walk old (entry j w new)) in
    let both = field? j (changed_value v w blank) (walk old new) in
    if less j k then newer else if less k j then older else both

unfoldable pub diff_impl : Dict → Dict → Option BtDict
unfolding walk
diff_impl old new = nonempty (walk old new)
