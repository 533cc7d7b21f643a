-- ===== src/Config/Message/RoundTrip/Diffs.antt =====
-- The diff of two dicts is one that `load_diff` accepts (src/config.cpp).
use libsession_util.Prelude.{
  ◌≡◌, refl, sym, Bool, true, false, Option, none, some, List, [], ◌∷◌, ◌&&◌, Bool-cases, inl, inr,
  if◌then◌else◌, arith,
}
use libsession_util.Prelude.Result.{ok}
use libsession_util.Order.{less, same}
use libsession_util.Keys.{Bytes, bytes_ord, list_lt}
use libsession_util.Containers.SortedMap
use libsession_util.Containers.SortedSet
use libsession_util.Config.Data.{
  Scalar, Value, Dict, dict, set, scalar, empty, entry, is_nil, scalar_ord, IsOrdered,
  IsOrderedValue, IsPruned, IsPrunedValue, IsOrdered-HasSortedKeys,
}
use libsession_util.Config.Bt.{
  BtValue, BtList, BtDict, list, subdict, nil, cons, blank, field, fields, bt_scalars,
}
use libsession_util.Config.Diff.{
  SetDiff, assigned, deleted, walk_sets, set_diff, diff_sets, deref_set, new_value, new_fields,
  old_value, old_fields, nonempty, changed_value, field?, walk, diff_impl,
}
use libsession_util.Config.Diff.Sets.{walk_sets-IsSorted}
use libsession_util.Config.Diff.Dicts.{
  walk-entry, sub_walk, walk-IsSorted, walk-empty_left, walk-empty_right,
}
use libsession_util.Config.Apply.RoundTrip.{value_or_blank, value_or_blank-nonempty}
use libsession_util.Config.Wire.{after, check_set_diff, load_value, load_pairs, load_diff}
use libsession_util.Config.Wire.Order.{check_sublist-bt_scalars}

-- The reader accepts the value at every key.
abbrev AllLoad : BtDict → Type 0
AllLoad blank = Unit
AllLoad (field k v d) = (load_value v ≡ ok v) × AllLoad d

abbrev BehindKey : Option Bytes → BtDict → Type 0
BehindKey none d = Unit
BehindKey (some k) d = SortedMap.Above k (fields d)

after_behind :
    (last : Option Bytes) (k : Bytes) (v : BtValue) (d : BtDict)
    → BehindKey last (field k v d)
    → after last k ≡ true
after_behind none k v d h = refl
after_behind (some j) k v d h = h.0

load_pairs_lem :
    (last : Option Bytes) (d : BtDict)
    → BehindKey last d
    → SortedMap.IsSorted (fields d)
    → AllLoad d
    → load_pairs last d ≡ ok d
unfolding load_pairs
load_pairs_lem last blank b s a = refl
load_pairs_lem last (field k v d) b s a =
    rw (after_behind last k v d b, a.0) (rw (load_pairs_lem (some k) d s.0 s.1 a.1) refl)

-- A set diff that is there is accepted.
set_diff_loads :
    (d : SetDiff) (l : BtList)
    → SortedSet.IsSorted d.added
    → SortedSet.IsSorted d.removed
    → set_diff d ≡ some l
    → load_value (list l) ≡ ok (list l)
unfolding load_pairs check_set_diff set_diff
set_diff_loads d l a r h = elim (Bool-cases (is_nil d.added && is_nil d.removed)) [
  | inl e ↦ absurd (ground (arith, e, h))
  | inr e ↦
      let p : l ≡ cons (list (bt_scalars d.added)) (cons (list (bt_scalars d.removed)) nil) =
        ground (arith, e, h) in
      rw p (rw (check_sublist-bt_scalars d.added a, check_sublist-bt_scalars d.removed r) refl)
]

diff_sets_loads :
    (old new : List Scalar) (l : BtList)
    → SortedSet.IsSorted old
    → SortedSet.IsSorted new
    → diff_sets old new ≡ some l
    → load_value (list l) ≡ ok (list l)
unfolding diff_sets
diff_sets_loads old new l ho hn h =
    let s = walk_sets-IsSorted old new ho hn in set_diff_loads (walk_sets old new) l s.0 s.1 h

new_set_loads :
    (s : List Scalar)
    → SortedSet.IsSorted s
    → is_nil s ≡ false
    → load_value (list (deref_set (diff_sets [] s))) ≡ ok (list (deref_set (diff_sets [] s)))
unfolding diff_sets set_diff walk_sets
new_set_loads [] h p = absurd (ground (arith, p))
new_set_loads (n ∷ s) h p = diff_sets_loads [] (n ∷ s) _ tt h refl

removed_is_some :
    (d : SetDiff) → is_nil d.removed ≡ false → set_diff d ≡ some (deref_set (set_diff d))
unfolding set_diff
removed_is_some d h = elim (Bool-cases (is_nil d.added && is_nil d.removed)) [
  | inl e ↦ absurd (ground (arith, e, h))
  | inr e ↦ rw e refl
]

old_set_loads :
    (s : List Scalar)
    → SortedSet.IsSorted s
    → is_nil s ≡ false
    → load_value (list (deref_set (diff_sets s []))) ≡ ok (list (deref_set (diff_sets s [])))
unfolding diff_sets walk_sets
old_set_loads [] h p = absurd (ground (arith, p))
old_set_loads (o ∷ s) h p =
    diff_sets_loads (o ∷ s) [] _ h tt (removed_is_some (walk_sets (o ∷ s) []) refl)

assigned_loads : load_value assigned ≡ ok assigned
unfolding load_pairs list_lt
assigned_loads = refl

deleted_loads : load_value deleted ≡ ok deleted
unfolding load_pairs list_lt
deleted_loads = refl

subdict_loads :
    (d : BtDict)
    → SortedMap.IsSorted (fields d)
    → AllLoad d
    → load_value (subdict d) ≡ ok (subdict d)
unfolding load_pairs
subdict_loads d s a = rw (load_pairs_lem none d tt s a) refl

new_fields-IsSorted : (d : Dict) → IsOrdered d → SortedMap.IsSorted (fields (new_fields d))
new_fields-IsSorted d h =
    rw (sym (walk-empty_left d)) (walk-IsSorted empty d tt (IsOrdered-HasSortedKeys d h))

mutual
  unfolding new_value

  new_value_loads :
      (v : Value) → IsOrderedValue v → IsPrunedValue v → load_value (new_value v) ≡ ok (new_value v)
  new_value_loads (dict d) o p =
      subdict_loads (new_fields d) (new_fields-IsSorted d o) (new_fields_load d o p.1)
  new_value_loads (set s) o p = new_set_loads s o p
  new_value_loads (scalar s) o p = assigned_loads

  new_fields_load : (d : Dict) → IsOrdered d → IsPruned d → AllLoad (new_fields d)
  new_fields_load empty o p = tt
  new_fields_load (entry k v d) o p = (new_value_loads v o.1 p.0, new_fields_load d o.2 p.1)

old_fields-IsSorted : (d : Dict) → IsOrdered d → SortedMap.IsSorted (fields (old_fields d))
old_fields-IsSorted d h =
    rw (sym (walk-empty_right d)) (walk-IsSorted d empty (IsOrdered-HasSortedKeys d h) tt)

mutual
  unfolding old_value

  old_value_loads :
      (v : Value) → IsOrderedValue v → IsPrunedValue v → load_value (old_value v) ≡ ok (old_value v)
  old_value_loads (dict d) o p =
      subdict_loads (old_fields d) (old_fields-IsSorted d o) (old_fields_load d o p.1)
  old_value_loads (set s) o p = old_set_loads s o p
  old_value_loads (scalar s) o p = deleted_loads

  old_fields_load : (d : Dict) → IsOrdered d → IsPruned d → AllLoad (old_fields d)
  old_fields_load empty o p = tt
  old_fields_load (entry k v d) o p = (old_value_loads v o.1 p.0, old_fields_load d o.2 p.1)

-- The value at a key on both sides is accepted, if there is one.
abbrev SlotLoads : Option BtValue → Type 0
SlotLoads none = Unit
SlotLoads (some v) = load_value v ≡ ok v

field?-AllLoad :
    (k : Bytes) (v : Option BtValue) (d : BtDict) → SlotLoads v → AllLoad d → AllLoad (field? k v d)
field?-AllLoad k none d h a = a
field?-AllLoad k (some v) d h a = (h, a)

diff_sets_slot :
    (l : Option BtList)
    → ((x : BtList) → l ≡ some x → load_value (list x) ≡ ok (list x))
    → SlotLoads (elim l [ none ↦ none | some x ↦ some (list x) ])
diff_sets_slot none h = tt
diff_sets_slot (some x) h = h x refl

subdict_slot :
    (d : BtDict)
    → SortedMap.IsSorted (fields d)
    → AllLoad d
    → SlotLoads (elim (nonempty d) [ none ↦ none | some x ↦ some (subdict x) ])
subdict_slot blank s a = tt
subdict_slot (field k v d) s a = subdict_loads (field k v d) s a

scalar_slot : (b : Bool) → SlotLoads (if b then none else some assigned)
scalar_slot true = tt
scalar_slot false = assigned_loads

-- What is known of the walk over two values, if both are dicts.
abbrev SubLoads : Value → Value → Type 0
SubLoads (dict o) (dict n) = AllLoad (walk o n)
SubLoads _ n = Unit

changed_value_loads :
    (v w : Value)
    → IsOrderedValue v
    → IsOrderedValue w
    → IsPrunedValue w
    → SubLoads v w
    → SlotLoads (changed_value v w (sub_walk v w))
unfolding changed_value sub_walk
changed_value_loads (scalar o) (scalar n) ov ow pw h = scalar_slot (same o n)
changed_value_loads (dict o) (dict n) ov ow pw h =
    subdict_slot (walk o n)
      (walk-IsSorted o n (IsOrdered-HasSortedKeys o ov) (IsOrdered-HasSortedKeys n ow)) h
changed_value_loads (set o) (set n) ov ow pw h =
    diff_sets_slot (diff_sets o n) (λ l. diff_sets_loads o n l ov ow)
changed_value_loads (scalar o) (dict n) ov ow pw h = new_value_loads (dict n) ow pw
changed_value_loads (scalar o) (set n) ov ow pw h = new_value_loads (set n) ow pw
changed_value_loads (dict o) (scalar n) ov ow pw h = new_value_loads (scalar n) ow pw
changed_value_loads (dict o) (set n) ov ow pw h = new_value_loads (set n) ow pw
changed_value_loads (set o) (scalar n) ov ow pw h = new_value_loads (scalar n) ow pw
changed_value_loads (set o) (dict n) ov ow pw h = new_value_loads (dict n) ow pw

mutual
  inner_walk_loads :
      (v w : Value)
      → IsOrderedValue v
      → IsPrunedValue v
      → IsOrderedValue w
      → IsPrunedValue w
      → SubLoads v w
  inner_walk_loads (dict o) (dict n) ov pv ow pw = walk_loads o n ov pv.1 ow pw.1
  inner_walk_loads (dict o) (set n) ov pv ow pw = tt
  inner_walk_loads (dict o) (scalar n) ov pv ow pw = tt
  inner_walk_loads (set o) w ov pv ow pw = tt
  inner_walk_loads (scalar o) w ov pv ow pw = tt

  walk_loads :
      (old new : Dict)
      → IsOrdered old
      → IsPruned old
      → IsOrdered new
      → IsPruned new
      → AllLoad (walk old new)
  walk_loads empty new oo po on pn = rw (walk-empty_left new) (new_fields_load new on pn)
  walk_loads (entry k v old) empty oo po on pn =
      rw (walk-empty_right (entry k v old)) (old_fields_load (entry k v old) oo po)
  walk_loads (entry k v old) (entry j w new) oo po on pn =
      let newer = walk_loads (entry k v old) new oo po on.2 pn.1 in
      let older = walk_loads old (entry j w new) oo.2 po.1 on pn in
      let both = walk_loads old new oo.2 po.1 on.2 pn.1 in
      let sub = inner_walk_loads v w oo.1 po.0 on.1 pn.0 in
      rw walk-entry (elim (Bool-cases (less j k)) [
        | inl p ↦ rw p (new_value_loads w on.1 pn.0, newer)
        | inr p ↦ elim (Bool-cases (less k j)) [
          | inl q ↦ rw (p, q) (old_value_loads v oo.1 po.0, older)
          | inr q ↦
              rw (p, q)
                (field?-AllLoad j (changed_value v w (sub_walk v w)) (walk old new)
                  (changed_value_loads v w oo.1 on.1 pn.0 sub) both)
        ]
      ])

-- The reader accepts the diff of two dicts that are in order and hold no empty container.
pub load_diff-diff_impl :
    (old new : Dict)
    → IsOrdered old
    → IsPruned old
    → IsOrdered new
    → IsPruned new
    → load_diff (value_or_blank (diff_impl old new)) ≡ ok (value_or_blank (diff_impl old new))
unfolding load_diff diff_impl
load_diff-diff_impl old new oo po on pn = rw (value_or_blank-nonempty (walk old new)) (
    load_pairs_lem none (walk old new) tt
      (walk-IsSorted old new (IsOrdered-HasSortedKeys old oo) (IsOrdered-HasSortedKeys new on))
      (walk_loads old new oo po on pn))
