-- ===== src/Config/Diff/Dicts.antt =====
-- The difference of two dicts, key by key: what the walk assigns at a key depends on the two
-- values at that key alone.
use libsession_util.Prelude.{
  ◌≡◌, refl, subst, true, Option, none, some, arith, if◌then◌else◌, Bool-cases, inl, inr,
}
use libsession_util.Order.{less, same}
use libsession_util.Keys.{Bytes, bytes_ord}
use libsession_util.Containers
use libsession_util.Containers.SortedMap.{Above, Above-trans}
use libsession_util.Config.Data.{
  Value, Dict, dict, set, scalar, empty, entry, items, find, find-entry, find_of_Above, find-empty,
  HasSortedKeys,
}
use libsession_util.Config.Bt.{BtValue, BtDict, blank, field, fields, bt_find, bt_find-field}
use libsession_util.Config.Diff.{
  new_value, new_fields, old_value, old_fields, changed_value, field?, walk,
}

-- The walk over the two dicts, if both values are dicts.
unfoldable pub sub_walk : Value → Value → BtDict
unfolding walk
sub_walk (dict o) (dict n) = walk o n
sub_walk _ n = blank

-- The step of the walk, at any two values.
pub walk-entry :
    (k j : Bytes) (v w : Value) (old new : Dict)
    → walk (entry k v old) (entry j w new) ≡ (
        if less j k
        then field j (new_value w) (walk (entry k v old) new)
        else if less k j
        then field k (old_value v) (walk old (entry j w new))
        else field? j (changed_value v w (sub_walk v w)) (walk old new))
unfolding sub_walk
walk-entry k j (dict o) (dict n) old new = ground arith
walk-entry k j (dict o) _ old new = ground arith
walk-entry k j (set s) w old new = ground arith
walk-entry k j (scalar s) w old new = ground arith

-- What the difference says of a key, from the two values at it.
unfoldable pub slot_diff : Option Value → Option Value → Option BtValue
slot_diff none none = none
slot_diff none (some n) = some (new_value n)
slot_diff (some o) none = some (old_value o)
slot_diff (some o) (some n) = changed_value o n (sub_walk o n)

find-new_fields :
    (k : Bytes) (new : Dict) → bt_find k (new_fields new) ≡ slot_diff none (find k new)
unfolding new_fields slot_diff
find-new_fields k empty = unfold bt_find find Containers.SortedMap.find in refl
find-new_fields k (entry j w new) = ground (
  arith,
  find-new_fields k new,
  bt_find-field k j (new_value w) (new_fields new),
  find-entry k j w new,
)

find-old_fields :
    (k : Bytes) (old : Dict) → bt_find k (old_fields old) ≡ slot_diff (find k old) none
unfolding old_fields slot_diff
find-old_fields k empty = unfold bt_find find Containers.SortedMap.find in refl
find-old_fields k (entry j w old) = ground (
  arith,
  find-old_fields k old,
  bt_find-field k j (old_value w) (old_fields old),
  find-entry k j w old,
)

new_fields-Above :
    (k : Bytes) (new : Dict) → Above k (items new) → Above k (fields (new_fields new))
unfolding new_fields
new_fields-Above k empty h = tt
new_fields-Above k (entry j w new) h = (h.0, new_fields-Above k new h.1)

old_fields-Above :
    (k : Bytes) (old : Dict) → Above k (items old) → Above k (fields (old_fields old))
unfolding old_fields
old_fields-Above k empty h = tt
old_fields-Above k (entry j w old) h = (h.0, old_fields-Above k old h.1)

field?-Above :
    (k j : Bytes) (v : Option BtValue) (d : BtDict)
    → less k j ≡ true
    → Above k (fields d)
    → Above k (fields (field? j v d))
field?-Above k j none d p h = h
field?-Above k j (some v) d p h = (p, h)

-- What is below both dicts is below their difference.
pub walk-Above :
    (k : Bytes) (old new : Dict)
    → Above k (items old)
    → Above k (items new)
    → Above k (fields (walk old new))
walk-Above k empty new ho hn = unfold walk in new_fields-Above k new hn
walk-Above k (entry j v old) empty ho hn = unfold walk in old_fields-Above k (entry j v old) ho
walk-Above k (entry j v old) (entry i w new) ho hn = rw walk-entry (elim (Bool-cases (less i j)) [
  | inl p ↦ rw p (hn.0, walk-Above k (entry j v old) new ho hn.1)
  | inr p ↦ elim (Bool-cases (less j i)) [
    | inl q ↦ rw (p, q) (ho.0, walk-Above k old (entry i w new) ho.1 hn)
    | inr q ↦
        rw (p, q)
          (field?-Above k i (changed_value v w (sub_walk v w)) (walk old new) hn.0
            (walk-Above k old new ho.1 hn.1))
  ]
])

pub walk-empty_left : (new : Dict) → walk empty new ≡ new_fields new
unfolding walk
walk-empty_left new = refl

pub walk-empty_right : (old : Dict) → walk old empty ≡ old_fields old
unfolding walk
walk-empty_right empty = refl
walk-empty_right (entry k v old) = refl

new_fields-IsSorted :
    (new : Dict) → HasSortedKeys new → Containers.SortedMap.IsSorted (fields (new_fields new))
unfolding new_fields
new_fields-IsSorted empty h = tt
new_fields-IsSorted (entry k v new) h = (new_fields-Above k new h.0, new_fields-IsSorted new h.1)

old_fields-IsSorted :
    (old : Dict) → HasSortedKeys old → Containers.SortedMap.IsSorted (fields (old_fields old))
unfolding old_fields
old_fields-IsSorted empty h = tt
old_fields-IsSorted (entry k v old) h = (old_fields-Above k old h.0, old_fields-IsSorted old h.1)

field?-IsSorted :
    (j : Bytes) (v : Option BtValue) (d : BtDict)
    → Above j (fields d)
    → Containers.SortedMap.IsSorted (fields d)
    → Containers.SortedMap.IsSorted (fields (field? j v d))
field?-IsSorted j none d p h = h
field?-IsSorted j (some v) d p h = (p, h)

-- The keys of the difference come out in ascending order.
pub walk-IsSorted :
    (old new : Dict)
    → HasSortedKeys old
    → HasSortedKeys new
    → Containers.SortedMap.IsSorted (fields (walk old new))
walk-IsSorted empty new ho hn = rw walk-empty_left (new_fields-IsSorted new hn)
walk-IsSorted (entry j v old) empty ho hn =
    rw walk-empty_right (old_fields-IsSorted (entry j v old) ho)
walk-IsSorted (entry j v old) (entry i w new) ho hn = rw walk-entry (elim (Bool-cases (less i j)) [
  | inl p ↦ rw p (
    walk-Above i (entry j v old) new (p, Above-trans i j (items old) p ho.0) hn.0,
    walk-IsSorted (entry j v old) new ho hn.1,
  )
  | inr p ↦ elim (Bool-cases (less j i)) [
    | inl q ↦
        rw (p, q)
          (
            walk-Above j old (entry i w new) ho.0 (q, Above-trans j i (items new) q hn.0),
            walk-IsSorted old (entry i w new) ho.1 hn,
          )
    | inr q ↦
        let e : j ≡ i = bytes_ord.total j i q p in
        rw (p, q)
          (field?-IsSorted i (changed_value v w (sub_walk v w)) (walk old new)
            (walk-Above i old new (subst (λ k. Above k (items old)) e ho.0) hn.0)
            (walk-IsSorted old new ho.1 hn.1))
  ]
])

bt_find-field? :
    (k j : Bytes) (v : Option BtValue) (d : BtDict)
    → bt_find k (field? j v d)
      ≡ (if same k j then (elim v [ none ↦ bt_find k d | some w ↦ some w ]) else bt_find k d)
bt_find-field? k j none d = ground arith
bt_find-field? k j (some v) d = bt_find-field k j v d

module _ (x k j : Bytes) (v w : Value) (old new : Dict) (ho : HasSortedKeys (entry k v old))
    (hn : HasSortedKeys (entry j w new)) where
  find_newer :
      less j k ≡ true
      → bt_find x (walk (entry k v old) new) ≡ slot_diff (find x (entry k v old)) (find x new)
      → bt_find x (field j (new_value w) (walk (entry k v old) new))
        ≡ slot_diff (find x (entry k v old)) (find x (entry j w new))
  unfolding slot_diff
  find_newer p ih = ground (
    arith,
    bt_find-field x j (new_value w) (walk (entry k v old) new),
    find-entry x j w new,
    bytes_ord.total x j,
    find_of_Above j (entry k v old) (p, Above-trans j k (items old) p ho.0),
  )

  find_older :
      less k j ≡ true
      → bt_find x (walk old (entry j w new)) ≡ slot_diff (find x old) (find x (entry j w new))
      → bt_find x (field k (old_value v) (walk old (entry j w new)))
        ≡ slot_diff (find x (entry k v old)) (find x (entry j w new))
  unfolding slot_diff
  find_older q ih = ground (
    arith,
    bt_find-field x k (old_value v) (walk old (entry j w new)),
    find-entry x k v old,
    bytes_ord.total x k,
    find_of_Above k (entry j w new) (q, Above-trans k j (items new) q hn.0),
  )

  find_both :
      k ≡ j
      → bt_find x (walk old new) ≡ slot_diff (find x old) (find x new)
      → bt_find x (field? j (changed_value v w (sub_walk v w)) (walk old new))
        ≡ slot_diff (find x (entry k v old)) (find x (entry j w new))
  unfolding slot_diff
  find_both e ih = ground (
    arith,
    bt_find-field? x j (changed_value v w (sub_walk v w)) (walk old new),
    find-entry x k v old,
    find-entry x j w new,
    bytes_ord.total x j,
    find_of_Above k old ho.0,
    find_of_Above j new hn.0,
  )

-- The difference at a key is that of the two values at it.
pub find-walk :
    (x : Bytes) (old new : Dict)
    → HasSortedKeys old
    → HasSortedKeys new
    → bt_find x (walk old new) ≡ slot_diff (find x old) (find x new)
find-walk x empty new ho hn = rw (walk-empty_left, find-empty) (find-new_fields x new)
find-walk x (entry k v old) empty ho hn =
    rw (walk-empty_right, find-empty) (find-old_fields x (entry k v old))
find-walk x (entry k v old) (entry j w new) ho hn = rw walk-entry (elim (Bool-cases (less j k)) [
  | inl p ↦ rw p (find_newer x k j v w old new ho hn p (find-walk x (entry k v old) new ho hn.1))
  | inr p ↦ elim (Bool-cases (less k j)) [
    | inl q ↦
        rw (p, q) (find_older x k j v w old new ho hn q (find-walk x old (entry j w new) ho.1 hn))
    | inr q ↦
        rw (p, q)
          (find_both x k j v w old new ho hn (bytes_ord.total k j q p)
            (find-walk x old new ho.1 hn.1))
  ]
])
