-- ===== src/Config/Apply/Replay.antt =====
-- When a diff leads data to a target: key by key, and then as a whole.
use libsession_util.Prelude.{
  ◌≡◌, refl, sym, ap, subst, ◌∙◌, Option, none, some, if◌then◌else◌, Bool-cases, inl, inr,
}
use libsession_util.Prelude.Result.{ok}
use libsession_util.Order.{same, same_refl, eq_of_same}
use libsession_util.Keys.{Bytes, bytes_ord}
use libsession_util.Containers.SortedMap.{Above, IsSorted}
use libsession_util.Config.Data.{
  Value, Dict, find, HasSortedKeys, find-assign, find-erase, assign-HasSortedKeys,
  erase-HasSortedKeys, dict_ext,
}
use libsession_util.Config.Bt.{
  BtValue, BtDict, blank, field, fields, bt_find, bt_find-field, bt_find_of_Above,
}
use libsession_util.Config.Apply.{apply_value, apply_diff, put_back}

pub find-put_back :
    (k j : Bytes) (s : Option Value) (d : Dict)
    → HasSortedKeys d
    → find k (put_back j s d) ≡ (if same k j then s else find k d)
find-put_back k j none d h = find-erase k j d h
find-put_back k j (some v) d h = find-assign k j v d

pub put_back-HasSortedKeys :
    (k : Bytes) (s : Option Value) (d : Dict) → HasSortedKeys d → HasSortedKeys (put_back k s d)
put_back-HasSortedKeys k none d h = erase-HasSortedKeys k d h
put_back-HasSortedKeys k (some v) d h = assign-HasSortedKeys k v d h

-- The diff of one key, if there is one, leads from the value at the key to the target's.
abbrev pub Leads : Option Value → Option BtValue → Option Value → Option Value → Type 0
Leads old none source target = old ≡ target
Leads old (some v) source target = apply_value old v source ≡ ok target

bt_find-blank : (k : Bytes) → bt_find k blank ≡ none
unfolding bt_find libsession_util.Containers.SortedMap.find
bt_find-blank k = refl

Leads-step :
    (x k : Bytes) (v : BtValue) (diff : BtDict) (d source target : Dict)
    → HasSortedKeys d
    → Above k (fields diff)
    → Leads (find x d) (bt_find x (field k v diff)) (find x source) (find x target)
    → Leads (find x (put_back k (find k target) d)) (bt_find x diff) (find x source) (find x target)
Leads-step x k v diff d source target hd ha l = elim (Bool-cases (same x k)) [
  | inl p ↦
      let e : x ≡ k = eq_of_same x k p in
      let n : bt_find x diff ≡ none =
        subst (λ y. bt_find y diff ≡ none) (sym e) (bt_find_of_Above k diff ha) in
      let f : find x (put_back k (find k target) d) ≡ find k target =
        find-put_back x k (find k target) d hd ∙ (rw p) in
      rw (n, f) (ap (λ y. find y target) (sym e))
  | inr p ↦
      let f : find x (put_back k (find k target) d) ≡ find x d =
        find-put_back x k (find k target) d hd ∙ (rw p) in
      let g : bt_find x (field k v diff) ≡ bt_find x diff = bt_find-field x k v diff ∙ (rw p) in
      rw f (subst (λ y. Leads (find x d) y (find x source) (find x target)) g l)
]

-- If the diff leads to the target at every key, applying it gives the target.
pub apply_diff-Leads :
    (d : Dict) (diff : BtDict) (source target : Dict)
    → HasSortedKeys d
    → IsSorted (fields diff)
    → HasSortedKeys target
    → ((k : Bytes) → Leads (find k d) (bt_find k diff) (find k source) (find k target))
    → apply_diff d diff source ≡ ok target
unfolding apply_diff
apply_diff-Leads d blank source target hd hs ht l = ap ok (
    dict_ext d target hd ht
      λ k. subst (λ y. Leads (find k d) y (find k source) (find k target)) (bt_find-blank k) (l k))
apply_diff-Leads d (field k v diff) source target hd hs ht l =
    let g : bt_find k (field k v diff) ≡ some v = bt_find-field k k v diff ∙ (rw (same_refl k)) in
    let first : apply_value (find k d) v (find k source) ≡ ok (find k target) =
      subst (λ y. Leads (find k d) y (find k source) (find k target)) g (l k) in
    rw first (
      apply_diff-Leads (put_back k (find k target) d) diff source target
        (put_back-HasSortedKeys k (find k target) d hd) hs.1 ht
        (λ x. Leads-step x k v diff d source target hd hs.0 (l x)))
