-- ===== src/Config/Apply/RoundTrip.antt =====
-- The diff of a config message, applied to the data that it starts from, gives the data that it
-- leads to: what `merge` relies on when it replays diffs.
use libsession_util.Prelude.{
  ◌≡◌, refl, ap, Option, none, some, List, arith, Bool-cases, Option-cases, inl, inr,
}
use libsession_util.Prelude.Result.{ok}
use libsession_util.Order.{same, eq_of_same}
use libsession_util.Keys.{Bytes, bytes_ord}
use libsession_util.Config.Data.{
  Scalar, Value, Dict, dict, set, scalar, empty, entry, find, scalar_ord, IsOrdered, IsOrderedValue,
  IsPruned, IsPrunedValue, IsOrdered-HasSortedKeys, find-IsOrdered, find-IsPruned, AllValues,
  find-AllValues,
}
use libsession_util.Config.Bt.{BtDict, blank, field}
use libsession_util.Config.Diff.{
  new_value, new_fields, old_value, changed_value, walk, diff_impl, nonempty, diff_sets,
}
use libsession_util.Config.Diff.Dicts.{
  slot_diff, sub_walk, walk-empty_left, find-walk, walk-IsSorted,
}
use libsession_util.Config.Apply.{apply_value, apply_diff}
use libsession_util.Config.Apply.Sets.{diff_sets-some, diff_sets-none, apply-new_set}
use libsession_util.Config.Apply.Replay.{Leads, apply_diff-Leads}

-- Any dict is led to `d` by its difference from `d`.
abbrev Reaches : Dict → Type 0
Reaches d = (old : Dict) → IsOrdered old → apply_diff old (walk old d) d ≡ ok d

abbrev ReachesValue : Value → Type 0
ReachesValue (dict d) = Reaches d
ReachesValue (set s) = Unit
ReachesValue (scalar s) = Unit

-- A new value is built from nothing.
leads_new :
    (n : Value)
    → IsOrderedValue n
    → IsPrunedValue n
    → ReachesValue n
    → apply_value none (new_value n) (some n) ≡ ok (some n)
unfolding apply_value new_value
leads_new (dict d) h p r =
    let e : apply_diff empty (new_fields d) d ≡ ok d = rw walk-empty_left at (r empty tt) in rw e
leads_new (set s) h p r = rw (apply-new_set s h p)
leads_new (scalar s) h p r = refl

leads_old : (o : Value) → apply_value (some o) (old_value o) none ≡ ok none
unfolding apply_value old_value
leads_old (dict d) = refl
leads_old (set s) = refl
leads_old (scalar s) = refl

Leads-dict :
    (o n : Dict) (diff : BtDict)
    → apply_diff o diff n ≡ ok n
    → Leads (some (dict o)) (changed_value (dict o) (dict n) diff) (some (dict n)) (some (dict n))
unfolding apply_value changed_value
Leads-dict o n blank e = let q : o ≡ n = ground arith in ap (λ d. some (dict d)) q
Leads-dict o n (field k v diff) e = rw e

Leads-set :
    (o n : List Scalar)
    → IsOrderedValue (set o)
    → IsOrderedValue (set n)
    → Leads (some (set o)) (changed_value (set o) (set n) blank) (some (set n)) (some (set n))
unfolding apply_value changed_value
Leads-set o n ho hn = elim (Option-cases (diff_sets o n)) [
  | inl p ↦ rw (p, Leads) (ap (λ s. some (set s)) (diff_sets-none o n ho hn p))
  | inr (l, p) ↦ rw (p, Leads) (rw (diff_sets-some o n l ho hn p))
]

Leads-scalar :
    (o n : Scalar)
    → Leads
        (some (scalar o))
        (changed_value (scalar o) (scalar n) blank)
        (some (scalar n))
        (some (scalar n))
unfolding apply_value changed_value
Leads-scalar o n = elim (Bool-cases (same o n)) [
  | inl p ↦ rw p (ap (λ s. some (scalar s)) (eq_of_same o n p))
  | inr p ↦ rw p refl
]

-- The diff of the two values at a key leads from the old one to the new one.
Leads-slot :
    (o n : Option Value)
    → ((v : Value) → o ≡ some v → IsOrderedValue v)
    → ((v : Value) → n ≡ some v → IsOrderedValue v × IsPrunedValue v × ReachesValue v)
    → Leads o (slot_diff o n) n n
unfolding slot_diff sub_walk apply_value changed_value new_value
Leads-slot none none ho hn = refl
Leads-slot none (some n) ho hn = let h = hn n refl in leads_new n h.0 h.1 h.2
Leads-slot (some o) none ho hn = leads_old o
Leads-slot (some (dict o)) (some (dict n)) ho hn =
    unfold sub_walk in Leads-dict o n (walk o n) ((hn (dict n) refl).2 o (ho (dict o) refl))
Leads-slot (some (set o)) (some (set n)) ho hn =
    unfold sub_walk in Leads-set o n (ho (set o) refl) (hn (set n) refl).0
Leads-slot (some (scalar o)) (some (scalar n)) ho hn = unfold sub_walk in Leads-scalar o n
Leads-slot (some o) (some n) ho hn = let h = hn n refl in leads_new n h.0 h.1 h.2

-- Every dict is reached, by induction on its nesting.
Reaches-of_values :
    (d : Dict)
    → IsOrdered d
    → IsPruned d
    → ((k : Bytes) (v : Value) → find k d ≡ some v → ReachesValue v)
    → Reaches d
Reaches-of_values d h p r old ho =
    let hs = IsOrdered-HasSortedKeys old ho in
    let ht = IsOrdered-HasSortedKeys d h in
    apply_diff-Leads old (walk old d) d d hs (walk-IsSorted old d hs ht) ht λ k.
      rw (find-walk k old d hs ht) (
        Leads-slot (find k old) (find k d) (λ v e. find-IsOrdered k old v ho e)
          (λ v e. (find-IsOrdered k d v h e, find-IsPruned k d v p e, r k v e)))

mutual
  reaches_value : (v : Value) → IsOrderedValue v → IsPrunedValue v → ReachesValue v
  reaches_value (dict d) h p =
      Reaches-of_values d h p.1
        (λ k v e. find-AllValues ReachesValue k d v (reaches_fields d h p.1) e)
  reaches_value (set s) h p = tt
  reaches_value (scalar s) h p = tt

  reaches_fields : (d : Dict) → IsOrdered d → IsPruned d → AllValues ReachesValue d
  reaches_fields empty h p = tt
  reaches_fields (entry k v d) h p = (reaches_value v h.1 p.0, reaches_fields d h.2 p.1)

pub walk-Reaches : (d : Dict) → IsOrdered d → IsPruned d → Reaches d
walk-Reaches d h p =
    Reaches-of_values d h p (λ k v e. find-AllValues ReachesValue k d v (reaches_fields d h p) e)

-- `value_or(oxenc::bt_dict{})`
abbrev pub value_or_blank : Option BtDict → BtDict
value_or_blank none = blank
value_or_blank (some d) = d

pub value_or_blank-nonempty : (d : BtDict) → value_or_blank (nonempty d) ≡ d
value_or_blank-nonempty blank = refl
value_or_blank-nonempty (field k v d) = refl

-- The difference of two dicts, applied to the first with the values of the second, gives the
-- second, at every depth of nesting, whatever the types of the values at a key. Both dicts are in
-- order, and neither holds an empty set or dict (for the old one that keeps the source's unchecked
-- reads of an optional defined).
pub apply_diff-diff_impl :
    (old new : Dict)
    → IsOrdered old
    → IsPruned old
    → IsOrdered new
    → IsPruned new
    → apply_diff old (value_or_blank (diff_impl old new)) new ≡ ok new
unfolding diff_impl
apply_diff-diff_impl old new ho po hn pn =
    rw value_or_blank-nonempty (walk-Reaches new hn pn old ho)
