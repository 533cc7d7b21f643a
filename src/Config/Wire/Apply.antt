-- ===== src/Config/Wire/Apply.antt =====
-- Diffs that `load_diff` has accepted can be applied to any data, with one exception: a set diff
-- with a single added or removed element that is no scalar.
use libsession_util.Prelude.{
  ◌≡◌, refl, true, Option, none, some, List, arith, if◌then◌else◌, Bool-cases, inl, inr,
}
use libsession_util.Prelude.Result.{
  Result, ok, err, >>=-eq-ok, guard-eq-ok, config_error, config_parse_error, bt_deserialize_invalid,
}
use libsession_util.Keys.{Bytes, bytes_ord}
use libsession_util.Containers.SortedSet
use libsession_util.Config.Data.{Scalar, Value, Dict, dict, set, scalar, find, scalar_ord}
use libsession_util.Config.Bt.{
  BtValue, BtList, BtDict, integer, text, list, subdict, nil, cons, blank, field, get_bt_scalar,
}
use libsession_util.Config.Apply.{
  insert_all, erase_all, apply_set_diff, set_or_new, dict_or_new, apply_value, apply_diff, put_back,
  is_deleted, is_assigned,
}
use libsession_util.Config.Wire.{
  after, is_mode, check_sublist, check_set_diff, load_value, load_pairs, load_diff,
}
use libsession_util.Config.Wire.Order.{AllScalars, LoneIsScalar, AllScalars-of_check}

abbrev pub Succeeds : {A : Type 0} → Result A → Type 0
Succeeds {A} r = (a : A) × (r ≡ ok a)

-- The lists of a set diff that hold a single element hold a scalar, at every depth.
abbrev pub LonesInPair : BtList → Type 0
LonesInPair (cons (list a) (cons (list r) nil)) = LoneIsScalar a × LoneIsScalar r
LonesInPair _ = Unit

abbrev mutual
  pub LonesInValue : BtValue → Type 0
  LonesInValue (integer i) = Unit
  LonesInValue (text s) = Unit
  LonesInValue (list l) = LonesInPair l
  LonesInValue (subdict d) = LonesAreScalars d

  pub LonesAreScalars : BtDict → Type 0
  LonesAreScalars blank = Unit
  LonesAreScalars (field k v d) = LonesInValue v × LonesAreScalars d

insert_all_total : (l : BtList) (s : List Scalar) → AllScalars l → Succeeds (insert_all l s)
unfolding insert_all
insert_all_total nil s h = (s, refl)
insert_all_total (cons v l) s ((x, e), h) =
    let (r, hr) = insert_all_total l (SortedSet.insert x s) h in (r, rw (e, insert_all) hr)

erase_all_total : (l : BtList) (s : List Scalar) → AllScalars l → Succeeds (erase_all l s)
unfolding erase_all
erase_all_total nil s h = (s, refl)
erase_all_total (cons v l) s ((x, e), h) =
    let (r, hr) = erase_all_total l (SortedSet.erase x s) h in (r, rw (e, erase_all) hr)

set_diff_total :
    (l : BtList) (s : List Scalar)
    → check_set_diff l ≡ ok tt
    → LonesInPair l
    → Succeeds (apply_set_diff l s)
unfolding check_set_diff apply_set_diff
set_diff_total (cons (list a) (cons (list r) nil)) s h p =
    let (u, ha, hr) = >>=-eq-ok (check_sublist a) _ h in
    let (s1, h1) = insert_all_total a s (AllScalars-of_check a ha p.0) in
    let (s2, h2) = erase_all_total r s1 (AllScalars-of_check r hr p.1) in (s2, rw (h1, h2))
set_diff_total _ s h p = absurd (ground arith)

-- A mode that the reader accepts is one of the two that the scalar branch knows.
mode_total :
    (m : Bytes) (x : Scalar)
    → is_mode m ≡ true
    → Succeeds (
        if is_deleted m
        then ok none
        else if is_assigned m
        then ok (some (scalar x))
        else err config_error)
mode_total m x h = elim (Bool-cases (is_deleted m)) [
  | inl p ↦ (none, rw p)
  | inr p ↦ let q : is_assigned m ≡ true = ground arith in (some (scalar x), rw p (rw q))
]

-- What `load_diff` has accepted applies, whatever the data and the source.
mutual
  unfolding load_pairs apply_diff

  apply_value_total :
      (v w : BtValue) (old source : Option Value)
      → load_value v ≡ ok w
      → LonesInValue v
      → Succeeds (apply_value old v source)
  apply_value_total (integer i) w old source h p = absurd (ground arith)
  apply_value_total (text m) w old none h p = (none, refl)
  apply_value_total (text m) w old (some (scalar x)) h p =
      mode_total m x (guard-eq-ok (is_mode m) config_parse_error _ h).0
  apply_value_total (text m) w old (some (dict x)) h p = (none, refl)
  apply_value_total (text m) w old (some (set x)) h p = (none, refl)
  apply_value_total (list l) w old none h p = (none, refl)
  apply_value_total (list l) w old (some (scalar x)) h p = (none, refl)
  apply_value_total (list l) w old (some (dict x)) h p = (none, refl)
  apply_value_total (list l) w old (some (set x)) h p =
      let (u, hu, h1) = >>=-eq-ok (check_set_diff l) _ h in
      let (s, hs) = set_diff_total l (set_or_new old) hu p in (some (set s), rw hs)
  apply_value_total (subdict d) w old none h p = (none, refl)
  apply_value_total (subdict d) w old (some (scalar x)) h p = (none, refl)
  apply_value_total (subdict d) w old (some (set x)) h p = (none, refl)
  apply_value_total (subdict d) w old (some (dict x)) h p =
      let (r, hr, h1) = >>=-eq-ok (load_pairs none d) _ h in
      let (e, he) = apply_diff_total none d r (dict_or_new old) x hr p in (some (dict e), rw he)

  apply_diff_total :
      (last : Option Bytes) (d r : BtDict) (target source : Dict)
      → load_pairs last d ≡ ok r
      → LonesAreScalars d
      → Succeeds (apply_diff target d source)
  apply_diff_total last blank r target source h p = (target, refl)
  apply_diff_total last (field k v d) r target source h p =
      let (ha, h1) = guard-eq-ok (after last k) bt_deserialize_invalid _ h in
      let (w, hw, h2) = >>=-eq-ok (load_value v) _ h1 in
      let (q, hq, h3) = >>=-eq-ok (load_pairs (some k) d) _ h2 in
      let (slot, hs) = apply_value_total v w (find k target) (find k source) hw p.0 in
      let (e, he) = apply_diff_total (some k) d q (put_back k slot target) source hq p.1 in
      (e, rw hs he)

-- A diff that the reader accepts, and whose sets of a single element hold a scalar, applies
-- without an exception to any data and source.
pub load_diff-apply_diff :
    (d r : BtDict) (target source : Dict)
    → load_diff d ≡ ok r
    → LonesAreScalars d
    → Succeeds (apply_diff target d source)
unfolding load_diff
load_diff-apply_diff d r target source h p = apply_diff_total none d r target source h p

-- The set diff that adds one element and removes none, under one key.
abbrev pub adds_one : Bytes → BtValue → BtDict
adds_one k v = field k (list (cons (list (cons v nil)) (cons (list nil) nil))) blank

-- The exception: the reader accepts every set diff that adds a single element, no scalar, and
-- removes nothing, and applying it under a key whose value in the source is a set throws.
pub load_diff_lone_element :
    (k : Bytes) (v : BtValue) (target source : Dict) (s : List Scalar)
    → get_bt_scalar v ≡ none
    → find k source ≡ some (set s)
    → (load_diff (adds_one k v) ≡ ok (adds_one k v))
      × (apply_diff target (adds_one k v) source ≡ err config_error)
unfolding load_diff load_pairs check_set_diff check_sublist apply_diff apply_set_diff insert_all
load_diff_lone_element k v target source s hv hs = (refl, rw (hs, apply_diff) (rw (hv, insert_all)))
