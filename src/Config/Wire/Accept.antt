-- ===== src/Config/Wire/Accept.antt =====
-- What the reader of the data accepts is well formed, and is the writer's text for it: every dict
-- has one encoding.
use libsession_util.Prelude.{
  ◌≡◌, refl, ap, ap₂, sym, subst, ◌∙◌, true, false, not, Option, none, some, List, [], ◌∷◌, arith,
  ◌↔◌,
}
use libsession_util.Prelude.Result.{
  ok, >>=-eq-ok, guard-eq-ok, ok_injective, config_parse_error, bt_deserialize_invalid,
}
use libsession_util.Keys.{Bytes, bytes_ord}
use libsession_util.Containers.SortedSet
use libsession_util.Containers.SortedMap
use libsession_util.Config.Data.{
  Scalar, Value, Dict, dict, set, scalar, int, string, empty, entry, items, scalar_ord, IsOrdered,
  IsOrderedValue, IsPruned, IsPrunedValue,
}
use libsession_util.Config.Bt.{
  BtValue, BtList, BtDict, integer, text, list, subdict, nil, cons, blank, field, bt_scalar,
  bt_scalars,
}
use libsession_util.Config.Wire.{
  after, serialize_value, serialize_data, finished, finished_list, read_scalar, ascends,
  parse_elements, parse_set, parse_value, parse_pairs, parse_data,
}
use libsession_util.Config.Wire.Parse.{
  AfterLast, AfterKey, finished-serialize_data, finished_list-bt_scalars,
  parse_pairs-serialize_data,
}

read_scalar_sound : (b : BtValue) (x : Scalar) → read_scalar b ≡ ok x → bt_scalar x ≡ b
unfolding read_scalar
read_scalar_sound (integer i) x h = ap bt_scalar (sym (ok_injective (int i) x h))
read_scalar_sound (text s) x h = ap bt_scalar (sym (ok_injective (string s) x h))
read_scalar_sound (list l) x h = cc
read_scalar_sound (subdict d) x h = cc

AfterLast-cons :
    (last : Option Scalar) (x : Scalar) (s : List Scalar)
    → ascends last x ≡ true
    → SortedSet.Above x s
    → AfterLast last (x ∷ s)
AfterLast-cons none x s h a = tt
AfterLast-cons (some y) x s h a = (h, SortedSet.Above-trans y x s h a)

AfterKey-entry :
    (last : Option Bytes) (k : Bytes) (v : Value) (d : Dict)
    → after last k ≡ true
    → SortedMap.Above k (items d)
    → AfterKey last (entry k v d)
AfterKey-entry none k v d h a = tt
AfterKey-entry (some j) k v d h a = (h, SortedMap.Above-trans j k (items d) h a)

parse_elements_sound :
    (last : Option Scalar) (b : BtList) (s : List Scalar)
    → parse_elements last b ≡ ok s
    → (bt_scalars s ≡ b) × AfterLast last s × SortedSet.IsSorted s
unfolding parse_elements
parse_elements_sound none nil s h =
    subst (λ t. (bt_scalars t ≡ nil) × AfterLast none t × SortedSet.IsSorted t)
      (ok_injective [] s h) (refl, tt, tt)
parse_elements_sound (some x) nil s h =
    subst (λ t. (bt_scalars t ≡ nil) × AfterLast (some x) t × SortedSet.IsSorted t)
      (ok_injective [] s h) (refl, tt, tt)
parse_elements_sound last (cons v l) s h =
    let (x, hx, h1) = >>=-eq-ok (read_scalar v) _ h in
    let (ha, h2) = guard-eq-ok (ascends last x) config_parse_error _ h1 in
    let (rest, hr, h3) = >>=-eq-ok (parse_elements (some x) l) _ h2 in
    let ih = parse_elements_sound (some x) l rest hr in
    subst (λ t. (bt_scalars t ≡ cons v l) × AfterLast last t × SortedSet.IsSorted t)
      (ok_injective (x ∷ rest) s h3)
      (ap₂ cons (read_scalar_sound v x hx) ih.0, AfterLast-cons last x rest ha ih.1, (ih.1, ih.2))

-- What a successful read of a value, and of the pairs of a dict, says.
abbrev ValueRead : BtValue → Value → Type 0
ValueRead b v = (serialize_value v ≡ b) × IsOrderedValue v × IsPrunedValue v

abbrev PairsRead : Option Bytes → BtDict → Dict → Type 0
PairsRead last b d = (serialize_data d ≡ b) × AfterKey last d × IsOrdered d × IsPruned d

read_set : (l : BtList) (s : List Scalar) → parse_set l ≡ ok s → ValueRead (list l) (set s)
unfolding parse_set serialize_data
read_set l s h =
    let (hf, h1) = guard-eq-ok (not (finished_list l)) bt_deserialize_invalid _ h in
    let (e, a, o) = parse_elements_sound none l s h1 in
    let f : finished_list (bt_scalars s) ≡ false =
      subst (λ t. finished_list t ≡ false) (sym e) (ground arith) in
    (ap list e, o, sym (finished_list-bt_scalars s) ∙ f)

read_dict :
    (b : BtDict) (d : Dict)
    → not (finished b) ≡ true
    → PairsRead none b d
    → ValueRead (subdict b) (dict d)
unfolding serialize_data
read_dict b d hf (e, a, o, p) =
    let f : finished (serialize_data d) ≡ false =
      subst (λ t. finished t ≡ false) (sym e) (ground arith) in
    (ap subdict e, o, (sym (finished-serialize_data d) ∙ f, p))

read_entry :
    (last : Option Bytes) (k : Bytes) (b : BtValue) (l : BtDict) (v : Value) (d : Dict)
    → after last k ≡ true
    → ValueRead b v
    → PairsRead (some k) l d
    → PairsRead last (field k b l) (entry k v d)
unfolding serialize_data
read_entry last k b l v d ha (ev, ov, pv) (ed, ad, od, pd) =
    (ap₂ (field k) ev ed, AfterKey-entry last k v d ha ad, (ad, ov, od), (pv, pd))

read_none : (last : Option Bytes) → PairsRead last blank empty
unfolding serialize_data
read_none none = (refl, tt, tt, tt)
read_none (some k) = (refl, tt, tt, tt)

mutual
  unfolding parse_pairs serialize_data

  parse_value_sound : (b : BtValue) (v : Value) → parse_value b ≡ ok v → ValueRead b v
  parse_value_sound (text s) v h =
      subst (ValueRead (text s)) (ok_injective (scalar (string s)) v h) (refl, tt, tt)
  parse_value_sound (integer i) v h =
      subst (ValueRead (integer i)) (ok_injective (scalar (int i)) v h) (refl, tt, tt)
  parse_value_sound (list l) v h =
      let (s, hs, h1) = >>=-eq-ok (parse_set l) (λ s. ok (set s)) h in
      subst (ValueRead (list l)) (ok_injective (set s) v h1) (read_set l s hs)
  parse_value_sound (subdict b) v h =
      let (hf, h1) = guard-eq-ok (not (finished b)) bt_deserialize_invalid _ h in
      let (d, hd, h2) = >>=-eq-ok (parse_pairs none b) (λ d. ok (dict d)) h1 in
      subst (ValueRead (subdict b)) (ok_injective (dict d) v h2)
        (read_dict b d hf (parse_pairs_sound none b d hd))

  parse_pairs_sound :
      (last : Option Bytes) (b : BtDict) (d : Dict) → parse_pairs last b ≡ ok d → PairsRead last b d
  parse_pairs_sound last blank d h =
      subst (PairsRead last blank) (ok_injective empty d h) (read_none last)
  parse_pairs_sound last (field k b l) d h =
      let (ha, h1) = guard-eq-ok (after last k) bt_deserialize_invalid _ h in
      let (v, hv, h2) = >>=-eq-ok (parse_value b) _ h1 in
      let (r, hr, h3) = >>=-eq-ok (parse_pairs (some k) l) _ h2 in
      subst (PairsRead last (field k b l)) (ok_injective (entry k v r) d h3) (
        read_entry last k b l v r ha (parse_value_sound b v hv) (parse_pairs_sound (some k) l r hr))

parse_sound :
    (b : BtDict) (d : Dict)
    → parse_data b ≡ ok d
    → (serialize_data d ≡ b) × IsOrdered d × IsPruned d
unfolding parse_data
parse_sound b d h = let (e, a, o, p) = parse_pairs_sound none b d h in (e, o, p)

parse_complete :
    (b : BtDict) (d : Dict)
    → (serialize_data d ≡ b) × IsOrdered d × IsPruned d
    → parse_data b ≡ ok d
unfolding parse_data
parse_complete b d (e, o, p) =
    subst (λ t. parse_pairs none t ≡ ok d) e (parse_pairs-serialize_data none d tt o p)

-- The reader accepts a text and gives `d` for it exactly if `d` is in order at every depth, holds
-- no empty set or dict below its top level, and is written as that text.
pub parse_data-ok_iff :
    (b : BtDict) (d : Dict)
    → (parse_data b ≡ ok d) ↔ ((serialize_data d ≡ b) × IsOrdered d × IsPruned d)
parse_data-ok_iff b d = (parse_sound b d, parse_complete b d)
