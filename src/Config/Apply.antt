-- ===== src/Config/Apply.antt =====
-- `apply_diff` of src/config.cpp: replays a diff onto data, with the values taken from the data
-- that the diff belongs to.
pub mod Sets
pub mod Replay
pub mod RoundTrip
pub mod Equal
pub mod Local
use libsession_util.Prelude.{Bool, true, false, Option, none, some, List, [], ◌∷◌, if◌then◌else◌}
use libsession_util.Prelude.Result.{Result, ok, err, config_error, bad_variant_access, ◌>>=◌}
use libsession_util.Order.{same}
use libsession_util.Keys.{Bytes, bytes_ord, list_lt}
use libsession_util.Containers.SortedSet
use libsession_util.Config.Data.{
  Scalar, Value, Dict, dict, set, scalar, empty, entry, find, assign, erase, scalar_ord,
}
use libsession_util.Config.Bt.{
  BtValue, BtList, BtDict, integer, text, list, subdict, nil, cons, blank, field, get_bt_scalar,
}

-- The loop over the added elements.
unfoldable pub insert_all : BtList → List Scalar → Result (List Scalar)
insert_all nil s = ok s
insert_all (cons v l) s = elim (get_bt_scalar v) [
  | none ↦ err config_error
  | some x ↦ insert_all l (SortedSet.insert x s)
]

-- The loop over the removed elements.
unfoldable pub erase_all : BtList → List Scalar → Result (List Scalar)
erase_all nil s = ok s
erase_all (cons v l) s = elim (get_bt_scalar v) [
  | none ↦ err config_error
  | some x ↦ erase_all l (SortedSet.erase x s)
]

-- The set branch: `std::get` throws on an element of the pair that is no list. A pair with an
-- element missing, which `load_diff` refuses, fails too: the source reads past its end.
unfoldable pub apply_set_diff : BtList → List Scalar → Result (List Scalar)
unfolding insert_all erase_all
apply_set_diff (cons (list added) (cons (list removed) _)) s = do
  s' ← insert_all added s
  erase_all removed s'
apply_set_diff (cons (list added) _) s = do s' ← insert_all added s; err bad_variant_access
apply_set_diff _ s = err bad_variant_access

-- The set, or the dict, that the branches for a set and for a dict work on: what stands at the
-- key, or an empty one if it is new or of another type.
abbrev pub set_or_new : Option Value → List Scalar
set_or_new (some (set s)) = s
set_or_new _ = []

abbrev pub dict_or_new : Option Value → Dict
dict_or_new (some (dict d)) = d
dict_or_new _ = empty

-- `data.erase(k)`, or `data[k] = v`.
abbrev pub put_back : Bytes → Option Value → Dict → Dict
put_back k none d = erase k d
put_back k (some v) d = assign k v d

abbrev pub is_deleted : Bytes → Bool
is_deleted m = same m (b'-' ∷ [])

abbrev pub is_assigned : Bytes → Bool
is_assigned m = same m []

unfoldable mutual
  unfolding apply_set_diff list_lt

  -- The body of the loop for one key: from the value at the key in the data, its diff and its
  -- value in the source, what stands at the key afterwards.
  pub apply_value : Option Value → BtValue → Option Value → Result (Option Value)
  apply_value old (integer i) none = ok none
  apply_value old (text m) none = ok none
  apply_value old (list l) none = ok none
  apply_value old (subdict d) none = ok none
  apply_value old (integer i) (some v) = err config_error
  apply_value old (text m) (some (scalar x)) =
      if is_deleted m
      then ok none
      else if is_assigned m
      then ok (some (scalar x))
      else err config_error
  apply_value old (text m) (some v) = ok none
  apply_value old (subdict d) (some (dict source)) = do
    sub ← apply_diff (dict_or_new old) d source
    ok (some (dict sub))
  apply_value old (subdict d) (some v) = ok none
  apply_value old (list l) (some (set s)) = do
    sub ← apply_set_diff l (set_or_new old)
    ok (some (set sub))
  apply_value old (list l) (some v) = ok none

  pub apply_diff : Dict → BtDict → Dict → Result Dict
  apply_diff target blank source = ok target
  apply_diff target (field k v diff) source = do
    slot ← apply_value (find k target) v (find k source)
    apply_diff (put_back k slot target) diff source
