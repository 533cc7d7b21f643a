-- ===== src/Config/Wire.antt =====
-- Reading and writing the data and the diffs of a config message (src/config.cpp). The bytes of
-- the bencoding belong to oxenc; the model starts at what its consumers yield and its producers
-- are given: the elements of a list and the key/value pairs of a dict in the order in which they
-- stand in the text, where keys can be out of order or repeated.
pub mod Order
pub mod Parse
pub mod Accept
pub mod Apply
use libsession_util.Prelude.{
  Bool, true, false, not, Option, none, some, List, [], ◌∷◌, ◌&&◌, ◌||◌, if◌then◌else◌,
}
use libsession_util.Prelude.Result.{
  Result, ok, err, guard, config_parse_error, bt_deserialize_invalid, endless_loop, ◌>>=◌, ◌>>◌,
}
use libsession_util.Prelude.Int.{ℤ}
use libsession_util.Order.{less, same}
use libsession_util.Keys.{Bytes, bytes_ord, int_ord, list_lt}
use libsession_util.Config.Data.{
  Scalar, Value, Dict, dict, set, scalar, int, string, empty, entry, scalar_ord,
}
use libsession_util.Config.Bt.{
  BtValue, BtList, BtDict, integer, text, list, subdict, nil, cons, blank, field, get_bt_int,
  get_bt_str, bt_scalar, bt_scalars,
}

-- `key <= rbegin()->first` fails: the key comes after the last one, if there is one.
abbrev pub after : Option Bytes → Bytes → Bool
after none k = true
after (some last) k = less last k

-- `serialize_data`: the pairs that are given to the producer.
unfoldable mutual
  pub serialize_value : Value → BtValue
  serialize_value (dict d) = subdict (serialize_data d)
  serialize_value (set s) = list (bt_scalars s)
  serialize_value (scalar s) = bt_scalar s

  pub serialize_data : Dict → BtDict
  serialize_data empty = blank
  serialize_data (entry k v d) = field k (serialize_value v) (serialize_data d)

-- `is_finished()`
abbrev pub finished : BtDict → Bool
finished blank = true
finished (field k v d) = false

abbrev pub finished_list : BtList → Bool
finished_list nil = true
finished_list (cons v l) = false

-- The scalar that the loop over a set reads.
unfoldable pub read_scalar : BtValue → Result Scalar
read_scalar (integer i) = ok (int i)
read_scalar (text s) = ok (string s)
read_scalar (list l) = err config_parse_error
read_scalar (subdict d) = err config_parse_error

-- `*s.rbegin()` is below the new element; duplicates and unsorted elements throw alike.
abbrev pub ascends : Option Scalar → Scalar → Bool
ascends none x = true
ascends (some last) x = less last x

-- The loop of `parse_data(set& s, …)`, with the last element read so far.
unfoldable pub parse_elements : Option Scalar → BtList → Result (List Scalar)
unfolding read_scalar list_lt
parse_elements last nil = ok []
parse_elements last (cons v l) = do
  x ← read_scalar v
  guard (ascends last x) config_parse_error
  rest ← parse_elements (some x) l
  ok (x ∷ rest)

unfoldable pub parse_set : BtList → Result (List Scalar)
unfolding parse_elements
parse_set l = do guard (not (finished_list l)) bt_deserialize_invalid; parse_elements none l

-- `parse_data(dict& d, …)`; the order of the keys is checked before the value is read.
unfoldable mutual
  unfolding parse_set

  pub parse_value : BtValue → Result Value
  parse_value (text s) = ok (scalar (string s))
  parse_value (integer i) = ok (scalar (int i))
  parse_value (subdict d) = do
    guard (not (finished d)) bt_deserialize_invalid
    r ← parse_pairs none d
    ok (dict r)
  parse_value (list l) = do s ← parse_set l; ok (set s)

  pub parse_pairs : Option Bytes → BtDict → Result Dict
  parse_pairs last blank = ok empty
  parse_pairs last (field k v d) = do
    guard (after last k) bt_deserialize_invalid
    w ← parse_value v
    rest ← parse_pairs (some k) d
    ok (entry k w rest)

-- The call for the top-level dict, which may be empty.
unfoldable pub parse_data : BtDict → Result Dict
unfolding parse_pairs
parse_data d = parse_pairs none d

-- `check_scalar_order`
unfoldable pub check_scalar_order : BtValue → BtValue → Result (Unit {0})
unfolding list_lt
check_scalar_order (integer a) (integer b) = guard (less a b) config_parse_error
check_scalar_order (integer a) (text b) = ok tt
check_scalar_order (text a) (integer b) = err config_parse_error
check_scalar_order (text a) (text b) = guard (less a b) config_parse_error
check_scalar_order _ _ = err config_parse_error

-- The loop over neighbouring elements; a list of one element is not looked at.
unfoldable pub check_sublist : BtList → Result (Unit {0})
unfolding check_scalar_order
check_sublist (cons a (cons b l)) = do check_scalar_order a b; check_sublist (cons b l)
check_sublist _ = ok tt

-- The two sub-lists of a set diff.
unfoldable pub check_set_diff : BtList → Result (Unit {0})
unfolding check_sublist
check_set_diff (cons (list a) (cons (list r) nil)) = do check_sublist a; check_sublist r
check_set_diff (cons (list a) (cons v nil)) = do check_sublist a; err config_parse_error
check_set_diff _ = err config_parse_error

-- `mode == "" || mode == "-"`
abbrev pub is_mode : Bytes → Bool
is_mode m = same m [] || same m (b'-' ∷ [])

-- `load_diff`. An integer is none of the three kinds of value; the source has no branch for it, so
-- its loop stays at that pair for ever. The model marks that by `endless_loop`, which is no
-- exception of the source.
unfoldable mutual
  unfolding check_set_diff list_lt

  pub load_value : BtValue → Result BtValue
  load_value (text m) = do guard (is_mode m) config_parse_error; ok (text m)
  load_value (list l) = do check_set_diff l; ok (list l)
  load_value (subdict d) = do r ← load_pairs none d; ok (subdict r)
  load_value (integer i) = err endless_loop

  pub load_pairs : Option Bytes → BtDict → Result BtDict
  load_pairs last blank = ok blank
  load_pairs last (field k v d) = do
    guard (after last k) bt_deserialize_invalid
    w ← load_value v
    rest ← load_pairs (some k) d
    ok (field k w rest)

unfoldable pub load_diff : BtDict → Result BtDict
unfolding load_pairs
load_diff d = load_pairs none d
