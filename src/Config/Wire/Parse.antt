-- ===== src/Config/Wire/Parse.antt =====
-- The reader of the data accepts exactly what the writer gives for well-formed data.
use libsession_util.Prelude.{◌≡◌, refl, true, Option, none, some, List, [], ◌∷◌}
use libsession_util.Prelude.Result.{ok}
use libsession_util.Keys.{Bytes, bytes_ord}
use libsession_util.Containers.SortedSet
use libsession_util.Containers.SortedMap
use libsession_util.Config.Data.{
  Scalar, Value, Dict, dict, set, scalar, int, string, empty, entry, items, scalar_ord, is_nil,
  is_empty, IsOrdered, IsOrderedValue, IsPruned, IsPrunedValue,
}
use libsession_util.Config.Bt.{bt_scalar, bt_scalars}
use libsession_util.Config.Wire.{
  after, serialize_value, serialize_data, finished, finished_list, read_scalar, ascends,
  parse_elements, parse_value, parse_pairs,
}

abbrev pub AfterLast : Option Scalar → List Scalar → Type 0
AfterLast none s = Unit
AfterLast (some x) s = SortedSet.Above x s

abbrev pub AfterKey : Option Bytes → Dict → Type 0
AfterKey none d = Unit
AfterKey (some k) d = SortedMap.Above k (items d)

read_scalar-bt_scalar : (x : Scalar) → read_scalar (bt_scalar x) ≡ ok x
unfolding read_scalar
read_scalar-bt_scalar (int i) = refl
read_scalar-bt_scalar (string s) = refl

head_ascends :
    (last : Option Scalar) (x : Scalar) (s : List Scalar)
    → AfterLast last (x ∷ s)
    → ascends last x ≡ true
head_ascends none x s h = refl
head_ascends (some y) x s h = h.0

parse_elements-bt_scalars :
    (last : Option Scalar) (s : List Scalar)
    → AfterLast last s
    → SortedSet.IsSorted s
    → parse_elements last (bt_scalars s) ≡ ok s
unfolding parse_elements
parse_elements-bt_scalars last [] a h = refl
parse_elements-bt_scalars last (x ∷ s) a h =
    rw (
      read_scalar-bt_scalar x,
      head_ascends last x s a,
      parse_elements-bt_scalars (some x) s h.0 h.1,
    )

head_after :
    (last : Option Bytes) (k : Bytes) (v : Value) (d : Dict)
    → AfterKey last (entry k v d)
    → after last k ≡ true
head_after none k v d h = refl
head_after (some j) k v d h = h.0

pub finished-serialize_data : (d : Dict) → finished (serialize_data d) ≡ is_empty d
unfolding serialize_data
finished-serialize_data empty = refl
finished-serialize_data (entry k v d) = refl

pub finished_list-bt_scalars : (s : List Scalar) → finished_list (bt_scalars s) ≡ is_nil s
finished_list-bt_scalars [] = refl
finished_list-bt_scalars (x ∷ s) = refl

mutual
  unfolding serialize_data parse_pairs

  parse_value-serialize_value :
      (v : Value) → IsOrderedValue v → IsPrunedValue v → parse_value (serialize_value v) ≡ ok v
  parse_value-serialize_value (scalar (int i)) h p = refl
  parse_value-serialize_value (scalar (string s)) h p = refl
  parse_value-serialize_value (set s) h p =
      rw (finished_list-bt_scalars s, p, parse_elements-bt_scalars none s tt h)
  parse_value-serialize_value (dict d) h p =
      rw (finished-serialize_data d, p.0, parse_pairs-serialize_data none d tt h p.1)

  pub parse_pairs-serialize_data :
      (last : Option Bytes) (d : Dict)
      → AfterKey last d
      → IsOrdered d
      → IsPruned d
      → parse_pairs last (serialize_data d) ≡ ok d
  parse_pairs-serialize_data last empty a h p = refl
  parse_pairs-serialize_data last (entry k v d) a h p = rw (head_after last k v d a) (
      rw (parse_value-serialize_value v h.1 p.0)
        (rw (parse_pairs-serialize_data (some k) d h.0 h.2 p.1) refl))
