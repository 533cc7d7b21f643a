-- ===== src/Config/Base/Field.antt =====
-- `ConfigBase::DictFieldProxy` (include/session/config/base.hpp) and the setters of src/config/
-- internal.cpp. A proxy is the path of keys that it stands for.
pub mod Laws
pub mod View
pub mod Refine
pub mod Total
pub mod Rows
pub mod Read
use libsession_util.Prelude.{
  ℕ, suc, ◌==◌, Bool, true, false, not, ◌&&◌, Option, none, some, List, [], ◌∷◌, ◌++◌,
  if◌then◌else◌,
}
use libsession_util.Prelude.Result.{Result, ok, err, ◌>>=◌}
use libsession_util.Prelude.Int.{ℤ, pos, negsuc}
use libsession_util.Order.{same}
use libsession_util.Keys.{Bytes, bytes_ord, list_lt}
use libsession_util.Containers.SortedSet
use libsession_util.Config.Data.{
  Scalar, int, string, Value, Dict, dict, set, scalar, empty, is_nil, is_empty, find, assign, erase,
  scalar_ord,
}
use libsession_util.Config.Message.{Message}
use libsession_util.Config.Message.Read.{is_set}
use libsession_util.Config.Base.{ConfigBase, Env, is_dirty}
use libsession_util.Config.Base.State.{make_dirty}

-- `_inter_keys` and `_last_key`
pub record FieldPath : Type 0 where
  pub inter_keys : List Bytes
  pub last_key : Bytes

-- `operator[]`
abbrev pub subfield : FieldPath → Bytes → FieldPath
subfield p key = record { inter_keys = p.inter_keys ++ (p.last_key ∷ []); last_key = key }

-- `std::get_if<dict>` of a lookup, and the alternatives that a value can hold.
abbrev pub as_dict : Option Value → Option Dict
as_dict (some (dict d)) = some d
as_dict _ = none

abbrev pub as_set : Option Value → Option (List Scalar)
as_set (some (set s)) = some s
as_set _ = none

abbrev pub as_string : Option Value → Option Bytes
as_string (some (scalar (string s))) = some s
as_string _ = none

abbrev pub as_int : Option Value → Option ℤ
as_int (some (scalar (int i))) = some i
as_int _ = none

-- `maybe_set`, `maybe_int`, `maybe_string`, `maybe_sv`, `maybe_vector` of src/config/internal.cpp.
unfoldable pub maybe_set : Dict → Bytes → Option (List Scalar)
unfolding find list_lt
maybe_set d key = as_set (find key d)

unfoldable pub maybe_int : Dict → Bytes → Option ℤ
unfolding find list_lt
maybe_int d key = as_int (find key d)

unfoldable pub maybe_string : Dict → Bytes → Option Bytes
unfolding find list_lt
maybe_string d key = as_string (find key d)

-- The descent into the data without creating anything: `get_clean_pair`.
unfoldable pub lookup : List Bytes → Bytes → Dict → Option Value
unfolding find list_lt
lookup [] last d = find last d
lookup (k ∷ ks) last d = elim (as_dict (find k d)) [ none ↦ none | some sub ↦ lookup ks last sub ]

unfoldable pub get_clean : ConfigBase → FieldPath → Option Value
unfolding lookup
get_clean c p = lookup p.inter_keys p.last_key c.config.data_

-- `string()`, `integer()`, `set()`, `dict()`, `exists()`, and the forms with a fallback.
abbrev pub get_string : ConfigBase → FieldPath → Option Bytes
get_string c p = as_string (get_clean c p)

abbrev pub get_integer : ConfigBase → FieldPath → Option ℤ
get_integer c p = as_int (get_clean c p)

abbrev pub string_or : ConfigBase → FieldPath → Bytes → Bytes
string_or c p fallback = elim (get_string c p) [ none ↦ fallback | some s ↦ s ]

abbrev pub integer_or : ConfigBase → FieldPath → ℤ → ℤ
integer_or c p fallback = elim (get_integer c p) [ none ↦ fallback | some i ↦ i ]

abbrev pub exists : ConfigBase → FieldPath → Bool
exists c p = is_set (get_clean c p)

-- The descent of `get_dirty`, with subdicts created on the way, to a value that `f` changes.
-- `f` is given nothing for a value that was not there.
abbrev pub dict_or_empty : Option Dict → Dict
dict_or_empty none = empty
dict_or_empty (some d) = d

unfoldable pub update : (Option Value → Value) → List Bytes → Bytes → Dict → Dict
unfolding find assign list_lt
update f [] last d = assign last (f (find last d)) d
update f (k ∷ ks) last d = assign k (dict (update f ks last (dict_or_empty (as_dict (find k d))))) d

-- The descent of `erase` and `set_erase_impl`, which stops where a dict is missing.
unfoldable pub change : (Dict → Dict) → List Bytes → Dict → Dict
unfolding find assign list_lt
change f [] d = f d
change f (k ∷ ks) d = elim (as_dict (find k d)) [
  | none ↦ d
  | some sub ↦ assign k (dict (change f ks sub)) d
]

abbrev pub with_data : (Dict → Dict) → ConfigBase → ConfigBase
with_data f c = record c { config = record c.config { data_ = f c.config.data_ } }

-- `dirty().data()`, changed by `f`.
unfoldable pub change_dirty : Env → (Dict → Dict) → ConfigBase → Result ConfigBase
unfolding make_dirty
change_dirty env f c = do c' ← make_dirty env c; ok (with_data f c')

-- `erase()`
unfoldable pub erase_field : Env → FieldPath → ConfigBase → Result ConfigBase
unfolding get_clean change_dirty change erase list_lt
erase_field env p c =
    let erased = change_dirty env (change (erase p.last_key) p.inter_keys) c in
    if not (is_dirty c) && not (is_set (get_clean c p)) then ok c else erased

-- Equality of the scalars that `assign_if_changed` compares.
abbrev pub same_scalar : Option Value → Scalar → Bool
same_scalar (some (scalar s)) t = same s t
same_scalar _ t = false

-- `assign_if_changed` of a scalar: `operator=` of a string or an integer.
unfoldable pub assign_scalar : Env → Scalar → FieldPath → ConfigBase → Result ConfigBase
unfolding get_clean change_dirty update list_lt
assign_scalar env s p c =
    let assigned = change_dirty env (update (λ v. scalar s) p.inter_keys p.last_key) c in
    if not (is_dirty c) && same_scalar (get_clean c p) s then ok c else assigned

-- `insert_if_missing`: `set_insert`.
abbrev pub set_contains : Scalar → Option (List Scalar) → Bool
set_contains s none = false
set_contains s (some t) = SortedSet.contains s t

abbrev pub set_lacks : Scalar → Option (List Scalar) → Bool
set_lacks s none = false
set_lacks s (some t) = not (SortedSet.contains s t)

abbrev pub set_or_empty : Option (List Scalar) → List Scalar
set_or_empty none = []
set_or_empty (some s) = s

unfoldable pub set_insert : Env → Scalar → FieldPath → ConfigBase → Result ConfigBase
unfolding get_clean change_dirty update SortedSet.contains SortedSet.insert list_lt
set_insert env s p c =
    let inserted =
      change_dirty env
        (update (λ v. set (SortedSet.insert s (set_or_empty (as_set v)))) p.inter_keys p.last_key)
        c in
    if not (is_dirty c) && set_contains s (as_set (get_clean c p)) then ok c else inserted

-- `set_erase_impl`: a value of another type becomes an empty set.
abbrev pub set_without : Scalar → Value → Value
set_without s (set t) = set (SortedSet.erase s t)
set_without s _ = set []

unfoldable pub set_erase : Env → Scalar → FieldPath → ConfigBase → Result ConfigBase
unfolding get_clean change_dirty change find assign SortedSet.contains SortedSet.erase list_lt
set_erase env s p c =
    let in_last : Dict → Dict =
      λ d. elim (find p.last_key d) [ none ↦ d | some v ↦ assign p.last_key (set_without s v) d ] in
    let erased = change_dirty env (change in_last p.inter_keys) c in
    if not (is_dirty c) && set_lacks s (as_set (get_clean c p)) then ok c else erased

-- `set_flag`, `set_positive_int`, `set_nonzero_int`, `set_nonempty_str`
unfoldable pub set_flag : Env → FieldPath → Bool → ConfigBase → Result ConfigBase
unfolding assign_scalar erase_field
set_flag env p val c =
    let set_one = assign_scalar env (int (pos 1)) p c in
    let erased = erase_field env p c in if val then set_one else erased

abbrev pub is_positive : ℤ → Bool
is_positive (pos n) = not (n == 0)
is_positive (negsuc n) = false

abbrev pub is_nonzero : ℤ → Bool
is_nonzero (pos n) = not (n == 0)
is_nonzero (negsuc n) = true

unfoldable pub set_positive_int : Env → FieldPath → ℤ → ConfigBase → Result ConfigBase
unfolding assign_scalar erase_field
set_positive_int env p val c =
    let assigned = assign_scalar env (int val) p c in
    let erased = erase_field env p c in if is_positive val then assigned else erased

unfoldable pub set_nonzero_int : Env → FieldPath → ℤ → ConfigBase → Result ConfigBase
unfolding assign_scalar erase_field
set_nonzero_int env p val c =
    let assigned = assign_scalar env (int val) p c in
    let erased = erase_field env p c in if is_nonzero val then assigned else erased

unfoldable pub set_nonempty_str : Env → FieldPath → Bytes → ConfigBase → Result ConfigBase
unfolding assign_scalar erase_field
set_nonempty_str env p val c =
    let assigned = assign_scalar env (string val) p c in
    let erased = erase_field env p c in if not (is_nil val) then assigned else erased
