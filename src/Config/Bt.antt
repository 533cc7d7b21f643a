-- ===== src/Config/Bt.antt =====
-- The value tree of oxenc's `bt_value`, `bt_list` and `bt_dict`, as the diffs of a config message
-- use it. An integer stands for the `int64_t` that `oxenc::get_int<int64_t>` gives for it, and a
-- text for the string or string view. Keys of a `bt_dict` (a `std::map`) are in ascending order.
use libsession_util.Prelude.{◌≡◌, refl, Option, none, some, List, [], ◌∷◌, if◌then◌else◌}
use libsession_util.Prelude.Int.{ℤ}
use libsession_util.Keys.{Bytes, bytes_ord}
use libsession_util.Order.{same}
use libsession_util.Containers
use libsession_util.Config.Data.{Scalar, int, string}

mutual
  pub data BtValue : Type 0 where
    integer : ℤ → BtValue
    text : Bytes → BtValue
    list : BtList → BtValue
    subdict : BtDict → BtValue

  pub data BtList : Type 0 where
    nil : BtList
    cons : BtValue → BtList → BtList

  pub data BtDict : Type 0 where
    blank : BtDict
    field : Bytes → BtValue → BtDict → BtDict

abbrev pub fields : BtDict → List (Bytes × BtValue)
fields blank = []
fields (field k v d) = (k, v) ∷ fields d

-- `d.find(k)`
unfoldable pub bt_find : Bytes → BtDict → Option BtValue
bt_find k d = Containers.SortedMap.find k (fields d)

pub bt_find-field :
    (k j : Bytes) (w : BtValue) (d : BtDict)
    → bt_find k (field j w d) ≡ (if same k j then some w else bt_find k d)
unfolding bt_find Containers.SortedMap.find
bt_find-field k j w d = refl

pub bt_find_of_Above :
    (k : Bytes) (d : BtDict) → Containers.SortedMap.Above k (fields d) → bt_find k d ≡ none
unfolding bt_find
bt_find_of_Above k d h = Containers.SortedMap.find_of_Above k (fields d) h

-- `get_bt_int`
pub get_bt_int : BtValue → Option ℤ
get_bt_int (integer i) = some i
get_bt_int _ = none

-- `get_bt_str`
unfoldable pub get_bt_str : BtValue → Option Bytes
get_bt_str (text s) = some s
get_bt_str _ = none

-- `get_bt_scalar`
unfoldable pub get_bt_scalar : BtValue → Option Scalar
unfolding get_bt_int get_bt_str
get_bt_scalar v = elim (get_bt_int v) [
  | some i ↦ some (int i)
  | none ↦ elim (get_bt_str v) [ some s ↦ some (string s) | none ↦ none ]
]

-- The `bt_value` of a scalar: `additions.emplace_back(std::move(x))`.
abbrev pub bt_scalar : Scalar → BtValue
bt_scalar (int i) = integer i
bt_scalar (string s) = text s

abbrev pub bt_scalars : List Scalar → BtList
bt_scalars [] = nil
bt_scalars (s ∷ l) = cons (bt_scalar s) (bt_scalars l)

pub get_bt_scalar-bt_scalar : (s : Scalar) → get_bt_scalar (bt_scalar s) ≡ some s
unfolding get_bt_scalar
get_bt_scalar-bt_scalar (int i) = refl
get_bt_scalar-bt_scalar (string s) = refl
