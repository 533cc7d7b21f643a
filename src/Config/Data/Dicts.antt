-- ===== src/Config/Data/Dicts.antt =====
-- include/session/config.hpp: `scalar`, `set`, `dict`, `dict_value`.
use libsession_util.Prelude.{
  ◌≡◌, refl, sym, ap, ◌∙◌, Bool, true, false, Option, none, some, List, [], ◌∷◌, if◌then◌else◌,
}
use libsession_util.Prelude.Int.{ℤ}
use libsession_util.Order.{Ord, same}
use libsession_util.Keys.{Bytes, bytes_ord, int_ord}
use libsession_util.Containers

-- `std::variant<int64_t, std::string>`
pub data Scalar : Type 0 where
  int : ℤ → Scalar
  string : Bytes → Scalar

-- The order of `std::variant`: by alternative first, so that ints come before strings.
abbrev pub scalar_lt : Scalar → Scalar → Bool
scalar_lt (int a) (int b) = int_ord.lt a b
scalar_lt (int a) (string b) = true
scalar_lt (string a) (int b) = false
scalar_lt (string a) (string b) = bytes_ord.lt a b

pub scalar_irrefl : (a : Scalar) → scalar_lt a a ≡ false
scalar_irrefl (int a) = int_ord.irrefl a
scalar_irrefl (string a) = bytes_ord.irrefl a

pub scalar_trans :
    (a b c : Scalar) → scalar_lt a b ≡ true → scalar_lt b c ≡ true → scalar_lt a c ≡ true
scalar_trans (int a) (int b) (int c) p q = int_ord.trans a b c p q
scalar_trans (int a) (int b) (string c) p q = refl
scalar_trans (int a) (string b) (int c) p q = cc
scalar_trans (int a) (string b) (string c) p q = refl
scalar_trans (string a) (int b) c p q = cc
scalar_trans (string a) (string b) (int c) p q = cc
scalar_trans (string a) (string b) (string c) p q = bytes_ord.trans a b c p q

pub scalar_total : (a b : Scalar) → scalar_lt a b ≡ false → scalar_lt b a ≡ false → a ≡ b
scalar_total (int a) (int b) p q = ap int (int_ord.total a b p q)
scalar_total (int a) (string b) p q = cc
scalar_total (string a) (int b) p q = cc
scalar_total (string a) (string b) p q = ap string (bytes_ord.total a b p q)

instance abbrev pub scalar_ord : Ord Scalar
scalar_ord = record {
  lt = scalar_lt;
  irrefl = scalar_irrefl;
  trans = scalar_trans;
  total = scalar_total;
}

-- `dict_value` (a variant of dict, set and scalar) and `dict`, a map in ascending order of keys.
mutual
  pub data Value : Type 0 where
    dict : Dict → Value
    set : List Scalar → Value
    scalar : Scalar → Value

  pub data Dict : Type 0 where
    empty : Dict
    entry : Bytes → Value → Dict → Dict

-- The entries as a sorted association list.
abbrev pub items : Dict → List (Bytes × Value)
items empty = []
items (entry k v d) = (k, v) ∷ items d

abbrev pub from_items : List (Bytes × Value) → Dict
from_items [] = empty
from_items ((k, v) ∷ m) = entry k v (from_items m)

pub items-from_items : (m : List (Bytes × Value)) → items (from_items m) ≡ m
items-from_items [] = refl
items-from_items ((k, v) ∷ m) = rw (items-from_items m)

pub from_items-items : (d : Dict) → from_items (items d) ≡ d
from_items-items empty = refl
from_items-items (entry k v d) = ap (entry k v) (from_items-items d)

-- `d.find(k)`
unfoldable pub find : Bytes → Dict → Option Value
find k d = Containers.SortedMap.find k (items d)

-- `d[k] = v`
unfoldable pub assign : Bytes → Value → Dict → Dict
assign k v d = from_items (Containers.SortedMap.assign k v (items d))

-- `d.erase(k)`
unfoldable pub erase : Bytes → Dict → Dict
erase k d = from_items (Containers.SortedMap.erase k (items d))

abbrev pub HasSortedKeys : Dict → Type 0
HasSortedKeys d = Containers.SortedMap.IsSorted (items d)

pub find-assign :
    (k j : Bytes) (v : Value) (d : Dict)
    → find k (assign j v d) ≡ (if same k j then some v else find k d)
unfolding find assign
find-assign k j v d = rw items-from_items (Containers.SortedMap.find-assign k j v (items d))

pub find-erase :
    (k j : Bytes) (d : Dict)
    → HasSortedKeys d
    → find k (erase j d) ≡ (if same k j then none else find k d)
unfolding find erase
find-erase k j d h = rw items-from_items (Containers.SortedMap.find-erase k j (items d) h)

pub assign-HasSortedKeys :
    (k : Bytes) (v : Value) (d : Dict) → HasSortedKeys d → HasSortedKeys (assign k v d)
unfolding assign
assign-HasSortedKeys k v d h =
    rw items-from_items (Containers.SortedMap.assign-IsSorted k v (items d) h)

pub erase-HasSortedKeys : (k : Bytes) (d : Dict) → HasSortedKeys d → HasSortedKeys (erase k d)
unfolding erase
erase-HasSortedKeys k d h = rw items-from_items (Containers.SortedMap.erase-IsSorted k (items d) h)

-- Two dicts with sorted keys that answer every lookup alike are equal.
pub dict_ext :
    (c d : Dict) → HasSortedKeys c → HasSortedKeys d → ((k : Bytes) → find k c ≡ find k d) → c ≡ d
unfolding find
dict_ext c d hc hd e =
    sym (from_items-items c)
    ∙ ap from_items (Containers.SortedMap.map_ext (items c) (items d) hc hd e)
    ∙ from_items-items d
