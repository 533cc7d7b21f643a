-- ===== src/Config/Data/Kept.antt =====
-- The operations of a dict keep it in order, at every depth.
use libsession_util.Prelude.{Bool-cases, inl, inr, List, [], ◌∷◌, All}
use libsession_util.Order.{less, same}
use libsession_util.Keys.{Bytes, bytes_ord}
use libsession_util.Containers
use libsession_util.Config.Data.Dicts.{
  Value, Dict, empty, entry, items, items-from_items, assign, erase, HasSortedKeys,
  assign-HasSortedKeys, erase-HasSortedKeys,
}
use libsession_util.Config.Data.Shape.{IsOrdered, IsOrderedValue, IsOrdered-HasSortedKeys}

abbrev HasOrderedValues : List (Bytes × Value) → Type 0
HasOrderedValues m = All (λ e. IsOrderedValue e.1) m

values_of_IsOrdered : (d : Dict) → IsOrdered d → HasOrderedValues (items d)
values_of_IsOrdered empty h = tt
values_of_IsOrdered (entry k v d) h = (h.1, values_of_IsOrdered d h.2)

IsOrdered-of_parts : (d : Dict) → HasSortedKeys d → HasOrderedValues (items d) → IsOrdered d
IsOrdered-of_parts empty h k = tt
IsOrdered-of_parts (entry k v d) h p = (h.0, p.0, IsOrdered-of_parts d h.1 p.1)

assign-values :
    (k : Bytes) (v : Value) (m : List (Bytes × Value))
    → IsOrderedValue v
    → HasOrderedValues m
    → HasOrderedValues (Containers.SortedMap.assign k v m)
unfolding Containers.SortedMap.assign
assign-values k v [] hv h = (hv, tt)
assign-values k v ((j, w) ∷ m) hv h = elim (Bool-cases (less k j)) [
  | inl p ↦ rw p (hv, h)
  | inr p ↦ rw p (elim (Bool-cases (less j k)) [
    | inl q ↦ rw q (h.0, assign-values k v m hv h.1)
    | inr q ↦ rw q (hv, h.1)
  ])
]

erase-values :
    (k : Bytes) (m : List (Bytes × Value))
    → HasOrderedValues m
    → HasOrderedValues (Containers.SortedMap.erase k m)
unfolding Containers.SortedMap.erase
erase-values k [] h = tt
erase-values k ((j, w) ∷ m) h = elim (Bool-cases (same k j)) [
  | inl p ↦ rw p h.1
  | inr p ↦ rw p (h.0, erase-values k m h.1)
]

pub assign-IsOrdered :
    (k : Bytes) (v : Value) (d : Dict) → IsOrderedValue v → IsOrdered d → IsOrdered (assign k v d)
assign-IsOrdered k v d hv h =
    IsOrdered-of_parts (assign k v d) (assign-HasSortedKeys k v d (IsOrdered-HasSortedKeys d h)) (
      unfold assign in
      rw items-from_items (assign-values k v (items d) hv (values_of_IsOrdered d h)))

pub erase-IsOrdered : (k : Bytes) (d : Dict) → IsOrdered d → IsOrdered (erase k d)
erase-IsOrdered k d h =
    IsOrdered-of_parts (erase k d) (erase-HasSortedKeys k d (IsOrdered-HasSortedKeys d h))
      (unfold erase in rw items-from_items (erase-values k (items d) (values_of_IsOrdered d h)))
