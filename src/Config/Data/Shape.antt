-- ===== src/Config/Data/Shape.antt =====
-- What holds of the data of every config message: containers are ordered at every depth, and
-- after pruning none of them is empty.
use libsession_util.Prelude.{
  ◌≡◌, refl, subst, inl, inr, Bool, true, false, none, some, List, [], ◌∷◌, arith, if◌then◌else◌,
  Bool-cases,
}
use libsession_util.Order.{same}
use libsession_util.Keys.{Bytes, bytes_ord}
use libsession_util.Containers
use libsession_util.Config.Data.Dicts.{
  Value, Dict, dict, set, scalar, empty, entry, items, find, HasSortedKeys, scalar_ord,
}

abbrev pub is_nil {ℓ} : {A : Type ℓ} → List A → Bool
is_nil [] = true
is_nil (x ∷ xs) = false

abbrev pub is_empty : Dict → Bool
is_empty empty = true
is_empty (entry k v d) = false

-- Keys and set elements stand in strictly ascending order, at every depth.
abbrev mutual
  pub IsOrderedValue : Value → Type 0
  IsOrderedValue (dict d) = IsOrdered d
  IsOrderedValue (set s) = Containers.SortedSet.IsSorted s
  IsOrderedValue (scalar s) = Unit

  pub IsOrdered : Dict → Type 0
  IsOrdered empty = Unit
  IsOrdered (entry k v d) = Containers.SortedMap.Above k (items d) × IsOrderedValue v × IsOrdered d

-- No set and no nested dict is empty, at any depth.
abbrev mutual
  pub IsPrunedValue : Value → Type 0
  IsPrunedValue (dict d) = (is_empty d ≡ false) × IsPruned d
  IsPrunedValue (set s) = is_nil s ≡ false
  IsPrunedValue (scalar s) = Unit

  pub IsPruned : Dict → Type 0
  IsPruned empty = Unit
  IsPruned (entry k v d) = IsPrunedValue v × IsPruned d

pub IsOrdered-HasSortedKeys : (d : Dict) → IsOrdered d → HasSortedKeys d
IsOrdered-HasSortedKeys empty h = tt
IsOrdered-HasSortedKeys (entry k v d) h = (h.0, IsOrdered-HasSortedKeys d h.2)

-- The first entry of a dict is found by its key, and every other lookup goes on behind it.
pub find-entry :
    (k j : Bytes) (w : Value) (d : Dict)
    → find k (entry j w d) ≡ (if same k j then some w else find k d)
unfolding find Containers.SortedMap.find
find-entry k j w d = refl

pub find-empty : (k : Bytes) → find k empty ≡ none
unfolding find Containers.SortedMap.find
find-empty k = refl

pub find_of_Above :
    (k : Bytes) (d : Dict) → Containers.SortedMap.Above k (items d) → find k d ≡ none
unfolding find
find_of_Above k d h = Containers.SortedMap.find_of_Above k (items d) h

abbrev pub AllValues : (Value → Type 0) → Dict → Type 0
AllValues P empty = Unit
AllValues P (entry k v d) = P v × AllValues P d

pub find-AllValues :
    (P : Value → Type 0) (k : Bytes) (d : Dict) (v : Value)
    → AllValues P d
    → find k d ≡ some v
    → P v
unfolding find Containers.SortedMap.find
find-AllValues P k empty v h e = absurd (ground arith)
find-AllValues P k (entry j w d) v h e = elim (Bool-cases (same k j)) [
  | inl p ↦ let q : w ≡ v = ground arith in subst P q h.0
  | inr p ↦ find-AllValues P k d v h.1 (ground arith)
]

IsOrdered-AllValues : (d : Dict) → IsOrdered d → AllValues IsOrderedValue d
IsOrdered-AllValues empty h = tt
IsOrdered-AllValues (entry k v d) h = (h.1, IsOrdered-AllValues d h.2)

IsPruned-AllValues : (d : Dict) → IsPruned d → AllValues IsPrunedValue d
IsPruned-AllValues empty h = tt
IsPruned-AllValues (entry k v d) h = (h.0, IsPruned-AllValues d h.1)

pub find-IsOrdered :
    (k : Bytes) (d : Dict) (v : Value) → IsOrdered d → find k d ≡ some v → IsOrderedValue v
find-IsOrdered k d v h e = find-AllValues IsOrderedValue k d v (IsOrdered-AllValues d h) e

pub find-IsPruned :
    (k : Bytes) (d : Dict) (v : Value) → IsPruned d → find k d ≡ some v → IsPrunedValue v
find-IsPruned k d v h e = find-AllValues IsPrunedValue k d v (IsPruned-AllValues d h) e
