-- ===== src/Config/Prune/Laws.antt =====
-- What pruning does to the data: it leaves no empty container, keeps everything that is reached
-- by a path of keys, and reports exactly whether it changed anything.
use libsession_util.Prelude.{
  ◌≡◌, refl, sym, ◌∙◌, ap, subst, Option-cases, true, false, Option, none, some, List, [], ◌∷◌,
  arith, if◌then◌else◌, Bool-cases, inl, inr, ◌↔◌,
}
use libsession_util.Keys.{Bytes, bytes_ord}
use libsession_util.Containers
use libsession_util.Config.Data.{
  Value, Dict, dict, set, scalar, empty, entry, items, find, find-entry, find_of_Above,
  find-IsOrdered, is_nil, is_empty, IsPrunedValue, IsPruned, IsOrderedValue, IsOrdered,
}
use libsession_util.Config.Prune.{Pruned, prune, prune_value}

mutual
  unfolding prune

  prune_value-IsPruned :
      (v : Value) → (prune_value v).should_remove ≡ false → IsPrunedValue (prune_value v).result
  prune_value-IsPruned (dict d) h = (ground (arith, prune-flag d), prune-IsPruned d)
  prune_value-IsPruned (set s) h = h
  prune_value-IsPruned (scalar s) h = tt

  -- The flag of a dict says that nothing is left in it.
  prune-flag : (d : Dict) → (prune d).should_remove ≡ is_empty (prune d).result
  prune-flag empty = refl
  prune-flag (entry k v d) = refl

  pub prune-IsPruned : (d : Dict) → IsPruned (prune d).result
  prune-IsPruned empty = tt
  prune-IsPruned (entry k v d) = elim (Bool-cases (prune_value v).should_remove) [
    | inl p ↦ rw p (prune-IsPruned d)
    | inr p ↦ rw p (prune_value-IsPruned v p, prune-IsPruned d)
  ]

-- Data with no empty container is left as it is, and nothing is reported.
mutual
  unfolding prune

  prune_value_of_pruned :
      (v : Value)
      → IsPrunedValue v
      → prune_value v ≡ record { result = v; should_remove = false; removed_subkeys = false }
  prune_value_of_pruned (dict d) h = rw (prune_of_pruned d h.1, h.0)
  prune_value_of_pruned (set s) h = rw h
  prune_value_of_pruned (scalar s) h = refl

  prune_of_pruned :
      (d : Dict)
      → IsPruned d
      → prune d ≡ record { result = d; should_remove = is_empty d; removed_subkeys = false }
  prune_of_pruned empty h = refl
  prune_of_pruned (entry k v d) h = rw (prune_value_of_pruned v h.0, prune_of_pruned d h.1)

-- Where nothing is reported, there was no empty container.
mutual
  unfolding prune

  value-IsPruned-of_unreported :
      (v : Value)
      → (prune_value v).should_remove ≡ false
      → (prune_value v).removed_subkeys ≡ false
      → IsPrunedValue v
  value-IsPruned-of_unreported (dict d) h k =
      let p = IsPruned-of_unreported d k in
      let e = ap (λ (x : Pruned Dict). x.should_remove) (prune_of_pruned d p) in
      (ground (arith, e), p)
  value-IsPruned-of_unreported (set s) h k = h
  value-IsPruned-of_unreported (scalar s) h k = tt

  IsPruned-of_unreported : (d : Dict) → (prune d).removed_subkeys ≡ false → IsPruned d
  IsPruned-of_unreported empty h = tt
  IsPruned-of_unreported (entry k v d) h = (
    value-IsPruned-of_unreported v (ground arith) (ground arith),
    IsPruned-of_unreported d (ground arith),
  )

prune-Above :
    (k : Bytes) (d : Dict)
    → Containers.SortedMap.Above k (items d)
    → Containers.SortedMap.Above k (items (prune d).result)
unfolding prune
prune-Above k empty h = tt
prune-Above k (entry j v d) h = elim (Bool-cases (prune_value v).should_remove) [
  | inl p ↦ rw p (prune-Above k d h.1)
  | inr p ↦ rw p (h.0, prune-Above k d h.1)
]

-- Pruning keeps the order of keys and of set elements, at every depth.
mutual
  unfolding prune

  prune_value-IsOrdered : (v : Value) → IsOrderedValue v → IsOrderedValue (prune_value v).result
  prune_value-IsOrdered (dict d) h = prune-IsOrdered d h
  prune_value-IsOrdered (set s) h = h
  prune_value-IsOrdered (scalar s) h = tt

  prune-IsOrdered : (d : Dict) → IsOrdered d → IsOrdered (prune d).result
  prune-IsOrdered empty h = tt
  prune-IsOrdered (entry k v d) h = elim (Bool-cases (prune_value v).should_remove) [
    | inl p ↦ rw p (prune-IsOrdered d h.2)
    | inr p ↦ rw p (prune-Above k d h.0, prune_value-IsOrdered v h.1, prune-IsOrdered d h.2)
  ]

-- What is left of a value in its parent.
abbrev pub kept : Option Value → Option Value
kept none = none
kept (some v) = if (prune_value v).should_remove then none else some (prune_value v).result

-- A lookup after pruning finds what is left of the value that was there.
find-prune : (k : Bytes) (d : Dict) → IsOrdered d → find k (prune d).result ≡ kept (find k d)
unfolding prune
find-prune k empty h = unfold find Containers.SortedMap.find in refl
find-prune k (entry j v d) h = ground (
  arith,
  find-prune k d h.2,
  find_of_Above j d h.0,
  bytes_ord.total k j,
  find-entry k j v d,
  find-entry k j (prune_value v).result (prune d).result,
)

-- The scalar, or the set that is not empty, at a path of keys.
unfoldable pub leaf : List Bytes → Value → Option Value
leaf [] (dict d) = none
leaf [] (set s) = if is_nil s then none else some (set s)
leaf [] (scalar s) = some (scalar s)
leaf (k ∷ path) (dict d) = elim (find k d) [ none ↦ none | some v ↦ leaf path v ]
leaf (k ∷ path) (set s) = none
leaf (k ∷ path) (scalar s) = none

leaf_of_empty : (path : List Bytes) (d : Dict) → is_empty d ≡ true → leaf path (dict d) ≡ none
unfolding leaf find Containers.SortedMap.find
leaf_of_empty [] d h = refl
leaf_of_empty (k ∷ path) empty h = refl
leaf_of_empty (k ∷ path) (entry j v d) h = absurd (ground arith)

leaf_of_removed :
    (path : List Bytes) (v : Value)
    → (prune_value v).should_remove ≡ true
    → leaf path (prune_value v).result ≡ none
unfolding prune leaf
leaf_of_removed path (dict d) h = leaf_of_empty path (prune d).result (ground (arith, prune-flag d))
leaf_of_removed [] (set s) h = rw h
leaf_of_removed (k ∷ path) (set s) h = refl
leaf_of_removed path (scalar s) h = absurd (ground arith)

-- Pruning changes no scalar and no set that is not empty, whatever the path that leads to it.
pub leaf-prune :
    (path : List Bytes) (v : Value)
    → IsOrderedValue v
    → leaf path (prune_value v).result ≡ leaf path v
unfolding prune leaf
leaf-prune [] (dict d) h = refl
leaf-prune [] (set s) h = refl
leaf-prune [] (scalar s) h = refl
leaf-prune (k ∷ path) (set s) h = refl
leaf-prune (k ∷ path) (scalar s) h = refl
leaf-prune (k ∷ path) (dict d) h = elim (Option-cases (find k d)) [
  | inl p ↦ rw (find-prune k d h, p, leaf)
  | inr (v, p) ↦
      let ih = leaf-prune path v (find-IsOrdered k d v h p) in
      rw (find-prune k d h, p, leaf)
        (elim (Bool-cases (prune_value v).should_remove) [
          | inl r ↦ rw r (sym (leaf_of_removed path v r) ∙ ih)
          | inr r ↦ rw r ih
        ])
]

-- Pruning a dict that is in order leaves no empty set or dict below its top level, keeps the order,
-- and keeps every scalar and every set that is not empty at its path of keys.
pub prune_lem :
    (d : Dict)
    → IsOrdered d
    → IsPruned (prune d).result
      × IsOrdered (prune d).result
      × ((path : List Bytes) → leaf path (dict (prune d).result) ≡ leaf path (dict d))
unfolding prune
prune_lem d h = (prune-IsPruned d, prune-IsOrdered d h, λ path. leaf-prune path (dict d) h)

-- The second flag of `prune_` is false exactly if pruning leaves the dict as it was.
pub removed_subkeys-false_iff :
    (d : Dict) → ((prune d).removed_subkeys ≡ false) ↔ ((prune d).result ≡ d)
removed_subkeys-false_iff d = (
  λ h. ap (λ (x : Pruned Dict). x.result) (prune_of_pruned d (IsPruned-of_unreported d h)),
  λ h.
      let p : IsPruned d = subst IsPruned h (prune-IsPruned d) in
      ap (λ (x : Pruned Dict). x.removed_subkeys) (prune_of_pruned d p),
)
