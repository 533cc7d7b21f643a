-- ===== src/Groups/Keys/Laws.antt =====
-- The state of the keys of a group is kept well formed by all that a key message does to it, and
-- an accepted message always goes through (src/config/groups/keys.cpp).
use libsession_util.Prelude.{
  ◌≡◌, inl, inr, refl, sym, subst, true, false, List, [], ◌∷◌, length, All, arith, Bool-cases,
  if◌then◌else◌,
}
use libsession_util.Prelude.Int.{ℤ, ltb_ℤ}
use libsession_util.Order.{less, same, eq_of_same}
use libsession_util.Keys.{Bytes, int_ord, int_irrefl, bytes_ord}
use libsession_util.Containers.SortedMap
use libsession_util.Containers.SortedSet
use libsession_util.Groups.Keys.{
  KeyInfo, Keys, back, is_known, is_stale, insert_sorted, add_active, erase_below, active_for,
  unexpired, remove_expired, insert_key,
}
use libsession_util.Groups.Keys.Ordered.{key_ord, insert_sorted-IsSorted, insert_sorted-All}
use libsession_util.Groups.Keys.Expiry.{
  unexpired-closed, From-Above, EndsIn, unexpired-EndsIn, Split, unexpired-Split, StopsAt,
  unexpired-StopsAt,
}

Active : Type 0
Active = List (ℤ × List Bytes)

-- The messages in use belong to generations from the first key's on; without keys there are none.
abbrev pub Covered : List KeyInfo → List (ℤ × List Bytes) → Type 0
Covered [] m = m ≡ []
Covered (k ∷ ks) m = All (λ e. ltb_ℤ e.0 k.generation ≡ false) m

abbrev pub Is32 : KeyInfo → Type 0
Is32 k = length k.key ≡ 32

-- The keys are in order, each once and of 32 bytes, and the messages in use are in order and belong
-- to generations that are kept.
abbrev pub IsWell : Keys → Type 0
IsWell g =
    SortedSet.IsSorted g.keys
    × All Is32 g.keys
    × SortedMap.IsSorted g.active_msgs
    × Covered g.keys g.active_msgs

erase_below-IsSorted :
    (gen : ℤ) (m : List (ℤ × List Bytes))
    → SortedMap.IsSorted m
    → SortedMap.IsSorted (erase_below gen m)
unfolding erase_below
erase_below-IsSorted gen [] h = tt
erase_below-IsSorted gen ((g, hs) ∷ m) h = ground (arith, erase_below-IsSorted gen m h.1)

from_Above :
    (gen g : ℤ) (m : List (ℤ × List Bytes))
    → ltb_ℤ g gen ≡ false
    → SortedMap.Above g m
    → All (λ e. ltb_ℤ e.0 gen ≡ false) m
from_Above gen g [] p h = tt
from_Above gen g ((j, hs) ∷ m) p h = (ground (arith, p, h.0), from_Above gen g m p h.1)

erase_below-Covered :
    (gen : ℤ) (m : List (ℤ × List Bytes))
    → SortedMap.IsSorted m
    → All (λ e. ltb_ℤ e.0 gen ≡ false) (erase_below gen m)
unfolding erase_below
erase_below-Covered gen [] h = tt
erase_below-Covered gen ((g, hs) ∷ m) h =
    elim (less g gen)
        as (λ b.
          less g gen ≡ b
          → All (λ e. ltb_ℤ e.0 gen ≡ false) (if b then erase_below gen m else (g, hs) ∷ m)) [
            | true ↦ λ p. erase_below-Covered gen m h.1
            | false ↦ λ p. (p, from_Above gen g m p h.0)
          ]
      refl

active_for-IsSorted :
    (ks : List KeyInfo) (m : List (ℤ × List Bytes))
    → SortedMap.IsSorted m
    → SortedMap.IsSorted (active_for ks m)
unfolding active_for
active_for-IsSorted [] m h = tt
active_for-IsSorted (k ∷ ks) m h = erase_below-IsSorted k.generation m h

active_for-Covered :
    (ks : List KeyInfo) (m : List (ℤ × List Bytes))
    → SortedMap.IsSorted m
    → Covered ks (active_for ks m)
unfolding active_for
active_for-Covered [] m h = refl
active_for-Covered (k ∷ ks) m h = erase_below-Covered k.generation m h

-- `remove_expired` makes the state well formed if the keys and the messages are in order.
pub remove_expired-IsWell :
    (g : Keys)
    → SortedSet.IsSorted g.keys
    → All Is32 g.keys
    → SortedMap.IsSorted g.active_msgs
    → IsWell (remove_expired g)
unfolding remove_expired
remove_expired-IsWell g s w a = (
  unexpired-closed (λ ks. SortedSet.IsSorted ks) (λ k ks h. h.1) g.keys s,
  unexpired-closed (λ ks. All Is32 ks) (λ k ks h. h.1) g.keys w,
  active_for-IsSorted (unexpired g.keys) g.active_msgs a,
  active_for-Covered (unexpired g.keys) g.active_msgs a,
)

pub add_active-IsSorted :
    (gen : ℤ) (hash : Bytes) (m : List (ℤ × List Bytes))
    → SortedMap.IsSorted m
    → SortedMap.IsSorted (add_active gen hash m)
unfolding add_active
add_active-IsSorted gen hash m h = SortedMap.assign-IsSorted gen _ m h

known-From :
    (k : KeyInfo) (gen : ℤ) (ks : List KeyInfo)
    → All (λ j. ltb_ℤ j.generation gen ≡ false) ks
    → is_known k ks ≡ true
    → ltb_ℤ k.generation gen ≡ false
unfolding is_known
known-From k gen (j ∷ ks) f h = elim (Bool-cases (same j.generation k.generation)) [
  | inl p ↦ subst (λ z. ltb_ℤ z gen ≡ false) (eq_of_same j.generation k.generation p) f.0
  | inr p ↦ known-From k gen ks f.1 (ground (arith, h, p))
]
known-From k gen [] f h = cc

assign-All {ℓ} :
    (P : ℤ → Type ℓ) (gen : ℤ) (hs : List Bytes) (m : List (ℤ × List Bytes))
    → P gen
    → All (λ e. P e.0) m
    → All (λ e. P e.0) (SortedMap.assign gen hs m)
unfolding SortedMap.assign
assign-All P gen hs [] p h = (p, tt)
assign-All P gen hs ((g, x) ∷ m) p h =
    elim (less gen g)
      as (λ b.
        All (λ e. P e.0)
          (if b
            then (gen, hs) ∷ (g, x) ∷ m
            else if less g gen
            then (g, x) ∷ SortedMap.assign gen hs m
            else (g, hs) ∷ m)) [
              | true ↦ (p, h)
              | false ↦
                  elim (less g gen)
                    as (λ b.
                      All (λ e. P e.0)
                        (if b then (g, x) ∷ SortedMap.assign gen hs m else (g, hs) ∷ m)) [
                          | true ↦ (h.0, assign-All P gen hs m p h.1)
                          | false ↦ h
                        ]
            ]

add_known-Covered :
    (hash : Bytes) (k : KeyInfo) (ks : List KeyInfo) (m : List (ℤ × List Bytes))
    → SortedSet.IsSorted ks
    → is_known k ks ≡ true
    → Covered ks m
    → Covered ks (add_active k.generation hash m)
unfolding add_active is_known
add_known-Covered hash k [] m s h c = cc
add_known-Covered hash k (j ∷ ks) m s h c =
    assign-All (λ g. ltb_ℤ g j.generation ≡ false) k.generation _ m
      (known-From k j.generation (j ∷ ks) (int_irrefl j.generation, From-Above j ks s.0) h) c

pub insert_key-IsWell :
    (hash : Bytes) (k : KeyInfo) (g : Keys) → IsWell g → Is32 k → IsWell (insert_key hash k g)
unfolding insert_key
insert_key-IsWell hash k g (s, w, a, c) l =
    let active = add_active k.generation hash g.active_msgs in
    let a' = add_active-IsSorted k.generation hash g.active_msgs a in
    let stored : Keys = record g { active_msgs = active; keys = insert_sorted k g.keys } in
    elim (is_known k g.keys)
        as (λ b.
          is_known k g.keys ≡ b
          → IsWell (
              if b
              then record g { active_msgs = active }
              else if is_stale k g.keys
              then g
              else (record (remove_expired stored) { needs_dump = true }))) [
                | true ↦ λ p. (s, w, a', add_known-Covered hash k g.keys g.active_msgs s p c)
                | false ↦ λ p.
                    elim (is_stale k g.keys)
                      as (λ b.
                        IsWell (
                          if b
                          then g
                          else (record (remove_expired stored) { needs_dump = true }))) [
                            | true ↦ (s, w, a, c)
                            | false ↦
                                remove_expired-IsWell stored (insert_sorted-IsSorted k g.keys p s)
                                  (insert_sorted-All Is32 k g.keys l w) a'
                          ]
              ]
      refl

-- `remove_expired` on keys in order: it drops keys of earlier generations than the first one it
-- keeps, and only if that one is itself more than the expiry time older than the newest key; the
-- newest key stays; and it does not stop while the next generation is that old too.
pub remove_expired_lem :
    (g : Keys) (k : KeyInfo) (ks : List KeyInfo)
    → g.keys ≡ k ∷ ks
    → SortedSet.IsSorted g.keys
    → Split (back k ks) g.keys (remove_expired g).keys
      × EndsIn (back k ks) (remove_expired g).keys
      × StopsAt (back k ks) (remove_expired g).keys
unfolding remove_expired
remove_expired_lem g k ks e s =
    subst
      (λ z.
        Split (back k ks) z (unexpired z)
        × EndsIn (back k ks) (unexpired z)
        × StopsAt (back k ks) (unexpired z))
      (sym e)
      (
        unexpired-Split k ks (subst SortedSet.IsSorted e s),
        unexpired-EndsIn k ks,
        unexpired-StopsAt k ks,
      )
