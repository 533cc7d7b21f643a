-- ===== src/Groups/Keys/Ordered.antt =====
-- The order of the keys of a group, and that an insertion keeps them in order
-- (src/config/groups/keys.cpp).
use libsession_util.Prelude.{
  ◌≡◌, refl, sym, subst, true, false, List, [], ◌∷◌, All, arith, if◌then◌else◌,
}
use libsession_util.Prelude.Int.{ltb_ℤ}
use libsession_util.Order.{Ord, same_refl}
use libsession_util.Keys.{
  int_ord, bytes_ord, pair_ord, list_lt, pair_irrefl, pair_trans, pair_total,
}
use libsession_util.Containers.SortedSet
use libsession_util.Groups.Keys.{KeyInfo, cmpval, key_lt, is_known, insert_sorted}

pub key_irrefl : (a : KeyInfo) → key_lt a a ≡ false
unfolding key_lt list_lt
key_irrefl a = pair_irrefl (cmpval a)

pub key_trans : (a b c : KeyInfo) → key_lt a b ≡ true → key_lt b c ≡ true → key_lt a c ≡ true
unfolding key_lt list_lt
key_trans a b c p q = pair_trans (cmpval a) (cmpval b) (cmpval c) p q

pub key_total : (a b : KeyInfo) → key_lt a b ≡ false → key_lt b a ≡ false → a ≡ b
unfolding key_lt list_lt
key_total a b p q =
    let e = pair_total (cmpval a) (cmpval b) p q in
    λ i. record { generation = (e i).0; timestamp = (e i).1.0; key = (e i).1.1 }

instance abbrev pub key_ord : Ord KeyInfo
key_ord = record { lt = key_lt; irrefl = key_irrefl; trans = key_trans; total = key_total }

-- A key of an earlier generation is a smaller one, and a smaller key is not of a later generation.
pub key_lt_of_generation :
    (a b : KeyInfo) → ltb_ℤ a.generation b.generation ≡ true → key_lt a b ≡ true
unfolding key_lt list_lt
key_lt_of_generation a b h = ground (arith, h)

pub generation_of_key_lt :
    (a b : KeyInfo) → key_lt a b ≡ true → ltb_ℤ b.generation a.generation ≡ false
unfolding key_lt list_lt
generation_of_key_lt a b h = ground (arith, h)

known_head : (k : KeyInfo) (ks : List KeyInfo) → is_known k (k ∷ ks) ≡ true
unfolding is_known list_lt
known_head k ks = rw (same_refl k.generation, same_refl k.key) refl

pub insert_sorted-Above :
    (j k : KeyInfo) (ks : List KeyInfo)
    → key_lt j k ≡ true
    → SortedSet.Above j ks
    → SortedSet.Above j (insert_sorted k ks)
unfolding insert_sorted
insert_sorted-Above j k [] p h = (p, tt)
insert_sorted-Above j k (i ∷ ks) p h = ground (arith, insert_sorted-Above j k ks p h.1)

known_tail :
    (k j : KeyInfo) (ks : List KeyInfo) → is_known k (j ∷ ks) ≡ false → is_known k ks ≡ false
unfolding is_known
known_tail k j ks h = ground (arith, h)

below_head :
    (k j : KeyInfo) (ks : List KeyInfo)
    → is_known k (j ∷ ks) ≡ false
    → key_lt j k ≡ false
    → key_lt k j ≡ true
below_head k j ks h p =
    elim (key_lt k j) as (λ b. key_lt k j ≡ b → b ≡ true) [
      | true ↦ λ e. refl
      | false ↦ λ e.
          let q : k ≡ j = key_total k j e p in
          let c : is_known k (k ∷ ks) ≡ false =
            subst (λ x. is_known k (x ∷ ks) ≡ false) (sym q) h in
          ground (arith, c, known_head k ks)
    ]
      refl

pub insert_sorted-IsSorted :
    (k : KeyInfo) (ks : List KeyInfo)
    → is_known k ks ≡ false
    → SortedSet.IsSorted ks
    → SortedSet.IsSorted (insert_sorted k ks)
unfolding insert_sorted
insert_sorted-IsSorted k [] n h = (tt, tt)
insert_sorted-IsSorted k (j ∷ ks) n h = ground (
  arith,
  insert_sorted-IsSorted k ks (known_tail k j ks n) h.1,
  insert_sorted-Above j k ks,
  below_head k j ks n,
  SortedSet.Above-trans k j ks,
)

-- What holds of the key and of all the others holds of all after the insertion.
pub insert_sorted-All {ℓ} :
    (P : KeyInfo → Type ℓ) (k : KeyInfo) (ks : List KeyInfo)
    → P k
    → All P ks
    → All P (insert_sorted k ks)
unfolding insert_sorted
insert_sorted-All P k [] p h = (p, tt)
insert_sorted-All P k (j ∷ ks) p h =
    elim (key_lt j k) as (λ b. All P (if b then j ∷ insert_sorted k ks else k ∷ j ∷ ks)) [
      | true ↦ (h.0, insert_sorted-All P k ks p h.1)
      | false ↦ (p, h)
    ]
