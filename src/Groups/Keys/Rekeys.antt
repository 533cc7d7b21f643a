-- ===== src/Groups/Keys/Rekeys.antt =====
-- When a group needs a new key: its newest generation has two keys (`needs_rekey` of
-- src/config/groups/keys.cpp).
use libsession_util.Prelude.{
  ◌≡◌, ◌⊎◌, inl, inr, ◌↔◌, refl, sym, subst, ◌∙◌, true, false, List, [], ◌∷◌, All, arith,
}
use libsession_util.Prelude.Int.{ℤ, ltb_ℤ}
use libsession_util.Order.{same, same_refl, eq_of_same}
use libsession_util.Keys.{int_ord, int_irrefl}
use libsession_util.Containers.SortedSet
use libsession_util.Groups.Keys.{KeyInfo, key_lt, Keys, admin, shares_newest, needs_rekey}
use libsession_util.Groups.Keys.Ordered.{key_ord, key_irrefl, key_trans, generation_of_key_lt}

-- A key is in a list.
abbrev pub In : KeyInfo → List KeyInfo → Type 0
In k [] = ⊥
In k (j ∷ ks) = (k ≡ j) ⊎ In k ks

-- No generation is later than `k`'s.
abbrev pub Newest : KeyInfo → List KeyInfo → Type 0
Newest k = All (λ j. ltb_ℤ k.generation j.generation ≡ false)

-- Two keys, one after the other in the order, of one generation that none is later than.
abbrev pub Collides : List KeyInfo → Type 0
Collides ks =
    (a : KeyInfo) × (b : KeyInfo) × In a ks
    × In b ks
    × (key_lt a b ≡ true)
    × (same a.generation b.generation ≡ true)
    × Newest b ks

In-Above : (k j : KeyInfo) (ks : List KeyInfo) → SortedSet.Above k ks → In j ks → key_lt k j ≡ true
In-Above k j [] h m = absurd m
In-Above k j (i ∷ ks) h (inl e) = subst (λ z. key_lt k z ≡ true) (sym e) h.0
In-Above k j (i ∷ ks) h (inr m) = In-Above k j ks h.1 m

asymm : (a b : KeyInfo) → key_lt a b ≡ true → key_lt b a ≡ true → ⊥
asymm a b p q = ground (arith, key_trans a b a p q, key_irrefl a)

irrefl_of_eq : (a b k : KeyInfo) → a ≡ k → b ≡ k → key_lt a b ≡ true → ⊥
irrefl_of_eq a b k p q h =
    asymm a b h
      (subst (λ z. key_lt z a ≡ true) (p ∙ sym q) (subst (λ z. key_lt a z ≡ true) (q ∙ sym p) h))

collision_of_shares :
    (ks : List KeyInfo) → SortedSet.IsSorted ks → shares_newest ks ≡ true → Collides ks
collision_of_shares [] s h = cc
collision_of_shares (k ∷ []) s h = cc
collision_of_shares (k ∷ j ∷ []) s h = (
  k,
  j,
  inl refl,
  inr (inl refl),
  s.0.0,
  h,
  (generation_of_key_lt k j s.0.0, (int_irrefl j.generation, tt)),
)
collision_of_shares (k ∷ j ∷ i ∷ ks) s h =
    let (a, b, p, q, l, e, n) = collision_of_shares (j ∷ i ∷ ks) s.1 h in
    (a, b, inr p, inr q, l, e, (generation_of_key_lt k b (In-Above k b (j ∷ i ∷ ks) s.0 q), n))

-- The generations of a list that has one of them only.
Alike : ℤ → List KeyInfo → Type 0
Alike gen = All (λ k. same k.generation gen ≡ true)

shares_of_one_generation :
    (gen : ℤ) (k j : KeyInfo) (ks : List KeyInfo)
    → Alike gen (k ∷ j ∷ ks)
    → shares_newest (k ∷ j ∷ ks) ≡ true
unfolding Alike
shares_of_one_generation gen k j [] h =
    rw (eq_of_same k.generation gen h.0, eq_of_same j.generation gen h.1.0) (same_refl gen)
shares_of_one_generation gen k j (i ∷ ks) h = shares_of_one_generation gen j i ks h.1

between : (x a b : ℤ) → ltb_ℤ x a ≡ false → ltb_ℤ b x ≡ false → same a b ≡ true → same x b ≡ true
between x a b p q e = ground (arith, p, q, e)

one_generation_from :
    (k b : KeyInfo) (ks : List KeyInfo)
    → SortedSet.Above k ks
    → Newest b ks
    → same k.generation b.generation ≡ true
    → Alike b.generation ks
unfolding Alike
one_generation_from k b [] h n e = tt
one_generation_from k b (j ∷ ks) h n e = (
  between j.generation k.generation b.generation (generation_of_key_lt k j h.0) n.0 e,
  one_generation_from k b ks h.1 n.1 e,
)

shares_of_Collides :
    (ks : List KeyInfo) → SortedSet.IsSorted ks → Collides ks → shares_newest ks ≡ true
shares_of_Collides [] s (a, b, p, q, l, e, n) = absurd p
shares_of_Collides (k ∷ []) s (a, b, inl p, inl q, l, e, n) = absurd (irrefl_of_eq a b k p q l)
shares_of_Collides (k ∷ []) s (a, b, inr p, q, l, e, n) = absurd p
shares_of_Collides (k ∷ []) s (a, b, inl p, inr q, l, e, n) = absurd q
shares_of_Collides (k ∷ j ∷ []) s (a, b, p, q, l, e, n) = shares_pair k j a b s p q l e
  where
    shares_pair :
        (k j a b : KeyInfo)
        → SortedSet.IsSorted (k ∷ j ∷ [])
        → In a (k ∷ j ∷ [])
        → In b (k ∷ j ∷ [])
        → key_lt a b ≡ true
        → same a.generation b.generation ≡ true
        → same k.generation j.generation ≡ true
    shares_pair k j a b s (inl p) (inl q) l e = absurd (irrefl_of_eq a b k p q l)
    shares_pair k j a b s (inl p) (inr (inl q)) l e = rw (sym p, sym q) e
    shares_pair k j a b s (inr (inl p)) (inl q) l e = absurd (asymm k j s.0.0 (rw (sym p, sym q) l))
    shares_pair k j a b s (inr (inl p)) (inr (inl q)) l e = absurd (irrefl_of_eq a b j p q l)
    shares_pair k j a b s (inr (inr p)) q l e = absurd p
    shares_pair k j a b s p (inr (inr q)) l e = absurd q
shares_of_Collides (k ∷ j ∷ i ∷ ks) s (a, b, inr p, inr q, l, e, n) =
    shares_of_Collides (j ∷ i ∷ ks) s.1 (a, b, p, q, l, e, n.1)
shares_of_Collides (k ∷ j ∷ i ∷ ks) s (a, b, inr p, inl q, l, e, n) =
    absurd (asymm k a (In-Above k a (j ∷ i ∷ ks) s.0 p) (subst (λ z. key_lt a z ≡ true) q l))
shares_of_Collides (k ∷ j ∷ i ∷ ks) s (a, b, inl p, q, l, e, n) =
    shares_of_one_generation b.generation j i ks (
      one_generation_from k b (j ∷ i ∷ ks) s.0 n.1
        (subst (λ z. same z.generation b.generation ≡ true) p e))

-- `needs_rekey` on keys in order holds if and only if this is an admin's account and two different
-- keys are of one generation that no generation of the group is later than.
pub needs_rekey_iff :
    (g : Keys)
    → SortedSet.IsSorted g.keys
    → (needs_rekey g ≡ true) ↔ ((admin g ≡ true) × Collides g.keys)
unfolding needs_rekey
needs_rekey_iff g s = (
  λ h. (ground (arith, h), collision_of_shares g.keys s (ground (arith, h))),
  λ h. rw (h.0, shares_of_Collides g.keys s h.1) refl,
)
