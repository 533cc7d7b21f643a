-- ===== src/BtMerge/Laws.antt =====
-- What the merge of two dicts holds, and the order of merged lists.
use libsession_util.Prelude.{
  ◌≡◌, refl, sym, subst, Bool-cases, inl, inr, true, List, [], ◌∷◌, arith,
}
use libsession_util.Order.{Ord, less}
use libsession_util.Containers.SortedMap.{find, Above, IsSorted, find_of_Above, Above-trans}
use libsession_util.BtMerge.{merge_entry, merge_dicts, or_else}

module _ {K V : Type 0} ⦃o : Ord K⦄ where
  find-merge_entry :
      (k : K) (v : V) (rest : List (K × V) → List (K × V)) (a b : List (K × V)) (x : K)
      → ((c : List (K × V)) → IsSorted c → find x (rest c) ≡ or_else (find x a) (find x c))
      → Above k a
      → IsSorted b
      → find x (merge_entry k v rest b) ≡ or_else (find x ((k, v) ∷ a)) (find x b)
  unfolding merge_entry find
  find-merge_entry k v rest a [] x e ha hb = ground (arith, e [] tt)
  find-merge_entry k v rest a ((j, w) ∷ b) x e ha hb = ground (
    arith,
    find-merge_entry k v rest a b x e ha hb.1,
    e b hb.1,
    e ((j, w) ∷ b) hb,
    o.total k j,
    o.total x j,
    o.total x k,
    o.irrefl j,
    find_of_Above j a,
    Above-trans j k a,
  )

  Above-merge_entry :
      (i k : K) (v : V) (rest : List (K × V) → List (K × V)) (b : List (K × V))
      → ((c : List (K × V)) → Above i c → Above i (rest c))
      → less i k ≡ true
      → Above i b
      → Above i (merge_entry k v rest b)
  unfolding merge_entry
  Above-merge_entry i k v rest [] e p hb = (p, e [] tt)
  Above-merge_entry i k v rest ((j, w) ∷ b) e p hb =
      ground (arith, Above-merge_entry i k v rest b e p hb.1, e b hb.1, e ((j, w) ∷ b) hb)

  Above-merge_dicts :
      (i : K) (a b : List (K × V)) → Above i a → Above i b → Above i (merge_dicts a b)
  unfolding merge_dicts
  Above-merge_dicts i [] b ha hb = hb
  Above-merge_dicts i ((k, v) ∷ a) b ha hb =
      Above-merge_entry i k v (merge_dicts a) b (λ c hc. Above-merge_dicts i a c ha.1 hc) ha.0 hb

  merge_entry-IsSorted :
      (k : K) (v : V) (a b : List (K × V))
      → ((c : List (K × V)) → IsSorted c → IsSorted (merge_dicts a c))
      → Above k a
      → IsSorted b
      → IsSorted (merge_entry k v (merge_dicts a) b)
  unfolding merge_entry
  merge_entry-IsSorted k v a [] e ha hb = (Above-merge_dicts k a [] ha tt, e [] tt)
  merge_entry-IsSorted k v a ((j, w) ∷ b) e ha hb =
      let later : IsSorted (merge_entry k v (merge_dicts a) b) =
        merge_entry-IsSorted k v a b e ha hb.1 in
      elim (Bool-cases (less k j)) [
        | inl p ↦
            rw p (
              Above-merge_dicts k a ((j, w) ∷ b) ha (p, Above-trans k j b p hb.0),
              e ((j, w) ∷ b) hb,
            )
        | inr p ↦ elim (Bool-cases (less j k)) [
          | inl q ↦
              rw (p, q)
                (
                  Above-merge_entry j k v (merge_dicts a) b
                      (λ c hc. Above-merge_dicts j a c (Above-trans j k a q ha) hc) q hb.0,
                  later,
                )
          | inr q ↦
              rw (p, q)
                (
                  Above-merge_dicts k a b ha (subst (λ i. Above i b) (sym (o.total k j p q)) hb.0),
                  e b hb.1,
                )
        ]
      ]

  merge_dicts-IsSorted : (a b : List (K × V)) → IsSorted a → IsSorted b → IsSorted (merge_dicts a b)
  unfolding merge_dicts
  merge_dicts-IsSorted [] b ha hb = hb
  merge_dicts-IsSorted ((k, v) ∷ a) b ha hb =
      merge_entry-IsSorted k v a b (λ c hc. merge_dicts-IsSorted a c ha.1 hc) ha.0 hb

  find-merge_dicts :
      (a b : List (K × V)) (x : K)
      → IsSorted a
      → IsSorted b
      → find x (merge_dicts a b) ≡ or_else (find x a) (find x b)
  unfolding merge_dicts find
  find-merge_dicts [] b x ha hb = refl
  find-merge_dicts ((k, v) ∷ a) b x ha hb =
      find-merge_entry k v (merge_dicts a) a b x (λ c hc. find-merge_dicts a c x ha.1 hc) ha.0 hb

  -- `merge` of two dicts in ascending order is a dict in ascending order, in which every key has its
  -- value in the first dict or else its value in the second.
  pub merge_dicts_lem :
      (a b : List (K × V))
      → IsSorted a
      → IsSorted b
      → IsSorted (merge_dicts a b)
        × ((x : K) → find x (merge_dicts a b) ≡ or_else (find x a) (find x b))
  merge_dicts_lem a b ha hb = (merge_dicts-IsSorted a b ha hb, λ x. find-merge_dicts a b x ha hb)
