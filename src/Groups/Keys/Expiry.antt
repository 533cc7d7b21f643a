-- ===== src/Groups/Keys/Expiry.antt =====
-- Which keys `remove_expired` drops (src/config/groups/keys.cpp).
use libsession_util.Prelude.{
  ◌≡◌, refl, sym, ap, subst, ◌∙◌, true, false, List, [], ◌∷◌, ◌++◌, All, arith, append_assoc,
  All-append,
}
use libsession_util.Prelude.Int.{ℤ, ltb_ℤ}
use libsession_util.Order.{same, eq_of_same}
use libsession_util.Keys.{int_ord, int_trans}
use libsession_util.Containers.SortedSet
use libsession_util.Groups.Keys.{KeyInfo, back, is_old, unlapsed, unexpired}
use libsession_util.Groups.Keys.Ordered.{key_ord, generation_of_key_lt}

-- What holds of a list of keys, and of its rest wherever it holds of a list, holds of what is kept.
unlapsed-closed {ℓ} :
    (P : List KeyInfo → Type ℓ) (tail : (k : KeyInfo) (ks : List KeyInfo) → P (k ∷ ks) → P ks)
    (newest : KeyInfo) (gen : ℤ) (kept rest : List KeyInfo)
    → P kept
    → P rest
    → P (unlapsed newest gen kept rest)
unfolding unlapsed
unlapsed-closed P tail newest gen kept [] p q = p
unlapsed-closed P tail newest gen kept (k ∷ ks) p q =
    elim (same gen k.generation)
      as (λ b. P (elim b [
        | true ↦ unlapsed newest gen kept ks
        | false ↦ elim (is_old k newest) [
          | true ↦ unlapsed newest k.generation (k ∷ ks) ks
          | false ↦ kept
        ]
      ])) [
        | true ↦ unlapsed-closed P tail newest gen kept ks p (tail k ks q)
        | false ↦
            elim (is_old k newest)
              as (λ b.
                P (elim b [ true ↦ unlapsed newest k.generation (k ∷ ks) ks | false ↦ kept ])) [
                  | true ↦ unlapsed-closed P tail newest k.generation (k ∷ ks) ks q (tail k ks q)
                  | false ↦ p
                ]
      ]

pub unexpired-closed {ℓ} :
    (P : List KeyInfo → Type ℓ) (tail : (k : KeyInfo) (ks : List KeyInfo) → P (k ∷ ks) → P ks)
    (ks : List KeyInfo)
    → P ks
    → P (unexpired ks)
unfolding unexpired
unexpired-closed P tail [] p = p
unexpired-closed P tail (k ∷ ks) p =
    unlapsed-closed P tail (back k ks) k.generation (k ∷ ks) ks p (tail k ks p)

-- A list of keys that ends in `b`.
abbrev pub EndsIn : KeyInfo → List KeyInfo → Type 0
EndsIn b ks = (k : KeyInfo) × (js : List KeyInfo) × (ks ≡ k ∷ js) × (back k js ≡ b)

unlapsed-EndsIn :
    (newest : KeyInfo) (gen : ℤ) (kept rest : List KeyInfo) (j : KeyInfo)
    → EndsIn newest kept
    → back j rest ≡ newest
    → EndsIn newest (unlapsed newest gen kept rest)
unfolding unlapsed
unlapsed-EndsIn newest gen kept [] j p q = p
unlapsed-EndsIn newest gen kept (k ∷ ks) j p q =
    elim (same gen k.generation)
      as (λ b. EndsIn newest (elim b [
        | true ↦ unlapsed newest gen kept ks
        | false ↦ elim (is_old k newest) [
          | true ↦ unlapsed newest k.generation (k ∷ ks) ks
          | false ↦ kept
        ]
      ])) [
        | true ↦ unlapsed-EndsIn newest gen kept ks k p q
        | false ↦
            elim (is_old k newest)
              as (λ b.
                EndsIn newest
                  (elim b [ true ↦ unlapsed newest k.generation (k ∷ ks) ks | false ↦ kept ])) [
                    | true ↦ unlapsed-EndsIn newest k.generation (k ∷ ks) ks k (k, ks, refl, q) q
                    | false ↦ p
                  ]
      ]

pub unexpired-EndsIn : (k : KeyInfo) (ks : List KeyInfo) → EndsIn (back k ks) (unexpired (k ∷ ks))
unfolding unexpired
unexpired-EndsIn k ks =
    unlapsed-EndsIn (back k ks) k.generation (k ∷ ks) ks k (k, ks, refl, refl) refl

-- A key that is dropped: a newer generation is what is kept from, and its first key is itself more
-- than the expiry time older than the newest.
abbrev pub Superseded : KeyInfo → List KeyInfo → KeyInfo → Type 0
Superseded newest [] k = ⊥
Superseded newest (j ∷ js) k = (ltb_ℤ k.generation j.generation ≡ true) × (is_old j newest ≡ true)

-- The keys are those that are superseded, then those that are kept.
abbrev pub Split : KeyInfo → List KeyInfo → List KeyInfo → Type 0
Split newest keys kept =
    (dropped : List KeyInfo) × (keys ≡ dropped ++ kept) × All (Superseded newest kept) dropped

-- No key of a list is of an earlier generation.
abbrev pub From : ℤ → List KeyInfo → Type 0
From gen = All (λ k. ltb_ℤ k.generation gen ≡ false)

pub From-Above : (k : KeyInfo) (ks : List KeyInfo) → SortedSet.Above k ks → From k.generation ks
From-Above k [] h = tt
From-Above k (j ∷ ks) h = (generation_of_key_lt k j h.0, From-Above k ks h.1)

next_supersedes :
    (newest p k : KeyInfo) (gen : ℤ) (ps ks kept d : List KeyInfo)
    → kept ≡ p ∷ ps
    → p.generation ≡ gen
    → ltb_ℤ gen k.generation ≡ true
    → is_old k newest ≡ true
    → All (Superseded newest kept) d
    → All (Superseded newest (k ∷ ks)) d
next_supersedes newest p k gen ps ks kept [] e g l o h = tt
next_supersedes newest p k gen ps ks kept (x ∷ d) e g l o h =
    let s : Superseded newest (p ∷ ps) x = subst (λ z. Superseded newest z x) e h.0 in
    let q : ltb_ℤ x.generation gen ≡ true = subst (λ z. ltb_ℤ x.generation z ≡ true) g s.0 in
    (
      (int_trans x.generation gen k.generation q l, o),
      next_supersedes newest p k gen ps ks kept d e g l o h.1,
    )

append_snoc :
    (x k : KeyInfo) (ps ks : List KeyInfo) → x ∷ (ps ++ (k ∷ ks)) ≡ (x ∷ (ps ++ (k ∷ []))) ++ ks
append_snoc x k [] ks = refl
append_snoc x k (p ∷ ps) ks = ap (x ∷◌) (append_snoc p k ps ks)

-- The keys of one generation, `gen`.
abbrev Alike : ℤ → List KeyInfo → Type 0
Alike gen = All (λ k. k.generation ≡ gen)

Alike-snoc :
    (gen : ℤ) (k : KeyInfo) (ps : List KeyInfo)
    → Alike gen ps
    → k.generation ≡ gen
    → Alike gen (ps ++ (k ∷ []))
Alike-snoc gen k [] h e = (e, tt)
Alike-snoc gen k (p ∷ ps) h e = (h.0, Alike-snoc gen k ps h.1 e)

generation_supersedes :
    (newest k : KeyInfo) (gen : ℤ) (ks ps : List KeyInfo)
    → Alike gen ps
    → ltb_ℤ gen k.generation ≡ true
    → is_old k newest ≡ true
    → All (Superseded newest (k ∷ ks)) ps
generation_supersedes newest k gen ks [] h l o = tt
generation_supersedes newest k gen ks (p ∷ ps) h l o = (
  (subst (λ z. ltb_ℤ z k.generation ≡ true) (sym h.0) l, o),
  generation_supersedes newest k gen ks ps h.1 l o,
)

later_generation :
    (gen : ℤ) (k : KeyInfo)
    → ltb_ℤ k.generation gen ≡ false
    → same gen k.generation ≡ false
    → ltb_ℤ gen k.generation ≡ true
later_generation gen k f h = ground (arith, f, h)

unlapsed-Split :
    (newest p : KeyInfo) (gen : ℤ) (ps rest kept d : List KeyInfo)
    → kept ≡ (p ∷ ps) ++ rest
    → Alike gen (p ∷ ps)
    → From gen rest
    → SortedSet.IsSorted rest
    → All (Superseded newest kept) d
    → Split newest (d ++ kept) (unlapsed newest gen kept rest)
unfolding unlapsed
unlapsed-Split newest p gen ps [] kept d e a f s h = (d, refl, h)
unlapsed-Split newest p gen ps (k ∷ ks) kept d e a f s h =
    elim (same gen k.generation)
        as (λ b.
          same gen k.generation ≡ b
          → Split newest (d ++ kept) (elim b [
            | true ↦ unlapsed newest gen kept ks
            | false ↦ elim (is_old k newest) [
              | true ↦ unlapsed newest k.generation (k ∷ ks) ks
              | false ↦ kept
            ]
          ])) [
            | true ↦ λ q.
                unlapsed-Split newest p gen (ps ++ (k ∷ [])) ks kept d (e ∙ append_snoc p k ps ks)
                  (a.0, Alike-snoc gen k ps a.1 (sym (eq_of_same gen k.generation q))) f.1 s.1 h
            | false ↦ λ q.
                elim (is_old k newest)
                    as (λ b.
                      is_old k newest ≡ b
                      → Split newest (d ++ kept) (elim b [
                        | true ↦ unlapsed newest k.generation (k ∷ ks) ks
                        | false ↦ kept
                      ])) [
                        | true ↦ λ o.
                            let l = later_generation gen k f.0 q in
                            subst (λ z. Split newest z (unlapsed newest k.generation (k ∷ ks) ks))
                              (append_assoc d (p ∷ ps) (k ∷ ks) ∙ ap (d ++◌) (sym e))
                              (unlapsed-Split newest k k.generation [] ks (k ∷ ks) (d ++ (p ∷ ps))
                                refl (refl, tt) (From-Above k ks s.0) s.1
                                (All-append _ d (p ∷ ps)
                                  (next_supersedes newest p k gen (ps ++ (k ∷ ks)) ks kept d e a.0 l
                                    o h)
                                  (generation_supersedes newest k gen ks (p ∷ ps) a l o)))
                        | false ↦ λ o. (d, refl, h)
                      ]
                  refl
          ]
      refl

pub unexpired-Split :
    (k : KeyInfo) (ks : List KeyInfo)
    → SortedSet.IsSorted (k ∷ ks)
    → Split (back k ks) (k ∷ ks) (unexpired (k ∷ ks))
unfolding unexpired
unexpired-Split k ks s =
    unlapsed-Split (back k ks) k k.generation [] ks (k ∷ ks) [] refl (refl, tt)
      (From-Above k ks s.0) s.1 tt

-- The expiry stops at the first generation that is not superseded itself: the next one's first key
-- is not more than the expiry time older than the newest.
unfoldable pub Stops : KeyInfo → ℤ → List KeyInfo → Type 0
Stops newest gen [] = Unit
Stops newest gen (k ∷ ks) = elim (same gen k.generation) [
  | true ↦ Stops newest gen ks
  | false ↦ is_old k newest ≡ false
]

abbrev pub StopsAt : KeyInfo → List KeyInfo → Type 0
StopsAt newest [] = Unit
StopsAt newest (k ∷ ks) = Stops newest k.generation ks

unlapsed-StopsAt :
    (newest : KeyInfo) (gen : ℤ) (kept rest : List KeyInfo)
    → (Stops newest gen rest → StopsAt newest kept)
    → StopsAt newest (unlapsed newest gen kept rest)
unfolding unlapsed Stops
unlapsed-StopsAt newest gen kept [] h = h tt
unlapsed-StopsAt newest gen kept (k ∷ ks) h =
    elim (same gen k.generation)
        as (λ b.
          (elim b as (λ x. Type 0) [ true ↦ Stops newest gen ks | false ↦ is_old k newest ≡ false ]
            → StopsAt newest kept)
          → StopsAt newest (elim b [
            | true ↦ unlapsed newest gen kept ks
            | false ↦ elim (is_old k newest) [
              | true ↦ unlapsed newest k.generation (k ∷ ks) ks
              | false ↦ kept
            ]
          ])) [
            | true ↦ λ g. unlapsed-StopsAt newest gen kept ks g
            | false ↦ λ g.
                elim (is_old k newest)
                    as (λ b.
                      is_old k newest ≡ b
                      → StopsAt newest (elim b [
                        | true ↦ unlapsed newest k.generation (k ∷ ks) ks
                        | false ↦ kept
                      ])) [
                        | true ↦ λ o. unlapsed-StopsAt newest k.generation (k ∷ ks) ks (λ s. s)
                        | false ↦ λ o. g o
                      ]
                  refl
          ]
      h

pub unexpired-StopsAt : (k : KeyInfo) (ks : List KeyInfo) → StopsAt (back k ks) (unexpired (k ∷ ks))
unfolding unexpired
unexpired-StopsAt k ks = unlapsed-StopsAt (back k ks) k.generation (k ∷ ks) ks (λ s. s)
