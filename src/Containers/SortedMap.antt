-- ===== src/Containers/SortedMap.antt =====
-- `std::map`: the entries in ascending order of their keys, each key once.
use libsession_util.Prelude.{
  ◌≡◌, refl, sym, ap₂, subst, true, Option, none, some, List, [], ◌∷◌, arith, if◌then◌else◌,
}
use libsession_util.Order.{Ord, less, same, same_refl}

module _ {ℓ κ} {K : Type ℓ} {V : Type κ} ⦃o : Ord K⦄ where
  -- `m.find(k)`: the value, or `m.end()`
  unfoldable pub find : K → List (K × V) → Option V
  find k [] = none
  find k ((j, v) ∷ m) = if same k j then some v else find k m

  -- `m[k] = v`
  unfoldable pub assign : K → V → List (K × V) → List (K × V)
  assign k v [] = (k, v) ∷ []
  assign k v ((j, w) ∷ m) =
      if less k j
      then (k, v) ∷ (j, w) ∷ m
      else if less j k
      then (j, w) ∷ assign k v m
      else (j, v) ∷ m

  -- `m.emplace(k, v)`: an entry that is there already stays.
  unfoldable pub emplace : K → V → List (K × V) → List (K × V)
  emplace k v [] = (k, v) ∷ []
  emplace k v ((j, w) ∷ m) =
      if less k j
      then (k, v) ∷ (j, w) ∷ m
      else if less j k
      then (j, w) ∷ emplace k v m
      else (j, w) ∷ m

  -- `m.erase(k)`
  unfoldable pub erase : K → List (K × V) → List (K × V)
  erase k [] = []
  erase k ((j, w) ∷ m) = if same k j then m else (j, w) ∷ erase k m

  abbrev pub Above : K → List (K × V) → Type 0
  Above k [] = Unit
  Above k ((j, w) ∷ m) = (less k j ≡ true) × Above k m

  abbrev pub IsSorted : List (K × V) → Type 0
  IsSorted [] = Unit
  IsSorted ((k, v) ∷ m) = Above k m × IsSorted m

  pub Above-trans : (k j : K) (m : List (K × V)) → less k j ≡ true → Above j m → Above k m
  Above-trans k j [] p h = tt
  Above-trans k j ((i, v) ∷ m) p h = (o.trans k j i p h.0, Above-trans k j m p h.1)

  pub find_of_Above : (k : K) (m : List (K × V)) → Above k m → find k m ≡ none
  unfolding find
  find_of_Above k [] h = refl
  find_of_Above k ((j, v) ∷ m) h = ground (arith, find_of_Above k m h.1)

  pub find-assign :
      (k j : K) (v : V) (m : List (K × V))
      → find k (assign j v m) ≡ (if same k j then some v else find k m)
  unfolding find assign
  find-assign k j v [] = refl
  find-assign k j v ((i, w) ∷ m) =
      ground (arith, find-assign k j v m, o.total j i, o.total k j, o.irrefl j)

  pub find-emplace :
      (k j : K) (v : V) (m : List (K × V))
      → IsSorted m
      → find k (emplace j v m)
        ≡ (if same k j then (elim (find j m) [ none ↦ some v | some w ↦ some w ]) else find k m)
  unfolding find emplace
  find-emplace k j v [] h = ground arith
  find-emplace k j v ((i, w) ∷ m) h = ground (
    arith,
    find-emplace k j v m h.1,
    o.total j i,
    o.total k j,
    o.irrefl j,
    find_of_Above j m,
    Above-trans j i m,
  )

  pub find-erase :
      (k j : K) (m : List (K × V))
      → IsSorted m
      → find k (erase j m) ≡ (if same k j then none else find k m)
  unfolding find erase
  find-erase k j [] h = ground arith
  find-erase k j ((i, w) ∷ m) h =
      ground (arith, find-erase k j m h.1, find_of_Above i m h.0, o.total j i, o.total k i)

  pub assign-Above :
      (k j : K) (v : V) (m : List (K × V)) → less k j ≡ true → Above k m → Above k (assign j v m)
  unfolding assign
  assign-Above k j v [] p h = (p, tt)
  assign-Above k j v ((i, w) ∷ m) p h = ground (arith, assign-Above k j v m p h.1)

  pub assign-IsSorted : (k : K) (v : V) (m : List (K × V)) → IsSorted m → IsSorted (assign k v m)
  unfolding assign
  assign-IsSorted k v [] h = (tt, tt)
  assign-IsSorted k v ((j, w) ∷ m) h =
      ground (arith, assign-IsSorted k v m h.1, assign-Above j k v m, Above-trans k j m)

  pub emplace-Above :
      (k j : K) (v : V) (m : List (K × V)) → less k j ≡ true → Above k m → Above k (emplace j v m)
  unfolding emplace
  emplace-Above k j v [] p h = (p, tt)
  emplace-Above k j v ((i, w) ∷ m) p h = ground (arith, emplace-Above k j v m p h.1)

  pub emplace-IsSorted : (k : K) (v : V) (m : List (K × V)) → IsSorted m → IsSorted (emplace k v m)
  unfolding emplace
  emplace-IsSorted k v [] h = (tt, tt)
  emplace-IsSorted k v ((j, w) ∷ m) h =
      ground (arith, emplace-IsSorted k v m h.1, emplace-Above j k v m, Above-trans k j m)

  pub erase-Above : (k j : K) (m : List (K × V)) → Above k m → Above k (erase j m)
  unfolding erase
  erase-Above k j [] h = tt
  erase-Above k j ((i, w) ∷ m) h = ground (arith, erase-Above k j m h.1)

  pub erase-IsSorted : (k : K) (m : List (K × V)) → IsSorted m → IsSorted (erase k m)
  unfolding erase
  erase-IsSorted k [] h = tt
  erase-IsSorted k ((j, w) ∷ m) h = ground (arith, erase-IsSorted k m h.1, erase-Above j k m h.0)

  head_key_ext :
      (k j : K) (v w : V) (m n : List (K × V))
      → Above k m
      → Above j n
      → ((i : K) → find i ((k, v) ∷ m) ≡ find i ((j, w) ∷ n))
      → k ≡ j
  unfolding find
  head_key_ext k j v w m n hm hn e =
      o.total k j (ground (arith, e k, o.irrefl k, find_of_Above k n, Above-trans k j n, hn))
        (ground (arith, e j, o.irrefl j, find_of_Above j m, Above-trans j k m, hm))

  tail_map_ext :
      (k : K) (v w : V) (m n : List (K × V))
      → Above k m
      → Above k n
      → ((i : K) → find i ((k, v) ∷ m) ≡ find i ((k, w) ∷ n))
      → (i : K) → find i m ≡ find i n
  unfolding find
  tail_map_ext k v w m n hm hn e i =
      ground (arith, e i, o.total i k, find_of_Above k m hm, find_of_Above k n hn)

  -- Two ordered maps that give the same answers are the same list of entries.
  pub map_ext :
      (m n : List (K × V)) → IsSorted m → IsSorted n → ((k : K) → find k m ≡ find k n) → m ≡ n
  unfolding find
  map_ext [] [] hm hn e = refl
  map_ext [] ((j, w) ∷ n) hm hn e = ground (arith, e j, same_refl j)
  map_ext ((k, v) ∷ m) [] hm hn e = ground (arith, e k, same_refl k)
  map_ext ((k, v) ∷ m) ((j, w) ∷ n) hm hn e =
      let p : k ≡ j = head_key_ext k j v w m n hm.0 hn.0 e in
      let hn' : Above k n = subst (λ x. Above x n) (sym p) hn.0 in
      let e' : (i : K) → find i ((k, v) ∷ m) ≡ find i ((k, w) ∷ n) =
        λ i. subst (λ x. find i ((k, v) ∷ m) ≡ find i ((x, w) ∷ n)) (sym p) (e i) in
      let q : v ≡ w = ground (arith, e' k, same_refl k) in
      ap₂ ◌∷◌ (ap₂ (λ x y. (x, y)) p q) (map_ext m n hm.1 hn.1 (tail_map_ext k v w m n hm.0 hn' e'))
