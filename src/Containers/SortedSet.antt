-- ===== src/Containers/SortedSet.antt =====
-- `std::set`: the elements in ascending order, without duplicates.
use libsession_util.Prelude.{
  ◌≡◌, refl, sym, ap₂, subst, Bool, true, false, not, ◌&&◌, ◌||◌, List, [], ◌∷◌, arith,
  if◌then◌else◌, All,
}
use libsession_util.Order.{Ord, less, same, same_refl}

module _ {ℓ} {A : Type ℓ} ⦃o : Ord A⦄ where
  -- `s.count(x)`
  unfoldable pub contains : A → List A → Bool
  contains x [] = false
  contains x (y ∷ ys) = same x y || contains x ys

  -- `s.insert(x)`: an equal element that is there already stays.
  unfoldable pub insert : A → List A → List A
  insert x [] = x ∷ []
  insert x (y ∷ ys) = if less x y then x ∷ y ∷ ys else if less y x then y ∷ insert x ys else y ∷ ys

  -- `s.erase(x)`
  unfoldable pub erase : A → List A → List A
  erase x [] = []
  erase x (y ∷ ys) = if same x y then ys else y ∷ erase x ys

  abbrev pub Above : A → List A → Type 0
  Above x = All (λ y. less x y ≡ true)

  abbrev pub IsSorted : List A → Type 0
  IsSorted [] = Unit
  IsSorted (x ∷ xs) = Above x xs × IsSorted xs

  pub Above-trans : (x y : A) (s : List A) → less x y ≡ true → Above y s → Above x s
  Above-trans x y [] p h = tt
  Above-trans x y (z ∷ s) p h = (o.trans x y z p h.0, Above-trans x y s p h.1)

  pub not_contains_of_Above : (x : A) (s : List A) → Above x s → contains x s ≡ false
  unfolding contains
  not_contains_of_Above x [] h = refl
  not_contains_of_Above x (y ∷ s) h = ground (arith, not_contains_of_Above x s h.1)

  pub contains-insert :
      (x y : A) (s : List A) → contains x (insert y s) ≡ (same x y || contains x s)
  unfolding contains insert
  contains-insert x y [] = refl
  contains-insert x y (z ∷ s) = ground (arith, contains-insert x y s, o.total y z, o.irrefl y)

  pub contains-erase :
      (x y : A) (s : List A)
      → IsSorted s
      → contains x (erase y s) ≡ (not (same x y) && contains x s)
  unfolding contains erase
  contains-erase x y [] h = ground arith
  contains-erase x y (z ∷ s) h =
      ground
        (arith, contains-erase x y s h.1, not_contains_of_Above z s h.0, o.total y z, o.total x z)

  pub insert-Above : (x y : A) (s : List A) → less x y ≡ true → Above x s → Above x (insert y s)
  unfolding insert
  insert-Above x y [] p h = (p, tt)
  insert-Above x y (z ∷ s) p h = ground (arith, insert-Above x y s p h.1)

  pub insert-IsSorted : (x : A) (s : List A) → IsSorted s → IsSorted (insert x s)
  unfolding insert
  insert-IsSorted x [] h = (tt, tt)
  insert-IsSorted x (y ∷ s) h =
      ground (arith, insert-IsSorted x s h.1, insert-Above y x s, Above-trans x y s)

  pub erase-Above : (x y : A) (s : List A) → Above x s → Above x (erase y s)
  unfolding erase
  erase-Above x y [] h = tt
  erase-Above x y (z ∷ s) h = ground (arith, erase-Above x y s h.1)

  pub erase-IsSorted : (x : A) (s : List A) → IsSorted s → IsSorted (erase x s)
  unfolding erase
  erase-IsSorted x [] h = tt
  erase-IsSorted x (y ∷ s) h = ground (arith, erase-IsSorted x s h.1, erase-Above y x s h.0)

  tail_ext :
      (x : A) (s t : List A)
      → Above x s
      → Above x t
      → ((y : A) → contains y (x ∷ s) ≡ contains y (x ∷ t))
      → (y : A) → contains y s ≡ contains y t
  unfolding contains
  tail_ext x s t hs ht e y =
      ground (arith, e y, o.total y x, not_contains_of_Above x s hs, not_contains_of_Above x t ht)

  head_ext :
      (x y : A) (s t : List A)
      → Above x s
      → Above y t
      → ((z : A) → contains z (x ∷ s) ≡ contains z (y ∷ t))
      → x ≡ y
  unfolding contains
  head_ext x y s t hs ht e =
      o.total x y
        (ground (arith, e x, o.irrefl x, not_contains_of_Above x t, Above-trans x y t, ht))
        (ground (arith, e y, o.irrefl y, not_contains_of_Above y s, Above-trans y x s, hs))

  -- Two ordered sets with the same elements are the same list.
  pub set_ext :
      (s t : List A) → IsSorted s → IsSorted t → ((x : A) → contains x s ≡ contains x t) → s ≡ t
  unfolding contains
  set_ext [] [] hs ht e = refl
  set_ext [] (y ∷ t) hs ht e = ground (arith, e y, same_refl y)
  set_ext (x ∷ s) [] hs ht e = ground (arith, e x, same_refl x)
  set_ext (x ∷ s) (y ∷ t) hs ht e =
      let p : x ≡ y = head_ext x y s t hs.0 ht.0 e in
      ap₂ ◌∷◌ p (
        set_ext s t hs.1 ht.1 (
          tail_ext x s t hs.0 (subst (λ w. Above w t) (sym p) ht.0)
            (λ z. subst (λ w. contains z (x ∷ s) ≡ contains z (w ∷ t)) (sym p) (e z))))
