-- ===== src/BtMerge.antt =====
-- `session::bt::merge` (src/bt_merge.cpp) and `merge_sorted` (include/session/bt_merge.hpp): the
-- merge of two dicts, and of two sorted lists.
pub mod Laws
use libsession_util.Prelude.{
  Bool, true, false, not, Option, none, some, List, [], ◌∷◌, if◌then◌else◌,
}
use libsession_util.Order.{Ord, less}

module _ {K V : Type 0} ⦃o : Ord K⦄ where
  -- The loop while the front of `a` is the pair (k, v): `rest` goes on behind it.
  unfoldable pub merge_entry : K → V → (List (K × V) → List (K × V)) → List (K × V) → List (K × V)
  merge_entry k v rest [] = (k, v) ∷ rest []
  merge_entry k v rest ((j, w) ∷ b) =
      let later = (j, w) ∷ merge_entry k v rest b in
      let equal = (k, v) ∷ rest b in
      let before = (k, v) ∷ rest ((j, w) ∷ b) in
      if less k j then before else if less j k then later else equal

  -- `merge`
  unfoldable pub merge_dicts : List (K × V) → List (K × V) → List (K × V)
  unfolding merge_entry
  merge_dicts [] b = b
  merge_dicts ((k, v) ∷ a) b = merge_entry k v (merge_dicts a) b

module _ {A : Type 0} (cmp : A → A → Bool) where
  -- The loops of `merge_sorted` while `x` is the front of `a`.
  unfoldable pub sorted_step : A → Bool → (List A → List A) → List A → List A
  sorted_step x duplicates rest [] = x ∷ rest []
  sorted_step x duplicates rest (y ∷ b) =
      let later = sorted_step x duplicates rest b in
      let before = x ∷ rest (y ∷ b) in
      if duplicates
      then (if not (cmp x y) then y ∷ later else before)
      else if cmp y x
      then y ∷ later
      else if cmp x y
      then before
      else later

  -- `merge_sorted`
  unfoldable pub merge_sorted : Bool → List A → List A → List A
  unfolding sorted_step
  merge_sorted duplicates [] b = b
  merge_sorted duplicates (x ∷ a) b = sorted_step x duplicates (merge_sorted duplicates a) b

abbrev pub or_else {ℓ} : {A : Type ℓ} → Option A → Option A → Option A
or_else none b = b
or_else (some a) b = some a
