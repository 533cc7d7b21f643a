-- ===== src/Config/Apply/Sets.antt =====
-- Applying the difference of two sets to the first gives the second.
use libsession_util.Prelude.{
  ◌≡◌, refl, subst, Option-cases, true, false, not, ◌&&◌, ◌||◌, List, [], ◌∷◌, none, some, arith,
  Bool-cases, inl, inr,
}
use mathlib.Core.Option.{some-injective}
use libsession_util.Prelude.Result.{ok}
use libsession_util.Containers.SortedSet
use libsession_util.Containers.SortedSet.{
  contains, IsSorted, contains-insert, contains-erase, insert-IsSorted, erase-IsSorted, set_ext,
}
use libsession_util.Config.Data.{Scalar, is_nil, scalar_ord}
use libsession_util.Config.Bt.{BtList, list, nil, cons, bt_scalars, get_bt_scalar-bt_scalar}
use libsession_util.Config.Diff.{walk_sets, diff_sets, deref_set}
use libsession_util.Config.Diff.Sets.{contains-added, contains-removed}
use libsession_util.Config.Apply.{insert_all, erase_all, apply_set_diff}

-- The two loops, on scalars.
abbrev union : List Scalar → List Scalar → List Scalar
union [] s = s
union (x ∷ l) s = union l (SortedSet.insert x s)

abbrev without : List Scalar → List Scalar → List Scalar
without [] s = s
without (x ∷ l) s = without l (SortedSet.erase x s)

insert_all-union : (l s : List Scalar) → insert_all (bt_scalars l) s ≡ ok (union l s)
unfolding insert_all
insert_all-union [] s = refl
insert_all-union (x ∷ l) s =
    rw (get_bt_scalar-bt_scalar x, insert_all) (insert_all-union l (SortedSet.insert x s))

erase_all-without : (l s : List Scalar) → erase_all (bt_scalars l) s ≡ ok (without l s)
unfolding erase_all
erase_all-without [] s = refl
erase_all-without (x ∷ l) s =
    rw (get_bt_scalar-bt_scalar x, erase_all) (erase_all-without l (SortedSet.erase x s))

union-IsSorted : (l s : List Scalar) → IsSorted s → IsSorted (union l s)
union-IsSorted [] s h = h
union-IsSorted (x ∷ l) s h = union-IsSorted l (SortedSet.insert x s) (insert-IsSorted x s h)

without-IsSorted : (l s : List Scalar) → IsSorted s → IsSorted (without l s)
without-IsSorted [] s h = h
without-IsSorted (x ∷ l) s h = without-IsSorted l (SortedSet.erase x s) (erase-IsSorted x s h)

contains-union :
    (x : Scalar) (l s : List Scalar) → contains x (union l s) ≡ (contains x l || contains x s)
unfolding contains
contains-union x [] s = refl
contains-union x (y ∷ l) s =
    ground (arith, contains-union x l (SortedSet.insert y s), contains-insert x y s)

contains-without :
    (x : Scalar) (l s : List Scalar)
    → IsSorted s
    → contains x (without l s) ≡ (not (contains x l) && contains x s)
unfolding contains
contains-without x [] s h = refl
contains-without x (y ∷ l) s h = ground (
  arith,
  contains-without x l (SortedSet.erase y s) (erase-IsSorted y s h),
  contains-erase x y s h,
)

-- Inserting what was added and erasing what was removed leads from the old set to the new one.
without-union :
    (old new : List Scalar)
    → IsSorted old
    → IsSorted new
    → without (walk_sets old new).removed (union (walk_sets old new).added old) ≡ new
without-union old new ho hn =
    let u = union (walk_sets old new).added old in
    let hu = union-IsSorted (walk_sets old new).added old ho in
    set_ext _ new (without-IsSorted (walk_sets old new).removed u hu) hn λ x. ground (
      arith,
      contains-without x (walk_sets old new).removed u hu,
      contains-union x (walk_sets old new).added old,
      contains-added x old new ho hn,
      contains-removed x old new ho hn,
    )

pub apply_set_diff_lem :
    (old new : List Scalar)
    → IsSorted old
    → IsSorted new
    → apply_set_diff
        (cons
          (list (bt_scalars (walk_sets old new).added))
          (cons (list (bt_scalars (walk_sets old new).removed)) nil))
        old
      ≡ ok new
unfolding apply_set_diff
apply_set_diff_lem old new ho hn =
    rw (insert_all-union, erase_all-without, without-union old new ho hn)

-- A set difference that is there leads from the old set to the new one.
pub diff_sets-some :
    (old new : List Scalar) (l : BtList)
    → IsSorted old
    → IsSorted new
    → diff_sets old new ≡ some l
    → apply_set_diff l old ≡ ok new
unfolding diff_sets
diff_sets-some old new l ho hn h =
    let f = apply_set_diff_lem old new ho hn in
    elim (Bool-cases (is_nil (walk_sets old new).added && is_nil (walk_sets old new).removed)) [
      | inl p ↦ absurd (ground arith)
      | inr p ↦ subst (λ x. apply_set_diff x old ≡ ok new) (some-injective _ _ (rw p at h)) f
    ]

eq_of_is_nil : (s : List Scalar) → is_nil s ≡ true → s ≡ []
eq_of_is_nil [] h = refl
eq_of_is_nil (x ∷ s) h = cc

-- Where there is no difference, the sets are equal.
pub diff_sets-none :
    (old new : List Scalar) → IsSorted old → IsSorted new → diff_sets old new ≡ none → old ≡ new
unfolding diff_sets
diff_sets-none old new ho hn h =
    let w = walk_sets old new in
    let a : w.added ≡ [] = eq_of_is_nil w.added (ground arith) in
    let r : w.removed ≡ [] = eq_of_is_nil w.removed (ground arith) in
    let f = without-union old new ho hn in
    subst (λ x. without x old ≡ new) r (subst (λ x. without w.removed (union x old) ≡ new) a f)

-- A new set that is not empty is built from nothing.
pub apply-new_set :
    (s : List Scalar)
    → IsSorted s
    → is_nil s ≡ false
    → apply_set_diff (deref_set (diff_sets [] s)) [] ≡ ok s
apply-new_set s hs h = elim (Option-cases (diff_sets [] s)) [
  | inl p ↦ absurd (ground (arith, diff_sets-none [] s tt hs p))
  | inr (l, p) ↦ rw p (diff_sets-some [] s l tt hs p)
]
