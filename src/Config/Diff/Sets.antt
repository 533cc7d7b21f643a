-- ===== src/Config/Diff/Sets.antt =====
-- The difference of two sets holds exactly the elements of one side that the other lacks.
use libsession_util.Prelude.{◌≡◌, refl, not, ◌&&◌, List, [], ◌∷◌, arith, Bool-cases, inl, inr}
use libsession_util.Order.{less}
use libsession_util.Containers.SortedSet.{
  contains, IsSorted, Above, not_contains_of_Above, Above-trans,
}
use libsession_util.Config.Data.{Scalar, scalar_ord}
use libsession_util.Config.Diff.{walk_sets}

-- An element is added exactly if only the new set has it.
pub contains-added :
    (x : Scalar) (old new : List Scalar)
    → IsSorted old
    → IsSorted new
    → contains x (walk_sets old new).added ≡ (contains x new && not (contains x old))
unfolding walk_sets contains
contains-added x [] [] ho hn = refl
contains-added x [] (n ∷ new) ho hn = ground (arith, contains-added x [] new tt hn.1)
contains-added x (o ∷ old) [] ho hn = contains-added x old [] ho.1 tt
contains-added x (o ∷ old) (n ∷ new) ho hn = elim (Bool-cases (less n o)) [
  | inl p ↦ rw p (
      ground (
        arith,
        contains-added x (o ∷ old) new ho hn.1,
        scalar_ord.total x n,
        scalar_ord.trans n o n,
        scalar_ord.irrefl n,
        not_contains_of_Above n old (Above-trans n o old p ho.0),
      ))
  | inr p ↦ elim (Bool-cases (less o n)) [
    | inl q ↦
        rw (p, q)
          (ground (
            arith,
            contains-added x old (n ∷ new) ho.1 hn,
            scalar_ord.total x o,
            not_contains_of_Above o new (Above-trans o n new q hn.0),
          ))
    | inr q ↦
        let e : o ≡ n = scalar_ord.total o n q p in
        rw (p, q)
          (ground (
            arith,
            contains-added x old new ho.1 hn.1,
            scalar_ord.total x n,
            not_contains_of_Above n new hn.0,
            not_contains_of_Above o old ho.0,
          ))
  ]
]

-- An element is removed exactly if only the old set has it.
pub contains-removed :
    (x : Scalar) (old new : List Scalar)
    → IsSorted old
    → IsSorted new
    → contains x (walk_sets old new).removed ≡ (contains x old && not (contains x new))
unfolding walk_sets contains
contains-removed x [] [] ho hn = refl
contains-removed x [] (n ∷ new) ho hn = contains-removed x [] new tt hn.1
contains-removed x (o ∷ old) [] ho hn = ground (arith, contains-removed x old [] ho.1 tt)
contains-removed x (o ∷ old) (n ∷ new) ho hn = elim (Bool-cases (less n o)) [
  | inl p ↦ rw p (
      ground (
        arith,
        contains-removed x (o ∷ old) new ho hn.1,
        scalar_ord.total x n,
        scalar_ord.trans n o n,
        scalar_ord.irrefl n,
        not_contains_of_Above n old (Above-trans n o old p ho.0),
      ))
  | inr p ↦ elim (Bool-cases (less o n)) [
    | inl q ↦
        rw (p, q)
          (ground (
            arith,
            contains-removed x old (n ∷ new) ho.1 hn,
            scalar_ord.total x o,
            not_contains_of_Above o new (Above-trans o n new q hn.0),
          ))
    | inr q ↦
        let e : o ≡ n = scalar_ord.total o n q p in
        rw (p, q)
          (ground (
            arith,
            contains-removed x old new ho.1 hn.1,
            scalar_ord.total x n,
            not_contains_of_Above n new hn.0,
            not_contains_of_Above o old ho.0,
          ))
  ]
]

-- What is below both sets is below both parts of their difference.
pub walk_sets-Above :
    (x : Scalar) (old new : List Scalar)
    → Above x old
    → Above x new
    → Above x (walk_sets old new).added × Above x (walk_sets old new).removed
unfolding walk_sets
walk_sets-Above x [] [] ho hn = (tt, tt)
walk_sets-Above x [] (n ∷ new) ho hn = ground (arith, walk_sets-Above x [] new tt hn.1)
walk_sets-Above x (o ∷ old) [] ho hn = ground (arith, walk_sets-Above x old [] ho.1 tt)
walk_sets-Above x (o ∷ old) (n ∷ new) ho hn = ground (
  arith,
  walk_sets-Above x (o ∷ old) new ho hn.1,
  walk_sets-Above x old (n ∷ new) ho.1 hn,
  walk_sets-Above x old new ho.1 hn.1,
)

-- Both parts of the difference come out in ascending order.
pub walk_sets-IsSorted :
    (old new : List Scalar)
    → IsSorted old
    → IsSorted new
    → IsSorted (walk_sets old new).added × IsSorted (walk_sets old new).removed
unfolding walk_sets
walk_sets-IsSorted [] [] ho hn = (tt, tt)
walk_sets-IsSorted [] (n ∷ new) ho hn =
    ground (arith, walk_sets-IsSorted [] new tt hn.1, walk_sets-Above n [] new tt hn.0)
walk_sets-IsSorted (o ∷ old) [] ho hn =
    ground (arith, walk_sets-IsSorted old [] ho.1 tt, walk_sets-Above o old [] ho.0 tt)
walk_sets-IsSorted (o ∷ old) (n ∷ new) ho hn = ground (
  arith,
  walk_sets-IsSorted (o ∷ old) new ho hn.1,
  walk_sets-IsSorted old (n ∷ new) ho.1 hn,
  walk_sets-IsSorted old new ho.1 hn.1,
  walk_sets-Above n (o ∷ old) new,
  walk_sets-Above o old (n ∷ new),
  Above-trans n o old,
  Above-trans o n new,
)
