-- ===== src/Config/Wire/Order.antt =====
-- The order check of `load_diff` on the elements of a set diff: it accepts the elements of an
-- ordered set, and lists of two or more elements that it accepts hold scalars only.
use libsession_util.Prelude.{◌≡◌, refl, some, List, [], ◌∷◌}
use libsession_util.Prelude.Result.{ok, guard, >>=-eq-ok, config_parse_error}
use libsession_util.Order.{less}
use libsession_util.Keys.{bytes_ord, int_ord}
use libsession_util.Containers.SortedSet
use libsession_util.Config.Data.{Scalar, int, string, scalar_ord}
use libsession_util.Config.Bt.{
  BtValue, BtList, integer, text, list, subdict, nil, cons, bt_scalar, bt_scalars, get_bt_scalar,
}
use libsession_util.Config.Wire.{check_scalar_order, check_sublist}

-- The order check on two scalars is the order of the variant.
check-bt_scalar :
    (a b : Scalar)
    → check_scalar_order (bt_scalar a) (bt_scalar b) ≡ guard (less a b) config_parse_error
unfolding check_scalar_order
check-bt_scalar (int a) (int b) = refl
check-bt_scalar (int a) (string b) = refl
check-bt_scalar (string a) (int b) = refl
check-bt_scalar (string a) (string b) = refl

-- The elements of an ordered set pass the check.
pub check_sublist-bt_scalars :
    (s : List Scalar) → SortedSet.IsSorted s → check_sublist (bt_scalars s) ≡ ok tt
unfolding check_sublist
check_sublist-bt_scalars [] h = refl
check_sublist-bt_scalars (x ∷ []) h = refl
check_sublist-bt_scalars (x ∷ y ∷ s) h =
    rw (check-bt_scalar x y, h.0.0) (check_sublist-bt_scalars (y ∷ s) h.1)

abbrev pub IsScalar : BtValue → Type 0
IsScalar v = (x : Scalar) × (get_bt_scalar v ≡ some x)

abbrev pub AllScalars : BtList → Type 0
AllScalars nil = Unit
AllScalars (cons v l) = IsScalar v × AllScalars l

-- The check looks at no element of a list of one.
abbrev pub LoneIsScalar : BtList → Type 0
LoneIsScalar (cons v nil) = IsScalar v
LoneIsScalar _ = Unit

checked_scalars : (a b : BtValue) → check_scalar_order a b ≡ ok tt → IsScalar a × IsScalar b
unfolding check_scalar_order get_bt_scalar
checked_scalars (integer a) (integer b) h = ((int a, refl), (int b, refl))
checked_scalars (integer a) (text b) h = ((int a, refl), (string b, refl))
checked_scalars (text a) (integer b) h = cc
checked_scalars (text a) (text b) h = ((string a, refl), (string b, refl))
checked_scalars (integer a) b h = cc
checked_scalars (text a) b h = cc
checked_scalars (list a) b h = cc
checked_scalars (subdict a) b h = cc

pub AllScalars-of_check : (l : BtList) → check_sublist l ≡ ok tt → LoneIsScalar l → AllScalars l
unfolding check_sublist
AllScalars-of_check nil h p = tt
AllScalars-of_check (cons a nil) h p = (p, tt)
AllScalars-of_check (cons a (cons b nil)) h p =
    let (u, hu, h1) = >>=-eq-ok (check_scalar_order a b) _ h in
    let (sa, sb) = checked_scalars a b hu in (sa, (sb, tt))
AllScalars-of_check (cons a (cons b (cons c l))) h p =
    let (u, hu, h1) = >>=-eq-ok (check_scalar_order a b) _ h in
    ((checked_scalars a b hu).0, AllScalars-of_check (cons b (cons c l)) h1 tt)
