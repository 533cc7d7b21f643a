-- ===== src/User/Types/Read.antt =====
-- What is read back from the fields that the setters of src/config/internal.cpp have written.
use libsession_util.Prelude.{
  zero, suc, ◌≡◌, refl, Bool, true, false, not, ◌||◌, ◌==◌, Option, none, some, [], ◌∷◌, length,
  arith, if◌then◌else◌,
}
use libsession_util.Prelude.Int.{ℤ, pos, negsuc}
use libsession_util.Keys.{Bytes}
use libsession_util.Config.Data.{Scalar, string, is_nil}
use libsession_util.Config.Base.{ConfigBase, Env}
use libsession_util.Config.Base.Field.{
  FieldPath, as_string, as_int, is_positive, is_nonzero, lookup, get_clean, maybe_string, maybe_int,
}
use libsession_util.Config.Base.Field.Rows.{
  row, write, flag, positive_int, nonzero_int, nonempty_str, as_value, Changes, Changes-bind,
  assign_scalar-Writes, erase_field-Writes,
}
use libsession_util.Config.Base.Field.Refine.{view, path}
use libsession_util.Config.Base.Field.Read.{strings, ints, maybe_string-row, maybe_int-row}
use libsession_util.User.Types.{
  top_string, top_int, ProfilePic, no_pic, has_pic, or_else, pic_of, set_pair_if,
}

abbrev pub when : Bool → Scalar → Option Scalar
when t s = if t then some s else none

-- A pair of fields is written, or both are erased.
pub set_pair_if-Changes :
    (env : Env) (t : Bool) (f1 : FieldPath) (v1 : Scalar) (f2 : FieldPath) (v2 : Scalar)
    → Changes env
        (λ f. write (path f2) (when t v2) (write (path f1) (when t v1) f))
        (set_pair_if env t f1 v1 f2 v2)
unfolding set_pair_if
set_pair_if-Changes env true f1 v1 f2 v2 =
    Changes-bind env _ _ _ _ (assign_scalar-Writes env f1 v1) (assign_scalar-Writes env f2 v2)
set_pair_if-Changes env false f1 v1 f2 v2 =
    Changes-bind env _ _ _ _ (erase_field-Writes env f1) (erase_field-Writes env f2)

pub nonempty_str-read : (s : Bytes) → or_else (as_string (as_value (nonempty_str s))) [] ≡ s
nonempty_str-read [] = refl
nonempty_str-read (c ∷ s) = refl

pub flag-read : (b : Bool) → is_nonzero (or_else (as_int (as_value (flag b))) (pos 0)) ≡ b
flag-read true = refl
flag-read false = refl

pub nonzero_int-read : (i : ℤ) → or_else (as_int (as_value (nonzero_int i))) (pos 0) ≡ i
nonzero_int-read (pos zero) = refl
nonzero_int-read (pos (suc n)) = ground arith
nonzero_int-read (negsuc n) = refl

abbrev pub positive_or_zero : ℤ → ℤ
positive_or_zero i = if is_positive i then i else pos 0

pub positive_int-read :
    (i : ℤ) → or_else (as_int (as_value (positive_int i))) (pos 0) ≡ positive_or_zero i
positive_int-read (pos zero) = refl
positive_int-read (pos (suc n)) = ground arith
positive_int-read (negsuc n) = refl

pic_by_parts :
    (url key : Bytes)
    → pic_of
        (as_string (as_value (when (not (is_nil url || not (length key == 32))) (string url))))
        (as_string (as_value (when (not (is_nil url || not (length key == 32))) (string key))))
      ≡ (if not (is_nil url || not (length key == 32))
          then record { url = url; key = key }
          else no_pic)
pic_by_parts [] key = refl
pic_by_parts (c ∷ url) key = ground arith

pub pic-read :
    (pic : ProfilePic)
    → pic_of
        (as_string (as_value (when (has_pic pic) (string pic.url))))
        (as_string (as_value (when (has_pic pic) (string pic.key))))
      ≡ (if has_pic pic then pic else no_pic)
pic-read pic = pic_by_parts pic.url pic.key

pub top_string-row : (c : ConfigBase) → top_string c ≡ strings (row [] (view c))
unfolding top_string lookup maybe_string get_clean libsession_util.Containers.SortedMap.find
top_string-row c = maybe_string-row c.config.data_

pub top_int-row : (c : ConfigBase) → top_int c ≡ ints (row [] (view c))
unfolding top_int lookup maybe_int get_clean libsession_util.Containers.SortedMap.find
top_int-row c = maybe_int-row c.config.data_
