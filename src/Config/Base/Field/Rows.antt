-- ===== src/Config/Base/Field/Rows.antt =====
-- Several setters one after the other, on the fields of one dict: what each field of the dict holds
-- afterwards, and what is left alone.
use libsession_util.Prelude.{
  ◌≡◌, refl, ap, ◌∙◌, fun_ext, subst, inl, inr, Bool, true, false, not, ◌||◌, Bool-cases, Option,
  none, some, List, [], ◌∷◌, ◌++◌, if◌then◌else◌,
}
use libsession_util.Prelude.Result.{Result, Ensures, Ensures-bind, ◌>>=◌}
use libsession_util.Prelude.Int.{ℤ, pos}
use libsession_util.Order.{same, same_refl, eq_of_same}
use libsession_util.Keys.{Bytes, bytes_ord}
use libsession_util.Config.Data.{Scalar, int, string, Value, scalar, is_nil}
use libsession_util.Config.Base.{ConfigBase, Env}
use libsession_util.Config.Base.Field.{
  FieldPath, assign_scalar, erase_field, set_flag, set_positive_int, set_nonzero_int,
  set_nonempty_str, is_positive, is_nonzero,
}
use libsession_util.Config.Base.Field.View.{View, put, cut}
use libsession_util.Config.Base.Field.Total.{Returns, assign_scalar-Returns, erase_field-Returns}
use libsession_util.Config.Base.Field.Refine.{
  view, path, HasOrder, Shows, assign_scalar-Shows, erase_field-Shows,
}

-- The view after a field was given a value, or erased.
abbrev pub write : List Bytes → Option Scalar → View → View
write p none f = cut p f
write p (some s) f = put p (some (scalar s)) f

-- What a setter writes.
abbrev pub flag : Bool → Option Scalar
flag val = if val then some (int (pos 1)) else none

abbrev pub positive_int : ℤ → Option Scalar
positive_int val = if is_positive val then some (int val) else none

abbrev pub nonzero_int : ℤ → Option Scalar
nonzero_int val = if is_nonzero val then some (int val) else none

abbrev pub nonempty_str : Bytes → Option Scalar
nonempty_str val = if not (is_nil val) then some (string val) else none

-- A routine that changes the view of the data by `F` and keeps the data in order, and that returns
-- wherever `dirty()` does.
unfoldable pub Changes : Env → (View → View) → (ConfigBase → Result ConfigBase) → Type 0
Changes env F m =
    (c : ConfigBase) → (HasOrder c → Ensures (Shows (F (view c))) (m c)) × Returns env m c

pub Changes-bind :
    (env : Env) (F G : View → View) (m n : ConfigBase → Result ConfigBase)
    → Changes env F m
    → Changes env G n
    → Changes env (λ f. G (F f)) (λ c. m c >>= n)
unfolding Changes
Changes-bind env F G m n hm hn c = (
  λ h.
      Ensures-bind (Shows (F (view c))) _ (m c) n ((hm c).0 h)
        (λ c' s. subst (λ f. Ensures (Shows (G f)) (n c')) s.1 ((hn c').0 s.0)),
  λ can.
      let (c', e, can') = (hm c).1 can in
      let (c'', e', can'') = (hn c').1 can' in (c'', rw (e, e') refl, can''),
)

abbrev pub Writes : Env → List Bytes → Option Scalar → (ConfigBase → Result ConfigBase) → Type 0
Writes env p o m = Changes env (write p o) m

module _ (env : Env) (p : FieldPath) where
  pub assign_scalar-Writes : (s : Scalar) → Writes env (path p) (some s) (assign_scalar env s p)
  unfolding Changes
  assign_scalar-Writes s c = (assign_scalar-Shows env s p c, assign_scalar-Returns env s p c)

  pub erase_field-Writes : Writes env (path p) none (erase_field env p)
  unfolding Changes
  erase_field-Writes c = (erase_field-Shows env p c, erase_field-Returns env p c)

  -- A setter that assigns or erases.
  choice-Writes :
      (t : Bool) (s : Scalar)
      → Writes env
          (path p)
          (if t then some s else none)
          (λ c. if t then assign_scalar env s p c else erase_field env p c)
  choice-Writes true s = assign_scalar-Writes s
  choice-Writes false s = erase_field-Writes

  pub set_flag-Writes : (val : Bool) → Writes env (path p) (flag val) (set_flag env p val)
  unfolding set_flag
  set_flag-Writes val = choice-Writes val (int (pos 1))

  pub set_positive_int-Writes :
      (val : ℤ) → Writes env (path p) (positive_int val) (set_positive_int env p val)
  unfolding set_positive_int
  set_positive_int-Writes val = choice-Writes (is_positive val) (int val)

  pub set_nonzero_int-Writes :
      (val : ℤ) → Writes env (path p) (nonzero_int val) (set_nonzero_int env p val)
  unfolding set_nonzero_int
  set_nonzero_int-Writes val = choice-Writes (is_nonzero val) (int val)

  pub set_nonempty_str-Writes :
      (val : Bytes) → Writes env (path p) (nonempty_str val) (set_nonempty_str env p val)
  unfolding set_nonempty_str
  set_nonempty_str-Writes val = choice-Writes (not (is_nil val)) (string val)

-- The fields of the dict at a path.
abbrev pub Row : Type 0
Row = Bytes → Option Value

abbrev pub row : List Bytes → View → Row
row dir f k = f (dir ++ (k ∷ []))

abbrev pub as_value : Option Scalar → Option Value
as_value none = none
as_value (some s) = some (scalar s)

abbrev pub put_row : Bytes → Option Scalar → Row → Row
put_row k o r j = if same j k then as_value o else r j

write-cons :
    (k : Bytes) (p : List Bytes) (o : Option Scalar) (f : View) (j : Bytes) (q : List Bytes)
    → write (k ∷ p) o f (j ∷ q) ≡ (if same j k then write p o (λ r. f (k ∷ r)) q else f (j ∷ q))
unfolding put cut
write-cons k p none f j q = refl
write-cons k p (some s) f j q = refl

write-nil : (o : Option Scalar) (f : View) → write [] o f [] ≡ as_value o
unfolding put cut
write-nil none f = refl
write-nil (some s) f = refl

pub row-write :
    (dir : List Bytes) (k : Bytes) (o : Option Scalar) (f : View)
    → row dir (write (dir ++ (k ∷ [])) o f) ≡ put_row k o (row dir f)
row-write [] k o f =
    fun_ext (λ j. write-cons k [] o f j [] ∙ rw (write-nil o (λ r. f (k ∷ r))) refl)
row-write (i ∷ dir) k o f = fun_ext (λ j.
    write-cons i (dir ++ (k ∷ [])) o f i (dir ++ (j ∷ []))
    ∙ rw (same_refl i) (ap (λ (r : Row). r j) (row-write dir k o (λ q. f (i ∷ q)))))

-- Several fields, one after the other.
abbrev pub Fields : Type 0
Fields = List (Bytes × Option Scalar)

abbrev pub write_all : List Bytes → Fields → View → View
write_all dir [] f = f
write_all dir ((k, o) ∷ ws) f = write_all dir ws (write (dir ++ (k ∷ [])) o f)

abbrev pub put_all : Fields → Row → Row
put_all [] r = r
put_all ((k, o) ∷ ws) r = put_all ws (put_row k o r)

pub row-write_all :
    (dir : List Bytes) (ws : Fields) (f : View)
    → row dir (write_all dir ws f) ≡ put_all ws (row dir f)
row-write_all dir [] f = refl
row-write_all dir ((k, o) ∷ ws) f =
    row-write_all dir ws (write (dir ++ (k ∷ [])) o f) ∙ ap (put_all ws) (row-write dir k o f)

-- Neither path leads through the other.
unfoldable pub apart : List Bytes → List Bytes → Bool
apart [] q = false
apart (k ∷ p) [] = false
apart (k ∷ p) (j ∷ q) = not (same j k) || apart p q

pub write-apart :
    (p : List Bytes) (o : Option Scalar) (f : View) (q : List Bytes)
    → apart p q ≡ true
    → write p o f q ≡ f q
unfolding apart
write-apart [] o f q h = absurd cc
write-apart (k ∷ p) o f [] h = absurd cc
write-apart (k ∷ p) o f (j ∷ q) h = write-cons k p o f j q ∙ elim (Bool-cases (same j k)) [
  | inl e ↦ rw (e, eq_of_same j k e) (write-apart p o (λ r. f (k ∷ r)) q (rw e at h))
  | inr e ↦ rw e refl
]

apart-append : (p r q : List Bytes) → apart p q ≡ true → apart (p ++ r) q ≡ true
unfolding apart
apart-append [] r q h = absurd cc
apart-append (k ∷ p) r [] h = h
apart-append (k ∷ p) r (j ∷ q) h = elim (Bool-cases (same j k)) [
  | inl e ↦ rw e (apart-append p r q (rw e at h))
  | inr e ↦ rw e refl
]

pub write_all-apart :
    (dir : List Bytes) (ws : Fields) (f : View) (q : List Bytes)
    → apart dir q ≡ true
    → write_all dir ws f q ≡ f q
write_all-apart dir [] f q h = refl
write_all-apart dir ((k, o) ∷ ws) f q h =
    write_all-apart dir ws (write (dir ++ (k ∷ [])) o f) q h
    ∙ write-apart (dir ++ (k ∷ [])) o f q (apart-append dir (k ∷ []) q h)
