-- ===== src/Config/Base/Field/Read.antt =====
-- Reading the fields of a subdict (`data[…].dict()`, then `maybe_string` and `maybe_int`), in terms
-- of the view of the object's data.
use libsession_util.Prelude.{
  ◌≡◌, refl, sym, ap, ◌∙◌, fun_ext, inl, inr, not, ◌&&◌, Option, Option-cases, none, some, List, [],
  ◌∷◌, ◌++◌,
}
use libsession_util.Prelude.Int.{ℤ}
use libsession_util.Prelude.Result.{Ensures, Ensures-ok, Ensures-if, Ensures-bind}
use libsession_util.Order.{same_refl}
use libsession_util.Keys.{Bytes, bytes_ord}
use libsession_util.Config.Data.{
  Value, Dict, dict, set, scalar, find, erase, IsOrdered, IsOrdered-HasSortedKeys, find-erase,
  find-assign, find-IsOrdered,
}
use libsession_util.Config.Prune.Laws.{leaf}
use libsession_util.Config.Base.{ConfigBase, Env, is_dirty}
use libsession_util.Config.Base.Field.{
  FieldPath, as_dict, as_string, as_int, lookup, get_clean, maybe_string, maybe_int, change,
  change_dirty, erase_field,
}
use libsession_util.Config.Message.Read.{is_set}
use libsession_util.Config.Base.State.{make_dirty}
use libsession_util.Config.Base.Field.Laws.{lookup-cons, and_right}
use libsession_util.Config.Base.Field.View.{
  below?, below-no_dict, not_found, leaf-cons, dict_of_as_dict, change-cons,
}
use libsession_util.Config.Base.Field.Refine.{
  view, path, HasOrder, Shows, not_set, make_dirty-Shows,
}
use libsession_util.Config.Base.Field.Rows.{Row, row}

-- The leaf of a value that stands by itself.
as_string-leaf : (o : Option Value) → as_string (below? o []) ≡ as_string o
as_string-leaf none = refl
as_string-leaf (some (dict d)) = unfold leaf in refl
as_string-leaf (some (set [])) = unfold leaf in refl
as_string-leaf (some (set (s ∷ t))) = unfold leaf in refl
as_string-leaf (some (scalar s)) = unfold leaf in refl

as_int-leaf : (o : Option Value) → as_int (below? o []) ≡ as_int o
as_int-leaf none = refl
as_int-leaf (some (dict d)) = unfold leaf in refl
as_int-leaf (some (set [])) = unfold leaf in refl
as_int-leaf (some (set (s ∷ t))) = unfold leaf in refl
as_int-leaf (some (scalar s)) = unfold leaf in refl

abbrev pub strings : Row → Bytes → Option Bytes
strings r k = as_string (r k)

abbrev pub ints : Row → Bytes → Option ℤ
ints r k = as_int (r k)

abbrev pub dict_row : Dict → Row
dict_row d k = leaf (k ∷ []) (dict d)

pub maybe_string-row : (d : Dict) → maybe_string d ≡ strings (dict_row d)
unfolding maybe_string
maybe_string-row d =
    fun_ext (λ k. sym (ap as_string (leaf-cons k [] d) ∙ as_string-leaf (find k d)))

pub maybe_int-row : (d : Dict) → maybe_int d ≡ ints (dict_row d)
unfolding maybe_int
maybe_int-row d = fun_ext (λ k. sym (ap as_int (leaf-cons k [] d) ∙ as_int-leaf (find k d)))

below-no_dict_at :
    (o : Option Value) (p : List Bytes) (k : Bytes)
    → as_dict o ≡ none
    → below? o (p ++ (k ∷ [])) ≡ none
below-no_dict_at o [] k h = below-no_dict o k [] h
below-no_dict_at o (j ∷ p) k h = below-no_dict o j (p ++ (k ∷ [])) h

-- A leaf below a path is a leaf of the value at the path.
leaf_along :
    (ks : List Bytes) (last k : Bytes) (d : Dict)
    → leaf ((ks ++ (last ∷ [])) ++ (k ∷ [])) (dict d) ≡ below? (lookup ks last d) (k ∷ [])
leaf_along [] last k d = unfold lookup in leaf-cons last (k ∷ []) d
leaf_along (i ∷ ks) last k d =
    leaf-cons i ((ks ++ (last ∷ [])) ++ (k ∷ [])) d ∙ elim (Option-cases (as_dict (find i d))) [
      | inl n ↦
          rw (lookup-cons i ks last d, n) (below-no_dict_at (find i d) (ks ++ (last ∷ [])) k n)
      | inr (sub, n) ↦
          rw (lookup-cons i ks last d, dict_of_as_dict (find i d) sub n) (leaf_along ks last k sub)
    ]

as_int-lookup :
    (ks : List Bytes) (last : Bytes) (d : Dict)
    → as_int (lookup ks last d) ≡ as_int (leaf (ks ++ (last ∷ [])) (dict d))
as_int-lookup [] last d =
    unfold lookup in sym (ap as_int (leaf-cons last [] d) ∙ as_int-leaf (find last d))
as_int-lookup (k ∷ ks) last d = elim (Option-cases (as_dict (find k d))) [
  | inl n ↦
      rw (lookup-cons k ks last d, n, leaf-cons k (ks ++ (last ∷ [])) d)
        (sym (ap as_int (below-no_dict_at (find k d) ks last n)))
  | inr (sub, n) ↦
      rw
        (
          lookup-cons k ks last d,
          n,
          leaf-cons k (ks ++ (last ∷ [])) d,
          dict_of_as_dict (find k d) sub n,
        )
        (as_int-lookup ks last sub)
]

-- Where a field is seen below a path, a dict stands there, and its fields are the ones seen.
pub dict_of_row :
    (c : ConfigBase) (p : FieldPath) (k : Bytes) (v : Value)
    → row (path p) (view c) k ≡ some v
    → (d : Dict) × (as_dict (get_clean c p) ≡ some d) × (dict_row d ≡ row (path p) (view c))
unfolding get_clean
dict_of_row c p k v e =
    let along : (j : Bytes) → row (path p) (view c) j ≡ below? (get_clean c p) (j ∷ []) =
      λ j. leaf_along p.inter_keys p.last_key j c.config.data_ in
    elim (Option-cases (as_dict (get_clean c p))) [
      | inl n ↦ absurd (not_found (sym (below-no_dict (get_clean c p) k [] n) ∙ sym (along k) ∙ e))
      | inr (d, n) ↦
          (d, n, fun_ext (λ j. sym (along j ∙ rw (dict_of_as_dict (get_clean c p) d n) refl)))
    ]

lookup-change-erase :
    (ks : List Bytes) (last : Bytes) (d : Dict)
    → IsOrdered d
    → lookup ks last (change (erase last) ks d) ≡ none
lookup-change-erase [] last d h =
    unfold change lookup in
    (find-erase last last d (IsOrdered-HasSortedKeys d h) ∙ rw (same_refl last) refl)
lookup-change-erase (k ∷ ks) last d h = elim (Option-cases (as_dict (find k d))) [
  | inl n ↦ rw (change-cons (erase last) k ks d none n, lookup-cons k ks last d, n) refl
  | inr (sub, n) ↦
      let found = dict_of_as_dict (find k d) sub n in
      rw
        (
          change-cons (erase last) k ks d (some sub) n,
          lookup-cons,
          find-assign k k (dict (change (erase last) ks sub)) d,
          same_refl k,
        )
        (lookup-change-erase ks last sub (find-IsOrdered k d (dict sub) h found))
]

-- After `erase()` the field is not there, where the data was in order.
pub get_clean-erase_field :
    (env : Env) (p : FieldPath) (c : ConfigBase)
    → HasOrder c
    → Ensures (λ c'. get_clean c' p ≡ none) (erase_field env p c)
unfolding erase_field get_clean change_dirty
get_clean-erase_field env p c h =
    Ensures-if _ (not (is_dirty c) && not (is_set (get_clean c p))) _ _
      (λ t. Ensures-ok _ _ (not_set (get_clean c p) (and_right (not (is_dirty c)) _ t)))
      (λ t.
        Ensures-bind (Shows (view c)) _ (make_dirty env c) _ (make_dirty-Shows env c h) (λ c' s.
          Ensures-ok _ _ (lookup-change-erase p.inter_keys p.last_key c'.config.data_ s.0)))

-- Where no dict stands at a path, nothing is seen below it.
pub row_of_no_dict :
    (c : ConfigBase) (p : FieldPath) (k : Bytes)
    → as_dict (get_clean c p) ≡ none
    → row (path p) (view c) k ≡ none
unfolding get_clean
row_of_no_dict c p k n =
    leaf_along p.inter_keys p.last_key k c.config.data_ ∙ below-no_dict (get_clean c p) k [] n

-- The fields of a dict at a path are the ones seen below the path.
pub row_of_dict :
    (c : ConfigBase) (p : FieldPath) (d : Dict)
    → as_dict (get_clean c p) ≡ some d
    → dict_row d ≡ row (path p) (view c)
unfolding get_clean
row_of_dict c p d n = fun_ext (λ j. sym (
    leaf_along p.inter_keys p.last_key j c.config.data_
    ∙ rw (dict_of_as_dict (get_clean c p) d n) refl))

-- An integer read through a field is the one seen at the field's path.
pub as_int-row :
    (c : ConfigBase) (p : FieldPath) → as_int (get_clean c p) ≡ as_int (view c (path p))
unfolding get_clean
as_int-row c p = as_int-lookup p.inter_keys p.last_key c.config.data_
