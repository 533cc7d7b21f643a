-- ===== src/Config/Base/Field/View.antt =====
-- The data of a config object seen from outside: the scalar, or the set that is not empty, at each
-- path of keys. The setters of include/session/config/base.hpp change that view in one place.
use libsession_util.Prelude.{
  ◌≡◌, refl, sym, ap, ◌∙◌, Option-cases, fun_ext, inl, inr, Bool, true, false, Bool-cases, Option,
  none, some, List, [], ◌∷◌, ◌++◌, if◌then◌else◌,
}
use libsession_util.Order.{same, eq_of_same}
use libsession_util.Keys.{Bytes, bytes_ord}
use libsession_util.Config.Data.{
  Value, Dict, dict, set, scalar, empty, find, assign, erase, find-assign, find-erase, find-empty,
  IsOrdered, IsOrdered-HasSortedKeys, find-IsOrdered,
}
use libsession_util.Config.Prune.Laws.{leaf}
use libsession_util.Config.Base.Field.Laws.{lookup-cons, update-cons, descend_as_lookup}
use libsession_util.Config.Base.Field.{as_dict, dict_or_empty, lookup, update, change}

abbrev pub View : Type 0
View = List Bytes → Option Value

-- The view after a value that is not a dict was stored at a path: nothing is left below the path,
-- and what stands above it is a dict.
unfoldable pub put : List Bytes → Option Value → View → View
put [] v f [] = v
put [] v f (j ∷ q) = none
put (k ∷ p) v f [] = none
put (k ∷ p) v f (j ∷ q) = if same j k then put p v (λ r. f (k ∷ r)) q else f (j ∷ q)

-- The view after what stands at a path was erased.
unfoldable pub cut : List Bytes → View → View
cut [] f q = none
cut (k ∷ p) f [] = f []
cut (k ∷ p) f (j ∷ q) = if same j k then cut p (λ r. f (k ∷ r)) q else f (j ∷ q)

abbrev below : Value → View
below v q = leaf q v

abbrev pub below? : Option Value → View
below? none q = none
below? (some v) q = leaf q v

pub leaf-cons :
    (k : Bytes) (q : List Bytes) (d : Dict) → leaf (k ∷ q) (dict d) ≡ below? (find k d) q
unfolding leaf
leaf-cons k q d = elim (Option-cases (find k d)) [
  | inl p ↦ rw (leaf, p) refl
  | inr (v, p) ↦ rw (leaf, p) refl
]

leaf_of_empty : (q : List Bytes) → leaf q (dict empty) ≡ none
unfolding leaf
leaf_of_empty [] = refl
leaf_of_empty (k ∷ q) = rw (leaf-cons k q empty, find-empty k) refl

-- A value that has nothing below it.
abbrev pub is_dict : Value → Bool
is_dict (dict d) = true
is_dict (set s) = false
is_dict (scalar s) = false

nothing_below : (v : Value) (j : Bytes) (q : List Bytes) → is_dict v ≡ false → leaf (j ∷ q) v ≡ none
unfolding leaf
nothing_below (dict d) j q h = absurd cc
nothing_below (set s) j q h = refl
nothing_below (scalar s) j q h = refl

put-cong :
    (k : Bytes) (p : List Bytes) (v : Option Value) (f g : View) (q : List Bytes)
    → ((j : Bytes) (r : List Bytes) → f (j ∷ r) ≡ g (j ∷ r))
    → put (k ∷ p) v f q ≡ put (k ∷ p) v g q
unfolding put
put-cong k p v f g [] h = refl
put-cong k p v f g (j ∷ q) h =
    let e : (λ r. f (k ∷ r)) ≡ (λ r. g (k ∷ r)) = fun_ext (λ r. h k r) in rw (h j q, e) refl

-- What stands below a key, as a view.
abbrev at_key : Bytes → Dict → View
at_key k d r = leaf (k ∷ r) (dict d)

-- The subdict that the descent of `get_dirty` goes on with shows what stood below the key.
below-dict_or_empty :
    (o : Option Value) (j : Bytes) (r : List Bytes)
    → leaf (j ∷ r) (dict (dict_or_empty (as_dict o))) ≡ below? o (j ∷ r)
below-dict_or_empty none j r = leaf_of_empty (j ∷ r)
below-dict_or_empty (some (dict d)) j r = refl
below-dict_or_empty (some (set s)) j r = unfold leaf in leaf_of_empty (j ∷ r)
below-dict_or_empty (some (scalar s)) j r = unfold leaf in leaf_of_empty (j ∷ r)

leaf-assign :
    (j : Bytes) (q : List Bytes) (k : Bytes) (w : Value) (d : Dict)
    → leaf (j ∷ q) (dict (assign k w d)) ≡ (if same j k then leaf q w else leaf (j ∷ q) (dict d))
leaf-assign j q k w d =
    rw (leaf-cons j q (assign k w d), leaf-cons j q d, find-assign j k w d)
      (elim (Bool-cases (same j k)) [ inl p ↦ rw p refl | inr p ↦ rw p refl ])

put-below_cong :
    (ks : List Bytes) (last : Bytes) (v : Option Value) (f g : View) (q : List Bytes)
    → ((j : Bytes) (r : List Bytes) → f (j ∷ r) ≡ g (j ∷ r))
    → put (ks ++ (last ∷ [])) v f q ≡ put (ks ++ (last ∷ [])) v g q
put-below_cong [] last v f g q h = put-cong last [] v f g q h
put-below_cong (k ∷ ks) last v f g q h = put-cong k (ks ++ (last ∷ [])) v f g q h

leaf_of_leaf :
    (q : List Bytes) (v : Value) → is_dict v ≡ false → leaf q v ≡ put [] (leaf [] v) (λ r. none) q
unfolding put
leaf_of_leaf [] v h = refl
leaf_of_leaf (j ∷ q) v h = nothing_below v j q h

put-nil : (v : Option Value) (f g : View) (q : List Bytes) → put [] v f q ≡ put [] v g q
unfolding put
put-nil v f g [] = refl
put-nil v f g (j ∷ q) = refl

pub leaf-update :
    (g : Option Value → Value) (ks : List Bytes) (last : Bytes) (d : Dict) (v : Value)
    → g (lookup ks last d) ≡ v
    → is_dict v ≡ false
    → (q : List Bytes)
    → leaf q (dict (update g ks last d))
      ≡ put (ks ++ (last ∷ [])) (leaf [] v) (λ r. leaf r (dict d)) q
unfolding put
leaf-update g [] last d v e h [] = unfold leaf in refl
leaf-update g [] last d v e h (j ∷ q) =
    unfold update in
    rw (leaf-assign j q last (g (find last d)) d) (
      ap (λ x. if same j last then x else leaf (j ∷ q) (dict d))
        (unfold lookup in
          rw e (
            leaf_of_leaf q v h
            ∙ put-nil (leaf [] v) (λ r. none) (λ r. leaf (last ∷ r) (dict d)) q)))
leaf-update g (k ∷ ks) last d v e h [] = unfold leaf in refl
leaf-update g (k ∷ ks) last d v e h (j ∷ q) =
    let sub = dict_or_empty (as_dict (find k d)) in
    let e' : g (lookup ks last sub) ≡ v =
      rw (descend_as_lookup ks last (as_dict (find k d)), sym (lookup-cons k ks last d)) e in
    rw (update-cons g k ks last d, leaf-assign j q k (dict (update g ks last sub)) d)
      (ap (λ x. if same j k then x else leaf (j ∷ q) (dict d))
        (leaf-update g ks last sub v e' h q
          ∙ put-below_cong ks last (leaf [] v) (λ r. leaf r (dict sub)) (λ r. leaf (k ∷ r) (dict d))
              q (λ i r. below-dict_or_empty (find k d) i r ∙ sym (leaf-cons k (i ∷ r) d))))

cut_of_nothing :
    (p : List Bytes) (f : View) (q : List Bytes)
    → ((r : List Bytes) → f r ≡ none)
    → cut p f q ≡ none
unfolding cut
cut_of_nothing [] f q h = refl
cut_of_nothing (k ∷ p) f [] h = h []
cut_of_nothing (k ∷ p) f (j ∷ q) h = elim (Bool-cases (same j k)) [
  | inl e ↦ rw e (cut_of_nothing p (λ r. f (k ∷ r)) q (λ r. h (k ∷ r)))
  | inr e ↦ rw e (h (j ∷ q))
]

leaf-erase :
    (j : Bytes) (q : List Bytes) (k : Bytes) (d : Dict)
    → IsOrdered d
    → leaf (j ∷ q) (dict (erase k d)) ≡ (if same j k then none else leaf (j ∷ q) (dict d))
leaf-erase j q k d h =
    rw (leaf-cons j q (erase k d), leaf-cons j q d, find-erase j k d (IsOrdered-HasSortedKeys d h))
      (elim (Bool-cases (same j k)) [ inl p ↦ rw p refl | inr p ↦ rw p refl ])

cut_of_shallow :
    (k : Bytes) (p : List Bytes) (f : View) (q : List Bytes)
    → ((j : Bytes) (r : List Bytes) → f (j ∷ r) ≡ none)
    → cut (k ∷ p) f q ≡ f q
unfolding cut
cut_of_shallow k p f [] h = refl
cut_of_shallow k p f (j ∷ q) h = elim (Bool-cases (same j k)) [
  | inl e ↦ rw e (cut_of_nothing p (λ r. f (k ∷ r)) q (λ r. h k r) ∙ sym (h j q))
  | inr e ↦ rw e refl
]

pub below-no_dict :
    (o : Option Value) (j : Bytes) (r : List Bytes) → as_dict o ≡ none → below? o (j ∷ r) ≡ none
below-no_dict none j r h = refl
below-no_dict (some (dict d)) j r h = absurd cc
below-no_dict (some (set s)) j r h = nothing_below (set s) j r refl
below-no_dict (some (scalar s)) j r h = nothing_below (scalar s) j r refl

-- Below a value that is not a dict nothing is erased.
cut_of_no_dict :
    (o : Option Value) (ks : List Bytes) (last : Bytes) (q : List Bytes)
    → as_dict o ≡ none
    → cut (ks ++ (last ∷ [])) (below? o) q ≡ below? o q
cut_of_no_dict o [] last q h = cut_of_shallow last [] (below? o) q (λ j r. below-no_dict o j r h)
cut_of_no_dict o (k ∷ ks) last q h =
    cut_of_shallow k (ks ++ (last ∷ [])) (below? o) q (λ j r. below-no_dict o j r h)

pub dict_of_as_dict : (o : Option Value) (d : Dict) → as_dict o ≡ some d → o ≡ some (dict d)
dict_of_as_dict none d h = absurd cc
dict_of_as_dict (some (dict c)) d h = cc
dict_of_as_dict (some (set s)) d h = absurd cc
dict_of_as_dict (some (scalar s)) d h = absurd cc

pub change-cons :
    (f : Dict → Dict) (k : Bytes) (ks : List Bytes) (d : Dict) (o : Option Dict)
    → as_dict (find k d) ≡ o
    → change f (k ∷ ks) d ≡ elim o [ none ↦ d | some sub ↦ assign k (dict (change f ks sub)) d ]
change-cons f k ks d o e = rw (sym e) (unfold change in refl)

pub leaf-change-erase :
    (ks : List Bytes) (last : Bytes) (d : Dict)
    → IsOrdered d
    → (q : List Bytes)
    → leaf q (dict (change (erase last) ks d)) ≡ cut (ks ++ (last ∷ [])) (λ r. leaf r (dict d)) q
unfolding cut
leaf-change-erase [] last d h [] = unfold leaf in refl
leaf-change-erase [] last d h (j ∷ q) = unfold change in leaf-erase j q last d h
leaf-change-erase (k ∷ ks) last d h [] = unfold leaf in refl
leaf-change-erase (k ∷ ks) last d h (j ∷ q) =
    let here : (λ r. leaf (k ∷ r) (dict d)) ≡ below? (find k d) = fun_ext (λ r. leaf-cons k r d) in
    elim (Option-cases (as_dict (find k d))) [
      | inl e ↦
          rw (change-cons (erase last) k ks d none e, here, cut_of_no_dict (find k d) ks last q e)
            (elim (Bool-cases (same j k)) [
              | inl p ↦ rw (p, eq_of_same j k p) (leaf-cons k q d)
              | inr p ↦ rw p refl
            ])
      | inr (sub, e) ↦
          let found = dict_of_as_dict (find k d) sub e in
          rw (change-cons (erase last) k ks d (some sub) e, leaf-assign, here, found)
            (ap (λ x. if same j k then x else leaf (j ∷ q) (dict d))
              (leaf-change-erase ks last sub (find-IsOrdered k d (dict sub) h found) q))
    ]

pub not_found : {v : Value} → none ≡ some v → ⊥
not_found h = cc

-- Storing what is there already changes nothing.
pub put_same :
    (ks : List Bytes) (last : Bytes) (d : Dict) (v : Value)
    → lookup ks last d ≡ some v
    → is_dict v ≡ false
    → (q : List Bytes)
    → leaf q (dict d) ≡ put (ks ++ (last ∷ [])) (leaf [] v) (λ r. leaf r (dict d)) q
unfolding put
put_same [] last d v e h [] = unfold leaf in refl
put_same [] last d v e h (j ∷ q) = elim (Bool-cases (same j last)) [
  | inl p ↦
      rw (p, eq_of_same j last p, leaf-cons last q d)
        (unfold lookup in
          rw e (
            leaf_of_leaf q v h ∙ put-nil (leaf [] v) (λ r. none) (λ r. leaf (last ∷ r) (dict d)) q))
  | inr p ↦ rw p refl
]
put_same (k ∷ ks) last d v e h [] = unfold leaf in refl
put_same (k ∷ ks) last d v e h (j ∷ q) = elim (Option-cases (as_dict (find k d))) [
  | inl n ↦ absurd (not_found (rw (lookup-cons k ks last d, n) at e))
  | inr (sub, n) ↦
      let found = dict_of_as_dict (find k d) sub n in
      let e' : lookup ks last sub ≡ some v = rw (lookup-cons k ks last d, n) at e in
      let here : (λ r. leaf (k ∷ r) (dict d)) ≡ (λ r. leaf r (dict sub)) =
        fun_ext (λ r. leaf-cons k r d ∙ rw found refl) in
      rw here (elim (Bool-cases (same j k)) [
        | inl p ↦ rw (p, eq_of_same j k p, leaf-cons k q d, found) (put_same ks last sub v e' h q)
        | inr p ↦ rw p refl
      ])
]

-- Erasing what is not there changes nothing.
pub cut_same :
    (ks : List Bytes) (last : Bytes) (d : Dict)
    → lookup ks last d ≡ none
    → (q : List Bytes) → leaf q (dict d) ≡ cut (ks ++ (last ∷ [])) (λ r. leaf r (dict d)) q
unfolding cut
cut_same [] last d e [] = refl
cut_same [] last d e (j ∷ q) = elim (Bool-cases (same j last)) [
  | inl p ↦ rw (p, eq_of_same j last p, leaf-cons last q d) (unfold lookup in rw e refl)
  | inr p ↦ rw p refl
]
cut_same (k ∷ ks) last d e [] = refl
cut_same (k ∷ ks) last d e (j ∷ q) =
    let here : (λ r. leaf (k ∷ r) (dict d)) ≡ below? (find k d) = fun_ext (λ r. leaf-cons k r d) in
    rw here (elim (Bool-cases (same j k)) [
      | inr p ↦ rw p refl
      | inl p ↦
          rw (p, eq_of_same j k p, leaf-cons k q d)
            (elim (Option-cases (as_dict (find k d))) [
              | inl n ↦ sym (cut_of_no_dict (find k d) ks last q n)
              | inr (sub, n) ↦
                  rw (dict_of_as_dict (find k d) sub n)
                    (cut_same ks last sub (rw (lookup-cons k ks last d, n) at e) q)
            ])
    ])
