-- ===== src/Config/Base/Field/Laws.antt =====
-- Reading back what was written to a field, and when writing leaves the object as it is.
use libsession_util.Prelude.{
  ◌≡◌, refl, ap, sym, inl, inr, Bool, true, false, not, ◌&&◌, Option, none, some, List, [], ◌∷◌,
}
use libsession_util.Prelude.Result.{ok, >>=-eq-ok, ok_injective, if-eq-ok}
use libsession_util.Order.{same_refl, eq_of_same}
use libsession_util.Keys.{Bytes, bytes_ord, list_lt}
use libsession_util.Containers.SortedSet
use libsession_util.Config.Data.{
  Scalar, Value, Dict, dict, set, scalar, empty, find, assign, scalar_ord, find-assign,
}
use libsession_util.Config.Base.{ConfigBase, Env, is_dirty}
use libsession_util.Config.Base.State.{make_dirty}
use libsession_util.Config.Base.Field.{
  FieldPath, as_dict, as_set, lookup, get_clean, dict_or_empty, update, with_data, change_dirty,
  same_scalar, assign_scalar, set_contains, set_or_empty, set_insert,
}

lookup-empty : (ks : List Bytes) (last : Bytes) → lookup ks last empty ≡ none
unfolding lookup find libsession_util.Containers.SortedMap.find
lookup-empty [] last = refl
lookup-empty (k ∷ ks) last = refl

abbrev descend : List Bytes → Bytes → Option Dict → Option Value
descend ks last none = none
descend ks last (some sub) = lookup ks last sub

pub lookup-cons :
    (k : Bytes) (ks : List Bytes) (last : Bytes) (d : Dict)
    → lookup (k ∷ ks) last d ≡ descend ks last (as_dict (find k d))
unfolding lookup
lookup-cons k ks last d = elim (as_dict (find k d)) [ none ↦ refl | some sub ↦ refl ]

pub update-cons :
    (f : Option Value → Value) (k : Bytes) (ks : List Bytes) (last : Bytes) (d : Dict)
    → update f (k ∷ ks) last d
      ≡ assign k (dict (update f ks last (dict_or_empty (as_dict (find k d))))) d
unfolding update
update-cons f k ks last d = refl

pub descend_as_lookup :
    (ks : List Bytes) (last : Bytes) (o : Option Dict)
    → lookup ks last (dict_or_empty o) ≡ descend ks last o
descend_as_lookup ks last none = lookup-empty ks last
descend_as_lookup ks last (some sub) = refl

-- What stands at a path after an update is what the update makes of what stood there.
lookup-update :
    (f : Option Value → Value) (ks : List Bytes) (last : Bytes) (d : Dict)
    → lookup ks last (update f ks last d) ≡ some (f (lookup ks last d))
lookup-update f [] last d =
    unfold lookup update in rw (find-assign last last (f (find last d)) d, same_refl last) refl
lookup-update f (k ∷ ks) last d =
    let o = as_dict (find k d) in
    let v = dict (update f ks last (dict_or_empty o)) in
    rw
      (
        update-cons f k ks last d,
        lookup-cons k ks last (assign k v d),
        lookup-cons k ks last d,
        find-assign k k v d,
        same_refl k,
      )
      (rw (lookup-update f ks last (dict_or_empty o)) (rw (descend_as_lookup ks last o) refl))

pub and_right : (a b : Bool) → (a && b) ≡ true → b ≡ true
and_right true b h = h
and_right false b h = cc

-- The object after `dirty()` and a change of its data.
pub change_dirty-eq_ok :
    (env : Env) (f : Dict → Dict) (c c' : ConfigBase)
    → change_dirty env f c ≡ ok c'
    → (b : ConfigBase) × (make_dirty env c ≡ ok b) × (c'.config.data_ ≡ f b.config.data_)
unfolding change_dirty
change_dirty-eq_ok env f c c' h =
    let (b, hb, e) = >>=-eq-ok (make_dirty env c) (λ x. ok (with_data f x)) h in
    (b, hb, ap (λ (x : ConfigBase). x.config.data_) (sym (ok_injective (with_data f b) c' e)))

get_clean-update :
    (env : Env) (f : Option Value → Value) (p : FieldPath) (c c' : ConfigBase)
    → change_dirty env (update f p.inter_keys p.last_key) c ≡ ok c'
    → (b : ConfigBase) × (make_dirty env c ≡ ok b) × (get_clean c' p ≡ some (f (get_clean b p)))
unfolding get_clean
get_clean-update env f p c c' h =
    let (b, hb, e) = change_dirty-eq_ok env (update f p.inter_keys p.last_key) c c' h in
    (b, hb, rw e (lookup-update f p.inter_keys p.last_key b.config.data_))

pub same_scalar_lem : (v : Option Value) (s : Scalar) → same_scalar v s ≡ true → v ≡ some (scalar s)
unfolding list_lt
same_scalar_lem none s h = cc
same_scalar_lem (some (dict d)) s h = cc
same_scalar_lem (some (set t)) s h = cc
same_scalar_lem (some (scalar t)) s h = ap (λ x. some (scalar x)) (eq_of_same t s h)

-- After the assignment of a string or an integer to a field, whatever its path, the field holds it.
pub get_clean-assign_scalar :
    (env : Env) (s : Scalar) (p : FieldPath) (c c' : ConfigBase)
    → assign_scalar env s p c ≡ ok c'
    → get_clean c' p ≡ some (scalar s)
unfolding assign_scalar
get_clean-assign_scalar env s p c c' h =
    elim (if-eq-ok (not (is_dirty c) && same_scalar (get_clean c p) s) (ok c)
      (change_dirty env (update (λ v. scalar s) p.inter_keys p.last_key) c) h) [
        | inl (t, e) ↦
            rw (sym (ok_injective c c' e))
              (same_scalar_lem (get_clean c p) s (and_right (not (is_dirty c)) _ t))
        | inr (t, e) ↦ let (b, hb, r) = get_clean-update env (λ v. scalar s) p c c' e in r
      ]

-- After `set_insert` the field is a set that contains the value.
pub set_insert-contains :
    (env : Env) (s : Scalar) (p : FieldPath) (c c' : ConfigBase)
    → set_insert env s p c ≡ ok c'
    → set_contains s (as_set (get_clean c' p)) ≡ true
unfolding set_insert
set_insert-contains env s p c c' h =
    let f : Option Value → Value = λ v. set (SortedSet.insert s (set_or_empty (as_set v))) in
    elim (if-eq-ok (not (is_dirty c) && set_contains s (as_set (get_clean c p))) (ok c)
      (change_dirty env (update f p.inter_keys p.last_key) c) h) [
        | inl (t, e) ↦ rw (sym (ok_injective c c' e)) (and_right (not (is_dirty c)) _ t)
        | inr (t, e) ↦
            let (b, hb, r) = get_clean-update env f p c c' e in
            rw
              (
                r,
                SortedSet.contains-insert s s (set_or_empty (as_set (get_clean b p))),
                same_refl s,
              )
              refl
      ]
