-- ===== src/Config/Base/Field/Refine.antt =====
-- The setters of include/session/config/base.hpp as operations on the view of the data: whatever
-- the state of the object, one of them changes its path and nothing else that can be seen.
use libsession_util.Prelude.{
  ◌≡◌, refl, sym, ◌∙◌, fun_ext, inl, inr, true, not, ◌&&◌, Option, Option-cases, none, some, List,
  [], ◌∷◌, ◌++◌,
}
use libsession_util.Prelude.Result.{
  Ensures, Ensures-ok, Ensures->>=, Ensures-bind, Ensures-if, guard-Ensures, runtime_error,
}
use libsession_util.Keys.{Bytes, bytes_ord}
use libsession_util.Config.Data.{
  Scalar, Value, Dict, dict, set, scalar, find, erase, IsOrdered, IsOrderedValue, find-IsOrdered,
  assign-IsOrdered, erase-IsOrdered,
}
use libsession_util.Config.Prune.Laws.{leaf, prune_lem}
use libsession_util.Config.Message.{Message, Codec, is_mutable}
use libsession_util.Config.Message.Read.{is_set}
use libsession_util.Config.Message.Write.{hash, serialize, diff, serialize_impl}
use libsession_util.Config.Message.Mutable.{increment, increment_impl}
use libsession_util.Config.Base.{ConfigBase, Env, is_dirty, is_readonly, dirty}
use libsession_util.Config.Base.State.{make_dirty, set_state, is_dirty_state}
use libsession_util.Config.Base.Field.{
  FieldPath, as_dict, dict_or_empty, get_clean, update, change, change_dirty, same_scalar,
  assign_scalar, erase_field,
}
use libsession_util.Config.Base.Field.Laws.{and_right, same_scalar_lem}
use libsession_util.Config.Base.Field.View.{
  View, put, cut, put_same, cut_same, change-cons, dict_of_as_dict, leaf-update, leaf-change-erase,
}

abbrev pub view : ConfigBase → View
view c q = leaf q (dict c.config.data_)

abbrev pub path : FieldPath → List Bytes
path p = p.inter_keys ++ (p.last_key ∷ [])

abbrev pub HasOrder : ConfigBase → Type 0
HasOrder c = IsOrdered c.config.data_

-- What an operation leaves: data in order, with the view `f`.
abbrev pub Shows : View → ConfigBase → Type 0
Shows f c = HasOrder c × (view c ≡ f)

abbrev KeepsData : Message → Message → Type 0
KeepsData m m' =
    IsOrdered m'.data_ × ((q : List Bytes) → leaf q (dict m'.data_) ≡ leaf q (dict m.data_))

module _ (x : Codec) where
  diff-KeepsData : (m : Message) → IsOrdered m.data_ → KeepsData m (diff x m)
  unfolding diff
  diff-KeepsData m h =
      elim m.orig_data_ as (λ o. KeepsData m (diff x (record m { orig_data_ = o }))) [
        | none ↦ (h, λ q. refl)
        | some orig ↦ let (p, o, l) = prune_lem m.data_ h in (o, l)
      ]

  hash_by_orig :
      (m : Message) (o : Option Dict)
      → m.orig_data_ ≡ o
      → IsOrdered m.data_
      → Ensures (KeepsData m) (hash x m)
  unfolding hash serialize
  hash_by_orig m none e h = rw (e, hash) (Ensures-ok _ m (h, λ q. refl))
  hash_by_orig m (some d) e h =
      rw (e, hash)
        (Ensures-bind (λ r. KeepsData m r.0) _ (serialize x m true) _
          (Ensures->>= _ (serialize_impl x (diff x m) (diff x m).diff_ true) _
            (λ out. Ensures-ok _ _ (diff-KeepsData m h)))
          (λ r k. Ensures-ok _ _ k))

  increment-KeepsData : (m : Message) → IsOrdered m.data_ → Ensures (KeepsData m) (increment x m)
  unfolding increment increment_impl
  increment-KeepsData m h =
      Ensures-bind (KeepsData m) _ (hash x m) _ (hash_by_orig m m.orig_data_ refl h)
        (λ m' k. Ensures-ok _ _ k)

set_state-keeps : (c : ConfigBase) → Ensures (λ c'. c'.config ≡ c.config) (set_state dirty c)
unfolding set_state
set_state-keeps c =
    guard-Ensures _ (not (is_dirty_state dirty && is_readonly c)) runtime_error _
      (λ p. Ensures-ok _ _ refl)

pub make_dirty-Shows :
    (env : Env) (c : ConfigBase) → HasOrder c → Ensures (Shows (view c)) (make_dirty env c)
unfolding make_dirty
make_dirty-Shows env c h =
    Ensures-bind (Shows (view c)) _ _ _
      (Ensures-if _ (is_dirty c) _ _ (λ p. Ensures-ok _ _ (h, refl))
        (λ p. Ensures-bind _ _ (set_state dirty c) _ (set_state-keeps c) (λ c1 e.
          Ensures-bind (KeepsData c.config) _ (increment env.codec c1.config) _
            (rw e (increment-KeepsData env.codec c.config h))
            (λ m k. Ensures-ok _ _ (k.0, fun_ext k.1)))))
      (λ c' s. guard-Ensures _ (is_mutable c'.config) runtime_error _ (λ p. Ensures-ok _ _ s))

subdict-IsOrdered :
    (o : Option Value)
    → ((v : Value) → o ≡ some v → IsOrderedValue v)
    → IsOrdered (dict_or_empty (as_dict o))
subdict-IsOrdered none h = tt
subdict-IsOrdered (some (dict d)) h = h (dict d) refl
subdict-IsOrdered (some (set s)) h = tt
subdict-IsOrdered (some (scalar s)) h = tt

update-IsOrdered :
    (g : Option Value → Value)
    → ((o : Option Value) → IsOrderedValue (g o))
    → (ks : List Bytes) (last : Bytes) (d : Dict) → IsOrdered d
    → IsOrdered (update g ks last d)
unfolding update
update-IsOrdered g hg [] last d h = assign-IsOrdered last _ d (hg (find last d)) h
update-IsOrdered g hg (k ∷ ks) last d h =
    assign-IsOrdered k _ d
      (update-IsOrdered g hg ks last _ (subdict-IsOrdered (find k d) (λ v. find-IsOrdered k d v h)))
      h

change-erase-IsOrdered :
    (ks : List Bytes) (last : Bytes) (d : Dict) → IsOrdered d → IsOrdered (change (erase last) ks d)
change-erase-IsOrdered [] last d h = unfold change in erase-IsOrdered last d h
change-erase-IsOrdered (k ∷ ks) last d h = elim (Option-cases (as_dict (find k d))) [
  | inl n ↦ rw (change-cons (erase last) k ks d none n) h
  | inr (sub, n) ↦
      let found = dict_of_as_dict (find k d) sub n in
      rw (change-cons (erase last) k ks d (some sub) n) (
        assign-IsOrdered k _ d
          (change-erase-IsOrdered ks last sub (find-IsOrdered k d (dict sub) h found)) h)
]

-- A change of the data under `dirty()`, given what it makes of data that looks like `f`.
pub change_dirty-Shows :
    (env : Env) (change_data : Dict → Dict) (f g : View) (c : ConfigBase)
    → HasOrder c
    → view c ≡ f
    → ((d : Dict)
        → IsOrdered d
        → (λ q. leaf q (dict d)) ≡ f
        → IsOrdered (change_data d) × ((q : List Bytes) → leaf q (dict (change_data d)) ≡ g q))
    → Ensures (Shows g) (change_dirty env change_data c)
unfolding change_dirty
change_dirty-Shows env change_data f g c h e step =
    Ensures-bind (Shows (view c)) _ (make_dirty env c) _ (make_dirty-Shows env c h)
      (λ c' s. let (o, l) = step c'.config.data_ s.0 (s.1 ∙ e) in Ensures-ok _ _ (o, fun_ext l))

-- Assigning a string or an integer to a field of a config object whose data is in order leaves data
-- in order in which the value stands at the field's path, nothing above or below that path, and
-- whatever stood at any other path before: also where the object had to become dirty and its
-- message was pruned on the way, and where the assignment was skipped.
pub assign_scalar-Shows :
    (env : Env) (s : Scalar) (p : FieldPath) (c : ConfigBase)
    → HasOrder c
    → Ensures (Shows (put (path p) (some (scalar s)) (view c))) (assign_scalar env s p c)
unfolding assign_scalar get_clean put leaf
assign_scalar-Shows env s p c h =
    Ensures-if _ (not (is_dirty c) && same_scalar (get_clean c p) s) _ _
      (λ t. Ensures-ok _ _ (
        h,
        fun_ext (
            put_same p.inter_keys p.last_key c.config.data_ (scalar s)
              (same_scalar_lem (get_clean c p) s (and_right (not (is_dirty c)) _ t)) refl),
      ))
      (λ t.
        change_dirty-Shows env (update (λ v. scalar s) p.inter_keys p.last_key) (view c) _ c h refl
          (λ d o e. (
            update-IsOrdered (λ v. scalar s) (λ v. tt) p.inter_keys p.last_key d o,
            λ q.
                rw (sym e)
                  (leaf-update (λ v. scalar s) p.inter_keys p.last_key d (scalar s) refl refl q),
          )))

pub not_set : (o : Option Value) → not (is_set o) ≡ true → o ≡ none
not_set none h = refl
not_set (some v) h = absurd cc

-- Erasing a field of a config object whose data is in order leaves data in order in which nothing
-- stands at the field's path or below it, and every other path holds what it held before.
pub erase_field-Shows :
    (env : Env) (p : FieldPath) (c : ConfigBase)
    → HasOrder c
    → Ensures (Shows (cut (path p) (view c))) (erase_field env p c)
unfolding erase_field get_clean
erase_field-Shows env p c h =
    Ensures-if _ (not (is_dirty c) && not (is_set (get_clean c p))) _ _
      (λ t. Ensures-ok _ _ (
        h,
        fun_ext (
            cut_same p.inter_keys p.last_key c.config.data_
              (not_set (get_clean c p) (and_right (not (is_dirty c)) _ t))),
      ))
      (λ t.
        change_dirty-Shows env (change (erase p.last_key) p.inter_keys) (view c) _ c h refl
          (λ d o e. (
            change-erase-IsOrdered p.inter_keys p.last_key d o,
            λ q. rw (sym e) (leaf-change-erase p.inter_keys p.last_key d o q),
          )))
