-- ===== src/Config/Base/Field/Total.antt =====
-- When the setters return: on an object that `dirty()` accepts, which stays so.
use libsession_util.Prelude.{◌≡◌, refl, inl, inr, Bool, true, not, ◌&&◌, Bool-cases, if◌then◌else◌}
use libsession_util.Prelude.Result.{
  Result, ok, runtime_error, Ensures, Ensures-ok, Ensures-bind, Ensures-if, Ensures->>=,
  Ensures-eq_ok, guard-Ensures,
}
use libsession_util.Config.Data.{Scalar, Dict, scalar, erase}
use libsession_util.Config.Message.{is_mutable}
use libsession_util.Config.Message.Read.{is_set}
use libsession_util.Config.Message.Mutable.{increment}
use libsession_util.Config.Base.{ConfigBase, Env, is_dirty, is_readonly, dirty}
use libsession_util.Config.Base.State.{make_dirty, set_state, is_dirty_state}
use libsession_util.Config.Base.Field.{
  FieldPath, get_clean, update, change, with_data, change_dirty, same_scalar, assign_scalar,
  erase_field,
}

-- `dirty()` returns.
abbrev pub CanDirty : Env → ConfigBase → Type 0
CanDirty env c = (b : ConfigBase) × (make_dirty env c ≡ ok b)

-- A routine returns on an object that can become dirty, which still can.
abbrev pub Returns : Env → (ConfigBase → Result ConfigBase) → ConfigBase → Type 0
Returns env m c = CanDirty env c → (c' : ConfigBase) × (m c ≡ ok c') × CanDirty env c'

abbrev IsReady : ConfigBase → Type 0
IsReady c = (is_dirty c ≡ true) × (is_mutable c.config ≡ true)

set_state-dirty : (c : ConfigBase) → Ensures (λ c'. is_dirty c' ≡ true) (set_state dirty c)
unfolding set_state
set_state-dirty c =
    guard-Ensures _ (not (is_dirty_state dirty && is_readonly c)) runtime_error _
      (λ p. Ensures-ok _ _ refl)

make_dirty-IsReady : (env : Env) (c : ConfigBase) → Ensures IsReady (make_dirty env c)
unfolding make_dirty
make_dirty-IsReady env c =
    Ensures-bind (λ (x : ConfigBase). is_dirty x ≡ true) _ _ _
      (Ensures-if _ (is_dirty c) _ _ (λ p. Ensures-ok _ _ p)
        (λ p.
          Ensures-bind _ _ (set_state dirty c) _ (set_state-dirty c)
            (λ c1 e. Ensures->>= _ (increment env.codec c1.config) _ (λ m. Ensures-ok _ _ e))))
      (λ c' e. guard-Ensures _ (is_mutable c'.config) runtime_error _ (λ p. Ensures-ok _ _ (e, p)))

IsReady-CanDirty : (env : Env) (c : ConfigBase) → IsReady c → CanDirty env c
unfolding make_dirty
IsReady-CanDirty env c h = (record c { needs_dump = true }, rw (h.0, h.1) refl)

change_dirty-Returns :
    (env : Env) (f : Dict → Dict) (c : ConfigBase) → Returns env (change_dirty env f) c
unfolding change_dirty
change_dirty-Returns env f c (b, e) =
    let ready = Ensures-eq_ok IsReady (make_dirty env c) b (make_dirty-IsReady env c) e in
    (with_data f b, rw e refl, IsReady-CanDirty env (with_data f b) ready)

-- A choice between leaving the object and changing it.
skip_or_change-Returns :
    (env : Env) (skip : ConfigBase → Bool) (f : Dict → Dict) (c : ConfigBase)
    → Returns env (λ x. if skip x then ok x else change_dirty env f x) c
skip_or_change-Returns env skip f c can = elim (Bool-cases (skip c)) [
  | inl e ↦ (c, rw e refl, can)
  | inr e ↦ rw e (change_dirty-Returns env f c can)
]

pub assign_scalar-Returns :
    (env : Env) (s : Scalar) (p : FieldPath) (c : ConfigBase)
    → Returns env (assign_scalar env s p) c
unfolding assign_scalar
assign_scalar-Returns env s p c =
    skip_or_change-Returns env (λ x. not (is_dirty x) && same_scalar (get_clean x p) s)
      (update (λ v. scalar s) p.inter_keys p.last_key) c

pub erase_field-Returns :
    (env : Env) (p : FieldPath) (c : ConfigBase) → Returns env (erase_field env p) c
unfolding erase_field
erase_field-Returns env p c =
    skip_or_change-Returns env (λ x. not (is_dirty x) && not (is_set (get_clean x p)))
      (change (erase p.last_key) p.inter_keys) c
