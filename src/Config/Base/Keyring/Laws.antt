-- ===== src/Config/Base/Keyring/Laws.antt =====
-- A key that has been added is there, and in front if it was added with high priority.
use libsession_util.Prelude.{
  ◌≡◌, refl, sym, subst, Bool, true, false, not, ◌&&◌, ◌||◌, ◌==◌, List, [], ◌∷◌, ◌++◌, length,
  arith, if◌then◌else◌,
}
use libsession_util.Prelude.Result.{
  guard-Ensures, ok, runtime_error, invalid_argument, Ensures, Ensures-ok, Ensures->>=,
  Ensures-bind, Ensures-map, Ensures-if, Ensures-eq_ok, ◌>>=◌,
}
use libsession_util.Order.{same, same_refl}
use libsession_util.Keys.{Bytes, bytes_ord}
use libsession_util.Config.Message.{is_mutable}
use libsession_util.Config.Message.Mutable.{increment}
use libsession_util.Config.Base.{ConfigBase, dirty, Env, is_dirty, is_readonly}
use libsession_util.Config.Base.State.{set_state, make_dirty}
use libsession_util.Config.Base.Keyring.{among, is_front, dirty_if, remove_key, add_key}

abbrev SameKeys : ConfigBase → ConfigBase → Type 0
SameKeys c d = d.keys ≡ c.keys

set_state-SameKeys : (c : ConfigBase) → Ensures (SameKeys c) (set_state dirty c)
unfolding set_state
set_state-SameKeys c =
    guard-Ensures _ (not (is_readonly c)) runtime_error _ (λ p. Ensures-ok _ _ refl)

make_dirty-SameKeys : (env : Env) (c : ConfigBase) → Ensures (SameKeys c) (make_dirty env c)
unfolding make_dirty
make_dirty-SameKeys env c =
    Ensures-bind (SameKeys c) _
      (if is_dirty c then ok (record c { needs_dump = true }) else (do
        c1 ← set_state dirty c
        m ← increment env.codec c1.config
        ok (record c1 { config = m })))
      _
      (Ensures-if _ (is_dirty c) _ _ (λ p. Ensures-ok _ _ refl)
        (λ p.
          Ensures-bind _ _ (set_state dirty c) _ (set_state-SameKeys c)
            (λ c1 e. Ensures->>= _ (increment env.codec c1.config) _ (λ m. Ensures-ok _ _ e))))
      (λ d h. guard-Ensures _ (is_mutable d.config) runtime_error _ (λ p. Ensures-ok _ _ h))

dirty_if-SameKeys :
    (env : Env) (b : Bool) (c : ConfigBase) → Ensures (SameKeys c) (dirty_if env b c)
dirty_if-SameKeys env b c =
    Ensures-if _ b _ _ (λ p. make_dirty-SameKeys env c) (λ p. Ensures-ok _ _ refl)

among-snoc : (key : Bytes) (ks : List Bytes) → among key (ks ++ (key ∷ [])) ≡ true
unfolding among
among-snoc key [] = rw (same_refl key) refl
among-snoc key (k ∷ ks) = elim (same key k) as (λ b. (b || among key (ks ++ (key ∷ []))) ≡ true) [
  | true ↦ refl
  | false ↦ among-snoc key ks
]

same_sym : (a b : Bytes) → same a b ≡ same b a
same_sym a b = ground arith

abbrev Holds : Bytes → Bool → List Bytes → Type 0
Holds key high ks = (among key ks ≡ true) × (high ≡ true → is_front key ks ≡ true)

added_keys :
    (key : Bytes) (high : Bool) (ks : List Bytes)
    → Holds key high (if high then key ∷ ks else ks ++ (key ∷ []))
unfolding among
added_keys key true ks = (rw (same_refl key) refl, λ p. same_refl key)
added_keys key false ks = (among-snoc key ks, λ p. absurd cc)

present_keys :
    (key : Bytes) (high : Bool) (ks : List Bytes)
    → (is_front key ks || (not high && among key ks)) ≡ true
    → Holds key high ks
unfolding among
present_keys key high [] h = ground arith
present_keys key high (k ∷ ks) h = ground (arith, same_sym key k)

add_key-Holds :
    (env : Env) (key : Bytes) (high d : Bool) (c : ConfigBase)
    → Ensures (λ (c' : ConfigBase). Holds key high c'.keys) (add_key env key high d c)
unfolding add_key
add_key-Holds env key high d c = guard-Ensures _ (length key == 32) invalid_argument _ (λ g.
    Ensures-if _ (is_front key c.keys || (not high && among key c.keys)) _ _
      (λ p. Ensures-ok _ _ (present_keys key high c.keys p))
      (λ p. Ensures->>= _ (if high then remove_key env key 1 false c else ok (c, false)) _ (λ r.
        Ensures-map _ (λ c' e. subst (Holds key high) (sym e) (added_keys key high r.0.keys))
          (dirty_if-SameKeys env _
            (record r.0 { keys = if high then key ∷ r.0.keys else r.0.keys ++ (key ∷ []) })))))

-- After `add_key` the key is among the keys, and it is the one in front, which encrypts, if it was
-- added with high priority.
pub among-add_key :
    (env : Env) (key : Bytes) (high d : Bool) (c c' : ConfigBase)
    → add_key env key high d c ≡ ok c'
    → (among key c'.keys ≡ true) × (high ≡ true → is_front key c'.keys ≡ true)
among-add_key env key high d c c' e = Ensures-eq_ok _ _ c' (add_key-Holds env key high d c) e
