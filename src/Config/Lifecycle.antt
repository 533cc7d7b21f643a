-- ===== src/Config/Lifecycle.antt =====
-- The life of a config object (src/config/base.cpp): what its state, its message and its hashes
-- have to do with each other, and the steps that it takes.
pub mod Steps
pub mod Confirm
use libsession_util.Prelude.{
  ◌≡◌, refl, sym, ap, ap₂, ◌∙◌, Bool, true, false, not, ◌&&◌, Bool-cases, inl, inr, Option, none,
  some, List, [], ◌∷◌, arith, if◌then◌else◌,
}
use libsession_util.Prelude.Result.{
  guard-Ensures, Result, ok, err, guard, runtime_error, Ensures, Ensures-ok, Ensures-err,
  Ensures->>=, Ensures-bind, Ensures-if, ◌>>=◌, ◌>>◌,
}
use libsession_util.Keys.{Bytes}
use libsession_util.Config.Data.{Dict, is_nil}
use libsession_util.Config.Message.{Message, is_mutable}
use libsession_util.Config.Message.Read.{is_set}
use libsession_util.Config.Message.Parties.{Follows, increment-lem}
use libsession_util.Config.Message.Mutable.{increment}
use libsession_util.Config.Base.{
  ConfigBase, ConfigState, clean, dirty, waiting, Env, is_dirty, is_clean, is_readonly,
  insert_hashes,
}
use libsession_util.Config.Base.State.{is_dirty_state, set_state, make_dirty}

-- A dirty object has a mutable message and is not read-only, and only a clean one has hashes.
pub record IsSound (c : ConfigBase) : Type 0 where
  pub dirty_is_mutable : is_dirty c ≡ true → is_mutable c.config ≡ true
  pub dirty_can_sign : is_dirty c ≡ true → is_readonly c ≡ false
  pub only_clean_has_hashes : is_clean c ≡ false → c.curr_hashes ≡ []

-- What `set_state` leaves.
abbrev pub Entered : ConfigState → ConfigBase → ConfigBase → Type 0
Entered s c c' =
    (c'.state ≡ s)
    × (c'.config ≡ c.config)
    × (c'.curr_hashes ≡ [])
    × (is_dirty_state s ≡ true → is_readonly c ≡ false)

not_and : (a b : Bool) → not (a && b) ≡ true → a ≡ true → b ≡ false
not_and true true h p = cc
not_and true false h p = refl
not_and false b h p = cc

hashes_left :
    (c : ConfigBase)
    → (is_clean c ≡ false → c.curr_hashes ≡ [])
    → (if is_clean c && not (is_nil c.curr_hashes) then [] else c.curr_hashes) ≡ []
hashes_left c h = ground arith

pub set_state-lem :
    (s : ConfigState) (c : ConfigBase)
    → (is_clean c ≡ false → c.curr_hashes ≡ [])
    → Ensures (Entered s c) (set_state s c)
unfolding set_state
set_state-lem s c h =
    guard-Ensures _ (not (is_dirty_state s && is_readonly c)) runtime_error _ (λ p.
      Ensures-ok _ _
        (refl, refl, hashes_left c h, λ q. not_and (is_dirty_state s) (is_readonly c) p q))

abbrev dirty_state : ConfigState → Bool
dirty_state s = elim s [ dirty ↦ true | _ ↦ false ]

abbrev clean_state : ConfigState → Bool
clean_state s = elim s [ clean ↦ true | _ ↦ false ]

pub no_clash {ℓ} : {A : Type ℓ} (b : Bool) → b ≡ false → b ≡ true → A
no_clash b p q = absurd cc

-- The three ways to be sound.
pub IsSound-clean : (c : ConfigBase) → c.state ≡ clean → IsSound c
IsSound-clean c e = record {
  dirty_is_mutable = no_clash (is_dirty c) (ap dirty_state e);
  dirty_can_sign = no_clash (is_dirty c) (ap dirty_state e);
  only_clean_has_hashes = λ p. no_clash (is_clean c) p (ap clean_state e);
}

pub IsSound-waiting : (c : ConfigBase) → c.state ≡ waiting → c.curr_hashes ≡ [] → IsSound c
IsSound-waiting c e h = record {
  dirty_is_mutable = no_clash (is_dirty c) (ap dirty_state e);
  dirty_can_sign = no_clash (is_dirty c) (ap dirty_state e);
  only_clean_has_hashes = λ p. h;
}

pub IsSound-dirty :
    (c : ConfigBase)
    → is_mutable c.config ≡ true
    → is_readonly c ≡ false
    → c.curr_hashes ≡ []
    → IsSound c
IsSound-dirty c m r h = record {
  dirty_is_mutable = λ p. m;
  dirty_can_sign = λ p. r;
  only_clean_has_hashes = λ p. h;
}

pub readonly_of :
    (c c' : ConfigBase)
    → c'.config.verifier ≡ c.config.verifier
    → c'.config.signer ≡ c.config.signer
    → is_readonly c' ≡ is_readonly c
readonly_of c c' v s = ap₂ (λ a b. is_set a && not (is_set b)) v s

-- A message that follows the one of the object can take its place.
pub IsSound-Follows :
    (c : ConfigBase) (m : Message)
    → Follows c.config m
    → IsSound c
    → IsSound (record c { config = m })
IsSound-Follows c m f h = record {
  dirty_is_mutable = λ p. f.2 ∙ h.dirty_is_mutable p;
  dirty_can_sign = λ p. readonly_of c (record c { config = m }) f.0.0 f.0.1 ∙ h.dirty_can_sign p;
  only_clean_has_hashes = h.only_clean_has_hashes;
}

become_dirty :
    (env : Env) (c : ConfigBase)
    → IsSound c
    → Ensures IsSound (do
      c1 ← set_state dirty c
      m ← increment env.codec c1.config
      ok (record c1 { config = m }))
become_dirty env c h =
    Ensures-bind _ _ (set_state dirty c) _ (set_state-lem dirty c h.only_clean_has_hashes) (λ c1 e.
      Ensures-bind _ _ (increment env.codec c1.config) _ (increment-lem env.codec c1.config) (λ m f.
        Ensures-ok _ _ (
          IsSound-dirty (record c1 { config = m }) f.2
            (readonly_of c (record c1 { config = m }) (f.0.0 ∙ ap (λ (x : Message). x.verifier) e.1)
                (f.0.1 ∙ ap (λ (x : Message). x.signer) e.1)
              ∙ e.3 refl)
            e.2)))

pub make_dirty-IsSound :
    (env : Env) (c : ConfigBase) → IsSound c → Ensures IsSound (make_dirty env c)
unfolding make_dirty
make_dirty-IsSound env c h =
    Ensures-bind _ _
      (if is_dirty c then ok (record c { needs_dump = true }) else (do
        c1 ← set_state dirty c
        m ← increment env.codec c1.config
        ok (record c1 { config = m })))
      _
      (Ensures-if IsSound (is_dirty c) _ _
        (λ p. Ensures-ok _ _ (record {
          dirty_is_mutable = h.dirty_is_mutable;
          dirty_can_sign = h.dirty_can_sign;
          only_clean_has_hashes = h.only_clean_has_hashes;
        }))
        (λ p. become_dirty env c h))
      (λ c' h'. guard-Ensures _ (is_mutable c'.config) runtime_error _ (λ p. Ensures-ok _ _ h'))
