-- ===== src/Config/Lifecycle/Confirm.antt =====
-- A push and the confirmation of it, with and without a change in between.
use libsession_util.Prelude.{
  ◌≡◌, refl, sym, ap, ◌∙◌, Bool, true, false, not, ◌&&◌, List, [], ℕ, if◌then◌else◌,
}
use libsession_util.Prelude.Result.{
  guard-Ensures, ok, runtime_error, Ensures, Ensures-ok, Ensures->>=, Ensures-bind, Ensures-map,
  Ensures-if, Ensures-eq_ok, ◌>>=◌,
}
use libsession_util.Prelude.Int.{ℤ}
use libsession_util.Order.{same_refl}
use libsession_util.Keys.{Bytes, int_ord}
use libsession_util.Config.Message.{seqno, is_mutable}
use libsession_util.Config.Message.Parties.{serialize-Follows}
use libsession_util.Config.Message.Write.{serialize}
use libsession_util.Config.Message.Mutable.{increment}
use libsession_util.Config.Base.{
  ConfigBase, ConfigState, clean, dirty, waiting, Kind, Env, is_dirty, is_readonly,
}
use libsession_util.Config.Lifecycle.{no_clash}
use libsession_util.Config.Base.State.{
  is_dirty_state, set_state, entered, make_dirty, confirm_pushed, is_waiting,
}
use libsession_util.Config.Base.Push.{Pushed, push, push_messages, prepare, finish_push, front_key}

abbrev waiting_state : ConfigState → Bool
waiting_state s = elim s [ waiting ↦ true | _ ↦ false ]

confirm_waiting :
    (c : ConfigBase) (hs : List Bytes)
    → c.state ≡ waiting
    → confirm_pushed (seqno c.config) hs c
      ≡ ok (record (entered clean c) { curr_hashes = hs; needs_dump = true })
unfolding confirm_pushed set_state
confirm_waiting c hs e =
    let w : is_waiting c ≡ true = ap waiting_state e in
    rw (w, same_refl (seqno c.config), confirm_pushed) refl

confirm_dirty :
    (c : ConfigBase) (s : ℤ) (hs : List Bytes) → c.state ≡ dirty → confirm_pushed s hs c ≡ ok c
unfolding confirm_pushed
confirm_dirty c s hs e =
    let w : is_waiting c ≡ false = ap waiting_state e in rw (w, confirm_pushed) refl

set_state-state :
    (s : ConfigState) (c : ConfigBase)
    → Ensures (λ (d : ConfigBase). (d.state ≡ s) × (d.config ≡ c.config)) (set_state s c)
unfolding set_state
set_state-state s c =
    guard-Ensures _ (not (is_dirty_state s && is_readonly c)) runtime_error _
      (λ p. Ensures-ok _ _ (refl, refl))

dirty_of : (s : ConfigState) → elim s [ dirty ↦ true | _ ↦ false ] ≡ true → s ≡ dirty
dirty_of dirty h = refl
dirty_of clean h = cc
dirty_of waiting h = cc

make_dirty-state :
    (env : Env) (c : ConfigBase) → Ensures (λ (d : ConfigBase). d.state ≡ dirty) (make_dirty env c)
unfolding make_dirty
make_dirty-state env c =
    Ensures-bind (λ (d : ConfigBase). d.state ≡ dirty) _
      (if is_dirty c then ok (record c { needs_dump = true }) else (do
        c1 ← set_state dirty c
        m ← increment env.codec c1.config
        ok (record c1 { config = m })))
      _
      (Ensures-if _ (is_dirty c) _ _ (λ p. Ensures-ok _ _ (dirty_of c.state p))
        (λ p.
          Ensures-bind _ _ (set_state dirty c) _ (set_state-state dirty c)
            (λ c1 e. Ensures->>= _ (increment env.codec c1.config) _ (λ m. Ensures-ok _ _ e.0))))
      (λ d h. guard-Ensures _ (is_mutable d.config) runtime_error _ (λ p. Ensures-ok _ _ h))

abbrev IsPushed : ConfigBase → ConfigBase × Pushed → Type 0
IsPushed c r =
    (r.0.state ≡ waiting)
    × (r.1.pushed_seqno ≡ seqno r.0.config)
    × (r.1.pushed_seqno ≡ seqno c.config)
    × (r.0.old_hashes ≡ [])

finish_push-IsPushed :
    (env : Env) (kind : Kind) (now : ℕ) (s : ℤ) (msgs : List Bytes) (c : ConfigBase)
    → is_dirty c ≡ true
    → s ≡ seqno c.config
    → Ensures (IsPushed c) (finish_push env kind now s msgs c)
unfolding finish_push
finish_push-IsPushed env kind now s msgs c h e =
    Ensures-bind (λ (d : ConfigBase). (d.state ≡ waiting) × (d.config ≡ c.config)) _
      (if is_dirty c then set_state waiting c else ok c) _
      (Ensures-if _ (is_dirty c) _ _ (λ p. set_state-state waiting c)
        (λ p. no_clash (is_dirty c) p h))
      (λ d f. Ensures-ok _ _ (f.0, e ∙ ap seqno (sym f.1), e, refl))

push-IsPushed :
    (env : Env) (kind : Kind) (now : ℕ) (c : ConfigBase)
    → is_dirty c ≡ true
    → Ensures (IsPushed c) (push env kind now c)
unfolding push
push-IsPushed env kind now c h = Ensures->>= _ (front_key env kind now c.keys) _ (λ key.
    Ensures-bind _ _ (serialize env.codec c.config true) _
      (serialize-Follows env.codec c.config true)
      (λ r f.
        Ensures->>= _
          (push_messages env kind now key (seqno c.config) (prepare env kind now r.1) c.multiparts)
          _
          (λ ms.
            Ensures-map _ (λ t u. (u.0, u.1, u.2 ∙ f.1, u.3))
              (finish_push-IsPushed env kind now (seqno c.config) ms.0
                (record c { config = r.0; multiparts = ms.1 }) h (sym f.1)))))

-- A push of a dirty object gives its sequence number and leaves it waiting, with no old hashes. A
-- confirmation with that number then makes it clean, with the confirmed hashes; but if the object
-- was made dirty again in between, the confirmation leaves it as it is.
pub push-confirm_pushed :
    (env : Env) (kind : Kind) (now : ℕ) (c c' : ConfigBase) (p : Pushed) (hs : List Bytes)
    → is_dirty c ≡ true
    → push env kind now c ≡ ok (c', p)
    → (c'.state ≡ waiting)
      × (p.pushed_seqno ≡ seqno c.config)
      × (c'.old_hashes ≡ [])
      × ((d : ConfigBase) × (confirm_pushed p.pushed_seqno hs c' ≡ ok d)
          × (d.state ≡ clean)
          × (d.curr_hashes ≡ hs))
      × ((d : ConfigBase) → make_dirty env c' ≡ ok d → confirm_pushed p.pushed_seqno hs d ≡ ok d)
push-confirm_pushed env kind now c c' p hs h e =
    let f = Ensures-eq_ok (IsPushed c) _ (c', p) (push-IsPushed env kind now c h) e in
    (
      f.0,
      f.2,
      f.3,
      (
        record (entered clean c') { curr_hashes = hs; needs_dump = true },
        rw f.1 (confirm_waiting c' hs f.0),
        refl,
        refl,
      ),
      λ d g. confirm_dirty d p.pushed_seqno hs (Ensures-eq_ok _ _ d (make_dirty-state env c') g),
    )
