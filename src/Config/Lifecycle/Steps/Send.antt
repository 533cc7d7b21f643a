-- ===== src/Config/Lifecycle/Steps/Send.antt =====
-- `push` and `dump` keep the object sound.
use libsession_util.Prelude.{Bool, true, false, List, [], ℕ, if◌then◌else◌}
use libsession_util.Prelude.Result.{
  ok, Ensures, Ensures-ok, Ensures->>=, Ensures-map, Ensures-bind, Ensures-if,
}
use libsession_util.Prelude.Int.{ℤ}
use libsession_util.Keys.{Bytes}
use libsession_util.Config.Bt.{BtDict}
use libsession_util.Config.Message.{seqno}
use libsession_util.Config.Message.Parties.{serialize-Follows}
use libsession_util.Config.Message.Write.{serialize}
use libsession_util.Config.Base.{ConfigBase, waiting, Kind, Env, Multiparts, is_dirty, is_readonly}
use libsession_util.Config.Base.State.{set_state}
use libsession_util.Config.Base.Multipart.{expire_multiparts}
use libsession_util.Config.Base.Push.{Pushed, push, push_messages, prepare, finish_push, front_key}
use libsession_util.Config.Base.Push.Dump.{make_dump, dump}
use libsession_util.Config.Lifecycle.{IsSound, set_state-lem, IsSound-waiting, IsSound-Follows}

-- The members that soundness does not read.
pub IsSound-others :
    (c : ConfigBase) (old : List Bytes) (parts : Multiparts) (needs_dump : Bool)
    → IsSound c
    → IsSound (record c { old_hashes = old; multiparts = parts; needs_dump = needs_dump })
IsSound-others c old parts n h = record {
  dirty_is_mutable = h.dirty_is_mutable;
  dirty_can_sign = h.dirty_can_sign;
  only_clean_has_hashes = h.only_clean_has_hashes;
}

finish_push-IsSound :
    (env : Env) (kind : Kind) (now : ℕ) (s : ℤ) (msgs : List Bytes) (c : ConfigBase)
    → IsSound c
    → Ensures (λ (r : ConfigBase × Pushed). IsSound r.0) (finish_push env kind now s msgs c)
unfolding finish_push
finish_push-IsSound env kind now s msgs c h =
    Ensures-bind IsSound _ (if is_dirty c then set_state waiting c else ok c) _
      (Ensures-if _ (is_dirty c) _ _
        (λ p.
          Ensures-map (set_state waiting c) (λ c' e. IsSound-waiting c' e.0 e.2)
            (set_state-lem waiting c h.only_clean_has_hashes))
        (λ p. Ensures-ok _ _ h))
      (λ c' h'. Ensures-ok _ _ (IsSound-others c' [] c'.multiparts c'.needs_dump h'))

pub push-IsSound :
    (env : Env) (kind : Kind) (now : ℕ) (c : ConfigBase)
    → IsSound c
    → Ensures (λ (r : ConfigBase × Pushed). IsSound r.0) (push env kind now c)
unfolding push
push-IsSound env kind now c h = Ensures->>= _ (front_key env kind now c.keys) _ (λ key.
    Ensures-bind _ _ (serialize env.codec c.config true) _
      (serialize-Follows env.codec c.config true)
      (λ r f.
        Ensures->>= _
          (push_messages env kind now key (seqno c.config) (prepare env kind now r.1) c.multiparts)
          _
          (λ ms.
            finish_push-IsSound env kind now (seqno c.config) ms.0
              (record c { config = r.0; multiparts = ms.1 })
              (IsSound-others (record c { config = r.0 }) c.old_hashes ms.1 c.needs_dump
                (IsSound-Follows c r.0 f h)))))

make_dump-IsSound :
    (env : Env) (now : ℕ) (extra : BtDict) (c : ConfigBase)
    → IsSound c
    → Ensures (λ (r : ConfigBase × Bytes). IsSound r.0) (make_dump env now extra c)
unfolding make_dump
make_dump-IsSound env now extra c h =
    Ensures-bind _ _ (serialize env.codec c.config false) _
      (serialize-Follows env.codec c.config false)
      (λ r f. Ensures-ok _ _ (IsSound-Follows c r.0 f h))

pub dump-IsSound :
    (env : Env) (now : ℕ) (extra : BtDict) (c : ConfigBase)
    → IsSound c
    → Ensures (λ (r : ConfigBase × Bytes). IsSound r.0) (dump env now extra c)
unfolding dump
dump-IsSound env now extra c h =
    let old : List Bytes = if is_readonly c then [] else c.old_hashes in
    let parts = expire_multiparts now c.multiparts in
    Ensures-bind _ _ (make_dump env now extra (record c { old_hashes = old; multiparts = parts })) _
      (make_dump-IsSound env now extra _ (IsSound-others c old parts c.needs_dump h))
      (λ r hr. Ensures-ok _ _ (IsSound-others r.0 r.0.old_hashes r.0.multiparts false hr))
