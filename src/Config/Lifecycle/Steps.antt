-- ===== src/Config/Lifecycle/Steps.antt =====
-- The operations on the state, the keys and the fields, and `push` and `dump`: each keeps the object sound.
pub mod Send
pub mod Merge
pub mod Reach
use libsession_util.Prelude.{
  ◌≡◌, refl, sym, ap, ◌∙◌, Bool, true, false, not, ◌&&◌, ◌||◌, ◌==◌, ℕ, Option, none, some, List,
  [], ◌∷◌, ◌++◌, length, ltb, leb, if◌then◌else◌,
}
use libsession_util.Prelude.Result.{
  guard-Ensures, Result, ok, err, guard, invalid_argument, Ensures, Ensures-ok, Ensures-err,
  Ensures->>=, Ensures-bind, Ensures-if, ◌>>=◌, ◌>>◌,
}
use libsession_util.Prelude.Int.{ℤ}
use libsession_util.Order.{same}
use libsession_util.Keys.{Bytes, int_ord}
use libsession_util.Config.Data.{Dict, is_nil}
use libsession_util.Config.Bt.{BtDict}
use libsession_util.Config.Message.{Message, seqno}
use libsession_util.Config.Message.Parties.{Follows, serialize-Follows}
use libsession_util.Config.Message.Write.{serialize}
use libsession_util.Config.Base.{
  ConfigBase, ConfigState, clean, dirty, waiting, Kind, Env, is_dirty, is_readonly,
}
use libsession_util.Config.Base.State.{set_state, make_dirty, confirm_pushed, is_waiting}
use libsession_util.Config.Base.Keyring.{
  dirty_if, remove_key, remove_from, is_front, among, add_key, clear_keys, add_keys, replace_keys,
  all_32, load_key,
}
use libsession_util.Config.Base.Field.{with_data, change_dirty}
use libsession_util.Config.Base.Push.{push, push_messages, prepare, finish_push, front_key}
use libsession_util.Config.Base.Push.Dump.{make_dump, dump}
use libsession_util.Config.Lifecycle.{
  IsSound, set_state-lem, make_dirty-IsSound, IsSound-clean, IsSound-waiting, IsSound-Follows,
}

-- An object that differs in other members only.
abbrev pub Alike : ConfigBase → ConfigBase → Type 0
Alike c c' = (c'.state ≡ c.state) × (c'.config ≡ c.config) × (c'.curr_hashes ≡ c.curr_hashes)

pub confirm_pushed-IsSound :
    (s : ℤ) (hs : List Bytes) (c : ConfigBase) → IsSound c → Ensures IsSound (confirm_pushed s hs c)
unfolding confirm_pushed
confirm_pushed-IsSound s hs c h =
    Ensures-if IsSound (is_waiting c && same s (seqno c.config)) _ _
      (λ p.
        Ensures-bind _ _ (set_state clean c) _ (set_state-lem clean c h.only_clean_has_hashes)
          (λ c' e.
            Ensures-ok _ _ (IsSound-clean (record c' { curr_hashes = hs; needs_dump = true }) e.0)))
      (λ p. Ensures-ok _ _ h)

pub IsSound-keys : (c : ConfigBase) (ks : List Bytes) → IsSound c → IsSound (record c { keys = ks })
IsSound-keys c ks h = record {
  dirty_is_mutable = h.dirty_is_mutable;
  dirty_can_sign = h.dirty_can_sign;
  only_clean_has_hashes = h.only_clean_has_hashes;
}

pub dirty_if-IsSound :
    (env : Env) (b : Bool) (c : ConfigBase) → IsSound c → Ensures IsSound (dirty_if env b c)
dirty_if-IsSound env b c h =
    Ensures-if IsSound b _ _ (λ p. make_dirty-IsSound env c h) (λ p. Ensures-ok _ _ h)

pub remove_key-IsSound :
    (env : Env) (key : Bytes) (from : ℕ) (d : Bool) (c : ConfigBase)
    → IsSound c
    → Ensures (λ (r : ConfigBase × Bool). IsSound r.0) (remove_key env key from d c)
unfolding remove_key
remove_key-IsSound env key from d c h =
    Ensures-if _ (leb (length c.keys) from) _ _ (λ p. Ensures-ok _ _ h)
      (λ p.
        Ensures-bind IsSound _
          (dirty_if env (d && not (is_readonly c) && is_front key c.keys)
            (record c { keys = remove_from from key c.keys }))
          _ (dirty_if-IsSound env _ _ (IsSound-keys c (remove_from from key c.keys) h))
          (λ c' h'. Ensures-ok _ _ h'))

pub add_key-IsSound :
    (env : Env) (key : Bytes) (high d : Bool) (c : ConfigBase)
    → IsSound c
    → Ensures IsSound (add_key env key high d c)
unfolding add_key
add_key-IsSound env key high d c h = guard-Ensures _ (length key == 32) invalid_argument _ (λ g.
    Ensures-if _ (is_front key c.keys || (not high && among key c.keys)) _ _ (λ p. Ensures-ok _ _ h)
      (λ p.
        Ensures-bind (λ (r : ConfigBase × Bool). IsSound r.0) _
          (if high then remove_key env key 1 false c else ok (c, false)) _
          (Ensures-if _ high _ _ (λ q. remove_key-IsSound env key 1 false c h)
            (λ q. Ensures-ok _ _ h))
          (λ r hr.
            dirty_if-IsSound env _ _
              (IsSound-keys r.0 (if high then key ∷ r.0.keys else r.0.keys ++ (key ∷ [])) hr))))

pub clear_keys-IsSound :
    (env : Env) (d : Bool) (c : ConfigBase)
    → IsSound c
    → Ensures (λ (r : ConfigBase × ℕ). IsSound r.0) (clear_keys env d c)
unfolding clear_keys
clear_keys-IsSound env d c h =
    Ensures-bind IsSound _
      (dirty_if env (d && not (is_readonly c) && not (is_nil c.keys)) (record c { keys = [] })) _
      (dirty_if-IsSound env _ _ (IsSound-keys c [] h)) (λ c' h'. Ensures-ok _ _ h')

pub add_keys-IsSound :
    (env : Env) (ks : List Bytes) (c : ConfigBase) → IsSound c → Ensures IsSound (add_keys env ks c)
unfolding add_keys
add_keys-IsSound env [] c h = Ensures-ok _ _ h
add_keys-IsSound env (k ∷ ks) c h =
    Ensures-bind IsSound _ (add_key env k false false c) _ (add_key-IsSound env k false false c h)
      (λ c' h'. add_keys-IsSound env ks c' h')

pub replace_keys-IsSound :
    (env : Env) (ks : List Bytes) (d : Bool) (c : ConfigBase)
    → IsSound c
    → Ensures IsSound (replace_keys env ks d c)
unfolding replace_keys
replace_keys-IsSound env [] d c h =
    Ensures-if IsSound (is_nil c.keys) _ _ (λ p. Ensures-ok _ _ h)
      (λ p.
        Ensures-bind _ _ (clear_keys env d c) _ (clear_keys-IsSound env d c h)
          (λ r hr. Ensures-ok _ _ hr))
replace_keys-IsSound env (k ∷ ks) d c h = guard-Ensures _ (all_32 (k ∷ ks)) invalid_argument _ (λ g.
    Ensures-bind IsSound _ (add_keys env (k ∷ ks) (record c { keys = [] })) _
      (add_keys-IsSound env (k ∷ ks) _ (IsSound-keys c [] h))
      (λ c' h'. dirty_if-IsSound env _ c' h'))

IsSound-with_data : (f : Dict → Dict) (c : ConfigBase) → IsSound c → IsSound (with_data f c)
IsSound-with_data f c h = record {
  dirty_is_mutable = h.dirty_is_mutable;
  dirty_can_sign = h.dirty_can_sign;
  only_clean_has_hashes = h.only_clean_has_hashes;
}

pub change_dirty-IsSound :
    (env : Env) (f : Dict → Dict) (c : ConfigBase)
    → IsSound c
    → Ensures IsSound (change_dirty env f c)
unfolding change_dirty
change_dirty-IsSound env f c h =
    Ensures-bind IsSound _ (make_dirty env c) _ (make_dirty-IsSound env c h)
      (λ b hb. Ensures-ok _ _ (IsSound-with_data f b hb))
