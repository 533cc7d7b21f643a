-- ===== src/Config/Lifecycle/Steps/Reach.antt =====
-- The steps of a config object as a relation, and the objects that they reach.
use libsession_util.Prelude.{
  if◌then◌else◌, ◌≡◌, refl, none, not, ◌&&◌, ◌==◌, length, arith, Bool, true, false, List, [], ℕ,
}
use libsession_util.Prelude.Result.{
  ok, invalid_argument, Ensures, Ensures-ok, guard-Ensures, Ensures-eq_ok,
}
use libsession_util.Prelude.Int.{ℤ}
use libsession_util.Keys.{Bytes}
use libsession_util.Config.Data.{Dict}
use libsession_util.Config.Bt.{BtDict}
use libsession_util.Config.Message.{Verifier, Signer}
use libsession_util.Config.Message.Read.{is_set}
use libsession_util.Config.Signing.{
  Ed25519, ConfigSig, set_sig_keys, set_sig_pubkey, clear_sig_keys,
}
use libsession_util.Config.Base.{ConfigBase, Kind, Env, is_dirty, clean}
use libsession_util.Config.Base.State.{
  set_verifier, set_signer, make_dirty, confirm_pushed, take_old_hashes,
}
use libsession_util.Config.Base.Keyring.{remove_key, add_key, clear_keys, replace_keys}
use libsession_util.Config.Base.Field.{change_dirty}
use libsession_util.Config.Base.Push.{Pushed, push}
use libsession_util.Config.Base.Push.Dump.{dump}
use libsession_util.Config.Base.Incoming.{Incoming}
use libsession_util.Config.Base.Incoming.Adopt.{merge}
use libsession_util.Config.Lifecycle.{IsSound, IsSound-clean, make_dirty-IsSound}
use libsession_util.Config.Lifecycle.Steps.{
  confirm_pushed-IsSound, remove_key-IsSound, add_key-IsSound, clear_keys-IsSound,
  replace_keys-IsSound, change_dirty-IsSound,
}
use libsession_util.Config.Lifecycle.Steps.Send.{IsSound-others, push-IsSound, dump-IsSound}
use libsession_util.Config.Lifecycle.Steps.Merge.{merge-IsSound}

-- One call that returns. The calls on the signing keys start from any keys `x` and leave `x'`, and
-- give the message their functions; `set_sig_pubkey` gives a verifier only, and is a step on an
-- object that is not dirty or has a signer. `changes` is any change of the data through a dirty object, as the setters
-- of the fields make it.
pub data Step (env : Env) (kind : Kind) (c : ConfigBase) : ConfigBase → Type 0 where
  dirties : (c' : ConfigBase) → make_dirty env c ≡ ok c' → Step env kind c c'
  changes : (f : Dict → Dict) (c' : ConfigBase) → change_dirty env f c ≡ ok c' → Step env kind c c'
  pushes :
      (now : ℕ) (p : Pushed) (c' : ConfigBase)
      → push env kind now c ≡ ok (c', p)
      → Step env kind c c'
  confirms :
      (s : ℤ) (hs : List Bytes) (c' : ConfigBase)
      → confirm_pushed s hs c ≡ ok c'
      → Step env kind c c'
  merges :
      (now : ℕ) (configs : List Incoming) (good : List Bytes) (c' : ConfigBase)
      → merge env kind now configs c ≡ ok (c', good)
      → Step env kind c c'
  dumps :
      (now : ℕ) (extra : BtDict) (out : Bytes) (c' : ConfigBase)
      → dump env now extra c ≡ ok (c', out)
      → Step env kind c c'
  takes : Step env kind c (take_old_hashes c).0
  adds_key :
      (key : Bytes) (high d : Bool) (c' : ConfigBase)
      → add_key env key high d c ≡ ok c'
      → Step env kind c c'
  removes_key :
      (key : Bytes) (from : ℕ) (d gone : Bool) (c' : ConfigBase)
      → remove_key env key from d c ≡ ok (c', gone)
      → Step env kind c c'
  clears_keys :
      (d : Bool) (n : ℕ) (c' : ConfigBase) → clear_keys env d c ≡ ok (c', n) → Step env kind c c'
  replaces_keys :
      (ks : List Bytes) (d : Bool) (c' : ConfigBase)
      → replace_keys env ks d c ≡ ok c'
      → Step env kind c c'
  sets_sig_keys :
      (ed25519 : Ed25519) (secret : Bytes) (x x' : ConfigSig)
      → set_sig_keys ed25519 secret x ≡ ok x'
      → Step env kind c (set_signer x'.signer (set_verifier x'.verifier c))
  sets_sig_pubkey :
      (ed25519 : Ed25519) (pubkey : Bytes) (x x' : ConfigSig)
      → set_sig_pubkey ed25519 pubkey x ≡ ok x'
      → (is_dirty c ≡ true → is_set c.config.signer ≡ true)
      → Step env kind c (set_verifier x'.verifier c)
  clears_sig_keys :
      Step env kind c (set_signer clear_sig_keys.signer (set_verifier clear_sig_keys.verifier c))

pub data Reaches (env : Env) (kind : Kind) (c : ConfigBase) : ConfigBase → Type 0 where
  here : Reaches env kind c c
  step : (d e : ConfigBase) → Reaches env kind c d → Step env kind d e → Reaches env kind c e

take_old_hashes-IsSound : (c : ConfigBase) → IsSound c → IsSound (take_old_hashes c).0
unfolding take_old_hashes
take_old_hashes-IsSound c h =
    elim (is_dirty c)
      as (λ b.
        let r : ConfigBase × List Bytes =
          if b then (c, []) else (record c { old_hashes = [] }, c.old_hashes) in
        IsSound r.0) [ true ↦ h | false ↦ IsSound-others c [] c.multiparts c.needs_dump h ]

-- A message that gets other functions, with which a dirty object is not read-only.
IsSound-functions :
    (v : Verifier) (s : Signer) (c : ConfigBase)
    → (is_dirty c ≡ true → (is_set v && not (is_set s)) ≡ false)
    → IsSound c
    → IsSound (record c { config = record c.config { verifier = v; signer = s } })
IsSound-functions v s c p h = record {
  dirty_is_mutable = h.dirty_is_mutable;
  dirty_can_sign = p;
  only_clean_has_hashes = h.only_clean_has_hashes;
}

not_readonly : (v s : Bool) → s ≡ true → (v && not s) ≡ false
not_readonly v s e = ground arith

set_sig_keys-signer :
    (ed25519 : Ed25519) (secret : Bytes) (x : ConfigSig)
    → Ensures (λ (x' : ConfigSig). is_set x'.signer ≡ true) (set_sig_keys ed25519 secret x)
unfolding set_sig_keys
set_sig_keys-signer ed25519 secret x =
    guard-Ensures _ (length secret == 64) invalid_argument _ (λ g. Ensures-ok _ _ refl)

Step-IsSound :
    (env : Env) (kind : Kind) (c c' : ConfigBase) → IsSound c → Step env kind c c' → IsSound c'
Step-IsSound env kind c _ h (dirties c' e) = Ensures-eq_ok _ _ c' (make_dirty-IsSound env c h) e
Step-IsSound env kind c _ h (changes f c' e) =
    Ensures-eq_ok _ _ c' (change_dirty-IsSound env f c h) e
Step-IsSound env kind c _ h (pushes now p c' e) =
    Ensures-eq_ok _ _ (c', p) (push-IsSound env kind now c h) e
Step-IsSound env kind c _ h (confirms s hs c' e) =
    Ensures-eq_ok _ _ c' (confirm_pushed-IsSound s hs c h) e
Step-IsSound env kind c _ h (merges now configs good c' e) =
    Ensures-eq_ok _ _ (c', good) (merge-IsSound env kind now configs c h) e
Step-IsSound env kind c _ h (dumps now extra out c' e) =
    Ensures-eq_ok _ _ (c', out) (dump-IsSound env now extra c h) e
Step-IsSound env kind c _ h takes = take_old_hashes-IsSound c h
Step-IsSound env kind c _ h (adds_key key high d c' e) =
    Ensures-eq_ok _ _ c' (add_key-IsSound env key high d c h) e
Step-IsSound env kind c _ h (removes_key key from d gone c' e) =
    Ensures-eq_ok _ _ (c', gone) (remove_key-IsSound env key from d c h) e
Step-IsSound env kind c _ h (clears_keys d n c' e) =
    Ensures-eq_ok _ _ (c', n) (clear_keys-IsSound env d c h) e
Step-IsSound env kind c _ h (replaces_keys ks d c' e) =
    Ensures-eq_ok _ _ c' (replace_keys-IsSound env ks d c h) e
Step-IsSound env kind c _ h (sets_sig_keys ed25519 secret x x' e) =
    IsSound-functions x'.verifier x'.signer c
      (λ p.
        not_readonly (is_set x'.verifier) (is_set x'.signer)
          (Ensures-eq_ok _ _ x' (set_sig_keys-signer ed25519 secret x) e))
      h
Step-IsSound env kind c _ h (sets_sig_pubkey ed25519 pubkey x x' e s) =
    IsSound-functions x'.verifier c.config.signer c
      (λ p. not_readonly (is_set x'.verifier) (is_set c.config.signer) (s p)) h
Step-IsSound env kind c _ h clears_sig_keys = IsSound-functions none none c (λ p. refl) h

-- Every object that calls reach from a clean one, those on the signing keys included, is sound:
-- while it is dirty its message is mutable and it is not read-only, and it has current hashes only
-- while it is clean. One call is excepted: `set_sig_pubkey` on a dirty object that has no signer.
pub Reaches-IsSound :
    (env : Env) (kind : Kind) (c c' : ConfigBase)
    → c.state ≡ clean
    → Reaches env kind c c'
    → IsSound c'
Reaches-IsSound env kind c _ e here = IsSound-clean c e
Reaches-IsSound env kind c _ e (step d c' r s) =
    Step-IsSound env kind d c' (Reaches-IsSound env kind c d e r) s
