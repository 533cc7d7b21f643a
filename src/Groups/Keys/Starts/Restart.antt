-- ===== src/Groups/Keys/Starts/Restart.antt =====
-- A `Keys` object made of the dump of another (src/config/groups/keys.cpp).
use libsession_util.Prelude.{
  ◌≡◌, Bool, refl, ap, ◌∙◌, true, false, Option, some, List, [], ◌∷◌, length, All, ◌==◌, arith,
}
use libsession_util.Prelude.Result.{ok}
use libsession_util.Keys.{Bytes, bytes_ord}
use libsession_util.Containers.SortedSet
use libsession_util.Config.Data.{is_nil}
use libsession_util.Config.Base.{ConfigBase, Env}
use libsession_util.Config.Signing.{Ed25519, ConfigSig, clear_sig_keys, init_sig_keys}
use libsession_util.Groups.Keys.{KeyInfo, Keys, group_enc_key}
use libsession_util.Groups.Keys.Accepts.{Held, Shares, share_keys_returns}
use libsession_util.Groups.Keys.Dump.{make_keys_dump}
use libsession_util.Groups.Keys.Dump.Restores.{restored, restored_if, load_dump-make_keys_dump}
use libsession_util.Groups.Keys.Laws.{IsWell}
use libsession_util.Groups.Keys.Loads.{Group}
use libsession_util.Groups.Keys.Starts.{has_size, unused, new_keys}

restored_if-keys : (b : Bool) (g start : Keys) → (restored_if b g start).keys ≡ g.keys
restored_if-keys true g start = refl
restored_if-keys false g start = refl

restored_if-Held :
    (b : Bool) (g start : Keys)
    → IsWell g
    → length g.pending_key ≡ 32
    → length start.pending_key ≡ 32
    → Held (restored_if b g start)
restored_if-Held true g start w l h = (w, h)
restored_if-Held false g start w l h = (w, l)

group_enc_key-restored_if :
    (b : Bool) (g start : Keys)
    → is_nil g.pending_key_config ≡ b
    → start.pending_key_config ≡ []
    → group_enc_key (restored_if b g start) ≡ group_enc_key g
unfolding group_enc_key
group_enc_key-restored_if true g start p n = rw (n, p) refl
group_enc_key-restored_if false g start p n = rw p refl

-- The constructor, with valid keys and the dump of a well-formed state that has a key, whose sets
-- of hashes are in order and whose pending key has 32 bytes: it returns, the object has the state
-- that was dumped and the key that encrypts, and both configs have that key in front.
pub new_keys-make_keys_dump :
    (env : Env) (e : Ed25519) (unset user_sk pubkey : Bytes) (secret : Option Bytes)
    (sig : ConfigSig) (g : Keys) (k : KeyInfo) (ks : List KeyInfo) (info members : ConfigBase)
    → length unset ≡ 32
    → length user_sk ≡ 64
    → length pubkey ≡ 32
    → has_size 64 secret ≡ true
    → init_sig_keys e (some pubkey) secret clear_sig_keys ≡ ok sig
    → IsWell g
    → All (λ m. SortedSet.IsSorted m.1) g.active_msgs
    → length g.pending_key ≡ 32
    → g.keys ≡ k ∷ ks
    → (g' : Group) × (new_keys env e unset user_sk pubkey secret
          (some (make_keys_dump g))
          info
          members
        ≡ ok g')
      × (g'.keys ≡ restored g (unused unset user_sk sig))
      × (group_enc_key g'.keys ≡ group_enc_key g)
      × Shares g'
unfolding new_keys
new_keys-make_keys_dump env e unset user_sk pubkey secret sig g k ks info members lu ls lp hs i w a
      l hk =
    let start = unused unset user_sk sig in
    let b0 = is_nil g.pending_key_config in
    let b : (length user_sk == 64) ≡ true = ground (arith, ls) in
    let c : (length pubkey == 32) ≡ true = ground (arith, lp) in
    let d = load_dump-make_keys_dump g start w a l refl in
    let group : Group = record { keys = restored g start; info = info; members = members } in
    let (g', r, p, s) =
      share_keys_returns env group k ks (restored_if-keys b0 g start ∙ hk)
        (restored_if-Held b0 g start w l lu) in
    (
      g',
      rw (b, c, hs) (rw i (rw d r)),
      p,
      ap group_enc_key p ∙ group_enc_key-restored_if b0 g start refl refl,
      s,
    )
