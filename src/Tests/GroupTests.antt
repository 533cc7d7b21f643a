-- ===== src/Tests/GroupTests.antt =====
-- The keys of a group at concrete inputs.
use libsession_util.Prelude.{
  ℕ, ◌≡◌, ◌⊎◌, ◌↔◌, refl, true, false, not, none, some, List, [], ◌∷◌, replicate,
}
use libsession_util.Prelude.Int.{pos, ◌+ℤ◌}
use libsession_util.Prelude.Result.{ok}
use libsession_util.Keys.{bytes, bytes_ord, list_lt}
use libsession_util.Containers.SortedSet
use libsession_util.Config.Data.{is_nil}
use libsession_util.Config.Signing.{
  ConfigSig, clear_sig_keys, verifier_of, init_sig_keys, set_sig_pubkey,
}
use libsession_util.Groups.Keys.Starts.{new_keys, unused}
use libsession_util.Groups.Keys.Starts.Restart.{new_keys-make_keys_dump}
use libsession_util.Tests.SigningTests.{toy_ed25519}
use libsession_util.Groups.Keys.{
  KeyInfo, key_lt, Keys, admin, unexpired, remove_expired, needs_rekey, group_enc_key,
}
use libsession_util.Groups.Keys.Ordered.{key_ord}
use libsession_util.Groups.Keys.Expiry.{Split, EndsIn, StopsAt}
use libsession_util.Groups.Keys.Loads.{Group, accept}
use libsession_util.Groups.Keys.Laws
use libsession_util.Groups.Keys.Laws.{IsWell}
use libsession_util.Groups.Keys.Accepts
use libsession_util.Groups.Keys.Accepts.{Shares}
use libsession_util.Groups.Keys.Rekeys
use libsession_util.Groups.Keys.Rekeys.{Collides}
use libsession_util.Groups.Keys.Dump.{make_keys_dump, load_dump}
use libsession_util.Groups.Keys.Dump.Restores
use libsession_util.Groups.Keys.Dump.Restores.{restored}
use libsession_util.Tests.BaseTests.{toy_env, fresh}

abbrev key_at : ℕ → ℕ → ℕ → KeyInfo
key_at gen time byte = record {
  generation = pos gen;
  timestamp = pos time;
  key = replicate 32 byte;
}

abbrev lapsed : KeyInfo
lapsed = key_at 0 0 1

abbrev second : KeyInfo
second = key_at 1 1000 2

abbrev newest : KeyInfo
newest = key_at 2 6000000000 3

abbrev twin : KeyInfo
twin = key_at 2 6000000001 4

abbrev three : List KeyInfo
three = lapsed ∷ second ∷ newest ∷ []

three-IsSorted : SortedSet.IsSorted three
unfolding key_lt list_lt
three-IsSorted = ((refl, (refl, tt)), ((refl, tt), (tt, tt)))

abbrev with_keys : List KeyInfo → Keys
with_keys ks = record {
  sig = record clear_sig_keys { sign_pk = some []; sign_sk = some [] };
  user_ed25519_sk = [];
  keys = ks;
  active_msgs = (pos 1, bytes "hash" ∷ []) ∷ [];
  pending_key = replicate 32 9;
  pending_key_config = [];
  pending_gen = pos 0;
  needs_dump = false;
}

abbrev group : Group
group = record { keys = with_keys (second ∷ newest ∷ []); info = fresh; members = fresh }

group-IsWell : IsWell group.keys
unfolding key_lt list_lt
group-IsWell = (((refl, tt), (tt, tt)), (refl, (refl, tt)), (tt, tt), (refl, tt))

remove_expired_lem_example :
    Split newest three (remove_expired (with_keys three)).keys
    × EndsIn newest (remove_expired (with_keys three)).keys
    × StopsAt newest (remove_expired (with_keys three)).keys
remove_expired_lem_example =
    Laws.remove_expired_lem (with_keys three) lapsed (second ∷ newest ∷ []) refl three-IsSorted

remove_expired_of_three : (remove_expired (with_keys three)).keys ≡ second ∷ newest ∷ []
unfolding remove_expired unexpired ◌+ℤ◌
remove_expired_of_three = refl

accept_lem_example :
    (g' : Group) × (accept toy_env (bytes "new") (twin ∷ []) none group
      ≡ ok (g', not (is_nil (twin ∷ []))))
    × IsWell g'.keys
    × ((is_nil (twin ∷ []) ≡ true) ⊎ Shares g')
accept_lem_example =
    Accepts.accept_lem toy_env (bytes "new") (twin ∷ []) none group group-IsWell refl (refl, tt)

abbrev rivals : Keys
rivals = with_keys (newest ∷ twin ∷ [])

rivals-IsSorted : SortedSet.IsSorted rivals.keys
unfolding key_lt list_lt
rivals-IsSorted = ((refl, tt), (tt, tt))

needs_rekey_iff_example :
    (needs_rekey rivals ≡ true) ↔ ((admin rivals ≡ true) × Collides rivals.keys)
needs_rekey_iff_example = Rekeys.needs_rekey_iff rivals rivals-IsSorted

rivals_rekey : needs_rekey rivals ≡ true
unfolding needs_rekey
rivals_rekey = refl

abbrev start : Keys
start = record (with_keys []) { active_msgs = [] }

dump_loaded : load_dump (make_keys_dump group.keys) start ≡ ok (restored group.keys start)
dump_loaded =
    Restores.load_dump-make_keys_dump group.keys start group-IsWell ((tt, tt), tt) refl refl

abbrev restart_sig : ConfigSig
restart_sig = record clear_sig_keys {
  sign_pk = some (replicate 32 1);
  verifier = verifier_of toy_ed25519 (replicate 32 1);
}

restart_sig_lem :
    init_sig_keys toy_ed25519 (some (replicate 32 1)) none clear_sig_keys ≡ ok restart_sig
unfolding init_sig_keys set_sig_pubkey
restart_sig_lem = refl

-- A group with a key that is still pending.
abbrev waiting : Keys
waiting = record group.keys { pending_key_config = bytes "message" }

new_keys-make_keys_dump_example :
    (g' : Group) × (new_keys toy_env toy_ed25519
        (replicate 32 0)
        (replicate 64 0)
        (replicate 32 1)
        none
        (some (make_keys_dump waiting))
        fresh
        fresh
      ≡ ok g')
    × (g'.keys ≡ restored waiting (unused (replicate 32 0) (replicate 64 0) restart_sig))
    × (group_enc_key g'.keys ≡ group_enc_key waiting)
    × Shares g'
new_keys-make_keys_dump_example =
    new_keys-make_keys_dump toy_env toy_ed25519 (replicate 32 0) (replicate 64 0) (replicate 32 1)
      none restart_sig waiting second (newest ∷ []) fresh fresh refl refl refl refl restart_sig_lem
      group-IsWell ((tt, tt), tt) refl refl
