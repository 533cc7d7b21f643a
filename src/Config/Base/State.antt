-- ===== src/Config/Base/State.antt =====
-- The transitions of the state: `set_state`, `dirty`, `confirm_pushed`, `old_hashes` (src/config/
-- base.cpp).
use libsession_util.Prelude.{Bool, true, false, not, ◌&&◌, List, [], if◌then◌else◌}
use libsession_util.Prelude.Result.{Result, ok, guard, runtime_error, ◌>>=◌, ◌>>◌}
use libsession_util.Prelude.Int.{ℤ}
use libsession_util.Order.{same}
use libsession_util.Keys.{Bytes, bytes_ord, int_ord, list_lt}
use libsession_util.Containers.SortedSet
use libsession_util.Config.Data.{is_nil}
use libsession_util.Config.Message.{Verifier, Signer, seqno, is_mutable}
use libsession_util.Config.Message.Mutable.{increment}
use libsession_util.Config.Base.{
  ConfigBase, ConfigState, clean, dirty, waiting, Env, is_dirty, is_clean, is_readonly,
  insert_hashes,
}

abbrev pub is_dirty_state : ConfigState → Bool
is_dirty_state dirty = true
is_dirty_state _ = false

-- The members that change: the hashes of a clean object become old ones.
abbrev pub entered : ConfigState → ConfigBase → ConfigBase
entered s c =
    let leaves_clean = is_clean c && not (is_nil c.curr_hashes) in
    record c {
      state = s;
      curr_hashes = if leaves_clean then [] else c.curr_hashes;
      old_hashes = if leaves_clean then insert_hashes c.curr_hashes c.old_hashes else c.old_hashes;
      needs_dump = true;
    }

unfoldable pub set_state : ConfigState → ConfigBase → Result ConfigBase
unfolding SortedSet.insert list_lt
set_state s c = do guard (not (is_dirty_state s && is_readonly c)) runtime_error; ok (entered s c)

-- `set_verifier`, `set_signer`: the message gets the functions.
abbrev pub set_verifier : Verifier → ConfigBase → ConfigBase
set_verifier v c = record c { config = record c.config { verifier = v } }

abbrev pub set_signer : Signer → ConfigBase → ConfigBase
set_signer s c = record c { config = record c.config { signer = s } }

-- `dirty()`: the object afterwards, whose message is mutable.
unfoldable pub make_dirty : Env → ConfigBase → Result ConfigBase
unfolding set_state increment
make_dirty env c = do
  c' ←
      (if is_dirty c then ok (record c { needs_dump = true }) else (do
        c1 ← set_state dirty c
        m ← increment env.codec c1.config
        ok (record c1 { config = m })))
  guard (is_mutable c'.config) runtime_error
  ok c'

abbrev pub is_waiting : ConfigBase → Bool
is_waiting c = elim c.state [ waiting ↦ true | _ ↦ false ]

unfoldable pub confirm_pushed : ℤ → List Bytes → ConfigBase → Result ConfigBase
unfolding set_state
confirm_pushed s msg_hashes c =
    let confirmed = (do
      c' ← set_state clean c
      ok (record c' { curr_hashes = msg_hashes; needs_dump = true })) in
    if is_waiting c && same s (seqno c.config) then confirmed else ok c

-- `old_hashes()`
unfoldable pub take_old_hashes : ConfigBase → ConfigBase × List Bytes
take_old_hashes c = if is_dirty c then (c, []) else (record c { old_hashes = [] }, c.old_hashes)
