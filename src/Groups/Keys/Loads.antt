-- ===== src/Groups/Keys/Loads.antt =====
-- What `load_key_message` (src/config/groups/keys.cpp) does with the keys of a message that it has
-- parsed, decrypted and verified, to the keys, the info and the members of the group.
use libsession_util.Prelude.{
  Bool, true, false, not, ◌&&◌, ◌||◌, Option, none, some, List, [], ◌∷◌, if◌then◌else◌,
}
use libsession_util.Prelude.Int.{ℤ, ltb_ℤ}
use libsession_util.Prelude.Result.{Result, ok, ◌>>=◌}
use libsession_util.Order.{same}
use libsession_util.Keys.{Bytes, bytes_ord, list_lt}
use libsession_util.Config.Data.{is_nil}
use libsession_util.Config.Base.{ConfigBase, Env}
use libsession_util.Config.Base.Keyring.{replace_keys}
use libsession_util.Groups.Keys.{
  KeyInfo, Keys, admin, add_active, remove_expired, insert_key, group_keys,
}

-- A group: its keys, with the `Info` and the `Members` that the calls are given.
pub record Group : Type 0 where
  pub keys : Keys
  pub info : ConfigBase
  pub members : ConfigBase

-- Whether the pending key is settled by the first key of a message.
unfoldable pub settles : List KeyInfo → Keys → Bool
unfolding list_lt
settles [] g = false
settles (k ∷ ks) g =
    admin g
    && not (is_nil g.pending_key_config)
    && (ltb_ℤ g.pending_gen k.generation || same k.key g.pending_key)

unfoldable pub drop_pending : List KeyInfo → Keys → Keys
unfolding settles
drop_pending ks g =
    if settles ks g then (record g { pending_key_config = []; needs_dump = true }) else g

unfoldable pub insert_keys : Bytes → List KeyInfo → Keys → Keys
unfolding insert_key
insert_keys hash [] g = g
insert_keys hash (k ∷ ks) g = insert_keys hash ks (insert_key hash k g)

-- `members.replace_keys(list, dirty)`, then `info.replace_keys(list, dirty)`
unfoldable pub share_keys : Env → Bool → Group → Result Group
unfolding group_keys replace_keys
share_keys env dirty g = do
  members ← replace_keys env (group_keys g.keys) dirty g.members
  info ← replace_keys env (group_keys g.keys) dirty g.info
  ok (record g { members = members; info = info })

-- A message without a key for this account still keeps its generation in use.
unfoldable pub note_generation : Bytes → Option ℤ → Keys → Keys
unfolding add_active remove_expired
note_generation hash none g = g
note_generation hash (some gen) g =
    (record (remove_expired (record g { active_msgs = add_active gen hash g.active_msgs })) {
      needs_dump = true;
    })

unfoldable pub accept : Env → Bytes → List KeyInfo → Option ℤ → Group → Result (Group × Bool)
unfolding drop_pending note_generation
accept env hash [] max_gen g =
    ok (record g { keys = note_generation hash max_gen (drop_pending [] g.keys) }, false)
accept env hash (k ∷ ks) max_gen g = do
  let keys' = insert_keys hash (k ∷ ks) (drop_pending (k ∷ ks) g.keys)
  g' ← share_keys env false (record g { keys = keys' })
  ok (g', true)
