-- ===== src/User/Convos.antt =====
-- What has been read of the conversations (src/config/convo_info_volatile.cpp,
-- include/session/config/convo_info_volatile.hpp). Times are in milliseconds.
pub mod Servers
pub mod Pruning
pub mod Laws
use libsession_util.Prelude.{
  ℕ, ◌+◌, Bool, true, false, not, ◌&&◌, ◌==◌, Option, none, some, List, [], ◌∷◌, length,
  if◌then◌else◌,
}
use libsession_util.Prelude.Result.{Result, ok, ◌>>=◌, ◌>>◌}
use libsession_util.Prelude.Int.{ℤ, pos, negsuc, ltb_ℤ, ◌-ℤ◌}
use libsession_util.Keys.{Bytes, bytes, list_lt}
use libsession_util.Config.Data.{int, Value, Dict, dict, empty, entry}
use libsession_util.Config.Message.Read.{is_set}
use libsession_util.Config.Base.{ConfigBase, Env}
use libsession_util.Config.Base.Field.{
  FieldPath, subfield, as_dict, get_clean, get_integer, maybe_int, assign_scalar, erase_field,
  set_flag, is_nonzero,
}
use libsession_util.User.Types.{or_else, top, entries}
use libsession_util.User.Ids.{Oxenc, check_session_id, session_id_to_bytes, prefix_05, prefix_03}

-- `convo::base`
pub record Base : Type 0 where
  pub last_read : ℤ
  pub unread : Bool

abbrev pub unread_nothing : Base
unread_nothing = record { last_read = pos 0; unread = false }

unfoldable pub load_from : (Bytes → Option ℤ) → Base
load_from num = record {
  last_read = or_else (num (bytes "r")) (pos 0);
  unread = is_nonzero (or_else (num (bytes "u")) (pos 0));
}

unfoldable pub load : Dict → Base
unfolding load_from maybe_int
load info_dict = load_from (maybe_int info_dict)

-- `PRUNE_LOW` and `PRUNE_HIGH`: 30 and 45 days.
abbrev pub prune_low : ℤ
prune_low = pos 2592000000

abbrev pub prune_high : ℤ
prune_high = pos 3888000000

-- The classes `one_to_one`, `group` and `legacy_group` differ in the key of their dict and in the
-- prefix of their ids, as text and as a byte.
pub record Kind : Type 0 where
  pub key : Bytes
  pub prefix : Bytes
  pub first_byte : ℕ

abbrev pub one_to_one : Kind
one_to_one = record { key = bytes "1"; prefix = prefix_05; first_byte = 5 }

abbrev pub group : Kind
group = record { key = bytes "g"; prefix = prefix_03; first_byte = 3 }

abbrev pub legacy_group : Kind
legacy_group = record { key = bytes "C"; prefix = prefix_05; first_byte = 5 }

abbrev pub convo_field : Kind → Bytes → FieldPath
convo_field kind id = subfield (top kind.key) id

-- A conversation: its id in hex.
pub record Convo : Type 0 where
  pub id : Bytes
  pub base : Base

-- Where a last-read time is moved back it is stored whatever its age; else it is stored if it is
-- less than `PRUNE_LOW` before now.
abbrev pub is_older : ℤ → Option ℤ → Bool
is_older last_read none = false
is_older last_read (some val) = ltb_ℤ last_read val

unfoldable pub set_base : Env → ℤ → FieldPath → Base → ConfigBase → Result ConfigBase
unfolding get_clean assign_scalar set_flag ◌-ℤ◌
set_base env now info b c = do
  let stored = assign_scalar env (int b.last_read) (subfield info (bytes "r")) c
  c' ←
      (if is_older b.last_read (get_integer c (subfield info (bytes "r")))
        then stored
        else if ltb_ℤ (now -ℤ prune_low) b.last_read
        then stored
        else ok c)
  set_flag env (subfield info (bytes "u")) b.unread c'

-- `erase_impl`: whether the field was there.
unfoldable pub erase_impl : Env → FieldPath → ConfigBase → Result (Bool × ConfigBase)
unfolding get_clean erase_field
erase_impl env convo c = do c' ← erase_field env convo c; ok (is_set (get_clean c convo), c')

module _ (ox : Oxenc) (kind : Kind) where
  -- The explicit constructors, which check the id.
  unfoldable pub new_convo : Bytes → Result Convo
  unfolding check_session_id
  new_convo id = do
    check_session_id ox id kind.prefix
    ok (record { id = id; base = unread_nothing })

  abbrev pub load_found : Bytes → Option Dict → Result (Option Convo)
  unfolding new_convo load
  load_found id none = ok none
  load_found id (some info_dict) = do
    c ← new_convo id
    ok (some (record c { base = load info_dict }))

  -- `get_1to1`, `get_group`, `get_legacy_group`, and their `get_or_construct` forms.
  unfoldable pub get : ConfigBase → Bytes → Result (Option Convo)
  unfolding session_id_to_bytes get_clean load_found
  get c id = do
    pubkey ← session_id_to_bytes ox id kind.prefix
    load_found id (as_dict (get_clean c (convo_field kind pubkey)))

  unfoldable pub get_or_construct : ConfigBase → Bytes → Result Convo
  unfolding get new_convo
  get_or_construct c id = do maybe ← get c id; elim maybe [ some x ↦ ok x | none ↦ new_convo id ]

  -- `set` of the three classes.
  unfoldable pub set : Env → ℤ → Convo → ConfigBase → Result ConfigBase
  unfolding session_id_to_bytes set_base
  set env now x c = do
    pubkey ← session_id_to_bytes ox x.id kind.prefix
    set_base env now (convo_field kind pubkey) x.base c

  -- `erase_1to1`, `erase_group`, `erase_legacy_group`
  unfoldable pub erase : Env → Bytes → ConfigBase → Result (Bool × ConfigBase)
  unfolding new_convo session_id_to_bytes erase_impl
  erase env id c = do
    x ← new_convo id
    pubkey ← session_id_to_bytes ox x.id kind.prefix
    erase_impl env (convo_field kind pubkey) c

-- `size_1to1`, `size_groups`, `size_legacy_groups`
unfoldable pub size_of : Kind → ConfigBase → ℕ
unfolding get_clean
size_of kind c = entries (as_dict (get_clean c (top kind.key)))

-- `val_loader::load` along a dict: what the iterator passes, other keys and values skipped. The id
-- is in hex.
abbrev pub is_key_of : Kind → Bytes → Bool
is_key_of kind [] = false
is_key_of kind (b ∷ k) = (length (b ∷ k) == 33) && (b == kind.first_byte)

abbrev pub loaded : (Bytes → Bytes) → Bytes → Option Dict → List Convo → List Convo
unfolding load
loaded to_hex k none rest = rest
loaded to_hex k (some d) rest = record { id = to_hex k; base = load d } ∷ rest

unfoldable pub convos_in : (Bytes → Bytes) → Kind → Dict → List Convo
unfolding loaded
convos_in to_hex kind empty = []
convos_in to_hex kind (entry k v d) =
    let rest = convos_in to_hex kind d in
    let here = loaded to_hex k (as_dict (some v)) rest in if is_key_of kind k then here else rest

abbrev pub convos_of : (Bytes → Bytes) → Kind → Option Dict → List Convo
unfolding convos_in
convos_of to_hex kind none = []
convos_of to_hex kind (some d) = convos_in to_hex kind d

-- `begin_1to1()` and its kin, up to the end.
unfoldable pub convos : (Bytes → Bytes) → Kind → ConfigBase → List Convo
unfolding get_clean convos_of
convos to_hex kind c = convos_of to_hex kind (as_dict (get_clean c (top kind.key)))
