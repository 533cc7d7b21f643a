-- ===== src/Tests/BaseTests.antt =====
-- A config object at concrete inputs, with toy ciphers and a toy encoding.
use libsession_util.Prelude.{◌≡◌, refl, true, false, none, some, [], ◌∷◌}
use libsession_util.Prelude.Result.{Result, ok, err, bt_deserialize_invalid}
use libsession_util.Prelude.Int.{pos}
use libsession_util.Keys.{list_lt}
use libsession_util.Containers.SortedMap
use libsession_util.Containers.SortedSet
use libsession_util.Config.Data.{int, scalar, find, assign}
use libsession_util.Config.Message.{Codec, zero_hash, blank_message}
use libsession_util.Config.Message.Write.{hash}
use libsession_util.Config.Message.Mutable.{increment, increment_impl}
use libsession_util.Config.Base.{ConfigBase, clean, Env, Kind}
use libsession_util.Config.Base.State.{set_state, make_dirty}
use libsession_util.Config.Base.Field.{
  FieldPath, as_set, get_clean, set_contains, assign_scalar, set_insert, change_dirty, lookup,
  update,
}
use libsession_util.Config.Base.Field.Laws
use libsession_util.Config.Lifecycle.{IsSound}
use libsession_util.Config.Lifecycle.Steps.Reach
use libsession_util.Config.Lifecycle.Steps.Reach.{Reaches, here, step, Step, dirties, takes}
use libsession_util.Tests.EncryptTests.{toy, test_key}

abbrev pub toy_codec : Codec
toy_codec = record {
  encode = λ d. [];
  open_dict = λ bytes. ok tt;
  decode = λ bytes. none;
  signed_part = λ bytes. bytes;
  key_at_end = err bt_deserialize_invalid;
  blake2b = λ bytes. zero_hash;
}

abbrev pub toy_env : Env
toy_env = record {
  codec = toy_codec;
  sodium = toy;
  encode_list = λ l. [];
  decode_list = λ bytes. none;
  zstd_compress = λ bytes level. bytes;
  zstd_decompress = λ bytes. none;
  wrap_config = λ key bytes s. ok bytes;
  unwrap_config = λ key bytes. none;
}

abbrev pub toy_kind : Kind
toy_kind = record {
  encryption_domain = b'x' ∷ [];
  compression_level = none;
  config_lags = pos 5;
  accepts_protobuf = false;
}

abbrev pub fresh : ConfigBase
fresh = record {
  config = blank_message none none (pos 5);
  state = clean;
  keys = test_key ∷ [];
  curr_hashes = [];
  old_hashes = [];
  multiparts = [];
  needs_dump = false;
}

abbrev pub or_same : ConfigBase → Result ConfigBase → ConfigBase
or_same c (ok c') = c'
or_same c (err e) = c

abbrev pub dirtied : ConfigBase
unfolding make_dirty set_state increment increment_impl hash
dirtied = or_same fresh (make_dirty toy_env fresh)

pub dirty_fresh : make_dirty toy_env fresh ≡ ok dirtied
unfolding make_dirty set_state increment increment_impl hash
dirty_fresh = refl

Reaches-IsSound_example : IsSound dirtied
Reaches-IsSound_example =
    Reach.Reaches-IsSound toy_env toy_kind fresh dirtied refl
      (step fresh dirtied here (dirties dirtied dirty_fresh))

abbrev pub name_path : FieldPath
name_path = record { inter_keys = (b'p' ∷ []) ∷ []; last_key = b'n' ∷ [] }

abbrev named : ConfigBase
unfolding assign_scalar set_insert get_clean change_dirty lookup update find assign SortedMap.find
    SortedMap.assign SortedSet.insert list_lt make_dirty set_state increment increment_impl hash
named = or_same fresh (assign_scalar toy_env (int (pos 4)) name_path fresh)

assign_fresh : assign_scalar toy_env (int (pos 4)) name_path fresh ≡ ok named
unfolding assign_scalar set_insert get_clean change_dirty lookup update find assign SortedMap.find
    SortedMap.assign SortedSet.insert list_lt make_dirty set_state increment increment_impl hash
assign_fresh = refl

named_holds : get_clean named name_path ≡ some (scalar (int (pos 4)))
named_holds = Laws.get_clean-assign_scalar toy_env (int (pos 4)) name_path fresh named assign_fresh

abbrev tagged : ConfigBase
unfolding set_insert get_clean change_dirty lookup update find assign SortedMap.find
    SortedMap.assign SortedSet.insert list_lt make_dirty set_state increment increment_impl hash
tagged = or_same fresh (set_insert toy_env (int (pos 4)) name_path fresh)

insert_fresh : set_insert toy_env (int (pos 4)) name_path fresh ≡ ok tagged
unfolding set_insert get_clean change_dirty lookup update find assign SortedMap.find
    SortedMap.assign SortedSet.insert list_lt make_dirty set_state increment increment_impl hash
insert_fresh = refl

tagged_holds : set_contains (int (pos 4)) (as_set (get_clean tagged name_path)) ≡ true
tagged_holds = Laws.set_insert-contains toy_env (int (pos 4)) name_path fresh tagged insert_fresh
