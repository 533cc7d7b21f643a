-- ===== src/Config/Base/Push.antt =====
-- `ConfigBase::push` and `compress_message` (src/config/base.cpp).
pub mod Chunks
pub mod Splitting
pub mod Dump
pub mod Load
pub mod Reload
pub mod Restart
use libsession_util.Prelude.{
  ℕ, zero, suc, ◌+◌, ◌-◌, ◌*◌, ◌/◌, ◌%◌, ◌==◌, Bool, true, false, not, ◌&&◌, Option, none, some,
  List, [], ◌∷◌, length, take, drop, ltb, leb, if◌then◌else◌,
}
use libsession_util.Prelude.Result.{Result, ok, err, guard, logic_error, length_error, ◌>>=◌, ◌>>◌}
use libsession_util.Prelude.Int.{ℤ}
use libsession_util.Keys.{Bytes, bytes_ord, list_lt}
use libsession_util.Containers.SortedMap
use libsession_util.Config.Data.{is_nil}
use libsession_util.Config.Bt.{BtList, text, nil, cons}
use libsession_util.Config.Message.{seqno}
use libsession_util.Config.Message.Write.{serialize}
use libsession_util.Config.Encrypt.{encrypt, pad_message, encrypt_data_overhead}
use libsession_util.Config.Base.{
  ConfigBase, waiting, Kind, Env, Multiparts, is_dirty, is_readonly, max_message_size,
  max_multipart_size, multipart_max_remember,
}
use libsession_util.Config.Base.State.{set_state}
use libsession_util.Config.Base.Multipart.{finish, parts_or_new}
use Chunks.{chunks, max_chunk_size, number_of_chunks}

-- `compress_message`; level 0 stands for no compression.
unfoldable pub compress_message : (Bytes → ℕ → Bytes) → Bytes → ℕ → Bytes
compress_message zstd_compress msg level =
    let compressed = b'z' ∷ zstd_compress msg level in
    if level == 0 then msg else if ltb (length compressed) (length msg) then compressed else msg

-- The text of one part: an `m`, then the list of hash, index, number of parts and chunk.
abbrev pub part_message : (BtList → Bytes) → Bytes → ℕ → ℕ → Bytes → Bytes
part_message encode_list final_hash index num_parts chunk =
    b'm'
    ∷ encode_list (
        cons (text final_hash)
          (cons (text (index ∷ [])) (cons (text (num_parts ∷ [])) (cons (text chunk) nil))))

-- The order in which `push` gives back what there is to send and to delete.
pub record Pushed : Type 0 where
  pub pushed_seqno : ℤ
  pub messages : List Bytes
  pub obsolete_hashes : List Bytes

module _ (env : Env) (kind : Kind) (now : ℕ) where
  -- The loop over the chunks: `index` is a `uint8_t`.
  unfoldable pub push_parts :
      Bytes → Bytes → ℕ → ℕ → List Bytes → Multiparts → Result (List Bytes × Multiparts)
  unfolding encrypt finish SortedMap.find SortedMap.assign list_lt
  push_parts key final_hash num_parts index [] multiparts = ok ([], multiparts)
  push_parts key final_hash num_parts index (chunk ∷ chunks) multiparts = do
    out ←
        encrypt env.sodium (part_message env.encode_list final_hash index num_parts chunk) key
          kind.encryption_domain
    let p = parts_or_new (SortedMap.find final_hash multiparts)
    (outs, multiparts') ←
        push_parts key final_hash num_parts ((index + 1) % 256) chunks
          (SortedMap.assign final_hash (finish now multipart_max_remember p) multiparts)
    ok (out ∷ outs, multiparts')

  -- A message that fits, with the protobuf wrapping if the result of that still fits.
  unfoldable pub push_single : Bytes → ℤ → Bytes → Result Bytes
  unfolding encrypt
  push_single key s msg = do
    out ← encrypt env.sodium msg key kind.encryption_domain
    let wrap = (do
      wrapped ← env.wrap_config key out s
      ok (if leb (length wrapped) max_message_size then wrapped else out))
    (if kind.accepts_protobuf then wrap else ok out)

  -- The messages for a text that is compressed and padded.
  unfoldable pub push_messages : Bytes → ℤ → Bytes → Multiparts → Result (List Bytes × Multiparts)
  unfolding push_parts push_single chunks number_of_chunks
  push_messages key s msg multiparts =
      let in_parts =
        push_parts key (env.codec.blake2b msg) (number_of_chunks (length msg) % 256) 0 (chunks msg)
          multiparts in
      let single = (do m ← push_single key s msg; ok (m ∷ [], multiparts)) in
      do
        guard (leb (length msg) max_multipart_size) length_error
        if ltb max_message_size (length msg + encrypt_data_overhead) then in_parts else single

  -- The text that is encrypted.
  unfoldable pub prepare : Bytes → Bytes
  unfolding compress_message pad_message
  prepare out =
      let compressed : Bytes = elim kind.compression_level [
        | none ↦ out
        | some level ↦ compress_message env.zstd_compress out level
      ] in
      pad_message compressed encrypt_data_overhead

  -- The state that a push leaves, and what it returns.
  unfoldable pub finish_push : ℤ → List Bytes → ConfigBase → Result (ConfigBase × Pushed)
  unfolding set_state
  finish_push s msgs c = do
    c' ← (if is_dirty c then set_state waiting c else ok c)
    ok (
      record c' { old_hashes = [] },
      record {
        pushed_seqno = s;
        messages = msgs;
        obsolete_hashes = if is_readonly c' then [] else c'.old_hashes;
      },
    )

  -- The key that encrypts: the front one.
  abbrev pub front_key : List Bytes → Result Bytes
  front_key [] = err logic_error
  front_key (k ∷ ks) = ok k

  -- `push`
  unfoldable pub push : ConfigBase → Result (ConfigBase × Pushed)
  unfolding serialize prepare push_messages finish_push
  push c = do
    key ← front_key c.keys
    let s = seqno c.config
    (m, out) ← serialize env.codec c.config true
    (msgs, multiparts') ← push_messages key s (prepare out) c.multiparts
    finish_push s msgs (record c { config = m; multiparts = multiparts' })
