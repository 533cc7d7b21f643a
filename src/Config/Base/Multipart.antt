-- ===== src/Config/Base/Multipart.antt =====
-- Multipart messages: `_handle_multipart`, `_expire_multiparts`, `active_hashes`, and
-- `PartialMessages::finish` (src/config/base.cpp, include/session/config/base.hpp).
pub mod Invariant
use libsession_util.Prelude.{
  ℕ, ◌+◌, ◌==◌, Bool, true, false, not, ◌&&◌, Option, none, some, List, [], ◌∷◌, ◌++◌, map, length,
  drop, ltb, leb, if◌then◌else◌,
}
use libsession_util.Prelude.Result.{
  Result, ok, err, guard, runtime_error, bt_deserialize_invalid, ◌>>=◌, ◌>>◌,
}
use libsession_util.Order.{same}
use libsession_util.Keys.{Bytes, bytes_ord, list_lt}
use libsession_util.Containers.SortedMap
use libsession_util.Containers.SortedSet
use libsession_util.Config.Data.{is_nil}
use libsession_util.Config.Bt.{BtList}
use libsession_util.Config.Message.Lagged.{next, read_text}
use libsession_util.Config.Wire.{finished_list}
use libsession_util.Config.Encrypt.{strip_padding}
use libsession_util.Config.Base.{
  PartialMessage, PartialMessages, Multiparts, Env, insert_hashes, max_message_size,
  multipart_max_wait, multipart_max_remember,
}

-- What stands for a hash that is not in the map yet: `_multiparts[final_hash]` inserts it.
abbrev pub no_parts : PartialMessages
no_parts = record { done = false; size = 0; parts = []; expiry = 0 }

abbrev pub parts_or_new : Option PartialMessages → PartialMessages
parts_or_new none = no_parts
parts_or_new (some p) = p

unfoldable pub finish : ℕ → ℕ → PartialMessages → PartialMessages
finish now lifetime p = record { done = true; size = 0; parts = []; expiry = now + lifetime }

-- The fields of one part.
pub record Part : Type 0 where
  pub final_hash : Bytes
  pub part_index : ℕ
  pub num_parts : ℕ
  pub body : Bytes

-- The single byte of a text of length 1.
abbrev pub one_byte : Bytes → Result ℕ
one_byte (b ∷ []) = ok b
one_byte _ = err runtime_error

-- The consumer of a list, whose constructor throws.
abbrev pub opened : Option BtList → Result BtList
opened none = err bt_deserialize_invalid
opened (some l) = ok l

unfoldable pub parse_part : (Bytes → Option BtList) → Bytes → Result Part
parse_part decode_list message = do
  guard (leb (length message) max_message_size) runtime_error
  l ← opened (decode_list (drop 1 message))
  (v1, l1) ← next l
  h ← read_text v1
  guard (length h == 32) runtime_error
  (v2, l2) ← next l1
  index_bytes ← read_text v2
  (v3, l3) ← next l2
  size_bytes ← read_text v3
  index ← one_byte index_bytes
  num_parts ← one_byte size_bytes
  guard (ltb 1 num_parts && ltb index num_parts) runtime_error
  (v4, l4) ← next l3
  body ← read_text v4
  guard (not (is_nil body)) runtime_error
  guard (finished_list l4) runtime_error
  ok (record { final_hash = h; part_index = index; num_parts = num_parts; body = body })

-- The scan for the place of a part, and its insertion; nothing if the index is there already.
unfoldable pub insert_part : PartialMessage → List PartialMessage → Option (List PartialMessage)
insert_part p [] = some (p ∷ [])
insert_part p (q ∷ qs) =
    let later : Option (List PartialMessage) = elim (insert_part p qs) [
      | none ↦ none
      | some r ↦ some (q ∷ r)
    ] in
    if ltb q.index p.index then later else if q.index == p.index then none else some (p ∷ q ∷ qs)

abbrev pub recombine : List PartialMessage → Bytes
recombine [] = []
recombine (p ∷ ps) = p.chunk ++ recombine ps

abbrev pub message_ids : List PartialMessage → List Bytes
message_ids = map (λ p. p.message_id)

abbrev pub starts_with : ℕ → Bytes → Bool
starts_with b [] = false
starts_with b (c ∷ cs) = c == b

-- Decompression of a message that is marked by `z`, and the check for `d`.
unfoldable pub inflate : (Bytes → Option Bytes) → Bytes → Option Bytes
inflate zstd_decompress plain =
    let inflated : Option Bytes = elim (zstd_decompress (drop 1 plain)) [
      | none ↦ none
      | some d ↦ if starts_with b'd' d then some d else none
    ] in
    if starts_with b'z' plain then inflated else if starts_with b'd' plain then some plain else none

-- What `_handle_multipart` returns, and what it leaves in the object also where it throws
-- internally (`accepted` is false then).
pub record Handled : Type 0 where
  pub accepted : Bool
  pub completed : Option (List Bytes × Bytes)
  pub multiparts : Multiparts
  pub needs_dump : Bool

module _ (env : Env) (now : ℕ) where
  -- The last part of a set has come in: the check of the hash, and the body.
  -- The ids of the parts are copied, not moved out: the loop has each part as a const reference.
  unfoldable pub complete_parts : Bytes → PartialMessages → Multiparts → Handled
  unfolding finish strip_padding inflate SortedMap.assign list_lt
  complete_parts final_hash p multiparts =
      let recombined = recombine p.parts in
      let finished = SortedMap.assign final_hash (finish now multipart_max_remember p) multiparts in
      if not (same (env.codec.blake2b recombined) final_hash)
      then record {
        accepted = false;
        completed = none;
        multiparts = SortedMap.assign final_hash p multiparts;
        needs_dump = true;
      }
      else elim (inflate env.zstd_decompress (strip_padding recombined)) [
        | none ↦ record {
          accepted = false;
          completed = none;
          multiparts = finished;
          needs_dump = true;
        }
        | some out ↦ record {
          accepted = true;
          completed = some (message_ids p.parts, out);
          multiparts = finished;
          needs_dump = true;
        }
      ]

  -- A part of a set that is not done, whose numbering fits.
  unfoldable pub add_part : Bytes → Part → PartialMessages → Multiparts → Handled
  unfolding insert_part complete_parts
  add_part msg_id part p multiparts =
      let new : PartialMessage = record {
        index = part.part_index;
        message_id = msg_id;
        chunk = part.body;
      } in
      elim (insert_part new p.parts) [
        | none ↦ record {
          accepted = true;
          completed = none;
          multiparts = SortedMap.assign part.final_hash p multiparts;
          needs_dump = false;
        }
        | some parts ↦
            let p' = record p { parts = parts } in
            if length parts == p.size
            then complete_parts part.final_hash p' multiparts
            else record {
              accepted = true;
              completed = none;
              multiparts =
                  SortedMap.assign part.final_hash (record p' { expiry = now + multipart_max_wait })
                    multiparts;
              needs_dump = true;
            }
      ]

  unfoldable pub handle_part : Bytes → Part → Multiparts → Handled
  unfolding add_part SortedMap.find
  handle_part msg_id part multiparts =
      let p = parts_or_new (SortedMap.find part.final_hash multiparts) in
      if p.done
      then record { accepted = true; completed = none; multiparts = multiparts; needs_dump = false }
      else if is_nil p.parts
      then add_part msg_id part (record p { size = part.num_parts }) multiparts
      else if part.num_parts == p.size
      then add_part msg_id part p multiparts
      else record {
        accepted = false;
        completed = none;
        multiparts = multiparts;
        needs_dump = false;
      }

  -- `_handle_multipart`
  unfoldable pub handle_multipart : Bytes → Bytes → Multiparts → Handled
  unfolding parse_part handle_part
  handle_multipart msg_id message multiparts = elim (parse_part env.decode_list message) [
    | err e ↦ record {
      accepted = false;
      completed = none;
      multiparts = multiparts;
      needs_dump = false;
    }
    | ok part ↦ handle_part msg_id part multiparts
  ]

-- `_expire_multiparts`
unfoldable pub expire_multiparts : ℕ → Multiparts → Multiparts
expire_multiparts now [] = []
expire_multiparts now ((h, p) ∷ m) =
    let rest = expire_multiparts now m in if ltb p.expiry now then rest else (h, p) ∷ rest

-- `active_hashes()`
unfoldable pub active_hashes : ℕ → List Bytes → Multiparts → List Bytes
unfolding SortedSet.insert list_lt
active_hashes now hashes [] = hashes
active_hashes now hashes ((h, p) ∷ m) =
    let added = insert_hashes (message_ids p.parts) hashes in
    active_hashes now (if not p.done && ltb now p.expiry then added else hashes) m
