-- ===== src/Config/Base/Push/Dump.antt =====
-- `dump`, `make_dump` and `_dump_multiparts` (src/config/base.cpp). The extra data of a config
-- class is an argument.
use libsession_util.Prelude.{ℕ, ◌/◌, false, List, [], ◌∷◌, ltb, if◌then◌else◌}
use libsession_util.Prelude.Result.{Result, ok, ◌>>=◌}
use libsession_util.Prelude.Int.{ℤ, pos}
use libsession_util.Keys.{Bytes, bytes_ord}
use libsession_util.Config.Bt.{
  BtList, BtDict, integer, text, list, subdict, nil, cons, blank, field,
}
use libsession_util.Config.Message.Write.{serialize}
use libsession_util.Config.Base.{
  ConfigBase, ConfigState, clean, dirty, waiting, Env, PartialMessage, PartialMessages, Multiparts,
  is_readonly, ticks_per_ms,
}
use libsession_util.Config.Base.Multipart.{expire_multiparts}

-- The one-character keys of a dump, and of the dicts in it.
abbrev pub state_key : Bytes
state_key = b'!' ∷ []

abbrev pub message_key : Bytes
message_key = b'$' ∷ []

abbrev pub hashes_key : Bytes
hashes_key = b'(' ∷ []

abbrev pub old_key : Bytes
old_key = b')' ∷ []

abbrev pub multiparts_key : Bytes
multiparts_key = b'*' ∷ []

abbrev pub extra_key : Bytes
extra_key = b'+' ∷ []

abbrev pub number_key : Bytes
number_key = b'#' ∷ []

abbrev pub id_key : Bytes
id_key = b'M' ∷ []

abbrev pub time_key : Bytes
time_key = b'T' ∷ []

abbrev pub chunk_key : Bytes
chunk_key = b'd' ∷ []

abbrev pub parts_key : Bytes
parts_key = b'p' ∷ []

abbrev pub part_dict : PartialMessage → BtDict
part_dict p =
    field number_key (integer (pos p.index))
      (field id_key (text p.message_id) (field chunk_key (text p.chunk) blank))

abbrev pub part_rows : List PartialMessage → BtList
part_rows [] = nil
part_rows (p ∷ ps) = cons (subdict (part_dict p)) (part_rows ps)

-- One entry of the dict of multiparts.
-- The expiry is written in whole milliseconds.
abbrev pub parts_dict : PartialMessages → BtDict
parts_dict p = field number_key (integer (pos (if p.done then 0 else p.size))) (
    field time_key (integer (pos (p.expiry / ticks_per_ms)))
      (if p.done then blank else field parts_key (list (part_rows p.parts)) blank))

-- `_dump_multiparts`
unfoldable pub dump_multiparts : ℕ → Multiparts → BtDict
dump_multiparts now [] = blank
dump_multiparts now ((h, p) ∷ m) =
    let rest = dump_multiparts now m in
    if ltb p.expiry now then rest else field h (subdict (parts_dict p)) rest

abbrev pub state_number : ConfigState → ℤ
state_number clean = pos 0
state_number dirty = pos 1
state_number waiting = pos 2

abbrev pub text_list : List Bytes → BtList
text_list [] = nil
text_list (h ∷ hs) = cons (text h) (text_list hs)

module _ (env : Env) (now : ℕ) where
  -- `make_dump`: the object with the message that serialising leaves, and the text.
  unfoldable pub make_dump : BtDict → ConfigBase → Result (ConfigBase × Bytes)
  unfolding serialize dump_multiparts
  make_dump extra c = do
    (m, out) ← serialize env.codec c.config false
    ok (
      record c { config = m },
      env.codec.encode (
          field state_key (integer (state_number c.state)) (
            field message_key (text out) (
              field hashes_key (list (text_list c.curr_hashes)) (
                field old_key (list (text_list c.old_hashes)) (
                  field multiparts_key (subdict (dump_multiparts now c.multiparts))
                    (field extra_key (subdict extra) blank)))))),
    )

  -- `dump`
  unfoldable pub dump : BtDict → ConfigBase → Result (ConfigBase × Bytes)
  unfolding make_dump expire_multiparts
  dump extra c = do
    (c', out) ← make_dump extra (record c {
      old_hashes = if is_readonly c then [] else c.old_hashes;
      multiparts = expire_multiparts now c.multiparts;
    })
    ok (record c' { needs_dump = false }, out)
