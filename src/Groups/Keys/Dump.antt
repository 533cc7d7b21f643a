-- ===== src/Groups/Keys/Dump.antt =====
-- The dump of the keys of a group and its loading: `make_dump`, `dump` and `load_dump`
-- (src/config/groups/keys.cpp), at the level of the dict whose encoding is oxenc's. The error
-- `config_value_error` is its base class `config_parse_error`. As in the constructor, which is its
-- only caller, `load_dump` starts from an object without keys and messages.
pub mod Restores
use libsession_util.Prelude.{
  ℕ, ◌==◌, Bool, true, false, not, Option, none, some, List, [], ◌∷◌, length, if◌then◌else◌,
}
use libsession_util.Prelude.Int.{ℤ}
use libsession_util.Prelude.Result.{Result, ok, err, guard, config_parse_error, ◌>>=◌, ◌>>◌}
use libsession_util.Keys.{Bytes, bytes, int_ord, bytes_ord, list_lt}
use libsession_util.Containers.SortedMap
use libsession_util.Containers.SortedSet
use libsession_util.Config.Data.{is_nil}
use libsession_util.Config.Bt.{
  BtValue, BtList, BtDict, integer, text, list, subdict, nil, cons, blank, field,
}
use libsession_util.Config.Message.Read.{skip_until, at_key, next_pair}
use libsession_util.Config.Message.Lagged.{read_int, read_text, read_dict, read_list, next}
use libsession_util.Config.Base.Push.Load.{consume_next}
use libsession_util.Groups.Keys.{KeyInfo, key_lt, Keys, insert_all}

abbrev pub hash_texts : List Bytes → BtList
hash_texts [] = nil
hash_texts (h ∷ hs) = cons (text h) (hash_texts hs)

abbrev pub active_rows : List (ℤ × List Bytes) → BtList
active_rows [] = nil
active_rows ((gen, hashes) ∷ m) =
    cons (list (cons (integer gen) (hash_texts hashes))) (active_rows m)

abbrev pub key_dict : KeyInfo → BtDict
key_dict k =
    field (bytes "g") (integer k.generation)
      (field (bytes "k") (text k.key) (field (bytes "t") (integer k.timestamp) blank))

abbrev pub key_rows : List KeyInfo → BtList
key_rows [] = nil
key_rows (k ∷ ks) = cons (subdict (key_dict k)) (key_rows ks)

abbrev pub pending_dict : Keys → BtDict
pending_dict g =
    field (bytes "c") (text g.pending_key_config)
      (field (bytes "g") (integer g.pending_gen) (field (bytes "k") (text g.pending_key) blank))

unfoldable pub make_keys_dump : Keys → BtDict
make_keys_dump g = field (bytes "A") (list (active_rows g.active_msgs)) (
    field (bytes "L") (list (key_rows g.keys)) (
      if is_nil g.pending_key_config
      then blank
      else field (bytes "P") (subdict (pending_dict g)) blank))

abbrev pub dump_keys : Keys → Keys × BtDict
dump_keys g = (record g { needs_dump = false }, make_keys_dump g)

-- `skip_until(key)`, which throws where the key is not there, and the value.
abbrev pub value_at {ℓ} : {A : Type ℓ} → Bytes → (BtValue → Result A) → BtDict → Result (A × BtDict)
value_at key read pairs = do
  let rest = skip_until key pairs
  guard (at_key key rest) config_parse_error
  consume_next read rest

unfoldable pub read_hash_texts : BtList → Result (List Bytes)
read_hash_texts nil = ok []
read_hash_texts (cons v l) = do h ← read_text v; hs ← read_hash_texts l; ok (h ∷ hs)

-- `active_msgs_[gen]` with the hashes of a row.
unfoldable pub add_row : ℤ → List Bytes → List (ℤ × List Bytes) → List (ℤ × List Bytes)
unfolding SortedMap.find SortedMap.assign insert_all
add_row gen hashes m =
    let there : List Bytes = elim (SortedMap.find gen m) [ none ↦ [] | some s ↦ s ] in
    SortedMap.assign gen (insert_all hashes there) m

unfoldable pub load_active : List (ℤ × List Bytes) → BtList → Result (List (ℤ × List Bytes))
unfolding read_hash_texts add_row
load_active m nil = ok m
load_active m (cons v l) = do
  row ← read_list v
  (n, row1) ← next row
  gen ← read_int n
  hashes ← read_hash_texts row1
  load_active (add_row gen hashes m) l

unfoldable pub load_key_info : BtDict → Result KeyInfo
unfolding skip_until list_lt
load_key_info kd = do
  (gen, kd1) ← value_at (bytes "g") read_int kd
  (key, kd2) ← value_at (bytes "k") read_text kd1
  guard (length key == 32) config_parse_error
  (time, kd3) ← value_at (bytes "t") read_int kd2
  ok (record { generation = gen; timestamp = time; key = key })

-- `!(prev >= key)`
abbrev pub is_next : Option KeyInfo → KeyInfo → Bool
is_next none k = true
is_next (some prev) k = key_lt prev k

unfoldable pub load_keys : Option KeyInfo → BtList → Result (List KeyInfo)
unfolding load_key_info key_lt
load_keys prev nil = ok []
load_keys prev (cons v l) = do
  kd ← read_dict v
  k ← load_key_info kd
  guard (is_next prev k) config_parse_error
  ks ← load_keys (some k) l
  ok (k ∷ ks)

-- The pending key, if it is there.
unfoldable pub load_pending : BtDict → Keys → Result Keys
unfolding skip_until list_lt
load_pending d g =
    let pending = (do
      (pd, d1) ← consume_next read_dict (skip_until (bytes "P") d)
      (config, pd1) ← value_at (bytes "c") read_text pd
      (gen, pd2) ← value_at (bytes "g") read_int pd1
      (key, pd3) ← value_at (bytes "k") read_text pd2
      guard (length key == 32) config_parse_error
      ok (record g { pending_key_config = config; pending_gen = gen; pending_key = key })) in
    if at_key (bytes "P") (skip_until (bytes "P") d) then pending else ok g

unfoldable pub load_dump : BtDict → Keys → Result Keys
unfolding load_active load_keys load_pending skip_until list_lt
load_dump d g = do
  (rows, d1) ← value_at (bytes "A") read_list d
  active ← load_active g.active_msgs rows
  (key_list, d2) ← value_at (bytes "L") read_list d1
  keys ← load_keys none key_list
  load_pending d2 (record g { active_msgs = active; keys = keys })
