-- ===== src/Config/Base/Push/Load.antt =====
-- `init`, `_load_multiparts` and what they read of a dump (src/config/base.cpp).
use libsession_util.Prelude.{
  ℕ, ◌*◌, ◌==◌, true, false, Option, none, some, List, [], ◌∷◌, length, ltb, if◌then◌else◌,
}
use libsession_util.Prelude.Result.{
  Result, ok, err, guard, runtime_error, bt_deserialize_invalid, ◌>>=◌, ◌>>◌,
}
use libsession_util.Prelude.Int.{ℤ, pos, negsuc}
use libsession_util.Keys.{Bytes, bytes_ord, list_lt}
use libsession_util.Containers.SortedMap
use libsession_util.Containers.SortedSet
use libsession_util.Config.Data.{is_nil}
use libsession_util.Config.Bt.{BtValue, BtList, BtDict, text, list, nil, cons, blank, field}
use libsession_util.Config.Message.{Message}
use libsession_util.Config.Message.Read.{parse_message, skip_until, at_key, next_pair}
use libsession_util.Config.Message.Lagged.{read_int, read_text, read_dict, read_list}
use libsession_util.Config.Message.Write.{new_message}
use libsession_util.Config.Message.Merge.{Handler, merge_mutable}
use libsession_util.Config.Base.{
  ConfigBase, ConfigState, clean, dirty, waiting, Env, PartialMessage, PartialMessages, Multiparts,
  ticks_per_ms,
}
use libsession_util.Config.Base.State.{is_dirty_state}
use libsession_util.Config.Signing.{Ed25519, ConfigSig, clear_sig_keys, init_sig_keys}
use libsession_util.Config.Base.Push.Dump.{
  state_key, message_key, hashes_key, old_key, multiparts_key, extra_key, number_key, time_key,
  parts_key,
}

-- A number that stands for an `int` of the object; the model has natural numbers there.
abbrev pub natural : ℤ → Result ℕ
natural (pos n) = ok n
natural (negsuc n) = err runtime_error

-- `consume_…`: the value of the next pair, whatever its key.
abbrev pub consume_next {ℓ} : {A : Type ℓ} → (BtValue → Result A) → BtDict → Result (A × BtDict)
consume_next read pairs = do (k, v, rest) ← next_pair pairs; a ← read v; ok (a, rest)

-- `require<T>(key)`: skips to the key.
abbrev pub require {ℓ} : {A : Type ℓ} → Bytes → (BtValue → Result A) → BtDict → Result (A × BtDict)
require key read pairs = do
  guard (at_key key (skip_until key pairs)) bt_deserialize_invalid
  consume_next read (skip_until key pairs)

unfoldable pub load_parts : BtList → Result (List PartialMessage)
load_parts nil = ok []
load_parts (cons v l) = do
  pd ← read_dict v
  (n, pd1) ← consume_next read_int pd
  index ← natural n
  (msgid, pd2) ← consume_next read_text pd1
  (chunk, pd3) ← consume_next read_text pd2
  rest ← load_parts l
  ok (record { index = index; message_id = msgid; chunk = chunk } ∷ rest)

-- The record of one entry, or nothing if it has expired: `done` is not restored.
unfoldable pub load_record : ℕ → BtDict → Result (Option PartialMessages)
unfolding load_parts skip_until list_lt
load_record now pdata = do
  (n, pdata1) ← require number_key read_int pdata
  size ← natural n
  (t, pdata2) ← require time_key read_int pdata1
  ms ← natural t
  let expiry = ms * ticks_per_ms
  let loaded = (do (rows, pdata3) ← require parts_key read_list pdata2; load_parts rows)
  let kept = (do
    parts ← (if ltb 0 size then loaded else ok [])
    ok (some (record { done = false; size = size; parts = parts; expiry = expiry })))
  if ltb expiry now then ok none else kept

-- `_load_multiparts`, into the map so far.
unfoldable pub load_multiparts : ℕ → BtDict → Multiparts → Result Multiparts
unfolding load_record SortedMap.assign list_lt
load_multiparts now blank m = ok m
load_multiparts now (field k v multi) m = do
  pdata ← read_dict v
  let skipped = load_multiparts now multi m
  let loaded = (do
    r ← load_record now pdata
    load_multiparts now multi (elim r [ none ↦ m | some p ↦ SortedMap.assign k p m ]))
  if length k == 32 then loaded else skipped

-- `static_cast<ConfigState>`; the model refuses the numbers that name no state.
abbrev pub state_of : ℤ → Result ConfigState
state_of (negsuc n) = err runtime_error
state_of (pos n) =
    if n == 0
    then ok clean
    else if n == 1
    then ok dirty
    else if n == 2
    then ok waiting
    else err runtime_error

-- A list of strings, as a set.
abbrev pub read_set : BtList → List Bytes → Result (List Bytes)
read_set nil s = ok s
read_set (cons v l) s = do h ← read_text v; read_set l (SortedSet.insert h s)

-- `_curr_hashes` under the key `(`: a list, or one hash in the form of older dumps.
unfoldable pub read_hashes : BtValue → Result (List Bytes)
unfolding SortedSet.insert list_lt
read_hashes (list l) = read_set l []
read_hashes (text h) = ok (if is_nil h then [] else h ∷ [])
read_hashes _ = err runtime_error

-- The error handler of `MutableConfigMessage(config, …)`.
abbrev pub rethrow_error : Handler
rethrow_error i e = err e

module _ (env : Env) (now : ℕ) where
  -- The hashes of a dump, current and old; both are missing in the dumps of older versions.
  unfoldable pub load_hashes : BtDict → Result (List Bytes × List Bytes × BtDict)
  unfolding read_hashes skip_until SortedSet.insert list_lt
  load_hashes d =
      let loaded = (do
        (curr, d1) ← consume_next read_hashes (skip_until hashes_key d)
        let d2 = skip_until old_key d1
        guard (at_key old_key d2) runtime_error
        (l, d3) ← consume_next read_list d2
        old ← read_set l []
        ok (curr, old, d3)) in
      if at_key hashes_key (skip_until hashes_key d)
      then loaded
      else ok ([], [], skip_until hashes_key d)

  -- The multiparts of a dump, if the key is there.
  unfoldable pub load_parts_of : BtDict → Result (Multiparts × BtDict)
  unfolding load_multiparts
  load_parts_of d =
      let loaded = (do
        (multi, rest) ← consume_next read_dict d
        parts ← load_multiparts now multi []
        ok (parts, rest)) in
      if at_key multiparts_key d then loaded else ok ([], d)

  -- The data of the class, if the key is there.
  unfoldable pub load_extra_of : {E : Type 0} → E → (BtDict → Result E) → BtDict → Result E
  load_extra_of extra load_extra_data d =
      let loaded = (do (v, rest) ← consume_next read_dict d; load_extra_data v) in
      if at_key extra_key d then loaded else ok extra

  -- The message of a dump: a dirty one becomes mutable again.
  unfoldable pub load_config : ℤ → ConfigState → Bytes → Result Message
  unfolding parse_message merge_mutable
  load_config lags s out =
      let mutable = merge_mutable env.codec none none lags rethrow_error (out ∷ []) in
      let plain = parse_message env.codec out none none lags true in
      if is_dirty_state s then (mutable >>= λ (m, bad). ok m) else plain

  -- The object and the data of its class that a dump holds, before the signing keys are set. The
  -- class reads its data by `load_extra_data`.
  unfoldable pub load_object :
      {E : Type 0} → E → (BtDict → Result E) → ℤ → Bytes → Result (ConfigBase × E)
  unfolding load_hashes load_config load_multiparts skip_until list_lt
  load_object extra load_extra_data lags bytes = do
    env.codec.open_dict bytes
    d ← elim (env.codec.decode bytes) [ none ↦ err bt_deserialize_invalid | some d ↦ ok d ]
    let d1 = skip_until state_key d
    guard (at_key state_key d1) runtime_error
    (n, d2) ← consume_next read_int d1
    s ← state_of n
    let d3 = skip_until message_key d2
    guard (at_key message_key d3) runtime_error
    (out, d4) ← consume_next read_text d3
    m ← load_config lags s out
    (curr, old, d5) ← load_hashes d4
    (parts, d7) ← load_parts_of (skip_until multiparts_key d5)
    loaded_extra ← load_extra_of extra load_extra_data (skip_until extra_key d7)
    ok (
      record {
        config = m;
        state = s;
        keys = [];
        curr_hashes = curr;
        old_hashes = old;
        multiparts = parts;
        needs_dump = false;
      },
      loaded_extra,
    )

  -- The object without a dump.
  unfoldable pub new_object : Result ConfigBase
  unfolding new_message
  new_object = do
    m ← new_message env.codec
    ok (record {
      config = m;
      state = clean;
      keys = [];
      curr_hashes = [];
      old_hashes = [];
      multiparts = [];
      needs_dump = false;
    })

  -- `init`, on the members as they are initialised: last of all the signing keys are set, which
  -- gives the message its verifier and its signer.
  unfoldable pub init :
      {E : Type 0}
      → Ed25519
      → E
      → (BtDict → Result E)
      → ℤ
      → Option Bytes
      → Option Bytes
      → Option Bytes
      → Result (ConfigBase × E × ConfigSig)
  unfolding load_object new_object init_sig_keys
  init e extra load_extra_data lags bytes pubkey secret = do
    (c, loaded_extra) ← elim bytes [
      | none ↦ new_object >>= λ c. ok (c, extra)
      | some b ↦ load_object extra load_extra_data lags b
    ]
    sig ← init_sig_keys e pubkey secret clear_sig_keys
    ok (
      record c { config = record c.config { verifier = sig.verifier; signer = sig.signer } },
      loaded_extra,
      sig,
    )
