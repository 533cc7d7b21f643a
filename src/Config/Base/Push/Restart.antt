-- ===== src/Config/Base/Push/Restart.antt =====
-- A config object that was dumped is the same after a restart (`dump` and `init` of
-- src/config/base.cpp).
use libsession_util.Prelude.{
  ℕ, ltb, ◌≡◌, refl, subst, Bool, true, false, Option, none, some, List, [], ◌∷◌, All,
  if◌then◌else◌, Bool-cases, inl, inr,
}
use libsession_util.Prelude.Result.{Result, ok}
use libsession_util.Prelude.Int.{ℤ}
use libsession_util.Keys.{Bytes, bytes_ord, list_lt}
use libsession_util.Containers.SortedMap
use libsession_util.Containers.SortedSet
use libsession_util.Config.Data.{Dict}
use libsession_util.Config.Bt.{BtDict, integer, text, list, subdict, blank, field}
use libsession_util.Config.Message.{Codec, Message, Signer}
use libsession_util.Config.Message.Read.{parse_message, skip_until}
use libsession_util.Config.Message.Write.{message_pairs, serialize, serialize_impl, diff}
use libsession_util.Config.Message.RoundTrip.Signed.{with_sig, Has64Bytes, Accepts}
use libsession_util.Config.Message.RoundTrip.Whole.{IsRead, reread, read_back}
use libsession_util.Config.Message.RoundTrip.Writable.{IsWritable}
use libsession_util.Config.Signing.{Ed25519, ConfigSig, clear_sig_keys, init_sig_keys}
use libsession_util.Config.Base.{
  ConfigBase, ConfigState, clean, dirty, waiting, Env, Multiparts, is_readonly,
}
use libsession_util.Config.Base.State.{is_dirty_state, set_verifier, set_signer}
use libsession_util.Config.Base.Multipart.{expire_multiparts}
use libsession_util.Config.Base.Push.Dump.{
  state_key, message_key, hashes_key, old_key, multiparts_key, extra_key, state_number, text_list,
  dump_multiparts, make_dump, dump,
}
use libsession_util.Config.Base.Push.Load.{
  state_of, load_hashes, load_config, load_parts_of, load_extra_of, load_object, init,
}
use libsession_util.Config.Base.Push.Reload.{
  read_set-text_list_lem, HasHashKey, reloaded_all, load_multiparts-dump_multiparts,
}

-- An object that is not dirty, whose message `diff()` leaves one that can be written - a message that
-- is not mutable it leaves as it is -, with sorted sets of hashes and multiparts under hashes of 32
-- bytes.
pub record IsSettled (x : Codec) (c : ConfigBase) : Type 0 where
  pub unchanged : is_dirty_state c.state ≡ false
  pub writable : IsWritable (diff x c.config)
  pub signed : Has64Bytes (diff x c.config).verified_signature_
  pub curr_sorted : SortedSet.IsSorted c.curr_hashes
  pub old_sorted : SortedSet.IsSorted c.old_hashes
  pub parts_sorted : SortedMap.IsSorted c.multiparts
  pub parts_hashes : All HasHashKey c.multiparts

-- The object with the message that `diff()` leaves.
abbrev pub differed : Codec → ConfigBase → ConfigBase
differed x c = record c { config = diff x c.config }

-- The pairs of the message in a dump, and of the dump.
abbrev pub stored_pairs : Message → BtDict
stored_pairs m = with_sig m.verified_signature_ (message_pairs m m.diff_)

abbrev pub dump_pairs : Codec → ℕ → BtDict → ConfigBase → BtDict
dump_pairs x now extra c = field state_key (integer (state_number c.state)) (
    field message_key (text (x.encode (stored_pairs c.config))) (
      field hashes_key (list (text_list c.curr_hashes)) (
        field old_key (list (text_list c.old_hashes)) (
          field multiparts_key (subdict (dump_multiparts now c.multiparts))
            (field extra_key (subdict extra) blank)))))

own_signature_is_kept :
    (x : Codec) (pairs : BtDict) (verified : Option Bytes) (signer : Signer)
    → (elim verified as (λ v. Option Bytes) [
      | some sig ↦ some sig
      | none ↦ elim signer as (λ s. Option Bytes) [
        | none ↦ none
        | some f ↦ if false then some (f (x.signed_part (x.encode pairs))) else none
      ]
    ])
      ≡ verified
own_signature_is_kept x pairs (some sig) signer = refl
own_signature_is_kept x pairs none none = refl
own_signature_is_kept x pairs none (some f) = refl

Accepts-none : (signed : Bytes) (s : Option Bytes) → Has64Bytes s → Accepts none signed s
Accepts-none signed none h = refl
Accepts-none signed (some sig) h = (h, refl)

diff-lag_of :
    (x : Codec) (m : Message) (o : Option Dict) → m.orig_data_ ≡ o → (diff x m).lag ≡ m.lag
unfolding diff
diff-lag_of x m none e = rw (e, diff) refl
diff-lag_of x m (some d) e = rw (e, diff) refl

diff-lag : (x : Codec) (m : Message) → (diff x m).lag ≡ m.lag
diff-lag x m = diff-lag_of x m m.orig_data_ refl

state_of-state_number : (s : ConfigState) → state_of (state_number s) ≡ ok s
state_of-state_number clean = refl
state_of-state_number dirty = refl
state_of-state_number waiting = refl

module _ (x : Codec) (m : Message) (w : IsWritable m) (h : Has64Bytes m.verified_signature_)
    (r : IsRead x (stored_pairs m)) where
  stored :
      (serialize_impl x m m.diff_ false ≡ ok (x.encode (stored_pairs m)))
      × (parse_message x (x.encode (stored_pairs m)) none none m.lag true
          ≡ ok (reread x m (x.encode (stored_pairs m)) none none true m.verified_signature_))
  stored =
      read_back x m m.verified_signature_ false true none none w
        (own_signature_is_kept x (message_pairs m m.diff_) m.verified_signature_ m.signer) r
        (Accepts-none (x.signed_part (x.encode (stored_pairs m))) m.verified_signature_ h)

serialize-diff :
    (x : Codec) (m : Message)
    → IsWritable (diff x m)
    → Has64Bytes (diff x m).verified_signature_
    → IsRead x (stored_pairs (diff x m))
    → serialize x m false ≡ ok (diff x m, x.encode (stored_pairs (diff x m)))
unfolding serialize
serialize-diff x m w h r = rw ((stored x (diff x m) w h r).0) refl

module _ (env : Env) (later : ℕ) where
  load_hashes-lists :
      (curr old : List Bytes) (rest : BtDict)
      → SortedSet.IsSorted curr
      → SortedSet.IsSorted old
      → load_hashes env later
          (field hashes_key (list (text_list curr)) (field old_key (list (text_list old)) rest))
        ≡ ok (curr, old, rest)
  unfolding load_hashes
  load_hashes-lists curr old rest hc ho =
      rw (read_set-text_list_lem curr hc) (rw (read_set-text_list_lem old ho) refl)

  load_parts_of-dict :
      (now : ℕ) (m : Multiparts) (rest : BtDict)
      → All HasHashKey m
      → SortedMap.IsSorted m
      → load_parts_of env later (field multiparts_key (subdict (dump_multiparts now m)) rest)
        ≡ ok (reloaded_all now later m, rest)
  unfolding load_parts_of
  load_parts_of-dict now m rest k s = rw (load_multiparts-dump_multiparts now later m k s) refl

  load_config-settled :
      (lags : ℤ) (s : ConfigState) (out : Bytes) (m : Message)
      → is_dirty_state s ≡ false
      → parse_message env.codec out none none lags true ≡ ok m
      → load_config env later lags s out ≡ ok m
  unfolding load_config
  load_config-settled lags s out m h p = rw h p

  -- The object that is loaded, before it has keys.
  abbrev pub loaded : ℕ → ConfigBase → ConfigBase
  loaded now c = record {
    config =
        reread env.codec c.config (env.codec.encode (stored_pairs c.config)) none none true
          c.config.verified_signature_;
    state = c.state;
    keys = [];
    curr_hashes = c.curr_hashes;
    old_hashes = c.old_hashes;
    multiparts = reloaded_all now later c.multiparts;
    needs_dump = false;
  }

  module _ (now : ℕ) (extra : BtDict) (c : ConfigBase) (h : IsSettled env.codec c)
      (r : IsRead env.codec (stored_pairs (diff env.codec c.config)))
      (r' : IsRead env.codec (dump_pairs env.codec now extra (differed env.codec c))) where
    make_dump-settled :
        make_dump env now extra c
        ≡ ok (
          differed env.codec c,
          env.codec.encode (dump_pairs env.codec now extra (differed env.codec c)),
        )
    unfolding make_dump
    make_dump-settled = rw (serialize-diff env.codec c.config h.writable h.signed r) refl

    load_object-dump :
        {E : Type 0} (none_yet e : E) (load_extra_data : BtDict → Result E)
        → load_extra_data extra ≡ ok e
        → load_object env later none_yet load_extra_data c.config.lag
            (env.codec.encode (dump_pairs env.codec now extra (differed env.codec c)))
          ≡ ok (loaded now (differed env.codec c), e)
    unfolding load_object load_extra_of skip_until list_lt
    load_object-dump none_yet e load_extra_data he =
        let m' : Message = diff env.codec c.config in
        let out : Bytes = env.codec.encode (stored_pairs m') in
        let back : Message = reread env.codec m' out none none true m'.verified_signature_ in
        let parsed : parse_message env.codec out none none c.config.lag true ≡ ok back =
          subst (λ l. parse_message env.codec out none none l true ≡ ok back)
            (diff-lag env.codec c.config) (stored env.codec m' h.writable h.signed r).1 in
        let message = load_config-settled c.config.lag c.state out back h.unchanged parsed in
        let rest1 : BtDict = field extra_key (subdict extra) blank in
        let rest2 : BtDict =
          field multiparts_key (subdict (dump_multiparts now c.multiparts)) rest1 in
        let hashes =
          load_hashes-lists c.curr_hashes c.old_hashes rest2 h.curr_sorted h.old_sorted in
        let parts = load_parts_of-dict now c.multiparts rest1 h.parts_hashes h.parts_sorted in
        rw (r'.opens, r'.decodes)
          (rw (state_of-state_number c.state) (rw message (rw hashes (rw parts (rw he refl)))))

expire_multiparts-Above :
    (now : ℕ) (k : Bytes) (m : Multiparts)
    → SortedMap.Above k m
    → SortedMap.Above k (expire_multiparts now m)
unfolding expire_multiparts
expire_multiparts-Above now k [] h = tt
expire_multiparts-Above now k ((j, p) ∷ m) h = elim (Bool-cases (ltb p.expiry now)) [
  | inl e ↦ rw e (expire_multiparts-Above now k m h.1)
  | inr e ↦ rw e (h.0, expire_multiparts-Above now k m h.1)
]

expire_multiparts-IsSorted :
    (now : ℕ) (m : Multiparts) → SortedMap.IsSorted m → SortedMap.IsSorted (expire_multiparts now m)
unfolding expire_multiparts
expire_multiparts-IsSorted now [] h = tt
expire_multiparts-IsSorted now ((j, p) ∷ m) h = elim (Bool-cases (ltb p.expiry now)) [
  | inl e ↦ rw e (expire_multiparts-IsSorted now m h.1)
  | inr e ↦ rw e (expire_multiparts-Above now j m h.0, expire_multiparts-IsSorted now m h.1)
]

expire_multiparts-HasHashKey :
    (now : ℕ) (m : Multiparts) → All HasHashKey m → All HasHashKey (expire_multiparts now m)
unfolding expire_multiparts
expire_multiparts-HasHashKey now [] h = tt
expire_multiparts-HasHashKey now ((j, p) ∷ m) h = elim (Bool-cases (ltb p.expiry now)) [
  | inl e ↦ rw e (expire_multiparts-HasHashKey now m h.1)
  | inr e ↦ rw e (h.0, expire_multiparts-HasHashKey now m h.1)
]

-- The object that is dumped.
abbrev pub swept : ℕ → ConfigBase → ConfigBase
swept now c = record c {
  old_hashes = if is_readonly c then [] else c.old_hashes;
  multiparts = expire_multiparts now c.multiparts;
}

none_or_all-IsSorted :
    (b : Bool) (s : List Bytes) → SortedSet.IsSorted s → SortedSet.IsSorted (if b then [] else s)
none_or_all-IsSorted true s h = tt
none_or_all-IsSorted false s h = h

IsSettled-swept : (x : Codec) (now : ℕ) (c : ConfigBase) → IsSettled x c → IsSettled x (swept now c)
IsSettled-swept x now c h = record {
  unchanged = h.unchanged;
  writable = h.writable;
  signed = h.signed;
  curr_sorted = h.curr_sorted;
  old_sorted = none_or_all-IsSorted (is_readonly c) c.old_hashes h.old_sorted;
  parts_sorted = expire_multiparts-IsSorted now c.multiparts h.parts_sorted;
  parts_hashes = expire_multiparts-HasHashKey now c.multiparts h.parts_hashes;
}

-- A message with the functions that `set_verifier` and `set_signer` are given.
abbrev pub with_sig_functions : ConfigSig → ConfigBase → ConfigBase
with_sig_functions sig c = set_signer sig.signer (set_verifier sig.verifier c)

-- An object that is not dirty is dumped, which recomputes the diff of a mutable message, drops the
-- old hashes of a read-only object and the multiparts that have expired, and marks that no dump is
-- needed. The message that the diff leaves can be written. If oxenc reads back the text of the
-- message and that of the dump, and the class its own data, then `init` with the same lag and signing
-- keys that it accepts gives from the dump an object with the same state and hashes, with the message
-- that was dumped and its signature, if it kept one, the verifier and the signer of the keys, no
-- encryption keys, and the multiparts that have not expired when it is loaded; their expiry has lost
-- its part of a millisecond, and those that were done are empty sets that are not done.
pub init-dump :
    {E : Type 0} (env : Env) (ed25519 : Ed25519) (now later : ℕ) (extra : BtDict) (c : ConfigBase)
    (none_yet e : E) (load_extra_data : BtDict → Result E) (pubkey secret : Option Bytes)
    (sig : ConfigSig)
    → IsSettled env.codec c
    → IsRead env.codec (stored_pairs (diff env.codec c.config))
    → IsRead env.codec (dump_pairs env.codec now extra (differed env.codec (swept now c)))
    → load_extra_data extra ≡ ok e
    → init_sig_keys ed25519 pubkey secret clear_sig_keys ≡ ok sig
    → (dump env now extra c
        ≡ ok (
          record (differed env.codec (swept now c)) { needs_dump = false },
          env.codec.encode (dump_pairs env.codec now extra (differed env.codec (swept now c))),
        ))
      × (init env later ed25519 none_yet load_extra_data c.config.lag
            (some (
              env.codec.encode (dump_pairs env.codec now extra (differed env.codec (swept now c)))))
            pubkey
            secret
          ≡ ok (
            with_sig_functions sig (loaded env later now (differed env.codec (swept now c))),
            e,
            sig,
          ))
unfolding dump init
init-dump env ed25519 now later extra c none_yet e load_extra_data pubkey secret sig h r r' he hs =
    let s = IsSettled-swept env.codec now c h in
    (
      rw (make_dump-settled env later now extra (swept now c) s r r') refl,
      rw (load_object-dump env later now extra (swept now c) s r r' none_yet e load_extra_data he)
          (rw hs refl),
    )
