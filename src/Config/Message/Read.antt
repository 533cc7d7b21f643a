-- ===== src/Config/Message/Read.antt =====
-- The parsing constructor of `ConfigMessage`, with `load_unknowns` (src/config/internal.cpp) and
-- `verify_config_sig`.
use libsession_util.Prelude.{
  Bool, true, false, Option, none, some, [], ◌∷◌, ◌==◌, ◌&&◌, ◌||◌, length, if◌then◌else◌,
}
use libsession_util.Prelude.Result.{
  Result, ok, err, guard, config_parse_error, signature_error, missing_signature,
  bt_deserialize_invalid, ◌>>=◌, ◌>>◌,
}
use libsession_util.Prelude.Int.{ℤ}
use libsession_util.Order.{less, same}
use libsession_util.Keys.{Bytes, bytes_ord, list_lt}
use libsession_util.Config.Data.{Dict}
use libsession_util.Config.Bt.{BtValue, BtDict, blank, field}
use libsession_util.Config.Wire.{after, parse_data, load_diff, finished}
use libsession_util.Config.Message.{Codec, Message, LaggedDiffs, Verifier, Signer, blank_message}
use libsession_util.Config.Message.Lagged.{
  parse_lagged_diffs, read_list, read_int, read_text, read_dict,
}

-- The one-character keys of the top level.
abbrev pub seqno_key : Bytes
seqno_key = b'#' ∷ []

abbrev pub data_key : Bytes
data_key = b'&' ∷ []

abbrev pub lags_key : Bytes
lags_key = b'<' ∷ []

abbrev pub diff_key : Bytes
diff_key = b'=' ∷ []

abbrev pub sig_key : Bytes
sig_key = b'~' ∷ []

-- `emplace_hint(end(), …)` of a key that was found to come last.
abbrev pub snoc : BtDict → Bytes → BtValue → BtDict
snoc blank k v = field k v blank
snoc (field j w d) k v = field j w (snoc d k v)

-- `rbegin()->first`
abbrev pub last_key : BtDict → Option Bytes
last_key blank = none
last_key (field k v blank) = some k
last_key (field k v (field j w d)) = last_key (field j w d)

-- `load_unknowns`: the unknown keys, and the pairs that are left.
unfoldable pub load_unknowns : BtDict → BtDict → Bytes → Bytes → Result (BtDict × BtDict)
load_unknowns unknown blank previous until = ok (unknown, blank)
load_unknowns unknown (field k v rest) previous until =
    let taken = (do
      guard (less previous k && after (last_key unknown) k) bt_deserialize_invalid
      load_unknowns (snoc unknown k v) rest previous until) in
    if less k until then taken else ok (unknown, field k v rest)

-- `next_integer` and `next_dict_consumer`: the next pair, if its value is of the type.
abbrev pub next_pair : BtDict → Result (Bytes × BtValue × BtDict)
next_pair blank = err bt_deserialize_invalid
next_pair (field k v rest) = ok (k, v, rest)

-- `catch (const oxenc::bt_deserialize_invalid&)`
abbrev pub rethrow {ℓ} : {A : Type ℓ} → Result A → Result A
rethrow (err bt_deserialize_invalid) = err config_parse_error
rethrow r = r

-- The check that a verifier makes; the null verifier makes none.
abbrev pub verifies : Verifier → Bytes → Bytes → Bool
verifies none signed sig = true
verifies (some f) signed sig = f signed sig

abbrev pub is_set {ℓ} : {A : Type ℓ} → Option A → Bool
is_set none = false
is_set (some a) = true

-- The signature under the key `~`, which `consume_signature` reads.
unfoldable pub check_signature : Bytes → BtValue → Verifier → Bool → Result (Option Bytes)
check_signature signed v verifier trust_signature = do
  sig ← read_text v
  guard (length sig == 64) signature_error
  guard (verifies verifier signed sig) signature_error
  ok (if is_set verifier || trust_signature then some sig else none)

-- `skip_until("~")`
unfoldable pub skip_until : Bytes → BtDict → BtDict
skip_until key blank = blank
skip_until key (field k v rest) =
    let skipped = skip_until key rest in if less k key then skipped else field k v rest

abbrev pub at_key : Bytes → BtDict → Bool
at_key key blank = false
at_key key (field k v rest) = same k key

unfoldable pub verify_config_sig : Bytes → BtDict → Verifier → Bool → Result (Option Bytes)
unfolding check_signature skip_until list_lt
verify_config_sig signed pairs verifier trust_signature = do
  let rest = skip_until sig_key pairs
  (sig, rest1) ←
      (if at_key sig_key rest
        then (do
          (k, v, rest1) ← next_pair rest
          sig ← check_signature signed v verifier trust_signature
          ok (sig, rest1))
        else if is_set verifier
        then err missing_signature
        else ok (none, rest))
  guard (finished rest1) config_parse_error
  ok sig

-- What the constructor reads, before it becomes the members.
pub record Contents : Type 0 where
  pub number : ℤ
  pub contents : Dict
  pub diff : BtDict
  pub lagged : LaggedDiffs
  pub unknown : BtDict
  pub signature : Option Bytes

module _ (x : Codec) where
  -- `dict.key()`
  abbrev pub current_key : BtDict → Result Bytes
  current_key blank = x.key_at_end
  current_key (field k v rest) = ok k

  -- The value at an optional key of the top level, or a default where another key stands.
  unfoldable pub optional_pair :
      {A : Type 0} → Bytes → (BtValue → Result A) → A → BtDict → Result (A × BtDict)
  optional_pair key read default pairs = do
    k ← current_key pairs
    let found = (do (j, v, rest) ← next_pair pairs; a ← read v; ok (a, rest))
    if same k key then found else ok (default, pairs)

  -- The sequence number and the data, with the unknown keys around them and the pairs behind them.
  unfoldable pub read_head : Bytes → Result (ℤ × Dict × BtDict × BtDict)
  unfolding load_unknowns parse_data
  read_head serialized = do
    pairs ← elim (x.decode serialized) [ none ↦ err bt_deserialize_invalid | some d ↦ ok d ]
    (k, v, pairs1) ← next_pair pairs
    s ← read_int v
    guard (same k seqno_key) config_parse_error
    (unknown1, pairs2) ← load_unknowns blank pairs1 seqno_key data_key
    (k2, v2, pairs3) ← next_pair pairs2
    d ← read_dict v2
    guard (same k2 data_key) config_parse_error
    contents ← parse_data d
    (unknown2, pairs4) ← load_unknowns unknown1 pairs3 data_key lags_key
    ok (s, contents, unknown2, pairs4)

  -- The lagged diffs, if they are there.
  unfoldable pub read_lagged : ℤ → ℤ → BtDict → Result (LaggedDiffs × BtDict)
  unfolding optional_pair parse_lagged_diffs
  read_lagged s lag pairs =
      optional_pair lags_key (λ w. read_list w >>= λ rows. parse_lagged_diffs rows s lag) [] pairs

  -- The diff and the signature, with the unknown keys before them.
  unfoldable pub read_tail :
      Bytes → Verifier → Bool → BtDict → BtDict → Result (BtDict × BtDict × Option Bytes)
  unfolding load_unknowns optional_pair load_diff verify_config_sig
  read_tail serialized verifier trust_signature unknown2 pairs5 = do
    (unknown3, pairs6) ← load_unknowns unknown2 pairs5 lags_key diff_key
    (diff, pairs7) ← optional_pair diff_key (λ w. read_dict w >>= λ e. load_diff e) blank pairs6
    (unknown4, pairs8) ← load_unknowns unknown3 pairs7 diff_key sig_key
    sig ← verify_config_sig (x.signed_part serialized) pairs8 verifier trust_signature
    ok (diff, unknown4, sig)

  -- The body of the `try` block.
  unfoldable pub read_contents : Bytes → Verifier → ℤ → Bool → Result Contents
  unfolding read_head read_lagged read_tail
  read_contents serialized verifier lag trust_signature = do
    (s, contents, unknown2, pairs4) ← read_head serialized
    (lagged, pairs5) ← read_lagged s lag pairs4
    (diff, unknown4, sig) ← read_tail serialized verifier trust_signature unknown2 pairs5
    ok (record {
      number = s;
      contents = contents;
      diff = diff;
      lagged = lagged;
      unknown = unknown4;
      signature = sig;
    })

  -- The message that the contents make.
  unfoldable pub read_message : Bytes → Verifier → Signer → ℤ → Bool → Result Message
  unfolding read_contents
  read_message serialized verifier signer lag trust_signature = do
    c ← read_contents serialized verifier lag trust_signature
    let m = blank_message verifier signer lag
    ok (record m {
      data_ = c.contents;
      diff_ = c.diff;
      lagged_diffs_ = c.lagged;
      unknown_ = c.unknown;
      seqno_hash_ = (c.number, x.blake2b serialized);
      verified_signature_ = c.signature;
    })

  -- `ConfigMessage(serialized, verifier, signer, lag, trust_signature)`
  unfoldable pub parse_message : Bytes → Verifier → Signer → ℤ → Bool → Result Message
  unfolding read_message
  parse_message serialized verifier signer lag trust_signature =
      x.open_dict serialized
      >> rethrow (read_message serialized verifier signer lag trust_signature)
