-- ===== src/Config/Message/RoundTrip/Signed.antt =====
-- The pairs of a message with its signature, in the order in which they are read (`serialize_impl`
-- of src/config.cpp).
use libsession_util.Prelude.{
  ◌≡◌, refl, ap, Bool, true, false, ◌==◌, ◌||◌, Option, none, some, length, if◌then◌else◌,
  Bool-cases, inl, inr, arith,
}
use libsession_util.Prelude.Result.{Result, ok}
use libsession_util.Order.{less}
use libsession_util.Keys.{Bytes, bytes_ord, list_lt}
use libsession_util.Config.Bt.{BtValue, BtDict, integer, text, list, subdict, blank, field}
use libsession_util.Config.Wire.{serialize_data}
use libsession_util.Config.Message.{Codec, Message, Signer, Verifier, seqno}
use libsession_util.Config.Message.Read.{
  seqno_key, data_key, lags_key, diff_key, sig_key, snoc, is_set, verifies, verify_config_sig,
}
use libsession_util.Config.Message.Write.{
  append_unknown, lag_rows, message_pairs, sign, signed_pairs,
}

-- The signature that is written, if any.
abbrev pub signature_of : Codec → Message → BtDict → Bool → Option Bytes
signature_of x m pairs enable_signing = elim m.verified_signature_ [
  | some sig ↦ some sig
  | none ↦ elim m.signer [
    | none ↦ none
    | some f ↦ if enable_signing then some (f (x.signed_part (x.encode pairs))) else none
  ]
]

abbrev pub with_sig : Option Bytes → BtDict → BtDict
with_sig none d = d
with_sig (some sig) d = snoc d sig_key (text sig)

abbrev pub ending : Option Bytes → BtDict
ending none = blank
ending (some sig) = field sig_key (text sig) blank

-- The pairs from the diff on, from the lagged diffs on, and all of them.
abbrev pub diff_part : BtDict → BtDict → BtDict → BtDict
diff_part diff end unknown3 =
    field diff_key (subdict diff) (append_unknown unknown3 sig_key (λ unknown4. end))

abbrev pub lags_part : Message → BtDict → BtDict → BtDict → BtDict
lags_part m diff end unknown2 =
    field lags_key (list (lag_rows (seqno m) m.lag m.lagged_diffs_))
      (append_unknown unknown2 diff_key (diff_part diff end))

abbrev pub data_part : Message → BtDict → BtDict → BtDict → BtDict
data_part m diff end unknown1 =
    field data_key (subdict (serialize_data m.data_))
      (append_unknown unknown1 lags_key (lags_part m diff end))

abbrev pub all_parts : Message → BtDict → BtDict → BtDict
all_parts m diff end =
    field seqno_key (integer (seqno m)) (append_unknown m.unknown_ data_key (data_part m diff end))

snoc-append_unknown :
    (u : BtDict) (until : Bytes) (rest rest' : BtDict → BtDict) (k : Bytes) (v : BtValue)
    → ((w : BtDict) → snoc (rest w) k v ≡ rest' w)
    → snoc (append_unknown u until rest) k v ≡ append_unknown u until rest'
unfolding append_unknown
snoc-append_unknown blank until rest rest' k v h = h blank
snoc-append_unknown (field j w u) until rest rest' k v h = elim (Bool-cases (less j until)) [
  | inl e ↦ rw (e, append_unknown) (ap (field j w) (snoc-append_unknown u until rest rest' k v h))
  | inr e ↦ rw (e, append_unknown) (h (field j w u))
]

pub with_sig-message_pairs :
    (s : Option Bytes) (m : Message) (diff : BtDict)
    → with_sig s (message_pairs m diff) ≡ all_parts m diff (ending s)
unfolding message_pairs
with_sig-message_pairs none m diff = refl
with_sig-message_pairs (some sig) m diff = ap (field seqno_key (integer (seqno m))) (
    snoc-append_unknown m.unknown_ data_key _ _ sig_key (text sig) (λ u1.
      ap (field data_key (subdict (serialize_data m.data_))) (
        snoc-append_unknown u1 lags_key _ _ sig_key (text sig) (λ u2.
          ap (field lags_key (list (lag_rows (seqno m) m.lag m.lagged_diffs_))) (
            snoc-append_unknown u2 diff_key _ _ sig_key (text sig) (λ u3.
              ap (field diff_key (subdict diff))
                (snoc-append_unknown u3 sig_key _ _ sig_key (text sig) (λ u4. refl))))))))

-- A signature that is there has 64 bytes.
abbrev pub Has64Bytes : Option Bytes → Type 0
Has64Bytes none = Unit
Has64Bytes (some sig) = length sig ≡ 64

module _ (x : Codec) where
  signed_by :
      (verified : Option Bytes) (signer : Signer) (enable_signing : Bool) (pairs : BtDict)
      (s : Option Bytes)
      → (elim verified as (λ v. Option Bytes) [
        | some sig ↦ some sig
        | none ↦ elim signer as (λ s. Option Bytes) [
          | none ↦ none
          | some f ↦ if enable_signing then some (f (x.signed_part (x.encode pairs))) else none
        ]
      ])
        ≡ s
      → Has64Bytes s
      → (elim verified as (λ v. Result BtDict) [
        | some sig ↦ ok (snoc pairs sig_key (text sig))
        | none ↦ elim signer as (λ s. Result BtDict) [
          | none ↦ ok pairs
          | some f ↦ if enable_signing then sign x f pairs else ok pairs
        ]
      ])
        ≡ ok (with_sig s pairs)
  unfolding sign
  signed_by (some sig) signer enable_signing pairs s e h = rw⁻¹ e refl
  signed_by none none enable_signing pairs s e h = rw⁻¹ e refl
  signed_by none (some f) false pairs s e h = rw⁻¹ e refl
  signed_by none (some f) true pairs none e h = absurd (ground (arith, e))
  signed_by none (some f) true pairs (some sig) e h =
      let p : f (x.signed_part (x.encode pairs)) ≡ sig = ground (arith, e) in
      let size : (length sig == 64) ≡ true = ground (arith, h) in rw (p, size) refl

  -- The pairs are signed, if the signature has 64 bytes.
  pub signed_pairs-ok :
      (m : Message) (diff : BtDict) (s : Option Bytes) (enable_signing : Bool)
      → signature_of x m (message_pairs m diff) enable_signing ≡ s
      → Has64Bytes s
      → signed_pairs x m diff enable_signing ≡ ok (with_sig s (message_pairs m diff))
  unfolding signed_pairs
  signed_pairs-ok m diff s enable_signing e h =
      signed_by m.verified_signature_ m.signer enable_signing (message_pairs m diff) s e h

-- What a reader accepts: no signature, if it has no verifier, or one that it verifies.
abbrev pub Accepts : Verifier → Bytes → Option Bytes → Type 0
Accepts verifier signed none = is_set verifier ≡ false
Accepts verifier signed (some sig) = (length sig ≡ 64) × (verifies verifier signed sig ≡ true)

pub length_of_Accepts :
    (verifier : Verifier) (signed : Bytes) (s : Option Bytes)
    → Accepts verifier signed s
    → Has64Bytes s
length_of_Accepts verifier signed none h = tt
length_of_Accepts verifier signed (some sig) h = h.0

abbrev pub kept_signature : Verifier → Bool → Option Bytes → Option Bytes
kept_signature verifier trust_signature none = none
kept_signature verifier trust_signature (some sig) =
    if is_set verifier || trust_signature then some sig else none

pub verify_config_sig-ending :
    (s : Option Bytes) (signed : Bytes) (verifier : Verifier) (trust : Bool)
    → Accepts verifier signed s
    → verify_config_sig signed (ending s) verifier trust ≡ ok (kept_signature verifier trust s)
unfolding verify_config_sig list_lt
verify_config_sig-ending none signed verifier trust h = rw h refl
verify_config_sig-ending (some sig) signed verifier trust h =
    let size : (length sig == 64) ≡ true = ground (arith, h.0) in rw (size, h.1) refl
