-- ===== src/MultiEncrypt.antt =====
-- Messages that are encrypted for several recipients (src/multi_encrypt.cpp,
-- include/session/multi_encrypt.hpp). The calls of the callback of `encrypt_for_multiple` are a
-- list, in their order; those of `next_ciphertext` are a list of what it gives or throws.
pub mod Laws
pub mod Simple
pub mod Ed25519
use libsession_util.Prelude.{
  ℕ, zero, suc, ◌+◌, ◌==◌, Bool, true, false, not, ◌||◌, Option, none, some, List, [], ◌∷◌, ◌++◌,
  length, replicate, take, drop, ltb, leb, All, ◌%◌, ◌-◌, if◌then◌else◌,
}
use libsession_util.Prelude.Result.{
  Result, ok, err, guard, Error, invalid_argument, logic_error, runtime_error, ◌>>=◌, ◌>>◌,
}
use libsession_util.Keys.{Bytes, bytes, bytes_ord, list_lt}
use libsession_util.Config.Bt.{BtValue, BtList, BtDict, text, list, nil, cons, blank, field}
use libsession_util.Config.Encrypt.{Sodium, tag_size}
use libsession_util.Config.Message.Read.{skip_until, at_key, is_set}
use libsession_util.Config.Message.Lagged.{read_text, read_list}
use libsession_util.Config.Base.Push.Load.{require}

-- libsodium's Curve25519: the product of a secret and a public key, which fails for some public
-- keys, and the conversions of Ed25519 keys.
pub record Curve : Type 0 where
  pub scalarmult : Bytes → Bytes → Option Bytes
  pub sk_to_curve : Bytes → Bytes
  pub pk_to_curve : Bytes → Option Bytes

-- `validate_multi_fields`
abbrev pub validate_multi_fields : Bytes → Bytes → Bytes → Result (Unit {0})
validate_multi_fields nonce privkey pubkey = do
  guard (leb 24 (length nonce)) logic_error
  guard (length privkey == 32) logic_error
  guard (length pubkey == 32) logic_error

abbrev pub all_32 : List Bytes → Bool
all_32 [] = true
all_32 (r ∷ rs) = if length r == 32 then all_32 rs else false

module _ (s : Sodium) (c : Curve) where
  -- The hash is of the shared secret, the sender's and the recipient's key.
  unfoldable pub encrypt_multi_key : Bytes → Bytes → Bytes → Bool → Bytes → Result Bytes
  encrypt_multi_key a pk_a pk_b encrypting domain = elim (c.scalarmult a pk_b) [
    | none ↦ err invalid_argument
    | some buf ↦
        let sender = if encrypting then pk_a else pk_b in
        let recipient = if encrypting then pk_b else pk_a in
        ok (s.generichash 32 (take 64 domain) (buf ++ (sender ++ recipient)))
  ]

  unfoldable pub decrypt_multi_impl : Bytes → Bytes → Bytes → Option Bytes
  decrypt_multi_impl ciphertext key nonce =
      if ltb (length ciphertext) tag_size then none else s.aead_decrypt ciphertext nonce key

  -- The loop over the recipients: `one` is for a single message.
  unfoldable pub encrypt_each :
      Bool → List Bytes → List Bytes → Bytes → Bytes → Bytes → Bytes → Bool → Result (List Bytes)
  unfolding encrypt_multi_key
  encrypt_each one messages [] nonce privkey pubkey domain ignore = ok []
  encrypt_each one [] (r ∷ rs) nonce privkey pubkey domain ignore = err logic_error
  encrypt_each one (m ∷ ms) (r ∷ rs) nonce privkey pubkey domain ignore =
      let rest =
        encrypt_each one (if one then m ∷ ms else ms) rs nonce privkey pubkey domain ignore in
      elim (encrypt_multi_key privkey pubkey r true domain) [
        | err e ↦ if ignore then rest else err e
        | ok key ↦ (do copies ← rest; ok (s.aead_encrypt m nonce key ∷ copies))
      ]

  unfoldable pub encrypt_for_multiple :
      List Bytes → List Bytes → Bytes → Bytes → Bytes → Bytes → Bool → Result (List Bytes)
  unfolding encrypt_each
  encrypt_for_multiple messages recipients nonce privkey pubkey domain ignore = do
    validate_multi_fields nonce privkey pubkey
    guard (all_32 recipients) logic_error
    guard (length messages == 1 || length messages == length recipients) logic_error
    encrypt_each (length messages == 1) messages recipients nonce privkey pubkey domain ignore

  -- The loop over the ciphertexts, with those that it leaves.
  unfoldable pub decrypt_each :
      Bytes → Bytes → List (Result Bytes) → Result (Option Bytes × List (Result Bytes))
  unfolding decrypt_multi_impl
  decrypt_each key nonce [] = ok (none, [])
  decrypt_each key nonce (err e ∷ next) = err e
  decrypt_each key nonce (ok ciphertext ∷ next) = elim (decrypt_multi_impl ciphertext key nonce) [
    | none ↦ decrypt_each key nonce next
    | some m ↦ ok (some m, next)
  ]

  unfoldable pub decrypt_for_multiple :
      List (Result Bytes)
      → Bytes
      → Bytes
      → Bytes
      → Bytes
      → Bytes
      → Result (Option Bytes × List (Result Bytes))
  unfolding encrypt_multi_key decrypt_each
  decrypt_for_multiple next nonce privkey pubkey sender_pubkey domain = do
    validate_multi_fields nonce privkey pubkey
    guard (length sender_pubkey == 32) logic_error
    key ← encrypt_multi_key privkey pubkey sender_pubkey false domain
    decrypt_each key nonce next

  unfoldable pub x_keys : Bytes → Result (Bytes × Bytes)
  x_keys secret = do
    guard (length secret == 64) invalid_argument
    elim (c.pk_to_curve (drop 32 secret)) [
      | none ↦ err runtime_error
      | some x_pub ↦ ok (c.sk_to_curve secret, x_pub)
    ]

-- The texts of a list, and what the calls of its `consume` give.
abbrev pub texts : List Bytes → BtList
texts [] = nil
texts (t ∷ ts) = cons (text t) (texts ts)

abbrev pub consumed : BtList → List (Result Bytes)
consumed nil = []
consumed (cons v l) = read_text v ∷ consumed l

-- The loop that adds junk entries until their number is a multiple of `pad`; the argument gives the
-- random bytes of the entry at a count, and the fuel is `pad`.
unfoldable pub junk_from : (ℕ → Bytes) → ℕ → ℕ → ℕ → List Bytes
junk_from junk pad zero count = []
junk_from junk pad (suc fuel) count =
    let rest = junk_from junk pad fuel (count + 1) in
    if count % pad == 0 then [] else junk count ∷ rest

-- The size of a junk entry: that of the first message, or none at all.
abbrev pub pad_size : List Bytes → ℕ → ℕ
pad_size [] pad = 0
pad_size (m ∷ ms) pad = if ltb 1 pad then length m else 0

abbrev pub padded_copies : (ℕ → ℕ → Bytes) → List Bytes → ℕ → List Bytes → List Bytes
padded_copies random messages pad copies =
    if pad_size messages pad == 0
    then copies
    else copies ++ junk_from (random (pad_size messages pad)) pad pad (length copies)

module _ (s : Sodium) (c : Curve) where
  -- `encrypt_for_multiple_simple`, of a nonce or the random one, up to the text of the dict.
  unfoldable pub encrypt_for_multiple_simple :
      (ℕ → ℕ → Bytes)
      → Bytes
      → List Bytes
      → List Bytes
      → Bytes
      → Bytes
      → Bytes
      → Option Bytes
      → ℕ
      → Result BtDict
  unfolding encrypt_for_multiple junk_from
  encrypt_for_multiple_simple random fresh messages recipients privkey pubkey domain nonce pad = do
    let nonce' : Bytes = elim nonce [ none ↦ fresh | some n ↦ n ]
    guard (not (is_set nonce) || length nonce' == 24) invalid_argument
    copies ← encrypt_for_multiple s c messages recipients nonce' privkey pubkey domain false
    ok (
        field (bytes "#") (text nonce')
          (field (bytes "e") (list (texts (padded_copies random messages pad copies))) blank))

  -- `decrypt_for_multiple_simple` with keys, before it catches what is thrown.
  unfoldable pub decrypt_simple : BtDict → Bytes → Bytes → Bytes → Bytes → Result (Option Bytes)
  unfolding decrypt_for_multiple skip_until list_lt
  decrypt_simple d privkey pubkey sender_pubkey domain = do
    (nonce, d1) ← require (bytes "#") read_text d
    (l, d2) ← require (bytes "e") read_list d1
    let found = (do
      (m, rest) ← decrypt_for_multiple s c (consumed l) nonce privkey pubkey sender_pubkey domain
      ok m)
    if length nonce == 24 then found else ok none

  unfoldable pub decrypt_for_multiple_simple : BtDict → Bytes → Bytes → Bytes → Bytes → Option Bytes
  unfolding decrypt_simple
  decrypt_for_multiple_simple d privkey pubkey sender_pubkey domain =
      elim (decrypt_simple d privkey pubkey sender_pubkey domain) [ ok m ↦ m | err e ↦ none ]
