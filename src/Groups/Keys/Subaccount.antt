-- ===== src/Groups/Keys/Subaccount.antt =====
-- The subaccounts of a group (src/config/groups/keys.cpp): the values that an admin signs for a
-- member, the member's signatures, and their tokens. The bits of a byte are written with quotients
-- and remainders.
pub mod Grants
use libsession_util.Prelude.{
  ℕ, zero, suc, ◌+◌, ◌/◌, ◌%◌, ◌==◌, Bool, true, false, not, ◌&&◌, ◌||◌, Option, none, some, List,
  [], ◌∷◌, ◌++◌, length, take, drop, leb, if◌then◌else◌,
}
use libsession_util.Prelude.Result.{Result, ok, err, guard, logic_error, runtime_error, ◌>>=◌, ◌>>◌}
use libsession_util.Keys.{Bytes, bytes}
use libsession_util.Config.Signing.{seed_hash}
use libsession_util.User.Ids.{prefix_03, prefix_05, session_id_pk}
use libsession_util.Groups.Keys.{Keys}
use libsession_util.Groups.Keys.Crypt.{Crypto, admin_keys}
use libsession_util.Groups.Keys.Message.{group_pk}

-- libsodium's arithmetic of Ed25519's points and scalars, with the product of a scalar and a point,
-- which can fail; its SHA-512; the point that src/xed25519.cpp computes of an X25519 key with
-- libsodium's field arithmetic; and oxenc's base64.
pub record Scalars : Type 0 where
  pub scalarmult : Bytes → Bytes → Option Bytes
  pub scalarmult_base : Bytes → Bytes
  pub reduce : Bytes → Bytes
  pub negate : Bytes → Bytes
  pub mul : Bytes → Bytes → Bytes
  pub add : Bytes → Bytes → Bytes
  pub sha512 : Bytes → Bytes
  pub xed_pubkey : Bytes → Bytes
  pub to_base64 : Bytes → Bytes

-- `subacc_flags`: the bits are disjoint, so that the sum is the union.
abbrev pub subacc_flags : Bool → Bool → ℕ
subacc_flags write del = 1 + (if write then 2 else 0) + (if del then 4 else 0)

-- `flags & 1`, and the like for the other flags
abbrev pub has_bit : ℕ → ℕ → Bool
has_bit flag flags = flags / flag % 2 == 1

abbrev pub byte_at : ℕ → Bytes → ℕ
byte_at n [] = 0
byte_at zero (b ∷ bs) = b
byte_at (suc n) (b ∷ bs) = byte_at n bs

-- `T[31] & 0x80` and `T[31] &= 0x7f`
abbrev pub sign_bit : Bytes → Bool
sign_bit t = leb 128 (byte_at 31 t)

abbrev pub clear_sign : Bytes → Bytes
clear_sign t = take 31 t ++ (byte_at 31 t % 128 ∷ drop 32 t)

-- The network prefix, the flags, and the two reserved bytes.
abbrev pub subaccount_head : Bool → Bool → Bytes
subaccount_head write del = 3 ∷ subacc_flags write del ∷ 0 ∷ 0 ∷ []

-- What `swarm_verify_subaccount` asks of the first bytes.
abbrev pub allows : Bytes → Bool → Bool → Bool
allows sign_val write del =
    let flags = byte_at 1 sign_val in
    (byte_at 0 sign_val == 3 || has_bit 8 flags)
    && has_bit 1 flags
    && (not write || has_bit 2 flags)
    && (not del || has_bit 4 flags)

abbrev pub product : Option Bytes → Result Bytes
product none = err runtime_error
product (some point) = ok point

module _ (x : Crypto) (c : Scalars) where
  unfoldable pub subaccount_blind_factor : Bytes → Keys → Result Bytes
  unfolding seed_hash
  subaccount_blind_factor session_xpk g = do
    mask ← seed_hash x.ed25519 (bytes "SessionGroupSubaccountMask") g.sig
    pk ← group_pk g
    ok (c.reduce (x.ed25519.blake2b 64 (5 ∷ session_xpk ++ (3 ∷ pk)) mask))

  -- The blinding factor, and the blinded public key of the member.
  abbrev pub blinded : Bytes → Keys → Result (Bytes × Bytes)
  blinded session_xpk g = do
    k ← subaccount_blind_factor session_xpk g
    kt ← product (c.scalarmult k (c.xed_pubkey session_xpk))
    ok (k, kt)

  unfoldable pub swarm_make_subaccount : Bytes → Bool → Bool → Keys → Result Bytes
  unfolding subaccount_blind_factor session_id_pk
  swarm_make_subaccount session_id write del g = do
    (sk, pk) ← admin_keys g
    session_xpk ← session_id_pk x.oxenc session_id prefix_05
    (k, kt) ← blinded session_xpk g
    let head = subaccount_head write del
    ok (head ++ (k ++ x.ed25519.sign_detached (head ++ kt) sk))

  unfoldable pub swarm_subaccount_token : Bytes → Bool → Bool → Keys → Result Bytes
  unfolding subaccount_blind_factor session_id_pk
  swarm_subaccount_token session_id write del g = do
    (sk, pk) ← admin_keys g
    session_xpk ← session_id_pk x.oxenc session_id prefix_05
    (k, kt) ← blinded session_xpk g
    ok (subaccount_head write del ++ kt)

  -- The product of the factor in a signed value and the account's public key without its sign.
  abbrev pub own_product : Bytes → Bytes → Result Bytes
  own_product sign_val user_ed_sk =
      product
        (c.scalarmult (take 32 (drop 4 sign_val)) (clear_sign (x.ed25519.sk_to_pk user_ed_sk)))

  -- The signature of a message by the blinded key.
  unfoldable pub blinded_signature : Bytes → Bytes → Bytes → Bytes → Bytes
  blinded_signature msg k kt sk =
      let s = x.curve.sk_to_curve sk in
      let t = if sign_bit (x.ed25519.sk_to_pk sk) then c.negate s else s in
      let hseed = x.ed25519.blake2b 32 (take 32 sk) (bytes "SubaccountSeed") in
      let r = c.reduce (x.ed25519.blake2b 64 (hseed ++ (kt ++ msg)) (bytes "SubaccountSig")) in
      let commitment = c.scalarmult_base r in
      let challenge = c.reduce (c.sha512 (commitment ++ (kt ++ msg))) in
      commitment ++ c.add (c.mul challenge (c.mul k t)) r

  -- The token, the admin's signature, and the member's.
  unfoldable pub swarm_subaccount_sign :
      Bytes → Bytes → Bool → Keys → Result (Bytes × (Bytes × Bytes))
  unfolding blinded_signature
  swarm_subaccount_sign msg sign_val binary g = do
    guard (length sign_val == 100) logic_error
    pk ← group_pk g
    kt ← own_product sign_val g.user_ed25519_sk
    let token : Bytes = take 4 sign_val ++ kt
    let sub_sig : Bytes = drop 36 sign_val
    let sig = blinded_signature msg (take 32 (drop 4 sign_val)) kt g.user_ed25519_sk
    ok (
        if binary
        then (token, (sub_sig, sig))
        else (c.to_base64 token, (c.to_base64 sub_sig, c.to_base64 sig)))

  -- The static `swarm_verify_subaccount`, of a group id and a secret key.
  unfoldable pub verify_subaccount_of : Bytes → Bytes → Bytes → Bool → Bool → Result Bool
  unfolding session_id_pk
  verify_subaccount_of group_id user_ed_sk sign_val write del = do
    pk ← session_id_pk x.oxenc group_id prefix_03
    let checked = (do
      kt ← own_product sign_val user_ed_sk
      ok (x.ed25519.verify_detached (drop 36 sign_val) (take 4 sign_val ++ kt) pk))
    if (length sign_val == 100) && allows sign_val write del then checked else ok false

  unfoldable pub swarm_verify_subaccount : Bytes → Bool → Bool → Keys → Result Bool
  unfolding verify_subaccount_of
  swarm_verify_subaccount sign_val write del g = elim g.sig.sign_pk [
    | none ↦ ok false
    | some pk ↦
        verify_subaccount_of (prefix_03 ++ x.oxenc.to_hex pk) g.user_ed25519_sk sign_val write del
  ]
