-- ===== src/Groups/Keys/Crypt.antt =====
-- What the key messages of a group are made with (src/config/groups/keys.cpp): the hash keys, the
-- keys of the members, and the parameters.
use libsession_util.Prelude.{
  ℕ, zero, suc, ◌-◌, ◌%◌, ◌==◌, none, some, List, [], ◌∷◌, ◌++◌, take, drop, if◌then◌else◌,
}
use libsession_util.Prelude.Result.{Result, ok, err, logic_error, runtime_error, ◌>>=◌}
use libsession_util.Prelude.Int.{ℤ, pos, negsuc}
use libsession_util.Keys.{Bytes, bytes}
use libsession_util.Config.Signing.{Ed25519}
use libsession_util.Config.Base.{Env}
use libsession_util.MultiEncrypt.{Curve}
use libsession_util.User.Ids.{Oxenc, prefix_05, session_id_pk}
use libsession_util.Util.Url.{decimal}
use libsession_util.Groups.Keys.{Keys}

-- libsodium's `randombytes_buf_deterministic` of a size and a seed, and what the arrays of the
-- member's keys hold where `load_key_message` leaves them unset, in an admin's account.
pub record Crypto : Type 0 where
  pub env : Env
  pub curve : Curve
  pub ed25519 : Ed25519
  pub oxenc : Oxenc
  pub deterministic : ℕ → Bytes → Bytes
  pub unset_xsk : Bytes
  pub unset_xpk : Bytes

abbrev pub seed_hash_key : Bytes
seed_hash_key = bytes "SessionGroupKeySeed"

abbrev pub enc_key_hash_key : Bytes
enc_key_hash_key = bytes "SessionGroupKeyGen"

abbrev pub enc_key_admin_hash_key : Bytes
enc_key_admin_hash_key = bytes "SessionGroupKeyAdminKey"

abbrev pub enc_key_member_hash_key : Bytes
enc_key_member_hash_key = bytes "SessionGroupKeyMemberKey"

abbrev pub junk_seed_hash_key : Bytes
junk_seed_hash_key = bytes "SessionGroupJunkMembers"

-- `MESSAGE_KEY_MULTIPLE`, and the size of an encrypted key.
abbrev pub message_key_multiple : ℕ
message_key_multiple = 45

abbrev pub encrypted_key_size : ℕ
encrypted_key_size = 48

-- `std::to_string` of a generation, a number of 64 bits: it has at most 19 digits.
abbrev pub generation_text : ℤ → Bytes
generation_text (pos n) = decimal 19 n
generation_text (negsuc n) = b'-' ∷ decimal 19 (suc n)

-- The secret and the public key of an admin, who has both.
abbrev pub admin_keys : Keys → Result (Bytes × Bytes)
admin_keys g = elim g.sig.sign_sk [
  | none ↦ err logic_error
  | some sk ↦ elim g.sig.sign_pk [ none ↦ err logic_error | some pk ↦ ok (sk, pk) ]
]

abbrev pub compute_xpk : Curve → Bytes → Result Bytes
compute_xpk c pk = elim (c.pk_to_curve pk) [ none ↦ err runtime_error | some xpk ↦ ok xpk ]

-- The Curve25519 keys of session ids, and the ids one after the other.
unfoldable pub member_xpks : Oxenc → List Bytes → Result (List Bytes)
unfolding session_id_pk
member_xpks x [] = ok []
member_xpks x (sid ∷ sids) = do
  pk ← session_id_pk x sid prefix_05
  pks ← member_xpks x sids
  ok (pk ∷ pks)

unfoldable pub concat : List Bytes → Bytes
concat [] = []
concat (b ∷ bs) = b ++ concat bs

-- The loop that cuts the junk data into entries; the fuel is the number of bytes.
unfoldable pub cut : ℕ → Bytes → List Bytes
cut zero view = []
cut (suc fuel) [] = []
cut (suc fuel) (b ∷ bs) =
    take encrypted_key_size (b ∷ bs) ∷ cut fuel (drop encrypted_key_size (b ∷ bs))

-- The number of junk entries after so many copies.
abbrev pub n_junk : ℕ → ℕ
n_junk count =
    if count % message_key_multiple == 0
    then 0
    else message_key_multiple - count % message_key_multiple
