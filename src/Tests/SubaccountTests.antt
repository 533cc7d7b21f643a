-- ===== src/Tests/SubaccountTests.antt =====
-- The subaccounts of a group at concrete inputs, with toy ciphers.
use libsession_util.Prelude.{
  drop, Bool, ◌≡◌, refl, true, false, not, ◌&&◌, ◌||◌, none, some, [], ◌∷◌, ◌++◌, replicate, take,
}
use libsession_util.Prelude.Int.{pos}
use libsession_util.Prelude.Result.{ok}
use libsession_util.Keys.{Bytes, list_lt}
use libsession_util.Config.Signing.{verifier_of, signer_of, seed_hash}
use libsession_util.User.Ids.{prefix_05, check_session_id, session_id_pk}
use libsession_util.Groups.Keys.{Keys}
use libsession_util.Groups.Keys.Crypt.{Crypto}
use libsession_util.Groups.Keys.Subaccount.{
  blinded_signature, Scalars, subaccount_head, subaccount_blind_factor, swarm_make_subaccount,
  swarm_subaccount_token, swarm_subaccount_sign, swarm_verify_subaccount,
}
use libsession_util.Groups.Keys.Subaccount.Grants.{
  SignsFor, IsOwn, in_form, swarm_verify_subaccount-make, swarm_subaccount_sign-token,
}
use libsession_util.Tests.EncryptTests.{toy}
use libsession_util.Tests.BaseTests.{toy_env}
use libsession_util.Tests.SigningTests.{toy_ed25519}

abbrev toys : Crypto
toys = record {
  env = record toy_env { sodium = toy };
  curve = record {
    scalarmult = λ a b. none;
    sk_to_curve = λ sk. replicate 32 0;
    pk_to_curve = λ pk. none;
  };
  ed25519 = toy_ed25519;
  oxenc = record {
    is_hex = λ s. true;
    from_hex = λ s. take 32 s;
    to_hex = λ s. s ++ s;
    is_base64 = λ s. true;
    from_base64 = λ s. s;
    is_base32z = λ s. true;
    from_base32z = λ s. s;
  };
  deterministic = λ n seed. replicate n 0;
  unset_xsk = [];
  unset_xpk = [];
}

abbrev scalars : Scalars
scalars = record {
  scalarmult = λ k t. some (replicate 32 6);
  scalarmult_base = λ r. replicate 32 7;
  reduce = λ h. replicate 32 8;
  negate = λ s. s;
  mul = λ a b. a;
  add = λ a b. a;
  sha512 = λ s. replicate 64 0;
  xed_pubkey = λ u. u;
  to_base64 = λ s. s;
}

abbrev group_key : Bytes
group_key = replicate 32 1

-- The last byte of the member's public key has its sign bit set.
abbrev member_xpk : Bytes
member_xpk = replicate 31 9 ++ (2 ∷ [])

abbrev member_id : Bytes
member_id = prefix_05 ++ (member_xpk ++ member_xpk)

abbrev keys_of : Bytes → Keys
keys_of user_sk = record {
  sig = record {
    sign_pk = some group_key;
    sign_sk = some (replicate 64 3);
    verifier = verifier_of toy_ed25519 group_key;
    signer = signer_of toy_ed25519 (replicate 64 3);
  };
  user_ed25519_sk = user_sk;
  keys = [];
  active_msgs = [];
  pending_key = [];
  pending_key_config = [];
  pending_gen = pos 0;
  needs_dump = false;
}

abbrev admin_of_group : Keys
admin_of_group = keys_of (replicate 64 4)

abbrev member_keys : Keys
member_keys = keys_of (replicate 32 5 ++ (replicate 31 9 ++ (130 ∷ [])))

abbrev member : Keys
member = record member_keys { sig = record member_keys.sig { sign_sk = none; signer = none } }

-- A value for writing, but not for deleting.
abbrev writes : Bytes
writes = subaccount_head true false ++ (replicate 32 8 ++ replicate 64 0)

made_lem : swarm_make_subaccount toys scalars member_id true false admin_of_group ≡ ok writes
unfolding swarm_make_subaccount subaccount_blind_factor seed_hash session_id_pk check_session_id
    list_lt
made_lem = refl

abbrev group_signs : SignsFor toys (replicate 64 3) group_key
unfolding session_id_pk check_session_id list_lt
group_signs = record { sig_size = λ t. refl; verifies = λ t. refl; id_read = refl }

abbrev own_id : IsOwn toys scalars member_id member_xpk member.user_ed25519_sk
unfolding session_id_pk check_session_id list_lt
own_id = record { id_read = refl; point = refl; reduced = λ t. refl }

swarm_verify_subaccount-make_example :
    swarm_verify_subaccount toys scalars writes true true member
    ≡ ok ((true || not true) && (false || not true))
swarm_verify_subaccount-make_example =
    swarm_verify_subaccount-make toys scalars member_id member_xpk writes (replicate 64 3) group_key
      true false true true admin_of_group member group_signs own_id refl refl made_lem

swarm_subaccount_sign-token_example :
    (token : Bytes) × (sub_sig : Bytes) × (swarm_subaccount_token toys scalars member_id true false
        admin_of_group
      ≡ ok token)
    × (toys.ed25519.verify_detached sub_sig token group_key ≡ true)
    × ((msg : Bytes) (binary : Bool)
        → swarm_subaccount_sign toys scalars msg writes binary member
          ≡ ok (
              in_form toys scalars binary token sub_sig (
                blinded_signature toys scalars msg
                  (take 32 (drop 4 writes))
                  (drop 4 token)
                  member.user_ed25519_sk)))
swarm_subaccount_sign-token_example =
    swarm_subaccount_sign-token toys scalars member_id member_xpk writes (replicate 64 3) group_key
      true false admin_of_group member group_signs own_id refl refl made_lem
