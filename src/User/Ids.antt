-- ===== src/User/Ids.antt =====
-- Session ids and public keys in text form (src/config/internal.cpp). The encodings are oxenc's.
pub mod Laws
use libsession_util.Prelude.{
  ℕ, ◌+◌, Bool, true, false, ◌&&◌, ◌||◌, ◌==◌, Option, none, some, List, [], ◌∷◌, length, take,
  drop, if◌then◌else◌,
}
use libsession_util.Prelude.Result.{Result, ok, err, guard, invalid_argument, ◌>>=◌, ◌>>◌}
use libsession_util.Order.{same}
use libsession_util.Keys.{Bytes, bytes, bytes_ord, list_lt}

-- The functions of oxenc's hex.h, base64.h and base32z.h that the code calls.
pub record Oxenc : Type 0 where
  pub is_hex : Bytes → Bool
  pub from_hex : Bytes → Bytes
  pub to_hex : Bytes → Bytes
  pub is_base64 : Bytes → Bool
  pub from_base64 : Bytes → Bytes
  pub is_base32z : Bytes → Bool
  pub from_base32z : Bytes → Bytes

abbrev pub prefix_05 : Bytes
prefix_05 = bytes "05"

abbrev pub prefix_03 : Bytes
prefix_03 = bytes "03"

-- `pk.back() == '='`
abbrev pub ends_in_pad : Bytes → Bool
ends_in_pad [] = false
ends_in_pad (c ∷ []) = c == b'='
ends_in_pad (c ∷ d ∷ s) = ends_in_pad (d ∷ s)

module _ (x : Oxenc) where
  abbrev pub is_session_id : Bytes → Bytes → Bool
  is_session_id session_id prefix =
      (length session_id == 64 + length prefix)
      && x.is_hex session_id
      && same (take (length prefix) session_id) prefix

  unfoldable pub check_session_id : Bytes → Bytes → Result (Unit {0})
  unfolding list_lt
  check_session_id session_id prefix = guard (is_session_id session_id prefix) invalid_argument

  unfoldable pub session_id_to_bytes : Bytes → Bytes → Result Bytes
  unfolding check_session_id
  session_id_to_bytes session_id prefix = do
    check_session_id session_id prefix
    ok (x.from_hex session_id)

  unfoldable pub session_id_pk : Bytes → Bytes → Result Bytes
  unfolding check_session_id
  session_id_pk session_id prefix = do
    check_session_id session_id prefix
    ok (x.from_hex (drop 2 session_id))

  abbrev pub has_hex_key : Bytes → Bool
  has_hex_key pk = (length pk == 64) && x.is_hex pk

  abbrev pub has_base64_key : Bytes → Bool
  has_base64_key pk = ((length pk == 43) || ((length pk == 44) && ends_in_pad pk)) && x.is_base64 pk

  abbrev pub has_base32z_key : Bytes → Bool
  has_base32z_key pk = (length pk == 52) && x.is_base32z pk

  unfoldable pub check_encoded_pubkey : Bytes → Result (Unit {0})
  check_encoded_pubkey pk =
      guard (has_hex_key pk || has_base64_key pk || has_base32z_key pk) invalid_argument

  unfoldable pub decode_pubkey : Bytes → Result Bytes
  decode_pubkey pk =
      if has_hex_key pk
      then ok (x.from_hex pk)
      else if has_base64_key pk
      then ok (x.from_base64 pk)
      else if has_base32z_key pk
      then ok (x.from_base32z pk)
      else err invalid_argument
