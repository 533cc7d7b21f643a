-- ===== src/User/Ids/Laws.antt =====
-- The ids that are accepted, and their bytes.
use libsession_util.Prelude.{◌≡◌, refl, true}
use libsession_util.Prelude.Result.{ok, invalid_argument, Ensures, Ensures-ok, guard-Ensures}
use libsession_util.Keys.{Bytes, list_lt}
use libsession_util.User.Ids.{Oxenc, is_session_id, check_session_id, session_id_to_bytes}

module _ (x : Oxenc) (sid prefix : Bytes) where
  pub check_session_id_of_valid :
      is_session_id x sid prefix ≡ true → check_session_id x sid prefix ≡ ok tt
  unfolding check_session_id list_lt
  check_session_id_of_valid h = rw h refl

  pub session_id_to_bytes_of_valid :
      is_session_id x sid prefix ≡ true → session_id_to_bytes x sid prefix ≡ ok (x.from_hex sid)
  unfolding session_id_to_bytes
  session_id_to_bytes_of_valid h = rw (check_session_id_of_valid h) refl

  pub session_id_to_bytes-Ensures :
      Ensures
        (λ b. (is_session_id x sid prefix ≡ true) × (b ≡ x.from_hex sid))
        (session_id_to_bytes x sid prefix)
  unfolding session_id_to_bytes check_session_id list_lt
  session_id_to_bytes-Ensures =
      guard-Ensures _ (is_session_id x sid prefix) invalid_argument (ok (x.from_hex sid))
        (λ h. Ensures-ok _ _ (h, refl))
