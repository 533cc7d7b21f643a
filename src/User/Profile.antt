-- ===== src/User/Profile.antt =====
-- The user's own profile (src/config/user_profile.cpp, include/session/config/user_profile.hpp).
pub mod Laws
use libsession_util.Prelude.{
  ℕ, Bool, true, false, not, ◌&&◌, ◌==◌, Option, none, some, List, [], ◌∷◌, length, leb,
  if◌then◌else◌,
}
use libsession_util.Prelude.Result.{Result, ok, guard, invalid_argument, ◌>>=◌, ◌>>◌}
use libsession_util.Prelude.Int.{ℤ, pos, negsuc}
use libsession_util.Keys.{Bytes, bytes}
use libsession_util.Config.Data.{int, string, is_nil}
use libsession_util.Config.Base.{ConfigBase, Env}
use libsession_util.Config.Base.Field.{
  assign_scalar, erase_field, set_positive_int, set_nonzero_int, set_nonempty_str, is_positive,
  is_nonzero,
}
use libsession_util.Util.Text.{utf8_truncate, to_int}
use libsession_util.User.Types.{ProfilePic, or_else, top, top_string, top_int, bool_of, set_pair_if}
use libsession_util.User.Contacts.{max_name_length}

-- What the getters make of a value.
abbrev pub name_of : Option Bytes → Option Bytes
name_of none = none
name_of (some s) = if not (is_nil s) then some s else none

abbrev pub url_of : Option Bytes → Bytes
url_of o = or_else o []

abbrev pub key_of : Option Bytes → Bytes
key_of none = []
key_of (some key) = if length key == 32 then key else []

abbrev pub expiry_of : Option ℤ → Option ℤ
expiry_of none = none
expiry_of (some e) = if is_positive e then some e else none

unfoldable pub get_name : ConfigBase → Option Bytes
unfolding top_string
get_name c = name_of (top_string c (bytes "n"))

unfoldable pub get_profile_pic : ConfigBase → ProfilePic
unfolding top_string
get_profile_pic c = record {
  url = url_of (top_string c (bytes "p"));
  key = key_of (top_string c (bytes "q"));
}

unfoldable pub get_nts_priority : ConfigBase → ℤ
unfolding top_int to_int
get_nts_priority c = to_int (or_else (top_int c (bytes "+")) (pos 0))

unfoldable pub get_nts_expiry : ConfigBase → Option ℤ
unfolding top_int
get_nts_expiry c = expiry_of (top_int c (bytes "e"))

unfoldable pub get_blinded_msgreqs : ConfigBase → Option Bool
unfolding top_int
get_blinded_msgreqs c = bool_of (top_int c (bytes "M"))

module _ (env : Env) where
  unfoldable pub set_name : Bytes → ConfigBase → Result ConfigBase
  unfolding set_nonempty_str
  set_name new_name c = do
    guard (leb (length new_name) max_name_length) invalid_argument
    set_nonempty_str env (top (bytes "n")) new_name c

  unfoldable pub set_name_truncated : Bytes → ConfigBase → Result ConfigBase
  unfolding set_name utf8_truncate
  set_name_truncated new_name c = set_name (utf8_truncate new_name max_name_length) c

  unfoldable pub set_profile_pic : ProfilePic → ConfigBase → Result ConfigBase
  unfolding set_pair_if
  set_profile_pic pic c =
      set_pair_if env (not (is_nil pic.url) && (length pic.key == 32)) (top (bytes "p"))
        (string pic.url) (top (bytes "q")) (string pic.key) c

  unfoldable pub set_nts_priority : ℤ → ConfigBase → Result ConfigBase
  unfolding set_nonzero_int
  set_nts_priority priority c = set_nonzero_int env (top (bytes "+")) priority c

  unfoldable pub set_nts_expiry : ℤ → ConfigBase → Result ConfigBase
  unfolding set_positive_int
  set_nts_expiry expiry c = set_positive_int env (top (bytes "e")) expiry c

  abbrev bit : Bool → ℤ
  bit true = pos 1
  bit false = pos 0

  unfoldable pub set_blinded_msgreqs : Option Bool → ConfigBase → Result ConfigBase
  unfolding assign_scalar erase_field
  set_blinded_msgreqs none c = erase_field env (top (bytes "M")) c
  set_blinded_msgreqs (some value) c = assign_scalar env (int (bit value)) (top (bytes "M")) c
