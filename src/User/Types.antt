-- ===== src/User/Types.antt =====
-- The value types that the configs share: include/session/config/profile_pic.hpp, expiring.hpp and
-- notify.hpp; and `set_pair_if` of src/config/internal.hpp.
pub mod Read
use libsession_util.Prelude.{
  ℕ, Bool, true, false, not, ◌||◌, ◌&&◌, ◌==◌, Option, none, some, List, [], ◌∷◌, length,
  if◌then◌else◌,
}
use libsession_util.Prelude.Result.{Result, ok, ◌>>=◌}
use libsession_util.Prelude.Int.{ℤ, pos, negsuc}
use libsession_util.Keys.{Bytes, bytes}
use libsession_util.Config.Data.{Scalar, Dict, items, is_nil}
use libsession_util.Config.Base.{ConfigBase, Env}
use libsession_util.Config.Base.Field.{
  FieldPath, get_string, get_integer, lookup, assign_scalar, erase_field, is_nonzero,
}

-- `profile_pic`; `empty()`, `operator bool`.
pub record ProfilePic : Type 0 where
  pub url : Bytes
  pub key : Bytes

abbrev pub no_pic : ProfilePic
no_pic = record { url = []; key = [] }

abbrev pub has_pic : ProfilePic → Bool
has_pic pic = not (is_nil pic.url || not (length pic.key == 32))

-- `notify_mode`, `expiration_mode` and their numbers.
pub data NotifyMode : Type 0 where
  defaulted all disabled mentions_only : NotifyMode

abbrev pub notify_number : NotifyMode → ℤ
notify_number defaulted = pos 0
notify_number all = pos 1
notify_number disabled = pos 2
notify_number mentions_only = pos 3

pub data ExpirationMode : Type 0 where
  no_expiration after_send after_read : ExpirationMode

abbrev pub expiration_number : ExpirationMode → ℤ
expiration_number no_expiration = pos 0
expiration_number after_send = pos 1
expiration_number after_read = pos 2

-- `value_or`
abbrev pub or_else {ℓ} : {A : Type ℓ} → Option A → A → A
or_else none fallback = fallback
or_else (some a) fallback = a

-- The mode of a number: `mentions_only` is for groups.
abbrev pub notify_of : ℤ → NotifyMode
notify_of (pos n) =
    if n == 1 then all else if n == 2 then disabled else if n == 3 then mentions_only else defaulted
notify_of (negsuc n) = defaulted

abbrev pub expiration_of : ℤ → ExpirationMode
expiration_of (pos n) = if n == 1 then after_send else if n == 2 then after_read else no_expiration
expiration_of (negsuc n) = no_expiration

-- A URL and a key as they were read: a picture needs both.
abbrev pub pic_of : Option Bytes → Option Bytes → ProfilePic
pic_of none key = no_pic
pic_of (some url) none = no_pic
pic_of (some url) (some key) =
    if not (is_nil url) && (length key == 32) then record { url = url; key = key } else no_pic

unfoldable pub set_pair_if :
    Env → Bool → FieldPath → Scalar → FieldPath → Scalar → ConfigBase → Result ConfigBase
unfolding assign_scalar erase_field
set_pair_if env condition f1 v1 f2 v2 c =
    let both = (do c' ← assign_scalar env v1 f1 c; assign_scalar env v2 f2 c') in
    let neither = (do c' ← erase_field env f1 c; erase_field env f2 c') in
    if condition then both else neither

-- `data[k]`
abbrev pub top : Bytes → FieldPath
top k = record { inter_keys = []; last_key = k }

-- The strings and the integers at the top level.
unfoldable pub top_string : ConfigBase → Bytes → Option Bytes
unfolding lookup
top_string c k = get_string c (top k)

unfoldable pub top_int : ConfigBase → Bytes → Option ℤ
unfolding lookup
top_int c k = get_integer c (top k)

-- `static_cast<bool>` of an integer that may be missing.
abbrev pub bool_of : Option ℤ → Option Bool
bool_of none = none
bool_of (some i) = some (is_nonzero i)

-- The number of entries of a dict that may be missing.
abbrev pub entries : Option Dict → ℕ
entries none = 0
entries (some d) = length (items d)
