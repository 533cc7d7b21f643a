-- ===== src/User/Contacts.antt =====
-- The contacts of an account (src/config/contacts.cpp, include/session/config/contacts.hpp).
pub mod Setters
pub mod Iterator
pub mod Stored
pub mod Laws
use libsession_util.Prelude.{
  ℕ, Bool, true, false, not, ◌&&◌, ◌||◌, ◌==◌, Option, none, some, List, [], ◌∷◌, ltb, leb, length,
  take, if◌then◌else◌,
}
use libsession_util.Prelude.Result.{Result, ok, guard, invalid_argument, ◌>>=◌, ◌>>◌}
use libsession_util.Prelude.Int.{ℤ, pos, negsuc}
use libsession_util.Keys.{Bytes, bytes, list_lt}
use libsession_util.Config.Data.{Scalar, int, string, is_nil, Dict, items}
use libsession_util.Config.Message.Read.{is_set}
use libsession_util.Config.Base.{ConfigBase, Env}
use libsession_util.Config.Base.Field.{
  FieldPath, subfield, as_dict, get_clean, maybe_string, maybe_int, assign_scalar, erase_field,
  set_flag, set_positive_int, set_nonzero_int, set_nonempty_str, is_positive, is_nonzero,
}
use libsession_util.Util.Text.{utf8_truncate, to_epoch_seconds, to_int}
use libsession_util.User.Ids.{Oxenc, check_session_id, session_id_to_bytes, prefix_05}
use libsession_util.User.Types.{
  ProfilePic, no_pic, has_pic, NotifyMode, defaulted, all, disabled, mentions_only, notify_number,
  notify_of, ExpirationMode, no_expiration, after_send, after_read, expiration_number,
  expiration_of, or_else, entries, pic_of, set_pair_if,
}

-- `contact_info`; times are in seconds.
pub record ContactInfo : Type 0 where
  pub session_id : Bytes
  pub name : Bytes
  pub nickname : Bytes
  pub profile_picture : ProfilePic
  pub approved : Bool
  pub approved_me : Bool
  pub blocked : Bool
  pub priority : ℤ
  pub notifications : NotifyMode
  pub mute_until : ℤ
  pub exp_mode : ExpirationMode
  pub exp_timer : ℤ
  pub created : ℤ

abbrev pub max_name_length : ℕ
max_name_length = 100

-- The member initialisers.
abbrev pub initial : Bytes → ContactInfo
initial sid = record {
  session_id = sid;
  name = [];
  nickname = [];
  profile_picture = no_pic;
  approved = false;
  approved_me = false;
  blocked = false;
  priority = pos 0;
  notifications = defaulted;
  mute_until = pos 0;
  exp_mode = no_expiration;
  exp_timer = pos 0;
  created = pos 0;
}

-- `mentions_only` is for groups; for a contact it becomes `all`.
abbrev pub for_contact : NotifyMode → NotifyMode
for_contact mode = elim mode [ mentions_only ↦ all | m ↦ m ]

abbrev pub has_expiry : ExpirationMode → Bool
has_expiry mode = elim mode [ no_expiration ↦ false | _ ↦ true ]

-- `contact_info::load`, which reads strings and integers of a dict.
unfoldable pub load_from : ContactInfo → (Bytes → Option Bytes) → (Bytes → Option ℤ) → ContactInfo
unfolding to_epoch_seconds to_int
load_from x str num =
    let mode = expiration_of (to_int (or_else (num (bytes "e")) (pos 0))) in
    let secs = to_int (or_else (num (bytes "E")) (pos 0)) in
    let expires = has_expiry mode && is_positive secs in
    record x {
      name = or_else (str (bytes "n")) [];
      nickname = or_else (str (bytes "N")) [];
      profile_picture = pic_of (str (bytes "p")) (str (bytes "q"));
      approved = is_nonzero (or_else (num (bytes "a")) (pos 0));
      approved_me = is_nonzero (or_else (num (bytes "A")) (pos 0));
      blocked = is_nonzero (or_else (num (bytes "b")) (pos 0));
      priority = to_int (or_else (num (bytes "+")) (pos 0));
      notifications = for_contact (notify_of (to_int (or_else (num (bytes "@")) (pos 0))));
      mute_until = to_epoch_seconds (or_else (num (bytes "!")) (pos 0));
      exp_mode = if expires then mode else no_expiration;
      exp_timer = if expires then secs else pos 0;
      created = to_epoch_seconds (or_else (num (bytes "j")) (pos 0));
    }

unfoldable pub load : ContactInfo → Dict → ContactInfo
unfolding load_from maybe_string maybe_int
load x info_dict = load_from x (maybe_string info_dict) (maybe_int info_dict)

-- `contact_info::set_name`, `set_nickname`, `set_nickname_truncated`.
unfoldable pub set_name : Bytes → ContactInfo → ContactInfo
unfolding utf8_truncate
set_name n x = record x {
  name = if ltb max_name_length (length n) then utf8_truncate n max_name_length else n;
}

unfoldable pub set_nickname : Bytes → ContactInfo → Result ContactInfo
set_nickname n x = do
  guard (leb (length n) max_name_length) invalid_argument
  ok (record x { nickname = n })

unfoldable pub set_nickname_truncated : Bytes → ContactInfo → Result ContactInfo
unfolding utf8_truncate set_nickname
set_nickname_truncated n x = set_nickname (utf8_truncate n max_name_length) x

-- `data["c"]`, `data["c"][pk]`
abbrev pub contacts_field : FieldPath
contacts_field = record { inter_keys = []; last_key = bytes "c" }

abbrev pub contact_field : Bytes → FieldPath
contact_field pk = subfield contacts_field pk

-- The statements of `Contacts::set` after the checks.
unfoldable pub set_fields : Env → FieldPath → ContactInfo → ConfigBase → Result ConfigBase
unfolding assign_scalar set_nonempty_str set_pair_if set_flag set_nonzero_int set_positive_int
    to_epoch_seconds
set_fields env info x c = do
  c1 ← assign_scalar env (string (take max_name_length x.name)) (subfield info (bytes "n")) c
  c2 ← set_nonempty_str env (subfield info (bytes "N")) (take max_name_length x.nickname) c1
  c3 ←
      set_pair_if env (has_pic x.profile_picture) (subfield info (bytes "p"))
        (string x.profile_picture.url) (subfield info (bytes "q")) (string x.profile_picture.key) c2
  c4 ← set_flag env (subfield info (bytes "a")) x.approved c3
  c5 ← set_flag env (subfield info (bytes "A")) x.approved_me c4
  c6 ← set_flag env (subfield info (bytes "b")) x.blocked c5
  c7 ← set_nonzero_int env (subfield info (bytes "+")) x.priority c6
  c8 ←
      set_positive_int env (subfield info (bytes "@")) (notify_number (for_contact x.notifications))
        c7
  c9 ← set_positive_int env (subfield info (bytes "!")) (to_epoch_seconds x.mute_until) c8
  c10 ←
      set_pair_if env (has_expiry x.exp_mode && is_positive x.exp_timer) (subfield info (bytes "e"))
        (int (expiration_number x.exp_mode)) (subfield info (bytes "E")) (int x.exp_timer) c9
  set_positive_int env (subfield info (bytes "j")) (to_epoch_seconds x.created) c10

module _ (ox : Oxenc) where
  -- `explicit contact_info(std::string sid)`
  unfoldable pub new_contact : Bytes → Result ContactInfo
  unfolding check_session_id
  new_contact sid = do check_session_id ox sid prefix_05; ok (initial sid)

  -- The contact of a dict, if it was there.
  abbrev pub load_found : Bytes → Option Dict → Result (Option ContactInfo)
  unfolding new_contact load
  load_found pubkey_hex none = ok none
  load_found pubkey_hex (some info_dict) = do
    x ← new_contact pubkey_hex
    ok (some (load x info_dict))

  unfoldable pub get : ConfigBase → Bytes → Result (Option ContactInfo)
  unfolding session_id_to_bytes get_clean load_found
  get c pubkey_hex = do
    pubkey ← session_id_to_bytes ox pubkey_hex prefix_05
    load_found pubkey_hex (as_dict (get_clean c (contact_field pubkey)))

  unfoldable pub get_or_construct : ConfigBase → Bytes → Result ContactInfo
  unfolding get new_contact
  get_or_construct c pubkey_hex = do
    maybe ← get c pubkey_hex
    elim maybe [ some x ↦ ok x | none ↦ new_contact pubkey_hex ]

  module _ (env : Env) where
    unfoldable pub set : ContactInfo → ConfigBase → Result ConfigBase
    unfolding session_id_to_bytes set_fields
    set x c = do
      pk ← session_id_to_bytes ox x.session_id prefix_05
      set_fields env (contact_field pk) x c

    -- The setters of one value: the contact, or a new one, is changed and stored.
    unfoldable pub change_contact :
        Bytes → (ContactInfo → Result ContactInfo) → ConfigBase → Result ConfigBase
    unfolding get_or_construct set
    change_contact session_id f c = do x ← get_or_construct c session_id; x' ← f x; set x' c

    -- `erase`: whether the contact was there, and the object afterwards.
    unfoldable pub erase : Bytes → ConfigBase → Result (Bool × ConfigBase)
    unfolding session_id_to_bytes get_clean erase_field
    erase session_id c = do
      pk ← session_id_to_bytes ox session_id prefix_05
      c' ← erase_field env (contact_field pk) c
      ok (is_set (get_clean c (contact_field pk)), c')

-- `size`
unfoldable pub size : ConfigBase → ℕ
unfolding get_clean
size c = entries (as_dict (get_clean c contacts_field))
