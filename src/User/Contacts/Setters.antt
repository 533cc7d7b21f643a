-- ===== src/User/Contacts/Setters.antt =====
-- The setters of `Contacts` for one value of a contact (src/config/contacts.cpp).
use libsession_util.Prelude.{Bool, if◌then◌else◌}
use libsession_util.Prelude.Result.{Result, ok}
use libsession_util.Prelude.Int.{ℤ, pos}
use libsession_util.Keys.{Bytes}
use libsession_util.Config.Base.{ConfigBase, Env}
use libsession_util.Util.Text.{to_epoch_seconds}
use libsession_util.User.Ids.{Oxenc}
use libsession_util.User.Types.{ProfilePic, NotifyMode, ExpirationMode}
use libsession_util.User.Contacts
use libsession_util.User.Contacts.{change_contact, has_expiry}

module _ (ox : Oxenc) (env : Env) (session_id : Bytes) where
  unfoldable pub set_name : Bytes → ConfigBase → Result ConfigBase
  unfolding change_contact Contacts.set_name
  set_name name c = change_contact ox env session_id (λ x. ok (Contacts.set_name name x)) c

  unfoldable pub set_nickname : Bytes → ConfigBase → Result ConfigBase
  unfolding change_contact Contacts.set_nickname
  set_nickname nickname c = change_contact ox env session_id (Contacts.set_nickname nickname) c

  unfoldable pub set_nickname_truncated : Bytes → ConfigBase → Result ConfigBase
  unfolding change_contact Contacts.set_nickname_truncated
  set_nickname_truncated nickname c =
      change_contact ox env session_id (Contacts.set_nickname_truncated nickname) c

  unfoldable pub set_profile_pic : ProfilePic → ConfigBase → Result ConfigBase
  unfolding change_contact
  set_profile_pic pic c =
      change_contact ox env session_id (λ x. ok (record x { profile_picture = pic })) c

  unfoldable pub set_approved : Bool → ConfigBase → Result ConfigBase
  unfolding change_contact
  set_approved approved c =
      change_contact ox env session_id (λ x. ok (record x { approved = approved })) c

  unfoldable pub set_approved_me : Bool → ConfigBase → Result ConfigBase
  unfolding change_contact
  set_approved_me approved_me c =
      change_contact ox env session_id (λ x. ok (record x { approved_me = approved_me })) c

  unfoldable pub set_blocked : Bool → ConfigBase → Result ConfigBase
  unfolding change_contact
  set_blocked blocked c =
      change_contact ox env session_id (λ x. ok (record x { blocked = blocked })) c

  unfoldable pub set_priority : ℤ → ConfigBase → Result ConfigBase
  unfolding change_contact
  set_priority priority c =
      change_contact ox env session_id (λ x. ok (record x { priority = priority })) c

  unfoldable pub set_notifications : NotifyMode → ConfigBase → Result ConfigBase
  unfolding change_contact
  set_notifications notifications c =
      change_contact ox env session_id (λ x. ok (record x { notifications = notifications })) c

  unfoldable pub set_expiry : ExpirationMode → ℤ → ConfigBase → Result ConfigBase
  unfolding change_contact
  set_expiry mode timer c =
      change_contact ox env session_id
        (λ x.
          ok (record x { exp_mode = mode; exp_timer = if has_expiry mode then timer else pos 0 }))
        c

  unfoldable pub set_created : ℤ → ConfigBase → Result ConfigBase
  unfolding change_contact to_epoch_seconds
  set_created timestamp c =
      change_contact ox env session_id (λ x. ok (record x { created = to_epoch_seconds timestamp }))
        c
