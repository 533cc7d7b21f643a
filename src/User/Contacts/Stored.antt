-- ===== src/User/Contacts/Stored.antt =====
-- What storing a contact keeps of it, and that it can be read back.
use libsession_util.Prelude.{
  ℕ, zero, suc, leb, length, arith, ◌≡◌, refl, ap, ap₂, sym, ◌∙◌, Bool, true, false, ◌&&◌, some, [],
  ◌∷◌, take, if◌then◌else◌,
}
use libsession_util.Prelude.Result.{Ensures}
use libsession_util.Prelude.Int.{ℤ, pos, negsuc}
use libsession_util.Keys.{Bytes, bytes, list_lt}
use libsession_util.Config.Data.{int, string, scalar}
use libsession_util.Config.Base.{ConfigBase, Env}
use libsession_util.Config.Base.Field.{FieldPath, subfield, as_int, is_positive}
use libsession_util.Config.Base.Field.Total.{Returns}
use libsession_util.Config.Base.Field.Refine.{view, path, HasOrder, Shows}
use libsession_util.Config.Base.Field.Rows.{
  Row, Fields, put_all, write_all, flag, positive_int, nonzero_int, nonempty_str, Changes,
  Changes-bind, assign_scalar-Writes, set_flag-Writes, set_positive_int-Writes,
  set_nonzero_int-Writes, set_nonempty_str-Writes, as_value,
}
use libsession_util.Config.Base.Field.Read.{strings, ints}
use libsession_util.Util.Text.{to_epoch_seconds, to_int}
use libsession_util.User.Types.{
  no_pic, has_pic, NotifyMode, defaulted, all, disabled, mentions_only, notify_number, notify_of,
  ExpirationMode, no_expiration, after_send, after_read, expiration_number, expiration_of, or_else,
}
use libsession_util.User.Types.Read.{
  when, set_pair_if-Changes, nonempty_str-read, flag-read, nonzero_int-read, positive_int-read,
  positive_or_zero, pic-read,
}
use libsession_util.User.Contacts.{
  ContactInfo, max_name_length, initial, for_contact, has_expiry, load_from, set_fields,
}

abbrev pub expires : ContactInfo → Bool
expires x = has_expiry x.exp_mode && is_positive x.exp_timer

-- The fields of a contact's dict: one without a value is erased.
abbrev pub contact_fields : ContactInfo → Fields
unfolding to_epoch_seconds
contact_fields x =
    (bytes "n", some (string (take max_name_length x.name)))
    ∷ (bytes "N", nonempty_str (take max_name_length x.nickname))
    ∷ (bytes "p", when (has_pic x.profile_picture) (string x.profile_picture.url))
    ∷ (bytes "q", when (has_pic x.profile_picture) (string x.profile_picture.key))
    ∷ (bytes "a", flag x.approved)
    ∷ (bytes "A", flag x.approved_me)
    ∷ (bytes "b", flag x.blocked)
    ∷ (bytes "+", nonzero_int x.priority)
    ∷ (bytes "@", positive_int (notify_number (for_contact x.notifications)))
    ∷ (bytes "!", positive_int (to_epoch_seconds x.mute_until))
    ∷ (bytes "e", when (expires x) (int (expiration_number x.exp_mode)))
    ∷ (bytes "E", when (expires x) (int x.exp_timer))
    ∷ (bytes "j", positive_int (to_epoch_seconds x.created))
    ∷ []

set_fields-Changes :
    (env : Env) (info : FieldPath) (x : ContactInfo)
    → Changes env (write_all (path info) (contact_fields x)) (set_fields env info x)
unfolding set_fields
set_fields-Changes env info x =
    let at : Bytes → FieldPath = λ k. subfield info k in
    Changes-bind env _ _ _ _ (assign_scalar-Writes env (at (bytes "n")) _) (
      Changes-bind env _ _ _ _ (set_nonempty_str-Writes env (at (bytes "N")) _) (
        Changes-bind env _ _ _ _
          (set_pair_if-Changes env (has_pic x.profile_picture) (at (bytes "p"))
            (string x.profile_picture.url) (at (bytes "q")) (string x.profile_picture.key))
          (Changes-bind env _ _ _ _ (set_flag-Writes env (at (bytes "a")) x.approved) (
            Changes-bind env _ _ _ _ (set_flag-Writes env (at (bytes "A")) x.approved_me) (
              Changes-bind env _ _ _ _ (set_flag-Writes env (at (bytes "b")) x.blocked) (
                Changes-bind env _ _ _ _ (set_nonzero_int-Writes env (at (bytes "+")) x.priority) (
                  Changes-bind env _ _ _ _
                    (set_positive_int-Writes env (at (bytes "@"))
                      (notify_number (for_contact x.notifications)))
                    (Changes-bind env _ _ _ _
                      (set_positive_int-Writes env (at (bytes "!")) (to_epoch_seconds x.mute_until))
                      (Changes-bind env _ _ _ _
                        (set_pair_if-Changes env (expires x) (at (bytes "e"))
                          (int (expiration_number x.exp_mode)) (at (bytes "E")) (int x.exp_timer))
                        (set_positive_int-Writes env (at (bytes "j"))
                          (to_epoch_seconds x.created)))))))))))

-- A contact as it comes back: names cut to the limit, a picture only if it is complete, a timer only
-- with a mode, and numbers in the ranges of their types.
abbrev pub stored : ContactInfo → ContactInfo
unfolding to_epoch_seconds to_int
stored x =
    let kept = expires x && is_positive (to_int x.exp_timer) in
    record x {
      name = take max_name_length x.name;
      nickname = take max_name_length x.nickname;
      profile_picture = if has_pic x.profile_picture then x.profile_picture else no_pic;
      priority = to_int x.priority;
      notifications = for_contact x.notifications;
      mute_until = to_epoch_seconds (positive_or_zero (to_epoch_seconds x.mute_until));
      exp_mode = if kept then x.exp_mode else no_expiration;
      exp_timer = if kept then to_int x.exp_timer else pos 0;
      created = to_epoch_seconds (positive_or_zero (to_epoch_seconds x.created));
    }

-- The mode and the timer as they are read back, where `b` tells whether the timer is positive.
abbrev mode_read : ExpirationMode → Bool → ExpirationMode
unfolding to_int
mode_read m b = expiration_of (
    to_int
      (or_else (as_int (as_value (when (has_expiry m && b) (int (expiration_number m))))) (pos 0)))

abbrev secs_read : ExpirationMode → ℤ → Bool → ℤ
unfolding to_int
secs_read m t b = to_int (or_else (as_int (as_value (when (has_expiry m && b) (int t)))) (pos 0))

exp_mode-read :
    (m : ExpirationMode) (t : ℤ) (b : Bool)
    → (if has_expiry (mode_read m b) && is_positive (secs_read m t b)
        then mode_read m b
        else no_expiration)
      ≡ (if (has_expiry m && b) && is_positive (to_int t) then m else no_expiration)
unfolding to_int
exp_mode-read no_expiration t b = refl
exp_mode-read after_send t true = refl
exp_mode-read after_send t false = refl
exp_mode-read after_read t true = refl
exp_mode-read after_read t false = refl

exp_timer-read :
    (m : ExpirationMode) (t : ℤ) (b : Bool)
    → (if has_expiry (mode_read m b) && is_positive (secs_read m t b)
        then secs_read m t b
        else pos 0)
      ≡ (if (has_expiry m && b) && is_positive (to_int t) then to_int t else pos 0)
unfolding to_int
exp_timer-read no_expiration t b = refl
exp_timer-read after_send t true = refl
exp_timer-read after_send t false = refl
exp_timer-read after_read t true = refl
exp_timer-read after_read t false = refl

notifications-read :
    (n : NotifyMode)
    → for_contact (
        notify_of (
          to_int
            (or_else (as_int (as_value (positive_int (notify_number (for_contact n))))) (pos 0))))
      ≡ for_contact n
unfolding to_int
notifications-read defaulted = refl
notifications-read all = refl
notifications-read disabled = refl
notifications-read mentions_only = refl

pub load_from-stored :
    (x : ContactInfo) (r : Row)
    → load_from
        (initial x.session_id)
        (strings (put_all (contact_fields x) r))
        (ints (put_all (contact_fields x) r))
      ≡ stored x
unfolding load_from list_lt
load_from-stored x r = λ i. record x {
  name = take max_name_length x.name;
  nickname = nonempty_str-read (take max_name_length x.nickname) i;
  profile_picture = pic-read x.profile_picture i;
  approved = flag-read x.approved i;
  approved_me = flag-read x.approved_me i;
  blocked = flag-read x.blocked i;
  priority = ap to_int (nonzero_int-read x.priority) i;
  notifications = notifications-read x.notifications i;
  mute_until = ap to_epoch_seconds (positive_int-read (to_epoch_seconds x.mute_until)) i;
  exp_mode = exp_mode-read x.exp_mode x.exp_timer (is_positive x.exp_timer) i;
  exp_timer = exp_timer-read x.exp_mode x.exp_timer (is_positive x.exp_timer) i;
  created = ap to_epoch_seconds (positive_int-read (to_epoch_seconds x.created)) i;
}

pub set_fields-lem :
    (env : Env) (info : FieldPath) (x : ContactInfo) (c : ConfigBase)
    → (HasOrder c
        → Ensures
            (Shows (write_all (path info) (contact_fields x) (view c)))
            (set_fields env info x c))
      × Returns env (set_fields env info x) c
unfolding Changes
set_fields-lem env info x c = set_fields-Changes env info x c

pub named :
    (x : ContactInfo) (r : Row)
    → put_all (contact_fields x) r (bytes "n")
      ≡ some (scalar (string (take max_name_length x.name)))
unfolding list_lt contact_fields
named x r = refl

abbrev pub in_seconds : ℤ → Bool
in_seconds (pos n) = leb n 9000000000
in_seconds (negsuc n) = false

-- A contact that storing leaves as it is: every value within its bounds, and the picture and the
-- timer complete or absent.
pub record IsStorable (x : ContactInfo) : Type 0 where
  pub name_fits : leb (length x.name) max_name_length ≡ true
  pub nickname_fits : leb (length x.nickname) max_name_length ≡ true
  pub pic_is_whole :
      (if has_pic x.profile_picture then x.profile_picture else no_pic) ≡ x.profile_picture
  pub priority_is_int : to_int x.priority ≡ x.priority
  pub not_for_groups : for_contact x.notifications ≡ x.notifications
  pub mute_until_in_seconds : in_seconds x.mute_until ≡ true
  pub created_in_seconds : in_seconds x.created ≡ true
  pub timer_is_int : to_int x.exp_timer ≡ x.exp_timer
  pub timer_with_mode : expires x ≡ false → (x.exp_mode ≡ no_expiration) × (x.exp_timer ≡ pos 0)

take_of_short : (s : Bytes) (n : ℕ) → leb (length s) n ≡ true → take n s ≡ s
take_of_short [] zero h = refl
take_of_short [] (suc n) h = refl
take_of_short (c ∷ s) zero h = absurd (ground arith)
take_of_short (c ∷ s) (suc n) h = ap (λ t. c ∷ t) (take_of_short s n (ground arith))

seconds_kept :
    (t : ℤ) → in_seconds t ≡ true → to_epoch_seconds (positive_or_zero (to_epoch_seconds t)) ≡ t
unfolding to_epoch_seconds
seconds_kept (pos n) h = ground arith
seconds_kept (negsuc n) h = absurd cc

and_twice : (a b : Bool) → ((a && b) && b) ≡ (a && b)
and_twice true true = refl
and_twice true false = refl
and_twice false b = refl

-- What is chosen under a test that holds, or that has the other value where it does not.
chosen {ℓ} : {A : Type ℓ} (b : Bool) (a a' : A) → (b ≡ false → a ≡ a') → (if b then a else a') ≡ a
chosen true a a' h = refl
chosen false a a' h = sym (h refl)

kept_of_storable :
    (x : ContactInfo)
    → to_int x.exp_timer ≡ x.exp_timer
    → (expires x && is_positive (to_int x.exp_timer)) ≡ expires x
kept_of_storable x e =
    ap (λ t. expires x && is_positive t) e
    ∙ and_twice (has_expiry x.exp_mode) (is_positive x.exp_timer)

-- Where every value of a contact is within its bounds, storing it changes nothing of it.
pub stored_of_storable : (x : ContactInfo) → IsStorable x → stored x ≡ x
unfolding stored
stored_of_storable x h =
    let kept = kept_of_storable x h.timer_is_int in
    λ i. record x {
      name = take_of_short x.name max_name_length h.name_fits i;
      nickname = take_of_short x.nickname max_name_length h.nickname_fits i;
      profile_picture = h.pic_is_whole i;
      priority = h.priority_is_int i;
      notifications = h.not_for_groups i;
      mute_until = seconds_kept x.mute_until h.mute_until_in_seconds i;
      exp_mode =
          (ap (λ b. if b then x.exp_mode else no_expiration) kept
              ∙ chosen (expires x) x.exp_mode no_expiration (λ e. (h.timer_with_mode e).0))
            i;
      exp_timer =
          (ap₂ (λ b t. if b then t else pos 0) kept h.timer_is_int
              ∙ chosen (expires x) x.exp_timer (pos 0) (λ e. (h.timer_with_mode e).1))
            i;
      created = seconds_kept x.created h.created_in_seconds i;
    }
