-- ===== src/Tests/UserTests.antt =====
-- The configs of a user at concrete inputs.
use libsession_util.Prelude.{
  ℕ, ◌+◌, ◌-◌, ◌*◌, ◌/◌, ◌%◌, replicate, ◌≡◌, refl, Bool, true, false, ◌&&◌, ◌||◌, none, some, [],
  ◌∷◌, leb, if◌then◌else◌,
}
use libsession_util.Prelude.Result.{ok, err, invalid_argument, Ensures}
use libsession_util.Prelude.Int.{pos}
use libsession_util.Order.{same}
use libsession_util.Keys.{Bytes, bytes, bytes_ord, list_lt}
use libsession_util.Config.Data.{int, string, scalar, dict, empty, entry}
use libsession_util.Containers.SortedMap
use libsession_util.Config.Message.Read.{is_set}
use libsession_util.Config.Base.{ConfigBase}
use libsession_util.Config.Base.Field.{get_clean}
use libsession_util.Config.Base.Field.Refine.{HasOrder}
use libsession_util.Config.Prune.Laws.{leaf}
use libsession_util.Util.Text.{to_int}
use libsession_util.User.Ids.{Oxenc}
use libsession_util.User.Types.{no_pic, or_else}
use libsession_util.User.Types.Read.{positive_or_zero}
use libsession_util.User.Contacts
use libsession_util.User.Contacts.{ContactInfo, initial}
use libsession_util.User.Contacts.Iterator.{contacts_from}
use libsession_util.User.Contacts.Laws
use libsession_util.User.Contacts.Stored.{stored, IsStorable, stored_of_storable}
use libsession_util.User.Profile.{
  set_name, set_profile_pic, set_nts_priority, set_nts_expiry, set_blinded_msgreqs,
}
use libsession_util.User.Profile.Laws.{profile, name_or_none, whole, positive, profile-setters}
use libsession_util.User.Local.{
  name_no_preview, classic_dark, green, get_setting, c_str, set_notification_content,
  set_ios_notification_sound, set_theme, set_theme_primary_color, set_setting,
}
use libsession_util.User.Local.Laws.{
  settings, settings-setters, enabled_only, get_setting-set_setting,
}
use libsession_util.User.Convos
use libsession_util.User.Convos.{Convo, one_to_one, group}
use libsession_util.User.Convos.Laws.{kept_read, read_on_record, get-set_convo}
use libsession_util.Tests.BaseTests.{toy_env, fresh, dirtied, dirty_fresh}

-- Hex, in lower case.
abbrev digit_value : ℕ → ℕ
digit_value c = if leb c b'9' then c - b'0' else c - b'a' + 10

abbrev hex_digit : ℕ → Bool
hex_digit c = (leb b'0' c && leb c b'9') || (leb b'a' c && leb c b'f')

abbrev all_hex : Bytes → Bool
all_hex [] = true
all_hex (c ∷ s) = hex_digit c && all_hex s

abbrev unhex : Bytes → Bytes
unhex [] = []
unhex (c ∷ []) = []
unhex (c ∷ d ∷ s) = (digit_value c * 16 + digit_value d) ∷ unhex s

abbrev toy_hex : Oxenc
toy_hex = record {
  is_hex = all_hex;
  from_hex = unhex;
  to_hex = λ s. s;
  is_base64 = λ s. false;
  from_base64 = λ s. s;
  is_base32z = λ s. false;
  from_base32z = λ s. s;
}

abbrev alice_id : Bytes
alice_id = bytes "05aa00000000000000000000000000000000000000000000000000000000000000"

abbrev bob_id : Bytes
bob_id = bytes "05bb00000000000000000000000000000000000000000000000000000000000000"

abbrev alice : ContactInfo
alice = record (initial alice_id) {
  name = bytes "Alice";
  approved = true;
  created = pos 1700000000;
}

get-set_example :
    (c' : ConfigBase) × (Contacts.set toy_hex toy_env alice fresh ≡ ok c')
    × HasOrder c'
    × (Contacts.get toy_hex c' alice_id ≡ ok (some (stored alice)))
unfolding list_lt
get-set_example = Laws.get-set toy_hex toy_env alice fresh refl tt (dirtied, dirty_fresh)

-- A config in which Bob is a contact.
abbrev knows_bob : ConfigBase
knows_bob = record fresh {
  config = record fresh.config {
    data_ =
        entry (bytes "c")
          (dict (
            entry (unhex bob_id) (dict (entry (bytes "n") (scalar (string (bytes "Bob"))) empty))
              empty))
          empty;
  };
}

other_contact_kept :
    Ensures
      (λ c'. Contacts.get toy_hex c' bob_id ≡ Contacts.get toy_hex knows_bob bob_id)
      (Contacts.set toy_hex toy_env alice knows_bob)
unfolding list_lt leaf libsession_util.Config.Data.find libsession_util.Containers.SortedMap.find
other_contact_kept =
    Laws.get_other-set toy_hex toy_env alice knows_bob bob_id (scalar (string (bytes "Bob")))
      (tt, (tt, (tt, tt, tt), tt), tt) refl refl refl

erased_bob :
    Ensures
      (λ r.
        HasOrder r.1
        × (Contacts.get toy_hex r.1 bob_id ≡ ok none)
        × (r.0 ≡ is_set (get_clean knows_bob (Contacts.contact_field (unhex bob_id)))))
      (Contacts.erase toy_hex toy_env bob_id knows_bob)
erased_bob = Laws.get-erase toy_hex toy_env bob_id knows_bob (tt, (tt, (tt, tt, tt), tt), tt)

alice-IsStorable : IsStorable alice
unfolding to_int
alice-IsStorable = record {
  name_fits = refl;
  nickname_fits = refl;
  pic_is_whole = refl;
  priority_is_int = refl;
  not_for_groups = refl;
  mute_until_in_seconds = refl;
  created_in_seconds = refl;
  timer_is_int = refl;
  timer_with_mode = λ e. (refl, refl);
}

alice_kept : stored alice ≡ alice
alice_kept = stored_of_storable alice alice-IsStorable

profile-setters_example :
    Ensures
      (λ c'. profile c' ≡ record (profile fresh) { name = name_or_none (bytes "Alice") })
      (set_name toy_env (bytes "Alice") fresh)
    × Ensures
        (λ c'.
          profile c' ≡ record (profile fresh) { pic = if whole no_pic then no_pic else no_pic })
        (set_profile_pic toy_env no_pic fresh)
    × Ensures
        (λ c'. profile c' ≡ record (profile fresh) { nts_priority = to_int (pos 2) })
        (set_nts_priority toy_env (pos 2) fresh)
    × Ensures
        (λ c'. profile c' ≡ record (profile fresh) { nts_expiry = positive (pos 60) })
        (set_nts_expiry toy_env (pos 60) fresh)
    × Ensures
        (λ c'. profile c' ≡ record (profile fresh) { blinded_msgreqs = some false })
        (set_blinded_msgreqs toy_env (some false) fresh)
profile-setters_example =
    profile-setters toy_env fresh (bytes "Alice") no_pic (pos 2) (pos 60) (some false) tt

settings_kept :
    Ensures
      (λ c'. settings c' ≡ record (settings fresh) { content = name_no_preview })
      (set_notification_content toy_env name_no_preview fresh)
    × Ensures
        (λ c'. settings c' ≡ record (settings fresh) { sound = positive_or_zero (pos 3) })
        (set_ios_notification_sound toy_env (pos 3) fresh)
    × Ensures
        (λ c'. settings c' ≡ record (settings fresh) { chosen_theme = classic_dark })
        (set_theme toy_env classic_dark fresh)
    × Ensures
        (λ c'. settings c' ≡ record (settings fresh) { color = green })
        (set_theme_primary_color toy_env green fresh)
settings_kept = settings-setters toy_env fresh name_no_preview (pos 3) classic_dark green tt

get_setting-set_setting_example :
    Ensures
      (λ c'.
        (j : Bytes)
        → get_setting c' j ≡ (
            if same (c_str j) (bytes "dark")
            then enabled_only (some false)
            else get_setting fresh j))
      (set_setting toy_env (bytes "dark") (some false) fresh)
get_setting-set_setting_example =
    get_setting-set_setting toy_env fresh (bytes "dark") (some false) tt

abbrev read_alice : Convo
read_alice = record {
  id = alice_id;
  base = record { last_read = pos 1700000000000; unread = false };
}

get-set_convo_example :
    (c' : ConfigBase) × (Convos.set toy_hex one_to_one toy_env (pos 1700000500000) read_alice fresh
      ≡ ok c')
    × HasOrder c'
    × ((read_alice.base.unread
            || is_set (
                kept_read
                  (pos 1700000500000)
                  read_alice.base
                  (read_on_record toy_hex one_to_one fresh read_alice.id)))
          ≡ true
        → Convos.get toy_hex one_to_one c' read_alice.id
          ≡ ok (
              some (record read_alice {
                base = record {
                  last_read =
                      or_else
                        (kept_read
                          (pos 1700000500000)
                          read_alice.base
                          (read_on_record toy_hex one_to_one fresh read_alice.id))
                        (pos 0);
                  unread = read_alice.base.unread;
                };
              })))
unfolding list_lt
get-set_convo_example =
    get-set_convo toy_hex one_to_one toy_env (pos 1700000500000) read_alice fresh refl tt
      (dirtied, dirty_fresh)

abbrev digit_char : ℕ → ℕ
digit_char n = if leb n 9 then b'0' + n else b'a' + (n - 10)

abbrev hex : Bytes → Bytes
hex [] = []
hex (c ∷ s) = digit_char (c / 16) ∷ digit_char (c % 16) ∷ hex s

abbrev real_hex : Oxenc
real_hex = record toy_hex { to_hex = hex }

-- An iteration skips a short key, and throws at a key of 33 bytes that does not begin with 5.
iteration_runs :
    (contacts_from real_hex (
        entry (bytes "x") (dict empty) (
          entry
            (unhex bob_id)
            (dict (entry (bytes "n") (scalar (string (bytes "Bob"))) empty))
            empty))
      ≡ ok (record (initial bob_id) { name = bytes "Bob" } ∷ []))
    × (contacts_from real_hex (entry (replicate 33 3) (dict empty) empty) ≡ err invalid_argument)
unfolding contacts_from list_lt SortedMap.find
iteration_runs = (refl, refl)
