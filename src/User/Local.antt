-- ===== src/User/Local.antt =====
-- The settings of one device, which are never pushed (src/config/local.cpp, include/session/config/
-- local.hpp, theme.hpp, notify.hpp).
pub mod Laws
use libsession_util.Prelude.{
  ℕ, Bool, true, false, not, ◌==◌, Option, none, some, List, [], ◌∷◌, length, if◌then◌else◌,
}
use libsession_util.Prelude.Result.{Result, ok}
use libsession_util.Prelude.Int.{ℤ, pos, negsuc}
use libsession_util.Keys.{Bytes, bytes}
use libsession_util.Config.Data.{Dict}
use libsession_util.Config.Base.{ConfigBase, Env}
use libsession_util.Config.Base.Field.{
  FieldPath, subfield, as_dict, get_clean, maybe_int, erase_field, set_flag, set_positive_int,
  is_nonzero,
}
use libsession_util.Util.Text.{to_int}
use libsession_util.User.Types.{or_else, top, top_int, bool_of, entries}

-- `notify_content`, `theme`, `theme_primary_color`.
pub data NotifyContent : Type 0 where
  defaulted name_and_preview name_no_preview no_name_no_preview : NotifyContent

pub data Theme : Type 0 where
  defaulted_theme classic_dark classic_light ocean_dark ocean_light : Theme

pub data PrimaryColor : Type 0 where
  defaulted_color green blue yellow pink purple orange red : PrimaryColor

abbrev pub content_number : NotifyContent → ℤ
content_number defaulted = pos 0
content_number name_and_preview = pos 1
content_number name_no_preview = pos 2
content_number no_name_no_preview = pos 3

abbrev pub content_of : ℤ → NotifyContent
content_of (pos n) =
    if n == 1
    then name_and_preview
    else if n == 2
    then name_no_preview
    else if n == 3
    then no_name_no_preview
    else defaulted
content_of (negsuc n) = defaulted

abbrev pub theme_number : Theme → ℤ
theme_number defaulted_theme = pos 0
theme_number classic_dark = pos 1
theme_number classic_light = pos 2
theme_number ocean_dark = pos 3
theme_number ocean_light = pos 4

abbrev pub theme_of : ℤ → Theme
theme_of (pos n) =
    if n == 1
    then classic_dark
    else if n == 2
    then classic_light
    else if n == 3
    then ocean_dark
    else if n == 4
    then ocean_light
    else defaulted_theme
theme_of (negsuc n) = defaulted_theme

abbrev pub color_number : PrimaryColor → ℤ
color_number defaulted_color = pos 0
color_number green = pos 1
color_number blue = pos 2
color_number yellow = pos 3
color_number pink = pos 4
color_number purple = pos 5
color_number orange = pos 6
color_number red = pos 7

abbrev pub color_of : ℤ → PrimaryColor
color_of (pos n) =
    if n == 1
    then green
    else if n == 2
    then blue
    else if n == 3
    then yellow
    else if n == 4
    then pink
    else if n == 5
    then purple
    else if n == 6
    then orange
    else if n == 7
    then red
    else defaulted_color
color_of (negsuc n) = defaulted_color

abbrev pub settings_field : FieldPath
settings_field = top (bytes "settings")

unfoldable pub get_notification_content : ConfigBase → NotifyContent
unfolding top_int to_int
get_notification_content c =
    content_of (to_int (or_else (top_int c (bytes "notify_content")) (pos 0)))

unfoldable pub get_ios_notification_sound : ConfigBase → ℤ
unfolding top_int
get_ios_notification_sound c = or_else (top_int c (bytes "notify_sound")) (pos 0)

unfoldable pub get_theme : ConfigBase → Theme
unfolding top_int to_int
get_theme c = theme_of (to_int (or_else (top_int c (bytes "theme")) (pos 0)))

unfoldable pub get_theme_primary_color : ConfigBase → PrimaryColor
unfolding top_int to_int
get_theme_primary_color c =
    color_of (to_int (or_else (top_int c (bytes "theme_primary_color")) (pos 0)))

abbrev pub setting_in : Option Dict → Bytes → Option Bool
unfolding maybe_int
setting_in none key = none
setting_in (some d) key = bool_of (maybe_int d key)

-- What a `const char*` to the bytes of a string reads as: the bytes up to the first 0.
unfoldable pub c_str : Bytes → Bytes
c_str [] = []
c_str (b ∷ bs) = let rest = c_str bs in if b == 0 then [] else b ∷ rest

-- The key goes to `maybe_int` as a C string.
unfoldable pub get_setting : ConfigBase → Bytes → Option Bool
unfolding get_clean setting_in c_str
get_setting c key = setting_in (as_dict (get_clean c settings_field)) (c_str key)

unfoldable pub size_settings : ConfigBase → ℕ
unfolding get_clean
size_settings c = entries (as_dict (get_clean c settings_field))

module _ (env : Env) where
  unfoldable pub set_notification_content : NotifyContent → ConfigBase → Result ConfigBase
  unfolding set_positive_int
  set_notification_content value c =
      set_positive_int env (top (bytes "notify_content")) (content_number value) c

  unfoldable pub set_ios_notification_sound : ℤ → ConfigBase → Result ConfigBase
  unfolding set_positive_int
  set_ios_notification_sound value c = set_positive_int env (top (bytes "notify_sound")) value c

  unfoldable pub set_theme : Theme → ConfigBase → Result ConfigBase
  unfolding set_positive_int
  set_theme value c = set_positive_int env (top (bytes "theme")) (theme_number value) c

  unfoldable pub set_theme_primary_color : PrimaryColor → ConfigBase → Result ConfigBase
  unfolding set_positive_int
  set_theme_primary_color value c =
      set_positive_int env (top (bytes "theme_primary_color")) (color_number value) c

  unfoldable pub set_setting : Bytes → Option Bool → ConfigBase → Result ConfigBase
  unfolding set_flag erase_field
  set_setting key none c = erase_field env (subfield settings_field key) c
  set_setting key (some enabled) c = set_flag env (subfield settings_field key) enabled c
