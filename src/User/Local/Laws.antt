-- ===== src/User/Local/Laws.antt =====
-- Each setter of the device's settings sets one of them; a setting that is switched off is not kept
-- apart from one that was never made.
use libsession_util.Prelude.{
  ◌≡◌, refl, ap, sym, ◌∙◌, inl, inr, Bool-cases, Bool, true, false, Option, none, some, [], ◌∷◌,
  if◌then◌else◌,
}
use libsession_util.Prelude.Result.{Ensures, Ensures-map}
use libsession_util.Prelude.Int.{ℤ, pos}
use libsession_util.Order.{same}
use libsession_util.Keys.{Bytes, bytes, bytes_ord, list_lt}
use libsession_util.Config.Data.{Dict, Scalar}
use libsession_util.Config.Base.{ConfigBase, Env}
use libsession_util.Config.Base.Field.{subfield, as_int, as_dict, get_clean, set_positive_int}
use libsession_util.Config.Base.Field.Refine.{view, path, HasOrder}
use libsession_util.Config.Base.Field.Rows.{
  Row, row, put_row, write_all, as_value, row-write_all, Changes, flag, positive_int,
  set_positive_int-Writes, set_flag-Writes, erase_field-Writes,
}
use libsession_util.Config.Base.Field.Read.{ints, maybe_int-row, row_of_no_dict, row_of_dict}
use libsession_util.Util.Text.{to_int}
use libsession_util.User.Types.{or_else, top, bool_of}
use libsession_util.User.Types.Read.{top_int-row, positive_int-read, positive_or_zero}
use libsession_util.User.Local.{
  NotifyContent, defaulted, name_and_preview, name_no_preview, no_name_no_preview, Theme,
  defaulted_theme, classic_dark, classic_light, ocean_dark, ocean_light, PrimaryColor,
  defaulted_color, green, blue, yellow, pink, purple, orange, red, content_number, content_of,
  theme_number, theme_of, color_number, color_of, settings_field, get_notification_content,
  get_ios_notification_sound, get_theme, get_theme_primary_color, setting_in, get_setting, c_str,
  set_notification_content, set_ios_notification_sound, set_theme, set_theme_primary_color,
  set_setting,
}

-- The settings that have a getter of their own.
pub record Settings : Type 0 where
  pub content : NotifyContent
  pub sound : ℤ
  pub chosen_theme : Theme
  pub color : PrimaryColor

pub settings : ConfigBase → Settings
settings c = record {
  content = get_notification_content c;
  sound = get_ios_notification_sound c;
  chosen_theme = get_theme c;
  color = get_theme_primary_color c;
}

abbrev settings_from : (Bytes → Option ℤ) → Settings
unfolding to_int
settings_from num = record {
  content = content_of (to_int (or_else (num (bytes "notify_content")) (pos 0)));
  sound = or_else (num (bytes "notify_sound")) (pos 0);
  chosen_theme = theme_of (to_int (or_else (num (bytes "theme")) (pos 0)));
  color = color_of (to_int (or_else (num (bytes "theme_primary_color")) (pos 0)));
}

settings-row : (c : ConfigBase) → settings c ≡ settings_from (ints (row [] (view c)))
unfolding settings settings_from get_notification_content get_ios_notification_sound get_theme
    get_theme_primary_color
settings-row c = ap settings_from (top_int-row c)

settings_after :
    (env : Env) (key : Bytes) (val : ℤ) (f : Settings → Settings)
    → ((r : Row)
        → settings_from (ints (put_row key (positive_int val) r)) ≡ f (settings_from (ints r)))
    → (c : ConfigBase) → HasOrder c
    → Ensures (λ c'. settings c' ≡ f (settings c)) (set_positive_int env (top key) val c)
unfolding Changes
settings_after env key val f step c h =
    Ensures-map (set_positive_int env (top key) val c)
      (λ c' s.
        settings-row c'
        ∙ ap (λ (r : Row). settings_from (ints r))
            (ap (row []) s.1 ∙ row-write_all [] ((key, positive_int val) ∷ []) (view c))
        ∙ step (row [] (view c))
        ∙ ap f (sym (settings-row c)))
      ((set_positive_int-Writes env (top key) val c).0 h)

content-read :
    (x : NotifyContent)
    → content_of (to_int (or_else (as_int (as_value (positive_int (content_number x)))) (pos 0)))
      ≡ x
unfolding to_int
content-read defaulted = refl
content-read name_and_preview = refl
content-read name_no_preview = refl
content-read no_name_no_preview = refl

theme-read :
    (x : Theme)
    → theme_of (to_int (or_else (as_int (as_value (positive_int (theme_number x)))) (pos 0))) ≡ x
unfolding to_int
theme-read defaulted_theme = refl
theme-read classic_dark = refl
theme-read classic_light = refl
theme-read ocean_dark = refl
theme-read ocean_light = refl

color-read :
    (x : PrimaryColor)
    → color_of (to_int (or_else (as_int (as_value (positive_int (color_number x)))) (pos 0))) ≡ x
unfolding to_int
color-read defaulted_color = refl
color-read green = refl
color-read blue = refl
color-read yellow = refl
color-read pink = refl
color-read purple = refl
color-read orange = refl
color-read red = refl

-- On a config whose data is in order, each of these setters that returns leaves the value that it
-- was given for the getter - no sound for a number that is not positive - and the other getters
-- return what they returned before.
pub settings-setters :
    (env : Env) (c : ConfigBase) (x : NotifyContent) (n : ℤ) (t : Theme) (p : PrimaryColor)
    → HasOrder c
    → Ensures
        (λ c'. settings c' ≡ record (settings c) { content = x })
        (set_notification_content env x c)
      × Ensures
          (λ c'. settings c' ≡ record (settings c) { sound = positive_or_zero n })
          (set_ios_notification_sound env n c)
      × Ensures (λ c'. settings c' ≡ record (settings c) { chosen_theme = t }) (set_theme env t c)
      × Ensures
          (λ c'. settings c' ≡ record (settings c) { color = p })
          (set_theme_primary_color env p c)
unfolding set_notification_content set_ios_notification_sound set_theme set_theme_primary_color
    settings_from list_lt
settings-setters env c x n t p h = (
  settings_after env (bytes "notify_content") (content_number x) (λ s. record s { content = x })
      (λ r. λ i. record (settings_from (ints r)) { content = content-read x i }) c h,
  settings_after env (bytes "notify_sound") n (λ s. record s { sound = positive_or_zero n })
      (λ r. λ i. record (settings_from (ints r)) { sound = positive_int-read n i }) c h,
  settings_after env (bytes "theme") (theme_number t) (λ s. record s { chosen_theme = t })
      (λ r. λ i. record (settings_from (ints r)) { chosen_theme = theme-read t i }) c h,
  settings_after env (bytes "theme_primary_color") (color_number p) (λ s. record s { color = p })
      (λ r. λ i. record (settings_from (ints r)) { color = color-read p i }) c h,
)

-- What `get_setting` returns, in terms of the view.
setting_in-row :
    (c : ConfigBase) (key : Bytes) (o : Option Dict)
    → as_dict (get_clean c settings_field) ≡ o
    → setting_in o key ≡ bool_of (ints (row (path settings_field) (view c)) key)
unfolding setting_in
setting_in-row c key none n =
    ap (λ v. bool_of (as_int v)) (sym (row_of_no_dict c settings_field key n))
setting_in-row c key (some d) n =
    ap (λ (num : Bytes → Option ℤ). bool_of (num key)) (maybe_int-row d)
    ∙ ap (λ (r : Row). bool_of (ints r key)) (row_of_dict c settings_field d n)

setting-row :
    (c : ConfigBase) (key : Bytes)
    → get_setting c key ≡ bool_of (ints (row (path settings_field) (view c)) (c_str key))
unfolding get_setting
setting-row c key = setting_in-row c (c_str key) (as_dict (get_clean c settings_field)) refl

abbrev pub enabled_only : Option Bool → Option Bool
enabled_only (some true) = some true
enabled_only _ = none

write_of : Option Bool → Option Scalar
write_of none = none
write_of (some enabled) = flag enabled

set_setting-Changes :
    (env : Env) (key : Bytes) (v : Option Bool)
    → Changes env (write_all (path settings_field) ((key, write_of v) ∷ [])) (set_setting env key v)
unfolding set_setting write_of
set_setting-Changes env key none = erase_field-Writes env (subfield settings_field key)
set_setting-Changes env key (some enabled) =
    set_flag-Writes env (subfield settings_field key) enabled

setting-read : (v : Option Bool) → bool_of (as_int (as_value (write_of v))) ≡ enabled_only v
unfolding write_of
setting-read none = refl
setting-read (some true) = refl
setting-read (some false) = refl

put_row-read :
    (r : Row) (key j : Bytes) (v : Option Bool)
    → bool_of (ints (put_row key (write_of v) r) j)
      ≡ (if same j key then enabled_only v else bool_of (ints r j))
put_row-read r key j v = elim (Bool-cases (same j key)) [
  | inl e ↦ rw e (setting-read v)
  | inr e ↦ rw e refl
]

-- On a config whose data is in order, what `get_setting` returns after `set_setting`: it looks its
-- own key up to the first NUL. If that is the whole key that was set, it returns `true` if the
-- setting was enabled, and no value in the other cases: a setting that is disabled explicitly is
-- not told from one that was never made. Under any other key it returns what it returned before, so
-- that a setting whose key has a NUL is never read.
pub get_setting-set_setting :
    (env : Env) (c : ConfigBase) (key : Bytes) (v : Option Bool)
    → HasOrder c
    → Ensures
        (λ c'.
          (j : Bytes)
          → get_setting c' j ≡ (if same (c_str j) key then enabled_only v else get_setting c j))
        (set_setting env key v c)
unfolding Changes
get_setting-set_setting env c key v h =
    Ensures-map (set_setting env key v c)
      (λ c' s j.
        let dir = path settings_field in
        setting-row c' j
        ∙ ap (λ (r : Row). bool_of (ints r (c_str j)))
            (ap (row dir) s.1 ∙ row-write_all dir ((key, write_of v) ∷ []) (view c))
        ∙ put_row-read (row dir (view c)) key (c_str j) v
        ∙ ap (λ x. if same (c_str j) key then enabled_only v else x) (sym (setting-row c j)))
      ((set_setting-Changes env key v c).0 h)
