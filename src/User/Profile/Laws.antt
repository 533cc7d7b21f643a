-- ===== src/User/Profile/Laws.antt =====
-- Each setter of the profile sets one value, and leaves the other ones as they are.
use libsession_util.Prelude.{
  zero, suc, leb, arith, ◌≡◌, refl, ap, ap₂, sym, ◌∙◌, Bool, true, false, not, ◌&&◌, ◌==◌, Option,
  none, some, [], ◌∷◌, length, if◌then◌else◌,
}
use libsession_util.Prelude.Result.{Result, invalid_argument, Ensures, Ensures-map, guard-Ensures}
use libsession_util.Prelude.Int.{ℤ, pos, negsuc}
use libsession_util.Keys.{Bytes, bytes, list_lt}
use libsession_util.Config.Data.{int, string, is_nil}
use libsession_util.Config.Base.{ConfigBase, Env}
use libsession_util.Config.Base.Field.{
  as_string, as_int, is_positive, set_nonempty_str, assign_scalar, erase_field,
}
use libsession_util.Config.Base.Field.Refine.{view, HasOrder}
use libsession_util.Config.Base.Field.Rows.{
  Row, row, Fields, put_all, write_all, as_value, row-write_all, Changes, nonempty_str,
  positive_int, nonzero_int, set_nonempty_str-Writes, set_positive_int-Writes,
  set_nonzero_int-Writes, assign_scalar-Writes, erase_field-Writes,
}
use libsession_util.Config.Base.Field.Read.{strings, ints}
use libsession_util.Util.Text.{to_int}
use libsession_util.User.Types.{ProfilePic, no_pic, or_else, top, bool_of}
use libsession_util.User.Types.Read.{
  when, set_pair_if-Changes, top_string-row, top_int-row, nonzero_int-read,
}
use libsession_util.User.Contacts.{max_name_length}
use libsession_util.User.Profile.{
  name_of, url_of, key_of, expiry_of, get_name, get_profile_pic, get_nts_priority, get_nts_expiry,
  get_blinded_msgreqs, set_name, set_profile_pic, set_nts_priority, set_nts_expiry,
  set_blinded_msgreqs,
}

-- The values of a profile, as the getters return them.
pub record Profile : Type 0 where
  pub name : Option Bytes
  pub pic : ProfilePic
  pub nts_priority : ℤ
  pub nts_expiry : Option ℤ
  pub blinded_msgreqs : Option Bool

pub profile : ConfigBase → Profile
profile c = record {
  name = get_name c;
  pic = get_profile_pic c;
  nts_priority = get_nts_priority c;
  nts_expiry = get_nts_expiry c;
  blinded_msgreqs = get_blinded_msgreqs c;
}

abbrev profile_from : (Bytes → Option Bytes) → (Bytes → Option ℤ) → Profile
unfolding to_int
profile_from str num = record {
  name = name_of (str (bytes "n"));
  pic = record { url = url_of (str (bytes "p")); key = key_of (str (bytes "q")) };
  nts_priority = to_int (or_else (num (bytes "+")) (pos 0));
  nts_expiry = expiry_of (num (bytes "e"));
  blinded_msgreqs = bool_of (num (bytes "M"));
}

abbrev profile_row : Row → Profile
unfolding profile_from
profile_row r = profile_from (strings r) (ints r)

profile-row : (c : ConfigBase) → profile c ≡ profile_row (row [] (view c))
unfolding profile get_name get_profile_pic get_nts_priority get_nts_expiry get_blinded_msgreqs
    profile_row profile_from
profile-row c = ap₂ profile_from (top_string-row c) (top_int-row c)

-- The values after fields at the top level were written.
profile_after :
    (env : Env) (ws : Fields) (m : ConfigBase → Result ConfigBase) (f : Profile → Profile)
    → Changes env (write_all [] ws) m
    → ((r : Row) → profile_row (put_all ws r) ≡ f (profile_row r))
    → (c : ConfigBase) → HasOrder c
    → Ensures (λ c'. profile c' ≡ f (profile c)) (m c)
unfolding Changes
profile_after env ws m f changes step c h =
    Ensures-map (m c)
      (λ c' s.
        profile-row c'
        ∙ ap profile_row (ap (row []) s.1 ∙ row-write_all [] ws (view c))
        ∙ step (row [] (view c))
        ∙ ap f (sym (profile-row c)))
      ((changes c).0 h)

abbrev pub name_or_none : Bytes → Option Bytes
name_or_none s = if not (is_nil s) then some s else none

name-read : (n : Bytes) → name_of (as_string (as_value (nonempty_str n))) ≡ name_or_none n
name-read [] = refl
name-read (c ∷ n) = refl

abbrev pub whole : ProfilePic → Bool
whole pic = not (is_nil pic.url) && (length pic.key == 32)

pic-read_by_parts :
    (url key : Bytes)
    → record {
      url =
          url_of
            (as_string (as_value (when (not (is_nil url) && (length key == 32)) (string url))));
      key =
          key_of
            (as_string (as_value (when (not (is_nil url) && (length key == 32)) (string key))));
    }
      ≡ (if not (is_nil url) && (length key == 32) then record { url = url; key = key } else no_pic)
pic-read_by_parts [] key = refl
pic-read_by_parts (c ∷ url) key = ground arith

abbrev pub positive : ℤ → Option ℤ
positive e = if is_positive e then some e else none

expiry-read : (e : ℤ) → expiry_of (as_int (as_value (positive_int e))) ≡ positive e
expiry-read (pos zero) = refl
expiry-read (pos (suc n)) = ground arith
expiry-read (negsuc n) = refl

blinded_after :
    (env : Env) (c : ConfigBase) (blinded : Option Bool)
    → HasOrder c
    → Ensures
        (λ c'. profile c' ≡ record (profile c) { blinded_msgreqs = blinded })
        (set_blinded_msgreqs env blinded c)
unfolding set_blinded_msgreqs list_lt profile_row profile_from
blinded_after env c none h =
    profile_after env ((bytes "M", none) ∷ []) (erase_field env (top (bytes "M")))
      (λ x. record x { blinded_msgreqs = none }) (erase_field-Writes env (top (bytes "M")))
      (λ r. refl) c h
blinded_after env c (some true) h =
    profile_after env ((bytes "M", some (int (pos 1))) ∷ [])
      (assign_scalar env (int (pos 1)) (top (bytes "M")))
      (λ x. record x { blinded_msgreqs = some true })
      (assign_scalar-Writes env (top (bytes "M")) (int (pos 1))) (λ r. refl) c h
blinded_after env c (some false) h =
    profile_after env ((bytes "M", some (int (pos 0))) ∷ [])
      (assign_scalar env (int (pos 0)) (top (bytes "M")))
      (λ x. record x { blinded_msgreqs = some false })
      (assign_scalar-Writes env (top (bytes "M")) (int (pos 0))) (λ r. refl) c h

-- On a config whose data is in order, each setter that returns leaves the value that it was given
-- for the getter - no name for an empty one, no picture for one without a URL or without a key of
-- 32 bytes, the priority as an `int`, no expiry for one that is not positive - and every other
-- getter returns what it returned before.
pub profile-setters :
    (env : Env) (c : ConfigBase) (n : Bytes) (pic : ProfilePic) (priority expiry : ℤ)
    (blinded : Option Bool)
    → HasOrder c
    → Ensures (λ c'. profile c' ≡ record (profile c) { name = name_or_none n }) (set_name env n c)
      × Ensures
          (λ c'. profile c' ≡ record (profile c) { pic = if whole pic then pic else no_pic })
          (set_profile_pic env pic c)
      × Ensures
          (λ c'. profile c' ≡ record (profile c) { nts_priority = to_int priority })
          (set_nts_priority env priority c)
      × Ensures
          (λ c'. profile c' ≡ record (profile c) { nts_expiry = positive expiry })
          (set_nts_expiry env expiry c)
      × Ensures
          (λ c'. profile c' ≡ record (profile c) { blinded_msgreqs = blinded })
          (set_blinded_msgreqs env blinded c)
unfolding set_name set_profile_pic set_nts_priority set_nts_expiry list_lt profile_row profile_from
profile-setters env c n pic priority expiry blinded h = (
  guard-Ensures _ (leb (length n) max_name_length) invalid_argument _ (λ p.
      profile_after env ((bytes "n", nonempty_str n) ∷ [])
        (set_nonempty_str env (top (bytes "n")) n) (λ x. record x { name = name_or_none n })
        (set_nonempty_str-Writes env (top (bytes "n")) n)
        (λ r. λ i. record (profile_row r) { name = name-read n i }) c h),
  profile_after env
      ((bytes "p", when (whole pic) (string pic.url))
        ∷ (bytes "q", when (whole pic) (string pic.key))
        ∷ [])
      (set_profile_pic env pic) (λ x. record x { pic = if whole pic then pic else no_pic })
      (set_pair_if-Changes env (whole pic) (top (bytes "p")) (string pic.url) (top (bytes "q"))
        (string pic.key))
      (λ r. λ i. record (profile_row r) { pic = pic-read_by_parts pic.url pic.key i }) c h,
  profile_after env ((bytes "+", nonzero_int priority) ∷ []) (set_nts_priority env priority)
      (λ x. record x { nts_priority = to_int priority })
      (set_nonzero_int-Writes env (top (bytes "+")) priority)
      (λ r. λ i. record (profile_row r) { nts_priority = to_int (nonzero_int-read priority i) }) c
      h,
  profile_after env ((bytes "e", positive_int expiry) ∷ []) (set_nts_expiry env expiry)
      (λ x. record x { nts_expiry = positive expiry })
      (set_positive_int-Writes env (top (bytes "e")) expiry)
      (λ r. λ i. record (profile_row r) { nts_expiry = expiry-read expiry i }) c h,
  blinded_after env c blinded h,
)
