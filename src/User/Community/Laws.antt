-- ===== src/User/Community/Laws.antt =====
-- Canonical URLs and rooms are their own canonical forms.
use libsession_util.Prelude.{◌≡◌, refl, Bool, true, false, not, leb, length}
use libsession_util.Prelude.Result.{
  ok, invalid_argument, Ensures, Ensures-ok, Ensures-bind, guard-Ensures,
}
use libsession_util.Keys.{Bytes}
use libsession_util.Config.Data.{is_nil}
use libsession_util.Config.Message.Read.{is_set}
use libsession_util.Util.Text.{make_lc}
use libsession_util.Util.Text.Laws.{make_lc_idem}
use libsession_util.Util.Url.{parse_url}
use libsession_util.Util.Url.Laws.{IsParsed, parse_url-text, parse_url-IsParsed}
use libsession_util.User.Community.{
  base_url_max_length, room_max_length, all_room_chars, canonical_room, canonical_url, url_text,
}

not-true : (b : Bool) → not b ≡ true → b ≡ false
not-true true h = cc
not-true false h = refl

-- A canonical URL is at most 267 bytes long, and it is its own canonical form.
pub canonical_url_idem :
    (url : Bytes)
    → Ensures
        (λ r. (leb (length r) base_url_max_length ≡ true) × (canonical_url r ≡ ok r))
        (canonical_url url)
unfolding canonical_url
canonical_url_idem url = Ensures-bind IsParsed _ (parse_url url) _ (parse_url-IsParsed url) (λ u p.
    guard-Ensures _ (not (is_set u.path)) invalid_argument _ (λ h.
      guard-Ensures _ (leb (length (url_text u)) base_url_max_length) invalid_argument _
        (λ k. Ensures-ok _ _ (k, rw (parse_url-text u p, k) refl))))

-- A canonical room is a token of 1 to 64 of the allowed characters, it is its own canonical form,
-- and it is the room that was given, in lower case.
canonical_room_idem :
    (room : Bytes)
    → Ensures
        (λ r.
          (r ≡ make_lc room)
          × (leb (length r) room_max_length ≡ true)
          × (is_nil r ≡ false)
          × (all_room_chars r ≡ true)
          × (canonical_room r ≡ ok r))
        (canonical_room room)
unfolding canonical_room
canonical_room_idem room =
    let r = make_lc room in
    guard-Ensures _ (leb (length r) room_max_length) invalid_argument _ (λ a.
      guard-Ensures _ (not (is_nil r)) invalid_argument _ (λ b.
        guard-Ensures _ (all_room_chars r) invalid_argument _ (λ c.
          Ensures-ok _ _
            (refl, a, not-true (is_nil r) b, c, rw (make_lc_idem room, a, b, c) refl))))
