-- ===== src/User/Community.antt =====
-- Communities, by URL, room and public key (src/config/community.cpp,
-- include/session/config/community.hpp).
pub mod Laws
pub mod FullUrl
use libsession_util.Prelude.{
  ℕ, ◌+◌, Bool, true, false, not, ◌&&◌, ◌||◌, ◌==◌, Option, none, some, List, [], ◌∷◌, ◌++◌, map,
  ltb, leb, length, take, drop, if◌then◌else◌,
}
use libsession_util.Prelude.Result.{Result, ok, err, guard, invalid_argument, ◌>>=◌, ◌>>◌}
use libsession_util.Keys.{Bytes, bytes}
use libsession_util.Config.Data.{is_nil}
use libsession_util.Config.Message.Read.{is_set}
use libsession_util.Util.Text.{make_lc}
use libsession_util.Util.Url.{rfind, port_text, is_digit, proto_text, Url, parse_url, or_throw}
use libsession_util.User.Ids.{Oxenc, decode_pubkey}

abbrev pub base_url_max_length : ℕ
base_url_max_length = 267

abbrev pub room_max_length : ℕ
room_max_length = 64

abbrev pub qs_pubkey : Bytes
qs_pubkey = bytes "?public_key="

-- `find_first_not_of` of the characters of a room token.
abbrev pub is_room_char : ℕ → Bool
is_room_char c = (c == b'-') || is_digit c || (c == b'_') || (leb b'a' c && leb c b'z')

abbrev pub all_room_chars : Bytes → Bool
all_room_chars [] = true
all_room_chars (c ∷ s) = is_room_char c && all_room_chars s

unfoldable pub canonical_room : Bytes → Result Bytes
unfolding make_lc
canonical_room room = do
  let r = make_lc room
  guard (leb (length r) room_max_length) invalid_argument
  guard (not (is_nil r)) invalid_argument
  guard (all_room_chars r) invalid_argument
  ok r

-- The text of a URL, without its path.
abbrev pub url_text : Url → Bytes
url_text u = proto_text u.proto ++ (u.host ++ port_text u.port)

unfoldable pub canonical_url : Bytes → Result Bytes
unfolding parse_url
canonical_url url = do
  u ← parse_url url
  guard (not (is_set u.path)) invalid_argument
  guard (leb (length (url_text u)) base_url_max_length) invalid_argument
  ok (url_text u)

module _ (ox : Oxenc) where
  -- The key at the end of a URL, and what stands before it.
  abbrev pub split_pubkey : Bytes → Option ℕ → Result (Option Bytes × Bytes)
  unfolding decode_pubkey
  split_pubkey url none = ok (none, url)
  split_pubkey url (some pos) = do
    pk ← decode_pubkey ox (drop (pos + length qs_pubkey) url)
    ok (some pk, take pos url)

  -- `/r/TOKEN` or `/TOKEN` at the end.
  abbrev pub split_room : Bytes → Option ℕ → Option ℕ → Bytes × Bytes
  split_room url (some pos) slash = (drop (pos + 3) url, take pos url)
  split_room url none (some pos) = (drop (pos + 1) url, take pos url)
  split_room url none none = ([], url)

  unfoldable pub parse_partial_url : Bytes → Result (Bytes × Bytes × Option Bytes)
  unfolding rfind canonical_url split_pubkey
  parse_partial_url url = do
    (pk, url1) ← split_pubkey url (rfind qs_pubkey url)
    let (room, url2) = split_room url1 (rfind (bytes "/r/") url1) (rfind (bytes "/") url1)
    base ← canonical_url url2
    ok (base, room, pk)

  unfoldable pub parse_full_url : Bytes → Result (Bytes × Bytes × Bytes)
  unfolding parse_partial_url
  parse_full_url full_url = do
    (base, room, maybe_pk) ← parse_partial_url full_url
    pk ← or_throw maybe_pk
    ok (base, room, pk)

unfoldable pub full_url : (Bytes → Bytes) → Bytes → Bytes → Bytes → Bytes
full_url to_hex base_url room pubkey = base_url ++ (b'/' ∷ room) ++ qs_pubkey ++ to_hex pubkey

-- `struct community`: the canonical URL and room, the room as it was given, and the server's key.
pub record Community : Type 0 where
  pub base_url : Bytes
  pub room_norm : Bytes
  pub localized_room : Option Bytes
  pub pubkey : Bytes

abbrev pub blank_community : Community
blank_community = record { base_url = []; room_norm = []; localized_room = none; pubkey = [] }

-- `room()`
abbrev pub room : Community → Bytes
room c = elim c.localized_room [ none ↦ c.room_norm | some r ↦ r ]

unfoldable pub set_base_url : Bytes → Community → Result Community
unfolding canonical_url
set_base_url new_url c = do u ← canonical_url new_url; ok (record c { base_url = u })

unfoldable pub set_room : Bytes → Community → Result Community
unfolding canonical_room
set_room new_room c = do
  r ← canonical_room new_room
  ok (record c { room_norm = r; localized_room = some new_room })

unfoldable pub set_pubkey : Bytes → Community → Result Community
set_pubkey pubkey c = do
  guard (length pubkey == 32) invalid_argument
  ok (record c { pubkey = pubkey })

unfoldable pub new_community : Bytes → Bytes → Result Community
unfolding set_base_url set_room
new_community base_url room = do c ← set_base_url base_url blank_community; set_room room c

unfoldable pub set_full_url : Oxenc → Bytes → Community → Result Community
unfolding parse_full_url set_room
set_full_url ox full_url c = do
  (b_url, r_token, s_pubkey) ← parse_full_url ox full_url
  c' ← set_room r_token (record c { base_url = b_url })
  ok (record c' { pubkey = s_pubkey })

-- `set_pubkey` of an encoded key, and the constructors with a key.
unfoldable pub set_encoded_pubkey : Oxenc → Bytes → Community → Result Community
unfolding decode_pubkey
set_encoded_pubkey ox pubkey c = do pk ← decode_pubkey ox pubkey; ok (record c { pubkey = pk })

unfoldable pub new_community_with_key : Bytes → Bytes → Bytes → Result Community
unfolding new_community set_pubkey
new_community_with_key base_url room pubkey = do
  c ← new_community base_url room
  set_pubkey pubkey c

unfoldable pub new_community_with_encoded_key : Oxenc → Bytes → Bytes → Bytes → Result Community
unfolding new_community set_encoded_pubkey
new_community_with_encoded_key ox base_url room pubkey = do
  c ← new_community base_url room
  set_encoded_pubkey ox pubkey c
