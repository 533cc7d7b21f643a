-- ===== src/Tests/UrlTests.antt =====
-- Texts, times and URLs at concrete inputs.
use libsession_util.Prelude.{
  All, none, ℕ, zero, suc, ◌==◌, some, replicate, ◌≡◌, ◌≤◌, ◌<◌, ◌⊎◌, refl, true, false, [], ◌∷◌,
  leb, take, length,
}
use libsession_util.Prelude.Result.{ok, Ensures}
use libsession_util.Keys.{Bytes, bytes, list_lt}
use libsession_util.Util.Text.{slices, cut_point, utf8_truncate, make_lc, lower}
use libsession_util.Util.Text.Laws.{utf8_truncate_lem}
use libsession_util.Util.Url.{
  find, scan_host, from_chars, to_string, port_text, parse_end, parse_url,
}
use libsession_util.User.Community.{
  base_url_max_length, canonical_url, canonical_room, parse_full_url, full_url, set_full_url,
  new_community_with_encoded_key, blank_community,
}
use libsession_util.User.Community.FullUrl.{IsHex, set_full_url-full_url}
use libsession_util.User.Ids.{Oxenc}
use libsession_util.Util.Split.{split}
use libsession_util.Util.Split.Laws.{join, join-split}
use libsession_util.Util.Url.Search.{Lacks}
use libsession_util.User.Community.Laws.{canonical_url_idem}

-- A letter, then a code point of two bytes.
abbrev accented : Bytes
accented = b'a' ∷ 195 ∷ 169 ∷ []

cut_accented : utf8_truncate accented 2 ≡ bytes "a"
unfolding utf8_truncate cut_point
cut_accented = refl

utf8_truncate_lem_example :
    (m : ℕ) × (utf8_truncate accented 2 ≡ take m accented)
    × (length (utf8_truncate accented 2) ≤ 2)
    × ((m ≡ 0) ⊎ (slices accented m ≡ false))
    × ((i : ℕ) → m < i → i ≤ 2 → i ≤ length accented → slices accented i ≡ true)
utf8_truncate_lem_example = utf8_truncate_lem accented 2

canonical_example_org :
    canonical_url (bytes "HTTPS://Example.ORG:443/") ≡ ok (bytes "https://example.org")
unfolding canonical_url parse_url parse_end find scan_host from_chars to_string port_text lower
    make_lc list_lt
canonical_example_org = refl

canonical_with_port :
    canonical_url (bytes "http://example.org:8080") ≡ ok (bytes "http://example.org:8080")
unfolding canonical_url parse_url parse_end find scan_host from_chars to_string port_text lower
    make_lc list_lt
canonical_with_port = refl

-- What follows the host and is no port and no path is dropped.
trailing_text_dropped :
    canonical_url (bytes "http://example.org?room") ≡ ok (bytes "http://example.org")
unfolding canonical_url parse_url parse_end find scan_host from_chars to_string port_text lower
    make_lc list_lt
trailing_text_dropped = refl

canonical_url_idem_example :
    Ensures
      (λ r. (leb (length r) base_url_max_length ≡ true) × (canonical_url r ≡ ok r))
      (canonical_url (bytes "HTTPS://Example.ORG:443/"))
canonical_url_idem_example = canonical_url_idem (bytes "HTTPS://Example.ORG:443/")

abbrev server_key : Bytes
server_key = replicate 32 1

-- A codec with one key.
abbrev one_key : Oxenc
one_key = record {
  is_hex = λ s. true;
  from_hex = λ s. server_key;
  to_hex = λ s. replicate 64 b'0';
  is_base64 = λ s. false;
  from_base64 = λ s. s;
  is_base32z = λ s. false;
  from_base32z = λ s. s;
}

Lacks-replicate : (k c n : ℕ) → (k == c) ≡ false → Lacks k (replicate n c)
Lacks-replicate k c zero h = tt
Lacks-replicate k c (suc n) h = (h, Lacks-replicate k c n h)

one_key-IsHex : IsHex one_key server_key
one_key-IsHex = record {
  size = refl;
  accepted = refl;
  reads = refl;
  digits = Lacks-replicate b'?' b'0' 64 refl;
}

lobby : canonical_room (bytes "Lobby") ≡ ok (bytes "lobby")
unfolding canonical_room make_lc lower
lobby = refl

set_full_url-full_url_example :
    (parse_full_url one_key
        (full_url one_key.to_hex (bytes "https://example.org") (bytes "Lobby") server_key)
      ≡ ok (bytes "https://example.org", bytes "Lobby", server_key))
    × (set_full_url one_key
          (full_url one_key.to_hex (bytes "https://example.org") (bytes "Lobby") server_key)
          blank_community
        ≡ ok (record {
          base_url = bytes "https://example.org";
          room_norm = bytes "lobby";
          localized_room = some (bytes "Lobby");
          pubkey = server_key;
        }))
set_full_url-full_url_example =
    set_full_url-full_url one_key (bytes "HTTPS://Example.ORG:443/") (bytes "https://example.org")
      (bytes "Lobby") (bytes "lobby") server_key blank_community one_key-IsHex canonical_example_org
      lobby

keyed_community :
    new_community_with_encoded_key one_key
      (bytes "HTTPS://Example.ORG:443/")
      (bytes "Lobby")
      (replicate 64 b'0')
    ≡ ok (record {
      base_url = bytes "https://example.org";
      room_norm = bytes "lobby";
      localized_room = some (bytes "Lobby");
      pubkey = server_key;
    })
unfolding new_community_with_encoded_key canonical_url parse_url parse_end find scan_host from_chars
    to_string port_text lower make_lc list_lt canonical_room
keyed_community = refl

-- The examples that the header gives for `split`.
split_runs :
    (split (bytes "ab--c----de") (bytes "--") false ≡ bytes "ab" ∷ bytes "c" ∷ [] ∷ bytes "de" ∷ [])
    × (split (bytes "abc") [] false ≡ bytes "a" ∷ bytes "b" ∷ bytes "c" ∷ [])
    × (split (bytes "abc") (bytes "c") false ≡ bytes "ab" ∷ [] ∷ [])
    × (split (bytes "abc") (bytes "c") true ≡ bytes "ab" ∷ [])
    × (split (bytes "-a--b--") (bytes "-") false ≡ [] ∷ bytes "a" ∷ [] ∷ bytes "b" ∷ [] ∷ [] ∷ [])
    × (split (bytes "-a--b--") (bytes "-") true ≡ bytes "a" ∷ [] ∷ bytes "b" ∷ [])
unfolding split
split_runs = (refl, refl, refl, refl, refl, refl)

join-split_example :
    (join (bytes "--") (split (bytes "ab--c----de") (bytes "--") false) ≡ bytes "ab--c----de")
    × All (λ p. find (bytes "--") p ≡ none) (split (bytes "ab--c----de") (bytes "--") false)
join-split_example = join-split (bytes "ab--c----de") b'-' (bytes "-")
