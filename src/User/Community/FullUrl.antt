-- ===== src/User/Community/FullUrl.antt =====
-- The full URL of a community is read back (`full_url`, `parse_full_url` and `set_full_url` of
-- src/config/community.cpp).
use libsession_util.Prelude.{
  ℕ, ◌+◌, ◌≡◌, refl, sym, ap, subst, ◌∙◌, true, false, not, ◌==◌, none, some, [], ◌∷◌, ◌++◌,
  append_assoc, length, length-append, take, drop, leb, arith,
}
use libsession_util.Prelude.Result.{
  ok, invalid_argument, Ensures, Ensures-ok, Ensures-bind, Ensures-eq_ok, guard-Ensures,
  guard-eq-ok,
}
use libsession_util.Keys.{Bytes, bytes}
use libsession_util.Config.Data.{is_nil}
use libsession_util.Config.Encrypt.RoundTrip.{take_append, drop_append}
use libsession_util.Config.Message.Read.{is_set}
use libsession_util.Util.Text.{lower, make_lc}
use libsession_util.Util.Url.{Url, rfind, proto_text, port_text, parse_url}
use libsession_util.Util.Url.Laws.{IsParsed, parse_url-IsParsed}
use libsession_util.Util.Url.Search.{Lacks, Lacks-append, rfind-Lacks, rfind-append, no_room_in_url}
use libsession_util.User.Ids.{Oxenc, decode_pubkey}
use libsession_util.User.Community.{
  Community, base_url_max_length, room_max_length, is_room_char, all_room_chars, canonical_room,
  canonical_url, url_text, qs_pubkey, split_pubkey, split_room, parse_partial_url, parse_full_url,
  full_url, set_room, set_full_url,
}
use libsession_util.User.Community.Laws.{canonical_url_idem}

-- oxenc's hex form of a key has 64 hex digits and is read back.
pub record IsHex (ox : Oxenc) (pk : Bytes) : Type 0 where
  pub size : length (ox.to_hex pk) ≡ 64
  pub accepted : ox.is_hex (ox.to_hex pk) ≡ true
  pub reads : ox.from_hex (ox.to_hex pk) ≡ pk
  pub digits : Lacks b'?' (ox.to_hex pk)

abbrev IsText : Bytes → Type 0
IsText r = (u : Url) × IsParsed u × (r ≡ url_text u)

canonical_url-IsText : (url : Bytes) → Ensures IsText (canonical_url url)
unfolding canonical_url
canonical_url-IsText url =
    Ensures-bind IsParsed _ (parse_url url) _ (parse_url-IsParsed url) (λ u p.
      guard-Ensures _ (not (is_set u.path)) invalid_argument _ (λ h.
        guard-Ensures _ (leb (length (url_text u)) base_url_max_length) invalid_argument _
          (λ k. Ensures-ok _ _ (u, p, refl))))

room_char_no_slash : (c : ℕ) → is_room_char (lower c) ≡ true → (b'/' == c) ≡ false
unfolding lower
room_char_no_slash c h = ground (arith, h)

room_chars_no_slash : (s : Bytes) → all_room_chars (make_lc s) ≡ true → Lacks b'/' s
unfolding make_lc
room_chars_no_slash [] h = tt
room_chars_no_slash (c ∷ s) h =
    let one : is_room_char (lower c) ≡ true = ground (arith, h) in
    let others : all_room_chars (make_lc s) ≡ true = ground (arith, h) in
    (room_char_no_slash c one, room_chars_no_slash s others)

room_no_slash : (s r : Bytes) → canonical_room s ≡ ok r → Lacks b'/' s
unfolding canonical_room
room_no_slash s r h =
    let (a, h1) = guard-eq-ok (leb (length (make_lc s)) room_max_length) invalid_argument _ h in
    let (b, h2) = guard-eq-ok (not (is_nil (make_lc s))) invalid_argument _ h1 in
    let (c, h3) = guard-eq-ok (all_room_chars (make_lc s)) invalid_argument _ h2 in
    room_chars_no_slash s c

rfind_key : (hex : Bytes) → Lacks b'?' hex → rfind qs_pubkey (qs_pubkey ++ hex) ≡ some 0
unfolding rfind
rfind_key hex h =
    let rest : Lacks b'?' (bytes "public_key=" ++ hex) =
      Lacks-append b'?' (bytes "public_key=") hex
        (refl, (refl, (refl, (refl, (refl, (refl, (refl, (refl, (refl, (refl, (refl, tt)))))))))))
        h in
    rw (rfind-Lacks b'?' (bytes "public_key=") (bytes "public_key=" ++ hex) rest) refl

rfind_slash : (t : Bytes) → Lacks b'/' t → rfind (bytes "/") (b'/' ∷ t) ≡ some 0
unfolding rfind
rfind_slash t h = rw (rfind-Lacks b'/' [] t h) refl

-- What stands before and behind a text at a known place.
take_before : (p q t : Bytes) → take (length p) (p ++ q ++ t) ≡ p
take_before p q t = ap (take (length p)) (append_assoc p q t) ∙ take_append p (q ++ t)

drop_behind : (p q t : Bytes) → drop (length p + length q) (p ++ q ++ t) ≡ t
drop_behind p q t =
    ap (λ n. drop n (p ++ q ++ t)) (sym (length-append p q)) ∙ drop_append (p ++ q) t

module _ (ox : Oxenc) (pk : Bytes) (hex : IsHex ox pk) where
  decode_pubkey-to_hex : decode_pubkey ox (ox.to_hex pk) ≡ ok pk
  unfolding decode_pubkey
  decode_pubkey-to_hex =
      let size : (length (ox.to_hex pk) == 64) ≡ true = ground (arith, hex.size) in
      rw (size, hex.accepted) (ap ok (hex.reads))

  split_pubkey_lem :
      (s : Bytes)
      → split_pubkey ox
          (s ++ qs_pubkey ++ ox.to_hex pk)
          (rfind qs_pubkey (s ++ qs_pubkey ++ ox.to_hex pk))
        ≡ ok (some pk, s)
  unfolding split_pubkey
  split_pubkey_lem s =
      let place : rfind qs_pubkey (s ++ qs_pubkey ++ ox.to_hex pk) ≡ some (length s) =
        ap (rfind qs_pubkey) (append_assoc s qs_pubkey (ox.to_hex pk))
        ∙ rfind-append qs_pubkey s (qs_pubkey ++ ox.to_hex pk)
            (rfind_key (ox.to_hex pk) (hex.digits)) in
      let key : decode_pubkey ox
            (drop (length s + length qs_pubkey) (s ++ qs_pubkey ++ ox.to_hex pk))
          ≡ ok pk =
        ap (decode_pubkey ox) (drop_behind s qs_pubkey (ox.to_hex pk)) ∙ decode_pubkey-to_hex in
      rw place (rw key (rw (take_before s qs_pubkey (ox.to_hex pk)) refl))

split_room_lem :
    (ox : Oxenc) (u : Url) (t : Bytes)
    → IsParsed u
    → Lacks b'/' t
    → split_room ox
        (url_text u ++ b'/' ∷ t)
        (rfind (bytes "/r/") (url_text u ++ b'/' ∷ t))
        (rfind (bytes "/") (url_text u ++ b'/' ∷ t))
      ≡ (t, url_text u)
split_room_lem ox u t p l =
    let base = url_text u in
    let shape : base ++ b'/' ∷ t
        ≡ proto_text u.proto ++ (u.host ++ (port_text u.port ++ b'/' ∷ t)) =
      append_assoc (proto_text u.proto) (u.host ++ port_text u.port) (b'/' ∷ t)
      ∙ ap (λ z. proto_text u.proto ++ z) (append_assoc u.host (port_text u.port) (b'/' ∷ t)) in
    let no_r : rfind (bytes "/r/") (base ++ b'/' ∷ t) ≡ none =
      ap (rfind (bytes "/r/")) shape ∙ no_room_in_url u t p l in
    let place : rfind (bytes "/") (base ++ b'/' ∷ t) ≡ some (length base) =
      rfind-append (bytes "/") base (b'/' ∷ t) (rfind_slash t l) in
    let behind : drop (length base + 1) (base ++ b'/' ∷ t) ≡ t =
      ap (drop (length base + 1)) (sym (append_assoc base (b'/' ∷ []) t))
      ∙ drop_behind base (b'/' ∷ []) t in
    ap (λ a. split_room ox (base ++ b'/' ∷ t) a (rfind (bytes "/") (base ++ b'/' ∷ t))) no_r
    ∙ ap (split_room ox (base ++ b'/' ∷ t) none) place
    ∙ ap (λ a. (a, take (length base) (base ++ b'/' ∷ t))) behind
    ∙ ap (λ a. (t, a)) (take_append base (b'/' ∷ t))

url_comes_back :
    (ox : Oxenc) (pk : Bytes) (hex : IsHex ox pk) (u : Url) (t : Bytes)
    → IsParsed u
    → Lacks b'/' t
    → (base : Bytes) → base ≡ url_text u
    → canonical_url base ≡ ok base
    → parse_full_url ox (full_url ox.to_hex base t pk) ≡ ok (base, t, pk)
unfolding parse_full_url parse_partial_url full_url
url_comes_back ox pk hex u t p l base e self =
    let key = split_pubkey_lem ox pk hex (base ++ b'/' ∷ t) in
    let token : split_room ox (base ++ b'/' ∷ t) (rfind (bytes "/r/") (base ++ b'/' ∷ t))
          (rfind (bytes "/") (base ++ b'/' ∷ t))
        ≡ (t, base) =
      subst
        (λ z.
          split_room ox (z ++ b'/' ∷ t) (rfind (bytes "/r/") (z ++ b'/' ∷ t))
            (rfind (bytes "/") (z ++ b'/' ∷ t))
          ≡ (t, z))
        (sym e) (split_room_lem ox u t p l) in
    rw key (rw token (rw self refl))

-- The full URL of a canonical base URL, a room that has a canonical form and a key whose
-- hex form has 64 digits and is read back is parsed into these three, and gives them to every community for which it
-- is set, with the canonical form of the room.
pub set_full_url-full_url :
    (ox : Oxenc) (url base t r pk : Bytes) (c : Community)
    → IsHex ox pk
    → canonical_url url ≡ ok base
    → canonical_room t ≡ ok r
    → (parse_full_url ox (full_url ox.to_hex base t pk) ≡ ok (base, t, pk))
      × (set_full_url ox (full_url ox.to_hex base t pk) c
          ≡ ok (record { base_url = base; room_norm = r; localized_room = some t; pubkey = pk }))
unfolding parse_full_url parse_partial_url full_url set_full_url set_room
set_full_url-full_url ox url base t r pk c hex hb ht =
    let (u, p, e) = Ensures-eq_ok IsText (canonical_url url) base (canonical_url-IsText url) hb in
    let self : canonical_url base ≡ ok base =
      (Ensures-eq_ok _ (canonical_url url) base (canonical_url_idem url) hb).1 in
    let parsed : parse_full_url ox (full_url ox.to_hex base t pk) ≡ ok (base, t, pk) =
      url_comes_back ox pk hex u t p (room_no_slash t r ht) base e self in
    (parsed, rw parsed (rw ht refl))
