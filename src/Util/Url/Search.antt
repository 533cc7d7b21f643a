-- ===== src/Util/Url/Search.antt =====
-- Where `string_view::rfind` finds a text, and where it finds none (as used in src/util.cpp and
-- src/config/community.cpp).
use libsession_util.Prelude.{
  ℕ, ◌≡◌, refl, Bool, true, false, ◌==◌, Option, none, some, [], ◌∷◌, ◌++◌, not, length, ltb,
  Bool-cases, inl, inr, arith,
}
use libsession_util.Keys.{Bytes}
use libsession_util.Util.Text.{lower}
use libsession_util.Util.Url.{
  starts_with, rfind, scan_host, is_accepted, decimal, to_string, port_text, Url, Proto, http,
  https, proto_text,
}
use libsession_util.Util.Url.Laws.{AllDigits, decimal-AllDigits, IsParsed}

-- A text without a character.
abbrev pub Lacks : ℕ → Bytes → Type 0
Lacks k [] = Unit
Lacks k (c ∷ s) = ((k == c) ≡ false) × Lacks k s

pub Lacks-append : (k : ℕ) (s t : Bytes) → Lacks k s → Lacks k t → Lacks k (s ++ t)
Lacks-append k [] t h g = g
Lacks-append k (c ∷ s) t h g = (h.0, Lacks-append k s t h.1 g)

pub rfind-Lacks : (k : ℕ) (needle s : Bytes) → Lacks k s → rfind (k ∷ needle) s ≡ none
unfolding rfind
rfind-Lacks k needle [] h = refl
rfind-Lacks k needle (c ∷ s) h = rw (rfind-Lacks k needle s h.1, h.0) refl

-- A text that stands at the front of the rest of a text, and nowhere behind.
pub rfind-append :
    (needle p s : Bytes) → rfind needle s ≡ some 0 → rfind needle (p ++ s) ≡ some (length p)
unfolding rfind
rfind-append needle [] s h = h
rfind-append needle (c ∷ p) s h = rw (rfind-append needle p s h) refl

pub rfind-append_none :
    (k : ℕ) (needle p s : Bytes)
    → Lacks k p
    → rfind (k ∷ needle) s ≡ none
    → rfind (k ∷ needle) (p ++ s) ≡ none
unfolding rfind
rfind-append_none k needle [] s h g = g
rfind-append_none k needle (c ∷ p) s h g = rw (rfind-append_none k needle p s h.1 g, h.0) refl

pub starts_with-append : (p s : Bytes) → starts_with p (p ++ s) ≡ true
starts_with-append [] s = refl
starts_with-append (c ∷ p) s =
    let here : (c == c) ≡ true = ground arith in rw here (starts_with-append p s)

-- The host of a URL has no slash, and its port neither.
host_char_no_slash : (c : ℕ) (b : Bool) → is_accepted c b ≡ true → (b'/' == lower c) ≡ false
unfolding lower
host_char_no_slash c b h = ground (arith, h)

pub Lacks-scan_host : (b : Bool) (s : Bytes) → Lacks b'/' (scan_host b s).host
unfolding scan_host
Lacks-scan_host b [] = tt
Lacks-scan_host b (c ∷ s) = elim (Bool-cases (is_accepted c b)) [
  | inl e ↦ rw e (host_char_no_slash c b e, Lacks-scan_host (not (c == b'.')) s)
  | inr e ↦ rw e tt
]

Lacks-AllDigits : (s : Bytes) → AllDigits s → Lacks b'/' s
Lacks-AllDigits [] h = tt
Lacks-AllDigits (c ∷ s) h =
    let d = h.0 in let e : (b'/' == c) ≡ false = ground (arith, d) in (e, Lacks-AllDigits s h.1)

pub Lacks-port_text : (o : Option ℕ) → Lacks b'/' (port_text o)
unfolding port_text to_string
Lacks-port_text none = tt
Lacks-port_text (some n) = (refl, Lacks-AllDigits (decimal 5 n) (decimal-AllDigits 5 n))

-- A host of at least two characters, where the second is no slash.
abbrev pub HasTwo : Bytes → Type 0
HasTwo [] = ⊥
HasTwo (c ∷ []) = ⊥
HasTwo (c ∷ d ∷ s) = (b'/' == d) ≡ false

HasTwo-of_length : (s : Bytes) → Lacks b'/' s → ltb (length s) 4 ≡ false → HasTwo s
HasTwo-of_length [] l h = absurd (ground (arith, h))
HasTwo-of_length (c ∷ []) l h = absurd (ground (arith, h))
HasTwo-of_length (c ∷ d ∷ s) l h = l.1.0

pub IsParsed-host : (u : Url) → IsParsed u → Lacks b'/' u.host × HasTwo u.host
unfolding IsParsed
IsParsed-host u ((rest, e, good), p) =
    let l : Lacks b'/' u.host = rw e (Lacks-scan_host false rest) in
    let long : ltb (length (scan_host false rest).host) 4 ≡ false = ground (arith, good) in
    (l, HasTwo-of_length u.host l (rw e long))

-- `/r/` stands at the front of no token, and nowhere in a URL with a host and a token.
token_is_no_room :
    (t : Bytes) → Lacks b'/' t → starts_with (b'/' ∷ b'r' ∷ b'/' ∷ []) (b'/' ∷ t) ≡ false
token_is_no_room [] l = refl
token_is_no_room (c ∷ []) l = ground arith
token_is_no_room (c ∷ d ∷ t) l = let e = l.1.0 in ground (arith, e)

host_is_no_room :
    (host t : Bytes)
    → HasTwo host
    → starts_with (b'/' ∷ b'r' ∷ b'/' ∷ []) (b'/' ∷ host ++ t) ≡ false
host_is_no_room [] t h = absurd h
host_is_no_room (c ∷ []) t h = absurd h
host_is_no_room (c ∷ d ∷ s) t h = ground (arith, h)

in_url :
    (p : Proto) (s : Bytes)
    → rfind (b'/' ∷ b'r' ∷ b'/' ∷ []) s ≡ none
    → starts_with (b'/' ∷ b'r' ∷ b'/' ∷ []) (b'/' ∷ s) ≡ false
    → rfind (b'/' ∷ b'r' ∷ b'/' ∷ []) (proto_text p ++ s) ≡ none
unfolding rfind
in_url http s n h = rw (n, h) refl
in_url https s n h = rw (n, h) refl

pub no_room_in_url :
    (u : Url) (t : Bytes)
    → IsParsed u
    → Lacks b'/' t
    → rfind
        (b'/' ∷ b'r' ∷ b'/' ∷ [])
        (proto_text u.proto ++ (u.host ++ (port_text u.port ++ b'/' ∷ t)))
      ≡ none
no_room_in_url u t h l =
    let host = IsParsed-host u h in
    let tail : rfind (b'/' ∷ b'r' ∷ b'/' ∷ []) (b'/' ∷ t) ≡ none =
      unfold rfind in rw (rfind-Lacks b'/' (b'r' ∷ b'/' ∷ []) t l, token_is_no_room t l) refl in
    let rest : rfind (b'/' ∷ b'r' ∷ b'/' ∷ []) (u.host ++ (port_text u.port ++ b'/' ∷ t)) ≡ none =
      rfind-append_none b'/' (b'r' ∷ b'/' ∷ []) u.host (port_text u.port ++ b'/' ∷ t) host.0 (
        rfind-append_none b'/' (b'r' ∷ b'/' ∷ []) (port_text u.port) (b'/' ∷ t)
          (Lacks-port_text u.port) tail) in
    in_url u.proto (u.host ++ (port_text u.port ++ b'/' ∷ t)) rest
      (host_is_no_room u.host (port_text u.port ++ b'/' ∷ t) host.1)
