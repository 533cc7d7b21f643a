-- ===== src/Util/Url/Laws.antt =====
-- A parsed URL is parsed again from its text.
use libsession_util.Prelude.{
  ℕ, zero, suc, ◌+◌, ◌-◌, ◌*◌, ◌/◌, ◌%◌, ◌<◌, ◌≡◌, refl, sym, ap, ◌∙◌, inl, inr, Bool, true, false,
  not, ◌&&◌, ◌==◌, Bool-cases, Option, none, some, [], ◌∷◌, ◌++◌, All, arith, ltb, leb,
  if◌then◌else◌,
}
use libsession_util.Prelude.Result.{
  ok, invalid_argument, Ensures, Ensures-ok, Ensures-if, Ensures-bind, Ensures->>=, guard-Ensures,
  ◌>>=◌,
}
use libsession_util.Keys.{Bytes, bytes, list_lt}
use libsession_util.Config.Data.{is_nil}
use libsession_util.Util.Text.{lower, make_lc}
use libsession_util.Util.Text.Laws.{lower_idem}
use libsession_util.Util.Url.{
  find, is_digit, digits_of, after_digits, value_from, from_chars, port_max, decimal, to_string,
  port_text, is_accepted, HostScan, scan_host, is_host, Proto, http, https, proto_text,
  default_port, Url, split_proto, split_port, or_throw, parse_end, parse_rest, parse_url,
}

-- What a scan that stops at once makes of a text.
abbrev nothing_of : Bytes → HostScan
nothing_of t = record { host = []; has_dot = false; rest = t }

accepted_lower : (c : ℕ) (b : Bool) → is_accepted c b ≡ true → is_accepted (lower c) b ≡ true
unfolding lower
accepted_lower c b h = ground arith

dot_lower : (c : ℕ) → (lower c == b'.') ≡ (c == b'.')
unfolding lower
dot_lower c = ground arith

-- The host of a scan is scanned again as it is, up to a text at which the scan stops.
rescan :
    (url : Bytes) (b : Bool) (t : Bytes)
    → ((d : Bool) → scan_host d t ≡ nothing_of t)
    → scan_host b ((scan_host b url).host ++ t)
      ≡ record { host = (scan_host b url).host; has_dot = (scan_host b url).has_dot; rest = t }
unfolding scan_host
rescan [] b t stops = stops b
rescan (c ∷ url) b t stops = elim (Bool-cases (is_accepted c b)) [
  | inl e ↦
      rw (e, accepted_lower c b e, dot_lower c, lower_idem c, rescan url (not (c == b'.')) t stops)
        refl
  | inr e ↦ rw e (stops b)
]

stops_at_end : (d : Bool) → scan_host d [] ≡ nothing_of []
unfolding scan_host
stops_at_end d = refl

stops_at_colon : (s : Bytes) (d : Bool) → scan_host d (b':' ∷ s) ≡ nothing_of (b':' ∷ s)
unfolding scan_host
stops_at_colon s true = refl
stops_at_colon s false = refl

-- The digits of a number are read back as the number.
abbrev limit : ℕ → ℕ
limit zero = 1
limit (suc fuel) = 10 * limit fuel

abbrev pub AllDigits : Bytes → Type 0
AllDigits s = All (λ c. is_digit c ≡ true) s

digits_append : (s t : Bytes) → AllDigits s → AllDigits t → AllDigits (s ++ t)
digits_append [] t h k = k
digits_append (c ∷ s) t h k = (h.0, digits_append s t h.1 k)

pub decimal-AllDigits : (fuel n : ℕ) → AllDigits (decimal fuel n)
decimal-AllDigits zero n = tt
decimal-AllDigits (suc fuel) n = elim (Bool-cases (ltb n 10)) [
  | inl e ↦ rw e (ground arith, tt)
  | inr e ↦ rw e (
      digits_append (decimal fuel (n / 10)) ((b'0' + n % 10) ∷ []) (decimal-AllDigits fuel (n / 10))
        (ground arith, tt))
]

value_from-append :
    (m : ℕ) (s : Bytes) (c : ℕ) → value_from m (s ++ (c ∷ [])) ≡ value_from m s * 10 + (c - b'0')
value_from-append m [] c = refl
value_from-append m (d ∷ s) c = value_from-append (m * 10 + (d - b'0')) s c

decimal-value : (fuel n : ℕ) → n < limit fuel → value_from 0 (decimal fuel n) ≡ n
decimal-value zero n h = omega (arith, h)
decimal-value (suc fuel) n h = elim (Bool-cases (ltb n 10)) [
  | inl e ↦ rw e (omega arith)
  | inr e ↦
      rw
        (
          e,
          value_from-append 0 (decimal fuel (n / 10)) (b'0' + n % 10),
          decimal-value fuel (n / 10) (omega (arith, h)),
        )
        (omega arith)
]

digits_of_digits : (s : Bytes) → AllDigits s → digits_of s ≡ s
digits_of_digits [] h = refl
digits_of_digits (c ∷ s) h = rw (h.0, digits_of_digits s h.1) refl

after_digits_of_digits : (s : Bytes) → AllDigits s → after_digits s ≡ []
after_digits_of_digits [] h = refl
after_digits_of_digits (c ∷ s) h = rw (h.0) (after_digits_of_digits s h.1)

nonempty_append : (s : Bytes) (c : ℕ) → is_nil (s ++ (c ∷ [])) ≡ false
nonempty_append [] c = refl
nonempty_append (d ∷ s) c = refl

to_string-is_nil : (n : ℕ) → is_nil (to_string n) ≡ false
unfolding to_string
to_string-is_nil n = elim (Bool-cases (ltb n 10)) [
  | inl e ↦ rw e refl
  | inr e ↦ rw e (nonempty_append (decimal 4 (n / 10)) (b'0' + n % 10))
]

-- A port is read back from its decimal digits.
pub from_chars-to_string : (n : ℕ) → leb n port_max ≡ true → from_chars (to_string n) ≡ ok (n, [])
unfolding from_chars
from_chars-to_string n h =
    let digits : AllDigits (to_string n) = unfold to_string in decimal-AllDigits 5 n in
    let value : value_from 0 (to_string n) ≡ n =
      unfold to_string in decimal-value 5 n (ground arith) in
    rw
      (
        digits_of_digits (to_string n) digits,
        after_digits_of_digits (to_string n) digits,
        value,
        to_string-is_nil n,
        h,
      )
      refl

-- The protocol of a canonical text is found at its front.
split_proto-text :
    (p : Proto) (s : Bytes)
    → split_proto (proto_text p ++ s) (find (bytes "://") (proto_text p ++ s)) ≡ some (p, s)
unfolding find split_proto make_lc lower list_lt
split_proto-text http s = refl
split_proto-text https s = refl

-- A port that is written out: one that the protocol does not imply.
pub IsPort : Proto → Option ℕ → Type 0
IsPort p none = Unit
IsPort p (some n) = (leb n port_max ≡ true) × ((n == default_port p) ≡ false)

split_port-text : (p : Proto) (n : Option ℕ) → IsPort p n → split_port p (port_text n) ≡ ok (n, [])
unfolding IsPort split_port port_text
split_port-text p none h = refl
split_port-text p (some n) h = rw (from_chars-to_string n h.0, h.1) refl

stops_at_port : (n : Option ℕ) (d : Bool) → scan_host d (port_text n) ≡ nothing_of (port_text n)
unfolding port_text
stops_at_port none d = stops_at_end d
stops_at_port (some n) d = stops_at_colon (to_string n) d

-- What parsing makes sure of: the host is one that a scan returns, and the port is written out.
unfoldable pub IsParsed : Url → Type 0
IsParsed u =
    ((rest : Bytes) × (u.host ≡ (scan_host false rest).host)
      × (is_host (scan_host false rest) ≡ true))
    × IsPort u.proto u.port

parse_end-text :
    (u : Url) (h : HostScan)
    → u.host ≡ h.host
    → is_host h ≡ true
    → h.rest ≡ port_text u.port
    → IsPort u.proto u.port
    → parse_end u.proto h ≡ ok (record u { path = none })
unfolding parse_end
parse_end-text u h e good r p =
    rw (good, r, split_port-text u.proto u.port p)
      (ap (λ x. ok (record u { host = x; path = none })) (sym e))

pub parse_url-text :
    (u : Url)
    → IsParsed u
    → parse_url (proto_text u.proto ++ (u.host ++ port_text u.port)) ≡ ok (record u { path = none })
unfolding parse_url IsParsed parse_rest
parse_url-text u h =
    let ((rest, e, good), p) = h in
    let tail = port_text u.port in
    let scanned : scan_host false (u.host ++ tail) ≡ record {
      host = (scan_host false rest).host;
      has_dot = (scan_host false rest).has_dot;
      rest = tail;
    } =
      rw e (rescan rest false tail (stops_at_port u.port)) in
    ap (λ x. or_throw x >>= parse_rest) (split_proto-text u.proto (u.host ++ tail))
    ∙ ap (parse_end u.proto) scanned
    ∙ parse_end-text u _ e good refl p

from_chars-bound : (s : Bytes) → Ensures (λ r. leb r.0 port_max ≡ true) (from_chars s)
unfolding from_chars
from_chars-bound s =
    guard-Ensures _ (not (is_nil (digits_of s)) && leb (value_from 0 (digits_of s)) port_max)
      invalid_argument _ (λ h. Ensures-ok _ _ (ground arith))

IsPort-of_bound :
    (p : Proto) (n : ℕ)
    → leb n port_max ≡ true
    → IsPort p (if n == default_port p then none else some n)
unfolding IsPort
IsPort-of_bound p n h = elim (Bool-cases (n == default_port p)) [
  | inl e ↦ rw e tt
  | inr e ↦ rw e (h, e)
]

IsPort-none : (p : Proto) → IsPort p none
unfolding IsPort
IsPort-none p = tt

split_port-IsPort : (p : Proto) (s : Bytes) → Ensures (λ r. IsPort p r.0) (split_port p s)
unfolding split_port
split_port-IsPort p [] = Ensures-ok (λ r. IsPort p r.0) (none, []) (IsPort-none p)
split_port-IsPort p (c ∷ s) =
    Ensures-if _ (c == b':') _ _
      (λ h.
        Ensures-bind _ _ (from_chars s) _ (from_chars-bound s)
          (λ r k. Ensures-ok _ _ (IsPort-of_bound p r.0 k)))
      (λ h. Ensures-ok _ _ (IsPort-none p))

parse_end-IsParsed :
    (p : Proto) (rest : Bytes) → Ensures IsParsed (parse_end p (scan_host false rest))
unfolding parse_end IsParsed
parse_end-IsParsed p rest =
    guard-Ensures _ (is_host (scan_host false rest)) invalid_argument _ (λ good.
      Ensures-bind _ _ (split_port p (scan_host false rest).rest) _
        (split_port-IsPort p (scan_host false rest).rest)
        (λ r k. Ensures-ok _ _ ((rest, refl, good), k)))

pub parse_url-IsParsed : (url : Bytes) → Ensures IsParsed (parse_url url)
unfolding parse_url parse_rest
parse_url-IsParsed url =
    Ensures->>= _ (or_throw (split_proto url (find (bytes "://") url))) _
      (λ found. parse_end-IsParsed found.0 found.1)
