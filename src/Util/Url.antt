-- ===== src/Util/Url.antt =====
-- `parse_url` (src/util.cpp), with the parts of the C++ library that it uses on texts:
-- `string_view::find` and `rfind`, `from_chars` of a `uint16_t`, `to_string`.
pub mod Laws
pub mod Search
use libsession_util.Prelude.{
  ℕ, zero, suc, ◌+◌, ◌-◌, ◌*◌, ◌/◌, ◌%◌, Bool, true, false, not, ◌&&◌, ◌||◌, ◌==◌, Option, none,
  some, List, [], ◌∷◌, ◌++◌, map, ltb, leb, length, take, drop, if◌then◌else◌,
}
use libsession_util.Prelude.Result.{Result, ok, err, guard, invalid_argument, ◌>>=◌, ◌>>◌}
use libsession_util.Order.{same}
use libsession_util.Keys.{Bytes, bytes, bytes_ord, list_lt}
use libsession_util.Config.Data.{is_nil}
use libsession_util.Util.Text.{lower, is_upper, make_lc}

abbrev pub starts_with : Bytes → Bytes → Bool
starts_with [] s = true
starts_with (c ∷ needle) [] = false
starts_with (c ∷ needle) (d ∷ s) = (c == d) && starts_with needle s

-- `s.find(needle)`, for a needle that is not empty.
abbrev pub after_one : Option ℕ → Option ℕ
after_one none = none
after_one (some n) = some (suc n)

unfoldable pub find : Bytes → Bytes → Option ℕ
find needle [] = none
find needle (c ∷ s) = if starts_with needle (c ∷ s) then some 0 else after_one (find needle s)

-- `s.rfind(needle)`, for a needle that is not empty: the last position.
abbrev pub or_here : Bool → Option ℕ → Option ℕ
or_here here (some n) = some (suc n)
or_here here none = if here then some 0 else none

unfoldable pub rfind : Bytes → Bytes → Option ℕ
rfind needle [] = none
rfind needle (c ∷ s) = or_here (starts_with needle (c ∷ s)) (rfind needle s)

abbrev pub is_digit : ℕ → Bool
is_digit c = leb b'0' c && leb c b'9'

-- `from_chars`: the digits at the front, their value, and what follows them.
abbrev pub digits_of : Bytes → Bytes
digits_of [] = []
digits_of (c ∷ s) = let rest = digits_of s in if is_digit c then c ∷ rest else []

abbrev pub after_digits : Bytes → Bytes
after_digits [] = []
after_digits (c ∷ s) = let rest = after_digits s in if is_digit c then rest else c ∷ s

abbrev pub value_from : ℕ → Bytes → ℕ
value_from n [] = n
value_from n (c ∷ s) = value_from (n * 10 + (c - b'0')) s

abbrev pub port_max : ℕ
port_max = 65535

unfoldable pub from_chars : Bytes → Result (ℕ × Bytes)
from_chars s = do
  let digits = digits_of s
  guard (not (is_nil digits) && leb (value_from 0 digits) port_max) invalid_argument
  ok (value_from 0 digits, after_digits s)

-- `to_string` of a `uint16_t`, which has five digits at most.
abbrev pub decimal : ℕ → ℕ → Bytes
decimal zero n = []
decimal (suc fuel) n =
    let front = decimal fuel (n / 10) in
    if ltb n 10 then (b'0' + n) ∷ [] else front ++ ((b'0' + n % 10) ∷ [])

unfoldable pub to_string : ℕ → Bytes
to_string n = decimal 5 n

-- `":" + to_string(port)`, if there is a port.
unfoldable pub port_text : Option ℕ → Bytes
unfolding to_string
port_text none = []
port_text (some n) = b':' ∷ to_string n

-- The characters of a host name; a dot may not come first or after another dot.
abbrev pub is_host_char : ℕ → Bool
is_host_char c = is_digit c || (leb b'a' c && leb c b'z') || (c == b'-')

abbrev pub is_accepted : ℕ → Bool → Bool
is_accepted c next_allow_dot = is_host_char c || is_upper c || (next_allow_dot && (c == b'.'))

pub record HostScan : Type 0 where
  pub host : Bytes
  pub has_dot : Bool
  pub rest : Bytes

-- The loop over the host.
unfoldable pub scan_host : Bool → Bytes → HostScan
unfolding lower
scan_host next_allow_dot [] = record { host = []; has_dot = false; rest = [] }
scan_host next_allow_dot (c ∷ url) =
    let more = scan_host (not (c == b'.')) url in
    if is_accepted c next_allow_dot
    then record {
      host = lower c ∷ more.host;
      has_dot = (c == b'.') || more.has_dot;
      rest = more.rest;
    }
    else record { host = []; has_dot = false; rest = c ∷ url }

-- `host.back() == '.'`
abbrev pub ends_in_dot : Bytes → Bool
ends_in_dot [] = false
ends_in_dot (c ∷ []) = c == b'.'
ends_in_dot (c ∷ d ∷ s) = ends_in_dot (d ∷ s)

abbrev pub is_host : HostScan → Bool
is_host h = not (ltb (length h.host) 4 || not h.has_dot || ends_in_dot h.host)

-- The protocols: `string_iequal` with the two names.
pub data Proto : Type 0 where
  http https : Proto

abbrev pub proto_text : Proto → Bytes
proto_text http = bytes "http://"
proto_text https = bytes "https://"

abbrev pub proto_of : Bytes → Option Proto
unfolding make_lc list_lt
proto_of name =
    if same (make_lc name) (bytes "http")
    then some http
    else if same (make_lc name) (bytes "https")
    then some https
    else none

abbrev pub default_port : Proto → ℕ
default_port http = 80
default_port https = 443

pub record Url : Type 0 where
  pub proto : Proto
  pub host : Bytes
  pub port : Option ℕ
  pub path : Option Bytes

-- The protocol, and what follows `://`.
abbrev pub split_proto : Bytes → Option ℕ → Option (Proto × Bytes)
unfolding proto_of
split_proto url none = none
split_proto url (some pos) = elim (proto_of (take pos url)) [
  | none ↦ none
  | some p ↦ some (p, drop 3 (drop pos url))
]

-- A port, unless it is the protocol's own, and what follows it.
abbrev pub split_port : Proto → Bytes → Result (Option ℕ × Bytes)
unfolding from_chars
split_port p [] = ok (none, [])
split_port p (c ∷ s) =
    let numbered = (do
      (n, rest) ← from_chars s
      ok (if n == default_port p then none else some n, rest)) in
    if c == b':' then numbered else ok (none, c ∷ s)

-- More than a single slash at the front is a path; what begins otherwise is dropped.
abbrev pub path_of : Bytes → Option Bytes
path_of [] = none
path_of (c ∷ []) = none
path_of (c ∷ d ∷ s) = if c == b'/' then some (c ∷ d ∷ s) else none

abbrev pub or_throw {ℓ} : {A : Type ℓ} → Option A → Result A
or_throw none = err invalid_argument
or_throw (some a) = ok a

-- What follows the host, and what follows the protocol.
unfoldable pub parse_end : Proto → HostScan → Result Url
unfolding split_port
parse_end p h = do
  guard (is_host h) invalid_argument
  (n, end) ← split_port p h.rest
  ok (record { proto = p; host = h.host; port = n; path = path_of end })

abbrev pub parse_rest : Proto × Bytes → Result Url
unfolding scan_host parse_end
parse_rest (p, rest) = parse_end p (scan_host false rest)

unfoldable pub parse_url : Bytes → Result Url
unfolding find split_proto parse_rest
parse_url url = do found ← or_throw (split_proto url (find (bytes "://") url)); parse_rest found
