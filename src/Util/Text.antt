-- ===== src/Util/Text.antt =====
-- `utf8_truncate` and `to_epoch_seconds` of include/session/util.hpp, `make_lc` of src/config/
-- internal.cpp, and the narrowing of `int64_t` to `int`.
pub mod Laws
use libsession_util.Prelude.{
  ℕ, zero, suc, ◌+◌, ◌-◌, ◌*◌, ◌/◌, ◌%◌, ◌^◌, Bool, true, false, ◌&&◌, ◌==◌, Option, none, some,
  List, [], ◌∷◌, map, ltb, leb, length, take, get_elem?, if◌then◌else◌,
}
use libsession_util.Prelude.Int.{ℤ, pos, negsuc}
use libsession_util.Keys.{Bytes}

-- `(c & 0b1100'0000) == 0b1000'0000`
abbrev pub is_continuation : ℕ → Bool
is_continuation c = c / 64 % 4 == 2

-- Whether a cut before a position would slice a code point: past the end nothing stands.
abbrev pub slices : Bytes → ℕ → Bool
slices val n = elim (get_elem? val n) [ none ↦ false | some c ↦ is_continuation c ]

-- The loop `while (n > 0 && …) --n`.
unfoldable pub cut_point : Bytes → ℕ → ℕ
cut_point val zero = zero
cut_point val (suc n) =
    let earlier = cut_point val n in if slices val (suc n) then earlier else suc n

unfoldable pub utf8_truncate : Bytes → ℕ → Bytes
unfolding cut_point
utf8_truncate val n = if leb (length val) n then val else take (cut_point val n) val

-- Seconds from seconds, milliseconds or microseconds.
unfoldable pub to_epoch_seconds : ℤ → ℤ
to_epoch_seconds (pos t) =
    if ltb 9000000000000 t
    then pos (t / 1000000)
    else if ltb 9000000000 t
    then pos (t / 1000)
    else pos t
to_epoch_seconds (negsuc t) = negsuc t

-- `int` from `int64_t`: the low 32 bits, read as two's complement.
abbrev pub signed32 : ℕ → ℤ
signed32 w = if ltb w (2 ^ 31) then pos w else negsuc (2 ^ 32 - w - 1)

unfoldable pub to_int : ℤ → ℤ
to_int (pos n) = signed32 (n % 2 ^ 32)
to_int (negsuc n) = signed32 (2 ^ 32 - 1 - n % 2 ^ 32)

-- `c >= 'A' && c <= 'Z'`, and the loop of `make_lc`.
abbrev pub is_upper : ℕ → Bool
is_upper c = leb b'A' c && leb c b'Z'

unfoldable pub lower : ℕ → ℕ
lower c = if is_upper c then c + (b'a' - b'A') else c

unfoldable pub make_lc : Bytes → Bytes
unfolding lower
make_lc s = map lower s
