-- ===== src/Util/Text/Laws.antt =====
-- What truncation keeps, and the units that `to_epoch_seconds` tells apart.
use libsession_util.Prelude.{
  ℕ, zero, suc, ◌+◌, ◌-◌, ◌*◌, ◌^◌, ◌≤◌, ◌<◌, ◌≡◌, refl, sym, ap, ◌⊎◌, false, true, false,
  Bool-cases, inl, inr, [], ◌∷◌, arith, leb, length, take,
}
use libsession_util.Prelude.Int.{ℤ, pos, negsuc, ◌≤ℤ◌}
use libsession_util.Keys.{Bytes}
use libsession_util.Util.Text.{
  slices, cut_point, utf8_truncate, to_epoch_seconds, to_int, lower, make_lc,
}

up_to : (i n : ℕ) → i ≤ suc n → (i ≤ n) ⊎ (i ≡ suc n)
up_to i n h = elim (Bool-cases (leb i n)) [
  | inl e ↦ inl (ground arith)
  | inr e ↦ inr (ground arith)
]

-- The loop stops at a position that is no further than the bound; there it slices no code point,
-- or it is at the start; and every position that it has passed slices one.
cut_point_lem :
    (val : Bytes) (n : ℕ)
    → (cut_point val n ≤ n)
      × ((cut_point val n ≡ 0) ⊎ (slices val (cut_point val n) ≡ false))
      × ((i : ℕ) → cut_point val n < i → i ≤ n → slices val i ≡ true)
unfolding cut_point
cut_point_lem val zero = (omega arith, inl refl, λ i p q. absurd (omega arith))
cut_point_lem val (suc n) =
    let (le, good, last) = cut_point_lem val n in
    elim (Bool-cases (slices val (suc n))) [
      | inl e ↦
          rw e
            (omega arith, good, λ i p q. elim (up_to i n q) [ inl r ↦ last i p r | inr r ↦ rw r e ])
      | inr e ↦ rw e (omega arith, inr e, λ i p q. absurd (omega arith))
    ]

take-length : (val : Bytes) → take (length val) val ≡ val
take-length [] = refl
take-length (x ∷ val) = ap (λ v. x ∷ v) (take-length val)

length-take : (n : ℕ) (val : Bytes) → length (take n val) ≤ n
length-take zero val = omega arith
length-take (suc n) [] = omega arith
length-take (suc n) (x ∷ val) = omega (arith, length-take n val)

get_elem?-length : (val : Bytes) → slices val (length val) ≡ false
get_elem?-length [] = refl
get_elem?-length (x ∷ val) = get_elem?-length val

-- A truncated text is a front part of the text that is at most `n` bytes long, which ends where no
-- code point is sliced, and it is the longest such part: a longer cut within the bound slices one.
pub utf8_truncate_lem :
    (val : Bytes) (n : ℕ)
    → (m : ℕ) × (utf8_truncate val n ≡ take m val)
      × (length (utf8_truncate val n) ≤ n)
      × ((m ≡ 0) ⊎ (slices val m ≡ false))
      × ((i : ℕ) → m < i → i ≤ n → i ≤ length val → slices val i ≡ true)
unfolding utf8_truncate
utf8_truncate_lem val n = elim (Bool-cases (leb (length val) n)) [
  | inl e ↦ rw e (
    length val,
    sym (take-length val),
    ground arith,
    inr (get_elem?-length val),
    λ i p q r. absurd (omega arith),
  )
  | inr e ↦
      let (le, good, last) = cut_point_lem val n in
      rw e (
        cut_point val n,
        refl,
        omega (arith, length-take (cut_point val n) val, le),
        good,
        λ i p q r. last i p q,
      )
]

-- For the times from April 1970 to the year 2255, one and the same time in seconds, in
-- milliseconds and in microseconds becomes the same number of seconds.
to_epoch_seconds_units :
    (s ms us : ℕ)
    → 9000000 < s
    → s < 9000000000
    → ms < 1000
    → us < 1000000
    → (to_epoch_seconds (pos s) ≡ pos s)
      × (to_epoch_seconds (pos (s * 1000 + ms)) ≡ pos s)
      × (to_epoch_seconds (pos (s * 1000000 + us)) ≡ pos s)
unfolding to_epoch_seconds
to_epoch_seconds_units s ms us a b c d = (ground arith, ground arith, ground arith)

-- An `int` is unchanged by the narrowing.
pub to_int_of_int : (i : ℤ) → negsuc (2 ^ 31 - 1) ≤ℤ i → i ≤ℤ pos (2 ^ 31 - 1) → to_int i ≡ i
unfolding to_int
to_int_of_int (pos n) a b = ground arith
to_int_of_int (negsuc n) a b = ground arith

pub lower_idem : (c : ℕ) → lower (lower c) ≡ lower c
unfolding lower
lower_idem c = ground arith

pub make_lc_idem : (s : Bytes) → make_lc (make_lc s) ≡ make_lc s
unfolding make_lc
make_lc_idem [] = refl
make_lc_idem (c ∷ s) = cc (lower_idem c, make_lc_idem s)
