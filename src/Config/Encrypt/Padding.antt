-- ===== src/Config/Encrypt/Padding.antt =====
-- Padding: the sizes that it gives, and its removal.
use libsession_util.Prelude.{
  ℕ, zero, suc, ◌+◌, ◌-◌, ◌*◌, ◌/◌, ◌%◌, ◌≤◌, ◌<◌, ◌==◌, ◌≡◌, ◌≢◌, refl, ap, false, ◌∷◌, ◌++◌,
  arith, length, replicate, length-append, Bool-cases, inl, inr, ltb,
}
use libsession_util.Keys.{Bytes}
use libsession_util.Config.Encrypt.{
  padding_chunk, padded_size, pad_message, find_nonzero, strip_padding,
}

chunk_pos : (n : ℕ) → 0 < padding_chunk n
unfolding padding_chunk
chunk_pos n = ground arith

round_up : (n c : ℕ) → 0 < c → (n ≤ (n + c - 1) / c * c) × ((n + c - 1) / c * c < n + c)
round_up n c h = grind arith

-- The padded size, with the overhead, is the least multiple of the chunk that holds the message
-- and the overhead.
pub padded_size_bounds :
    (s overhead : ℕ)
    → (s ≤ padded_size s overhead)
      × (padded_size s overhead + overhead < s + overhead + padding_chunk (s + overhead))
      × ((padded_size s overhead + overhead) % padding_chunk (s + overhead) ≡ 0)
unfolding padded_size
padded_size_bounds s overhead =
    let c = padding_chunk (s + overhead) in
    let r = round_up (s + overhead) c (chunk_pos (s + overhead)) in
    let k = (s + overhead + c - 1) / c * c in
    let e : k - overhead + overhead ≡ k = omega arith in
    (omega arith, omega arith, rw e (grind arith))

pub length-replicate : (n : ℕ) → length {A = ℕ} (replicate n 0) ≡ n
length-replicate zero = refl
length-replicate (suc n) = ap suc (length-replicate n)

length-pad_message :
    (message : Bytes) (overhead : ℕ)
    → length (pad_message message overhead) ≡ padded_size (length message) overhead
unfolding pad_message
length-pad_message message overhead =
    let target = padded_size (length message) overhead in
    ground (
      arith,
      padded_size_bounds (length message) overhead,
      length-append (replicate (target - length message) 0) message,
      length-replicate (target - length message),
    )

find_nonzero_padded :
    (n c : ℕ) (cs : Bytes) → c ≢ 0 → find_nonzero (replicate n 0 ++ c ∷ cs) ≡ c ∷ cs
unfolding find_nonzero
find_nonzero_padded zero c cs h = let e : (c == 0) ≡ false = ground arith in rw e
find_nonzero_padded (suc n) c cs h = find_nonzero_padded n c cs h

-- A message that does not begin with a zero byte comes back from its padding, and its padded size
-- is that of `padded_size`.
pub strip_padding-pad_message :
    (c : ℕ) (cs : Bytes) (overhead : ℕ)
    → c ≢ 0
    → (strip_padding (pad_message (c ∷ cs) overhead) ≡ c ∷ cs)
      × (length (pad_message (c ∷ cs) overhead) ≡ padded_size (length (c ∷ cs)) overhead)
unfolding pad_message strip_padding
strip_padding-pad_message c cs overhead h = (
  elim (Bool-cases (ltb (length (c ∷ cs)) (padded_size (length (c ∷ cs)) overhead))) [
    | inl p ↦
        rw (p, pad_message, strip_padding)
          (rw
            (find_nonzero_padded (padded_size (length (c ∷ cs)) overhead - length (c ∷ cs)) c cs h))
    | inr p ↦ rw (p, pad_message, strip_padding) (rw (find_nonzero_padded 0 c cs h))
  ],
  length-pad_message (c ∷ cs) overhead,
)
