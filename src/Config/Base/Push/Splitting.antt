-- ===== src/Config/Base/Push/Splitting.antt =====
-- The chunks of a large message: together they are the message, none is empty or too large, and
-- there are as many of them as the code computes in advance.
use libsession_util.Prelude.{
  ◌≡◌, refl, ap, ◌∙◌, ℕ, zero, suc, ◌+◌, ◌-◌, ◌/◌, ◌≤◌, ◌<◌, List, [], ◌∷◌, ◌++◌, All, length, take,
  drop, arith, length-drop,
}
use libsession_util.Keys.{Bytes}
use libsession_util.Config.Base.{max_multipart_size}
use libsession_util.Config.Base.Push.Chunks.{max_chunk_size, number_of_chunks, chunks_of, chunks}

abbrev pub joined : List Bytes → Bytes
joined [] = []
joined (c ∷ cs) = c ++ joined cs

take-drop : (n : ℕ) (xs : Bytes) → take n xs ++ drop n xs ≡ xs
take-drop zero xs = refl
take-drop (suc n) [] = refl
take-drop (suc n) (x ∷ xs) = ap (◌∷◌ x) (take-drop n xs)

length-take :
    (n : ℕ) (xs : Bytes)
    → (length (take n xs) ≤ n) × (0 < n → 0 < length xs → 0 < length (take n xs))
length-take zero xs = (omega arith, λ p q. omega arith)
length-take (suc n) [] = (omega arith, λ p q. omega arith)
length-take (suc n) (x ∷ xs) = let r = length-take n xs in (omega (arith, r.0), λ p q. omega arith)

module _ (size : ℕ) (h : 0 < size) where
  joined-chunks_of :
      (fuel : ℕ) (msg : Bytes) → length msg ≤ fuel → joined (chunks_of size fuel msg) ≡ msg
  unfolding chunks_of
  joined-chunks_of fuel [] p = refl
  joined-chunks_of zero (b ∷ msg) p = absurd (omega arith)
  joined-chunks_of (suc fuel) (b ∷ msg) p =
      let q : length (drop size (b ∷ msg)) ≤ fuel = omega (arith, length-drop size (b ∷ msg)) in
      ap (λ t. take size (b ∷ msg) ++ t) (joined-chunks_of fuel (drop size (b ∷ msg)) q)
      ∙ take-drop size (b ∷ msg)

  chunks_of-All :
      (fuel : ℕ) (msg : Bytes)
      → All (λ c. (0 < length c) × (length c ≤ size)) (chunks_of size fuel msg)
  unfolding chunks_of
  chunks_of-All fuel [] = tt
  chunks_of-All zero (b ∷ msg) = tt
  chunks_of-All (suc fuel) (b ∷ msg) =
      let r = length-take size (b ∷ msg) in
      ((r.1 h (omega arith), r.0), chunks_of-All fuel (drop size (b ∷ msg)))

div_step :
    (n : ℕ)
    → suc ((suc n - max_chunk_size + max_chunk_size - 1) / max_chunk_size)
      ≡ (suc n + max_chunk_size - 1) / max_chunk_size
div_step n = omega arith

length-chunks_of :
    (fuel : ℕ) (msg : Bytes)
    → length msg ≤ fuel
    → length (chunks_of max_chunk_size fuel msg) ≡ number_of_chunks (length msg)
unfolding chunks_of number_of_chunks
length-chunks_of fuel [] p = omega arith
length-chunks_of zero (b ∷ msg) p = absurd (omega arith)
length-chunks_of (suc fuel) (b ∷ msg) p =
    let rest = drop max_chunk_size (b ∷ msg) in
    let e : length rest ≡ suc (length msg) - max_chunk_size =
      length-drop max_chunk_size (b ∷ msg) in
    let q : length rest ≤ fuel = omega (arith, e) in
    ap suc (length-chunks_of fuel rest q ∙ ap (λ n. (n + max_chunk_size - 1) / max_chunk_size) e)
    ∙ div_step (length msg)

-- The chunks of a message, joined, are the message; none is empty or larger than the maximum; and
-- for a message that `push` accepts there are as many as it computes, which a byte can count.
pub chunks_lem :
    (msg : Bytes)
    → length msg ≤ max_multipart_size
    → (joined (chunks msg) ≡ msg)
      × All (λ c. (0 < length c) × (length c ≤ max_chunk_size)) (chunks msg)
      × (length (chunks msg) ≡ number_of_chunks (length msg))
      × (number_of_chunks (length msg) ≤ 255)
unfolding chunks number_of_chunks
chunks_lem msg p = (
  joined-chunks_of max_chunk_size (omega arith) (length msg) msg (omega arith),
  chunks_of-All max_chunk_size (omega arith) (length msg) msg,
  length-chunks_of (length msg) msg (omega arith),
  omega arith,
)
