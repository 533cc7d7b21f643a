-- ===== src/Groups/Keys/Parse/Lists.antt =====
-- The lists of encrypted keys in a key message: their sizes and their number
-- (src/config/groups/keys.cpp).
use libsession_util.Prelude.{
  ℕ, zero, suc, ◌+◌, ◌-◌, ◌*◌, ◌%◌, ◌≤◌, ◌≡◌, refl, ap, ◌==◌, Bool, true, false, List, [], ◌∷◌,
  length, take, drop, All, arith, map, Bool-cases, inl, inr, length-drop,
}
use libsession_util.Prelude.Result.{ok}
use libsession_util.Keys.{Bytes}
use libsession_util.Groups.Keys.Crypt.{cut, encrypted_key_size, n_junk}
use libsession_util.Groups.Keys.Parse.{deliveries, drain}

-- All have the size of an encrypted key.
abbrev pub Sized : List Bytes → Type 0
Sized = All (λ t. length t ≡ 48)

abbrev pub is_48 : ℕ → Bool
is_48 n = n == encrypted_key_size

pub deliveries-Sized : (ts : List Bytes) → Sized ts → deliveries is_48 false (map ok ts) ≡ map ok ts
unfolding deliveries
deliveries-Sized [] h = refl
deliveries-Sized (t ∷ ts) h = rw (h.0, deliveries) (ap (ok t ∷◌) (deliveries-Sized ts h.1))

-- With a key, they are checked and skipped.
pub deliveries-skipped : (ts : List Bytes) → Sized ts → deliveries is_48 true (map ok ts) ≡ []
unfolding deliveries
deliveries-skipped [] h = refl
deliveries-skipped (t ∷ ts) h = rw (h.0, deliveries) (deliveries-skipped ts h.1)

pub drain-ok : (ts : List Bytes) → drain (map ok ts) ≡ ok tt
unfolding drain
drain-ok [] = refl
drain-ok (t ∷ ts) = drain-ok ts

module _ {ℓ} {A : Type ℓ} where
  pub length-take : (n : ℕ) (xs : List A) → n ≤ length xs → length (take n xs) ≡ n
  length-take zero xs h = refl
  length-take (suc n) [] h = absurd (omega arith)
  length-take (suc n) (x ∷ xs) h = ap suc (length-take n xs (omega arith))

-- Data of the size of `n` entries is cut into `n` entries, with the fuel of its length or more.
pub cut_lem :
    (n fuel : ℕ) (view : Bytes)
    → length view ≡ 48 * n
    → length view ≤ fuel
    → Sized (cut fuel view) × (length (cut fuel view) ≡ n)
unfolding cut
cut_lem n zero [] e l = (tt, omega arith)
cut_lem n (suc fuel) [] e l = (tt, omega arith)
cut_lem n zero (b ∷ bs) e l = absurd (omega arith)
cut_lem zero (suc fuel) (b ∷ bs) e l = absurd (omega arith)
cut_lem (suc n) (suc fuel) (b ∷ bs) e l =
    let shorter : length (drop 48 (b ∷ bs)) ≡ length (b ∷ bs) - 48 = length-drop 48 (b ∷ bs) in
    let (sized, count) =
      cut_lem n fuel (drop 48 (b ∷ bs)) (omega (arith, shorter)) (omega (arith, shorter)) in
    ((length-take 48 (b ∷ bs) (omega arith), sized), ap suc count)

-- The copies and their junk are a multiple of 45.
pub filled_up : (count : ℕ) → (count + n_junk count) % 45 ≡ 0
filled_up count = elim (Bool-cases (count % 45 == 0)) [
  | inl p ↦ ground (arith, p)
  | inr p ↦ ground (arith, p)
]
