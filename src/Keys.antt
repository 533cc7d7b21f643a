-- ===== src/Keys.antt =====
-- The orders of the key types: numbers, 64-bit integers, byte strings (`std::string`, compared
-- byte by byte) and pairs (`std::pair`).
use Prim.Native.Char.{code}
use Prim.Native.String.{String}
use libsession_util.Prelude.{
  ℕ, ◌≡◌, refl, ap₂, Bool, true, false, ◌&&◌, ◌||◌, not, List, [], ◌∷◌, arith, ltb,
}
use libsession_util.Prelude.Int.{ℤ, ltb_ℤ, eq_of_parts}
use libsession_util.Order.{Ord, less}

-- `std::string` and the byte spans: a list of byte values.
abbrev pub Bytes : Type 0
Bytes = List ℕ

-- A literal, whose characters are all ASCII.
abbrev pub bytes : String → Bytes
bytes String.[] = []
bytes (String.◌∷◌ c s) = code c ∷ bytes s

pub nat_irrefl : (a : ℕ) → ltb a a ≡ false
nat_irrefl a = ground arith

pub nat_trans : (a b c : ℕ) → ltb a b ≡ true → ltb b c ≡ true → ltb a c ≡ true
nat_trans a b c p q = ground arith

pub nat_total : (a b : ℕ) → ltb a b ≡ false → ltb b a ≡ false → a ≡ b
nat_total a b p q = ground arith

instance abbrev pub nat_ord : Ord ℕ
nat_ord = record { lt = ltb; irrefl = nat_irrefl; trans = nat_trans; total = nat_total }

pub int_irrefl : (a : ℤ) → ltb_ℤ a a ≡ false
int_irrefl a = ground arith

pub int_trans : (a b c : ℤ) → ltb_ℤ a b ≡ true → ltb_ℤ b c ≡ true → ltb_ℤ a c ≡ true
int_trans a b c p q = ground arith

pub int_total : (a b : ℤ) → ltb_ℤ a b ≡ false → ltb_ℤ b a ≡ false → a ≡ b
int_total a b p q = eq_of_parts a b (ground arith)

instance abbrev pub int_ord : Ord ℤ
int_ord = record { lt = ltb_ℤ; irrefl = int_irrefl; trans = int_trans; total = int_total }

module _ {ℓ} {A : Type ℓ} ⦃o : Ord A⦄ where
  -- Lexicographic order.
  unfoldable pub list_lt : List A → List A → Bool
  list_lt [] [] = false
  list_lt [] (y ∷ ys) = true
  list_lt (x ∷ xs) [] = false
  list_lt (x ∷ xs) (y ∷ ys) = less x y || (not (less y x) && list_lt xs ys)

  pub list_irrefl : (a : List A) → list_lt a a ≡ false
  unfolding list_lt
  list_irrefl [] = refl
  list_irrefl (x ∷ xs) = ground (arith, list_irrefl xs, o.irrefl x)

  pub list_trans : (a b c : List A) → list_lt a b ≡ true → list_lt b c ≡ true → list_lt a c ≡ true
  unfolding list_lt
  list_trans [] [] c p q = ground arith
  list_trans [] (y ∷ ys) [] p q = ground arith
  list_trans [] (y ∷ ys) (z ∷ zs) p q = refl
  list_trans (x ∷ xs) [] c p q = ground arith
  list_trans (x ∷ xs) (y ∷ ys) [] p q = ground arith
  list_trans (x ∷ xs) (y ∷ ys) (z ∷ zs) p q = ground (
    arith,
    list_trans xs ys zs,
    o.trans x y z,
    o.trans z x y,
    o.trans y z x,
    o.total x y,
    o.total y z,
    o.irrefl x,
  )

  pub list_total : (a b : List A) → list_lt a b ≡ false → list_lt b a ≡ false → a ≡ b
  unfolding list_lt
  list_total [] [] p q = refl
  list_total [] (y ∷ ys) p q = ground arith
  list_total (x ∷ xs) [] p q = ground arith
  list_total (x ∷ xs) (y ∷ ys) p q = ground (arith, list_total xs ys, o.total x y)

  instance abbrev pub list_ord : Ord (List A)
  list_ord = record { lt = list_lt; irrefl = list_irrefl; trans = list_trans; total = list_total }

module _ {ℓ κ} {A : Type ℓ} {B : Type κ} ⦃o : Ord A⦄ ⦃r : Ord B⦄ where
  abbrev pub pair_lt : A × B → A × B → Bool
  pair_lt (a, b) (c, d) = less a c || (not (less c a) && less b d)

  pub pair_irrefl : (p : A × B) → pair_lt p p ≡ false
  pair_irrefl (a, b) = ground (arith, o.irrefl a, r.irrefl b)

  pub pair_trans : (p q s : A × B) → pair_lt p q ≡ true → pair_lt q s ≡ true → pair_lt p s ≡ true
  pair_trans (a, b) (c, d) (e, f) h k = ground (
    arith,
    o.trans a c e,
    o.trans e a c,
    o.trans c e a,
    o.total a c,
    o.total c e,
    o.irrefl a,
    r.trans b d f,
  )

  pub pair_total : (p q : A × B) → pair_lt p q ≡ false → pair_lt q p ≡ false → p ≡ q
  pair_total (a, b) (c, d) h k =
      ap₂ (λ x y. (x, y)) (o.total a c (ground arith) (ground arith))
        (r.total b d (ground (arith, o.total a c)) (ground (arith, o.total a c)))

  instance abbrev pub pair_ord : Ord (A × B)
  pair_ord = record { lt = pair_lt; irrefl = pair_irrefl; trans = pair_trans; total = pair_total }

-- `std::string`'s `operator<`.
instance abbrev pub bytes_ord : Ord Bytes
bytes_ord = list_ord
