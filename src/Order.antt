-- ===== src/Order.antt =====
-- Strict orders as the C++ containers use them: the Boolean `operator<` of a key type, with the
-- laws of a strict total order.
use libsession_util.Prelude.{◌≡◌, Bool, true, false, not, ◌&&◌, arith}

pub record Ord {ℓ} (A : Type ℓ) : Type ℓ where
  pub lt : A → A → Bool
  pub irrefl : (a : A) → lt a a ≡ false
  pub trans : (a b c : A) → lt a b ≡ true → lt b c ≡ true → lt a c ≡ true
  pub total : (a b : A) → lt a b ≡ false → lt b a ≡ false → a ≡ b

module _ {ℓ} {A : Type ℓ} ⦃o : Ord A⦄ where
  abbrev pub less : A → A → Bool
  less = o.lt

  -- Neither is below the other: the equality of keys in `std::map` and `std::set`.
  abbrev pub same : A → A → Bool
  same a b = not (less a b) && not (less b a)

  pub same_refl : (a : A) → same a a ≡ true
  same_refl a = ground (arith, o.irrefl a)

  pub eq_of_same : (a b : A) → same a b ≡ true → a ≡ b
  eq_of_same a b h = o.total a b (ground arith) (ground arith)

  pub less_asymm : (a b : A) → less a b ≡ true → less b a ≡ false
  less_asymm a b h = ground (arith, o.trans a b a, o.irrefl a)
