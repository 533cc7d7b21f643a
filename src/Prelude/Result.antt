-- ===== src/Prelude/Result.antt =====
-- What a routine returns or throws. `Error` names the exception types of the configuration code;
-- their messages are not modelled. `endless_loop` marks where a
-- loop of the source makes no progress.
use mathlib.Core.Path.{◌≡◌, refl, subst}
use mathlib.Core.Logic.{◌⊎◌, inl, inr}
use mathlib.Core.Bool.{Bool, true, false}
use libsession_util.Prelude.Tests.{if◌then◌else◌}

-- `config_error` and its subclasses, oxenc's `bt_deserialize_invalid`, and what `std::get` throws.
pub data Error : Type 0 where
  config_error signature_error missing_signature config_parse_error : Error
  bt_deserialize_invalid bad_variant_access runtime_error logic_error length_error : Error
  invalid_argument decrypt_error endless_loop : Error

pub data Result {ℓ} (A : Type ℓ) : Type ℓ where
  ok : A → Result A
  err : Error → Result A

infixl 5 ◌>>=◌
infixl 5 ◌>>◌
-- An exception goes on to the caller; a value goes on to the rest of the routine.
abbrev pub ◌>>=◌ {ℓ μ} : {A : Type ℓ} {B : Type μ} → Result A → (A → Result B) → Result B
err e >>= rest = err e
ok a >>= rest = rest a

-- `if (!test) throw e;`
abbrev pub guard : (test : Bool) → Error → Result (Unit {0})
guard false e = err e
guard true e = ok tt

-- A check, then the rest.
abbrev pub ◌>>◌ {ℓ} : {B : Type ℓ} → Result (Unit {0}) → Result B → Result B
check >> rest = check >>= (λ done. rest)

-- Where a routine in two parts returns, its first part returned a value for the second.
pub >>=-eq-ok {ℓ μ} :
    {A : Type ℓ} {B : Type μ} (r : Result A) (rest : A → Result B) {v : B}
    → (r >>= rest) ≡ ok v
    → (a : A) × (r ≡ ok a) × (rest a ≡ ok v)
>>=-eq-ok (err e) rest p = cc
>>=-eq-ok (ok a) rest p = (a, refl, p)

-- A check that is followed by `m` succeeds if the test holds and `m` succeeds.
pub guard-eq-ok {ℓ} :
    {B : Type ℓ} (t : Bool) (e : Error) (m : Result B) {b : B}
    → (guard t e >> m) ≡ ok b
    → (t ≡ true) × (m ≡ ok b)
guard-eq-ok true e m h = (refl, h)
guard-eq-ok false e m h = cc

pub ok_injective {ℓ} : {A : Type ℓ} (a b : A) → ok a ≡ ok b → a ≡ b
ok_injective a b h = cc

-- A test that chooses between two routines.
pub if-eq-ok {ℓ} :
    {B : Type ℓ} (t : Bool) (m n : Result B) {b : B}
    → (if t then m else n) ≡ ok b
    → ((t ≡ true) × (m ≡ ok b)) ⊎ ((t ≡ false) × (n ≡ ok b))
if-eq-ok true m n h = inl (refl, h)
if-eq-ok false m n h = inr (refl, h)

-- What holds of the value of a routine wherever it returns one.
unfoldable pub Ensures {ℓ κ} : {A : Type ℓ} → (A → Type κ) → Result A → Type κ
Ensures P (ok a) = P a
Ensures P (err e) = Unit

pub Ensures-ok {ℓ κ} : {A : Type ℓ} (P : A → Type κ) (a : A) → P a → Ensures P (ok a)
unfolding Ensures
Ensures-ok P a h = h

pub Ensures-err {ℓ κ} : {A : Type ℓ} (P : A → Type κ) (e : Error) → Ensures P (err e)
unfolding Ensures
Ensures-err P e = tt

pub Ensures->>= {ℓ κ μ} :
    {A : Type ℓ} {B : Type κ} (P : B → Type μ) (m : Result A) (f : A → Result B)
    → ((a : A) → Ensures P (f a))
    → Ensures P (m >>= f)
unfolding Ensures
Ensures->>= P (ok a) f h = h a
Ensures->>= P (err e) f h = tt

pub Ensures-bind {ℓ κ μ ν} :
    {A : Type ℓ} {B : Type κ} (Q : A → Type ν) (P : B → Type μ) (m : Result A) (f : A → Result B)
    → Ensures Q m
    → ((a : A) → Q a → Ensures P (f a))
    → Ensures P (m >>= f)
unfolding Ensures
Ensures-bind Q P (ok a) f q h = h a q
Ensures-bind Q P (err e) f q h = tt

pub Ensures-if {ℓ μ} :
    {B : Type ℓ} (P : B → Type μ) (t : Bool) (m n : Result B)
    → (t ≡ true → Ensures P m)
    → (t ≡ false → Ensures P n)
    → Ensures P (if t then m else n)
Ensures-if P true m n hm hn = hm refl
Ensures-if P false m n hm hn = hn refl

pub Ensures-eq_ok {ℓ κ} :
    {A : Type ℓ} (P : A → Type κ) (m : Result A) (a : A) → Ensures P m → m ≡ ok a → P a
unfolding Ensures
Ensures-eq_ok P (ok b) a h e = subst P (ok_injective b a e) h
Ensures-eq_ok P (err x) a h e = cc

-- What is true of every value that a routine returns is ensured.
pub Ensures-of_eq {ℓ κ} :
    {A : Type ℓ} (P : A → Type κ) (m : Result A) → ((a : A) → m ≡ ok a → P a) → Ensures P m
unfolding Ensures
Ensures-of_eq P (ok a) h = h a refl
Ensures-of_eq P (err e) h = tt

pub Ensures-map {ℓ κ μ} :
    {A : Type ℓ} {P : A → Type κ} {Q : A → Type μ} (m : Result A)
    → ((a : A) → P a → Q a)
    → Ensures P m
    → Ensures Q m
unfolding Ensures
Ensures-map (ok a) f h = f a h
Ensures-map (err e) f h = tt

pub guard-Ensures {ℓ κ} :
    {B : Type ℓ} (P : B → Type κ) (t : Bool) (e : Error) (m : Result B)
    → (t ≡ true → Ensures P m)
    → Ensures P (guard t e >> m)
guard-Ensures P true e m h = h refl
guard-Ensures P false e m h = Ensures-err P e

pub Ensures-both {ℓ κ μ} :
    {A : Type ℓ} (P : A → Type κ) (Q : A → Type μ) (m : Result A)
    → Ensures P m
    → Ensures Q m
    → Ensures (λ a. P a × Q a) m
unfolding Ensures
Ensures-both P Q (ok a) p q = (p, q)
Ensures-both P Q (err e) p q = tt

-- A routine that returns, returns a value of which what is ensured holds.
pub Ensures-returned {ℓ κ} :
    {A : Type ℓ} (P : A → Type κ) (m : Result A) (a : A)
    → Ensures P m
    → m ≡ ok a
    → (b : A) × (m ≡ ok b) × P b
Ensures-returned P m a h e = (a, e, Ensures-eq_ok P m a h e)
